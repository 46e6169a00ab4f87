-- ===== src/Examples/Expansions.antt =====
-- A macro's input, where a token is a number and an expression one token.
use inqjet.Common.{
  ℕ, ◌≤◌, ◌≡◌, refl, sym, ap, ◌≢◌, inl, inr, true, Option, none, some, List, [], ◌∷◌, arith, ◌==◌,
  if◌then◌else◌, Bool-cases, length, some_inj, some-none,
}
use inqjet.Common.Bytes.{Bytes, codes}
use inqjet.Macros.{
  block, bounds_from, generate, parse_format_placeholders, Parsed, PlaceholderInfo, display, debug,
}
use inqjet.Macros.Parse.{holes, print}
use inqjet.Macros.Bounds.{bounds_on, generate-block}
use inqjet.Macros.Input.{Syn, expanded, unending, hot_log}
use inqjet.Macros.Input.Calls.{Spelled, IsSpelled, hot_log-spell_call, hot_log-ne-unending}
use inqjet.Examples.Runs.{template, template-IsPiece}

abbrev expression : List ℕ → Option (ℕ × List ℕ)
expression [] = none
expression (t ∷ ts) = if t == b',' then none else some (t, ts)

-- Every token is the literal `template`.
abbrev literal : List ℕ → Option (Bytes × List ℕ)
literal [] = none
literal (t ∷ ts) = some (print template, ts)

expression_shorter :
    (ts rest : List ℕ) (x : ℕ) → expression ts ≡ some (x, rest) → length rest ≤ length ts
expression_shorter [] rest x e = cc
expression_shorter (t ∷ ts) rest x e = elim (Bool-cases (t == b',')) [
  | inl h ↦ absurd (some-none (sym (rw h at e)))
  | inr h ↦ omega (arith, ap (λ (p : ℕ × List ℕ). length (p.1)) (some_inj (rw h at e)))
]

abbrev numbers : Syn
numbers = record {
  Token = ℕ;
  Expr = ℕ;
  is_comma = λ t. t == b',';
  parse_expr = expression;
  parse_lit_str = literal;
  parse_expr_shorter = expression_shorter;
}

abbrev spelled : ℕ → Spelled numbers
spelled t = record { first = t; more = []; expr = t }

one-IsSpelled : IsSpelled numbers b',' (spelled 1)
one-IsSpelled = record { followed = λ rest. refl; ended = refl }

two-IsSpelled : IsSpelled numbers b',' (spelled 2)
two-IsSpelled = record { followed = λ rest. refl; ended = refl }

hot_log-spell_call_example :
    hot_log numbers (1 ∷ b',' ∷ 2 ∷ b',' ∷ 1 ∷ b',' ∷ 0 ∷ b',' ∷ 2 ∷ b',' ∷ 1 ∷ b',' ∷ [])
    ≡ expanded
        (record { level = 1; target = 2; line = 1; fmt_str = print template; args = 2 ∷ 1 ∷ [] })
        (block (holes template) (bounds_from 0 (holes template)))
hot_log-spell_call_example =
    hot_log-spell_call numbers b',' refl (spelled 1) (spelled 2) (spelled 1) 0 template true
      (spelled 2 ∷ spelled 1 ∷ []) one-IsSpelled two-IsSpelled one-IsSpelled
      (two-IsSpelled, (one-IsSpelled, tt)) template-IsPiece (λ rest. refl) refl

hot_log-ne-unending_example : hot_log numbers (1 ∷ b',' ∷ b',' ∷ []) ≢ unending
hot_log-ne-unending_example = hot_log-ne-unending numbers (1 ∷ b',' ∷ b',' ∷ [])

-- `{}{:?}`
abbrev shown_twice : Bytes
shown_twice = codes "{}{:?}"

abbrev first : PlaceholderInfo
first = record { format_trait = display; inner = [] }

abbrev second : PlaceholderInfo
second = record { format_trait = debug; inner = codes ":?" }

twice_generated : generate shown_twice 2 ≡ block (first ∷ second ∷ []) ((0, display) ∷ [])
unfolding generate parse_format_placeholders
twice_generated = refl

generate-block_example :
    (parse_format_placeholders shown_twice ≡ Parsed.ok (first ∷ second ∷ []))
    × (length (first ∷ second ∷ []) ≡ 2)
    × (bounds_on 1 ((0, display) ∷ []) ≡ [])
generate-block_example =
    generate-block shown_twice 2 1 (first ∷ second ∷ []) ((0, display) ∷ []) twice_generated
