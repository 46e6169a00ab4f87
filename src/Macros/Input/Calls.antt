-- ===== src/Macros/Input/Calls.antt =====
-- The macro's input, as calls write it.
use mathlib.Core.Path.{subst}
use inqjet.Common.{
  length-map, ℕ, zero, suc, ◌≤◌, ◌<◌, ◌≡◌, refl, sym, ap, ◌≢◌, inl, inr, Bool, true, false, some,
  List, [], ◌∷◌, ◌++◌, map, append-nil, arith, if◌then◌else◌, Bool-cases, Option-cases, length, All,
  length-append, >>=-eq-some, some_inj, some-none,
}
use inqjet.Macros.{generate, block, bounds_from}
use inqjet.Macros.Parse.{Piece, print, holes, IsPiece, parse_format_placeholders-print}
use inqjet.Macros.Input.{
  Syn, HotLogInput, Args, parsed, syntax_error, unfinished, parse_comma, push, parse_args,
  parse_input, unending, expanded, with_args, hot_log,
}

module _ (S : Syn) where
  open S use {Token, Expr, is_comma, parse_expr, parse_lit_str}

  push-ne-unfinished : (x : Expr) (r : Args S) → r ≢ unfinished → push S x r ≢ unfinished
  push-ne-unfinished x (parsed xs ts) h e = cc
  push-ne-unfinished x syntax_error h e = cc
  push-ne-unfinished x unfinished h e = h refl

  parse_comma-le :
      (ts rest : List Token) → parse_comma S ts ≡ some rest → suc (length rest) ≤ length ts
  unfolding parse_comma
  parse_comma-le [] rest e = cc
  parse_comma-le (t ∷ ts) rest e = elim (Bool-cases (is_comma t)) [
    | inl c ↦ omega (arith, ap (λ (xs : List Token). length xs) (some_inj (rw c at e)))
    | inr c ↦ absurd (some-none (sym (rw c at e)))
  ]

  parse_args-ne-unfinished :
      (fuel : ℕ) (ts : List Token) → length ts < fuel → parse_args S fuel ts ≢ unfinished
  unfolding parse_args
  parse_args-ne-unfinished zero ts h = absurd (omega arith)
  parse_args-ne-unfinished (suc fuel) ts h = elim (Option-cases (parse_comma S ts)) [
    | inl e ↦ rw e (λ e'. cc)
    | inr ([], e) ↦ rw e (λ e'. cc)
    | inr (t ∷ rest, e) ↦ rw e (elim (Option-cases (parse_expr (t ∷ rest))) [
      | inl e' ↦ rw e' (λ e''. cc)
      | inr ((x, behind), e') ↦ rw e' (
          push-ne-unfinished x (parse_args S fuel behind) (
            parse_args-ne-unfinished fuel behind (
              omega (
                arith,
                parse_comma-le ts (t ∷ rest) e,
                S.parse_expr_shorter (t ∷ rest) behind x e',
              ))))
    ])
  ]

  with_args-ne-unending :
      (input : List Expr → HotLogInput S) (r : Args S)
      → r ≢ unfinished
      → with_args S input r ≢ unending
  with_args-ne-unending input (parsed xs []) h e = cc
  with_args-ne-unending input (parsed xs (t ∷ ts)) h e = cc
  with_args-ne-unending input syntax_error h e = cc
  with_args-ne-unending input unfinished h e = h refl

  parse_input-ne-unfinished :
      (ts : List Token) (input : List Expr → HotLogInput S) (args : Args S)
      → parse_input S ts ≡ some (input, args)
      → args ≢ unfinished
  unfolding parse_input
  parse_input-ne-unfinished ts input args e =
      let (_, _, h₁) = >>=-eq-some (parse_expr ts) _ e in
      let (_, _, h₂) = >>=-eq-some (parse_comma S _) _ h₁ in
      let (_, _, h₃) = >>=-eq-some (parse_expr _) _ h₂ in
      let (_, _, h₄) = >>=-eq-some (parse_comma S _) _ h₃ in
      let (_, _, h₅) = >>=-eq-some (parse_expr _) _ h₄ in
      let (_, _, h₆) = >>=-eq-some (parse_comma S _) _ h₅ in
      let ((_, behind), _, h₇) = >>=-eq-some (parse_lit_str _) _ h₆ in
      subst (λ r. r ≢ unfinished) (ap (λ p. p.1) (some_inj h₇))
        (parse_args-ne-unfinished (suc (length behind)) behind (omega arith))

  -- On every list of tokens, the macro ends: it is refused, or it is expanded.
  pub hot_log-ne-unending : (ts : List Token) → hot_log S ts ≢ unending
  unfolding hot_log parse_input
  hot_log-ne-unending ts = elim (Option-cases (parse_input S ts)) [
    | inl e ↦ rw e (λ e'. cc)
    | inr ((input, args), e) ↦
        rw e (with_args-ne-unending input args (parse_input-ne-unfinished ts input args e))
  ]

  -- An expression that a comma, or the end, follows is read from its tokens, of which there is one
  -- at least.
  pub record Spelled : Type 0 where
    pub first : Token
    pub more : List Token
    pub expr : Expr

  abbrev pub spell : Spelled → List Token
  spell x = x.first ∷ x.more

  module _ (comma : Token) where
    pub record IsSpelled (x : Spelled) : Type 0 where
      pub followed :
          (rest : List Token) → parse_expr (spell x ++ (comma ∷ rest)) ≡ some (x.expr, comma ∷ rest)
      pub ended : parse_expr (spell x) ≡ some (x.expr, [])

    -- Each argument behind a comma, and perhaps a comma at the end.
    abbrev pub spell_args : Bool → List Spelled → List Token
    spell_args trailing [] = if trailing then comma ∷ [] else []
    spell_args trailing (x ∷ xs) = comma ∷ (spell x ++ spell_args trailing xs)

    abbrev pub spell_call : (level target line : Spelled) → Token → Bool → List Spelled → List Token
    spell_call level target line literal trailing args =
        spell level
        ++ (comma
            ∷ (spell target
                ++ (comma ∷ (spell line ++ (comma ∷ (literal ∷ spell_args trailing args))))))

    module _ (comma_is : is_comma comma ≡ true) where
      parse_comma-eq : (ts : List Token) → parse_comma S (comma ∷ ts) ≡ some ts
      unfolding parse_comma
      parse_comma-eq ts = rw comma_is

      parse_expr-spell_args :
          (x : Spelled) (trailing : Bool) (xs : List Spelled)
          → IsSpelled x
          → parse_expr (spell x ++ spell_args trailing xs) ≡ some (x.expr, spell_args trailing xs)
      parse_expr-spell_args x true [] v = v.followed []
      parse_expr-spell_args x false [] v = rw append-nil v.ended
      parse_expr-spell_args x trailing (y ∷ ys) v = v.followed _

      parse_args-spell_args :
          (fuel : ℕ) (trailing : Bool) (xs : List Spelled)
          → All IsSpelled xs
          → length xs < fuel
          → parse_args S fuel (spell_args trailing xs) ≡ parsed (map (λ x. x.expr) xs) []
      unfolding parse_args
      parse_args-spell_args zero trailing xs v h = absurd (omega arith)
      parse_args-spell_args (suc fuel) true [] v h = rw (parse_comma-eq [])
      parse_args-spell_args (suc fuel) false [] v h = unfold parse_comma in refl
      parse_args-spell_args (suc fuel) trailing (x ∷ xs) (v, vs) h = rw (
        parse_comma-eq (spell x ++ spell_args trailing xs),
        parse_expr-spell_args x trailing xs v,
        parse_args-spell_args fuel trailing xs vs (omega arith),
      )

      length-spell_args :
          (trailing : Bool) (xs : List Spelled) → length xs ≤ length (spell_args trailing xs)
      length-spell_args trailing [] = omega arith
      length-spell_args trailing (x ∷ xs) =
          omega
            (arith, length-append (spell x) (spell_args trailing xs), length-spell_args trailing xs)

      -- A call whose literal is a well-formed template, with as many arguments as placeholders and
      -- with or without a comma at the end, is expanded: its input is what was written, in order, and
      -- the block has the template's placeholders.
      pub hot_log-spell_call :
          (level target line : Spelled) (literal : Token) (pieces : List Piece) (trailing : Bool)
          (args : List Spelled)
          → IsSpelled level
          → IsSpelled target
          → IsSpelled line
          → All IsSpelled args
          → All IsPiece pieces
          → ((rest : List Token) → parse_lit_str (literal ∷ rest) ≡ some (print pieces, rest))
          → length (holes pieces) ≡ length args
          → hot_log S (spell_call level target line literal trailing args)
            ≡ expanded
                (record {
                  level = level.expr;
                  target = target.expr;
                  line = line.expr;
                  fmt_str = print pieces;
                  args = map (λ x. x.expr) args;
                })
                (block (holes pieces) (bounds_from 0 (holes pieces)))
      unfolding hot_log parse_input generate
      hot_log-spell_call level target line literal pieces trailing args l t n vs ps lit count =
          rw
            (
              l.followed _,
              parse_comma-eq _,
              t.followed _,
              parse_comma-eq _,
              n.followed _,
              parse_comma-eq _,
              lit _,
              parse_args-spell_args (suc (length (spell_args trailing args))) trailing args vs
                  (omega (arith, length-spell_args trailing args)),
              parse_format_placeholders-print pieces ps,
            )
            (ground (arith, count, length-map (λ (x : Spelled). x.expr) args))
