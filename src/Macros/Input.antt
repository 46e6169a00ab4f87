-- ===== src/Macros/Input.antt =====
-- inqjet-macros/src/lib.rs: the input of `__hot_log`, from the tokens to the expansion. Tokens,
-- expressions and their parsers come from the crates proc_macro2 and syn, and are a parameter.
pub mod Calls
use inqjet.Common.{
  ℕ, zero, suc, ◌+◌, ◌-◌, ◌*◌, ◌/◌, ◌%◌, ◌^◌, ◌≤◌, ◌<◌, min, ◌≡◌, refl, sym, ap, ◌∙◌, ◌≡⟨◌⟩◌, ◌∎,
  ◌≢◌, ◌↔◌, ◌⊎◌, inl, inr, Bool, true, false, not, ◌&&◌, ◌||◌, Option, none, some, List, [], ◌∷◌,
  ◌++◌, map, append-nil, append_assoc, arith, ltb, leb, ◌==◌, if◌then◌else◌, ltb→lt, lt→ltb, le→ltb,
  leb→le, le→leb, lt→leb, Bool-cases, Option-cases, length, get_elem?, take, drop, replicate, All,
  length-append, length-drop, length-take, length-replicate, take-append-drop, take-append,
  drop-append, take-length, drop-length, drop-drop, take-append_at, drop-append_at, take-all,
  drop-all, ◌>>=◌, ◌>>◌, assert, >>=-eq-some, some_inj, some-none, assert-eq-some,
}
use inqjet.Common.Bytes.{Bytes}
use inqjet.Macros.{Expansion, generate}

-- A parser gives what it read and the tokens behind it, or an error. It moves only forwards.
pub record Syn : Type 1 where
  pub Token : Type 0
  pub Expr : Type 0
  pub is_comma : Token → Bool
  pub parse_expr : List Token → Option (Expr × List Token)
  pub parse_lit_str : List Token → Option (Bytes × List Token)
  pub parse_expr_shorter :
      (ts rest : List Token) (x : Expr) → parse_expr ts ≡ some (x, rest) → length rest ≤ length ts

module _ (S : Syn) where
  open S use {Token, Expr, is_comma, parse_expr, parse_lit_str}

  pub record HotLogInput : Type 0 where
    pub level : Expr
    pub target : Expr
    pub line : Expr
    pub fmt_str : Bytes
    pub args : List Expr

  -- `unfinished` is no result of the source: the model's loop ran out of fuel.
  pub data Args : Type 0 where
    parsed : List Expr → List Token → Args
    syntax_error unfinished : Args

  -- `parse::<Token![,]>()`, which leaves the stream as it is where there is no comma.
  unfoldable pub parse_comma : List Token → Option (List Token)
  parse_comma [] = none
  parse_comma (t ∷ ts) = if is_comma t then some ts else none

  abbrev pub push : Expr → Args → Args
  push x (parsed xs ts) = parsed (x ∷ xs) ts
  push x syntax_error = syntax_error
  push x unfinished = unfinished

  abbrev pub next_arg : (List Token → Args) → Option (Expr × List Token) → Args
  next_arg loop none = syntax_error
  next_arg loop (some (x, ts)) = push x (loop ts)

  -- No comma ends the loop, and so does a comma at the end.
  abbrev pub behind_comma : (List Token → Args) → List Token → Option (List Token) → Args
  behind_comma loop ts none = parsed [] ts
  behind_comma loop ts (some []) = parsed [] []
  behind_comma loop ts (some (t ∷ rest)) = next_arg loop (parse_expr (t ∷ rest))

  pub parse_args : ℕ → List Token → Args
  unfolding parse_comma
  parse_args zero ts = unfinished
  parse_args (suc fuel) ts = behind_comma (parse_args fuel) ts (parse_comma ts)

  -- Each round takes a comma at least.
  pub parse_input : List Token → Option ((List Expr → HotLogInput) × Args)
  unfolding parse_args parse_comma
  parse_input ts = do
    (level, ts) ← parse_expr ts
    ts ← parse_comma ts
    (target, ts) ← parse_expr ts
    ts ← parse_comma ts
    (line, ts) ← parse_expr ts
    ts ← parse_comma ts
    (fmt_str, ts) ← parse_lit_str ts
    some (
      λ args. record {
        level = level;
        target = target;
        line = line;
        fmt_str = fmt_str;
        args = args;
      },
      parse_args (suc (length ts)) ts,
    )

  -- What the compiler is given: an error of the parsing, or what `generate` makes of the input.
  pub data Compiled : Type 0 where
    compile_error : Compiled
    unending : Compiled
    expanded : HotLogInput → Expansion → Compiled

  abbrev pub with_args : (List Expr → HotLogInput) → Args → Compiled
  with_args input (parsed xs []) = expanded (input xs) (generate (input xs).fmt_str (length xs))
  with_args input (parsed xs (t ∷ ts)) = compile_error
  with_args input syntax_error = compile_error
  with_args input unfinished = unending

  abbrev pub compile : Option ((List Expr → HotLogInput) × Args) → Compiled
  compile none = compile_error
  compile (some (input, args)) = with_args input args

  -- `parse_macro_input!` refuses tokens that are left over.
  pub hot_log : List Token → Compiled
  unfolding parse_input
  hot_log ts = compile (parse_input ts)
