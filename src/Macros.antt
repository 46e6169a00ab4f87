-- ===== src/Macros.antt =====
-- inqjet-macros/src/lib.rs: the analysis of a format string. A string is its UTF-8 bytes: the
-- characters that the analysis looks for are ASCII, which no other character's bytes contain.
pub mod Parse
pub mod Input
pub mod Bounds
pub mod Derive
use inqjet.Common.{
  ℕ, zero, suc, ◌+◌, Bool, true, false, ◌&&◌, Option, none, some, List, [], ◌∷◌, ◌++◌, leb, ◌==◌,
  if◌then◌else◌, length,
}
use inqjet.Common.Bytes.{Bytes}

pub data FormatTrait : Type 0 where
  display debug lower_hex upper_hex octal binary lower_exp upper_exp pointer : FormatTrait

pub record PlaceholderInfo : Type 0 where
  pub format_trait : FormatTrait
  pub inner : Bytes

-- The two messages of the source, with the placeholder that they quote.
pub data ParseError : Type 0 where
  explicit_index named_argument : Bytes → ParseError

-- `stuck` is no result of the source: the model's loop ran out of fuel.
pub data Parsed {ℓ} (A : Type ℓ) : Type ℓ where
  ok : A → Parsed A
  err : ParseError → Parsed A
  stuck : Parsed A

abbrev last_char : Bytes → Option ℕ
last_char [] = none
last_char (c ∷ []) = some c
last_char (c ∷ d ∷ cs) = last_char (d ∷ cs)

trait_of_char : ℕ → FormatTrait
trait_of_char c =
    if c == b'?'
    then debug
    else if c == b'x'
    then lower_hex
    else if c == b'X'
    then upper_hex
    else if c == b'o'
    then octal
    else if c == b'b'
    then binary
    else if c == b'e'
    then lower_exp
    else if c == b'E'
    then upper_exp
    else if c == b'p'
    then pointer
    else display

unfoldable pub format_trait_from_spec : Bytes → FormatTrait
unfolding trait_of_char
format_trait_from_spec spec = elim (last_char spec) [ none ↦ display | some c ↦ trait_of_char c ]

-- What stands in front of the first `:`, and what begins with it.
abbrev arg_part : Bytes → Bytes
arg_part [] = []
arg_part (c ∷ cs) = if c == b':' then [] else c ∷ arg_part cs

abbrev spec_part : Bytes → Bytes
spec_part [] = []
spec_part (c ∷ cs) = if c == b':' then c ∷ cs else spec_part cs

abbrev all_digits : Bytes → Bool
all_digits [] = true
all_digits (c ∷ cs) = (leb b'0' c && leb c b'9') && all_digits cs

-- The characters up to the next `}`, and those behind it; where there is none, all of them.
abbrev pub take_inner : Bytes → Bytes × Bytes
take_inner [] = ([], [])
take_inner (c ∷ cs) =
    let (inner, rest) = take_inner cs in if c == b'}' then ([], cs) else (c ∷ inner, rest)

classify : Bytes → Bytes → Bytes → Parsed PlaceholderInfo
unfolding format_trait_from_spec
classify [] spec inner = ok (record { format_trait = format_trait_from_spec spec; inner = inner })
classify (c ∷ cs) spec inner =
    if all_digits (c ∷ cs) then err (explicit_index inner) else err (named_argument inner)

-- One placeholder.
placeholder : Bytes → Parsed PlaceholderInfo
unfolding classify
placeholder inner = classify (arg_part inner) (spec_part inner) inner

-- `chars.peek() == Some(&c)`
abbrev next_is : ℕ → Bytes → Bool
next_is c [] = false
next_is c (d ∷ cs) = d == c

abbrev tail : Bytes → Bytes
tail [] = []
tail (c ∷ cs) = cs

-- A placeholder that was accepted joins the list, and the loop goes on; an error ends it.
abbrev and_then :
    Parsed PlaceholderInfo
    → (PlaceholderInfo → Parsed (List PlaceholderInfo))
    → Parsed (List PlaceholderInfo)
and_then (ok p) next = next p
and_then (err e) next = err e
and_then stuck next = stuck

parse_loop : ℕ → Bytes → List PlaceholderInfo → Parsed (List PlaceholderInfo)
unfolding placeholder
parse_loop fuel [] placeholders = ok placeholders
parse_loop zero (c ∷ cs) placeholders = stuck
parse_loop (suc fuel) (c ∷ cs) placeholders =
    let escaped = parse_loop fuel (tail cs) placeholders in
    let (inner, rest) = take_inner cs in
    let hole =
      and_then (placeholder inner) (λ p. parse_loop fuel rest (placeholders ++ (p ∷ []))) in
    let other = parse_loop fuel cs placeholders in
    if c == b'{'
    then (if next_is b'{' cs then escaped else hole)
    else if (c == b'}') && next_is b'}' cs
    then escaped
    else other

-- Each round takes a character at least.
unfoldable pub parse_format_placeholders : Bytes → Parsed (List PlaceholderInfo)
unfolding parse_loop
parse_format_placeholders fmt = parse_loop (length fmt) fmt []

-- `Debug` is a bound of `HotDecode` itself.
unfoldable pub extra_trait_bound : FormatTrait → Option FormatTrait
extra_trait_bound debug = none
extra_trait_bound ft = some ft

abbrev add_bound : ℕ → Option FormatTrait → List (ℕ × FormatTrait) → List (ℕ × FormatTrait)
add_bound i none bounds = bounds
add_bound i (some ft) bounds = (i, ft) ∷ bounds

-- The bounds of the type parameters, each with the parameter's index.
pub bounds_from : ℕ → List PlaceholderInfo → List (ℕ × FormatTrait)
unfolding extra_trait_bound
bounds_from i [] = []
bounds_from i (p ∷ ps) = add_bound i (extra_trait_bound p.format_trait) (bounds_from (i + 1) ps)

-- What `generate` expands to: a compile error, or a block, which its placeholders determine.
pub data Expansion : Type 0 where
  bad_format : ParseError → Expansion
  wrong_count : (expected provided : ℕ) → Expansion
  block : List PlaceholderInfo → (bounds : List (ℕ × FormatTrait)) → Expansion
  out_of_fuel : Expansion

expand : ℕ → Parsed (List PlaceholderInfo) → Expansion
unfolding bounds_from
expand n (ok ps) = if length ps == n then block ps (bounds_from 0 ps) else wrong_count (length ps) n
expand n (err e) = bad_format e
expand n stuck = out_of_fuel

unfoldable pub generate : Bytes → ℕ → Expansion
unfolding expand parse_format_placeholders
generate fmt_str n = expand n (parse_format_placeholders fmt_str)
