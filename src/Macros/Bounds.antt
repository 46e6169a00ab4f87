-- ===== src/Macros/Bounds.antt =====
-- The trait bounds that the expansion puts on its type parameters.
use inqjet.Common.{
  refl, ◌∙◌, ◌≢◌, ℕ, zero, suc, ◌+◌, ◌<◌, ◌≡◌, refl, ◌∙◌, ◌≢◌, Option, none, some, List, [], ◌∷◌,
  arith, ◌==◌, if◌then◌else◌, length, get_elem?,
}
use inqjet.Common.Bytes.{Bytes}
use inqjet.Macros.{
  FormatTrait, debug, PlaceholderInfo, Parsed, ok, err, stuck, parse_format_placeholders,
  extra_trait_bound, add_bound, bounds_from, block, expand, generate,
}

-- The bounds on one parameter.
abbrev pub bounds_on : ℕ → List (ℕ × FormatTrait) → List FormatTrait
bounds_on i [] = []
bounds_on i ((j, ft) ∷ bounds) = let rest = bounds_on i bounds in if i == j then ft ∷ rest else rest

-- What `write!` asks of the value behind a placeholder, besides `Debug`.
abbrev pub asked : Option PlaceholderInfo → List FormatTrait
asked none = []
asked (some p) = elim p.format_trait [ debug ↦ [] | ft ↦ ft ∷ [] ]

bounds_on-other :
    (i k : ℕ) (o : Option FormatTrait) (bounds : List (ℕ × FormatTrait))
    → i ≢ k
    → bounds_on i (add_bound k o bounds) ≡ bounds_on i bounds
bounds_on-other i k none bounds h = refl
bounds_on-other i k (some ft) bounds h = ground arith

bounds_on-own :
    (i k : ℕ) (p : PlaceholderInfo) (bounds : List (ℕ × FormatTrait))
    → i ≡ k
    → bounds_on i bounds ≡ []
    → bounds_on i (add_bound k (extra_trait_bound p.format_trait) bounds) ≡ asked (some p)
unfolding extra_trait_bound
bounds_on-own i k p bounds e h = ground arith

bounds_on-before :
    (i k : ℕ) (ps : List PlaceholderInfo) → i < k → bounds_on i (bounds_from k ps) ≡ []
unfolding bounds_from
bounds_on-before i k [] h = refl
bounds_on-before i k (p ∷ ps) h =
    bounds_on-other i k (extra_trait_bound p.format_trait) (bounds_from (k + 1) ps)
      (λ e. omega arith)
    ∙ bounds_on-before i (k + 1) ps (omega arith)

bounds_on-bounds_from :
    (i j k : ℕ) (ps : List PlaceholderInfo)
    → j ≡ k + i
    → bounds_on j (bounds_from k ps) ≡ asked (get_elem? ps i)
unfolding bounds_from
bounds_on-bounds_from i j k [] e = refl
bounds_on-bounds_from zero j k (p ∷ ps) e =
    bounds_on-own j k p (bounds_from (k + 1) ps) (omega arith)
      (bounds_on-before j (k + 1) ps (omega arith))
bounds_on-bounds_from (suc i) j k (p ∷ ps) e =
    bounds_on-other j k (extra_trait_bound p.format_trait) (bounds_from (k + 1) ps)
      (λ e'. omega arith)
    ∙ bounds_on-bounds_from i j (k + 1) ps (omega arith)

expand-block :
    (n : ℕ) (r : Parsed (List PlaceholderInfo)) (ps : List PlaceholderInfo)
    (bounds : List (ℕ × FormatTrait))
    → expand n r ≡ block ps bounds
    → (r ≡ ok ps) × (length ps ≡ n) × (bounds ≡ bounds_from 0 ps)
unfolding expand
expand-block n (ok qs) ps bounds e = ground arith
expand-block n (err x) ps bounds e = cc
expand-block n stuck ps bounds e = cc

-- Where the macro expands to a block, the format string has as many placeholders as there are
-- arguments, and the type parameter of each argument has just the bound that its placeholder's
-- trait asks for: none for `Debug`, which every decoded value has, and otherwise that trait.
pub generate-block :
    (fmt : Bytes) (n i : ℕ) (ps : List PlaceholderInfo) (bounds : List (ℕ × FormatTrait))
    → generate fmt n ≡ block ps bounds
    → (parse_format_placeholders fmt ≡ ok ps)
      × (length ps ≡ n)
      × (bounds_on i bounds ≡ asked (get_elem? ps i))
unfolding generate
generate-block fmt n i ps bounds e =
    let (parsed, count, same) = expand-block n (parse_format_placeholders fmt) ps bounds e in
    (parsed, count, rw same (bounds_on-bounds_from i i 0 ps (omega arith)))
