-- ===== src/Macros/Parse.antt =====
-- The parser of format strings against templates: pieces of literal text and placeholders.
use inqjet.Common.{
  ℕ, zero, suc, ◌≤◌, ◌≡◌, refl, ap, ◌∙◌, ◌≢◌, ◌||◌, List, [], ◌∷◌, ◌++◌, append-nil, append_assoc,
  arith, ◌==◌, if◌then◌else◌, length, All, length-append, false,
}
use inqjet.Common.Bytes.{Bytes}
use inqjet.Macros.{
  PlaceholderInfo, explicit_index, named_argument, Parsed, ok, err, stuck, format_trait_from_spec,
  arg_part, take_inner, classify, placeholder, parse_loop, parse_format_placeholders, all_digits,
  tail, and_then, out_of_fuel, expand, generate, next_is, spec_part,
}

-- A literal stands for its own text; a placeholder's spec is what its braces enclose.
pub data Piece : Type 0 where
  text : Bytes → Piece
  hole : Bytes → Piece

-- Braces of a literal are doubled.
abbrev pub escape : Bytes → Bytes
escape [] = []
escape (c ∷ cs) = if (c == b'{') || (c == b'}') then c ∷ c ∷ escape cs else c ∷ escape cs

abbrev pub print : List Piece → Bytes
print [] = []
print (text t ∷ ps) = escape t ++ print ps
print (hole s ∷ ps) = b'{' ∷ (s ++ (b'}' ∷ print ps))

abbrev pub Lacks : ℕ → Bytes → Type 0
Lacks b = All (λ c. c ≢ b)

-- The spec of a positional placeholder is empty or begins with a colon, and holds no `}`.
abbrev pub IsSpec : Bytes → Type 0
IsSpec [] = Unit
IsSpec (c ∷ cs) = (c ≡ b':') × Lacks b'}' (c ∷ cs)

abbrev pub IsPiece : Piece → Type 0
IsPiece (text t) = Unit
IsPiece (hole s) = IsSpec s

abbrev pub info : Bytes → PlaceholderInfo
info s = record { format_trait = format_trait_from_spec s; inner = s }

abbrev pub holes : List Piece → List PlaceholderInfo
holes [] = []
holes (text t ∷ ps) = holes ps
holes (hole s ∷ ps) = info s ∷ holes ps

take_inner-append : (s rest : Bytes) → Lacks b'}' s → take_inner (s ++ (b'}' ∷ rest)) ≡ (s, rest)
take_inner-append [] rest h = refl
take_inner-append (c ∷ cs) rest (hc, hs) = ground (arith, take_inner-append cs rest hs)

placeholder-IsSpec : (s : Bytes) → IsSpec s → placeholder s ≡ ok (info s)
unfolding placeholder
placeholder-IsSpec [] h = unfold classify in refl
placeholder-IsSpec (c ∷ cs) (hc, _) = unfold classify in ground arith

-- A literal is passed over, whatever follows it, at the cost of at most a round for each character.
parse_loop-escape :
    (t rest : Bytes) (fuel : ℕ) (acc : List PlaceholderInfo)
    → length (escape t ++ rest) ≤ fuel
    → (fuel' : ℕ) × (parse_loop fuel (escape t ++ rest) acc ≡ parse_loop fuel' rest acc)
      × (length rest ≤ fuel')
parse_loop-escape [] rest fuel acc h = (fuel, refl, h)
parse_loop-escape (c ∷ cs) rest zero acc h = absurd (ground arith)
parse_loop-escape (c ∷ cs) rest (suc fuel) acc h =
    let (fuel', e, room) = parse_loop-escape cs rest fuel acc (ground arith) in
    (fuel', escape_round c cs rest fuel acc ∙ e, room)
  where
    escape_round :
        (c : ℕ) (cs rest : Bytes) (fuel : ℕ) (acc : List PlaceholderInfo)
        → parse_loop (suc fuel) (escape (c ∷ cs) ++ rest) acc
          ≡ parse_loop fuel (escape cs ++ rest) acc
    escape_round c cs rest fuel acc = unfold parse_loop in ground arith

-- A placeholder is added to the list.
parse_loop-hole :
    (s rest : Bytes) (fuel : ℕ) (acc : List PlaceholderInfo)
    → IsSpec s
    → parse_loop (suc fuel) (b'{' ∷ (s ++ (b'}' ∷ rest))) acc
      ≡ parse_loop fuel rest (acc ++ (info s ∷ []))
unfolding parse_loop
parse_loop-hole [] rest fuel acc h = unfold placeholder classify in refl
parse_loop-hole (c ∷ cs) rest fuel acc (hc, lacks) =
    ground (arith, take_inner-append (c ∷ cs) rest lacks, placeholder-IsSpec (c ∷ cs) (hc, lacks))

-- The pieces in front of `rest` are read off one by one.
parse_loop-print :
    (ps : List Piece) (rest : Bytes) (fuel : ℕ) (acc : List PlaceholderInfo)
    → All IsPiece ps
    → length (print ps ++ rest) ≤ fuel
    → (fuel' : ℕ) × (parse_loop fuel (print ps ++ rest) acc
        ≡ parse_loop fuel' rest (acc ++ holes ps))
      × (length rest ≤ fuel')
parse_loop-print [] rest fuel acc v h = (fuel, rw append-nil, h)
parse_loop-print (text t ∷ ps) rest fuel acc (_, v) h =
    let (f₁, e₁, r₁) =
      parse_loop-escape t (print ps ++ rest) fuel acc
        (rw (append_assoc (escape t) (print ps) rest) at h) in
    let (f₂, e₂, r₂) = parse_loop-print ps rest f₁ acc v r₁ in
    (f₂, rw (append_assoc (escape t) (print ps) rest) (e₁ ∙ e₂), r₂)
parse_loop-print (hole s ∷ ps) rest zero acc (vs, v) h = absurd (omega arith)
parse_loop-print (hole s ∷ ps) rest (suc fuel) acc (vs, v) h =
    let (f₂, e₂, r₂) = parse_loop-print ps rest fuel (acc ++ (info s ∷ [])) v (less s h) in
    (
      f₂,
      rw (append_assoc s (b'}' ∷ print ps) rest, ← append_assoc acc (info s ∷ []) (holes ps))
          (parse_loop-hole s (print ps ++ rest) fuel acc vs ∙ e₂),
      r₂,
    )
  where
    less :
        (s : Bytes)
        → length (print (hole s ∷ ps) ++ rest) ≤ suc fuel
        → length (print ps ++ rest) ≤ fuel
    less s h = omega (
      arith,
      ap (λ (xs : Bytes). length xs) (append_assoc s (b'}' ∷ print ps) rest),
      length-append s (b'}' ∷ (print ps ++ rest)),
    )

-- The parser finds the placeholders of every template, in order, each with the formatting trait that
-- its spec asks for, and takes escaped braces for text.
pub parse_format_placeholders-print :
    (ps : List Piece) → All IsPiece ps → parse_format_placeholders (print ps) ≡ ok (holes ps)
unfolding parse_format_placeholders
parse_format_placeholders-print ps v =
    let (_, e, _) = parse_loop-print ps [] (length (print ps)) [] v (rw append-nil (omega arith)) in
    rw append-nil at e

placeholder_refused :
    (c : ℕ) (cs : Bytes)
    → c ≢ b':'
    → placeholder (c ∷ cs)
      ≡ err (
          if all_digits (arg_part (c ∷ cs))
          then explicit_index (c ∷ cs)
          else named_argument (c ∷ cs))
unfolding placeholder classify
placeholder_refused c cs h = ground arith

hole_round :
    (fuel : ℕ) (cs : Bytes) (acc : List PlaceholderInfo)
    → next_is b'{' cs ≡ false
    → parse_loop (suc fuel) (b'{' ∷ cs) acc
      ≡ and_then
          (placeholder (take_inner cs).0)
          (λ p. parse_loop fuel (take_inner cs).1 (acc ++ (p ∷ [])))
unfolding parse_loop
hole_round fuel cs acc h = rw h

ne→== : (a b : ℕ) → a ≢ b → (a == b) ≡ false
ne→== a b h = ground arith

refused_round :
    (fuel c : ℕ) (cs rest : Bytes) (acc : List PlaceholderInfo)
    → length (b'{' ∷ ((c ∷ cs) ++ (b'}' ∷ rest))) ≤ fuel
    → c ≢ b'{'
    → c ≢ b':'
    → Lacks b'}' (c ∷ cs)
    → parse_loop fuel (b'{' ∷ ((c ∷ cs) ++ (b'}' ∷ rest))) acc
      ≡ err (
          if all_digits (arg_part (c ∷ cs))
          then explicit_index (c ∷ cs)
          else named_argument (c ∷ cs))
unfolding parse_loop
refused_round zero c cs rest acc h brace colon lacks = absurd (omega arith)
refused_round (suc fuel) c cs rest acc h brace colon lacks =
    hole_round fuel ((c ∷ cs) ++ (b'}' ∷ rest)) acc (ne→== c b'{' brace)
    ∙ rw (take_inner-append (c ∷ cs) rest lacks, placeholder_refused c cs colon)

-- Behind any template, a placeholder with an argument is refused: with an index if the argument is
-- all digits, and as a named argument otherwise; what follows it does not matter.
pub parse_format_placeholders_rejects :
    (ps : List Piece) (c : ℕ) (cs rest : Bytes)
    → All IsPiece ps
    → c ≢ b'{'
    → c ≢ b':'
    → Lacks b'}' (c ∷ cs)
    → parse_format_placeholders (print ps ++ (b'{' ∷ ((c ∷ cs) ++ (b'}' ∷ rest))))
      ≡ err (
          if all_digits (arg_part (c ∷ cs))
          then explicit_index (c ∷ cs)
          else named_argument (c ∷ cs))
unfolding parse_format_placeholders
parse_format_placeholders_rejects ps c cs rest v brace colon lacks =
    let (fuel, e, room) =
      parse_loop-print ps (b'{' ∷ ((c ∷ cs) ++ (b'}' ∷ rest)))
        (length (print ps ++ (b'{' ∷ ((c ∷ cs) ++ (b'}' ∷ rest))))) [] v (omega arith) in
    e ∙ refused_round fuel c cs rest (holes ps) room brace colon lacks

take_inner-le : (cs : Bytes) → length (take_inner cs).1 ≤ length cs
take_inner-le [] = omega arith
take_inner-le (c ∷ cs) = ground (arith, take_inner-le cs)

classify-ne-stuck : (arg spec inner : Bytes) → classify arg spec inner ≢ stuck
unfolding classify
classify-ne-stuck [] spec inner e = cc
classify-ne-stuck (c ∷ cs) spec inner e = ground arith

placeholder-ne-stuck : (inner : Bytes) → placeholder inner ≢ stuck
unfolding placeholder
placeholder-ne-stuck inner = classify-ne-stuck (arg_part inner) (spec_part inner) inner

and_then-ne-stuck :
    (r : Parsed PlaceholderInfo) (next : PlaceholderInfo → Parsed (List PlaceholderInfo))
    → r ≢ stuck
    → ((p : PlaceholderInfo) → next p ≢ stuck)
    → and_then r next ≢ stuck
and_then-ne-stuck (ok p) next h k = k p
and_then-ne-stuck (err e) next h k = λ e. cc
and_then-ne-stuck stuck next h k = absurd (h refl)

parse_loop-ne-stuck :
    (fuel : ℕ) (cs : Bytes) (acc : List PlaceholderInfo)
    → length cs ≤ fuel
    → parse_loop fuel cs acc ≢ stuck
unfolding parse_loop
parse_loop-ne-stuck fuel [] acc h = λ e. cc
parse_loop-ne-stuck zero (c ∷ cs) acc h = absurd (omega arith)
parse_loop-ne-stuck (suc fuel) (c ∷ cs) acc h = ground (
  arith,
  parse_loop-ne-stuck fuel (tail cs) acc (shorter cs h),
  parse_loop-ne-stuck fuel cs acc (omega arith),
  and_then-ne-stuck (placeholder (take_inner cs).0)
      (λ p. parse_loop fuel (take_inner cs).1 (acc ++ (p ∷ [])))
      (placeholder-ne-stuck (take_inner cs).0)
      (λ p.
        parse_loop-ne-stuck fuel (take_inner cs).1 (acc ++ (p ∷ []))
          (omega (arith, take_inner-le cs))),
)
  where
    shorter : (cs : Bytes) → suc (length cs) ≤ suc fuel → length (tail cs) ≤ fuel
    shorter [] h = omega arith
    shorter (c ∷ cs) h = omega arith

-- On every string, and for any number of arguments, the macro ends: it gives a block or one of its
-- compile errors.
pub generate-ne-out_of_fuel : (fmt : Bytes) (n : ℕ) → generate fmt n ≢ out_of_fuel
unfolding generate parse_format_placeholders
generate-ne-out_of_fuel fmt n =
    expand_ends (parse_loop (length fmt) fmt [])
      (parse_loop-ne-stuck (length fmt) fmt [] (omega arith))
  where
    expand_ends : (r : Parsed (List PlaceholderInfo)) → r ≢ stuck → expand n r ≢ out_of_fuel
    expand_ends (ok ps) h e = ground arith
    expand_ends (err x) h e = cc
    expand_ends stuck h e = h refl
