-- ===== src/Common/Utf8.antt =====
-- `std::str::from_utf8`: the well-formed byte sequences of the Unicode standard, table 3-7.
use inqjet.Common.{
  ℕ, ◌<◌, ◌≡◌, refl, inl, inr, Bool, true, false, ◌&&◌, Option, none, some, [], ◌∷◌, ◌++◌, arith,
  ltb, leb, if◌then◌else◌, Option-cases, All, ◌>>=◌,
}
use inqjet.Common.Bytes.{Bytes}

-- What is still to come of the character at hand: nothing, or one to three continuation bytes,
-- the first of which a lead byte may restrict.
pub data Utf8 : Type 0 where
  start one two three after_e0 after_ed after_f0 after_f4 : Utf8

abbrev within : ℕ → ℕ → ℕ → Utf8 → Option Utf8
within lo hi b next = if leb lo b && leb b hi then some next else none

lead : ℕ → Option Utf8
lead b =
    if ltb b 0x80
    then some start
    else if ltb b 0xc2
    then none
    else if ltb b 0xe0
    then some one
    else if leb b 0xe0
    then some after_e0
    else if leb 0xed b && leb b 0xed
    then some after_ed
    else if ltb b 0xf0
    then some two
    else if leb b 0xf0
    then some after_f0
    else if ltb b 0xf4
    then some three
    else if leb b 0xf4
    then some after_f4
    else none

utf8_step : Utf8 → ℕ → Option Utf8
unfolding lead
utf8_step start b = lead b
utf8_step one b = within 0x80 0xbf b start
utf8_step two b = within 0x80 0xbf b one
utf8_step three b = within 0x80 0xbf b two
utf8_step after_e0 b = within 0xa0 0xbf b one
utf8_step after_ed b = within 0x80 0x9f b one
utf8_step after_f0 b = within 0x90 0xbf b two
utf8_step after_f4 b = within 0x80 0x8f b two

utf8_run : Utf8 → Bytes → Option Utf8
unfolding utf8_step
utf8_run s [] = some s
utf8_run s (b ∷ bs) = utf8_step s b >>= λ s'. utf8_run s' bs

abbrev at_start : Option Utf8 → Bool
at_start (some start) = true
at_start _ = false

unfoldable pub is_utf8 : Bytes → Bool
unfolding utf8_run
is_utf8 bs = at_start (utf8_run start bs)

-- `from_utf8(bytes).expect(..)`
abbrev pub from_utf8 : Bytes → Option Bytes
from_utf8 bs = if is_utf8 bs then some bs else none

-- What a `&str` or `String` holds.
abbrev pub IsText : Bytes → Type 0
IsText bs = is_utf8 bs ≡ true

utf8_run-append :
    (s : Utf8) (xs ys : Bytes) → utf8_run s (xs ++ ys) ≡ (utf8_run s xs >>= λ t. utf8_run t ys)
unfolding utf8_run
utf8_run-append s [] ys = refl
utf8_run-append s (x ∷ xs) ys = elim (Option-cases (utf8_step s x)) [
  | inl e ↦ rw e
  | inr (t, e) ↦ rw e (utf8_run-append t xs ys)
]

at_start-eq : (o : Option Utf8) → at_start o ≡ true → o ≡ some start
at_start-eq none h = cc
at_start-eq (some start) h = refl
at_start-eq (some _) h = cc

-- A concatenation of texts is a text.
pub IsText-append : (xs ys : Bytes) → IsText xs → IsText ys → IsText (xs ++ ys)
unfolding is_utf8
IsText-append xs ys hx hy = rw (utf8_run-append start xs ys, at_start-eq _ hx) hy

-- ASCII is a text.
pub ascii-IsText : (xs : Bytes) → All (λ b. b < 128) xs → IsText xs
unfolding is_utf8 utf8_run
ascii-IsText [] h = refl
ascii-IsText (x ∷ xs) (hx, hs) = ground (arith, ascii-IsText xs hs)

pub from_utf8-IsText : (xs : Bytes) → IsText xs → from_utf8 xs ≡ some xs
from_utf8-IsText xs h = rw h
