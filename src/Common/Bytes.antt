-- ===== src/Common/Bytes.antt =====
-- Unsigned integers as bytes: `to_le_bytes`, `from_le_bytes`, and the representation in memory,
-- whose order is that of the target.
use Prim.Native.Char.{code}
use Prim.Native.String.{String}
use inqjet.Common.{
  ℕ, zero, suc, ◌+◌, ◌*◌, ◌/◌, ◌%◌, ◌^◌, ◌<◌, ◌≡◌, refl, ap, List, [], ◌∷◌, arith, length, All,
  length-append,
}
use mathlib.Core.List.{reverse, reverse-reverse, reverse-append}

abbrev pub Bytes : Type 0
Bytes = List ℕ

-- The bytes of an ASCII literal.
abbrev pub codes : String → Bytes
codes String.[] = []
codes (String.◌∷◌ c s) = code c ∷ codes s

abbrev pub IsByte : ℕ → Type 0
IsByte b = b < 256

-- `w` bytes, the lowest first; what does not fit is cut off.
abbrev pub to_le_bytes : ℕ → ℕ → Bytes
to_le_bytes zero n = []
to_le_bytes (suc w) n = (n % 256) ∷ to_le_bytes w (n / 256)

abbrev pub from_le_bytes : Bytes → ℕ
from_le_bytes [] = 0
from_le_bytes (b ∷ bs) = b + 256 * from_le_bytes bs

pub length-to_le_bytes : (w n : ℕ) → length (to_le_bytes w n) ≡ w
length-to_le_bytes zero n = refl
length-to_le_bytes (suc w) n = ap suc (length-to_le_bytes w (n / 256))

pub to_le_bytes-IsByte : (w n : ℕ) → All IsByte (to_le_bytes w n)
to_le_bytes-IsByte zero n = tt
to_le_bytes-IsByte (suc w) n = (omega arith, to_le_bytes-IsByte w (n / 256))

pub from_le_bytes-to_le_bytes : (w n : ℕ) → n < 256 ^ w → from_le_bytes (to_le_bytes w n) ≡ n
from_le_bytes-to_le_bytes zero n h = omega arith
from_le_bytes-to_le_bytes (suc w) n h = ground (arith, from_le_bytes-to_le_bytes w (n / 256))

-- The order of bytes of the machine that the program is built for.
pub data Endian : Type 0 where
  little big : Endian

abbrev pub to_ne_bytes : Endian → ℕ → ℕ → Bytes
to_ne_bytes little w n = to_le_bytes w n
to_ne_bytes big w n = reverse (to_le_bytes w n)

abbrev pub from_ne_bytes : Endian → Bytes → ℕ
from_ne_bytes little bs = from_le_bytes bs
from_ne_bytes big bs = from_le_bytes (reverse bs)

pub length-reverse : (bs : Bytes) → length (reverse bs) ≡ length bs
length-reverse [] = refl
length-reverse (b ∷ bs) =
    rw (reverse-append (b ∷ []) bs) (rw length-append (omega (arith, length-reverse bs)))

pub length-to_ne_bytes : (e : Endian) (w n : ℕ) → length (to_ne_bytes e w n) ≡ w
length-to_ne_bytes little w n = length-to_le_bytes w n
length-to_ne_bytes big w n = rw length-reverse (length-to_le_bytes w n)

pub from_ne_bytes-to_ne_bytes :
    (e : Endian) (w n : ℕ) → n < 256 ^ w → from_ne_bytes e (to_ne_bytes e w n) ≡ n
from_ne_bytes-to_ne_bytes little w n h = from_le_bytes-to_le_bytes w n h
from_ne_bytes-to_ne_bytes big w n h = rw reverse-reverse (from_le_bytes-to_le_bytes w n h)
