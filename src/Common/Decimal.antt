-- ===== src/Common/Decimal.antt =====
-- Decimal digits: `{}` and `{:0w}` of an unsigned integer, and the number that digits spell.
use native.Mathlib.Nat.{pow-suc}
use inqjet.Common.{
  ℕ, zero, suc, ◌+◌, ◌-◌, ◌*◌, ◌/◌, ◌%◌, ◌^◌, ◌≤◌, ◌<◌, ◌≡◌, refl, ap, ◌∙◌, inl, inr, [], ◌∷◌, ◌++◌,
  arith, ltb, if◌then◌else◌, Bool-cases, length, replicate, length-append, length-replicate, All,
  ltb→lt,
}
use inqjet.Common.Bytes.{Bytes, codes}

-- At most `fuel + 1` digits, in front of `out`.
digits : ℕ → ℕ → Bytes → Bytes
digits zero n out = (b'0' + n % 10) ∷ out
digits (suc fuel) n out =
    let more = digits fuel (n / 10) ((b'0' + n % 10) ∷ out) in
    if ltb n 10 then (b'0' + n) ∷ out else more

-- Twenty digits hold any 64-bit integer.
unfoldable pub decimal : ℕ → Bytes
unfolding digits
decimal n = digits 19 n []

-- Zeros in front, up to the width.
unfoldable pub zero_padded : ℕ → ℕ → Bytes
unfolding decimal
zero_padded w n = let ds = decimal n in replicate (w - length ds) b'0' ++ ds

-- The number spelt by digits that stand behind `n`.
abbrev pub value : ℕ → Bytes → ℕ
value n [] = n
value n (d ∷ ds) = value (n * 10 + (d - b'0')) ds

value_cong : (m n : ℕ) (out : Bytes) → m ≡ n → value m out ≡ value n out
value_cong m n out e = ap (λ (k : ℕ). value k out) e

value-digits :
    (fuel n : ℕ) (out : Bytes) → n < 10 ^ suc fuel → value 0 (digits fuel n out) ≡ value n out
unfolding digits
value-digits zero n out h = value_cong _ _ out (omega arith)
value-digits (suc fuel) n out h = elim (Bool-cases (ltb n 10)) [
  | inl small ↦ rw small (value_cong (0 * 10 + (b'0' + n - b'0')) n out (omega arith))
  | inr large ↦ rw large (
      value-digits fuel (n / 10) ((b'0' + n % 10) ∷ out) (less fuel n h)
      ∙ value_cong (n / 10 * 10 + (b'0' + n % 10 - b'0')) n out (omega arith))
]
  where
    less : (k n : ℕ) → n < 10 ^ suc (suc k) → n / 10 < 10 ^ suc k
    less k n lt = omega (arith, pow-suc 10 (suc k))

length-digits :
    (fuel k n : ℕ) (out : Bytes) → n < 10 ^ suc k → length (digits fuel n out) ≤ suc k + length out
unfolding digits
length-digits zero k n out h = omega arith
length-digits (suc fuel) zero n out h = ground arith
length-digits (suc fuel) (suc k) n out h =
    ground (arith, pow-suc 10 (suc k), length-digits fuel k (n / 10) ((b'0' + n % 10) ∷ out))

value-decimal : (n : ℕ) → n < 10 ^ 20 → value 0 (decimal n) ≡ n
unfolding decimal
value-decimal n h = value-digits 19 n [] h

value-replicate : (k : ℕ) (ds : Bytes) → value 0 (replicate k b'0' ++ ds) ≡ value 0 ds
value-replicate zero ds = refl
value-replicate (suc k) ds = value-replicate k ds

-- A number that fits `suc k` digits is padded to exactly that width, and the digits spell it.
pub zero_padded_lem :
    (k n : ℕ)
    → n < 10 ^ suc k
    → n < 10 ^ 20
    → (length (zero_padded (suc k) n) ≡ suc k) × (value 0 (zero_padded (suc k) n) ≡ n)
unfolding zero_padded
zero_padded_lem k n h fits = (
  rw (length-append, length-replicate) (omega (arith, at_most)),
  rw value-replicate (value-decimal n fits),
)
  where
    at_most : length (decimal n) ≤ suc k
    at_most = unfold decimal in omega (arith, length-digits 19 k n [] h)

-- What holds of every digit holds of the digits of a number.
module _ {ℓ} (P : ℕ → Type ℓ) (digit : (k : ℕ) → k < 10 → P (b'0' + k)) where
  digits-All : (fuel n : ℕ) (out : Bytes) → All P out → All P (digits fuel n out)
  unfolding digits
  digits-All zero n out h = (digit (n % 10) (omega arith), h)
  digits-All (suc fuel) n out h = elim (Bool-cases (ltb n 10)) [
    | inl small ↦ rw small (digit n (ltb→lt n 10 small), h)
    | inr large ↦
        rw large
          (digits-All fuel (n / 10) ((b'0' + n % 10) ∷ out) (digit (n % 10) (omega arith), h))
  ]

  pub decimal-All : (n : ℕ) → All P (decimal n)
  unfolding decimal
  decimal-All n = digits-All 19 n [] tt

  zeros-All : (k : ℕ) (ds : Bytes) → All P ds → All P (replicate k b'0' ++ ds)
  zeros-All zero ds h = h
  zeros-All (suc k) ds h = (digit 0 (omega arith), zeros-All k ds h)

  pub zero_padded-All : (w n : ℕ) → All P (zero_padded w n)
  unfolding zero_padded
  zero_padded-All w n = zeros-All (w - length (decimal n)) (decimal n) (decimal-All n)

decimal_runs : decimal 18446744073709551615 ≡ codes "18446744073709551615"
unfolding decimal
decimal_runs = refl

padded_runs : zero_padded 9 1020 ≡ codes "000001020"
unfolding zero_padded
padded_runs = refl
