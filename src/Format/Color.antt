-- ===== src/Format/Color.antt =====
-- Colours add nothing to the prefix but escape sequences.
use mathlib.Core.Path.{subst}
use inqjet.Common.{
  ℕ, suc, ◌+◌, ◌/◌, ◌%◌, ◌<◌, ◌≡◌, refl, ◌≢◌, inl, inr, Bool, true, false, not, ◌||◌, some, List,
  [], ◌∷◌, ◌++◌, arith, ltb, ◌==◌, if◌then◌else◌, Bool-cases, Option-cases, All, ◌>>=◌, >>=-eq-some,
  some_inj,
}
use inqjet.Common.Bytes.{Bytes}
use inqjet.Common.Decimal.{zero_padded, decimal, zero_padded-All, decimal-All}
use inqjet.Common.Int.{ℤ, pos, negsuc}
use inqjet.Format.{
  level_color, level_str, year_padded, timestamp_text, format_timestamp, civil_from_days, location,
  write_prefix_inner,
}

-- What a terminal shows: an escape sequence begins with the byte 0x1b and ends with an `m`. The flag
-- says that one has begun.
abbrev pub shown : Bool → Bytes → Bytes
shown inside [] = []
shown inside (c ∷ cs) =
    let rest = shown (if inside then not (c == b'm') else c == 0x1b) cs in
    if inside || (c == 0x1b) then rest else c ∷ rest

abbrev pub NoEscape : ℕ → Type 0
NoEscape c = c ≢ 0x1b

-- Nothing in the bytes begins an escape sequence.
abbrev pub IsPlain : Bytes → Type 0
IsPlain = All NoEscape

All-append {ℓ κ} :
    {A : Type ℓ} (P : A → Type κ) (xs ys : List A) → All P xs → All P ys → All P (xs ++ ys)
All-append P [] ys h k = k
All-append P (x ∷ xs) ys (h, hs) k = (h, All-append P xs ys hs k)

test-NoEscape : (c : ℕ) → NoEscape c → (c == 0x1b) ≡ false
test-NoEscape c h = ground arith

shown-IsPlain : (xs ys : Bytes) → IsPlain xs → shown false (xs ++ ys) ≡ xs ++ shown false ys
shown-IsPlain [] ys h = refl
shown-IsPlain (x ∷ xs) ys (h, hs) = rw (test-NoEscape x h, shown-IsPlain xs ys hs)

digit-NoEscape : (k : ℕ) → k < 10 → NoEscape (b'0' + k)
digit-NoEscape k h e = omega arith

padded : (w n : ℕ) → IsPlain (zero_padded w n)
padded w n = zero_padded-All NoEscape digit-NoEscape w n

year_padded-IsPlain : (y : ℤ) → IsPlain (year_padded y)
year_padded-IsPlain (pos n) = padded 4 n
year_padded-IsPlain (negsuc n) = ((λ e. omega arith), padded 3 (suc n))

timestamp_text-IsPlain : (date : ℤ × ℕ × ℕ) (secs sub : ℕ) → IsPlain (timestamp_text date secs sub)
unfolding timestamp_text
timestamp_text-IsPlain (year, month, day) secs sub =
    All-append NoEscape (year_padded year) _ (year_padded-IsPlain year) (
      (λ e. omega arith),
      All-append NoEscape (zero_padded 2 month) _ (padded 2 month) (
        (λ e. omega arith),
        All-append NoEscape (zero_padded 2 day) _ (padded 2 day) (
          (λ e. omega arith),
          All-append NoEscape (zero_padded 2 (secs / 3600)) _ (padded 2 _) (
            (λ e. omega arith),
            All-append NoEscape (zero_padded 2 (secs % 3600 / 60)) _ (padded 2 _) (
              (λ e. omega arith),
              All-append NoEscape (zero_padded 2 (secs % 60)) _ (padded 2 _) (
                (λ e. omega arith),
                All-append NoEscape (zero_padded 9 sub) _ (padded 9 sub) ((λ e. omega arith), tt),
              ),
            ),
          ),
        ),
      ),
    )

format_timestamp-IsPlain :
    (nanos : ℕ) (text : Bytes) → format_timestamp nanos ≡ some text → IsPlain text
unfolding format_timestamp
format_timestamp-IsPlain nanos text e =
    let (date, _, h) = >>=-eq-some (civil_from_days _) _ e in
    subst IsPlain (some_inj h) (timestamp_text-IsPlain date _ _)

level_str-IsPlain : (level : ℕ) → IsPlain (level_str level)
unfolding level_str
level_str-IsPlain level = ground arith

location-IsPlain : (target : Bytes) (line : ℕ) → IsPlain target → IsPlain (location target line)
unfolding location
location-IsPlain target line h = elim (Bool-cases (ltb 0 line)) [
  | inl e ↦ rw e (
      All-append NoEscape target (b':' ∷ decimal line) h
        ((λ e'. omega arith), decimal-All NoEscape digit-NoEscape line))
  | inr e ↦ rw e h
]

shown-level_color :
    (level : ℕ) (ys : Bytes) → shown false (level_color level ++ ys) ≡ shown false ys
unfolding level_color
shown-level_color level ys = ground arith

-- For a target without escape bytes, the prefix is written in colour exactly when it is written
-- plain, at any time, for any level and line; and what a terminal shows of it in colour is the plain
-- prefix.
pub shown-write_prefix_inner :
    (timestamp_ns level : ℕ) (target : Bytes) (line : ℕ)
    → IsPlain target
    → (write_prefix_inner timestamp_ns level target line true >>= λ p. some (shown false p))
      ≡ write_prefix_inner timestamp_ns level target line false
unfolding write_prefix_inner
shown-write_prefix_inner timestamp_ns level target line h =
    elim (Option-cases (format_timestamp timestamp_ns)) [
      | inl e ↦ rw e
      | inr (text, e) ↦ rw (
        e,
        shown-IsPlain text _ (format_timestamp-IsPlain timestamp_ns text e),
        shown-level_color level _,
        shown-IsPlain (level_str level) _ (level_str-IsPlain level),
        shown-IsPlain (location target line) _ (location-IsPlain target line h),
      )
    ]
