-- ===== src/Format/Timestamp.antt =====
-- The text of a timestamp: fixed width, and it can be read back.
use inqjet.Common.{
  ℕ, suc, ◌+◌, ◌*◌, ◌/◌, ◌%◌, ◌^◌, ◌≤◌, ◌<◌, ◌≡◌, sym, ◌∙◌, some, [], ◌∷◌, ◌++◌, arith, length,
  take, drop, length-append, drop-drop, take-append_at, drop-append_at,
}
use inqjet.Common.Bytes.{Bytes}
use inqjet.Common.Decimal.{zero_padded, value, zero_padded_lem}
use inqjet.Common.Int.{pos}
use inqjet.Common.Words.{cast_i32-eq}
use inqjet.Format.{timestamp_text, format_timestamp}
use inqjet.Format.Calendar.{IsDate, day_number, days_before_year-eq}
use inqjet.Format.Civil.{civil_from_days-IsDate, epoch}
use native.Mathlib.Nat.{mod-eq_of_lt}

-- The number spelt at a place in a text.
abbrev pub field : Bytes → ℕ → ℕ → ℕ
field text at n = value 0 (take n (drop at text))

-- Nanoseconds from the start of year 0 to the instant that `YYYY-MM-DDTHH:MM:SS.nnnnnnnnnZ` names.
abbrev pub read_instant : Bytes → ℕ
read_instant text =
    (day_number (field text 0 4) (field text 5 2) (field text 8 2) * 86400
        + field text 11 2 * 3600
        + field text 14 2 * 60
        + field text 17 2)
      * 1_000_000_000
    + field text 20 9

-- A field of `w` digits in front, and one behind it and a separator.
field_here : (w : ℕ) (xs rest : Bytes) → length xs ≡ w → field (xs ++ rest) 0 w ≡ value 0 xs
field_here w xs rest e = rw (take-append_at w xs rest (sym e))

field_skip :
    (w k n c : ℕ) (xs rest : Bytes)
    → length xs ≡ w
    → field (xs ++ (c ∷ rest)) (w + 1 + k) n ≡ field rest k n
field_skip w k n c xs rest e = rw (
  ← drop-drop k (w + 1) (xs ++ (c ∷ rest)),
  ← drop-drop 1 w (xs ++ (c ∷ rest)),
  drop-append_at w xs (c ∷ rest) (sym e),
)

-- Seven fields, of 4, 2, 2, 2, 2, 2 and 9 digits, with a byte behind each.
module _ (a b c d e f g : Bytes) where
  abbrev joined : Bytes
  joined =
      a
      ++ (b'-'
          ∷ (b
              ++ (b'-'
                  ∷ (c
                      ++ (b'T'
                          ∷ (d ++ (b':' ∷ (e ++ (b':' ∷ (f ++ (b'.' ∷ (g ++ (b'Z' ∷ [])))))))))))))

  record Widths : Type 0 where
    wa : length a ≡ 4
    wb : length b ≡ 2
    wc : length c ≡ 2
    wd : length d ≡ 2
    we : length e ≡ 2
    wf : length f ≡ 2
    wg : length g ≡ 9

  length-joined : Widths → length joined ≡ 30
  length-joined w =
      rw
        (
          length-append, length-append, length-append, length-append, length-append, length-append,
          length-append,
        )
        (omega (arith, w.wa, w.wb, w.wc, w.wd, w.we, w.wf, w.wg))

  abbrev r₇ : Bytes
  r₇ = b'Z' ∷ []

  abbrev r₆ : Bytes
  r₆ = b'.' ∷ (g ++ r₇)

  abbrev r₅ : Bytes
  r₅ = b':' ∷ (f ++ r₆)

  abbrev r₄ : Bytes
  r₄ = b':' ∷ (e ++ r₅)

  abbrev r₃ : Bytes
  r₃ = b'T' ∷ (d ++ r₄)

  abbrev r₂ : Bytes
  r₂ = b'-' ∷ (c ++ r₃)

  abbrev r₁ : Bytes
  r₁ = b'-' ∷ (b ++ r₂)

  field_a : Widths → field joined 0 4 ≡ value 0 a
  field_a w = field_here 4 a r₁ w.wa

  field_b : Widths → field joined 5 2 ≡ value 0 b
  field_b w = field_skip 4 0 2 b'-' a (b ++ r₂) w.wa ∙ field_here 2 b r₂ w.wb

  field_c : Widths → field joined 8 2 ≡ value 0 c
  field_c w =
      field_skip 4 3 2 b'-' a (b ++ r₂) w.wa
      ∙ field_skip 2 0 2 b'-' b (c ++ r₃) w.wb
      ∙ field_here 2 c r₃ w.wc

  field_d : Widths → field joined 11 2 ≡ value 0 d
  field_d w =
      field_skip 4 6 2 b'-' a (b ++ r₂) w.wa
      ∙ field_skip 2 3 2 b'-' b (c ++ r₃) w.wb
      ∙ field_skip 2 0 2 b'T' c (d ++ r₄) w.wc
      ∙ field_here 2 d r₄ w.wd

  field_e : Widths → field joined 14 2 ≡ value 0 e
  field_e w =
      field_skip 4 9 2 b'-' a (b ++ r₂) w.wa
      ∙ field_skip 2 6 2 b'-' b (c ++ r₃) w.wb
      ∙ field_skip 2 3 2 b'T' c (d ++ r₄) w.wc
      ∙ field_skip 2 0 2 b':' d (e ++ r₅) w.wd
      ∙ field_here 2 e r₅ w.we

  field_f : Widths → field joined 17 2 ≡ value 0 f
  field_f w =
      field_skip 4 12 2 b'-' a (b ++ r₂) w.wa
      ∙ field_skip 2 9 2 b'-' b (c ++ r₃) w.wb
      ∙ field_skip 2 6 2 b'T' c (d ++ r₄) w.wc
      ∙ field_skip 2 3 2 b':' d (e ++ r₅) w.wd
      ∙ field_skip 2 0 2 b':' e (f ++ r₆) w.we
      ∙ field_here 2 f r₆ w.wf

  field_g : Widths → field joined 20 9 ≡ value 0 g
  field_g w =
      field_skip 4 15 9 b'-' a (b ++ r₂) w.wa
      ∙ field_skip 2 12 9 b'-' b (c ++ r₃) w.wb
      ∙ field_skip 2 9 9 b'T' c (d ++ r₄) w.wc
      ∙ field_skip 2 6 9 b':' d (e ++ r₅) w.wd
      ∙ field_skip 2 3 9 b':' e (f ++ r₆) w.we
      ∙ field_skip 2 0 9 b'.' f (g ++ r₇) w.wf
      ∙ field_here 9 g r₇ w.wg

  read_instant-joined :
      Widths
      → read_instant joined
        ≡ (day_number (value 0 a) (value 0 b) (value 0 c) * 86400
              + value 0 d * 3600
              + value 0 e * 60
              + value 0 f)
            * 1_000_000_000
          + value 0 g
  read_instant-joined w =
      rw (field_a w, field_b w, field_c w, field_d w, field_e w, field_f w, field_g w)

-- A date at most 213503 days after the epoch has a year of at most four digits.
year_small : (y m d days : ℕ) → day_number y m d ≡ epoch + days → days ≤ 213503 → y < 10000
year_small y m d days e h = omega (arith, days_before_year-eq y)

module _ (y m d secs sub : ℕ) (hy : y < 10000) (date : IsDate y m d) (hs : secs < 86400)
    (hn : sub < 1_000_000_000) where
  padded :
      (k n : ℕ)
      → n < 10 ^ suc k
      → n < 10 ^ 20
      → (length (zero_padded (suc k) n) ≡ suc k) × (value 0 (zero_padded (suc k) n) ≡ n)
  padded = zero_padded_lem

  day_small : d < 100
  day_small = ground (arith, date.day_in)

  widths :
      Widths
        (zero_padded 4 y)
        (zero_padded 2 m)
        (zero_padded 2 d)
        (zero_padded 2 (secs / 3600))
        (zero_padded 2 (secs % 3600 / 60))
        (zero_padded 2 (secs % 60))
        (zero_padded 9 sub)
  widths = record {
    wa = (padded 3 y (omega arith) (omega arith)).0;
    wb = (padded 1 m (omega (arith, date.month_in)) (omega (arith, date.month_in))).0;
    wc = (padded 1 d day_small (omega (arith, day_small))).0;
    wd = (padded 1 (secs / 3600) (omega arith) (omega arith)).0;
    we = (padded 1 (secs % 3600 / 60) (omega arith) (omega arith)).0;
    wf = (padded 1 (secs % 60) (omega arith) (omega arith)).0;
    wg = (padded 8 sub (omega arith) (omega arith)).0;
  }

  text_facts :
      (length (timestamp_text (pos y, m, d) secs sub) ≡ 30)
      × (read_instant (timestamp_text (pos y, m, d) secs sub)
          ≡ (day_number y m d * 86400 + secs) * 1_000_000_000 + sub)
  unfolding timestamp_text
  text_facts = (
    length-joined _ _ _ _ _ _ _ widths,
    read_instant-joined _ _ _ _ _ _ _ widths
        ∙ rw
            (
              (padded 3 y (omega arith) (omega arith)).1,
              (padded 1 m (omega (arith, date.month_in)) (omega (arith, date.month_in))).1,
              (padded 1 d day_small (omega (arith, day_small))).1,
              (padded 1 (secs / 3600) (omega arith) (omega arith)).1,
              (padded 1 (secs % 3600 / 60) (omega arith) (omega arith)).1,
              (padded 1 (secs % 60) (omega arith) (omega arith)).1,
              (padded 8 sub (omega arith) (omega arith)).1,
            )
            (omega arith),
  )

-- For every `u64` of nanoseconds the timestamp is written with no panic; it is 30 bytes long, and
-- the date and time that it spells name the instant so many nanoseconds after 1970-01-01.
pub read_instant-format_timestamp :
    (nanos : ℕ)
    → nanos < 2 ^ 64
    → (text : Bytes) × (format_timestamp nanos ≡ some text)
      × (length text ≡ 30)
      × (read_instant text ≡ epoch * 86400 * 1_000_000_000 + nanos)
unfolding format_timestamp
read_instant-format_timestamp nanos h =
    let (y, m, d, found, date, number) = civil_from_days-IsDate days (omega arith) in
    let (len, instant) =
      text_facts y m d secs sub (year_small y m d days number (omega arith)) date (omega arith)
        (omega arith) in
    (
      timestamp_text (pos y, m, d) secs sub,
      rw (
        cast_i32-eq days (omega arith),
        found,
        mod-eq_of_lt {n = secs} {m = 2 ^ 32} (omega arith),
        mod-eq_of_lt {n = sub} {m = 2 ^ 32} (omega arith),
      ),
      len,
      rw instant (omega (arith, number)),
    )
  where
    days : ℕ
    days = nanos / 1_000_000_000 / 86400

    secs : ℕ
    secs = nanos / 1_000_000_000 % 86400

    sub : ℕ
    sub = nanos % 1_000_000_000
