-- ===== src/Format.antt =====
-- inqjet/src/format.rs: timestamps, levels and the line prefix. A function that writes to `out`
-- returns the bytes that it writes. Errors of `write!` are ignored by the source, and `out` is a
-- `Vec` in memory, where none occurs. `none` is a panic of checked arithmetic.
pub mod Calendar
pub mod Civil
pub mod Timestamp
pub mod Clock
pub mod Color
use inqjet.Common.{
  ℕ, suc, ◌+◌, ◌-◌, ◌*◌, ◌/◌, ◌%◌, ◌^◌, min, Bool, Option, some, [], ◌∷◌, ◌++◌, ltb, leb, ◌==◌,
  if◌then◌else◌, ◌>>=◌, ◌>>◌,
}
use inqjet.Common.Bytes.{Bytes, codes}
use inqjet.Common.Decimal.{decimal, zero_padded}
use inqjet.Common.Int.{ℤ, pos, negsuc, ltb_ℤ}
use inqjet.Common.Words.{
  add_u32, mul_u32, sub_u32, add_i32, sub_i32, mul_i32, quot_i32, cast_u32, cast_i32,
}
use inqjet.Record.{FormatContext, FormatFn, read_standard_payload}

abbrev pub reset : Bytes
reset = 0x1b ∷ codes "[0m"

abbrev pub gray : Bytes
gray = 0x1b ∷ codes "[90m"

unfoldable pub level_color : ℕ → Bytes
level_color level =
    if level == 1
    then 0x1b ∷ codes "[31m"
    else if level == 2
    then 0x1b ∷ codes "[33m"
    else if level == 3
    then 0x1b ∷ codes "[32m"
    else if level == 4
    then 0x1b ∷ codes "[36m"
    else gray

unfoldable pub level_str : ℕ → Bytes
level_str level =
    if level == 1
    then codes "ERROR"
    else if level == 2
    then codes "WARN"
    else if level == 3
    then codes "INFO"
    else if level == 4
    then codes "DEBUG"
    else if level == 5
    then codes "TRACE"
    else codes "?????"

-- The year of the era, from the day of the era.
year_of_era : ℕ → Option ℕ
year_of_era doe = do
  a ← sub_u32 doe (doe / 1460)
  b ← add_u32 a (doe / 36524)
  c ← sub_u32 b (doe / 146096)
  some (c / 365)

-- The day of the year that begins on March 1st, from 0.
day_of_year : ℕ → ℕ → Option ℕ
day_of_year doe yoe = do
  a ← mul_u32 365 yoe
  b ← add_u32 a (yoe / 4)
  c ← sub_u32 b (yoe / 100)
  sub_u32 doe c

-- The month and the day of the month, counted from 1.
month_and_day : ℕ → Option (ℕ × ℕ)
month_and_day doy = do
  a ← mul_u32 5 doy
  b ← add_u32 a 2
  let mp = b / 153
  c ← mul_u32 153 mp
  e ← add_u32 c 2
  f ← sub_u32 doy (e / 5)
  d ← add_u32 f 1
  m ← if ltb mp 10 then add_u32 mp 3 else sub_u32 mp 9
  some (m, d)

-- The steps after `doe`.
civil_of_era : ℤ → ℕ → Option (ℤ × ℕ × ℕ)
unfolding year_of_era day_of_year month_and_day
civil_of_era era doe = do
  yoe ← year_of_era doe
  base ← mul_i32 era (pos 400)
  y ← add_i32 (cast_i32 yoe) base
  doy ← day_of_year doe yoe
  (m, d) ← month_and_day doy
  y ← if leb m 2 then add_i32 y (pos 1) else some y
  some (y, m, d)

-- The era of 400 years, and the day of it.
era_of : ℤ → Option (ℤ × ℕ)
era_of z = do
  n ← if ltb_ℤ z (pos 0) then sub_i32 z (pos 146096) else some z
  let era = quot_i32 n 146097
  start ← mul_i32 era (pos 146097)
  doe ← sub_i32 z start
  some (era, cast_u32 doe)

unfoldable pub civil_from_days : ℤ → Option (ℤ × ℕ × ℕ)
unfolding era_of civil_of_era
civil_from_days days = do z ← add_i32 days (pos 719468); (era, doe) ← era_of z; civil_of_era era doe

-- `{:04}` of an `i32`: a sign counts towards the width.
abbrev pub year_padded : ℤ → Bytes
year_padded (pos n) = zero_padded 4 n
year_padded (negsuc n) = b'-' ∷ zero_padded 3 (suc n)

-- The fields of the timestamp, put together.
timestamp_text : ℤ × ℕ × ℕ → ℕ → ℕ → Bytes
timestamp_text (year, month, day) secs subsec_nanos =
    let hour = secs / 3600 in
    let min = secs % 3600 / 60 in
    let sec = secs % 60 in
    year_padded year
    ++ (b'-'
        ∷ (zero_padded 2 month
            ++ (b'-'
                ∷ (zero_padded 2 day
                    ++ (b'T'
                        ∷ (zero_padded 2 hour
                            ++ (b':'
                                ∷ (zero_padded 2 min
                                    ++ (b':'
                                        ∷ (zero_padded 2 sec
                                            ++ (b'.'
                                                ∷ (zero_padded 9 subsec_nanos
                                                    ++ (b'Z' ∷ [])))))))))))))

-- `std::time::Duration`.
pub record Duration : Type 0 where
  pub secs : ℕ
  pub nanos : ℕ

-- What `as_nanos` gives, a `u128`.
abbrev pub as_nanos : Duration → ℕ
as_nanos d = d.secs * 1_000_000_000 + d.nanos

-- `clock` is what `duration_since(UNIX_EPOCH)` gives for the current time, `none` being its error.
unfoldable pub snap_timestamp : Option Duration → Option ℕ
snap_timestamp clock = do since ← clock; some (as_nanos since % 2 ^ 64)

-- The seconds of a `u64` of nanoseconds are below 2 ^ 63, so `as i64` keeps them, and
-- `div_euclid` and `rem_euclid` of what is not negative are `/` and `%`.
unfoldable pub format_timestamp : ℕ → Option Bytes
unfolding timestamp_text
format_timestamp nanos = do
  let total_secs = nanos / 1_000_000_000
  let subsec_nanos = nanos % 1_000_000_000 % 2 ^ 32
  let days = cast_i32 (total_secs / 86400)
  let secs = total_secs % 86400 % 2 ^ 32
  date ← civil_from_days days
  some (timestamp_text date secs subsec_nanos)

-- `target:line`, or the target alone where there is no line.
location : Bytes → ℕ → Bytes
location target line = if ltb 0 line then target ++ (b':' ∷ decimal line) else target

unfoldable pub write_prefix_inner : ℕ → ℕ → Bytes → ℕ → Bool → Option Bytes
unfolding location
write_prefix_inner timestamp_ns level target line colored = do
  ts ← format_timestamp timestamp_ns
  some (
      if colored
      then gray
        ++ (ts
            ++ (reset
                ++ (b' '
                    ∷ (level_color level
                        ++ (b'['
                            ∷ (level_str level
                                ++ (b']'
                                    ∷ (reset
                                        ++ (b' '
                                            ∷ (gray
                                                ++ (location target line
                                                    ++ (reset ++ (b' ' ∷ [])))))))))))))
      else ts
        ++ (codes " ["
            ++ (level_str level ++ (codes "] " ++ (location target line ++ (b' ' ∷ []))))))

-- `color_enabled` is what `COLOR_ENABLED` holds.
unfoldable pub write_log_prefix : Bool → ℕ → ℕ → Bytes → ℕ → Option Bytes
write_log_prefix color_enabled timestamp_ns level target line =
    write_prefix_inner timestamp_ns level target line color_enabled

unfoldable pub format_record : ℕ → ℕ → Bytes → Bool → Option Bytes
format_record timestamp_ns level payload colored = do
  (line, target, message) ← read_standard_payload payload
  prefix ← write_prefix_inner timestamp_ns level target line colored
  some (prefix ++ (message ++ (b'\n' ∷ [])))

unfoldable pub standard_format_fn : Bool → FormatFn
standard_format_fn color_enabled ctx =
    format_record ctx.timestamp_ns ctx.level ctx.payload color_enabled
