-- ===== src/Format/Clock.antt =====
-- The clock's reading, as `u64` nanoseconds and as the text that is written for them.
use inqjet.Common.{ℕ, ◌+◌, ◌*◌, ◌/◌, ◌%◌, ◌^◌, ◌<◌, ◌≡◌, refl, some, arith}
use inqjet.Common.Bytes.{Bytes}
use inqjet.Format.{Duration, as_nanos, snap_timestamp, format_timestamp}
use inqjet.Format.Civil.{epoch}
use inqjet.Format.Timestamp.{read_instant, read_instant-format_timestamp}

-- A clock that is not before 1970-01-01 is snapped to a `u64`, whose text is written with no panic.
-- The instant that the text spells is the clock's less a multiple of 2 ^ 64 nanoseconds: the clock's
-- own, as long as its reading fits the `u64`.
pub snap_timestamp-bounds :
    (d : Duration)
    → (ts : ℕ) × (text : Bytes) × (snap_timestamp (some d) ≡ some ts)
      × (ts < 2 ^ 64)
      × (as_nanos d < 2 ^ 64 → ts ≡ as_nanos d)
      × (format_timestamp ts ≡ some text)
      × (read_instant text + as_nanos d / 2 ^ 64 * 2 ^ 64
          ≡ epoch * 86400 * 1_000_000_000 + as_nanos d)
unfolding snap_timestamp
snap_timestamp-bounds d =
    let ts : ℕ = as_nanos d % 2 ^ 64 in
    let (text, written, len, instant) = read_instant-format_timestamp ts (omega arith) in
    (ts, text, refl, omega arith, (λ h. omega arith), written, omega (arith, instant))
