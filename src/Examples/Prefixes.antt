-- ===== src/Examples/Prefixes.antt =====
-- A line's prefix, and its timestamp from the clock.
use inqjet.Common.{ℕ, ◌+◌, ◌*◌, ◌/◌, ◌^◌, ◌<◌, ◌≡◌, true, false, some, arith, ◌>>=◌}
use inqjet.Common.Bytes.{Bytes}
use inqjet.Format.{Duration, as_nanos, snap_timestamp, format_timestamp, write_prefix_inner}
use inqjet.Format.Civil.{epoch}
use inqjet.Format.Timestamp.{read_instant}
use inqjet.Format.Clock.{snap_timestamp-bounds}
use inqjet.Format.Color.{shown, shown-write_prefix_inner}
use inqjet.Examples.Data.{net}

abbrev january : Duration
january = record { secs = 1705329045; nanos = 123456789 }

snap_timestamp-bounds_example :
    (ts : ℕ) × (text : Bytes) × (snap_timestamp (some january) ≡ some ts)
    × (ts < 2 ^ 64)
    × (as_nanos january < 2 ^ 64 → ts ≡ as_nanos january)
    × (format_timestamp ts ≡ some text)
    × (read_instant text + as_nanos january / 2 ^ 64 * 2 ^ 64
        ≡ epoch * 86400 * 1_000_000_000 + as_nanos january)
snap_timestamp-bounds_example = snap_timestamp-bounds january

shown-write_prefix_inner_example :
    (write_prefix_inner 1000 4 net 42 true >>= λ p. some (shown false p))
    ≡ write_prefix_inner 1000 4 net 42 false
shown-write_prefix_inner_example =
    shown-write_prefix_inner 1000 4 net 42
      ((λ e. omega arith), ((λ e. omega arith), ((λ e. omega arith), tt)))
