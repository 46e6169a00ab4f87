-- ===== src/Logger.antt =====
-- inqjet/src/logger.rs: the producer's path, from a record to the ring buffer.
pub mod Backpressure
pub mod Bridge
pub mod Endings
use inqjet.Common.{
  ℕ, suc, ◌+◌, ◌-◌, Bool, true, false, not, Option, none, some, List, [], ◌∷◌, ◌++◌, leb,
  if◌then◌else◌, length, take, drop, replicate, ◌>>=◌, ◌>>◌,
}
use inqjet.Common.Bytes.{Bytes, Endian}
use inqjet.Config.{BackpressureMode, LogLevel, level_to_u8}
use inqjet.Logbuf.{Logbuf}
use inqjet.Record.{
  RecordHeader, header_size, write_header, standard_record_size, write_standard_payload,
}

-- `MAX_LEVEL` is the argument.
unfoldable pub log_enabled : ℕ → ℕ → Bool
log_enabled max_level level = leb level max_level

abbrev pub padding : Bytes
padding = replicate 7 0

module _ (R : Logbuf) where
  open R use {Queue, try_claim, commit}

  -- What a producer finds when it tries to claim: the shared queue as the other threads left it,
  -- and what the `running` flag says if it asks.
  pub record Moment : Type 0 where
    pub queue : Queue
    pub running : Bool

  -- How a call ends: with its record committed to the queue; dropped; given up on because the
  -- logger stops; or not ended at all after the moments given. `ignored` is a call before the logger
  -- is initialised or after it stopped. A panic is `panicked`.
  pub data Outcome : Type 0 where
    submitted : Queue → Outcome
    dropped stopped waiting ignored panicked : Outcome

  -- `BufferFull`, with what the flag says and how the later rounds end.
  retry : BackpressureMode → Bool → Outcome × ℕ → Outcome × ℕ
  retry BackpressureMode.drop running later = (dropped, 0)
  retry BackpressureMode.backoff false later = (stopped, 0)
  retry BackpressureMode.backoff true (o, unparks) = (o, suc unparks)

  write_claim : Queue → Option Bytes → Outcome
  write_claim q (some bytes) = submitted (commit q bytes)
  write_claim q none = panicked

  attempt :
      BackpressureMode
      → (Bytes → Option Bytes)
      → Option (Bytes × Queue)
      → Bool
      → Outcome × ℕ
      → Outcome × ℕ
  unfolding retry write_claim
  attempt mode fill (some (region, q)) running later = (write_claim q (fill region), 0)
  attempt mode fill none running later = retry mode running later

  -- The loop of both submit functions, one round for each moment, and how often it has unparked the
  -- archiver. `fill` is what is written into the claimed region before `commit`.
  unfoldable pub claim_loop :
      BackpressureMode → ℕ → (Bytes → Option Bytes) → List Moment → Outcome × ℕ
  unfolding attempt
  claim_loop mode total_size fill [] = (waiting, 0)
  claim_loop mode total_size fill (m ∷ ms) =
      attempt mode fill (try_claim m.queue total_size) m.running
        (claim_loop mode total_size fill ms)

  -- The part of `LoggerState` that the submit functions read besides the queue and the flag.
  pub record LoggerState : Type 0 where
    pub backpressure : BackpressureMode

  -- `LOGGER`, the flag at entry, and whether this thread has borrowed its producer already.
  unfoldable pub submit :
      Option LoggerState
      → (running borrowed : Bool) → ℕ
      → (Bytes → Option Bytes)
      → List Moment
      → Outcome × ℕ
  unfolding claim_loop
  submit none running borrowed total_size fill ms = (ignored, 0)
  submit (some s) running borrowed total_size fill ms =
      if not running
      then (ignored, 0)
      else if borrowed
      then (panicked, 0)
      else claim_loop s.backpressure total_size fill ms

  -- The header, and behind it what `encode` makes of the rest of the region.
  unfoldable pub fill_record : Endian → RecordHeader → (Bytes → Option Bytes) → Bytes → Option Bytes
  fill_record e h encode region = do
    region ← write_header e region h
    payload ← encode (drop header_size region)
    some (take header_size region ++ payload)

  unfoldable pub hot_log_submit :
      Endian
      → Option LoggerState
      → (running borrowed : Bool) → (level payload_size fmt_fn : ℕ)
      → (encode : Bytes → Option Bytes) → (now : ℕ) → List Moment
      → Outcome × ℕ
  unfolding submit fill_record
  hot_log_submit e logger running borrowed level payload_size fmt_fn encode now ms =
      submit logger running borrowed (header_size + payload_size)
        (fill_record e
          (record { timestamp_ns = now; formatter = fmt_fn; level = level; pad = padding }) encode)
        ms

  -- `message` is what formatting the arguments leaves in `TLS_BUF`.
  unfoldable pub log_impl :
      Endian
      → Option LoggerState
      → (running borrowed : Bool) → (level : ℕ) → (target : Bytes) → (line : ℕ) → (message : Bytes)
      → (standard_format_fn now : ℕ) → List Moment
      → Outcome × ℕ
  unfolding submit fill_record
  log_impl e logger running borrowed level target line message standard_format_fn now ms =
      submit logger running borrowed (standard_record_size (length target) (length message))
        (fill_record e
          (record {
            timestamp_ns = now;
            formatter = standard_format_fn;
            level = level;
            pad = padding;
          })
          (λ buf. write_standard_payload buf line target message >>= λ p. some (p.0)))
        ms

  -- `Logger::log`; a record without a line has line 0.
  unfoldable pub log :
      Endian
      → (max_level : ℕ) → Option LoggerState
      → (running borrowed : Bool) → LogLevel
      → (target : Bytes) → (line : Option ℕ) → (message : Bytes) → (standard_format_fn now : ℕ)
      → List Moment
      → Outcome × ℕ
  unfolding log_enabled log_impl
  log e max_level logger running borrowed level target line message fmt_fn now ms =
      if not (log_enabled max_level (level_to_u8 level))
      then (ignored, 0)
      else log_impl e logger running borrowed (level_to_u8 level) target
          (elim line [ some n ↦ n | none ↦ 0 ]) message fmt_fn now ms
