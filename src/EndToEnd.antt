-- ===== src/EndToEnd.antt =====
-- From a call to its line: the producer's record, as the archiver reads it.
pub mod Delivered
pub mod Archived
pub mod Jobs
use inqjet.Common.{
  ℕ, ◌^◌, ◌≤◌, ◌<◌, ◌≡◌, refl, ◌∙◌, Bool, true, false, some, List, [], ◌∷◌, ◌++◌, length, ◌>>=◌,
}
use inqjet.Common.Bytes.{Bytes, IsByte, Endian}
use inqjet.Common.Utf8.{IsText}
use inqjet.Config.{BackpressureMode}
use inqjet.Logbuf.{Logbuf}
use inqjet.Record.{FormatFn, RecordHeader, header_bytes, standard_record_size}
use inqjet.Record.Header.{IsHeader, read_header-header_bytes}
use inqjet.Record.Payload.{read_standard_payload-eq}
use inqjet.Format.{write_log_prefix, standard_format_fn, format_record}
use inqjet.Logger.{Moment, submitted, log_impl, padding}
use inqjet.Logger.Backpressure.{Full}
use inqjet.Logger.Bridge.{log_impl-pending}
use inqjet.Consumer.{format_claim}

-- The archiver calls the function that the header names, with the payload behind the header.
pub format_claim-header_bytes :
    (e : Endian) (formatters : ℕ → FormatFn) (h : RecordHeader) (payload : Bytes)
    → IsHeader h
    → format_claim e formatters (header_bytes e h ++ payload)
      ≡ formatters h.formatter
          (record { timestamp_ns = h.timestamp_ns; level = h.level; payload = payload })
unfolding format_claim
format_claim-header_bytes e formatters h payload v =
    let (read, behind) = read_header-header_bytes e h payload v in rw (read, behind)

pub padded-IsHeader :
    (now fmt_fn level : ℕ)
    → now < 2 ^ 64
    → fmt_fn < 2 ^ 64
    → IsByte level
    → IsHeader (record { timestamp_ns = now; formatter = fmt_fn; level = level; pad = padding })
padded-IsHeader now fmt_fn level hn hf hl = record {
  timestamp_fits = hn;
  formatter_fits = hf;
  level_fits = hl;
  pad_size = refl;
}

module _ (R : Logbuf) (e : Endian) (formatters : ℕ → FormatFn) (color : Bool) where
  open R use {Queue, try_claim, pending, IsIdle}

  -- The same for a record of the `log` crate, whose message is formatted by the producer.
  pub log_impl-line :
      (level : ℕ) (target : Bytes) (line : ℕ) (message : Bytes) (fmt_fn now : ℕ)
      (busy : List (Moment R)) (m : Moment R) (later : List (Moment R)) (region : Bytes) (q : Queue)
      → length target ≤ 65535
      → line < 2 ^ 32
      → IsText target
      → IsText message
      → now < 2 ^ 64
      → fmt_fn < 2 ^ 64
      → IsByte level
      → formatters fmt_fn ≡ standard_format_fn color
      → Full R (standard_record_size (length target) (length message)) busy
      → try_claim m.queue (standard_record_size (length target) (length message)) ≡ some (region, q)
      → IsIdle m.queue
      → (q' : Queue) × (bytes : Bytes) × (log_impl R e
            (some (record { backpressure = BackpressureMode.backoff }))
            true
            false
            level
            target
            line
            message
            fmt_fn
            now
            (busy ++ (m ∷ later))
          ≡ (submitted q', length busy))
        × (pending q' ≡ pending m.queue ++ (bytes ∷ []))
        × (format_claim e formatters bytes ≡ (
            write_log_prefix color now level target line >>= λ prefix.
            some (prefix ++ (message ++ (b'\n' ∷ [])))))
  unfolding standard_format_fn format_record write_log_prefix
  log_impl-line level target line message fmt_fn now busy m later region q short hl ut um hn hf hb
        code full claimed idle =
      let (q', sent, grown) =
        log_impl-pending R e level target line message fmt_fn now busy m later region q short full
          idle claimed in
      (
        q',
        _,
        sent,
        grown,
        format_claim-header_bytes e formatters _ _ (padded-IsHeader now fmt_fn level hn hf hb)
            ∙ rw (code, read_standard_payload-eq line target message hl short ut um),
      )
