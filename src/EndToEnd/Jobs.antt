-- ===== src/EndToEnd/Jobs.antt =====
-- The submissions of inqjet/src/logger.rs as the calls of many threads.
use inqjet.Common.{
  ℕ, ◌+◌, ◌^◌, ◌≤◌, ◌<◌, ◌≡◌, refl, ◌∙◌, Bool, Option, none, some, List, [], ◌∷◌, ◌++◌, append-nil,
  arith, length, drop, replicate, length-append, length-drop, length-replicate, drop-length, ◌>>=◌,
}
use inqjet.Common.Bytes.{Bytes, IsByte, Endian}
use inqjet.Common.Utf8.{IsText}
use inqjet.Logbuf.{Logbuf}
use inqjet.Record.{
  FormatFn, RecordHeader, header_size, header_bytes, standard_record_size, write_standard_payload,
}
use inqjet.Record.Header.{length-header_bytes}
use inqjet.Record.Payload.{
  payload_bytes, length-payload_bytes, write_standard_payload-eq, read_standard_payload-eq,
}
use inqjet.Format.{write_log_prefix, standard_format_fn, format_record}
use inqjet.Pod.{Stash, Arg}
use inqjet.HotLog.{Call, encode_closure}
use inqjet.Logger.{padding, fill_record}
use inqjet.Logger.Backpressure.{fill_record-eq}
use inqjet.Consumer.{format_claim}
use inqjet.Producers.{Job}
use inqjet.Producers.Claims.{IsJob}
use inqjet.EndToEnd.{format_claim-header_bytes, padded-IsHeader}

-- The line of what a call writes into zeros; what it writes does not depend on the region.
abbrev text_of : Option Bytes → Bytes
text_of none = []
text_of (some bytes) = bytes

abbrev pub line_of : (Bytes → Option Bytes) → Job → Bytes
line_of format_log j = text_of (j.fill (replicate j.total_size 0) >>= format_log)

abbrev header_of : (now fmt_fn level : ℕ) → RecordHeader
header_of now fmt_fn level = record {
  timestamp_ns = now;
  formatter = fmt_fn;
  level = level;
  pad = padding;
}

module _ (R : Logbuf) (e : Endian) where
  -- What `hot_log_submit` claims and writes, for a call that has been sized.
  abbrev pub hot_job : Call → List (Arg × Bytes) → (fmt_fn now total : ℕ) → List ℕ → Stash → Job
  hot_job c xs fmt_fn now total ns s = record {
    total_size = header_size + total;
    fill =
        fill_record R e (header_of now fmt_fn c.level)
          (λ buf. encode_closure c xs ns s buf >>= λ p. some (p.0));
  }

  abbrev pub text_job :
      (level : ℕ) → (target : Bytes) → (line : ℕ) → (message : Bytes) → (fmt_fn now : ℕ) → Job
  text_job level target line message fmt_fn now = record {
    total_size = standard_record_size (length target) (length message);
    fill =
        fill_record R e (header_of now fmt_fn level)
          (λ buf. write_standard_payload buf line target message >>= λ p. some (p.0));
  }

  module _ (formatters : ℕ → FormatFn) (color : Bool) where
    -- It is enough that each region of the size is filled with a record of the line.
    line_of-IsJob :
        (j : Job) (text : Bytes)
        → IsJob (format_claim e formatters) (λ j. text) j
        → IsJob (format_claim e formatters) (line_of (format_claim e formatters)) j
          × (line_of (format_claim e formatters) j ≡ text)
    line_of-IsJob j text h =
        let (bytes, filled, size, line) =
          h (replicate j.total_size 0) (length-replicate j.total_size 0) in
        let same : line_of (format_claim e formatters) j ≡ text = rw (filled, line) in
        (rw same h, same)

    -- A record of the `log` crate, with a target of at most 65535 bytes, writes into any region of the
    -- size announced a record of which the archiver makes its prefix and the message.
    pub text_job-IsJob :
        (level : ℕ) (target : Bytes) (line : ℕ) (message : Bytes) (fmt_fn now : ℕ) (prefix : Bytes)
        → length target ≤ 65535
        → line < 2 ^ 32
        → IsText target
        → IsText message
        → now < 2 ^ 64
        → fmt_fn < 2 ^ 64
        → IsByte level
        → formatters fmt_fn ≡ standard_format_fn color
        → write_log_prefix color now level target line ≡ some prefix
        → IsJob
            (format_claim e formatters)
            (line_of (format_claim e formatters))
            (text_job level target line message fmt_fn now)
          × (line_of (format_claim e formatters) (text_job level target line message fmt_fn now)
              ≡ prefix ++ (message ++ (b'\n' ∷ [])))
    unfolding standard_format_fn format_record write_log_prefix standard_record_size
    text_job-IsJob level target line message fmt_fn now prefix short hl ut um hn hf hb code put =
        let h : RecordHeader = header_of now fmt_fn level in
        line_of-IsJob (text_job level target line message fmt_fn now)
          (prefix ++ (message ++ (b'\n' ∷ [])))
          (λ region size.
            let rest : Bytes = drop header_size region in
            let rest_size : length rest ≡ 6 + length target + length message =
              omega (arith, length-drop header_size region) in
            let written : (write_standard_payload rest line target message >>= λ p. some (p.0))
                ≡ some (payload_bytes line target message) =
              rw (
                write_standard_payload-eq rest line target message short (omega arith),
                ← rest_size,
                drop-length rest,
                append-nil,
              ) in
            (
              header_bytes e h ++ payload_bytes line target message,
              fill_record-eq R e h _ region _ refl (omega arith) written,
              rw length-append (
                  omega (
                    arith,
                    length-header_bytes e h refl,
                    length-payload_bytes line target message,
                  )),
              format_claim-header_bytes e formatters h _ (padded-IsHeader now fmt_fn level hn hf hb)
                  ∙ rw (code, read_standard_payload-eq line target message hl short ut um, put),
            ))
