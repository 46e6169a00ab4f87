-- ===== src/Logger/Bridge.antt =====
-- What the `log` crate's bridge leaves in the queue.
use inqjet.Common.{
  ℕ, ◌+◌, ◌≤◌, ◌≡◌, refl, true, false, some, List, [], ◌∷◌, ◌++◌, append-nil, arith, length, drop,
  length-append, length-drop, drop-length, ◌>>=◌, Option,
}
use inqjet.Common.Bytes.{Bytes, Endian}
use inqjet.Config.{BackpressureMode}
use inqjet.Logbuf.{Logbuf}
use inqjet.Record.{
  RecordHeader, header_size, header_bytes, standard_record_size, write_standard_payload,
}
use inqjet.Record.Header.{length-header_bytes}
use inqjet.Record.Payload.{payload_bytes, length-payload_bytes, write_standard_payload-eq}
use inqjet.Logger.{Moment, submitted, log_impl, padding, fill_record}
use inqjet.Logger.Backpressure.{Full, fill_record-eq, submit-pending}

module _ (R : Logbuf) where
  open R use {Queue, try_claim, commit, pending, IsIdle, claim_length}

  -- Under `Backoff`, while the logger runs and not from inside another call, a record with a target
  -- of at most 65535 bytes is added as its header and standard payload, at the first moment with
  -- room, where no other claim is open.
  pub log_impl-pending :
      (e : Endian) (level : ℕ) (target : Bytes) (line : ℕ) (message : Bytes) (fmt_fn now : ℕ)
      (busy : List (Moment R)) (m : Moment R) (later : List (Moment R)) (region : Bytes) (q : Queue)
      → length target ≤ 65535
      → Full R (standard_record_size (length target) (length message)) busy
      → IsIdle m.queue
      → try_claim m.queue (standard_record_size (length target) (length message)) ≡ some (region, q)
      → (q' : Queue) × (log_impl R e
            (some (record { backpressure = BackpressureMode.backoff }))
            true
            false
            level
            target
            line
            message
            fmt_fn
            now
            (busy ++ (m ∷ later))
          ≡ (submitted q', length busy))
        × (pending q'
            ≡ pending m.queue
              ++ ((header_bytes e (record {
                timestamp_ns = now;
                formatter = fmt_fn;
                level = level;
                pad = padding;
              })
                    ++ payload_bytes line target message)
                  ∷ []))
  unfolding log_impl standard_record_size
  log_impl-pending e level target line message fmt_fn now busy m later region q short full idle
        claimed =
      let h : RecordHeader = record {
        timestamp_ns = now;
        formatter = fmt_fn;
        level = level;
        pad = padding;
      } in
      let encode : Bytes → Option Bytes =
        λ buf. write_standard_payload buf line target message >>= λ p. some (p.0) in
      let size = claim_length m.queue q _ region claimed in
      let rest : Bytes = drop header_size region in
      let rest_size : length rest ≡ 6 + length target + length message =
        omega (arith, length-drop header_size region) in
      let written : (write_standard_payload rest line target message >>= λ p. some (p.0))
          ≡ some (payload_bytes line target message) =
        rw (
          write_standard_payload-eq rest line target message short (omega arith),
          ← rest_size,
          drop-length rest,
          append-nil,
        ) in
      let (sent, grown) =
        submit-pending R _ (fill_record R e h encode) busy m later region
          (header_bytes e h ++ payload_bytes line target message) q full idle claimed
          (fill_record-eq R e h encode region (payload_bytes line target message) refl (omega arith)
            written)
          (rw length-append (
            omega
              (arith, length-header_bytes e h refl, length-payload_bytes line target message))) in
      (commit q (header_bytes e h ++ payload_bytes line target message), sent, grown)
