-- ===== src/Logger/Backpressure.antt =====
-- How a submission ends under each backpressure mode, and what it leaves in the queue.
use native.Mathlib.Nat.{zero-add, add-zero}
use inqjet.Common.{
  ℕ, ◌+◌, ◌≤◌, ◌≡◌, refl, sym, true, false, Option, none, some, List, [], ◌∷◌, ◌++◌, arith, le→leb,
  length, drop, replicate, length-drop, take-append_at, drop-append_at, ap, length-append,
}
use inqjet.Common.Bytes.{Bytes, Endian}
use inqjet.Config.{BackpressureMode}
use inqjet.Logbuf.{Logbuf}
use inqjet.Record.{RecordHeader, header_size, header_bytes, write_header}
use inqjet.Record.Header.{length-header_bytes}
use inqjet.Logger.{Moment, submitted, claim_loop, hot_log_submit, fill_record, submit, padding}

module _ (R : Logbuf) where
  open R use {Queue, try_claim, commit, pending, IsIdle, commit-pending, claim_length}

  -- Every one of these moments has no room for the record, and the logger still runs.
  abbrev pub Full : ℕ → List (Moment R) → Type 0
  Full n [] = Unit
  Full n (m ∷ ms) = (try_claim m.queue n ≡ none) × (m.running ≡ true) × Full n ms

  claim_loop-Full :
      (n : ℕ) (fill : Bytes → Option Bytes) (busy ms : List (Moment R))
      → Full n busy
      → claim_loop R BackpressureMode.backoff n fill (busy ++ ms) ≡ (
        (claim_loop R BackpressureMode.backoff n fill ms).0,
        length busy + (claim_loop R BackpressureMode.backoff n fill ms).1,
      )
  unfolding claim_loop
  claim_loop-Full n fill [] ms full = rw zero-add
  claim_loop-Full n fill (b ∷ busy) ms (no_room, runs, full) =
      rw (no_room, runs, claim_loop-Full n fill busy ms full)
        (ap (λ k. ((claim_loop R BackpressureMode.backoff n fill ms).0, k)) (omega arith))

  claim_loop-submits :
      (n : ℕ) (fill : Bytes → Option Bytes) (m : Moment R) (ms : List (Moment R))
      (region bytes : Bytes) (q : Queue)
      → try_claim m.queue n ≡ some (region, q)
      → fill region ≡ some bytes
      → claim_loop R BackpressureMode.backoff n fill (m ∷ ms) ≡ (submitted (commit q bytes), 0)
  unfolding claim_loop
  claim_loop-submits n fill m ms region bytes q e f = rw (e, f)

  pub fill_record-eq :
      (e : Endian) (h : RecordHeader) (encode : Bytes → Option Bytes) (region payload : Bytes)
      → length h.pad ≡ 7
      → header_size ≤ length region
      → encode (drop header_size region) ≡ some payload
      → fill_record R e h encode region ≡ some (header_bytes e h ++ payload)
  unfolding fill_record write_header
  fill_record-eq e h encode region payload pad room enc = rw (
    le→leb header_size (length region) room,
    drop-append_at header_size (header_bytes e h) (drop header_size region) size,
    enc,
    take-append_at header_size (header_bytes e h) (drop header_size region) size,
  )
    where
      size : header_size ≡ length (header_bytes e h)
      size = sym (length-header_bytes e h pad)

  -- A submission that waits through full moments and then finds room adds what `fill` wrote.
  pub submit-pending :
      (n : ℕ) (fill : Bytes → Option Bytes) (busy : List (Moment R)) (m : Moment R)
      (later : List (Moment R)) (region bytes : Bytes) (q : Queue)
      → Full n busy
      → IsIdle m.queue
      → try_claim m.queue n ≡ some (region, q)
      → fill region ≡ some bytes
      → length bytes ≡ n
      → (submit R
            (some (record { backpressure = BackpressureMode.backoff }))
            true
            false
            n
            fill
            (busy ++ (m ∷ later))
          ≡ (submitted (commit q bytes), length busy))
        × (pending (commit q bytes) ≡ pending m.queue ++ (bytes ∷ []))
  unfolding submit
  submit-pending n fill busy m later region bytes q full idle claimed filled size = (
    rw (
      claim_loop-Full n fill busy (m ∷ later) full,
      claim_loop-submits n fill m later region bytes q claimed filled,
      add-zero,
    ),
    commit-pending m.queue q n region bytes idle claimed size,
  )

  -- A hot-path call whose closure fills any region of the size announced, made while the logger runs
  -- and not from inside another call of its thread: under `Backoff` it goes on through every moment
  -- at which the queue is full, waking the archiver at each, and at the first one with room, where
  -- no other claim is open, it appends exactly one record, the header followed by what the closure
  -- wrote.
  pub hot_log_submit-pending :
      (e : Endian) (level payload_size fmt_fn now : ℕ) (encode : Bytes → Option Bytes)
      (busy : List (Moment R)) (m : Moment R) (later : List (Moment R)) (region : Bytes) (q : Queue)
      → Full (header_size + payload_size) busy
      → try_claim m.queue (header_size + payload_size) ≡ some (region, q)
      → IsIdle m.queue
      → ((b : Bytes)
          → length b ≡ payload_size
          → (p : Bytes) × (encode b ≡ some p) × (length p ≡ payload_size))
      → (q' : Queue) × (payload : Bytes) × (hot_log_submit R e
            (some (record { backpressure = BackpressureMode.backoff }))
            true
            false
            level
            payload_size
            fmt_fn
            encode
            now
            (busy ++ (m ∷ later))
          ≡ (submitted q', length busy))
        × (pending q'
            ≡ pending m.queue
              ++ ((header_bytes e (record {
                timestamp_ns = now;
                formatter = fmt_fn;
                level = level;
                pad = replicate 7 0;
              })
                    ++ payload)
                  ∷ []))
        × (encode (drop header_size region) ≡ some payload)
  unfolding hot_log_submit
  hot_log_submit-pending e level payload_size fmt_fn now encode busy m later region q full claimed
        idle enc =
      let h : RecordHeader = record {
        timestamp_ns = now;
        formatter = fmt_fn;
        level = level;
        pad = padding;
      } in
      let n : ℕ = header_size + payload_size in
      let size : length region ≡ n = claim_length m.queue q n region claimed in
      let (payload, p, same) =
        enc (drop header_size region) (omega (arith, length-drop header_size region)) in
      let (sent, grown) =
        submit-pending n (fill_record R e h encode) busy m later region
          (header_bytes e h ++ payload) q full idle claimed
          (fill_record-eq e h encode region payload refl (omega arith) p)
          (rw length-append (omega (arith, length-header_bytes e h refl))) in
      (commit q (header_bytes e h ++ payload), payload, sent, grown, p)
