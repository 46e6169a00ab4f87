-- ===== src/Consumer/Received.antt =====
-- The archiver receives records, and changes none of the queue's places.
use inqjet.Common.{
  ℕ, suc, ◌≡◌, refl, ap, inl, inr, Bool, true, false, Option, none, some, List, Option-cases,
  get_elem?,
}
use inqjet.Common.Bytes.{Bytes}
use inqjet.Logbuf.Mpsc.{Mpsc, logbuf, Slot}
use inqjet.Consumer.{
  Phase, test, poll_log, poll_archive, settle, drain_log, drain_archive, done, died, Stream,
  ArchiveStream, Archiver, Polled, empty, took, panicked, format_and_write, claimed, poll, flushed,
  after_log, after_archive, at_archive, tick_at, tick,
}

module _ (M : Mpsc) where
  open M use {Queue, receive, slots}

  abbrev Same : Queue → Polled (logbuf M) → Type 0
  Same q empty = Unit
  Same q (took s) = slots s.queue ≡ slots q
  Same q (panicked s) = slots s.queue ≡ slots q

  module _ (format : Bytes → Option Bytes) where
    format_and_write-Same :
        (s : Stream (logbuf M)) (q : Queue) (o : Option Bytes)
        → slots q ≡ slots s.queue
        → Same s.queue (format_and_write (logbuf M) s q o)
    unfolding format_and_write
    format_and_write-Same s q none e = e
    format_and_write-Same s q (some text) e = e

    poll-Same : (s : Stream (logbuf M)) → Same s.queue (poll (logbuf M) format s)
    unfolding poll claimed
    poll-Same s = elim (Option-cases (receive s.queue)) [
      | inl e ↦ rw e tt
      | inr ((claim, q), e) ↦
          rw e (format_and_write-Same s q (format claim) (M.receive-slots s.queue q claim e).1)
    ]

    abbrev log_slots : Archiver (logbuf M) → List Slot
    log_slots a = slots a.log.queue

    after_log-slots :
        (again next : Phase) (close : Stream (logbuf M) → Stream (logbuf M))
        (a : Archiver (logbuf M)) (p : Polled (logbuf M))
        → ((close a.log).queue ≡ a.log.queue)
        → Same a.log.queue p
        → log_slots (after_log (logbuf M) again next close a p) ≡ log_slots a
    unfolding after_log
    after_log-slots again next close a empty c k = ap slots c
    after_log-slots again next close a (took s) c k = k
    after_log-slots again next close a (panicked s) c k = k

    after_archive-slots :
        (i : ℕ) (again next : Phase) (close : Stream (logbuf M) → Stream (logbuf M))
        (a : Archiver (logbuf M)) (s : Stream (logbuf M)) (p : Polled (logbuf M))
        → log_slots (after_archive (logbuf M) i again next close a s p) ≡ log_slots a
    unfolding after_archive
    after_archive-slots i again next close a s empty = refl
    after_archive-slots i again next close a s (took s') = refl
    after_archive-slots i again next close a s (panicked s') = refl

    at_archive-slots :
        (i : ℕ) (again next end : Phase) (close : Stream (logbuf M) → Stream (logbuf M))
        (a : Archiver (logbuf M)) (o : Option (ArchiveStream (logbuf M)))
        → log_slots (at_archive (logbuf M) i again next end close a o) ≡ log_slots a
    unfolding at_archive
    at_archive-slots i again next end close a none = refl
    at_archive-slots i again next end close a (some x) =
        after_archive-slots i again next close a x.stream (poll (logbuf M) x.format_fn x.stream)

    tick_at-slots :
        (phase : Phase) (running : Bool) (a : Archiver (logbuf M))
        → log_slots (tick_at (logbuf M) format phase running a) ≡ log_slots a
    unfolding tick_at flushed
    tick_at-slots test running a = refl
    tick_at-slots (poll_log w) running a =
        after_log-slots (poll_log true) (poll_archive 0 w) (λ s. s) a (poll (logbuf M) format a.log)
          refl (poll-Same a.log)
    tick_at-slots (poll_archive i w) running a =
        at_archive-slots i (poll_archive i true) (poll_archive (suc i) w) (settle w) (λ s. s) a
          (get_elem? a.archives i)
    tick_at-slots (settle true) running a = refl
    tick_at-slots (settle false) running a = refl
    tick_at-slots drain_log running a =
        after_log-slots drain_log (drain_archive 0) (flushed (logbuf M)) a
          (poll (logbuf M) format a.log) refl (poll-Same a.log)
    tick_at-slots (drain_archive i) running a =
        at_archive-slots i (drain_archive i) (drain_archive (suc i)) done (flushed (logbuf M)) a
          (get_elem? a.archives i)
    tick_at-slots done running a = refl
    tick_at-slots died running a = refl

    pub tick-slots :
        (running : Bool) (a : Archiver (logbuf M))
        → log_slots (tick (logbuf M) format running a) ≡ log_slots a
    unfolding tick
    tick-slots running a = tick_at-slots a.phase running a
