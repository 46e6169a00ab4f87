-- ===== src/Consumer/Ending/Drained.antt =====
-- What the drain has done, when the archiver ends, whether or not a format function panics.
use inqjet.Common.{
  ℕ, zero, suc, ◌≤◌, ◌≡◌, refl, ◌⊎◌, inl, inr, Bool, true, false, Option, none, some, get_elem?,
}
use inqjet.Common.Bytes.{Bytes}
use inqjet.Logbuf.{Logbuf}
use inqjet.Consumer.{
  Phase, test, poll_log, poll_archive, settle, drain_log, drain_archive, done, died, Stream,
  ArchiveStream, Archiver, Polled, empty, took, panicked, poll, flushed, after_log, after_archive,
  at_archive, tick_at, tick, ticks,
}
use inqjet.Consumer.Ending.{measure, Shrinks, poll-Shrinks, ticks-Ended}
use inqjet.Consumer.Closing.{
  IsClosed, AllClosed, IsDrained, ClosedTo-AllClosed, ClosedTo-set_archive, ClosedTo-set_closed,
  flushed-IsClosed,
}

module _ (R : Logbuf) where
  -- What the archiver's phase says of the drain is true.
  abbrev pub Drains : Archiver R → Type 0
  Drains a = IsDrained R a.phase a

  after_log-Drains :
      (a : Archiver R) (p : Polled R)
      → Shrinks R a.log p
      → Drains (after_log R drain_log (drain_archive 0) (flushed R) a p)
  unfolding after_log
  after_log-Drains a empty k = (flushed-IsClosed R a.log k, tt)
  after_log-Drains a (took s) k = tt
  after_log-Drains a (panicked s) k = tt

  after_log_open :
      (w : Bool) (a : Archiver R) (p : Polled R)
      → Drains (after_log R (poll_log true) (poll_archive 0 w) (λ s. s) a p)
  unfolding after_log
  after_log_open w a empty = tt
  after_log_open w a (took s) = tt
  after_log_open w a (panicked s) = tt

  after_archive-Drains :
      (i : ℕ) (a : Archiver R) (s : Stream R) (p : Polled R)
      → IsDrained R (drain_archive i) a
      → Shrinks R s p
      → Drains (after_archive R i (drain_archive i) (drain_archive (suc i)) (flushed R) a s p)
  unfolding after_archive
  after_archive-Drains i a s empty (l, d) k =
      (l, ClosedTo-set_closed R i (flushed R s) a.archives (flushed-IsClosed R s k) d)
  after_archive-Drains i a s (took s') (l, d) k = (l, ClosedTo-set_archive R i s' a.archives d)
  after_archive-Drains i a s (panicked s') d k = tt

  after_archive_open :
      (i : ℕ) (w : Bool) (a : Archiver R) (s : Stream R) (p : Polled R)
      → Drains (after_archive R i (poll_archive i true) (poll_archive (suc i) w) (λ s. s) a s p)
  unfolding after_archive
  after_archive_open i w a s empty = tt
  after_archive_open i w a s (took s') = tt
  after_archive_open i w a s (panicked s') = tt

  at_archive-Drains :
      (i : ℕ) (a : Archiver R) (o : Option (ArchiveStream R))
      → get_elem? a.archives i ≡ o
      → IsDrained R (drain_archive i) a
      → Drains (at_archive R i (drain_archive i) (drain_archive (suc i)) done (flushed R) a o)
  unfolding at_archive
  at_archive-Drains i a none e (l, d) = (l, ClosedTo-AllClosed R i a.archives e d)
  at_archive-Drains i a (some x) e d =
      after_archive-Drains i a x.stream (poll R x.format_fn x.stream) d
        (poll-Shrinks R x.format_fn x.stream)

  at_archive_open :
      (i : ℕ) (w : Bool) (a : Archiver R) (o : Option (ArchiveStream R))
      → Drains
          (at_archive R i (poll_archive i true) (poll_archive (suc i) w) (settle w) (λ s. s) a o)
  unfolding at_archive
  at_archive_open i w a none = tt
  at_archive_open i w a (some x) = after_archive_open i w a x.stream (poll R x.format_fn x.stream)

  module _ (format_log : Bytes → Option Bytes) where
    pub tick_at-Drains :
        (phase : Phase) (a : Archiver R)
        → a.phase ≡ phase
        → IsDrained R phase a
        → Drains (tick_at R format_log phase false a)
    unfolding tick_at
    tick_at-Drains test a e d = tt
    tick_at-Drains (poll_log w) a e d = after_log_open w a (poll R format_log a.log)
    tick_at-Drains (poll_archive i w) a e d = at_archive_open i w a (get_elem? a.archives i)
    tick_at-Drains (settle true) a e d = tt
    tick_at-Drains (settle false) a e d = tt
    tick_at-Drains drain_log a e d =
        after_log-Drains a (poll R format_log a.log) (poll-Shrinks R format_log a.log)
    tick_at-Drains (drain_archive i) a e d = at_archive-Drains i a (get_elem? a.archives i) refl d
    tick_at-Drains done a e d = rw e d
    tick_at-Drains died a e d = rw e tt

    ticks-Drains : (n : ℕ) (a : Archiver R) → Drains a → Drains (ticks R format_log n false a)
    unfolding ticks tick
    ticks-Drains zero a d = d
    ticks-Drains (suc n) a d =
        ticks-Drains n (tick R format_log false a) (tick_at-Drains a.phase a refl d)

    -- With `running` false and no more commits, from the loop, or from a drain that has closed the
    -- streams before the one that it is at: within as many actions as `measure` gives the thread has
    -- ended. Either it is at its end, and then nothing waits in any stream, and the last call on each
    -- stream's writer was a flush; or it has died of a panic in a format function.
    pub ticks-AllClosed :
        (n : ℕ) (a : Archiver R)
        → Drains a
        → measure R a ≤ n
        → (((ticks R format_log n false a).phase ≡ done)
            × IsClosed R (ticks R format_log n false a).log
            × AllClosed R (ticks R format_log n false a).archives)
          ⊎ ((ticks R format_log n false a).phase ≡ died)
    ticks-AllClosed n a d enough = elim (ticks-Ended R format_log n a enough) [
      | inl e ↦ let (l, xs) = rw e at (ticks-Drains n a d) in inl (e, l, xs)
      | inr e ↦ inr e
    ]
