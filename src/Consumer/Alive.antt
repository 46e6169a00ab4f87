-- ===== src/Consumer/Alive.antt =====
-- The thread does not panic where formatting does not.
use inqjet.Common.{ℕ, suc, ◌≡◌, refl, ◌≢◌, Bool, true, false, Option, none, some, get_elem?, All}
use inqjet.Common.Bytes.{Bytes}
use inqjet.Logbuf.{Logbuf}
use inqjet.Consumer.{
  Phase, test, poll_log, poll_archive, settle, drain_log, drain_archive, done, died, Stream,
  ArchiveStream, Archiver, Polled, empty, took, panicked, poll, flushed, after_log, after_archive,
  at_archive, tick_at, tick,
}
use inqjet.Consumer.Promise.{archive_promised, promises}
use inqjet.Consumer.Closing.{AllFormat, All-map_get_elem?, NoPanic, poll-NoPanic}

module _ (R : Logbuf) where
  after_log-alive :
      (again next : Phase) (close : Stream R → Stream R) (a : Archiver R) (p : Polled R)
      → again ≢ died
      → next ≢ died
      → NoPanic R p
      → (after_log R again next close a p).phase ≢ died
  unfolding after_log
  after_log-alive again next close a empty h h' n = h'
  after_log-alive again next close a (took s) h h' n = h
  after_log-alive again next close a (panicked s) h h' n = absurd n

  after_archive-alive :
      (i : ℕ) (again next : Phase) (close : Stream R → Stream R) (a : Archiver R) (s : Stream R)
      (p : Polled R)
      → again ≢ died
      → next ≢ died
      → NoPanic R p
      → (after_archive R i again next close a s p).phase ≢ died
  unfolding after_archive
  after_archive-alive i again next close a s empty h h' n = h'
  after_archive-alive i again next close a s (took s') h h' n = h
  after_archive-alive i again next close a s (panicked s') h h' n = absurd n

  module _ (format_log : Bytes → Option Bytes) (a : Archiver R)
      (h : All AllFormat (promises R format_log a)) where
    at_archive-alive :
        (i : ℕ) (again next end : Phase) (close : Stream R → Stream R)
        (o : Option (ArchiveStream R))
        → get_elem? a.archives i ≡ o
        → again ≢ died
        → next ≢ died
        → end ≢ died
        → (at_archive R i again next end close a o).phase ≢ died
    unfolding at_archive
    at_archive-alive i again next end close none e ha hn he = he
    at_archive-alive i again next end close (some x) e ha hn he =
        after_archive-alive i again next close a x.stream (poll R x.format_fn x.stream) ha hn (
          poll-NoPanic R x.format_fn x.stream
            (All-map_get_elem? AllFormat (archive_promised R) a.archives i x h.1 e))

    log-NoPanic : NoPanic R (poll R format_log a.log)
    log-NoPanic = poll-NoPanic R format_log a.log h.0

    pub tick_at-alive :
        (phase : Phase) (running : Bool)
        → a.phase ≡ phase
        → phase ≢ died
        → (tick_at R format_log phase running a).phase ≢ died
    unfolding tick_at
    tick_at-alive test true e alive = λ d. cc
    tick_at-alive test false e alive = λ d. cc
    tick_at-alive (poll_log w) running e alive =
        after_log-alive (poll_log true) (poll_archive 0 w) (λ s. s) a (poll R format_log a.log)
          (λ d. cc) (λ d. cc) log-NoPanic
    tick_at-alive (poll_archive i w) running e alive =
        at_archive-alive i (poll_archive i true) (poll_archive (suc i) w) (settle w) (λ s. s)
          (get_elem? a.archives i) refl (λ d. cc) (λ d. cc) (λ d. cc)
    tick_at-alive (settle true) running e alive = λ d. cc
    tick_at-alive (settle false) running e alive = λ d. cc
    tick_at-alive drain_log running e alive =
        after_log-alive drain_log (drain_archive 0) (flushed R) a (poll R format_log a.log)
          (λ d. cc) (λ d. cc) log-NoPanic
    tick_at-alive (drain_archive i) running e alive =
        at_archive-alive i (drain_archive i) (drain_archive (suc i)) done (flushed R)
          (get_elem? a.archives i) refl (λ d. cc) (λ d. cc) (λ d. cc)
    tick_at-alive done running e alive = rw e (λ d. cc)
    tick_at-alive died running e alive = absurd (alive refl)

    pub tick-alive : (running : Bool) → a.phase ≢ died → (tick R format_log running a).phase ≢ died
    unfolding tick
    tick-alive running alive = tick_at-alive a.phase running refl alive
