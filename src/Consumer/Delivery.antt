-- ===== src/Consumer/Delivery.antt =====
-- The archiver among other threads: whatever they do, each stream is delivered in its own order.
pub mod Stop
use mathlib.Core.Path.{subst}
use mathlib.Core.List.{map-append}
use inqjet.Common.{
  ℕ, zero, suc, ◌≡◌, refl, sym, ap, ◌∙◌, ◌≢◌, Bool, false, Option, none, some, List, [], ◌∷◌, ◌++◌,
  map, append_assoc, get_elem?, some_inj,
}
use inqjet.Common.Bytes.{Bytes}
use inqjet.Logbuf.{Logbuf}
use inqjet.Consumer.{
  Phase, test, poll_log, poll_archive, settle, drain_log, drain_archive, done, died, Stream,
  ArchiveStream, Archiver, Polled, empty, took, panicked, set_archive, after_log, after_archive,
  at_archive, poll, tick_at, tick, ticks,
}
use inqjet.Consumer.Promise.{promised, archive_promised, promises, tick-promises}
use inqjet.Consumer.Ending.{measure}
use inqjet.Consumer.Shutdown.{ticks-outputs}
use inqjet.Consumer.Closing.{AllFormat, IsClosed, AllClosed, outputs, IsDrained}

-- What a step is to an observer: nothing, the guard's signal to stop, or the lines of records that
-- became available in a stream; stream 0 is the log, and the archives follow.
pub data Event : Type 0 where
  internal stopped : Event
  committed : ℕ → List (Option Bytes) → Event

-- The specification of the archiver: a list of lines for each stream, which only grows at its end.
abbrev pub append_at :
    ℕ → List (Option Bytes) → List (List (Option Bytes)) → List (List (Option Bytes))
append_at i lines [] = []
append_at zero lines (p ∷ ps) = (p ++ lines) ∷ ps
append_at (suc i) lines (p ∷ ps) = p ∷ append_at i lines ps

abbrev pub accept : Event → List (List (Option Bytes)) → List (List (Option Bytes))
accept internal ps = ps
accept stopped ps = ps
accept (committed i lines) ps = append_at i lines ps

abbrev pub accept_all : List Event → List (List (Option Bytes)) → List (List (Option Bytes))
accept_all [] ps = ps
accept_all (e ∷ es) ps = accept_all es (accept e ps)

pub accept_all-append :
    (es es' : List Event) (ps : List (List (Option Bytes)))
    → accept_all (es ++ es') ps ≡ accept_all es' (accept_all es ps)
accept_all-append [] es' ps = refl
accept_all-append (e ∷ es) es' ps = accept_all-append es es' (accept e ps)

module _ (R : Logbuf) where
  open R use {Queue, pending}

  pub record System : Type 0 where
    pub thread : Archiver R
    pub running : Bool

  module _ (format_log : Bytes → Option Bytes) where
    pub data Step : System → Event → System → Type 0 where
      act :
          (s : System)
          → Step s internal (record s { thread = tick R format_log s.running s.thread })
      stop : (s : System) → Step s stopped (record s { running = false })
      commit_log :
          (s : System) (q : Queue) (rs : List Bytes)
          → pending q ≡ pending s.thread.log.queue ++ rs
          → Step s
              (committed 0 (map format_log rs))
              (record s { thread = record s.thread { log = record s.thread.log { queue = q } } })
      commit_archive :
          (s : System) (i : ℕ) (x : ArchiveStream R) (q : Queue) (rs : List Bytes)
          → get_elem? s.thread.archives i ≡ some x
          → pending q ≡ pending x.stream.queue ++ rs
          → Step s (committed (suc i) (map x.format_fn rs)) (record s {
            thread = record s.thread {
              archives = set_archive R i (record x.stream { queue = q }) s.thread.archives;
            };
          })

    pub data Run : System → List Event → System → Type 0 where
      start : (s : System) → Run s [] s
      next :
          {s t u : System} {e : Event} {es : List Event}
          → Step s e t
          → Run t es u
          → Run s (e ∷ es) u

    committed_promised :
        (format : Bytes → Option Bytes) (s : Stream R) (q : Queue) (rs : List Bytes)
        → pending q ≡ pending s.queue ++ rs
        → promised R format (record s { queue = q }) ≡ promised R format s ++ map format rs
    committed_promised format s q rs h = rw (h, map-append, append_assoc)

    append_at-set_archive :
        (i : ℕ) (xs : List (ArchiveStream R)) (x : ArchiveStream R) (q : Queue) (rs : List Bytes)
        → get_elem? xs i ≡ some x
        → pending q ≡ pending x.stream.queue ++ rs
        → map (archive_promised R) (set_archive R i (record x.stream { queue = q }) xs)
          ≡ append_at i (map x.format_fn rs) (map (archive_promised R) xs)
    unfolding set_archive
    append_at-set_archive i [] x q rs e h = refl
    append_at-set_archive zero (y ∷ ys) x q rs e h =
        ap (λ p. p ∷ map (archive_promised R) ys)
          (subst
            (λ z.
              promised R z.format_fn (record x.stream { queue = q })
              ≡ archive_promised R z ++ map x.format_fn rs)
            (sym (some_inj e)) (committed_promised x.format_fn x.stream q rs h))
    append_at-set_archive (suc i) (y ∷ ys) x q rs e h = rw (append_at-set_archive i ys x q rs e h)

    Step-promises :
        {s t : System} {e : Event}
        → Step s e t
        → t.thread.phase ≢ died
        → promises R format_log t.thread ≡ accept e (promises R format_log s.thread)
    Step-promises (act s) alive = tick-promises R format_log s.running s.thread alive
    Step-promises (stop s) alive = refl
    Step-promises (commit_log s q rs h) alive =
        rw (committed_promised format_log s.thread.log q rs h)
    Step-promises (commit_archive s i x q rs e h) alive =
        rw (append_at-set_archive i s.thread.archives x q rs e h)

    -- A thread that is alive has been alive.
    Step-alive :
        {s t : System} {e : Event} → Step s e t → t.thread.phase ≢ died → s.thread.phase ≢ died
    unfolding tick tick_at
    Step-alive (act s) alive d = alive (rw d refl)
    Step-alive (stop s) alive d = alive d
    Step-alive (commit_log s q rs h) alive d = alive d
    Step-alive (commit_archive s i x q rs e h) alive d = alive d

    Run-alive :
        {s t : System} {es : List Event}
        → Run s es t
        → t.thread.phase ≢ died
        → s.thread.phase ≢ died
    Run-alive (start s) alive = alive
    Run-alive (next st r) alive = Step-alive st (Run-alive r alive)

    -- In every run in which no format function panics, what has been written to each writer and what
    -- waits for it make up just the lines of the records that were committed to its stream, in their
    -- order: none is lost, doubled, reordered or written to another stream.
    pub Run-promises :
        {s t : System} {es : List Event}
        → Run s es t
        → t.thread.phase ≢ died
        → promises R format_log t.thread ≡ accept_all es (promises R format_log s.thread)
    Run-promises (start s) alive = refl
    Run-promises (next {es = es} st r) alive =
        Run-promises r alive ∙ ap (accept_all es) (Step-promises st (Run-alive r alive))

    pub Run-then :
        {s t u : System} {e : Event} {es : List Event}
        → Run s es t
        → Step t e u
        → Run s (es ++ (e ∷ [])) u
    Run-then (start s) st = next st (start _)
    Run-then (next st' r) st = next st' (Run-then r st)
