-- ===== src/Consumer/Delivery/Stop.antt =====
-- From the guard's signal on, the archiver ends by itself, with everything delivered.
use mathlib.Core.Path.{subst}
use inqjet.Common.{
  sym, ℕ, suc, ◌≤◌, ◌≡◌, refl, ◌∙◌, ◌≢◌, Bool, true, false, Option, none, some, List, get_elem?,
  All, ◌∷◌, [], arith,
}
use inqjet.Common.Bytes.{Bytes}
use inqjet.Logbuf.{Logbuf}
use inqjet.Consumer.{
  Phase, test, poll_log, poll_archive, settle, drain_log, drain_archive, done, died, Stream,
  ArchiveStream, Archiver, Polled, empty, took, panicked, after_log, after_archive, at_archive,
  poll, tick_at, tick, ticks,
}
use inqjet.Consumer.Promise.{promises}
use inqjet.Consumer.Ending.{measure}
use inqjet.Consumer.Shutdown.{ticks-outputs}
use inqjet.Consumer.Closing.{AllFormat, IsClosed, AllClosed, outputs, IsDrained}
use inqjet.Consumer.Delivery.{
  append_at, accept_all-append, Run-then, accept_all, Event, System, Step, act, stop, commit_log,
  commit_archive, Run, start, next, Run-promises,
}

-- The thread is not in the drain.
abbrev pub IsLooping : Phase → Type 0
IsLooping test = Unit
IsLooping (poll_log w) = Unit
IsLooping (poll_archive i w) = Unit
IsLooping (settle w) = Unit
IsLooping drain_log = ⊥
IsLooping (drain_archive i) = ⊥
IsLooping done = ⊥
IsLooping died = Unit

module _ (R : Logbuf) where
  open R use {Queue, pending}

  module _ (format_log : Bytes → Option Bytes) where
    IsLooping-IsDrained : (phase : Phase) (a : Archiver R) → IsLooping phase → IsDrained R phase a
    IsLooping-IsDrained test a h = tt
    IsLooping-IsDrained (poll_log w) a h = tt
    IsLooping-IsDrained (poll_archive i w) a h = tt
    IsLooping-IsDrained (settle w) a h = tt
    IsLooping-IsDrained died a h = tt
    IsLooping-IsDrained drain_log a h = absurd h
    IsLooping-IsDrained (drain_archive i) a h = absurd h
    IsLooping-IsDrained done a h = absurd h

    after_log-IsLooping :
        (w : Bool) (close : Stream R → Stream R) (a : Archiver R) (p : Polled R)
        → IsLooping (after_log R (poll_log true) (poll_archive 0 w) close a p).phase
    unfolding after_log
    after_log-IsLooping w close a empty = tt
    after_log-IsLooping w close a (took s) = tt
    after_log-IsLooping w close a (panicked s) = tt

    after_archive-IsLooping :
        (i : ℕ) (w : Bool) (close : Stream R → Stream R) (a : Archiver R) (s : Stream R)
        (p : Polled R)
        → IsLooping
            (after_archive R i (poll_archive i true) (poll_archive (suc i) w) close a s p).phase
    unfolding after_archive
    after_archive-IsLooping i w close a s empty = tt
    after_archive-IsLooping i w close a s (took s') = tt
    after_archive-IsLooping i w close a s (panicked s') = tt

    at_archive-IsLooping :
        (i : ℕ) (w : Bool) (close : Stream R → Stream R) (a : Archiver R)
        (o : Option (ArchiveStream R))
        → IsLooping
            (at_archive R i
              (poll_archive i true)
              (poll_archive (suc i) w)
              (settle w)
              close
              a
              o).phase
    unfolding at_archive
    at_archive-IsLooping i w close a none = tt
    at_archive-IsLooping i w close a (some x) =
        after_archive-IsLooping i w close a x.stream (poll R x.format_fn x.stream)

    pub tick_at-IsLooping :
        (phase : Phase) (a : Archiver R)
        → a.phase ≡ phase
        → IsLooping phase
        → IsLooping (tick_at R format_log phase true a).phase
    unfolding tick_at
    tick_at-IsLooping test a e h = tt
    tick_at-IsLooping (poll_log w) a e h =
        after_log-IsLooping w (λ s. s) a (poll R format_log a.log)
    tick_at-IsLooping (poll_archive i w) a e h =
        at_archive-IsLooping i w (λ s. s) a (get_elem? a.archives i)
    tick_at-IsLooping (settle true) a e h = tt
    tick_at-IsLooping (settle false) a e h = tt
    tick_at-IsLooping died a e h = rw e tt
    tick_at-IsLooping drain_log a e h = absurd h
    tick_at-IsLooping (drain_archive i) a e h = absurd h
    tick_at-IsLooping done a e h = absurd h

    -- While `running` is true, the thread does not leave the loop; it is never set again.
    unfoldable pub Loops : System R → Type 0
    Loops s = s.running ≡ true → IsLooping s.thread.phase

    Step-Loops : {s t : System R} {e : Event} → Step R format_log s e t → Loops s → Loops t
    unfolding Loops tick
    Step-Loops (act s) h r = rw r (tick_at-IsLooping s.thread.phase s.thread refl (h r))
    Step-Loops (stop s) h r = cc
    Step-Loops (commit_log s q rs e) h r = h r
    Step-Loops (commit_archive s i x q rs e e') h r = h r

    pub Run-Loops : {s t : System R} {es : List Event} → Run R format_log s es t → Loops s → Loops t
    Run-Loops (start s) h = h
    Run-Loops (next st r) h = Run-Loops r (Step-Loops st h)

    -- A thread that starts in its loop, with empty queues or not, runs among other threads up to
    -- some moment before the guard's signal; from then on nothing is committed, and formatting
    -- panics on no record. Then the thread ends by itself, at the latest after as many actions as
    -- `measure` gives, and each writer has been given just the lines of its stream's records, in the
    -- order of their commits, and a flush behind them.
    pub Run-outputs :
        {s t : System R} {es : List Event} (n : ℕ)
        → Run R format_log s es t
        → IsLooping s.thread.phase
        → t.running ≡ true
        → t.thread.phase ≢ died
        → All AllFormat (promises R format_log t.thread)
        → measure R t.thread ≤ n
        → ((ticks R format_log n false t.thread).phase ≡ done)
          × (outputs R (ticks R format_log n false t.thread)
              ≡ accept_all es (promises R format_log s.thread))
          × IsClosed R (ticks R format_log n false t.thread).log
          × AllClosed R (ticks R format_log n false t.thread).archives
    unfolding Loops
    Run-outputs {s} {t} n r loops running alive h enough =
        let (ended, out, l, xs) =
          ticks-outputs R format_log t.thread n h alive
            (IsLooping-IsDrained t.thread.phase t.thread (Run-Loops r (λ _. loops) running))
            enough in
        (ended, out ∙ Run-promises R format_log r alive, l, xs)

    -- The last commit before the stop is the last of its stream's lines.
    pub commit-outputs :
        {s t u : System R} {es : List Event} {i : ℕ} {lines : List (Option Bytes)}
        → Run R format_log s es t
        → Step R format_log t (Event.committed i lines) u
        → IsLooping s.thread.phase
        → u.running ≡ true
        → u.thread.phase ≢ died
        → All AllFormat (append_at i lines (accept_all es (promises R format_log s.thread)))
        → ((ticks R format_log (measure R u.thread) false u.thread).phase ≡ done)
          × (outputs R (ticks R format_log (measure R u.thread) false u.thread)
              ≡ append_at i lines (accept_all es (promises R format_log s.thread)))
    commit-outputs {s} {t} {u} {es} {i} {lines} r st loops running alive formats =
        let r' = Run-then R format_log r st in
        let spelled =
          accept_all-append es (Event.committed i lines ∷ []) (promises R format_log s.thread) in
        let owed = Run-promises R format_log r' alive ∙ spelled in
        let (ended, out, _, _) =
          Run-outputs (measure R u.thread) r' loops running alive
            (subst (All AllFormat) (sym owed) formats) (omega arith) in
        (ended, out ∙ spelled)
