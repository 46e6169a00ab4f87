-- ===== src/Producers/Delivered.antt =====
-- To the archiver, the threads are an environment that commits records to its log stream; so what
-- they log is delivered.
use inqjet.Common.{
  ◌≢◌, ℕ, ◌≡◌, refl, ap, ◌∙◌, Option, some, List, [], ◌∷◌, ◌++◌, map, arith, get_elem?, All,
  drop-all,
}
use mathlib.Core.List.{map-append}
use inqjet.Common.Bytes.{Bytes}
use inqjet.Consumer.{died}
use inqjet.Config.{BackpressureMode}
use inqjet.Logbuf.Mpsc.{Mpsc, logbuf, visible}
use inqjet.Consumer.Received.{tick-slots}
use inqjet.Consumer.Promise.{promises, archive_promised, written}
use inqjet.Consumer.Delivery.{Event, accept_all, accept_all-append, Run-then}
use inqjet.Consumer.Delivery.Stop.{IsLooping}
use inqjet.Consumer.Delivery as Delivery
use inqjet.Producers.{
  Job, between, Producer, Note, turn, System, queue_of, Step, archive, produce, stop, Run, start,
  next, claims,
}
use inqjet.Producers.Claims.{IsJob}
use inqjet.Producers.Held.{IsHeld}
use inqjet.Producers.Turns.{turn-Goes, claims-snoc, with_claim}

module _ (M : Mpsc) (format_log : Bytes → Option Bytes) (line : Job → Bytes) where
  open M use {Queue, slots}

  -- The archiver, as `Consumer.Delivery` has it.
  abbrev thread_of : System M → Delivery.System (logbuf M)
  thread_of s = record { thread = s.archiver; running = s.running }

  -- The archiver has run among commits of just the visible records, and a thread holds each open
  -- place.
  pub record IsServed (s t : System M) (cs : List (ℕ × Job)) : Type 0 where
    pub held : IsHeld format_log line t.producers (slots (queue_of M t)) cs
    pub commits :
        (evs : List Event) × Delivery.Run (logbuf M) format_log (thread_of s) evs (thread_of t)
        × (accept_all evs (promises (logbuf M) format_log s.archiver)
            ≡ map format_log (visible (slots (queue_of M t)))
              ∷ map (archive_promised (logbuf M)) s.archiver.archives)

  -- An archiver that is alive in its loop and has written no line, a queue without claims, and threads
  -- between calls, with jobs to do.
  pub record IsStarted (s : System M) : Type 0 where
    pub looping : IsLooping s.archiver.phase
    pub alive : s.archiver.phase ≢ died
    pub unclaimed : slots (queue_of M s) ≡ []
    pub unwritten : written s.archiver.log.calls ≡ []
    pub callers :
        (k : ℕ) (p : Producer)
        → get_elem? s.producers k ≡ some p
        → (p.place ≡ between) × All (IsJob format_log line) p.calls

  IsStarted-IsServed : (s : System M) → IsStarted s → IsServed s s []
  IsStarted-IsServed s h = record {
    held = record {
      fits = rw h.unclaimed tt;
      stands = λ k p e. let (place, sound) = h.callers k p e in (rw place tt, sound);
      held = λ t n e. cc h.unclaimed;
    };
    commits = (
      [],
      Delivery.Run.start (thread_of s),
      rw (h.unwritten, h.unclaimed, drop-all {A = Bytes} (M.head (queue_of M s)) [] (omega arith))
          refl,
    );
  }

  with_event :
      (s t u : System M) (cs cs' : List (ℕ × Job)) (ev : Event)
      → IsServed s t cs
      → IsHeld format_log line u.producers (slots (queue_of M u)) cs'
      → Delivery.Step (logbuf M) format_log (thread_of t) ev (thread_of u)
      → (Delivery.accept ev (
            map format_log (visible (slots (queue_of M t)))
            ∷ map (archive_promised (logbuf M)) s.archiver.archives)
          ≡ map format_log (visible (slots (queue_of M u)))
            ∷ map (archive_promised (logbuf M)) s.archiver.archives)
      → IsServed s u cs'
  with_event s t u cs cs' ev h held st grown =
      let (evs, run, owed) = h.commits in
      record {
        held = held;
        commits = (
          evs ++ (ev ∷ []),
          Run-then (logbuf M) format_log run st,
          accept_all-append evs (ev ∷ []) (promises (logbuf M) format_log s.archiver)
              ∙ ap (Delivery.accept ev) owed
              ∙ grown,
        );
      }

  Step-IsServed :
      {mode : BackpressureMode} (s : System M) {t u : System M} {i : ℕ} {note : Note}
      (cs : List (ℕ × Job))
      → IsServed s t cs
      → Step M mode format_log t i note u
      → IsServed s u (with_claim i note cs)
  Step-IsServed {mode} s cs h (archive t i) =
      let same = tick-slots M format_log t.running t.archiver in
      with_event s t _ cs cs Event.internal h (rw same h.held) (Delivery.Step.act (thread_of t))
        (rw same refl)
  Step-IsServed {mode} s cs h (stop t i) =
      with_event s t _ cs cs Event.stopped h h.held (Delivery.Step.stop (thread_of t)) refl
  Step-IsServed {mode} s cs h (produce t i p e) =
      let (held, (rs, waits, grown)) =
        turn-Goes M format_log line t.producers cs i (queue_of M t) p e h.held mode t.running in
      let q' : Queue = (turn M mode t.running (queue_of M t) p).queue in
      with_event s t _ cs _ (Event.committed 0 (map format_log rs)) h held
        (Delivery.Step.commit_log (thread_of t) q' rs waits) (rw (grown, map-append))

  -- From a start at which the archiver is in its loop and has written no line, the queue has no claims,
  -- each thread is between two calls, and each call of any thread fills any region of the size that it
  -- claims with a record of that size whose formatting gives the call's line, so that neither panics:
  -- then, in either mode and whichever turns the threads and the archiver take, in any order, the run
  -- is one of the archiver's among commits of just those records that the threads have committed with
  -- no open claim in front of them; each open place of the queue is held by a thread, and each
  -- committed one has the line of the call that claimed it.
  pub Run-IsServed :
      {mode : BackpressureMode} {s t : System M} {es : List (ℕ × Note)}
      → Run M mode format_log s es t
      → IsStarted s
      → IsServed s t (claims es)
  Run-IsServed {s} start h = IsStarted-IsServed s h
  Run-IsServed {s} (next {i = i} {note = note} {es = es} run st) h =
      rw (claims-snoc es i note) (Step-IsServed s (claims es) (Run-IsServed run h) st)
