-- ===== src/Examples/Callers.antt =====
-- Two threads with a call each, and the archiver beside them.
use inqjet.Common.{
  ℕ, zero, suc, ◌≡◌, refl, sym, true, false, Option, some, List, [], ◌∷◌, ◌++◌, length, get_elem?,
  All, some_inj, replicate,
}
use inqjet.Common.Bytes.{Bytes}
use inqjet.Config.{BackpressureMode}
use inqjet.Logbuf.Mpsc.{logbuf, filled}
use inqjet.Consumer.{poll_log, test, ticks, tick, tick_at, done}
use inqjet.Consumer.Promise.{written}
use inqjet.Consumer.Ending.{measure}
use inqjet.Producers.{
  holding, Job, between, Producer, Note, silent, claimed, System, Step, Run, turn, claims,
  claims_by, of_thread, calls_by,
}
use inqjet.Producers.Delivered.{IsStarted, IsServed, Run-IsServed}
use inqjet.Producers.Claims.{IsJob}
use inqjet.Producers.Order.{todo, Run-todo}
use inqjet.Producers.Backoff.{Run-calls}
use inqjet.Logbuf.Mpsc.{reserved}
use inqjet.Producers.Progress.{AllSmall, Run-finishes}
use inqjet.Producers.Shutdown.{Run-delivered, AllDone}
use inqjet.EndToEnd.Jobs.{line_of}
use inqjet.Examples.Data.{net, hello}
use inqjet.Examples.Ring.{ring, ring-HasRoom}

abbrev pub as_is : Bytes → Option Bytes
as_is bytes = some bytes

abbrev pub say : Bytes → Job
say text = record { total_size = length text; fill = λ region. some text }

abbrev pub caller : Bytes → Producer
caller text = record { place = between; calls = say text ∷ [] }

abbrev begun : System ring
begun = record {
  archiver = record { phase = test; log = record { queue = ([], []); calls = [] }; archives = [] };
  producers = caller net ∷ caller hello ∷ [];
  running = true;
}

abbrev notes : List (ℕ × Note)
notes =
    (0, silent)
    ∷ (1, silent)
    ∷ (1, claimed (say hello))
    ∷ (0, claimed (say net))
    ∷ (0, silent)
    ∷ (0, silent)
    ∷ (1, silent)
    ∷ []

abbrev finished : System ring
finished = record {
  archiver = record {
    phase = poll_log false;
    log = record { queue = ([], filled hello ∷ filled net ∷ []); calls = [] };
    archives = [];
  };
  producers = record { place = between; calls = [] } ∷ record { place = between; calls = [] } ∷ [];
  running = true;
}

-- The second thread claims first, and commits last.
run : Run ring BackpressureMode.backoff as_is begun notes finished
unfolding turn tick tick_at
run =
    Run.next
      (Run.next
        (Run.next
          (Run.next
            (Run.next
              (Run.next (Run.next Run.start (Step.produce _ 0 _ refl)) (Step.produce _ 1 _ refl))
              (Step.produce _ 1 _ refl))
            (Step.produce _ 0 _ refl))
          (Step.produce _ 0 _ refl))
        (Step.archive _ 0))
      (Step.produce _ 1 _ refl)

pub say-IsJob : (text : Bytes) → IsJob as_is (line_of as_is) (say text)
say-IsJob text region size = (text, refl, refl, refl)

begun-IsStarted : IsStarted ring as_is (line_of as_is) begun
begun-IsStarted = record {
  looping = tt;
  alive = λ e. cc;
  unclaimed = refl;
  unwritten = refl;
  callers = callers;
}
  where
    callers :
        (k : ℕ) (p : Producer)
        → get_elem? begun.producers k ≡ some p
        → (p.place ≡ between) × All (IsJob as_is (line_of as_is)) p.calls
    callers zero p e = rw (sym (some_inj e)) (refl, (say-IsJob net, tt))
    callers (suc zero) p e = rw (sym (some_inj e)) (refl, (say-IsJob hello, tt))
    callers (suc (suc k)) p e = cc

finished-AllDone : AllDone ring as_is (line_of as_is) finished
finished-AllDone zero p e = rw (sym (some_inj e)) (refl, refl)
finished-AllDone (suc zero) p e = rw (sym (some_inj e)) (refl, refl)
finished-AllDone (suc (suc k)) p e = cc

Run-delivered_example :
    ((ticks
        (logbuf ring)
        as_is
        (measure (logbuf ring) finished.archiver)
        false
        finished.archiver).phase
      ≡ done)
    × (written
          (ticks
            (logbuf ring)
            as_is
            (measure (logbuf ring) finished.archiver)
            false
            finished.archiver).log.calls
        ≡ hello ∷ net ∷ [])
    × (of_thread 1 (claims notes) ≡ say hello ∷ [])
Run-delivered_example =
    Run-delivered ring as_is (line_of as_is) 1 (caller hello) run begun-IsStarted refl tt refl
      finished-AllDone

-- Both threads behind their claims, the second in front.
abbrev claiming : System ring
claiming = record begun {
  archiver = record begun.archiver {
    log = record { queue = ([], reserved 2 ∷ reserved 3 ∷ []); calls = [] };
  };
  producers =
      record { place = holding (say net) 1 (replicate 3 0); calls = [] }
      ∷ record { place = holding (say hello) 0 (replicate 2 0); calls = [] }
      ∷ [];
}

claims_both : (es : List (ℕ × Note)) × Run ring BackpressureMode.backoff as_is begun es claiming
unfolding turn
claims_both = (
  _,
  Run.next
      (Run.next (Run.next (Run.next Run.start (Step.produce _ 0 _ refl)) (Step.produce _ 1 _ refl))
        (Step.produce _ 1 _ refl))
      (Step.produce _ 0 _ refl),
)

claiming-AllSmall : AllSmall ring as_is (line_of as_is) 3 claiming
claiming-AllSmall zero p e = rw (sym (some_inj e)) tt
claiming-AllSmall (suc zero) p e = rw (sym (some_inj e)) tt
claiming-AllSmall (suc (suc k)) p e = cc

Run-finishes_example :
    (t : System ring) × (es : List (ℕ × Note)) × Run ring BackpressureMode.backoff as_is claiming es
      t
    × (t.running ≡ true)
    × AllDone ring as_is (line_of as_is) t
Run-finishes_example =
    Run-finishes ring as_is (line_of as_is) 3 claims_both.1 begun-IsStarted tt (ring-HasRoom 3) refl
      claiming-AllSmall

Run-IsServed_example : IsServed ring as_is (line_of as_is) begun finished (claims notes)
Run-IsServed_example = Run-IsServed ring as_is (line_of as_is) run begun-IsStarted

Run-calls_example :
    (p : Producer) × (get_elem? finished.producers 1 ≡ some p)
    × (claims_by 1 notes ++ todo p ≡ say hello ∷ [])
Run-calls_example = Run-calls ring as_is 1 (caller hello) run refl refl

Run-todo_example :
    (p : Producer) × (get_elem? finished.producers 0 ≡ some p)
    × (calls_by 0 notes ++ todo p ≡ say net ∷ [])
Run-todo_example = Run-todo ring BackpressureMode.backoff as_is 0 (caller net) run refl
