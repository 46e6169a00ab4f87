-- ===== src/Examples/Dropped.antt =====
-- Three threads with `Drop` at a ring with two places.
use inqjet.Common.{
  ℕ, zero, suc, ◌≡◌, refl, sym, true, false, some, List, [], ◌∷◌, get_elem?, All, some_inj, arith,
}
use mathlib.Core.List.{Sublistᴰ}
use inqjet.Config.{BackpressureMode}
use inqjet.Logbuf.Mpsc.{logbuf, filled, reserved}
use inqjet.Consumer.{test, ticks, done}
use inqjet.Consumer.Promise.{written}
use inqjet.Consumer.Ending.{measure}
use inqjet.Producers.{
  trying, between, Producer, Note, silent, claimed, skipped, System, Step, Run, turn, claims,
  of_thread,
}
use inqjet.Producers.Claims.{IsJob}
use inqjet.Producers.Delivered.{IsStarted}
use inqjet.Producers.Shutdown.{AllOut}
use inqjet.Producers.Leaving.{IsOut, turns, turns-IsOut}
use inqjet.Producers.Dropped.{Run-kept}
use inqjet.EndToEnd.Jobs.{line_of}
use inqjet.Examples.Data.{net, hello}
use inqjet.Examples.Ring.{ring}
use inqjet.Examples.Callers.{as_is, say, caller, say-IsJob}

abbrev begun : System ring
begun = record {
  archiver = record { phase = test; log = record { queue = ([], []); calls = [] }; archives = [] };
  producers = caller net ∷ caller hello ∷ caller (b'x' ∷ []) ∷ [];
  running = true;
}

abbrev rest : Producer
rest = record { place = between; calls = [] }

abbrev finished : System ring
finished = record begun {
  archiver = record begun.archiver {
    log = record { queue = ([], filled net ∷ filled hello ∷ []); calls = [] };
  };
  producers = rest ∷ rest ∷ rest ∷ [];
}

abbrev notes : List (ℕ × Note)
notes =
    (0, silent)
    ∷ (0, claimed (say net))
    ∷ (1, silent)
    ∷ (1, claimed (say hello))
    ∷ (2, silent)
    ∷ (2, skipped (say (b'x' ∷ [])))
    ∷ (1, silent)
    ∷ (0, silent)
    ∷ []

-- The third thread finds no room.
run : Run ring BackpressureMode.drop as_is begun notes finished
unfolding turn
run =
    Run.next
      (Run.next
        (Run.next
          (Run.next
            (Run.next
              (Run.next
                (Run.next (Run.next Run.start (Step.produce _ 0 _ refl)) (Step.produce _ 0 _ refl))
                (Step.produce _ 1 _ refl))
              (Step.produce _ 1 _ refl))
            (Step.produce _ 2 _ refl))
          (Step.produce _ 2 _ refl))
        (Step.produce _ 1 _ refl))
      (Step.produce _ 0 _ refl)

begun-IsStarted : IsStarted ring as_is (line_of as_is) begun
begun-IsStarted = record {
  looping = tt;
  alive = λ e. cc;
  unclaimed = refl;
  unwritten = refl;
  callers = callers;
}
  where
    callers :
        (k : ℕ) (p : Producer)
        → get_elem? begun.producers k ≡ some p
        → (p.place ≡ between) × All (IsJob as_is (line_of as_is)) p.calls
    callers zero p e = rw (sym (some_inj e)) (refl, (say-IsJob net, tt))
    callers (suc zero) p e = rw (sym (some_inj e)) (refl, (say-IsJob hello, tt))
    callers (suc (suc zero)) p e = rw (sym (some_inj e)) (refl, (say-IsJob (b'x' ∷ []), tt))
    callers (suc (suc (suc k))) p e = cc

finished-AllOut : AllOut ring as_is (line_of as_is) finished
finished-AllOut zero p e = rw (sym (some_inj e)) (λ h. h)
finished-AllOut (suc zero) p e = rw (sym (some_inj e)) (λ h. h)
finished-AllOut (suc (suc zero)) p e = rw (sym (some_inj e)) (λ h. h)
finished-AllOut (suc (suc (suc k))) p e = cc

Run-kept_example :
    ((ticks
        (logbuf ring)
        as_is
        (measure (logbuf ring) finished.archiver)
        false
        finished.archiver).phase
      ≡ done)
    × (written
          (ticks
            (logbuf ring)
            as_is
            (measure (logbuf ring) finished.archiver)
            false
            finished.archiver).log.calls
        ≡ net ∷ hello ∷ [])
    × Sublistᴰ (of_thread 2 (claims notes)) (say (b'x' ∷ []) ∷ [])
Run-kept_example =
    Run-kept ring as_is (line_of as_is) 2 (caller (b'x' ∷ [])) run begun-IsStarted refl tt refl
      finished-AllOut

-- It waits behind a full queue with a call left, and the guard is dropped.
turns-IsOut_example : IsOut (
    turns ring BackpressureMode.backoff
      (([], filled net ∷ reserved 2 ∷ []) ∷ ([], []) ∷ ([], []) ∷ [])
      (record { place = trying (say hello); calls = say net ∷ [] }))
turns-IsOut_example =
    turns-IsOut ring BackpressureMode.backoff
      (([], filled net ∷ reserved 2 ∷ []) ∷ ([], []) ∷ ([], []) ∷ [])
      (record { place = trying (say hello); calls = say net ∷ [] }) (omega arith)
