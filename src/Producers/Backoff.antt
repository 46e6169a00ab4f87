-- ===== src/Producers/Backoff.antt =====
-- Under `Backoff`, every call gets its place in the queue as long as the guard is there.
use inqjet.Common.{ℕ, ◌≡◌, refl, true, Option, none, some, List, [], ◌∷◌, ◌++◌, get_elem?}
use inqjet.Common.Bytes.{Bytes}
use inqjet.Config.{BackpressureMode}
use inqjet.Logbuf.Mpsc.{Mpsc}
use inqjet.Producers.{
  Job, Place, between, trying, full, holding, unwound, Producer, Note, silent, claimed, skipped,
  enter, after_claim, after_full, after_fill, turn_at, turn, System, queue_of, Step, archive,
  produce, stop, Run, start, next, claims_by, calls_by,
}
use inqjet.Producers.Order.{todo, calls_by-append, claims_by-append, Run-todo}

-- No call returns without a place.
abbrev IsKept : Note → Type 0
IsKept silent = Unit
IsKept (claimed j) = Unit
IsKept (skipped j) = ⊥

IsKept-claims_by :
    (k i : ℕ) (note : Note)
    → IsKept note
    → claims_by k ((i, note) ∷ []) ≡ calls_by k ((i, note) ∷ [])
IsKept-claims_by k i silent h = refl
IsKept-claims_by k i (claimed j) h = refl
IsKept-claims_by k i (skipped j) h = absurd h

module _ (M : Mpsc) where
  open M use {Queue, try_claim, commit}

  enter-IsKept : (q : Queue) (p : Producer) (js : List Job) → IsKept (enter M true q p js).note
  unfolding enter
  enter-IsKept q p [] = tt
  enter-IsKept q p (j ∷ js) = tt

  after_claim-IsKept :
      (q : Queue) (p : Producer) (j : Job) (o : Option (ℕ × Bytes × Queue))
      → IsKept (after_claim M BackpressureMode.backoff q p j o).note
  unfolding after_claim
  after_claim-IsKept q p j (some (t, region, q')) = tt
  after_claim-IsKept q p j none = tt

  after_fill-IsKept :
      (q : Queue) (p : Producer) (t : ℕ) (o : Option Bytes) → IsKept (after_fill M q p t o).note
  unfolding after_fill
  after_fill-IsKept q p t (some bytes) = tt
  after_fill-IsKept q p t none = tt

  turn_at-IsKept :
      (place : Place) (q : Queue) (p : Producer)
      → IsKept (turn_at M place BackpressureMode.backoff true q p).note
  unfolding turn_at after_full
  turn_at-IsKept between q p = enter-IsKept q p p.calls
  turn_at-IsKept (trying j) q p = after_claim-IsKept q p j (try_claim q j.total_size)
  turn_at-IsKept (full j) q p = tt
  turn_at-IsKept (holding j t region) q p = after_fill-IsKept q p t (j.fill region)
  turn_at-IsKept unwound q p = tt

  module _ (format_log : Bytes → Option Bytes) where
    Step-running :
        {s t : System M} {i : ℕ} {note : Note}
        → Step M BackpressureMode.backoff format_log s i note t
        → t.running ≡ true
        → (s.running ≡ true) × IsKept note
    unfolding turn
    Step-running (archive s i) r = (r, tt)
    Step-running (produce s i p e) r = (r, rw r (turn_at-IsKept p.place (queue_of M s) p))
    Step-running (stop s i) r = cc

    Run-claims_by :
        {s t : System M} {es : List (ℕ × Note)} (k : ℕ)
        → Run M BackpressureMode.backoff format_log s es t
        → t.running ≡ true
        → claims_by k es ≡ calls_by k es
    Run-claims_by k start r = refl
    Run-claims_by k (next {i = i} {note = note} {es = es} run st) r =
        let (r', kept) = Step-running st r in
        rw (
          claims_by-append k es ((i, note) ∷ []),
          calls_by-append k es ((i, note) ∷ []),
          Run-claims_by k run r',
          IsKept-claims_by k i note kept,
        )

    -- Whatever the threads do, and whenever: under `Backoff`, while the guard is there, the calls of
    -- a thread that have a place in the queue, in the order of their places, and then those that are
    -- in front of it, are the calls that it had in front of it at the start. So none is lost,
    -- doubled or overtaken by a later one of the thread.
    pub Run-calls :
        {s t : System M} {es : List (ℕ × Note)} (k : ℕ) (p : Producer)
        → Run M BackpressureMode.backoff format_log s es t
        → t.running ≡ true
        → get_elem? s.producers k ≡ some p
        → (p' : Producer) × (get_elem? t.producers k ≡ some p')
          × (claims_by k es ++ todo p' ≡ todo p)
    Run-calls k p run r e =
        let (p', e', h) = Run-todo M BackpressureMode.backoff format_log k p run e in
        (p', e', rw (Run-claims_by k run r) h)
