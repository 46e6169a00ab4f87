-- ===== src/Producers/Order.antt =====
-- No call of a thread is lost on its way to the queue, or overtakes another call of the thread.
use inqjet.Common.{
  ℕ, ◌≡◌, refl, sym, ap, ◌∙◌, ◌≢◌, inl, inr, Bool, true, false, Option, none, some, List, [], ◌∷◌,
  ◌++◌, append_assoc, arith, ◌==◌, Bool-cases, get_elem?, some_inj, get_elem?-set_other,
  get_elem?-set_self,
}
use native.Mathlib.Decide.{ℕ_discrete}
use mathlib.Core.Path.{subst}
use inqjet.Common.Bytes.{Bytes}
use inqjet.Config.{BackpressureMode}
use inqjet.Logbuf.Mpsc.{Mpsc}
use inqjet.Producers.{
  Job, Place, between, trying, full, holding, unwound, Producer, Note, silent, claimed, skipped,
  Turn, enter, after_claim, after_full, after_fill, turn_at, turn, System, queue_of, Step, archive,
  produce, stop, Run, start, next, claims_by, of_thread, claims, calls_by,
}

-- The calls that a thread has in front of it: the one in the loop, and those that follow.
abbrev pub open_call : Place → List Job
open_call between = []
open_call (trying j) = j ∷ []
open_call (full j) = j ∷ []
open_call (holding j t region) = []
open_call unwound = []

abbrev pub todo : Producer → List Job
todo p = open_call p.place ++ p.calls

abbrev pub noted : Note → List Job
noted silent = []
noted (claimed j) = j ∷ []
noted (skipped j) = j ∷ []

==→≡ : (m n : ℕ) → (m == n) ≡ true → m ≡ n
==→≡ m n h = ground arith

==-refl : (n : ℕ) → (n == n) ≡ true
==-refl n = ground arith

==-other : (m n : ℕ) → m ≢ n → (m == n) ≡ false
==-other m n h = ground arith

pub calls_by-append :
    (k : ℕ) (es es' : List (ℕ × Note)) → calls_by k (es ++ es') ≡ calls_by k es ++ calls_by k es'
calls_by-append k [] es' = refl
calls_by-append k ((i, silent) ∷ es) es' = calls_by-append k es es'
calls_by-append k ((i, claimed j) ∷ es) es' = elim (Bool-cases (k == i)) [
  | inl e ↦ rw (e, calls_by-append k es es')
  | inr e ↦ rw (e, calls_by-append k es es')
]
calls_by-append k ((i, skipped j) ∷ es) es' = elim (Bool-cases (k == i)) [
  | inl e ↦ rw (e, calls_by-append k es es')
  | inr e ↦ rw (e, calls_by-append k es es')
]

pub claims-append : (es es' : List (ℕ × Note)) → claims (es ++ es') ≡ claims es ++ claims es'
claims-append [] es' = refl
claims-append ((i, silent) ∷ es) es' = claims-append es es'
claims-append ((i, claimed j) ∷ es) es' = rw (claims-append es es')
claims-append ((i, skipped j) ∷ es) es' = claims-append es es'

of_thread-append :
    (k : ℕ) (cs cs' : List (ℕ × Job)) → of_thread k (cs ++ cs') ≡ of_thread k cs ++ of_thread k cs'
of_thread-append k [] cs' = refl
of_thread-append k ((i, j) ∷ cs) cs' = elim (Bool-cases (k == i)) [
  | inl e ↦ rw (e, of_thread-append k cs cs')
  | inr e ↦ rw (e, of_thread-append k cs cs')
]

pub claims_by-append :
    (k : ℕ) (es es' : List (ℕ × Note)) → claims_by k (es ++ es') ≡ claims_by k es ++ claims_by k es'
claims_by-append k es es' = rw (claims-append es es') (of_thread-append k (claims es) (claims es'))

calls_by_self : (k : ℕ) (note : Note) → calls_by k ((k, note) ∷ []) ≡ noted note
calls_by_self k silent = refl
calls_by_self k (claimed j) = rw (==-refl k)
calls_by_self k (skipped j) = rw (==-refl k)

calls_by_other : (k i : ℕ) (note : Note) → k ≢ i → calls_by k ((i, note) ∷ []) ≡ []
calls_by_other k i silent h = refl
calls_by_other k i (claimed j) h = rw (==-other k i h)
calls_by_other k i (skipped j) h = rw (==-other k i h)

module _ (M : Mpsc) where
  open M use {Queue, try_claim, commit}

  -- What a turn makes of the thread's calls.
  abbrev pub Keeps : Turn M → List Job → Type 0
  Keeps t js = noted t.note ++ todo t.producer ≡ js

  enter-Keeps :
      (running : Bool) (q : Queue) (p : Producer) (js : List Job)
      → p.calls ≡ js
      → Keeps (enter M running q p js) js
  unfolding enter
  enter-Keeps running q p [] e = e
  enter-Keeps true q p (j ∷ js) e = refl
  enter-Keeps false q p (j ∷ js) e = refl

  after_claim-Keeps :
      (mode : BackpressureMode) (q : Queue) (p : Producer) (j : Job)
      (o : Option (ℕ × Bytes × Queue))
      → Keeps (after_claim M mode q p j o) (j ∷ p.calls)
  unfolding after_claim
  after_claim-Keeps mode q p j (some (t, region, q')) = refl
  after_claim-Keeps BackpressureMode.drop q p j none = refl
  after_claim-Keeps BackpressureMode.backoff q p j none = refl

  after_full-Keeps :
      (running : Bool) (q : Queue) (p : Producer) (j : Job)
      → Keeps (after_full M running q p j) (j ∷ p.calls)
  unfolding after_full
  after_full-Keeps true q p j = refl
  after_full-Keeps false q p j = refl

  after_fill-Keeps :
      (q : Queue) (p : Producer) (t : ℕ) (o : Option Bytes) → Keeps (after_fill M q p t o) p.calls
  unfolding after_fill
  after_fill-Keeps q p t (some bytes) = refl
  after_fill-Keeps q p t none = refl

  turn_at-Keeps :
      (place : Place) (mode : BackpressureMode) (running : Bool) (q : Queue) (p : Producer)
      → Keeps (turn_at M place mode running q p) (open_call place ++ p.calls)
  unfolding turn_at
  turn_at-Keeps between mode running q p = enter-Keeps running q p p.calls refl
  turn_at-Keeps (trying j) mode running q p =
      after_claim-Keeps mode q p j (try_claim q j.total_size)
  turn_at-Keeps (full j) mode running q p = after_full-Keeps running q p j
  turn_at-Keeps (holding j t region) mode running q p = after_fill-Keeps q p t (j.fill region)
  turn_at-Keeps unwound mode running q p = refl

  module _ (mode : BackpressureMode) (format_log : Bytes → Option Bytes) where
    pub turn-Keeps :
        (running : Bool) (q : Queue) (p : Producer) → Keeps (turn M mode running q p) (todo p)
    unfolding turn
    turn-Keeps running q p = turn_at-Keeps p.place mode running q p

    Step-todo :
        {s t : System M} {i : ℕ} {note : Note} (k : ℕ) (p : Producer)
        → Step M mode format_log s i note t
        → get_elem? s.producers k ≡ some p
        → (p' : Producer) × (get_elem? t.producers k ≡ some p')
          × (calls_by k ((i, note) ∷ []) ++ todo p' ≡ todo p)
    Step-todo k p (archive s i) e = (p, e, refl)
    Step-todo k p (stop s i) e = (p, e, refl)
    Step-todo k p (produce s i p' e') e = elim (ℕ_discrete k i) [
      | yes same ↦
          let t : Turn M = turn M mode s.running (queue_of M s) p' in
          (
            t.producer,
            rw same (get_elem?-set_self s.producers i t.producer p' e'),
            ap (λ js. js ++ todo t.producer)
                  (subst (λ n. calls_by k ((n, t.note) ∷ []) ≡ noted t.note) same
                    (calls_by_self k t.note))
                ∙ turn-Keeps s.running (queue_of M s) p'
                ∙ ap todo
                    (some_inj (sym e' ∙ subst (λ n. get_elem? s.producers n ≡ some p) same e)),
          )
      | no other ↦ (
        p,
        get_elem?-set_other s.producers i k _ other ∙ e,
        rw (calls_by_other k i (turn M mode s.running (queue_of M s) p').note other) refl,
      )
    ]

    -- Whatever the threads do, and whenever, in either mode: the calls of a thread that have got a
    -- place in the queue or returned without one, in the order in which they did, and then those
    -- that are in front of it, are the calls that it had in front of it at the start.
    pub Run-todo :
        {s t : System M} {es : List (ℕ × Note)} (k : ℕ) (p : Producer)
        → Run M mode format_log s es t
        → get_elem? s.producers k ≡ some p
        → (p' : Producer) × (get_elem? t.producers k ≡ some p')
          × (calls_by k es ++ todo p' ≡ todo p)
    Run-todo k p start e = (p, e, refl)
    Run-todo k p (next {i = i} {note = note} {es = es} r st) e =
        let (p₁, e₁, h₁) = Run-todo k p r e in
        let (p₂, e₂, h₂) = Step-todo k p₁ st e₁ in
        (p₂, e₂, rw (calls_by-append k es ((i, note) ∷ []), append_assoc, h₂) h₁)
