-- ===== src/Producers/Leaving.antt =====
-- Threads in a submit function once `running` is false.
use inqjet.Common.{
  ℕ, ◌+◌, ◌≤◌, ◌<◌, ◌≡◌, refl, ◌⊎◌, inl, inr, false, Option, none, some, List, [], ◌∷◌, arith,
  length,
}
use inqjet.Common.Bytes.{Bytes}
use inqjet.Config.{BackpressureMode}
use inqjet.Logbuf.Mpsc.{Mpsc}
use inqjet.Producers.{
  Job, Place, between, trying, full, holding, unwound, Producer, Turn, enter, after_claim,
  after_full, after_fill, turn_at, turn,
}

abbrev turns_left : Place → ℕ
turns_left between = 0
turns_left (trying j) = 2
turns_left (full j) = 1
turns_left (holding j t region) = 1
turns_left unwound = 0

-- Two turns at most for the call that the thread is in, and one for each that follows.
abbrev pub leaving : Producer → ℕ
leaving p = length p.calls + turns_left p.place

-- All calls have returned, or one has panicked.
abbrev pub IsOut : Producer → Type 0
IsOut p = ((p.place ≡ between) × (p.calls ≡ [])) ⊎ (p.place ≡ unwound)

none_left :
    (place : Place) (js : List Job)
    → length js + turns_left place ≤ 0
    → ((place ≡ between) × (js ≡ [])) ⊎ (place ≡ unwound)
none_left between [] h = inl (refl, refl)
none_left between (j ∷ js) h = absurd (omega arith)
none_left (trying j) js h = absurd (omega arith)
none_left (full j) js h = absurd (omega arith)
none_left (holding j t region) js h = absurd (omega arith)
none_left unwound js h = inr refl

module _ (M : Mpsc) (mode : BackpressureMode) where
  open M use {Queue, try_claim}

  -- The thread's turns, with what it finds of the queue at each.
  unfoldable pub turns : List Queue → Producer → Producer
  turns [] p = p
  turns (q ∷ qs) p = turns qs (turn M mode false q p).producer

  abbrev Leaves : Producer → Turn M → Type 0
  Leaves p t = IsOut p ⊎ (leaving t.producer < leaving p)

  enter-Leaves :
      (q : Queue) (p : Producer) (js : List Job)
      → p.place ≡ between
      → p.calls ≡ js
      → Leaves p (enter M false q p js)
  unfolding enter
  enter-Leaves q p [] e e' = inl (inl (e, e'))
  enter-Leaves q p (j ∷ js) e e' = inr (rw (e, e') (omega arith))

  full-Leaves :
      (m : BackpressureMode) (q : Queue) (p : Producer) (j : Job)
      → p.place ≡ trying j
      → leaving (after_claim M m q p j none).producer < leaving p
  unfolding after_claim
  full-Leaves BackpressureMode.drop q p j e = rw e (omega arith)
  full-Leaves BackpressureMode.backoff q p j e = rw e (omega arith)

  after_claim-Leaves :
      (q : Queue) (p : Producer) (j : Job) (o : Option (ℕ × Bytes × Queue))
      → p.place ≡ trying j
      → leaving (after_claim M mode q p j o).producer < leaving p
  unfolding after_claim
  after_claim-Leaves q p j (some (t, region, q')) e = rw e (omega arith)
  after_claim-Leaves q p j none e = full-Leaves mode q p j e

  after_fill-Leaves :
      (q : Queue) (p : Producer) (j : Job) (t : ℕ) (region : Bytes) (o : Option Bytes)
      → p.place ≡ holding j t region
      → leaving (after_fill M q p t o).producer < leaving p
  unfolding after_fill
  after_fill-Leaves q p j t region (some bytes) e = rw e (omega arith)
  after_fill-Leaves q p j t region none e = rw e (omega arith)

  turn_at-Leaves :
      (place : Place) (q : Queue) (p : Producer)
      → p.place ≡ place
      → Leaves p (turn_at M place mode false q p)
  unfolding turn_at after_full
  turn_at-Leaves between q p e = enter-Leaves q p p.calls e refl
  turn_at-Leaves (trying j) q p e = inr (after_claim-Leaves q p j (try_claim q j.total_size) e)
  turn_at-Leaves (full j) q p e = inr (rw e (omega arith))
  turn_at-Leaves (holding j t region) q p e =
      inr (after_fill-Leaves q p j t region (j.fill region) e)
  turn_at-Leaves unwound q p e = inl (inr e)

  turn-IsOut : (q : Queue) (p : Producer) → IsOut p → IsOut (turn M mode false q p).producer
  unfolding turn turn_at enter
  turn-IsOut q p (inl (e, e')) = rw (e, e') (inl (refl, refl))
  turn-IsOut q p (inr e) = rw e (inr refl)

  turns_more-IsOut : (qs : List Queue) (p : Producer) → IsOut p → IsOut (turns qs p)
  unfolding turns
  turns_more-IsOut [] p h = h
  turns_more-IsOut (q ∷ qs) p h = turns_more-IsOut qs _ (turn-IsOut q p h)

  -- Once `running` is false, a thread returns from the call that it is in within two turns of its
  -- own, and from each later one within one, whatever the others make of the queue between them,
  -- and in either mode; unless a call panics, which ends its turns.
  pub turns-IsOut : (qs : List Queue) (p : Producer) → leaving p ≤ length qs → IsOut (turns qs p)
  unfolding turns turn
  turns-IsOut [] p enough = none_left p.place p.calls enough
  turns-IsOut (q ∷ qs) p enough = elim (turn_at-Leaves p.place q p refl) [
    | inl out ↦ turns_more-IsOut qs _ (turn-IsOut q p out)
    | inr fewer ↦ turns-IsOut qs _ (omega arith)
  ]
