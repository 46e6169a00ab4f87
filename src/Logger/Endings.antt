-- ===== src/Logger/Endings.antt =====
-- Every way in which the loop of the submit functions can end.
use inqjet.Common.{
  ◌⊎◌, ℕ, suc, ◌≡◌, refl, ap, inl, inr, Bool, true, false, Option, none, some, List, [], ◌∷◌, ◌++◌,
  Option-cases, length,
}
use inqjet.Common.Bytes.{Bytes}
use inqjet.Config.{BackpressureMode}
use inqjet.Logbuf.{Logbuf}
use inqjet.Logger.{
  Moment, Outcome, submitted, dropped, stopped, waiting, ignored, panicked, claim_loop, attempt,
  retry, write_claim,
}
use inqjet.Logger.Backpressure.{Full}

module _ (R : Logbuf) (mode : BackpressureMode) (n : ℕ) (fill : Bytes → Option Bytes) where
  open R use {Queue, try_claim, commit}

  -- What the call finds at the moment at which it ends.
  abbrev EndsAt : Moment R → Outcome R → Type 0
  EndsAt m (submitted q') =
      (region : Bytes) × (q : Queue) × (bytes : Bytes) × (try_claim m.queue n ≡ some (region, q))
      × (fill region ≡ some bytes)
      × (q' ≡ commit q bytes)
  EndsAt m panicked =
      (region : Bytes) × (q : Queue) × (try_claim m.queue n ≡ some (region, q))
      × (fill region ≡ none)
  EndsAt m dropped = (mode ≡ BackpressureMode.drop) × (try_claim m.queue n ≡ none)
  EndsAt m stopped =
      (mode ≡ BackpressureMode.backoff) × (try_claim m.queue n ≡ none) × (m.running ≡ false)
  EndsAt m waiting = ⊥
  EndsAt m ignored = ⊥

  -- Behind the moments that the call has waited through; `waiting` is a list that has come to its end.
  abbrev Last : List (Moment R) → Outcome R → Type 0
  Last [] waiting = Unit
  Last [] _ = ⊥
  Last (m ∷ later) o = EndsAt m o

  -- The moments `busy` have no room, while the logger runs; only `Backoff` waits through any, and
  -- it wakes the archiver at each of them and at no other.
  pub record Ends (ms : List (Moment R)) (o : Outcome R) (unparks : ℕ) : Type 0 where
    pub busy : List (Moment R)
    pub rest : List (Moment R)
    pub split : ms ≡ busy ++ rest
    pub full : Full R n busy
    pub patient : (busy ≡ []) ⊎ (mode ≡ BackpressureMode.backoff)
    pub counted : unparks ≡ length busy
    pub last : Last rest o

  at_once : (m : Moment R) (ms : List (Moment R)) (o : Outcome R) → EndsAt m o → Ends (m ∷ ms) o 0
  at_once m ms o h = record {
    busy = [];
    rest = m ∷ ms;
    split = refl;
    full = tt;
    patient = inl refl;
    counted = refl;
    last = h;
  }

  later :
      (m : Moment R) (ms : List (Moment R)) (o : Outcome R) (unparks : ℕ)
      → mode ≡ BackpressureMode.backoff
      → try_claim m.queue n ≡ none
      → m.running ≡ true
      → Ends ms o unparks
      → Ends (m ∷ ms) o (suc unparks)
  later m ms o unparks waits no_room runs h = record {
    busy = m ∷ h.busy;
    rest = h.rest;
    split = ap (λ xs. m ∷ xs) h.split;
    full = (no_room, runs, h.full);
    patient = inr waits;
    counted = ap suc h.counted;
    last = h.last;
  }

  claims :
      (m : Moment R) (ms : List (Moment R)) (region : Bytes) (q : Queue)
      → try_claim m.queue n ≡ some (region, q)
      → (o : Option Bytes) → fill region ≡ o
      → Ends (m ∷ ms) (write_claim R q o) 0
  unfolding write_claim
  claims m ms region q e none f = at_once m ms panicked (region, q, e, f)
  claims m ms region q e (some bytes) f =
      at_once m ms (submitted (commit q bytes)) (region, q, bytes, e, f, refl)

module _ (R : Logbuf) (n : ℕ) (fill : Bytes → Option Bytes) where
  open R use {Queue, try_claim}

  retries :
      (mode : BackpressureMode) (running : Bool) (m : Moment R) (ms : List (Moment R))
      (result : Outcome R × ℕ)
      → m.running ≡ running
      → try_claim m.queue n ≡ none
      → Ends R mode n fill ms (result.0) (result.1)
      → Ends R mode n fill (m ∷ ms) (retry R mode running result).0 (retry R mode running result).1
  unfolding retry
  retries BackpressureMode.drop running m ms result r e h =
      at_once R BackpressureMode.drop n fill m ms dropped (refl, e)
  retries BackpressureMode.backoff false m ms result r e h =
      at_once R BackpressureMode.backoff n fill m ms stopped (refl, e, r)
  retries BackpressureMode.backoff true m ms result r e h =
      later R BackpressureMode.backoff n fill m ms (result.0) (result.1) refl e r h

  -- In either mode, on any list of moments: unless the list ends before, the call ends at the first moment
  -- at which it does not wait on, submitted or in a panic of its writing where there is room, dropped
  -- where there is none under `Drop`, stopped where there is none under `Backoff` and the logger
  -- does not run; and it has waited, with one wake of the archiver each, through just the moments
  -- before, at which there was no room and the logger ran, under `Backoff` only.
  pub claim_loop-Ends :
      (mode : BackpressureMode) (ms : List (Moment R))
      → Ends R mode n fill ms (claim_loop R mode n fill ms).0 (claim_loop R mode n fill ms).1
  unfolding claim_loop attempt
  claim_loop-Ends mode [] = record {
    busy = [];
    rest = [];
    split = refl;
    full = tt;
    patient = inl refl;
    counted = refl;
    last = tt;
  }
  claim_loop-Ends mode (m ∷ ms) = elim (Option-cases (try_claim m.queue n)) [
    | inl e ↦
        rw e (
          retries mode m.running m ms (claim_loop R mode n fill ms) refl e
            (claim_loop-Ends mode ms))
    | inr ((region, q), e) ↦ rw e (claims R mode n fill m ms region q e (fill region) refl)
  ]
