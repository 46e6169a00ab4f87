-- ===== src/Producers/Turns.antt =====
-- To the archiver, the threads are an environment that commits records to its log stream.
use inqjet.Common.{
  ℕ, ◌≡◌, refl, Bool, true, false, Option, none, some, List, [], ◌∷◌, ◌++◌, append-nil, get_elem?,
  All, drop-append, set,
}
use mathlib.Core.Path.{subst}
use inqjet.Common.Bytes.{Bytes}
use inqjet.Config.{BackpressureMode}
use inqjet.Logbuf.Mpsc.{Mpsc, visible, pending, visible-reserved, visible-set}
use inqjet.Producers.{
  Job, Place, between, trying, full, holding, unwound, Producer, Note, silent, claimed, skipped,
  Turn, enter, after_claim, after_full, after_fill, turn_at, turn, claims,
}
use inqjet.Producers.Order.{claims-append}
use inqjet.Producers.Claims.{IsJob, Stands}
use inqjet.Producers.Held.{
  IsHolding, IsHeld, Knows, IsHeld-turn, IsHeld-claim, IsHeld-commit, IsHolding,
}

abbrev pub with_claim : ℕ → Note → List (ℕ × Job) → List (ℕ × Job)
with_claim i silent cs = cs
with_claim i (claimed j) cs = cs ++ ((i, j) ∷ [])
with_claim i (skipped j) cs = cs

pub claims-snoc :
    (es : List (ℕ × Note)) (i : ℕ) (note : Note)
    → claims (es ++ ((i, note) ∷ [])) ≡ with_claim i note (claims es)
claims-snoc es i silent = rw (claims-append es ((i, silent) ∷ []), append-nil)
claims-snoc es i (claimed j) = claims-append es ((i, claimed j) ∷ [])
claims-snoc es i (skipped j) = rw (claims-append es ((i, skipped j) ∷ []), append-nil)

module _ (M : Mpsc) (format_log : Bytes → Option Bytes) (line : Job → Bytes) where
  open M use {Queue, try_claim, commit, slots, head}

  -- The records that a turn makes visible join those that wait.
  abbrev Grows : Queue → Queue → Type 0
  Grows q q' =
      (rs : List Bytes) × (pending M q' ≡ pending M q ++ rs)
      × (visible (slots q') ≡ visible (slots q) ++ rs)

  module _ (ps : List Producer) (cs : List (ℕ × Job)) (i : ℕ) (q : Queue) (p : Producer)
      (e : get_elem? ps i ≡ some p) (h : IsHeld format_log line ps (slots q) cs) where
    abbrev Goes : Turn M → Type 0
    Goes t =
        IsHeld format_log line (set ps i t.producer) (slots t.queue) (with_claim i t.note cs)
        × Grows q t.queue

    still : Grows q q
    still = ([], rw append-nil, rw append-nil)

    free : (place : Place) → p.place ≡ place → (IsHolding place → ⊥) → IsHolding p.place → ⊥
    free place here out held = out (subst IsHolding here held)

    knows : Knows format_log line cs (slots q) i p
    knows = h.stands i p e

    -- A turn that leaves the queue alone.
    stays :
        (p' : Producer)
        → (IsHolding p.place → ⊥)
        → Knows format_log line cs (slots q) i p'
        → IsHeld format_log line (set ps i p') (slots q) cs × Grows q q
    stays p' out new = (IsHeld-turn format_log line ps (slots q) cs i p e h p' out new, still)

    calls_known :
        (j : Job) (js : List Job)
        → p.calls ≡ j ∷ js
        → IsJob format_log line j × All (IsJob format_log line) js
    calls_known j js eq = rw eq at knows.1

    enter-Goes :
        (running : Bool) (js : List Job)
        → (IsHolding p.place → ⊥)
        → p.calls ≡ js
        → Goes (enter M running q p js)
    unfolding enter
    enter-Goes running [] out eq = stays (record p { place = between }) out (tt, knows.1)
    enter-Goes true (j ∷ js) out eq =
        stays (record { place = trying j; calls = js }) out (calls_known j js eq)
    enter-Goes false (j ∷ js) out eq =
        stays (record { place = between; calls = js }) out (tt, (calls_known j js eq).1)

    after_claim-Goes :
        (mode : BackpressureMode) (j : Job) (o : Option (ℕ × Bytes × Queue))
        → p.place ≡ trying j
        → try_claim q j.total_size ≡ o
        → Goes (after_claim M mode q p j o)
    unfolding after_claim
    after_claim-Goes mode j (some (t, region, q')) here claim =
        let (size, at_end, grown, same) = M.claim-slots q q' j.total_size t region claim in
        let sound : IsJob format_log line j = rw here at knows.0 in
        let quiet = visible-reserved (slots q) j.total_size in
        (
          rw grown (
              IsHeld-claim format_log line ps (slots q) cs i p e h j t region
                (free (trying j) here (λ x. x)) sound at_end size),
          ([], rw (same, grown, quiet, append-nil), rw (grown, quiet, append-nil)),
        )
    after_claim-Goes BackpressureMode.drop j none here claim =
        stays (record p { place = between }) (free (trying j) here (λ x. x)) (tt, knows.1)
    after_claim-Goes BackpressureMode.backoff j none here claim =
        stays (record p { place = full j }) (free (trying j) here (λ x. x))
          (rw here at knows.0, knows.1)

    after_full-Goes :
        (running : Bool) (j : Job) → p.place ≡ full j → Goes (after_full M running q p j)
    unfolding after_full
    after_full-Goes true j here =
        stays (record p { place = trying j }) (free (full j) here (λ x. x))
          (rw here at knows.0, knows.1)
    after_full-Goes false j here =
        stays (record p { place = between }) (free (full j) here (λ x. x)) (tt, knows.1)

    after_fill-Goes :
        (j : Job) (t : ℕ) (region : Bytes)
        → p.place ≡ holding j t region
        → Goes (after_fill M q p t (j.fill region))
    unfolding after_fill
    after_fill-Goes j t region here =
        let (sound, at_slot, at_claim, size) =
          subst (Stands format_log line cs (slots q) i) here knows.0 in
        let (bytes, filled_in, size', text) = sound region size in
        let (grown, same) = M.commit-slots q j.total_size t bytes at_slot size' in
        let (rs, more) = visible-set (slots q) t j.total_size bytes at_slot in
        rw filled_in (
          rw grown
              (IsHeld-commit format_log line ps (slots q) cs i p e h j t region bytes here text),
          (
            rs,
            rw (same, grown, more)
                (drop-append (head q) (visible (slots q)) rs (M.head_committed q)),
            rw grown more,
          ),
        )

    turn_at-Goes :
        (place : Place) (mode : BackpressureMode) (running : Bool)
        → p.place ≡ place
        → Goes (turn_at M place mode running q p)
    unfolding turn_at
    turn_at-Goes between mode running here =
        enter-Goes running p.calls (free between here (λ x. x)) refl
    turn_at-Goes (trying j) mode running here =
        after_claim-Goes mode j (try_claim q j.total_size) here refl
    turn_at-Goes (full j) mode running here = after_full-Goes running j here
    turn_at-Goes (holding j t region) mode running here = after_fill-Goes j t region here
    turn_at-Goes unwound mode running here =
        absurd (subst (Stands format_log line cs (slots q) i) here knows.0)

    pub turn-Goes : (mode : BackpressureMode) (running : Bool) → Goes (turn M mode running q p)
    unfolding turn
    turn-Goes mode running = turn_at-Goes p.place mode running refl
