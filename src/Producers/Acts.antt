-- ===== src/Producers/Acts.antt =====
-- What a thread needs in order to act.
use inqjet.Common.{
  ℕ, ◌+◌, ◌*◌, ◌≤◌, ◌≡◌, refl, Option, some, List, [], ◌∷◌, ◌++◌, arith, length, All,
}
use inqjet.Common.Bytes.{Bytes}
use inqjet.Config.{BackpressureMode}
use inqjet.Logbuf.Mpsc.{Mpsc, Slot, IsFilled, pending}
use inqjet.Producers.{Job, Place, between, trying, full, holding, unwound}
use inqjet.Producers.Order.{open_call}
use inqjet.Producers.Claims.{Stands}
use inqjet.Producers.Held.{IsHolding}
use inqjet.Producers.Effort.{at_place, CanAct}

module _ (M : Mpsc) (limit : ℕ) where
  open M use {Queue, try_claim, slots}

  -- A queue in which nothing waits and no claim is open has room for a record of up to `limit` bytes.
  abbrev pub HasRoom : Type 0
  HasRoom =
      (q : Queue) (n : ℕ)
      → n ≤ limit
      → All IsFilled (slots q)
      → pending M q ≡ []
      → (t : ℕ) × (region : Bytes) × (q' : Queue) × (try_claim q n ≡ some (t, region, q'))

  module _ (format_log : Bytes → Option Bytes) (line : Job → Bytes) (cs : List (ℕ × Job))
      (ss : List Slot) (k : ℕ) (q : Queue) where
    abbrev Standing : Place → Type 0
    Standing = Stands format_log line cs ss k

    pub holding_acts :
        (place : Place)
        → Standing place
        → IsHolding place
        → CanAct M BackpressureMode.backoff q place
    holding_acts between st h = absurd h
    holding_acts (trying j) st h = absurd h
    holding_acts (full j) st h = absurd h
    holding_acts (holding j t region) (sound, _, _, size) h =
        let (bytes, filled, _, _) = sound region size in (bytes, filled)
    holding_acts unwound st h = absurd h

    pub out_acts :
        HasRoom
        → (place : Place) (js : List Job) → Standing place
        → (IsHolding place → ⊥)
        → All (λ j. j.total_size ≤ limit) (open_call place ++ js)
        → All IsFilled (slots q)
        → pending M q ≡ []
        → CanAct M BackpressureMode.backoff q place
    out_acts room between js st out small filled empty = tt
    out_acts room (trying j) js st out small filled empty = room q j.total_size small.0 filled empty
    out_acts room (full j) js st out small filled empty = tt
    out_acts room (holding j t region) js st out small filled empty = absurd (out tt)
    out_acts room unwound js st out small filled empty = absurd st

    pub idle_done :
        (place : Place) (js : List Job)
        → Standing place
        → 5 * length js + at_place place ≡ 0
        → (place ≡ between) × (js ≡ [])
    idle_done between [] st e = (refl, refl)
    idle_done between (j ∷ js) st e = absurd (omega arith)
    idle_done (trying j) js st e = absurd (omega arith)
    idle_done (full j) js st e = absurd (omega arith)
    idle_done (holding j t region) js st e = absurd (omega arith)
    idle_done unwound js st e = absurd st
