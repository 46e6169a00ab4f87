-- ===== src/Producers/Effort.antt =====
-- How many turns a thread still needs, when it is never refused a claim.
use inqjet.Common.{
  ℕ, zero, suc, ◌+◌, ◌*◌, ◌<◌, ◌≡◌, refl, ap, ◌⊎◌, inl, inr, true, some, List, [], ◌∷◌, arith,
  length, get_elem?, some_inj, set,
}
use mathlib.Core.Path.{subst}
use inqjet.Common.Bytes.{Bytes}
use inqjet.Config.{BackpressureMode}
use inqjet.Logbuf.Mpsc.{Mpsc}
use inqjet.Producers.Held.{IsHolding}
use inqjet.Producers.{
  Job, Place, between, trying, full, holding, unwound, Producer, enter, after_claim, after_full,
  after_fill, turn_at, turn,
}

abbrev pub at_place : Place → ℕ
at_place between = 0
at_place (trying j) = 3
at_place (full j) = 4
at_place (holding j t region) = 1
at_place unwound = 0

abbrev pub effort : Producer → ℕ
effort p = 5 * length p.calls + at_place p.place

abbrev pub all_effort : List Producer → ℕ
all_effort [] = 0
all_effort (p ∷ ps) = effort p + all_effort ps

pub all_effort-set :
    (ps : List Producer) (i : ℕ) (p p' : Producer)
    → get_elem? ps i ≡ some p
    → all_effort (set ps i p') + effort p ≡ all_effort ps + effort p'
all_effort-set [] i p p' e = cc
all_effort-set (o ∷ ps) zero p p' e = omega (arith, ap effort (some_inj e))
all_effort-set (o ∷ ps) (suc i) p p' e = omega (arith, all_effort-set ps i p p' e)

pub IsHolding-or-out : (p : Producer) → IsHolding p.place ⊎ (IsHolding p.place → ⊥)
IsHolding-or-out p = at_place p.place
  where
    at_place : (place : Place) → IsHolding place ⊎ (IsHolding place → ⊥)
    at_place between = inr (λ h. h)
    at_place (trying j) = inr (λ h. h)
    at_place (full j) = inr (λ h. h)
    at_place (holding j t region) = inl tt
    at_place unwound = inr (λ h. h)

zero_or_more : (n : ℕ) → (0 < n) ⊎ (n ≡ 0)
zero_or_more zero = inr refl
zero_or_more (suc n) = inl (omega arith)

pub busy-or-idle : (p : Producer) → (0 < effort p) ⊎ (effort p ≡ 0)
busy-or-idle p = zero_or_more (effort p)

pub holding_busy : (place : Place) (n : ℕ) → IsHolding place → 0 < n + at_place place
holding_busy between n h = absurd h
holding_busy (trying j) n h = absurd h
holding_busy (full j) n h = absurd h
holding_busy (holding j t region) n h = omega arith
holding_busy unwound n h = absurd h

module _ {ℓ κ μ} {A : Type ℓ} (P : A → Type κ) (Q : A → Type μ) where
  everywhere :
      (y : A) (ys : List A)
      → Q y
      → ((i : ℕ) (z : A) → get_elem? ys i ≡ some z → Q z)
      → (k : ℕ) (x : A) → get_elem? (y ∷ ys) k ≡ some x
      → Q x
  everywhere y ys h all zero x e = subst Q (some_inj e) h
  everywhere y ys h all (suc k) x e = all k x e

  -- One element has the first property, or all have the second.
  pub first_or_all :
      (xs : List A)
      → ((x : A) → P x ⊎ Q x)
      → ((k : ℕ) × (x : A) × (get_elem? xs k ≡ some x) × P x)
        ⊎ ((k : ℕ) (x : A) → get_elem? xs k ≡ some x → Q x)
  first_or_all [] f = inr (λ k x e. cc)
  first_or_all (y ∷ ys) f = elim (f y) [
    | inl h ↦ inl (0, y, refl, h)
    | inr h ↦ elim (first_or_all ys f) [
      | inl (k, x, e, hx) ↦ inl (suc k, x, e, hx)
      | inr all ↦ inr (everywhere y ys h all)
    ]
  ]

module _ (M : Mpsc) (mode : BackpressureMode) where
  open M use {Queue, try_claim, commit}

  -- The thread can act: it is not refused a claim, and its call does not panic.
  abbrev pub CanAct : Queue → Place → Type 0
  CanAct q between = Unit
  CanAct q (trying j) =
      (t : ℕ) × (region : Bytes) × (q' : Queue) × (try_claim q j.total_size ≡ some (t, region, q'))
  CanAct q (full j) = Unit
  CanAct q (holding j t region) = (bytes : Bytes) × (j.fill region ≡ some bytes)
  CanAct q unwound = ⊥

  enter-effort :
      (q : Queue) (p : Producer) (js : List Job)
      → p.place ≡ between
      → p.calls ≡ js
      → 0 < effort p
      → effort (enter M true q p js).producer < effort p
  unfolding enter
  enter-effort q p [] e e' h =
      let none_left : effort p ≡ 0 = rw (e, e') refl in absurd (omega arith)
  enter-effort q p (j ∷ js) e e' h = rw (e, e') (omega arith)

  turn_at-effort :
      (place : Place) (q : Queue) (p : Producer)
      → p.place ≡ place
      → CanAct q place
      → 0 < effort p
      → effort (turn_at M place mode true q p).producer < effort p
  unfolding turn_at after_claim after_full after_fill
  turn_at-effort between q p e act h = enter-effort q p p.calls e refl h
  turn_at-effort (trying j) q p e (t, region, q', claim) h = rw (claim, e) (omega arith)
  turn_at-effort (full j) q p e act h = rw e (omega arith)
  turn_at-effort (holding j t region) q p e (bytes, filled) h = rw (filled, e) (omega arith)
  turn_at-effort unwound q p e act h = absurd act

  pub turn-effort :
      (q : Queue) (p : Producer)
      → CanAct q p.place
      → 0 < effort p
      → effort (turn M mode true q p).producer < effort p
  unfolding turn
  turn-effort q p act h = turn_at-effort p.place q p refl act h
