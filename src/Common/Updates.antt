-- ===== src/Common/Updates.antt =====
-- Writing one element of a list, and adding one at its end.
use Prim.Native.Nat.{ℕ, zero, suc}
use mathlib.Core.Path.{◌≡◌, refl, sym, ap}
use mathlib.Core.Logic.{◌≢◌, ◌⊎◌, inl, inr}
use mathlib.Core.List.{List, [], ◌∷◌, ◌++◌}
use mathlib.Core.Option.{some}
use native.Mathlib.Omega.{arith}
use inqjet.Common.Lists.{length, get_elem?, drop}
use inqjet.Common.Fallible.{some_inj}

module _ {ℓ} {A : Type ℓ} where
  -- A write out of bounds changes nothing.
  abbrev pub set : List A → ℕ → A → List A
  set [] i v = []
  set (x ∷ xs) zero v = v ∷ xs
  set (x ∷ xs) (suc i) v = x ∷ set xs i v

  pub get_elem?-set_self :
      (xs : List A) (i : ℕ) (v w : A) → get_elem? xs i ≡ some w → get_elem? (set xs i v) i ≡ some v
  get_elem?-set_self [] i v w e = cc
  get_elem?-set_self (x ∷ xs) zero v w e = refl
  get_elem?-set_self (x ∷ xs) (suc i) v w e = get_elem?-set_self xs i v w e

  pub get_elem?-set_other :
      (xs : List A) (i k : ℕ) (v : A) → k ≢ i → get_elem? (set xs i v) k ≡ get_elem? xs k
  get_elem?-set_other [] i k v h = refl
  get_elem?-set_other (x ∷ xs) zero zero v h = absurd (h refl)
  get_elem?-set_other (x ∷ xs) zero (suc k) v h = refl
  get_elem?-set_other (x ∷ xs) (suc i) zero v h = refl
  get_elem?-set_other (x ∷ xs) (suc i) (suc k) v h =
      get_elem?-set_other xs i k v (λ e. h (ap suc e))

  -- What stands at `k` after a write is what was written, or what stood there.
  pub get_elem?-set-cases :
      (xs : List A) (i k : ℕ) (v w : A)
      → get_elem? (set xs i v) k ≡ some w
      → ((k ≡ i) × (v ≡ w)) ⊎ ((k ≢ i) × (get_elem? xs k ≡ some w))
  get_elem?-set-cases [] i k v w e = cc
  get_elem?-set-cases (x ∷ xs) zero zero v w e = inl (refl, some_inj e)
  get_elem?-set-cases (x ∷ xs) zero (suc k) v w e = inr ((λ h. cc), e)
  get_elem?-set-cases (x ∷ xs) (suc i) zero v w e = inr ((λ h. cc), e)
  get_elem?-set-cases (x ∷ xs) (suc i) (suc k) v w e = elim (get_elem?-set-cases xs i k v w e) [
    | inl (same, at) ↦ inl (ap suc same, at)
    | inr (other, at) ↦ inr ((λ h. other (omega arith)), at)
  ]

  -- What holds of the new element, and of the others in their places, holds everywhere.
  pub get_elem?-set-all {κ} :
      (P : ℕ → A → Type κ) (xs : List A) (i k : ℕ) (v w : A)
      → P i v
      → (k ≢ i → get_elem? xs k ≡ some w → P k w)
      → get_elem? (set xs i v) k ≡ some w
      → P k w
  get_elem?-set-all P xs i k v w new old e = elim (get_elem?-set-cases xs i k v w e) [
    | inl (same, eq) ↦ rw (same, sym eq) new
    | inr (other, at) ↦ old other at
  ]

  pub set-append_length :
      (xs ys : List A) (v w : A) → set (xs ++ (w ∷ ys)) (length xs) v ≡ xs ++ (v ∷ ys)
  set-append_length [] ys v w = refl
  set-append_length (x ∷ xs) ys v w = rw (set-append_length xs ys v w)

  -- What stands at `k` behind one more element is that element, at the end, or what stood there.
  pub get_elem?-snoc-cases :
      (xs : List A) (k : ℕ) (v w : A)
      → get_elem? (xs ++ (v ∷ [])) k ≡ some w
      → ((k ≡ length xs) × (v ≡ w)) ⊎ (get_elem? xs k ≡ some w)
  get_elem?-snoc-cases [] zero v w e = inl (refl, some_inj e)
  get_elem?-snoc-cases [] (suc k) v w e = cc
  get_elem?-snoc-cases (x ∷ xs) zero v w e = inr e
  get_elem?-snoc-cases (x ∷ xs) (suc k) v w e = elim (get_elem?-snoc-cases xs k v w e) [
    | inl (at, same) ↦ inl (ap suc at, same)
    | inr at ↦ inr at
  ]

  pub drop-get_elem? :
      (k : ℕ) (xs : List A) (x : A) → get_elem? xs k ≡ some x → drop k xs ≡ x ∷ drop (suc k) xs
  drop-get_elem? k [] x e = cc
  drop-get_elem? zero (y ∷ ys) x e = ap (λ z. z ∷ ys) (some_inj e)
  drop-get_elem? (suc k) (y ∷ ys) x e = drop-get_elem? k ys x e
