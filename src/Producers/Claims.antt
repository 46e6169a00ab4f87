-- ===== src/Producers/Claims.antt =====
-- The queue's places and the threads' claims: each place belongs to the call that claimed it, and is
-- open just while a thread holds it.
use inqjet.Common.{
  ℕ, zero, suc, ◌≡◌, refl, sym, ap, ◌∙◌, ◌≢◌, Option, some, List, [], ◌∷◌, ◌++◌, map, length,
  get_elem?, All, some_inj, get_elem?-append, set, get_elem?-set_other, some-none,
}
use mathlib.Core.Path.{subst}
use inqjet.Common.Bytes.{Bytes}
use inqjet.Logbuf.Mpsc.{Slot, reserved, filled, visible, IsFilled}
use inqjet.Consumer.Closing.{AllFormat}
use inqjet.Producers.{Job, Place, between, trying, full, holding, unwound}

-- `line` is what formatting the call's record gives.
module _ (format_log : Bytes → Option Bytes) (line : Job → Bytes) where
  -- The call fills a region of the size that it claims, without a panic, with a record of that line.
  abbrev pub IsJob : Job → Type 0
  IsJob j =
      (region : Bytes)
      → length region ≡ j.total_size
      → (bytes : Bytes) × (j.fill region ≡ some bytes)
        × (length bytes ≡ j.total_size)
        × (format_log bytes ≡ some (line j))

  abbrev pub Fits : List (ℕ × Job) → List Slot → Type 0
  Fits [] [] = Unit
  Fits [] (s ∷ ss) = ⊥
  Fits (c ∷ cs) [] = ⊥
  Fits (c ∷ cs) (reserved n ∷ ss) = Fits cs ss
  Fits (c ∷ cs) (filled bytes ∷ ss) = (format_log bytes ≡ some (line c.1)) × Fits cs ss

  pub Fits-length : (cs : List (ℕ × Job)) (ss : List Slot) → Fits cs ss → length cs ≡ length ss
  Fits-length [] [] h = refl
  Fits-length [] (s ∷ ss) h = absurd h
  Fits-length (c ∷ cs) [] h = absurd h
  Fits-length (c ∷ cs) (reserved n ∷ ss) h = rw (Fits-length cs ss h)
  Fits-length (c ∷ cs) (filled bytes ∷ ss) h = rw (Fits-length cs ss h.1)

  pub Fits-reserved :
      (cs : List (ℕ × Job)) (ss : List Slot) (c : ℕ × Job) (n : ℕ)
      → Fits cs ss
      → Fits (cs ++ (c ∷ [])) (ss ++ (reserved n ∷ []))
  Fits-reserved [] [] c n h = tt
  Fits-reserved [] (s ∷ ss) c n h = absurd h
  Fits-reserved (d ∷ cs) [] c n h = absurd h
  Fits-reserved (d ∷ cs) (reserved m ∷ ss) c n h = Fits-reserved cs ss c n h
  Fits-reserved (d ∷ cs) (filled bytes ∷ ss) c n (e, h) = (e, Fits-reserved cs ss c n h)

  pub Fits-filled :
      (cs : List (ℕ × Job)) (ss : List Slot) (t : ℕ) (c : ℕ × Job) (bytes : Bytes)
      → Fits cs ss
      → get_elem? cs t ≡ some c
      → format_log bytes ≡ some (line c.1)
      → Fits cs (set ss t (filled bytes))
  Fits-filled [] [] t c bytes h e l = tt
  Fits-filled [] (s ∷ ss) t c bytes h e l = absurd h
  Fits-filled (d ∷ cs) [] t c bytes h e l = absurd h
  Fits-filled (d ∷ cs) (reserved m ∷ ss) zero c bytes h e l =
      (l ∙ ap (λ x. some (line x.1)) (sym (some_inj e)), h)
  Fits-filled (d ∷ cs) (filled b ∷ ss) zero c bytes h e l =
      (l ∙ ap (λ x. some (line x.1)) (sym (some_inj e)), h.1)
  Fits-filled (d ∷ cs) (reserved m ∷ ss) (suc t) c bytes h e l = Fits-filled cs ss t c bytes h e l
  Fits-filled (d ∷ cs) (filled b ∷ ss) (suc t) c bytes h e l =
      (h.0, Fits-filled cs ss t c bytes h.1 e l)

  -- With no claim open, the records' lines are those of the calls.
  pub Fits-visible :
      (cs : List (ℕ × Job)) (ss : List Slot)
      → Fits cs ss
      → All IsFilled ss
      → map format_log (visible ss) ≡ map some (map (λ c. line c.1) cs)
  Fits-visible [] [] h f = refl
  Fits-visible [] (s ∷ ss) h f = absurd h
  Fits-visible (c ∷ cs) [] h f = absurd h
  Fits-visible (c ∷ cs) (reserved n ∷ ss) h f = absurd (f.0)
  Fits-visible (c ∷ cs) (filled bytes ∷ ss) h f = rw (h.0, Fits-visible cs ss h.1 f.1)

  pub Fits-AllFormat :
      (cs : List (ℕ × Job)) (ss : List Slot) → Fits cs ss → AllFormat (map format_log (visible ss))
  Fits-AllFormat [] [] h = tt
  Fits-AllFormat [] (s ∷ ss) h = absurd h
  Fits-AllFormat (c ∷ cs) [] h = absurd h
  Fits-AllFormat (c ∷ cs) (reserved n ∷ ss) h = tt
  Fits-AllFormat (c ∷ cs) (filled bytes ∷ ss) h =
      ((λ e. some-none (sym h.0 ∙ e)), Fits-AllFormat cs ss h.1)

  -- A thread's place in the queue, if it has one.
  abbrev pub Stands : List (ℕ × Job) → List Slot → ℕ → Place → Type 0
  Stands cs ss k between = Unit
  Stands cs ss k (trying j) = IsJob j
  Stands cs ss k (full j) = IsJob j
  Stands cs ss k (holding j t region) =
      IsJob j
      × (get_elem? ss t ≡ some (reserved j.total_size))
      × (get_elem? cs t ≡ some (k, j))
      × (length region ≡ j.total_size)
  Stands cs ss k unwound = ⊥

  pub Stands-claim :
      (cs : List (ℕ × Job)) (ss : List Slot) (k : ℕ) (place : Place) (c : ℕ × Job) (s : Slot)
      → Stands cs ss k place
      → Stands (cs ++ (c ∷ [])) (ss ++ (s ∷ [])) k place
  Stands-claim cs ss k between c s h = tt
  Stands-claim cs ss k (trying j) c s h = h
  Stands-claim cs ss k (full j) c s h = h
  Stands-claim cs ss k (holding j t region) c s (sound, at_slot, at_claim, size) = (
    sound,
    get_elem?-append ss (s ∷ []) t _ at_slot,
    get_elem?-append cs (c ∷ []) t _ at_claim,
    size,
  )
  Stands-claim cs ss k unwound c s h = absurd h

  -- A commit leaves the other threads' places alone.
  pub Stands-commit :
      (cs : List (ℕ × Job)) (ss : List Slot) (k i t : ℕ) (place : Place) (j : Job) (s : Slot)
      → k ≢ i
      → get_elem? cs t ≡ some (i, j)
      → Stands cs ss k place
      → Stands cs (set ss t s) k place
  Stands-commit cs ss k i t between j s other e h = tt
  Stands-commit cs ss k i t (trying j') j s other e h = h
  Stands-commit cs ss k i t (full j') j s other e h = h
  Stands-commit cs ss k i t (holding j' t' region) j s other e (sound, at_slot, at_claim, size) = (
    sound,
    get_elem?-set_other ss t t' s (λ same. other (
          ap (λ c. c.0)
            (some_inj (sym at_claim ∙ subst (λ n. get_elem? cs n ≡ some (i, j)) (sym same) e))))
        ∙ at_slot,
    at_claim,
    size,
  )
  Stands-commit cs ss k i t unwound j s other e h = absurd h
