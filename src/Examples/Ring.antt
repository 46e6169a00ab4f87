-- ===== src/Examples/Ring.antt =====
-- A queue for many producers as a list of slots, with room for two records that were not received.
use inqjet.Common.{
  ℕ, zero, suc, ◌+◌, ◌-◌, ◌≤◌, ◌≡◌, refl, sym, ap, ◌∙◌, inl, inr, Option, none, some, List, [], ◌∷◌,
  ◌++◌, map, append_assoc, arith, ltb, if◌then◌else◌, Bool-cases, length, get_elem?, replicate,
  length-append, length-replicate, some_inj, some-none, set, get_elem?-append_length, All, drop,
}
use mathlib.Core.List.{map-append}
use inqjet.Common.Bytes.{Bytes}
use inqjet.Producers.Acts.{HasRoom}
use inqjet.Logbuf.Mpsc.{IsFilled, Slot, reserved, filled, visible, Mpsc}

-- The records received, and the slots behind them.
abbrev Ring : Type 0
Ring = List Bytes × List Slot

abbrev ring_slots : Ring → List Slot
ring_slots (rs, ss) = map filled rs ++ ss

abbrev ring_claim : Ring → ℕ → Option (ℕ × Bytes × Ring)
ring_claim (rs, ss) n =
    if ltb (length ss) 2
    then some (length rs + length ss, replicate n 0, (rs, ss ++ (reserved n ∷ [])))
    else none

abbrev ring_commit : Ring → ℕ → Bytes → Ring
ring_commit (rs, ss) t bytes = (rs, set ss (t - length rs) (filled bytes))

abbrev ring_receive : Ring → Option (Bytes × Ring)
ring_receive (rs, []) = none
ring_receive (rs, reserved n ∷ ss) = none
ring_receive (rs, filled bytes ∷ ss) = some (bytes, (rs ++ (bytes ∷ []), ss))

visible-received :
    (rs : List Bytes) (ss : List Slot) → visible (map filled rs ++ ss) ≡ rs ++ visible ss
visible-received [] ss = refl
visible-received (r ∷ rs) ss = rw (visible-received rs ss)

length-ring_slots :
    (rs : List Bytes) (ss : List Slot) → length (map filled rs ++ ss) ≡ length rs + length ss
length-ring_slots [] ss = omega arith
length-ring_slots (r ∷ rs) ss = rw (length-ring_slots rs ss) (omega arith)

pub set-received :
    (rs : List Bytes) (ss : List Slot) (t n : ℕ) (v : Slot)
    → get_elem? (map filled rs ++ ss) t ≡ some (reserved n)
    → map filled rs ++ set ss (t - length rs) v ≡ set (map filled rs ++ ss) t v
set-received [] ss t n v e = ap (λ k. set ss k v) (omega arith)
set-received (r ∷ rs) ss zero n v e = cc
set-received (r ∷ rs) ss (suc t) n v e =
    ap (λ k. filled r ∷ (map filled rs ++ set ss k v)) (omega arith)
    ∙ ap (λ z. filled r ∷ z) (set-received rs ss t n v e)

pub ring_claim-slots :
    (q q' : Ring) (n t : ℕ) (region : Bytes)
    → ring_claim q n ≡ some (t, region, q')
    → (length region ≡ n)
      × (t ≡ length (ring_slots q))
      × (ring_slots q' ≡ ring_slots q ++ (reserved n ∷ []))
      × (length q'.0 ≡ length q.0)
ring_claim-slots (rs, ss) q' n t region e = elim (Bool-cases (ltb (length ss) 2)) [
  | inl room ↦
      let same : ◌≡◌ {A = ℕ × Bytes × Ring}
          (length rs + length ss, replicate n 0, (rs, ss ++ (reserved n ∷ []))) (t, region, q') =
        some_inj (rw room at e) in
      (
        ap (λ p. length p.1) (sym same) ∙ length-replicate n 0,
        ap (λ p. p.0) (sym same) ∙ sym (length-ring_slots rs ss),
        ap (λ p. ring_slots p.2) (sym same)
            ∙ sym (append_assoc (map filled rs) ss (reserved n ∷ [])),
        ap (λ p. length p.2.0) (sym same),
      )
  | inr none_left ↦ absurd (some-none (sym (rw none_left at e)))
]

pub ring_receive-none :
    (q : Ring) → ring_receive q ≡ none → length (visible (ring_slots q)) ≤ length q.0
ring_receive-none (rs, []) e = rw (visible-received rs []) (omega (arith, length-append rs []))
ring_receive-none (rs, reserved n ∷ ss) e =
    rw (visible-received rs (reserved n ∷ ss)) (omega (arith, length-append rs []))
ring_receive-none (rs, filled bytes ∷ ss) e = cc

pub ring_receive-slots :
    (q q' : Ring) (bytes : Bytes)
    → ring_receive q ≡ some (bytes, q')
    → (get_elem? (visible (ring_slots q)) (length q.0) ≡ some bytes)
      × (ring_slots q' ≡ ring_slots q)
      × (length q'.0 ≡ suc (length q.0))
ring_receive-slots (rs, []) q' bytes e = cc
ring_receive-slots (rs, reserved n ∷ ss) q' bytes e = cc
ring_receive-slots (rs, filled b ∷ ss) q' bytes e =
    let same : ◌≡◌ {A = Bytes × Ring} (b, (rs ++ (b ∷ []), ss)) (bytes, q') = some_inj e in
    (
      rw (visible-received rs (filled b ∷ ss)) (get_elem?-append_length rs (visible ss) b)
          ∙ ap (λ p. some p.0) same,
      ap (λ p. ring_slots p.1) (sym same) ∙ rw (map-append, append_assoc) refl,
      ap (λ p. length p.1.0) (sym same) ∙ rw length-append (omega arith),
    )

pub ring_head : (q : Ring) → length q.0 ≤ length (visible (ring_slots q))
ring_head (rs, ss) = rw (visible-received rs ss, length-append) (omega arith)

abbrev pub ring : Mpsc
ring = record {
  Queue = Ring;
  create = λ capacity. ([], []);
  try_claim = ring_claim;
  commit = ring_commit;
  receive = ring_receive;
  slots = ring_slots;
  head = λ q. length q.0;
  create-slots = λ capacity. refl;
  head_committed = ring_head;
  claim-slots = ring_claim-slots;
  commit-slots = λ q n t bytes e size. (set-received q.0 q.1 t n (filled bytes) e, refl);
  receive-none = ring_receive-none;
  receive-slots = ring_receive-slots;
}

-- What waits in an idle ring without records to receive is nothing, so that both places are free.
ring_rest :
    (rs : List Bytes) (ss : List Slot)
    → All IsFilled (map filled rs ++ ss)
    → drop (length rs) (visible (map filled rs ++ ss)) ≡ []
    → ss ≡ []
ring_rest [] [] idle empty = refl
ring_rest [] (reserved n ∷ ss) idle empty = absurd (idle.0)
ring_rest [] (filled bytes ∷ ss) idle empty = cc
ring_rest (r ∷ rs) ss idle empty = ring_rest rs ss idle.1 empty

pub ring-HasRoom : (limit : ℕ) → HasRoom ring limit
ring-HasRoom limit (rs, ss) n small idle empty =
    let free = ring_rest rs ss idle empty in
    (length rs + length ss, replicate n 0, (rs, ss ++ (reserved n ∷ [])), rw free refl)
