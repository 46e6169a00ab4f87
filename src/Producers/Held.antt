-- ===== src/Producers/Held.antt =====
-- An open place in the queue is held by one thread, and no thread takes another's.
use inqjet.Common.{
  ℕ, ◌≡◌, refl, sym, ap, ◌∙◌, inl, inr, Option, some, List, [], ◌∷◌, ◌++◌, length, get_elem?, All,
  some_inj, set, get_elem?-set-cases, get_elem?-set_other, get_elem?-snoc-cases,
  get_elem?-append_length, get_elem?-set-all, get_elem?-set_self,
}
use native.Mathlib.Decide.{ℕ_discrete}
use mathlib.Core.Path.{subst}
use inqjet.Common.Bytes.{Bytes}
use inqjet.Logbuf.Mpsc.{Slot, reserved, filled}
use inqjet.Producers.{Job, Place, between, trying, full, holding, unwound, Producer}
use inqjet.Producers.Claims.{
  IsJob, Fits, Fits-length, Fits-reserved, Fits-filled, Stands, Stands-claim, Stands-commit,
}

abbrev pub IsHolding : Place → Type 0
IsHolding between = ⊥
IsHolding (trying j) = ⊥
IsHolding (full j) = ⊥
IsHolding (holding j t region) = Unit
IsHolding unwound = ⊥

abbrev Holds : List Producer → ℕ → Type 0
Holds ps t =
    (k : ℕ) × (p : Producer) × (j : Job) × (region : Bytes) × (get_elem? ps k ≡ some p)
    × (p.place ≡ holding j t region)

elsewhere :
    (j j' : Job) (t u : ℕ) (region region' : Bytes)
    → holding j' u region' ≡ holding j t region
    → u ≡ t
elsewhere j j' t u region region' e = cc

module _ (format_log : Bytes → Option Bytes) (line : Job → Bytes) where
  pub record IsHeld (ps : List Producer) (ss : List Slot) (cs : List (ℕ × Job)) : Type 0 where
    pub fits : Fits format_log line cs ss
    pub stands :
        (k : ℕ) (p : Producer)
        → get_elem? ps k ≡ some p
        → Stands format_log line cs ss k p.place × All (IsJob format_log line) p.calls
    pub held : (t n : ℕ) → get_elem? ss t ≡ some (reserved n) → Holds ps t

  -- Another thread's turn leaves a thread where it is.
  Holds-set :
      (ps : List Producer) (i t : ℕ) (p p' : Producer)
      → get_elem? ps i ≡ some p
      → ((j : Job) (region : Bytes) → p.place ≡ holding j t region → ⊥)
      → Holds ps t
      → Holds (set ps i p') t
  Holds-set ps i t p p' e free (k, o, j, region, at, place) = elim (ℕ_discrete k i) [
    | yes same ↦ absurd (
        free j region (
          ap (λ x. Producer.place x)
            (some_inj (sym e ∙ subst (λ n. get_elem? ps n ≡ some o) same at))
          ∙ place))
    | no other ↦ (k, o, j, region, get_elem?-set_other ps i k p' other ∙ at, place)
  ]

  -- What is known of a thread: its place in the queue, and its calls.
  abbrev pub Knows : List (ℕ × Job) → List Slot → ℕ → Producer → Type 0
  Knows cs ss k p = Stands format_log line cs ss k p.place × All (IsJob format_log line) p.calls

  module _ (ps : List Producer) (ss : List Slot) (cs : List (ℕ × Job)) (i : ℕ) (p : Producer)
      (e : get_elem? ps i ≡ some p) (h : IsHeld ps ss cs) where
    free_others :
        (t : ℕ) (p' : Producer) → (IsHolding p.place → ⊥) → Holds ps t → Holds (set ps i p') t
    free_others t p' free =
        Holds-set ps i t p p' e (λ j region place. free (subst IsHolding (sym place) tt))

    -- A turn that leaves the queue alone.
    pub IsHeld-turn :
        (p' : Producer) → (IsHolding p.place → ⊥) → Knows cs ss i p' → IsHeld (set ps i p') ss cs
    IsHeld-turn p' free new = record {
      fits = h.fits;
      stands = λ k o. get_elem?-set-all (Knows cs ss) ps i k p' o new (λ other. h.stands k o);
      held = λ t n at. free_others t p' free (h.held t n at);
    }

    pub IsHeld-claim :
        (j : Job) (t : ℕ) (region : Bytes)
        → (IsHolding p.place → ⊥)
        → IsJob format_log line j
        → t ≡ length ss
        → length region ≡ j.total_size
        → IsHeld
            (set ps i (record p { place = holding j t region }))
            (ss ++ (reserved j.total_size ∷ []))
            (cs ++ ((i, j) ∷ []))
    IsHeld-claim j t region free sound at_end size =
        let p' : Producer = record p { place = holding j t region } in
        let new : Knows (cs ++ ((i, j) ∷ [])) (ss ++ (reserved j.total_size ∷ [])) i p' = (
          (
            sound,
            rw at_end (get_elem?-append_length ss [] (reserved j.total_size)),
            rw (at_end, sym (Fits-length format_log line cs ss h.fits))
                (get_elem?-append_length cs [] (i, j)),
            size,
          ),
          (h.stands i p e).1,
        ) in
        record {
          fits = Fits-reserved format_log line cs ss (i, j) j.total_size h.fits;
          stands = λ k o.
              get_elem?-set-all (Knows (cs ++ ((i, j) ∷ [])) (ss ++ (reserved j.total_size ∷ [])))
                ps i k p' o new
                (λ other old. (
                  Stands-claim format_log line cs ss k o.place (i, j) (reserved j.total_size)
                      (h.stands k o old).0,
                  (h.stands k o old).1,
                ));
          held = λ u n at.
              elim (get_elem?-snoc-cases ss u (reserved j.total_size) (reserved n) at) [
                | inl (last, same) ↦
                    (i, p', j, region, get_elem?-set_self ps i p' p e, rw (last, at_end) refl)
                | inr old ↦ free_others u p' free (h.held u n old)
              ];
        }

    pub IsHeld-commit :
        (j : Job) (t : ℕ) (region bytes : Bytes)
        → p.place ≡ holding j t region
        → format_log bytes ≡ some (line j)
        → IsHeld (set ps i (record p { place = between })) (set ss t (filled bytes)) cs
    IsHeld-commit j t region bytes place text =
        let p' : Producer = record p { place = between } in
        let (_, at_slot, at_claim, _) =
          subst (Stands format_log line cs ss i) place (h.stands i p e).0 in
        record {
          fits = Fits-filled format_log line cs ss t (i, j) bytes h.fits at_claim text;
          stands = λ k o.
              get_elem?-set-all (Knows cs (set ss t (filled bytes))) ps i k p' o
                (tt, (h.stands i p e).1)
                (λ other old. (
                  Stands-commit format_log line cs ss k i t o.place j (filled bytes) other at_claim
                      (h.stands k o old).0,
                  (h.stands k o old).1,
                ));
          held = λ u n at. elim (get_elem?-set-cases ss t u (filled bytes) (reserved n) at) [
            | inl (last, same) ↦ cc
            | inr (other, old) ↦
                Holds-set ps i u p p' e
                  (λ j' region' place'.
                    other (elsewhere j j' t u region region' (sym place' ∙ place)))
                  (h.held u n old)
          ];
        }
