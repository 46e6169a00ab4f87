-- ===== src/Logbuf/Mpsc.antt =====
-- The same ring buffer with claims open in several threads at a time, as `nexus_logbuf`'s queue for
-- many producers has them: claims are ordered as they were made, and records are received in that
-- order, each once it and those before it are committed.
use inqjet.Common.{
  ℕ, zero, suc, ◌-◌, ◌≤◌, ◌≡◌, refl, sym, ap, ◌∙◌, inl, inr, Option, none, some, List, [], ◌∷◌,
  ◌++◌, arith, Option-cases, length, get_elem?, drop, All, length-append, drop-append, drop-all,
  some_inj, some-none, drop-get_elem?, get_elem?-append_length, set, set-append_length,
}
use inqjet.Common.Bytes.{Bytes}
use inqjet.Logbuf.{Logbuf}

-- A place in the ring: claimed, with so many bytes, or committed with its bytes.
pub data Slot : Type 0 where
  reserved : ℕ → Slot
  filled : Bytes → Slot

-- The committed records up to the first open claim.
abbrev pub visible : List Slot → List Bytes
visible [] = []
visible (reserved n ∷ ss) = []
visible (filled bytes ∷ ss) = bytes ∷ visible ss

-- `slots` is every claim so far, in order, and `head` counts the records that were received. The
-- number that a claim gives is the place of its slot.
pub record Mpsc : Type 1 where
  pub Queue : Type 0
  pub create : (capacity : ℕ) → Queue
  pub try_claim : Queue → ℕ → Option (ℕ × Bytes × Queue)
  pub commit : Queue → ℕ → Bytes → Queue
  pub receive : Queue → Option (Bytes × Queue)
  pub slots : Queue → List Slot
  pub head : Queue → ℕ
  pub create-slots : (capacity : ℕ) → slots (create capacity) ≡ []
  pub head_committed : (q : Queue) → head q ≤ length (visible (slots q))
  pub claim-slots :
      (q q' : Queue) (n t : ℕ) (region : Bytes)
      → try_claim q n ≡ some (t, region, q')
      → (length region ≡ n)
        × (t ≡ length (slots q))
        × (slots q' ≡ slots q ++ (reserved n ∷ []))
        × (head q' ≡ head q)
  pub commit-slots :
      (q : Queue) (n t : ℕ) (bytes : Bytes)
      → get_elem? (slots q) t ≡ some (reserved n)
      → length bytes ≡ n
      → (slots (commit q t bytes) ≡ set (slots q) t (filled bytes))
        × (head (commit q t bytes) ≡ head q)
  pub receive-none : (q : Queue) → receive q ≡ none → length (visible (slots q)) ≤ head q
  pub receive-slots :
      (q q' : Queue) (bytes : Bytes)
      → receive q ≡ some (bytes, q')
      → (get_elem? (visible (slots q)) (head q) ≡ some bytes)
        × (slots q' ≡ slots q)
        × (head q' ≡ suc (head q))

-- A claim at the end is not yet visible.
pub visible-reserved : (ss : List Slot) (n : ℕ) → visible (ss ++ (reserved n ∷ [])) ≡ visible ss
visible-reserved [] n = refl
visible-reserved (reserved m ∷ ss) n = refl
visible-reserved (filled bytes ∷ ss) n = rw (visible-reserved ss n)

-- A commit shows the record, and those behind it that waited for it; or nothing, while one in front
-- is open.
pub visible-set :
    (ss : List Slot) (t n : ℕ) (bytes : Bytes)
    → get_elem? ss t ≡ some (reserved n)
    → (rs : List Bytes) × (visible (set ss t (filled bytes)) ≡ visible ss ++ rs)
visible-set [] t n bytes e = cc
visible-set (reserved m ∷ ss) zero n bytes e = (bytes ∷ visible ss, refl)
visible-set (reserved m ∷ ss) (suc t) n bytes e = ([], refl)
visible-set (filled b ∷ ss) zero n bytes e = cc
visible-set (filled b ∷ ss) (suc t) n bytes e =
    let (rs, h) = visible-set ss t n bytes e in (rs, rw h)

-- No claim is open.
abbrev pub IsFilled : Slot → Type 0
IsFilled (reserved n) = ⊥
IsFilled (filled bytes) = Unit

pub visible-filled :
    (ss : List Slot) (bytes : Bytes)
    → All IsFilled ss
    → visible (ss ++ (filled bytes ∷ [])) ≡ visible ss ++ (bytes ∷ [])
visible-filled [] bytes h = refl
visible-filled (reserved n ∷ ss) bytes h = absurd (h.0)
visible-filled (filled b ∷ ss) bytes h = rw (visible-filled ss bytes h.1)

module _ (M : Mpsc) where
  open M use {Queue, try_claim, commit, receive, slots, head}

  -- The records that can be received.
  abbrev pub pending : Queue → List Bytes
  pending q = drop (head q) (visible (slots q))

  abbrev unnumbered : Option (ℕ × Bytes × Queue) → Option (Bytes × Queue)
  unnumbered none = none
  unnumbered (some (t, region, q)) = some (region, q)

  -- A single producer commits the last claim.
  abbrev commit_last : Queue → Bytes → Queue
  commit_last q bytes = commit q (length (slots q) - 1) bytes

  claimed :
      (q q' : Queue) (n : ℕ) (region : Bytes)
      → unnumbered (try_claim q n) ≡ some (region, q')
      → (t : ℕ) × (try_claim q n ≡ some (t, region, q'))
  claimed q q' n region e = elim (Option-cases (try_claim q n)) [
    | inl h ↦ absurd (some-none (sym (rw h at e)))
    | inr ((t, r, q₁), h) ↦
        let same : ◌≡◌ {A = Bytes × Queue} (r, q₁) (region, q') = some_inj (rw h at e) in
        (t, h ∙ ap (λ (p : Bytes × Queue). some (t, p.0, p.1)) same)
  ]

  pub create-pending : (capacity : ℕ) → pending (M.create capacity) ≡ []
  create-pending capacity =
      rw (M.create-slots capacity) (drop-all (head (M.create capacity)) [] (omega arith))

  pub create-IsFilled : (capacity : ℕ) → All IsFilled (slots (M.create capacity))
  create-IsFilled capacity = rw (M.create-slots capacity) tt

  pub claim_length :
      (q q' : Queue) (n : ℕ) (region : Bytes)
      → unnumbered (try_claim q n) ≡ some (region, q')
      → length region ≡ n
  claim_length q q' n region e =
      let (t, h) = claimed q q' n region e in (M.claim-slots q q' n t region h).0

  pub commit-pending :
      (q q' : Queue) (n : ℕ) (region bytes : Bytes)
      → All IsFilled (slots q)
      → unnumbered (try_claim q n) ≡ some (region, q')
      → length bytes ≡ n
      → pending (commit_last q' bytes) ≡ pending q ++ (bytes ∷ [])
  commit-pending q q' n region bytes idle e len =
      let (t, h) = claimed q q' n region e in
      let (_, _, grown, same) = M.claim-slots q q' n t region h in
      let last : length (slots q') - 1 ≡ length (slots q) = omega (
        arith,
        ap (λ (ss : List Slot). length ss) grown,
        length-append (slots q) (reserved n ∷ []),
      ) in
      let open_slot : get_elem? (slots q') (length (slots q') - 1) ≡ some (reserved n) =
        rw (last, grown) (get_elem?-append_length (slots q) [] (reserved n)) in
      let (committed, same') = M.commit-slots q' n (length (slots q') - 1) bytes open_slot len in
      rw
        (
          same',
          same,
          committed,
          last,
          grown,
          set-append_length (slots q) [] (filled bytes) (reserved n),
          visible-filled (slots q) bytes idle,
        )
        (drop-append (head q) (visible (slots q)) (bytes ∷ []) (M.head_committed q))

  pub receive-pending_none : (q : Queue) → receive q ≡ none → pending q ≡ []
  receive-pending_none q e = drop-all (head q) (visible (slots q)) (M.receive-none q e)

  pub receive-pending :
      (q q' : Queue) (bytes : Bytes) → receive q ≡ some (bytes, q') → pending q ≡ bytes ∷ pending q'
  receive-pending q q' bytes e =
      let (next, same, moved) = M.receive-slots q q' bytes e in
      rw (same, moved) (drop-get_elem? (head q) (visible (slots q)) bytes next)

  -- The queue as a single thread meets it.
  abbrev pub logbuf : Logbuf
  logbuf = record {
    Queue = Queue;
    create = M.create;
    try_claim = λ q n. unnumbered (try_claim q n);
    commit = commit_last;
    receive = receive;
    pending = pending;
    IsIdle = λ q. All IsFilled (slots q);
    create-pending = create-pending;
    create-IsIdle = create-IsFilled;
    claim_length = claim_length;
    commit-pending = commit-pending;
    receive-none = receive-pending_none;
    receive-some = receive-pending;
  }
