-- ===== src/Pod/Fallback.antt =====
-- The fallback stash: texts are taken out in the order in which they were put in.
use native.Mathlib.Nat.{add_assoc, add-zero, add-sub_cancel_left, mod-eq_of_lt, zero-add}
use native.Mathlib.Numerals.{add-one}
use inqjet.Common.{
  ℕ, suc, ◌+◌, ◌^◌, ◌≤◌, ◌<◌, ◌≡◌, refl, sym, ap, true, some, List, [], ◌∷◌, ◌++◌, append-nil,
  append_assoc, arith, le→leb, length, get_elem?, drop, length-append, false, Bool-cases, inl, inr,
}
use inqjet.Common.Bytes.{Bytes, to_le_bytes}
use inqjet.Common.Buffer.{slice_range, copy_at, slice_range-append, copy_at-next}
use inqjet.Pod.{
  Stash, hot_size_fallback, get_or, fallback_stash_encode, fallback_stash_clear, fresh_stash,
}

abbrev pub concat : List Bytes → Bytes
concat [] = []
concat (t ∷ ts) = t ++ concat ts

-- Where each text begins, the first at `at`.
abbrev pub starts : ℕ → List Bytes → List ℕ
starts at [] = []
starts at (t ∷ ts) = at ∷ starts (at + length t) ts

-- The stash holds `texts`, of which the first `taken` have been encoded.
pub record Holds (texts : List Bytes) (taken : ℕ) (s : Stash) : Type 0 where
  pub buf_is : s.buf ≡ concat texts
  pub offsets_are : s.offsets ≡ starts 0 texts
  pub read_is : s.read_idx ≡ taken

concat-append : (xs ys : List Bytes) → concat (xs ++ ys) ≡ concat xs ++ concat ys
concat-append [] ys = refl
concat-append (x ∷ xs) ys = rw (concat-append xs ys, append_assoc)

starts-append :
    (at : ℕ) (xs ys : List Bytes)
    → starts at (xs ++ ys) ≡ starts at xs ++ starts (at + length (concat xs)) ys
starts-append at [] ys = ap (λ n. starts n ys) (omega arith)
starts-append at (x ∷ xs) ys = rw (
  starts-append (at + length x) xs ys,
  length-append,
  add_assoc at (length x) (length (concat xs)),
)

-- What `fallback_stash_encode` finds for the text behind `done`.
get_elem?-starts :
    (at : ℕ) (done : List Bytes) (t : Bytes) (rest : List Bytes)
    → get_elem? (starts at (done ++ (t ∷ rest))) (length done) ≡ some (at + length (concat done))
get_elem?-starts at [] t rest = ap some (sym (add-zero at))
get_elem?-starts at (x ∷ xs) t rest =
    rw (length-append, ← add_assoc at (length x) (length (concat xs)))
      (get_elem?-starts (at + length x) xs t rest)

get_or-starts :
    (at : ℕ) (done : List Bytes) (t : Bytes) (rest : List Bytes)
    → get_or
        (starts at (done ++ (t ∷ rest)))
        (suc (length done))
        (at + length (concat (done ++ (t ∷ rest))))
      ≡ at + length (concat done) + length t
get_or-starts at [] t [] = omega (arith, length-append t [])
get_or-starts at [] t (u ∷ rest) = omega arith
get_or-starts at (x ∷ xs) t rest =
    rw
      (
        length-append x (concat xs),
        length-append x (concat (xs ++ (t ∷ rest))),
        ← add_assoc at (length x) (length (concat xs)),
        ← add_assoc at (length x) (length (concat (xs ++ (t ∷ rest)))),
      )
      (get_or-starts (at + length x) xs t rest)

-- Sizing an argument with the macro's closure, which appends the formatted text, puts that text last.
pub hot_size_fallback-Holds :
    (texts : List Bytes) (taken : ℕ) (s : Stash) (text : Bytes)
    → Holds texts taken s
    → (s' : Stash) × (hot_size_fallback (λ b. b ++ text) s ≡ some (4 + length text, s'))
      × Holds (texts ++ (text ∷ [])) taken s'
      × (s'.dirty ≡ true)
unfolding hot_size_fallback
hot_size_fallback-Holds texts taken s text h = (
  record {
    dirty = true;
    buf = s.buf ++ text;
    offsets = s.offsets ++ (length s.buf ∷ []);
    read_idx = s.read_idx;
  },
  rw (le→leb _ _ fits, length-append, add-sub_cancel_left),
  record {
    buf_is = rw (h.buf_is, concat-append, append-nil);
    offsets_are = rw (h.offsets_are, starts-append, h.buf_is, zero-add);
    read_is = h.read_is;
  },
  refl,
)
  where
    fits : length s.buf ≤ length (s.buf ++ text)
    fits = rw length-append (omega arith)

-- Where the stash holds the texts in their order and this one, of less than 4 GiB, is the next, and
-- the buffer has room for it and four bytes more: it is written with its length in front, what follows
-- it in the buffer stays, and the stash holds the same texts with its index moved on by one.
pub fallback_stash_encode-Holds :
    (done : List Bytes) (t : Bytes) (rest : List Bytes) (s : Stash) (buf : Bytes)
    → Holds (done ++ (t ∷ rest)) (length done) s
    → length t < 2 ^ 32
    → 4 + length t ≤ length buf
    → (s' : Stash) × (fallback_stash_encode buf s
        ≡ some ((to_le_bytes 4 (length t) ++ t) ++ drop (4 + length t) buf, s'))
      × Holds (done ++ (t ∷ rest)) (suc (length done)) s'
unfolding fallback_stash_encode
fallback_stash_encode-Holds done t rest s buf h small room = (
  record s { read_idx = s.read_idx + 1 },
  rw (start_is, end_is, content_is, mod-eq_of_lt small, step₁, step₂),
  record { buf_is = h.buf_is; offsets_are = h.offsets_are; read_is = omega (arith, h.read_is) },
)
  where
    texts : List Bytes
    texts = done ++ (t ∷ rest)

    start_is : get_elem? s.offsets s.read_idx ≡ some (length (concat done))
    start_is = rw (h.offsets_are, h.read_is, get_elem?-starts 0 done t rest, zero-add)

    end_is : get_or s.offsets (s.read_idx + 1) (length s.buf) ≡ length (concat done) + length t
    end_is =
        rw (h.offsets_are, h.read_is, h.buf_is, add-one)
          (rw (zero-add, zero-add) at (get_or-starts 0 done t rest))

    content_is : slice_range s.buf (length (concat done)) (length (concat done) + length t) ≡ some t
    content_is =
        rw (h.buf_is, concat-append done (t ∷ rest))
          (slice_range-append (concat done) t (concat rest) _ _ refl refl)

    len_bytes : Bytes
    len_bytes = to_le_bytes 4 (length t)

    step₁ : copy_at buf 0 len_bytes ≡ some (len_bytes ++ drop 4 buf)
    step₁ = copy_at-next [] len_bytes buf 0 refl (omega arith)

    step₂ :
        copy_at (len_bytes ++ drop 4 buf) 4 t ≡ some ((len_bytes ++ t) ++ drop (4 + length t) buf)
    step₂ = copy_at-next len_bytes t buf 4 refl room

-- A stash that is not marked dirty is as new.
pub record IsStash (s : Stash) : Type 0 where
  pub clean : s.dirty ≡ false → s ≡ fresh_stash

-- Clearing leaves an empty stash, although it does nothing where the mark is not set.
pub fallback_stash_clear-fresh : (s : Stash) → IsStash s → fallback_stash_clear s ≡ fresh_stash
unfolding fallback_stash_clear
fallback_stash_clear-fresh s v = elim (Bool-cases s.dirty) [
  | inl e ↦ simp e
  | inr e ↦ simp e (v.clean e)
]
