-- ===== src/Archive/Line.antt =====
-- An archived record, from the call to its line.
use inqjet.Common.{
  ℕ, ◌+◌, ◌^◌, ◌<◌, ◌≡◌, refl, sym, ◌∙◌, ◌⊎◌, inl, inr, none, some, [], ◌∷◌, ◌++◌, append-nil,
  append_assoc, arith, length, drop, length-append, drop-all, Option-cases, ◌>>=◌,
}
use native.Mathlib.Nat.{mod-eq_of_lt}
use inqjet.Common.Bytes.{Bytes, codes, to_le_bytes, from_le_bytes-to_le_bytes}
use inqjet.Common.Buffer.{slice, copy_at, copy_at-next, slice-append}
use inqjet.Format.{format_timestamp}
use inqjet.Logbuf.{Logbuf}
use inqjet.Archive.{ArchiveTag, record_size, fill, archive_format_fn, write, commit_filled}

slices :
    (a m b payload : Bytes) (n : ℕ)
    → length a ≡ 8
    → length m ≡ n
    → length b ≡ 4
    → (slice (((a ++ m) ++ b) ++ payload) 0 8 ≡ some a)
      × (slice (((a ++ m) ++ b) ++ payload) 8 n ≡ some m)
      × (slice (((a ++ m) ++ b) ++ payload) (8 + n) 4 ≡ some b)
      × (slice (((a ++ m) ++ b) ++ payload) (8 + n + 4) (length payload) ≡ some payload)
slices a m b payload n la lm lb = (
  rw (append_assoc (a ++ m) b payload, append_assoc a m (b ++ payload))
      (slice-append [] a (m ++ (b ++ payload)) 0 8 refl (sym la)),
  rw (append_assoc (a ++ m) b payload, append_assoc a m (b ++ payload))
      (slice-append a m (b ++ payload) 8 n (sym la) (sym lm)),
  rw (append_assoc (a ++ m) b payload)
      (slice-append (a ++ m) b payload (8 + n) 4 (rw length-append (omega arith)) (sym lb)),
  rw append-nil at (
      slice-append ((a ++ m) ++ b) payload [] (8 + n + 4) (length payload)
        (rw (length-append, length-append) (omega arith)) refl),
)

module _ (T : ArchiveTag) where
  open T use {Tag, size_of, to_memory, from_memory, write_label, memory_size, copied}

  -- The bytes of a record.
  abbrev archived : Tag → Bytes → ℕ → Bytes
  archived tag payload ts =
      ((to_le_bytes 8 ts ++ to_memory tag) ++ to_le_bytes 4 (length payload)) ++ payload

  length-archived :
      (tag : Tag) (payload : Bytes) (ts : ℕ)
      → length (archived tag payload ts) ≡ 8 + size_of + 4 + length payload
  length-archived tag payload ts =
      rw (length-append, length-append, length-append, memory_size tag) refl

  fill-eq :
      (tag : Tag) (payload : Bytes) (ts : ℕ) (buf : Bytes)
      → length payload < 2 ^ 32
      → length buf ≡ 8 + size_of + 4 + length payload
      → fill T tag payload ts buf ≡ some (archived tag payload ts)
  unfolding fill
  fill-eq tag payload ts buf small size =
      rw (mod-eq_of_lt {n = length payload} {m = 2 ^ 32} small, step₁, step₂, step₃)
        (step₄ ∙ rw (drop-all (8 + size_of + 4 + length payload) buf (omega arith), append-nil))
    where
      a : Bytes
      a = to_le_bytes 8 ts

      b : Bytes
      b = to_le_bytes 4 (length payload)

      mem : length (to_memory tag) ≡ size_of
      mem = memory_size tag

      step₁ : copy_at buf 0 a ≡ some (a ++ drop 8 buf)
      step₁ = copy_at-next [] a buf 0 refl (omega arith)

      step₂ :
          copy_at (a ++ drop 8 buf) 8 (to_memory tag)
          ≡ some ((a ++ to_memory tag) ++ drop (8 + size_of) buf)
      step₂ = rw (← mem) (copy_at-next a (to_memory tag) buf 8 refl (omega (arith, mem, size)))

      step₃ :
          copy_at ((a ++ to_memory tag) ++ drop (8 + size_of) buf) (8 + size_of) b
          ≡ some (((a ++ to_memory tag) ++ b) ++ drop (8 + size_of + 4) buf)
      step₃ = copy_at-next (a ++ to_memory tag) b buf (8 + size_of) (omega arith) (omega arith)

      step₄ :
          copy_at
            (((a ++ to_memory tag) ++ b) ++ drop (8 + size_of + 4) buf)
            (8 + size_of + 4)
            payload
          ≡ some (archived tag payload ts ++ drop (8 + size_of + 4 + length payload) buf)
      step₄ =
          copy_at-next ((a ++ to_memory tag) ++ b) payload buf (8 + size_of + 4)
            (omega (arith, length-append (a ++ to_memory tag) b)) (omega arith)

  archive_format_fn-eq :
      (tag : Tag) (payload : Bytes) (ts : ℕ)
      → length payload < 2 ^ 32
      → ts < 2 ^ 64
      → archive_format_fn T (archived tag payload ts) ≡ (
          format_timestamp ts >>= λ timestamp. some (
            timestamp
            ++ (codes " [" ++ (write_label tag ++ (codes "] " ++ (payload ++ (b'\n' ∷ [])))))))
  unfolding archive_format_fn
  archive_format_fn-eq tag payload ts small fits =
      let a : Bytes = to_le_bytes 8 ts in
      let m : Bytes = to_memory tag in
      let b : Bytes = to_le_bytes 4 (length payload) in
      let (s₁, s₂, s₃, s₄) = slices a m b payload size_of refl (memory_size tag) refl in
      rw (
        s₁,
        s₂,
        s₃,
        from_le_bytes-to_le_bytes 4 (length payload) small,
        s₄,
        from_le_bytes-to_le_bytes 8 ts fits,
        copied tag,
      )

  -- On a queue with no open claim: in a region of the record's size the writes succeed, and when a
  -- claim is given the queue grows by just that record; its line is the timestamp, the tag's label in brackets, the payload, and a
  -- newline. Without room the queue stays as it was.
  pub archive_format_fn-write :
      (R : Logbuf) (q : R.Queue) (tag : Tag) (payload : Bytes) (ts : ℕ)
      → length payload < 2 ^ 32
      → ts < 2 ^ 64
      → R.IsIdle q
      → (q' : R.Queue) × (write T R q tag payload ts ≡ some q')
        × (((R.try_claim q (record_size T payload) ≡ none) × (q' ≡ q))
            ⊎ ((bytes : Bytes) × (R.pending q' ≡ R.pending q ++ (bytes ∷ []))
                × (archive_format_fn T bytes ≡ (
                    format_timestamp ts >>= λ timestamp. some (
                      timestamp
                      ++ (codes " ["
                          ++ (write_label tag ++ (codes "] " ++ (payload ++ (b'\n' ∷ []))))))))))
  unfolding write commit_filled record_size
  archive_format_fn-write R q tag payload ts small fits idle =
      elim (Option-cases (R.try_claim q (8 + size_of + 4 + length payload))) [
        | inl e ↦ (q, rw e, inl (e, refl))
        | inr ((region, q₁), e) ↦
            let size = R.claim_length q q₁ _ region e in
            (
              R.commit q₁ (archived tag payload ts),
              rw (e, fill-eq tag payload ts region small size),
              inr (
                archived tag payload ts,
                R.commit-pending q q₁ _ region (archived tag payload ts) idle e
                    (length-archived tag payload ts),
                archive_format_fn-eq tag payload ts small fits,
              ),
            )
      ]
