-- ===== src/Archive.antt =====
-- inqjet/src/archive.rs: records that carry a tag and bytes, each stream in a ring buffer of its own.
pub mod Line
use inqjet.Common.{ℕ, ◌+◌, ◌%◌, ◌^◌, ◌≡◌, Option, none, some, [], ◌∷◌, ◌++◌, length, ◌>>=◌}
use inqjet.Common.Bytes.{Bytes, codes, to_le_bytes, from_le_bytes}
use inqjet.Common.Buffer.{slice, copy_at}
use inqjet.Format.{format_timestamp}
use inqjet.Logbuf.{Logbuf}

-- A `Copy` type with its label: its values lie in memory as `size_of` bytes, and copying these bytes
-- gives the value again.
pub record ArchiveTag : Type 1 where
  pub Tag : Type 0
  pub size_of : ℕ
  pub to_memory : Tag → Bytes
  pub from_memory : Bytes → Tag
  pub write_label : Tag → Bytes
  pub memory_size : (t : Tag) → length (to_memory t) ≡ size_of
  pub copied : (t : Tag) → from_memory (to_memory t) ≡ t

module _ (T : ArchiveTag) where
  open T use {Tag, size_of, to_memory, from_memory, write_label}

  unfoldable pub record_size : Bytes → ℕ
  record_size payload = 8 + size_of + 4 + length payload

  -- The writes into the claimed region. Copying a tag of no bytes changes nothing.
  unfoldable pub fill : Tag → Bytes → ℕ → Bytes → Option Bytes
  fill tag payload ts buf = do
    buf ← copy_at buf 0 (to_le_bytes 8 ts)
    buf ← copy_at buf 8 (to_memory tag)
    buf ← copy_at buf (8 + size_of) (to_le_bytes 4 (length payload % 2 ^ 32))
    copy_at buf (8 + size_of + 4) payload

  unfoldable pub archive_format_fn : Bytes → Option Bytes
  archive_format_fn archived = do
    ts ← slice archived 0 8
    memory ← slice archived 8 size_of
    plen ← slice archived (8 + size_of) 4
    payload ← slice archived (8 + size_of + 4) (from_le_bytes plen)
    timestamp ← format_timestamp (from_le_bytes ts)
    some (
        timestamp
        ++ (codes " ["
            ++ (write_label (from_memory memory) ++ (codes "] " ++ (payload ++ (b'\n' ∷ []))))))

  module _ (R : Logbuf) where
    open R use {Queue, try_claim, commit}

    -- What comes of an answer to the claim.
    commit_filled : Queue → (Bytes → Option Bytes) → Option (Bytes × Queue) → Option Queue
    commit_filled queue fill_region none = some queue
    commit_filled queue fill_region (some (region, claimed)) = do
      bytes ← fill_region region
      some (commit claimed bytes)

    -- The queue as another producer left it goes in; a refused claim leaves it so. `none` is a panic.
    unfoldable pub write : Queue → Tag → Bytes → (now : ℕ) → Option Queue
    unfolding record_size fill commit_filled
    write queue tag payload now =
        commit_filled queue (fill tag payload now) (try_claim queue (record_size payload))
