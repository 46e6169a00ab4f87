-- ===== src/Logbuf.antt =====
-- The ring buffer that the program takes from the `nexus_logbuf` crate, as an interface: what the
-- program calls, and what it relies on. The interface hides the bytes of the ring.
pub mod Mpsc
use inqjet.Common.{ℕ, ◌≡◌, Option, none, some, List, [], ◌∷◌, ◌++◌, length}
use inqjet.Common.Bytes.{Bytes}

-- `pending` is the list of the records that can be received, the oldest first: those that are
-- committed and have no open claim in front of them. A claim is refused where there is no room; it
-- gives a region of the size asked for, and the queue with that claim open. `IsIdle` says that no
-- claim is open; committing the only open claim makes the region's bytes the newest record.
pub record Logbuf : Type 1 where
  pub Queue : Type 0
  pub create : (capacity : ℕ) → Queue
  pub try_claim : Queue → ℕ → Option (Bytes × Queue)
  pub commit : Queue → Bytes → Queue
  pub receive : Queue → Option (Bytes × Queue)
  pub pending : Queue → List Bytes
  pub IsIdle : Queue → Type 0
  pub create-pending : (capacity : ℕ) → pending (create capacity) ≡ []
  pub create-IsIdle : (capacity : ℕ) → IsIdle (create capacity)
  pub claim_length :
      (q q' : Queue) (n : ℕ) (region : Bytes)
      → try_claim q n ≡ some (region, q')
      → length region ≡ n
  pub commit-pending :
      (q q' : Queue) (n : ℕ) (region bytes : Bytes)
      → IsIdle q
      → try_claim q n ≡ some (region, q')
      → length bytes ≡ n
      → pending (commit q' bytes) ≡ pending q ++ (bytes ∷ [])
  pub receive-none : (q : Queue) → receive q ≡ none → pending q ≡ []
  pub receive-some :
      (q q' : Queue) (bytes : Bytes) → receive q ≡ some (bytes, q') → pending q ≡ bytes ∷ pending q'
