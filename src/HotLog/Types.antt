-- ===== src/HotLog/Types.antt =====
-- What decoding gives has the types that the call site's witnesses carry, whatever the payload is.
use inqjet.Common.{ℕ, ◌+◌, ◌≤◌, ◌≡◌, List, [], ◌∷◌, length}
use inqjet.Common.Bytes.{Bytes}
use inqjet.Common.Utf8.{IsText}
use inqjet.Pod.{Witness, pod, string, pre_formatted, Decoded}

-- A value of a `Pod` type is as many bytes as the type has, and a text is UTF-8.
abbrev pub HasType : Witness → Decoded → Type 0
HasType (pod ty size) (Decoded.pod ty' memory) = (ty' ≡ ty) × (length memory ≡ size)
HasType string (Decoded.string bytes) = IsText bytes
HasType pre_formatted (Decoded.pre_formatted bytes) = IsText bytes
HasType _ _ = ⊥

abbrev pub HaveTypes : List Witness → List Decoded → Type 0
HaveTypes [] [] = Unit
HaveTypes (w ∷ ws) (d ∷ ds) = HasType w d × HaveTypes ws ds
HaveTypes _ _ = ⊥

-- The bytes that a value is decoded from.
abbrev pub taken : Decoded → ℕ
taken (Decoded.pod ty memory) = length memory
taken (Decoded.string bytes) = 4 + length bytes
taken (Decoded.pre_formatted bytes) = 4 + length bytes

abbrev pub all_taken : List Decoded → ℕ
all_taken [] = 0
all_taken (d ∷ ds) = taken d + all_taken ds

record Decodes (w : Witness) (buf : Bytes) (d : Decoded) (n : ℕ) : Type 0 where
  typed : HasType w d
  size : taken d ≡ n
  fits : n ≤ length buf
