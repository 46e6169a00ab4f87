-- ===== src/Pod/RoundTrip.antt =====
-- One argument: the bytes that are written are of the size announced, and decode to its value.
use inqjet.Common.{
  ℕ, suc, ◌+◌, ◌^◌, ◌≤◌, ◌<◌, ◌≡◌, refl, some, List, [], ◌∷◌, ◌++◌, append-nil, append_assoc, arith,
  le→leb, length, drop, length-append,
}
use native.Mathlib.Nat.{mod-eq_of_lt, zero-add}
use native.Mathlib.Numerals.{add-one}
use inqjet.Common.Bytes.{Bytes, to_le_bytes, from_le_bytes-to_le_bytes}
use inqjet.Common.Buffer.{copy_at, slice-append, copy_at-next}
use inqjet.Common.Utf8.{IsText, from_utf8-IsText}
use inqjet.Pod.{
  Arg, pod, str, string, other, Stash, hot_size_str, hot_size_with, hot_encode_str, hot_encode,
  hot_witness, Decoded, pod_from_bytes, bytes_from_buf, hot_decode,
}
use inqjet.Pod.Fallback.{Holds, hot_size_fallback-Holds, fallback_stash_encode-Holds}

abbrev pub prefixed : Bytes → Bytes
prefixed t = to_le_bytes 4 (length t) ++ t

-- The bytes of an argument in the payload; `text` is what the macro's closure formats.
abbrev pub encoded : Arg → Bytes → Bytes
encoded (pod ty memory) text = memory
encoded (str bytes) text = prefixed bytes
encoded (string bytes) text = prefixed bytes
encoded (other value) text = prefixed text

-- What the argument puts into the stash.
abbrev pub stashed : Arg → Bytes → List Bytes
stashed (other value) text = text ∷ []
stashed _ text = []

abbrev pub decoded : Arg → Bytes → Decoded
decoded (pod ty memory) text = Decoded.pod ty memory
decoded (str bytes) text = Decoded.string bytes
decoded (string bytes) text = Decoded.string bytes
decoded (other value) text = Decoded.pre_formatted text

-- A text whose length fits the `u32` in front of it.
abbrev pub IsShort : Bytes → Type 0
IsShort t = IsText t × (length t < 2 ^ 32)

-- The texts that the argument brings are short.
abbrev pub IsArg : Arg → Bytes → Type 0
IsArg (pod ty memory) text = Unit
IsArg (str bytes) text = IsShort bytes
IsArg (string bytes) text = IsShort bytes
IsArg (other value) text = IsShort text

-- The length of a text behind its prefix, as it computes.
four : (n : ℕ) → suc (suc (suc (suc n))) ≡ 4 + n
four n = omega arith

pub hot_size_with-Holds :
    (a : Arg) (text : Bytes) (texts : List Bytes) (s : Stash)
    → Holds texts 0 s
    → (s' : Stash) × (hot_size_with a (λ b. b ++ text) s ≡ some (length (encoded a text), s'))
      × Holds (texts ++ stashed a text) 0 s'
unfolding hot_size_with hot_size_str
hot_size_with-Holds (pod ty memory) text texts s h = (s, refl, rw append-nil h)
hot_size_with-Holds (str bytes) text texts s h = (s, rw (four (length bytes)), rw append-nil h)
hot_size_with-Holds (string bytes) text texts s h = (s, rw (four (length bytes)), rw append-nil h)
hot_size_with-Holds (other value) text texts s h =
    let (s', e, h', _) = hot_size_fallback-Holds texts 0 s text h in
    (s', rw (four (length text)) e, h')

hot_encode_str-eq :
    (bytes buf : Bytes)
    → length bytes < 2 ^ 32
    → 4 + length bytes ≤ length buf
    → hot_encode_str bytes buf ≡ some (prefixed bytes ++ drop (4 + length bytes) buf)
unfolding hot_encode_str
hot_encode_str-eq bytes buf small room = rw (mod-eq_of_lt small, step₁) step₂
  where
    len_bytes : Bytes
    len_bytes = to_le_bytes 4 (length bytes)

    step₁ : copy_at buf 0 len_bytes ≡ some (len_bytes ++ drop 4 buf)
    step₁ = copy_at-next [] len_bytes buf 0 refl (omega arith)

    step₂ :
        copy_at (len_bytes ++ drop 4 buf) 4 bytes
        ≡ some (prefixed bytes ++ drop (4 + length bytes) buf)
    step₂ = copy_at-next len_bytes bytes buf 4 refl room

-- `done` are the texts encoded so far, `rest` those to come.
pub hot_encode-Holds :
    (a : Arg) (text : Bytes) (done rest : List Bytes) (s : Stash) (buf : Bytes)
    → IsArg a text
    → Holds (done ++ (stashed a text ++ rest)) (length done) s
    → length (encoded a text) ≤ length buf
    → (s' : Stash) × (hot_encode a buf s
        ≡ some (encoded a text ++ drop (length (encoded a text)) buf, s'))
      × Holds ((done ++ stashed a text) ++ rest) (length (done ++ stashed a text)) s'
unfolding hot_encode
hot_encode-Holds (pod ty memory) text done rest s buf v h room =
    (s, rw (copy_at-next [] memory buf 0 refl (omega arith), zero-add), rw append-nil h)
hot_encode-Holds (str bytes) text done rest s buf v h room =
    (s, rw (hot_encode_str-eq bytes buf v.1 (omega arith), ← four (length bytes)), rw append-nil h)
hot_encode-Holds (string bytes) text done rest s buf v h room =
    (s, rw (hot_encode_str-eq bytes buf v.1 (omega arith), ← four (length bytes)), rw append-nil h)
hot_encode-Holds (other value) text done rest s buf v h room =
    let (s', e, h') = fallback_stash_encode-Holds done text rest s buf h v.1 (omega arith) in
    (s', rw (← four (length text)) at e, rw (append_assoc, length-append) (rw (add-one) h'))

bytes_from_buf-prefixed :
    (t rest : Bytes) → IsShort t → bytes_from_buf (prefixed t ++ rest) ≡ some (t, 4 + length t)
unfolding bytes_from_buf
bytes_from_buf-prefixed t rest (text, small) = rw (
  le→leb 4 (length (prefixed t ++ rest)) (omega arith),
  from_le_bytes-to_le_bytes 4 (length t) small,
  slice-append (to_le_bytes 4 (length t)) t rest 4 (length t) refl refl,
  from_utf8-IsText t text,
)

pod_from_bytes-append :
    (memory rest : Bytes) → pod_from_bytes (length memory) (memory ++ rest) ≡ some memory
unfolding pod_from_bytes
pod_from_bytes-append memory rest = slice-append [] memory rest 0 (length memory) refl refl

-- An argument's bytes, whatever follows them, decode to its value and to the number of bytes taken.
pub hot_decode-encoded :
    (a : Arg) (text rest : Bytes)
    → IsArg a text
    → hot_decode (hot_witness a) (encoded a text ++ rest)
      ≡ some (decoded a text, length (encoded a text))
unfolding hot_decode hot_witness
hot_decode-encoded (pod ty memory) text rest v = rw (pod_from_bytes-append memory rest)
hot_decode-encoded (str bytes) text rest v =
    rw (bytes_from_buf-prefixed bytes rest v, four (length bytes))
hot_decode-encoded (string bytes) text rest v =
    rw (bytes_from_buf-prefixed bytes rest v, four (length bytes))
hot_decode-encoded (other value) text rest v =
    rw (bytes_from_buf-prefixed text rest v, four (length text))
