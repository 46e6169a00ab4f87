-- ===== src/Pod.antt =====
-- inqjet/src/pod.rs: how an argument of a hot-path macro is sized and encoded by the producer, and
-- decoded by the consumer. Which implementation an argument gets is decided by the compiler's method
-- resolution, so it is the constructor of `Arg` here.
pub mod Fallback
pub mod RoundTrip
use inqjet.Common.{
  ℕ, ◌+◌, ◌-◌, ◌%◌, ◌^◌, Bool, true, false, Option, none, some, List, [], ◌∷◌, ◌++◌, leb,
  if◌then◌else◌, length, get_elem?, ◌>>=◌, ◌>>◌, assert,
}
use inqjet.Common.Bytes.{Bytes, to_le_bytes, from_le_bytes}
use inqjet.Common.Buffer.{slice, slice_range, copy_at}
use inqjet.Common.Utf8.{from_utf8}

-- `HotArg<&T>`: a value of a `Pod` type, which a number names, given by its bytes in memory; a
-- `&str`; a `String`; any other value, which a number names.
pub data Arg : Type 0 where
  pod : (ty : ℕ) → (memory : Bytes) → Arg
  str : Bytes → Arg
  string : Bytes → Arg
  other : (value : ℕ) → Arg

-- The four thread-locals of the fallback stash.
pub record Stash : Type 0 where
  pub dirty : Bool
  pub buf : Bytes
  pub offsets : List ℕ
  pub read_idx : ℕ

abbrev pub fresh_stash : Stash
fresh_stash = record { dirty = false; buf = []; offsets = []; read_idx = 0 }

unfoldable pub fallback_stash_clear : Stash → Stash
fallback_stash_clear s =
    if s.dirty then record s { dirty = false; buf = []; offsets = []; read_idx = 0 } else s

unfoldable pub hot_size_str : Bytes → ℕ
hot_size_str bytes = 4 + length bytes

unfoldable pub hot_encode_str : Bytes → Bytes → Option Bytes
hot_encode_str bytes buf = do
  buf ← copy_at buf 0 (to_le_bytes 4 (length bytes % 2 ^ 32))
  copy_at buf 4 bytes

-- `fmt` is the closure, which is given the stash's text to append to. `buf.len() - start` panics
-- where the closure has shortened it.
unfoldable pub hot_size_fallback : (Bytes → Bytes) → Stash → Option (ℕ × Stash)
hot_size_fallback fmt s = do
  let start = length s.buf
  let text = fmt s.buf
  assert (leb start (length text))
  some (
    4 + (length text - start),
    record s { dirty = true; buf = text; offsets = s.offsets ++ (start ∷ []) },
  )

unfoldable pub hot_size_with : Arg → (Bytes → Bytes) → Stash → Option (ℕ × Stash)
unfolding hot_size_str hot_size_fallback
hot_size_with (pod ty memory) fmt s = some (length memory, s)
hot_size_with (str bytes) fmt s = some (hot_size_str bytes, s)
hot_size_with (string bytes) fmt s = some (hot_size_str bytes, s)
hot_size_with (other value) fmt s = hot_size_fallback fmt s

-- `offsets.get(i).copied().unwrap_or(default)`
abbrev pub get_or : List ℕ → ℕ → ℕ → ℕ
get_or xs i default = elim (get_elem? xs i) [ some x ↦ x | none ↦ default ]

-- The index moves on before the offsets are read.
unfoldable pub fallback_stash_encode : Bytes → Stash → Option (Bytes × Stash)
fallback_stash_encode buf s = do
  let i = s.read_idx
  start ← get_elem? s.offsets i
  content ← slice_range s.buf start (get_or s.offsets (i + 1) (length s.buf))
  buf ← copy_at buf 0 (to_le_bytes 4 (length content % 2 ^ 32))
  buf ← copy_at buf 4 content
  some (buf, record s { read_idx = i + 1 })

-- The copy of a `Pod` is not checked: past the end of `buf` its effect is undefined, and there is
-- no result here.
unfoldable pub hot_encode : Arg → Bytes → Stash → Option (Bytes × Stash)
unfolding hot_encode_str fallback_stash_encode
hot_encode (pod ty memory) buf s = do buf ← copy_at buf 0 memory; some (buf, s)
hot_encode (str bytes) buf s = do buf ← hot_encode_str bytes buf; some (buf, s)
hot_encode (string bytes) buf s = do buf ← hot_encode_str bytes buf; some (buf, s)
hot_encode (other value) buf s = fallback_stash_encode buf s

-- `Witness<T>`, with the size of `T` if that is a `Pod`: it carries the type to the consumer.
pub data Witness : Type 0 where
  pod : (ty size : ℕ) → Witness
  string pre_formatted : Witness

unfoldable pub hot_witness : Arg → Witness
hot_witness (pod ty memory) = Witness.pod ty (length memory)
hot_witness (str bytes) = Witness.string
hot_witness (string bytes) = Witness.string
hot_witness (other value) = Witness.pre_formatted

-- `HotDecode::Decoded`
pub data Decoded : Type 0 where
  pod : (ty : ℕ) → (memory : Bytes) → Decoded
  string : Bytes → Decoded
  pre_formatted : Bytes → Decoded

-- The bytes of the value. Too few bytes fail the `debug_assert!`, which is `none` here; without debug
-- assertions they are read past their end, which is undefined.
unfoldable pub pod_from_bytes : ℕ → Bytes → Option Bytes
pod_from_bytes size bytes = slice bytes 0 size

unfoldable pub bytes_from_buf : Bytes → Option (Bytes × ℕ)
bytes_from_buf buf = do
  prefix ← slice buf 0 4
  let len = from_le_bytes prefix
  bytes ← slice buf 4 len
  content ← from_utf8 bytes
  some (content, 4 + len)

unfoldable pub hot_decode : Witness → Bytes → Option (Decoded × ℕ)
unfolding pod_from_bytes bytes_from_buf
hot_decode (Witness.pod ty size) buf = do v ← pod_from_bytes size buf; some (Decoded.pod ty v, size)
hot_decode Witness.string buf = do (s, n) ← bytes_from_buf buf; some (Decoded.string s, n)
hot_decode Witness.pre_formatted buf = do
  (s, n) ← bytes_from_buf buf
  some (Decoded.pre_formatted s, n)
