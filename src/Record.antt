-- ===== src/Record.antt =====
-- inqjet/src/record.rs: the 24-byte header of a record in the ring buffer, and the standard payload
-- behind it. A byte is a number below 256; text is its UTF-8 bytes; a panic is `none`.
pub mod Header
pub mod Payload
use inqjet.Common.{
  ℕ, ◌+◌, ◌%◌, ◌^◌, Option, some, [], ◌∷◌, ◌++◌, leb, length, take, drop, ◌>>=◌, ◌>>◌, assert,
}
use inqjet.Common.Bytes.{Bytes, Endian, to_le_bytes, from_le_bytes, to_ne_bytes, from_ne_bytes}
use inqjet.Common.Buffer.{slice, slice_from, copy_at}
use inqjet.Common.Utf8.{from_utf8}

abbrev pub header_size : ℕ
header_size = 24

-- What a format function is called with. `out` is not a field: the function returns what it writes.
pub record FormatContext : Type 0 where
  pub timestamp_ns : ℕ
  pub level : ℕ
  pub payload : Bytes

abbrev pub FormatFn : Type 0
FormatFn = FormatContext → Option Bytes

-- `formatter` is the address of a format function.
pub record RecordHeader : Type 0 where
  pub timestamp_ns : ℕ
  pub formatter : ℕ
  pub level : ℕ
  pub pad : Bytes

-- The `repr(C)` layout: two words of eight bytes, the level, and seven bytes of padding.
abbrev pub header_bytes : Endian → RecordHeader → Bytes
header_bytes e h =
    to_ne_bytes e 8 h.timestamp_ns ++ (to_ne_bytes e 8 h.formatter ++ (h.level ∷ h.pad))

abbrev pub level_byte : Bytes → ℕ
level_byte [] = 0
level_byte (b ∷ bs) = b

abbrev pub header_of_bytes : Endian → Bytes → RecordHeader
header_of_bytes e bs = record {
  timestamp_ns = from_ne_bytes e (take 8 bs);
  formatter = from_ne_bytes e (take 8 (drop 8 bs));
  level = level_byte (drop 16 bs);
  pad = take 7 (drop 17 bs);
}

-- The copy itself is not checked; the assertion above it is.
unfoldable pub write_header : Endian → Bytes → RecordHeader → Option Bytes
write_header e buf h = do
  assert (leb header_size (length buf))
  some (header_bytes e h ++ drop header_size buf)

unfoldable pub read_header : Endian → Bytes → Option RecordHeader
read_header e buf = do
  assert (leb header_size (length buf))
  some (header_of_bytes e (take header_size buf))

unfoldable pub standard_record_size : ℕ → ℕ → ℕ
standard_record_size target_len message_len = header_size + 4 + 2 + target_len + message_len

-- The buffer after the writes, and the number of bytes written.
unfoldable pub write_standard_payload : Bytes → ℕ → Bytes → Bytes → Option (Bytes × ℕ)
write_standard_payload buf line tb mb = do
  assert (leb (length tb) 65535)
  let tl = length tb % 2 ^ 16
  buf ← copy_at buf 0 (to_le_bytes 4 line)
  buf ← copy_at buf 4 (to_le_bytes 2 tl)
  buf ← copy_at buf 6 tb
  let msg_start = 6 + length tb
  buf ← copy_at buf msg_start mb
  some (buf, msg_start + length mb)

unfoldable pub read_standard_payload : Bytes → Option (ℕ × Bytes × Bytes)
read_standard_payload payload = do
  line ← slice payload 0 4
  tl ← slice payload 4 2
  target_bytes ← slice payload 6 (from_le_bytes tl)
  target ← from_utf8 target_bytes
  message_bytes ← slice_from payload (6 + from_le_bytes tl)
  message ← from_utf8 message_bytes
  some (from_le_bytes line, target, message)
