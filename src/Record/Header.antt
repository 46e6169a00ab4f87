-- ===== src/Record/Header.antt =====
-- The header is read back as it was written.
use inqjet.Common.{
  ◌^◌, ◌≤◌, ◌<◌, ◌≡◌, sym, none, some, ◌∷◌, ◌++◌, arith, le→leb, lt→leb, length, take, drop,
  length-append, length-drop, drop-drop, drop-append_at, take-append_at, take-all,
}
use inqjet.Common.Bytes.{
  Bytes, IsByte, Endian, to_ne_bytes, from_ne_bytes, length-to_ne_bytes, from_ne_bytes-to_ne_bytes,
}
use inqjet.Record.{
  RecordHeader, header_size, header_bytes, header_of_bytes, write_header, read_header, level_byte,
}

-- What fits the fields of the struct.
pub record IsHeader (h : RecordHeader) : Type 0 where
  pub timestamp_fits : h.timestamp_ns < 2 ^ 64
  pub formatter_fits : h.formatter < 2 ^ 64
  pub level_fits : IsByte h.level
  pub pad_size : length h.pad ≡ 7

pub length-header_bytes :
    (e : Endian) (h : RecordHeader) → length h.pad ≡ 7 → length (header_bytes e h) ≡ 24
length-header_bytes e h p =
    rw (length-append, length-append)
      (omega (arith, length-to_ne_bytes e 8 h.timestamp_ns, length-to_ne_bytes e 8 h.formatter))

-- The two words and what follows them.
module _ (a b rest : Bytes) (ha : length a ≡ 8) (hb : length b ≡ 8) where
  first_word : take 8 (a ++ (b ++ rest)) ≡ a
  first_word = take-append_at 8 a (b ++ rest) (sym ha)

  second_word : take 8 (drop 8 (a ++ (b ++ rest))) ≡ b
  second_word = rw (drop-append_at 8 a (b ++ rest) (sym ha)) (take-append_at 8 b rest (sym hb))

  behind_words : drop 16 (a ++ (b ++ rest)) ≡ rest
  behind_words =
      rw (← drop-drop 8 8 (a ++ (b ++ rest)), drop-append_at 8 a (b ++ rest) (sym ha))
        (drop-append_at 8 b rest (sym hb))

header_of_bytes-header_bytes :
    (e : Endian) (h : RecordHeader) → IsHeader h → header_of_bytes e (header_bytes e h) ≡ h
header_of_bytes-header_bytes e h v = λ i. record {
  timestamp_ns = time_is i;
  formatter = formatter_is i;
  level = level_is i;
  pad = pad_is i;
}
  where
    a : Bytes
    a = to_ne_bytes e 8 h.timestamp_ns

    b : Bytes
    b = to_ne_bytes e 8 h.formatter

    rest : Bytes
    rest = h.level ∷ h.pad

    time_is : from_ne_bytes e (take 8 (a ++ (b ++ rest))) ≡ h.timestamp_ns
    time_is =
        rw (first_word a b rest (length-to_ne_bytes e 8 _) (length-to_ne_bytes e 8 _))
          (from_ne_bytes-to_ne_bytes e 8 _ v.timestamp_fits)

    formatter_is : from_ne_bytes e (take 8 (drop 8 (a ++ (b ++ rest)))) ≡ h.formatter
    formatter_is =
        rw (second_word a b rest (length-to_ne_bytes e 8 _) (length-to_ne_bytes e 8 _))
          (from_ne_bytes-to_ne_bytes e 8 _ v.formatter_fits)

    behind : drop 16 (a ++ (b ++ rest)) ≡ rest
    behind = behind_words a b rest (length-to_ne_bytes e 8 _) (length-to_ne_bytes e 8 _)

    level_is : level_byte (drop 16 (a ++ (b ++ rest))) ≡ h.level
    level_is = rw behind

    pad_is : take 7 (drop 17 (a ++ (b ++ rest))) ≡ h.pad
    pad_is = rw (← drop-drop 1 16 (a ++ (b ++ rest)), behind) (take-all 7 h.pad (sym v.pad_size))

-- The bytes of a header, with a payload behind them, are read as that header.
pub read_header-header_bytes :
    (e : Endian) (h : RecordHeader) (rest : Bytes)
    → IsHeader h
    → (read_header e (header_bytes e h ++ rest) ≡ some h)
      × (drop header_size (header_bytes e h ++ rest) ≡ rest)
unfolding read_header
read_header-header_bytes e h rest v = (
  rw (
    le→leb _ _ fits,
    take-append_at 24 (header_bytes e h) rest (sym size),
    header_of_bytes-header_bytes e h v,
  ),
  drop-append_at 24 (header_bytes e h) rest (sym size),
)
  where
    size : length (header_bytes e h) ≡ 24
    size = length-header_bytes e h v.pad_size

    fits : header_size ≤ length (header_bytes e h ++ rest)
    fits = rw length-append (omega (arith, size))

-- A header that fits its fields is read back as it was written, in either order of bytes, from any
-- buffer that holds at least 24 bytes; the bytes behind the header are left alone.
pub read_header-write_header :
    (e : Endian) (h : RecordHeader) (buf : Bytes)
    → IsHeader h
    → header_size ≤ length buf
    → (out : Bytes) × (write_header e buf h ≡ some out)
      × (read_header e out ≡ some h)
      × (drop header_size out ≡ drop header_size buf)
      × (length out ≡ length buf)
unfolding write_header
read_header-write_header e h buf v room =
    let (read, behind) = read_header-header_bytes e h (drop 24 buf) v in
    (
      header_bytes e h ++ drop 24 buf,
      rw (le→leb _ _ room),
      read,
      behind,
      rw (length-append) (omega (arith, length-header_bytes e h v.pad_size, length-drop 24 buf)),
    )

-- A buffer below 24 bytes makes both functions panic.
pub header_too_short :
    (e : Endian) (h : RecordHeader) (buf : Bytes)
    → length buf < header_size
    → (write_header e buf h ≡ none) × (read_header e buf ≡ none)
unfolding write_header read_header
header_too_short e h buf short = (rw (lt→leb _ _ short), rw (lt→leb _ _ short))
