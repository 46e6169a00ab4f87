-- ===== src/HotLog/Prefix.antt =====
-- The payload's prefix, written by the producer and read by the consumer.
use inqjet.Common.{ℕ, ◌+◌, ◌^◌, ◌≤◌, ◌<◌, ◌≡◌, refl, some, [], ◌++◌, arith, le→leb, length, drop}
use inqjet.Common.Bytes.{Bytes, to_le_bytes, from_le_bytes-to_le_bytes}
use inqjet.Common.Buffer.{slice, copy_at, copy_at-next, slice-append}
use inqjet.Common.Utf8.{IsText, from_utf8-IsText}
use inqjet.HotLog.{prefix_encode, prefix_decode}
use native.Mathlib.Nat.{mod-eq_of_lt}

-- The consumer's two readings of the payload's front.
module _ (line : ℕ) (target : Bytes) where
  pub head : Bytes
  head = to_le_bytes 4 line ++ to_le_bytes 2 (length target)

  pub front_length : 6 + length target ≡ length (head ++ target)
  unfolding head
  front_length = omega arith

module _ (line : ℕ) (target : Bytes) (hl : line < 2 ^ 32) (ht : length target < 2 ^ 16)
    (ut : IsText target) where
  pub prefix_decode-eq :
      (rest : Bytes)
      → prefix_decode ((head line target ++ target) ++ rest) ≡ some (line, length target, target)
  unfolding prefix_decode head
  prefix_decode-eq rest = rw (
    le→leb 4 (length ((head line target ++ target) ++ rest)) (omega arith),
    le→leb 6 (length ((head line target ++ target) ++ rest)) (omega arith),
    from_le_bytes-to_le_bytes 4 line hl,
    from_le_bytes-to_le_bytes 2 (length target) (omega arith),
    target_is,
    from_utf8-IsText target ut,
  )
    where
      target_is : slice ((head line target ++ target) ++ rest) 6 (length target) ≡ some target
      target_is = slice-append (head line target) target rest 6 (length target) refl refl

  pub prefix_encode-eq :
      (buf : Bytes)
      → 6 + length target ≤ length buf
      → prefix_encode line target buf
        ≡ some ((head line target ++ target) ++ drop (6 + length target) buf)
  unfolding prefix_encode head
  prefix_encode-eq buf room =
      rw (mod-eq_of_lt {n = length target} {m = 2 ^ 16} ht, step₁, step₂) step₃
    where
      line_bytes : Bytes
      line_bytes = to_le_bytes 4 line

      step₁ : copy_at buf 0 line_bytes ≡ some (line_bytes ++ drop 4 buf)
      step₁ = copy_at-next [] line_bytes buf 0 refl (omega arith)

      step₂ :
          copy_at (line_bytes ++ drop 4 buf) 4 (to_le_bytes 2 (length target))
          ≡ some (head line target ++ drop 6 buf)
      step₂ = copy_at-next line_bytes (to_le_bytes 2 (length target)) buf 4 refl (omega arith)

      step₃ :
          copy_at (head line target ++ drop 6 buf) 6 target
          ≡ some ((head line target ++ target) ++ drop (6 + length target) buf)
      step₃ = copy_at-next (head line target) target buf 6 refl room
