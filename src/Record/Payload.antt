-- ===== src/Record/Payload.antt =====
-- The standard payload: what is written is read back, and when the write panics.
use native.Mathlib.Nat.{mod-eq_of_lt}
use native.Mathlib.Decide.{dec_le}
use inqjet.Common.{
  ℕ, ◌+◌, ◌%◌, ◌^◌, ◌≤◌, ◌<◌, ◌≡◌, refl, sym, ap, ◌∙◌, ◌↔◌, ◌⊎◌, inl, inr, none, some, [], ◌++◌,
  append_assoc, arith, leb, leb→le, le→leb, Option-cases, length, take, drop, length-append,
  take-append_at, drop-append_at, assert, >>=-eq-some, assert-eq-some, some-none,
}
use inqjet.Common.Bytes.{Bytes, to_le_bytes, from_le_bytes, from_le_bytes-to_le_bytes}
use inqjet.Common.Buffer.{
  slice, slice_from, copy_at, slice-append, slice_from-append, copy_at-next, copy_at_bounds,
}
use inqjet.Common.Utf8.{IsText, from_utf8-IsText}
use inqjet.Record.{header_size, standard_record_size, write_standard_payload, read_standard_payload}

-- Line number, length of the target, target, message.
abbrev pub payload_bytes : ℕ → Bytes → Bytes → Bytes
payload_bytes line target message =
    to_le_bytes 4 line ++ (to_le_bytes 2 (length target) ++ (target ++ message))

pub length-payload_bytes :
    (line : ℕ) (target message : Bytes)
    → length (payload_bytes line target message) ≡ 6 + length target + length message
length-payload_bytes line target message = omega (arith, length-append target message)

-- The write succeeds with the payload in front, and what was behind it in the buffer unchanged.
pub write_standard_payload-eq :
    (buf : Bytes) (line : ℕ) (target message : Bytes)
    → length target ≤ 65535
    → 6 + length target + length message ≤ length buf
    → write_standard_payload buf line target message
      ≡ some (
        payload_bytes line target message ++ drop (6 + length target + length message) buf,
        6 + length target + length message,
      )
unfolding write_standard_payload
write_standard_payload-eq buf line target message short room =
    rw
      (
        le→leb _ _ short,
        mod-eq_of_lt {n = length target} {m = 2 ^ 16} (omega arith),
        step₁,
        step₂,
        step₃,
        step₄,
      )
      (ap
        (λ bs.
          some (
            bs ++ drop (6 + length target + length message) buf,
            6 + length target + length message,
          ))
        (append_assoc head target message))
  where
    line_bytes : Bytes
    line_bytes = to_le_bytes 4 line

    head : Bytes
    head = line_bytes ++ to_le_bytes 2 (length target)

    step₁ : copy_at buf 0 line_bytes ≡ some (line_bytes ++ drop 4 buf)
    step₁ = copy_at-next [] line_bytes buf 0 refl (omega arith)

    step₂ :
        copy_at (line_bytes ++ drop 4 buf) 4 (to_le_bytes 2 (length target))
        ≡ some (head ++ drop 6 buf)
    step₂ = copy_at-next line_bytes (to_le_bytes 2 (length target)) buf 4 refl (omega arith)

    step₃ :
        copy_at (head ++ drop 6 buf) 6 target
        ≡ some ((head ++ target) ++ drop (6 + length target) buf)
    step₃ = copy_at-next head target buf 6 refl (omega arith)

    step₄ :
        copy_at ((head ++ target) ++ drop (6 + length target) buf) (6 + length target) message
        ≡ some (((head ++ target) ++ message) ++ drop (6 + length target + length message) buf)
    step₄ =
        copy_at-next (head ++ target) message buf (6 + length target)
          (rw length-append (omega arith)) (omega arith)

pub read_standard_payload-eq :
    (line : ℕ) (target message : Bytes)
    → line < 2 ^ 32
    → length target ≤ 65535
    → IsText target
    → IsText message
    → read_standard_payload (payload_bytes line target message) ≡ some (line, target, message)
unfolding read_standard_payload
read_standard_payload-eq line target message hl ht ut um = rw (
  le→leb _ _ fits₄,
  le→leb _ _ fits₆,
  line_is,
  len_is,
  target_is,
  from_utf8-IsText target ut,
  rest_is,
  from_utf8-IsText message um,
)
  where
    payload : Bytes
    payload = payload_bytes line target message

    head : Bytes
    head = to_le_bytes 4 line ++ to_le_bytes 2 (length target)

    fits₄ : 4 ≤ length payload
    fits₄ = rw length-payload_bytes (omega arith)

    fits₆ : 6 ≤ length payload
    fits₆ = rw length-payload_bytes (omega arith)

    line_is : from_le_bytes (to_le_bytes 4 line) ≡ line
    line_is = from_le_bytes-to_le_bytes 4 line hl

    len_is : from_le_bytes (to_le_bytes 2 (length target)) ≡ length target
    len_is = from_le_bytes-to_le_bytes 2 (length target) (omega arith)

    target_is : slice payload 6 (length target) ≡ some target
    target_is = slice-append head target message 6 (length target) refl refl

    rest_is : slice_from payload (6 + length target) ≡ some message
    rest_is = rw (append_assoc head target message) at (
        slice_from-append (head ++ target) message (6 + length target)
          (rw length-append (omega arith)))

-- A payload written at the front of a buffer that has room for it is read back from the bytes
-- written, for any line number and any target of at most 65535 bytes; the count returned is the
-- payload's size, and the rest of the buffer is as it was.
pub read_standard_payload-write_standard_payload :
    (buf : Bytes) (line : ℕ) (target message : Bytes)
    → line < 2 ^ 32
    → length target ≤ 65535
    → IsText target
    → IsText message
    → standard_record_size (length target) (length message) ≤ header_size + length buf
    → (out : Bytes) × (n : ℕ) × (write_standard_payload buf line target message ≡ some (out, n))
      × (header_size + n ≡ standard_record_size (length target) (length message))
      × (read_standard_payload (take n out) ≡ some (line, target, message))
      × (drop n out ≡ drop n buf)
unfolding standard_record_size
read_standard_payload-write_standard_payload buf line target message hl ht ut um room = (
  payload ++ drop n buf,
  n,
  write_standard_payload-eq buf line target message ht (omega arith),
  omega arith,
  rw (take-append_at n payload (drop n buf) (sym size))
      (read_standard_payload-eq line target message hl ht ut um),
  drop-append_at n payload (drop n buf) (sym size),
)
  where
    n : ℕ
    n = 6 + length target + length message

    payload : Bytes
    payload = payload_bytes line target message

    size : length payload ≡ n
    size = length-payload_bytes line target message

write_standard_payload_bounds :
    (buf : Bytes) (line : ℕ) (target message : Bytes) {r : Bytes × ℕ}
    → write_standard_payload buf line target message ≡ some r
    → (length target ≤ 65535) × (6 + length target + length message ≤ length buf)
unfolding write_standard_payload
write_standard_payload_bounds buf line target message h =
    let (_, short, h₁) = >>=-eq-some (assert (leb (length target) 65535)) _ h in
    let (b₁, w₁, h₂) = >>=-eq-some (copy_at buf 0 (to_le_bytes 4 line)) _ h₁ in
    let (b₂, w₂, h₃) = >>=-eq-some (copy_at b₁ 4 (to_le_bytes 2 (length target % 2 ^ 16))) _ h₂ in
    let (b₃, w₃, h₄) = >>=-eq-some (copy_at b₂ 6 target) _ h₃ in
    let (b₄, w₄, _) = >>=-eq-some (copy_at b₃ (6 + length target) message) _ h₄ in
    let e₁ = copy_at_bounds buf (to_le_bytes 4 line) 0 w₁ in
    let e₂ = copy_at_bounds b₁ (to_le_bytes 2 (length target % 2 ^ 16)) 4 w₂ in
    let e₃ = copy_at_bounds b₂ target 6 w₃ in
    let e₄ = copy_at_bounds b₃ message (6 + length target) w₄ in
    (leb→le _ _ (assert-eq-some _ short), omega arith)

-- The write panics exactly when the target is longer than 65535 bytes or the buffer is too small.
pub write_standard_payload_panics :
    (buf : Bytes) (line : ℕ) (target message : Bytes)
    → (write_standard_payload buf line target message ≡ none)
      ↔ ((65535 < length target) ⊎ (length buf < 6 + length target + length message))
write_standard_payload_panics buf line target message = (too_big, fails)
  where
    too_big :
        write_standard_payload buf line target message ≡ none
        → (65535 < length target) ⊎ (length buf < 6 + length target + length message)
    too_big e = elim (dec_le (length target) 65535) [
      | yes t ↦ elim (dec_le (6 + length target + length message) (length buf)) [
        | yes r ↦
            absurd (some-none (sym (write_standard_payload-eq buf line target message t r) ∙ e))
        | no r ↦ inr (omega arith)
      ]
      | no t ↦ inl (omega arith)
    ]

    fails :
        (65535 < length target) ⊎ (length buf < 6 + length target + length message)
        → write_standard_payload buf line target message ≡ none
    fails h = elim (Option-cases (write_standard_payload buf line target message)) [
      | inl e ↦ e
      | inr (r, e) ↦ absurd (omega (arith, write_standard_payload_bounds buf line target message e))
    ]
