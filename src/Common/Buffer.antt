-- ===== src/Common/Buffer.antt =====
-- Reads and writes of a byte slice, as Rust does them: out of bounds is a panic, `none`.
use mathlib.Core.Path.{subst}
use native.Mathlib.Nat.{add-sub_cancel_left}
use inqjet.Common.{
  ℕ, ◌+◌, ◌≤◌, ◌≡◌, Option, none, some, ◌++◌, arith, leb, le→leb, if◌then◌else◌, length, take, drop,
  length-append, take-append, drop-append, take-length, drop-length, drop-drop, length-drop,
  append_assoc, length-take, Bool-cases, inl, leb→le, inr, some_inj, some-none, sym, ◌&&◌, ◌-◌,
}
use inqjet.Common.{◌>>=◌}
use inqjet.Common.Bytes.{Bytes}

-- `&buf[lo..]`
abbrev pub slice_from : Bytes → ℕ → Option Bytes
slice_from buf lo = if leb lo (length buf) then some (drop lo buf) else none

-- `&buf[lo..lo + n]`
abbrev pub slice : Bytes → ℕ → ℕ → Option Bytes
slice buf lo n = if leb (lo + n) (length buf) then some (take n (drop lo buf)) else none

-- `&buf[lo..hi]`
abbrev pub slice_range : Bytes → ℕ → ℕ → Option Bytes
slice_range buf lo hi =
    if leb lo hi && leb hi (length buf) then some (take (hi - lo) (drop lo buf)) else none

-- `buf[lo..lo + bytes.len()].copy_from_slice(bytes)`
abbrev pub copy_at : Bytes → ℕ → Bytes → Option Bytes
copy_at buf lo bytes =
    if leb (lo + length bytes) (length buf)
    then some (take lo buf ++ (bytes ++ drop (lo + length bytes) buf))
    else none

-- `f(&mut buf[lo..])`
abbrev pub update_from : Bytes → ℕ → (Bytes → Option Bytes) → Option Bytes
update_from buf lo f = do rest ← slice_from buf lo; rest' ← f rest; some (take lo buf ++ rest')

length-le-append : (xs ys : Bytes) → length xs ≤ length (xs ++ ys)
length-le-append xs ys = rw length-append (omega arith)

drop-append_length : (xs ys : Bytes) → drop (length xs) (xs ++ ys) ≡ ys
drop-append_length xs ys = rw (drop-append (length xs) xs ys (omega arith), drop-length xs)

take-append_length : (xs ys : Bytes) → take (length xs) (xs ++ ys) ≡ xs
take-append_length xs ys = rw (take-append (length xs) xs ys (omega arith), take-length xs)

-- The part in front of the cursor stays, `bytes` follow, and what they cover of the rest is gone.
pub copy_at-append :
    (done rest bytes : Bytes) (at : ℕ)
    → at ≡ length done
    → length bytes ≤ length rest
    → copy_at (done ++ rest) at bytes ≡ some (done ++ (bytes ++ drop (length bytes) rest))
copy_at-append done rest bytes at e h = rw (
  e,
  le→leb _ _ fits,
  take-append_length done rest,
  ← drop-drop (length bytes) (length done) (done ++ rest),
  drop-append_length done rest,
)
  where
    fits : length done + length bytes ≤ length (done ++ rest)
    fits = rw length-append (omega arith)

pub slice_from-append :
    (done rest : Bytes) (at : ℕ) → at ≡ length done → slice_from (done ++ rest) at ≡ some rest
slice_from-append done rest at e =
    rw (e, le→leb _ _ (length-le-append done rest), drop-append_length done rest)

pub slice-append :
    (done part rest : Bytes) (at n : ℕ)
    → at ≡ length done
    → n ≡ length part
    → slice (done ++ (part ++ rest)) at n ≡ some part
slice-append done part rest at n e k =
    rw (e, k, le→leb _ _ fits, drop-append_length done (part ++ rest), take-append_length part rest)
  where
    fits : length done + length part ≤ length (done ++ (part ++ rest))
    fits = rw (length-append, length-append) (omega arith)

pub slice_range-append :
    (done part rest : Bytes) (lo hi : ℕ)
    → lo ≡ length done
    → hi ≡ length done + length part
    → slice_range (done ++ (part ++ rest)) lo hi ≡ some part
slice_range-append done part rest lo hi e k = rw (
  e,
  k,
  le→leb (length done) (length done + length part) (omega arith),
  le→leb _ _ fits,
  drop-append_length done (part ++ rest),
  add-sub_cancel_left (length done) (length part),
  take-append_length part rest,
)
  where
    fits : length done + length part ≤ length (done ++ (part ++ rest))
    fits = rw (length-append, length-append) (omega arith)

pub update_from-append :
    (done rest rest' : Bytes) (at : ℕ) (f : Bytes → Option Bytes)
    → at ≡ length done
    → f rest ≡ some rest'
    → update_from (done ++ rest) at f ≡ some (done ++ rest')
update_from-append done rest rest' at f e h =
    rw (slice_from-append done rest at e, h, e, take-append_length done rest)

-- Successive writes into `buf`: `done` has been written so far, and `at` is the cursor behind it.
pub copy_at-next :
    (done bytes buf : Bytes) (at : ℕ)
    → at ≡ length done
    → at + length bytes ≤ length buf
    → copy_at (done ++ drop at buf) at bytes
      ≡ some ((done ++ bytes) ++ drop (at + length bytes) buf)
copy_at-next done bytes buf at e h = rw (
  copy_at-append done (drop at buf) bytes at e (rw length-drop (omega arith)),
  drop-drop,
  append_assoc,
)

-- A write that does not panic was in bounds, and keeps the length of the buffer.
pub copy_at_bounds :
    (buf bytes : Bytes) (at : ℕ) {out : Bytes}
    → copy_at buf at bytes ≡ some out
    → (at + length bytes ≤ length buf) × (length out ≡ length buf)
copy_at_bounds buf bytes at {out} h = elim (Bool-cases (leb (at + length bytes) (length buf))) [
  | inl fits ↦ (leb→le _ _ fits, keeps (leb→le _ _ fits) (rw fits at h))
  | inr over ↦ absurd (some-none (sym (rw over at h)))
]
  where
    keeps :
        at + length bytes ≤ length buf
        → some (take at buf ++ (bytes ++ drop (at + length bytes) buf)) ≡ some out
        → length out ≡ length buf
    keeps le e =
        subst (λ o. length o ≡ length buf) (some_inj e)
          (rw (length-append, length-append)
            (omega (arith, length-take at buf, length-drop (at + length bytes) buf)))
