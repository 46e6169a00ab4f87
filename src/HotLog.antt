-- ===== src/HotLog.antt =====
-- The block that `__hot_log!` expands to (inqjet-macros/src/lib.rs, `generate`): what the producer
-- sizes and encodes, and the format function that the consumer calls.
pub mod Args
pub mod Prefix
pub mod Sizing
pub mod Deferred
pub mod Invariant
pub mod Types
pub mod Block
use inqjet.Common.{
  ℕ, ◌+◌, ◌-◌, ◌%◌, ◌^◌, Bool, Option, some, List, [], ◌∷◌, ◌++◌, length, take, ◌>>=◌, ◌>>◌,
}
use inqjet.Common.Bytes.{Bytes, to_le_bytes, from_le_bytes}
use inqjet.Common.Buffer.{slice, slice_from, copy_at, update_from}
use inqjet.Common.Utf8.{from_utf8}
use inqjet.Record.{FormatContext, FormatFn}
use inqjet.Format.{write_log_prefix}
use inqjet.Pod.{
  Arg, pod, str, string, other, Stash, fallback_stash_clear, hot_size_with, hot_encode, Witness,
  hot_witness, Decoded, hot_decode,
}
use inqjet.Macros.Parse.{Piece, text, hole}

-- What values print under a format spec: `std::fmt` and the program's own `Display` and `Debug`
-- implementations, for `Pod` types, strings and all other values.
pub record Fmt : Type 0 where
  pub fmt_pod : (ty : ℕ) → Bytes → Bytes → Bytes
  pub fmt_str : Bytes → Bytes → Bytes
  pub fmt_other : (value : ℕ) → Bytes → Bytes

module _ (F : Fmt) where
  open F use {fmt_pod, fmt_str, fmt_other}

  -- An argument formatted at once, under the spec between its braces.
  unfoldable pub format_arg : Bytes → Arg → Bytes
  format_arg inner (pod ty memory) = fmt_pod ty inner memory
  format_arg inner (str bytes) = fmt_str inner bytes
  format_arg inner (string bytes) = fmt_str inner bytes
  format_arg inner (other value) = fmt_other value inner

  -- A decoded value; `PreFormattedValue` writes its text under every trait.
  unfoldable pub format_decoded : Bytes → Decoded → Bytes
  format_decoded inner (Decoded.pod ty memory) = fmt_pod ty inner memory
  format_decoded inner (Decoded.string bytes) = fmt_str inner bytes
  format_decoded inner (Decoded.pre_formatted bytes) = bytes

-- `write!` with the template: literals as they are, each placeholder by the next value.
unfoldable pub render {ℓ} : {V : Type ℓ} → (Bytes → V → Bytes) → List Piece → List V → Bytes
render show [] vs = []
render show (text t ∷ ps) vs = t ++ render show ps vs
render show (hole s ∷ ps) [] = render show ps []
render show (hole s ∷ ps) (v ∷ vs) = show s v ++ render show ps vs

-- A call site: the level, target, line and format string, and the arguments of one call.
pub record Call : Type 0 where
  pub level : ℕ
  pub target : Bytes
  pub line : ℕ
  pub pieces : List Piece
  pub args : List Arg

-- Each argument with the text that its closure would append to the stash.
unfoldable pub with_texts : Fmt → List Piece → List Arg → List (Arg × Bytes)
unfolding format_arg
with_texts F [] xs = []
with_texts F (text t ∷ ps) xs = with_texts F ps xs
with_texts F (hole s ∷ ps) [] = []
with_texts F (hole s ∷ ps) (a ∷ xs) = (a, format_arg F s a) ∷ with_texts F ps xs

-- The bindings `__s0`, `__s1`, …: every argument is sized in order, and the stash is passed on.
unfoldable pub size_args : List (Arg × Bytes) → Stash → Option (List ℕ × Stash)
size_args [] s = some ([], s)
size_args ((a, t) ∷ xs) s = do
  (n, s) ← hot_size_with a (λ b. b ++ t) s
  (ns, s) ← size_args xs s
  some (n ∷ ns, s)

abbrev pub sum : List ℕ → ℕ
sum [] = 0
sum (n ∷ ns) = n + sum ns

unfoldable pub prefix_size : Bytes → ℕ
prefix_size target_bytes = 4 + 2 + length target_bytes

-- `target.len() as u16` is not checked here.
unfoldable pub prefix_encode : ℕ → Bytes → Bytes → Option Bytes
prefix_encode line target_bytes buf = do
  buf ← copy_at buf 0 (to_le_bytes 4 line)
  buf ← copy_at buf 4 (to_le_bytes 2 (length target_bytes % 2 ^ 16))
  copy_at buf 6 target_bytes

-- `hot_encode(&mut __buf[__off..])`, and `__off += __s` behind it.
unfoldable pub encode_args :
    List (Arg × Bytes) → List ℕ → Bytes → ℕ → Stash → Option (Bytes × Stash)
encode_args ((a, t) ∷ xs) (n ∷ ns) buf off s = do
  rest ← slice_from buf off
  (rest, s) ← hot_encode a rest s
  encode_args xs ns (take off buf ++ rest) (off + n) s
encode_args _ _ buf off s = some (buf, s)

-- The encode closure.
unfoldable pub encode_closure :
    Call → List (Arg × Bytes) → List ℕ → Stash → Bytes → Option (Bytes × Stash)
unfolding prefix_encode encode_args
encode_closure c xs ns s buf = do
  buf ← prefix_encode c.line c.target buf
  encode_args xs ns buf (6 + length c.target) s

-- A block with no argument does not touch the stash.
pub start_stash : List Arg → Stash → Stash
start_stash [] s = s
start_stash (a ∷ args) s = fallback_stash_clear s

-- The producer's side of the block, up to the submission: the payload's size, and the payload that
-- the encode closure leaves in a claimed region of that size, which `buf` is before.
unfoldable pub prepare : Fmt → Call → Stash → Option (ℕ × List ℕ × Stash)
unfolding start_stash size_args prefix_size with_texts
prepare F c s = do
  let s = start_stash c.args s
  (ns, s) ← size_args (with_texts F c.pieces c.args) s
  some (prefix_size c.target + sum ns, ns, s)

unfoldable pub prefix_decode : Bytes → Option (ℕ × ℕ × Bytes)
prefix_decode payload = do
  line ← slice payload 0 4
  tl ← slice payload 4 2
  bytes ← slice payload 6 (from_le_bytes tl)
  target ← from_utf8 bytes
  some (from_le_bytes line, from_le_bytes tl, target)

unfoldable pub decode_args : List Witness → Bytes → ℕ → Option (List Decoded)
decode_args [] payload off = some []
decode_args (w ∷ ws) payload off = do
  rest ← slice_from payload off
  (d, n) ← hot_decode w rest
  ds ← decode_args ws payload (off + n)
  some (d ∷ ds)

-- `__fmt`, with the witnesses and the format string of its call site.
unfoldable pub hot_fmt : Fmt → Bool → List Witness → List Piece → FormatFn
unfolding prefix_decode decode_args format_decoded render
hot_fmt F color_enabled ws pieces ctx = do
  (line, tl, target) ← prefix_decode ctx.payload
  ds ← decode_args ws ctx.payload (6 + tl)
  prefix ← write_log_prefix color_enabled ctx.timestamp_ns ctx.level target line
  some (prefix ++ (render (format_decoded F) pieces ds ++ (b'\n' ∷ [])))
