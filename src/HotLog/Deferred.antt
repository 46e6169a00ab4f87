-- ===== src/HotLog/Deferred.antt =====
-- What the consumer writes for a hot-path call is what formatting its arguments at once would give.
use inqjet.Common.{
  ℕ, ◌+◌, ◌^◌, ◌<◌, ◌≡◌, refl, Bool, some, List, [], ◌∷◌, ◌++◌, map, append-nil, arith, length,
  drop, length-drop, drop-length, ◌>>=◌, Option, length-append,
}
use inqjet.Common.Bytes.{Bytes}
use inqjet.Common.Utf8.{IsText}
use inqjet.Format.{write_log_prefix}
use inqjet.Pod.{Arg, pod, str, string, other, Stash, hot_witness}
use inqjet.Pod.Fallback.{IsStash}
use inqjet.Macros.Parse.{Piece, text, hole, holes}
use inqjet.HotLog.{
  Fmt, format_arg, format_decoded, render, Call, with_texts, sum, prefix_size, prefix_encode,
  encode_args, encode_closure, prepare, prefix_decode, hot_fmt,
}
use inqjet.Pod.RoundTrip.{decoded}
use inqjet.HotLog.Prefix.{head, front_length, prefix_decode-eq, prefix_encode-eq}
use inqjet.HotLog.Sizing.{Ready, sized}
use inqjet.HotLog.Args.{
  sizes, args_bytes, witnesses, all_decoded, AreArgs, sum-sizes, decode_args-eq,
}

-- The witnesses of the call site fit the arguments, if there is an argument for each placeholder.
witnesses-with_texts :
    (F : Fmt) (ps : List Piece) (args : List Arg)
    → length (holes ps) ≡ length args
    → witnesses (with_texts F ps args) ≡ map hot_witness args
unfolding with_texts
witnesses-with_texts F [] [] e = refl
witnesses-with_texts F [] (a ∷ args) e = absurd (omega arith)
witnesses-with_texts F (text t ∷ ps) args e = witnesses-with_texts F ps args e
witnesses-with_texts F (hole s ∷ ps) [] e = absurd (omega arith)
witnesses-with_texts F (hole s ∷ ps) (a ∷ args) e =
    rw (witnesses-with_texts F ps args (omega arith))

format_decoded-decoded :
    (F : Fmt) (inner : Bytes) (a : Arg)
    → format_decoded F inner (decoded a (format_arg F inner a)) ≡ format_arg F inner a
unfolding format_decoded format_arg
format_decoded-decoded F inner (pod ty memory) = refl
format_decoded-decoded F inner (str bytes) = refl
format_decoded-decoded F inner (string bytes) = refl
format_decoded-decoded F inner (other value) = refl

-- A decoded value prints what its argument would have printed.
render-decoded :
    (F : Fmt) (ps : List Piece) (args : List Arg)
    → length (holes ps) ≡ length args
    → render (format_decoded F) ps (all_decoded (with_texts F ps args))
      ≡ render (format_arg F) ps args
unfolding with_texts render
render-decoded F [] args e = refl
render-decoded F (text t ∷ ps) args e = rw (render-decoded F ps args e)
render-decoded F (hole s ∷ ps) [] e = absurd (omega arith)
render-decoded F (hole s ∷ ps) (a ∷ args) e =
    rw (format_decoded-decoded F s a, render-decoded F ps args (omega arith))

-- The line of a call whose arguments are formatted at once.
abbrev pub eager_line : Fmt → Bool → Call → ℕ → Option Bytes
eager_line F color c ts = do
  prefix ← write_log_prefix color ts c.level c.target c.line
  some (prefix ++ (render (format_arg F) c.pieces c.args ++ (b'\n' ∷ [])))

-- The line that the consumer makes of a payload.
abbrev pub deferred_line : Fmt → Bool → Call → ℕ → Bytes → Option Bytes
deferred_line F color c ts payload =
    hot_fmt F color (map hot_witness c.args) c.pieces
      (record { timestamp_ns = ts; level = c.level; payload = payload })

-- A call that the macro accepts, with values that fit the fields of the payload.
pub record IsCall (F : Fmt) (c : Call) : Type 0 where
  pub count : length (holes c.pieces) ≡ length c.args
  pub args_fit : AreArgs (with_texts F c.pieces c.args)
  pub line_fits : c.line < 2 ^ 32
  pub target_fits : length c.target < 2 ^ 16
  pub target_text : IsText c.target

-- The closure's result, where the prefix fills `front` and the arguments the rest.
encode_closure-eq :
    (c : Call) (xs : List (Arg × Bytes)) (s' s'' : Stash) (buf front rest : Bytes)
    → prefix_encode c.line c.target buf ≡ some (front ++ rest)
    → 6 + length c.target ≡ length front
    → length rest ≡ length (args_bytes xs)
    → encode_args xs (sizes xs) (front ++ rest) (length front) s'
      ≡ some (front ++ (args_bytes xs ++ drop (length (args_bytes xs)) rest), s'')
    → encode_closure c xs (sizes xs) s' buf ≡ some (front ++ args_bytes xs, s'')
unfolding encode_closure
encode_closure-eq c xs s' s'' buf front rest p fl rl e =
    rw (p, fl, e, ← rl, drop-length rest, append-nil)

-- What the call's format function makes of the payload.
hot_fmt-eq :
    (F : Fmt) (color : Bool) (c : Call) (ts : ℕ) (front : Bytes)
    → IsCall F c
    → prefix_decode (front ++ args_bytes (with_texts F c.pieces c.args))
      ≡ some (c.line, length c.target, c.target)
    → 6 + length c.target ≡ length front
    → deferred_line F color c ts (front ++ args_bytes (with_texts F c.pieces c.args))
      ≡ eager_line F color c ts
unfolding hot_fmt
hot_fmt-eq F color c ts front v p fl = rw (
  p,
  fl,
  ← witnesses-with_texts F c.pieces c.args v.count,
  decode_args-eq (with_texts F c.pieces c.args) front v.args_fit,
  render-decoded F c.pieces c.args v.count,
)

-- The second half of the lemma below, once the arguments have been sized.
submitted :
    (F : Fmt) (color : Bool) (c : Call) (s' : Stash) (ts : ℕ) (buf : Bytes)
    → IsCall F c
    → Ready (with_texts F c.pieces c.args) s'
    → length buf ≡ 6 + length c.target + sum (sizes (with_texts F c.pieces c.args))
    → (payload : Bytes) × (s'' : Stash) × (encode_closure c
          (with_texts F c.pieces c.args)
          (sizes (with_texts F c.pieces c.args))
          s'
          buf
        ≡ some (payload, s''))
      × (length payload ≡ length buf)
      × (deferred_line F color c ts payload ≡ eager_line F color c ts)
submitted F color c s' ts buf v ready full =
    let xs : List (Arg × Bytes) = with_texts F c.pieces c.args in
    let front : Bytes = head c.line c.target ++ c.target in
    let rest : Bytes = drop (6 + length c.target) buf in
    let rest_length : length rest ≡ length (args_bytes xs) =
      omega (arith, length-drop (6 + length c.target) buf, sum-sizes xs, full) in
    let front_is : 6 + length c.target ≡ length front = front_length c.line c.target in
    let (s'', e) = ready.encodes front rest (omega (arith, rest_length)) in
    (
      front ++ args_bytes xs,
      s'',
      encode_closure-eq c xs s' s'' buf front rest
          (prefix_encode-eq c.line c.target v.line_fits v.target_fits v.target_text buf
            (omega (arith, full)))
          front_is rest_length e,
      omega (arith, length-append front (args_bytes xs), sum-sizes xs, full, front_is),
      hot_fmt-eq F color c ts front v
          (prefix_decode-eq c.line c.target v.line_fits v.target_fits v.target_text (args_bytes xs))
          front_is,
    )

-- The size of a call's payload: the prefix, and the bytes of each argument.
abbrev pub payload_size : Fmt → Call → ℕ
payload_size F c = 6 + length c.target + sum (sizes (with_texts F c.pieces c.args))

-- A call is sized, and encoding it into any region of its size succeeds.
pub prepare-encode_closure :
    (F : Fmt) (color : Bool) (c : Call) (s : Stash) (ts : ℕ)
    → IsCall F c
    → IsStash s
    → (ns : List ℕ) × (s' : Stash) × (prepare F c s ≡ some (payload_size F c, ns, s'))
      × ((buf : Bytes)
          → length buf ≡ payload_size F c
          → (payload : Bytes) × (s'' : Stash) × (encode_closure c
                (with_texts F c.pieces c.args)
                ns
                s'
                buf
              ≡ some (payload, s''))
            × (length payload ≡ length buf)
            × (deferred_line F color c ts payload ≡ eager_line F color c ts))
unfolding prepare prefix_size
prepare-encode_closure F color c s ts v clean =
    let (s', e, ready) = sized F c.pieces c.args s clean v.args_fit in
    (
      sizes (with_texts F c.pieces c.args),
      s',
      rw e,
      λ buf full. submitted F color c s' ts buf v ready full,
    )
