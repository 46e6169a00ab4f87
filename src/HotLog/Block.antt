-- ===== src/HotLog/Block.antt =====
-- The whole block of a call: it is sized, its format function is chosen, and it is submitted.
use inqjet.Common.{ap, ℕ, Bool, Option, some, none, List, replicate, ◌>>=◌, ◌≡◌}
use inqjet.Common.Bytes.{Endian}
use inqjet.Logbuf.{Logbuf}
use inqjet.Logger.{LoggerState, Moment, Outcome, submitted, hot_log_submit}
use inqjet.Pod.{Stash, Arg}
use inqjet.Common.Bytes.{Bytes}
use inqjet.HotLog.{Fmt, Call, with_texts, encode_closure, prepare}

-- What an encoding makes of the stash; `none`, a panic, does not occur behind a submission.
abbrev encoded_stash : Stash → Option (Bytes × Stash) → Stash
encoded_stash s none = s
encoded_stash s (some p) = p.1

module _ (R : Logbuf) where
  -- The stash behind the submission. The closure runs where the record is submitted, and what it
  -- does to the stash does not depend on the bytes of its region (`encode_closure-stash` of
  -- HotLog/Invariant), which are zeros here.
  unfoldable pub stash_behind : Outcome R → Call → List (Arg × Bytes) → List ℕ → ℕ → Stash → Stash
  stash_behind (submitted q) c xs ns total s =
      encoded_stash s (encode_closure c xs ns s (replicate total 0))
  stash_behind outcome c xs ns total s = s

  -- `fmt_fn` is the address of the call's format function. `none` is a panic in the sizing.
  unfoldable pub hot_block :
      Endian
      → Fmt
      → Option (LoggerState R)
      → (running borrowed : Bool) → Call
      → (fmt_fn now : ℕ) → List (Moment R)
      → Stash
      → Option ((Outcome R × ℕ) × Stash)
  hot_block e F logger running borrowed c fmt_fn now ms s = do
    (total, ns, s) ← prepare F c s
    let xs = with_texts F c.pieces c.args
    let answer =
        hot_log_submit R e logger running borrowed c.level total fmt_fn
          (λ buf. encode_closure c xs ns s buf >>= λ p. some (p.0)) now ms
    some (answer, stash_behind answer.0 c xs ns total s)

  stash_behind-submitted :
      (q : R.Queue) (c : Call) (xs : List (Arg × Bytes)) (ns : List ℕ) (total : ℕ) (s t : Stash)
      (p : Bytes)
      → encode_closure c xs ns s (replicate total 0) ≡ some (p, t)
      → stash_behind (submitted q) c xs ns total s ≡ t
  unfolding stash_behind
  stash_behind-submitted q c xs ns total s t p e = ap (encoded_stash s) e

  -- A block that is sized and submitted, part by part.
  pub hot_block-submitted :
      (e : Endian) (F : Fmt) (logger : Option (LoggerState R)) (running borrowed : Bool) (c : Call)
      (fmt_fn now : ℕ) (ms : List (Moment R)) (s s' t : Stash) (total : ℕ) (ns : List ℕ)
      (q : R.Queue) (k : ℕ) (p : Bytes)
      → prepare F c s ≡ some (total, ns, s')
      → hot_log_submit R e logger running borrowed c.level total fmt_fn
          (λ buf. encode_closure c (with_texts F c.pieces c.args) ns s' buf >>= λ p. some (p.0))
          now
          ms
        ≡ (submitted q, k)
      → encode_closure c (with_texts F c.pieces c.args) ns s' (replicate total 0) ≡ some (p, t)
      → hot_block e F logger running borrowed c fmt_fn now ms s ≡ some ((submitted q, k), t)
  unfolding hot_block
  hot_block-submitted e F logger running borrowed c fmt_fn now ms s s' t total ns q k p sized sent
        encoded =
      rw (
        sized,
        sent,
        stash_behind-submitted q c (with_texts F c.pieces c.args) ns total s' t p encoded,
      )
