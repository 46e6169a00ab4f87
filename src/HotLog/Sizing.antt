-- ===== src/HotLog/Sizing.antt =====
-- A call's arguments are sized, and then they can be encoded.
use inqjet.Common.{◌≤◌, ◌≡◌, refl, some, List, [], ◌∷◌, ◌++◌, length, drop}
use inqjet.Common.Bytes.{Bytes}
use inqjet.Pod.{Arg, Stash, fresh_stash}
use inqjet.Pod.Fallback.{Holds, IsStash, fallback_stash_clear-fresh}
use inqjet.Macros.Parse.{Piece, text, hole}
use inqjet.HotLog.{Fmt, with_texts, size_args, encode_args, start_stash}
use inqjet.HotLog.Args.{sizes, args_bytes, AreArgs, size_args-Holds, encode_args-Holds}

-- The arguments have been sized, and encoding them into any region that is large enough succeeds.
pub record Ready (xs : List (Arg × Bytes)) (s : Stash) : Type 0 where
  pub encodes :
      (front rest : Bytes)
      → length (args_bytes xs) ≤ length rest
      → (s' : Stash) × (encode_args xs (sizes xs) (front ++ rest) (length front) s
          ≡ some (front ++ (args_bytes xs ++ drop (length (args_bytes xs)) rest), s'))

fresh_Holds : Holds [] 0 fresh_stash
fresh_Holds = record { buf_is = refl; offsets_are = refl; read_is = refl }

with_texts-nil : (F : Fmt) (ps : List Piece) → with_texts F ps [] ≡ []
unfolding with_texts
with_texts-nil F [] = refl
with_texts-nil F (text t ∷ ps) = with_texts-nil F ps
with_texts-nil F (hole s ∷ ps) = refl

pub sized :
    (F : Fmt) (ps : List Piece) (args : List Arg) (s : Stash)
    → IsStash s
    → AreArgs (with_texts F ps args)
    → (s' : Stash) × (size_args (with_texts F ps args) (start_stash args s)
        ≡ some (sizes (with_texts F ps args), s'))
      × Ready (with_texts F ps args) s'
unfolding start_stash
sized F ps [] s v h = rw (with_texts-nil F ps) (
  s,
  unfold size_args in refl,
  record { encodes = λ front rest room. (s, unfold encode_args in refl) },
)
sized F ps (a ∷ args) s v h =
    let (s', e, holds) = size_args-Holds (with_texts F ps (a ∷ args)) [] fresh_stash fresh_Holds in
    (
      s',
      rw (fallback_stash_clear-fresh s v) e,
      record {
        encodes = λ front rest room.
            encode_args-Holds (with_texts F ps (a ∷ args)) [] front rest s' h holds room;
      },
    )
