-- ===== src/HotLog/Args.antt =====
-- All the arguments of a call: sized, encoded one behind the other, and decoded.
use inqjet.Common.{
  ℕ, ◌+◌, ◌≤◌, ◌≡◌, refl, ap, some, List, [], ◌∷◌, ◌++◌, append-nil, append_assoc, arith, length,
  drop, length-append, length-drop, drop-drop, take-append_at,
}
use inqjet.Common.Bytes.{Bytes}
use inqjet.Common.Buffer.{slice_from-append}
use inqjet.Pod.{Arg, Stash, Witness, hot_witness, Decoded}
use inqjet.Pod.Fallback.{Holds}
use inqjet.Pod.RoundTrip.{
  encoded, stashed, decoded, IsArg, hot_size_with-Holds, hot_encode-Holds, hot_decode-encoded,
}
use inqjet.HotLog.{size_args, sum, encode_args, decode_args}

abbrev pub sizes : List (Arg × Bytes) → List ℕ
sizes [] = []
sizes ((a, t) ∷ xs) = length (encoded a t) ∷ sizes xs

abbrev pub args_bytes : List (Arg × Bytes) → Bytes
args_bytes [] = []
args_bytes ((a, t) ∷ xs) = encoded a t ++ args_bytes xs

abbrev pub texts : List (Arg × Bytes) → List Bytes
texts [] = []
texts ((a, t) ∷ xs) = stashed a t ++ texts xs

abbrev pub witnesses : List (Arg × Bytes) → List Witness
witnesses [] = []
witnesses ((a, t) ∷ xs) = hot_witness a ∷ witnesses xs

abbrev pub all_decoded : List (Arg × Bytes) → List Decoded
all_decoded [] = []
all_decoded ((a, t) ∷ xs) = decoded a t ∷ all_decoded xs

abbrev pub AreArgs : List (Arg × Bytes) → Type 0
AreArgs [] = Unit
AreArgs ((a, t) ∷ xs) = IsArg a t × AreArgs xs

pub sum-sizes : (xs : List (Arg × Bytes)) → sum (sizes xs) ≡ length (args_bytes xs)
sum-sizes [] = refl
sum-sizes ((a, t) ∷ xs) = rw (length-append, sum-sizes xs)

pub size_args-Holds :
    (xs : List (Arg × Bytes)) (before : List Bytes) (s : Stash)
    → Holds before 0 s
    → (s' : Stash) × (size_args xs s ≡ some (sizes xs, s')) × Holds (before ++ texts xs) 0 s'
unfolding size_args
size_args-Holds [] before s h = (s, refl, rw append-nil h)
size_args-Holds ((a, t) ∷ xs) before s h =
    let (s₁, e₁, h₁) = hot_size_with-Holds a t before s h in
    let (s₂, e₂, h₂) = size_args-Holds xs (before ++ stashed a t) s₁ h₁ in
    (s₂, rw (e₁, e₂), rw (append_assoc before (stashed a t) (texts xs)) at h₂)

regroup :
    (front x y rest : Bytes)
    → (front ++ x) ++ (y ++ drop (length y) (drop (length x) rest))
      ≡ front ++ ((x ++ y) ++ drop (length (x ++ y)) rest)
regroup front x y rest =
    rw (drop-drop (length y) (length x) rest, length-append x y) (simp append_assoc)

-- With the stash that the sizing left, every argument is written behind the one before it.
pub encode_args-Holds :
    (xs : List (Arg × Bytes)) (done : List Bytes) (front rest : Bytes) (s : Stash)
    → AreArgs xs
    → Holds (done ++ texts xs) (length done) s
    → length (args_bytes xs) ≤ length rest
    → (s' : Stash) × (encode_args xs (sizes xs) (front ++ rest) (length front) s
        ≡ some (front ++ (args_bytes xs ++ drop (length (args_bytes xs)) rest), s'))
unfolding encode_args
encode_args-Holds [] done front rest s v h room = (s, refl)
encode_args-Holds ((a, t) ∷ xs) done front rest s (va, vs) h room =
    let fits : length (encoded a t) + length (args_bytes xs) ≤ length rest =
      omega (arith, length-append (encoded a t) (args_bytes xs)) in
    let (s₁, e₁, h₁) = hot_encode-Holds a t done (texts xs) s rest va h (omega arith) in
    let (s₂, e₂) =
      encode_args-Holds xs (done ++ stashed a t) (front ++ encoded a t)
        (drop (length (encoded a t)) rest) s₁ vs h₁
        (omega (arith, length-drop (length (encoded a t)) rest)) in
    (
      s₂,
      rw
          (
            slice_from-append front rest (length front) refl,
            e₁,
            take-append_at (length front) front rest refl,
            ← append_assoc front (encoded a t) (drop (length (encoded a t)) rest),
            ← length-append front (encoded a t),
            e₂,
          )
          (ap (λ b. some (b, s₂)) (regroup front (encoded a t) (args_bytes xs) rest)),
    )

pub decode_args-eq :
    (xs : List (Arg × Bytes)) (front : Bytes)
    → AreArgs xs
    → decode_args (witnesses xs) (front ++ args_bytes xs) (length front) ≡ some (all_decoded xs)
unfolding decode_args
decode_args-eq [] front v = refl
decode_args-eq ((a, t) ∷ xs) front (va, vs) = rw (
  slice_from-append front (encoded a t ++ args_bytes xs) (length front) refl,
  hot_decode-encoded a t (args_bytes xs) va,
  ← append_assoc front (encoded a t) (args_bytes xs),
  ← length-append front (encoded a t),
  decode_args-eq xs (front ++ encoded a t) vs,
)
