-- ===== src/HotLog/Invariant.antt =====
-- The invariant of the thread's fallback stash, which lets a block skip the clearing.
use mathlib.Core.Path.{subst}
use inqjet.Common.{
  ℕ, ◌+◌, ◌≡◌, refl, sym, ap, ◌∙◌, ◌≢◌, inl, inr, Bool, true, false, Option, some, List, [], ◌∷◌,
  ◌++◌, leb, Bool-cases, length, get_elem?, take, assert, >>=-eq-some, some_inj, some-none, ◌%◌,
  ◌^◌,
}
use inqjet.Common.Bytes.{to_le_bytes, Bytes}
use inqjet.Common.Buffer.{slice_range, copy_at, slice_from}
use inqjet.Pod.{
  get_or, Arg, pod, str, string, other, Stash, fresh_stash, hot_size_fallback, hot_size_with,
  hot_encode, fallback_stash_encode, hot_encode_str,
}
use inqjet.Pod.Fallback.{IsStash, fallback_stash_clear-fresh}
use inqjet.HotLog.{
  Fmt, Call, with_texts, size_args, encode_args, encode_closure, start_stash, prepare,
  prefix_encode,
}

fresh-IsStash : IsStash fresh_stash
fresh-IsStash = record { clean = λ e. refl }

start_stash-IsStash : (args : List Arg) (s : Stash) → IsStash s → IsStash (start_stash args s)
unfolding start_stash
start_stash-IsStash [] s v = v
start_stash-IsStash (a ∷ args) s v = rw (fallback_stash_clear-fresh s v) fresh-IsStash

pair_inj₁ {ℓ κ} :
    {A : Type ℓ} {B : Type κ} {a c : A} {b d : B}
    → ◌≡◌ {A = Option (A × B)} (some (a, b)) (some (c, d))
    → b ≡ d
pair_inj₁ e = ap (λ p. p.1) (some_inj e)

-- A marked stash is not claimed to be fresh.
dirty-IsStash : (s : Stash) → s.dirty ≡ true → IsStash s
dirty-IsStash s d = record { clean = λ e. absurd (true_false (sym d ∙ e)) }
  where
    true_false : ◌≢◌ {A = Bool} true false
    true_false e = cc

hot_size_with-IsStash :
    (a : Arg) (fmt : Bytes → Bytes) (s s' : Stash) (n : ℕ)
    → hot_size_with a fmt s ≡ some (n, s')
    → IsStash s
    → IsStash s'
unfolding hot_size_with hot_size_fallback
hot_size_with-IsStash (pod ty memory) fmt s s' n e v = subst IsStash (pair_inj₁ e) v
hot_size_with-IsStash (str bytes) fmt s s' n e v = subst IsStash (pair_inj₁ e) v
hot_size_with-IsStash (string bytes) fmt s s' n e v = subst IsStash (pair_inj₁ e) v
hot_size_with-IsStash (other value) fmt s s' n e v =
    let (_, _, h) = >>=-eq-some (assert (leb (length s.buf) (length (fmt s.buf)))) _ e in
    subst IsStash (pair_inj₁ h) (dirty-IsStash _ refl)

-- A stash that is not marked has no text to encode.
fallback_stash_encode-IsStash :
    (buf out : Bytes) (s s' : Stash)
    → fallback_stash_encode buf s ≡ some (out, s')
    → IsStash s
    → IsStash s'
unfolding fallback_stash_encode
fallback_stash_encode-IsStash buf out s s' e v = elim (Bool-cases s.dirty) [
  | inl d ↦
      let (at, _, h₁) = >>=-eq-some (get_elem? s.offsets s.read_idx) _ e in
      let (content, _, h₂) =
        >>=-eq-some (slice_range s.buf at (get_or s.offsets (s.read_idx + 1) (length s.buf))) _
          h₁ in
      let (b₁, _, h₃) =
        >>=-eq-some (copy_at buf 0 (to_le_bytes 4 (length content % 2 ^ 32))) _ h₂ in
      let (b₂, _, h₄) = >>=-eq-some (copy_at b₁ 4 content) _ h₃ in
      subst IsStash (pair_inj₁ h₄) (dirty-IsStash _ d)
  | inr d ↦
      let (at, found, _) = >>=-eq-some (get_elem? s.offsets s.read_idx) _ e in
      absurd (
        some-none (
          sym (
            subst (λ offsets. get_elem? offsets s.read_idx ≡ some at)
              (ap (λ x. x.offsets) (v.clean d)) found)))
]

hot_encode-IsStash :
    (a : Arg) (buf out : Bytes) (s s' : Stash)
    → hot_encode a buf s ≡ some (out, s')
    → IsStash s
    → IsStash s'
unfolding hot_encode
hot_encode-IsStash (pod ty memory) buf out s s' e v =
    let (_, _, h) = >>=-eq-some (copy_at buf 0 memory) _ e in subst IsStash (pair_inj₁ h) v
hot_encode-IsStash (str bytes) buf out s s' e v =
    let (_, _, h) = >>=-eq-some (hot_encode_str bytes buf) _ e in subst IsStash (pair_inj₁ h) v
hot_encode-IsStash (string bytes) buf out s s' e v =
    let (_, _, h) = >>=-eq-some (hot_encode_str bytes buf) _ e in subst IsStash (pair_inj₁ h) v
hot_encode-IsStash (other value) buf out s s' e v = fallback_stash_encode-IsStash buf out s s' e v

fallback_stash_encode-stash :
    (b out : Bytes) (s t : Stash)
    → fallback_stash_encode b s ≡ some (out, t)
    → record s { read_idx = s.read_idx + 1 } ≡ t
unfolding fallback_stash_encode
fallback_stash_encode-stash b out s t e =
    let (at, _, h₁) = >>=-eq-some (get_elem? s.offsets s.read_idx) _ e in
    let (content, _, h₂) =
      >>=-eq-some (slice_range s.buf at (get_or s.offsets (s.read_idx + 1) (length s.buf))) _ h₁ in
    let (b₁, _, h₃) = >>=-eq-some (copy_at b 0 (to_le_bytes 4 (length content % 2 ^ 32))) _ h₂ in
    let (b₂, _, h₄) = >>=-eq-some (copy_at b₁ 4 content) _ h₃ in pair_inj₁ h₄

hot_encode-stash :
    (a : Arg) (b b' out out' : Bytes) (s t t' : Stash)
    → hot_encode a b s ≡ some (out, t)
    → hot_encode a b' s ≡ some (out', t')
    → t ≡ t'
unfolding hot_encode fallback_stash_encode
hot_encode-stash (pod ty memory) b b' out out' s t t' e e' =
    let (_, _, h) = >>=-eq-some (copy_at b 0 memory) _ e in
    let (_, _, h') = >>=-eq-some (copy_at b' 0 memory) _ e' in sym (pair_inj₁ h) ∙ pair_inj₁ h'
hot_encode-stash (str bytes) b b' out out' s t t' e e' =
    let (_, _, h) = >>=-eq-some (hot_encode_str bytes b) _ e in
    let (_, _, h') = >>=-eq-some (hot_encode_str bytes b') _ e' in sym (pair_inj₁ h) ∙ pair_inj₁ h'
hot_encode-stash (string bytes) b b' out out' s t t' e e' =
    let (_, _, h) = >>=-eq-some (hot_encode_str bytes b) _ e in
    let (_, _, h') = >>=-eq-some (hot_encode_str bytes b') _ e' in sym (pair_inj₁ h) ∙ pair_inj₁ h'
hot_encode-stash (other value) b b' out out' s t t' e e' =
    sym (fallback_stash_encode-stash b out s t e) ∙ fallback_stash_encode-stash b' out' s t' e'

encode_args-stash :
    (xs : List (Arg × Bytes)) (ns : List ℕ) (b b' out out' : Bytes) (off : ℕ) (s t t' : Stash)
    → encode_args xs ns b off s ≡ some (out, t)
    → encode_args xs ns b' off s ≡ some (out', t')
    → t ≡ t'
unfolding encode_args
encode_args-stash [] ns b b' out out' off s t t' e e' = sym (pair_inj₁ e) ∙ pair_inj₁ e'
encode_args-stash (x ∷ xs) [] b b' out out' off s t t' e e' = sym (pair_inj₁ e) ∙ pair_inj₁ e'
encode_args-stash ((a, text) ∷ xs) (n ∷ ns) b b' out out' off s t t' e e' =
    let (rest, _, h₁) = >>=-eq-some (slice_from b off) _ e in
    let ((r, u), e₂, h₂) = >>=-eq-some (hot_encode a rest s) _ h₁ in
    let (rest', _, h₁') = >>=-eq-some (slice_from b' off) _ e' in
    let ((r', u'), e₂', h₂') = >>=-eq-some (hot_encode a rest' s) _ h₁' in
    let same : u ≡ u' = hot_encode-stash a rest rest' r r' s u u' e₂ e₂' in
    encode_args-stash xs ns (take off b ++ r) (take off b' ++ r') out out' (off + n) u t t' h₂ (
      subst (λ v. encode_args xs ns (take off b' ++ r') (off + n) v ≡ some (out', t')) (sym same)
        h₂')

-- What encoding does to the stash is the same in every region.
pub encode_closure-stash :
    (c : Call) (xs : List (Arg × Bytes)) (ns : List ℕ) (s t t' : Stash) (b b' out out' : Bytes)
    → encode_closure c xs ns s b ≡ some (out, t)
    → encode_closure c xs ns s b' ≡ some (out', t')
    → t ≡ t'
unfolding encode_closure
encode_closure-stash c xs ns s t t' b b' out out' e e' =
    let (p, _, h) = >>=-eq-some (prefix_encode c.line c.target b) _ e in
    let (p', _, h') = >>=-eq-some (prefix_encode c.line c.target b') _ e' in
    encode_args-stash xs ns p p' out out' (6 + length c.target) s t t' h h'

size_args-IsStash :
    (xs : List (Arg × Bytes)) (s s' : Stash) (ns : List ℕ)
    → size_args xs s ≡ some (ns, s')
    → IsStash s
    → IsStash s'
unfolding size_args
size_args-IsStash [] s s' ns e v = subst IsStash (pair_inj₁ e) v
size_args-IsStash ((a, t) ∷ xs) s s' ns e v =
    let ((n, s₁), e₁, h₁) = >>=-eq-some (hot_size_with a (λ b. b ++ t) s) _ e in
    let ((ns', s₂), e₂, h₂) = >>=-eq-some (size_args xs s₁) _ h₁ in
    subst IsStash (pair_inj₁ h₂)
      (size_args-IsStash xs s₁ s₂ ns' e₂ (hot_size_with-IsStash a (λ b. b ++ t) s s₁ n e₁ v))

encode_args-IsStash :
    (xs : List (Arg × Bytes)) (ns : List ℕ) (buf out : Bytes) (off : ℕ) (s s' : Stash)
    → encode_args xs ns buf off s ≡ some (out, s')
    → IsStash s
    → IsStash s'
unfolding encode_args
encode_args-IsStash [] ns buf out off s s' e v = subst IsStash (pair_inj₁ e) v
encode_args-IsStash (x ∷ xs) [] buf out off s s' e v = subst IsStash (pair_inj₁ e) v
encode_args-IsStash ((a, t) ∷ xs) (n ∷ ns) buf out off s s' e v =
    let (rest, _, h₁) = >>=-eq-some (slice_from buf off) _ e in
    let ((rest', s₁), e₂, h₂) = >>=-eq-some (hot_encode a rest s) _ h₁ in
    encode_args-IsStash xs ns (take off buf ++ rest') out (off + n) s₁ s' h₂
      (hot_encode-IsStash a rest rest' s s₁ e₂ v)

-- A block leaves the stash, after its sizing and after its encoding, in such a state as the next
-- block relies on: if it is not marked dirty, it is as new. So it is whatever the arguments are, and
-- in a region of any size.
pub block-IsStash :
    (F : Fmt) (c : Call) (s s' s'' : Stash) (total : ℕ) (ns : List ℕ) (buf payload : Bytes)
    → IsStash s
    → prepare F c s ≡ some (total, ns, s')
    → encode_closure c (with_texts F c.pieces c.args) ns s' buf ≡ some (payload, s'')
    → IsStash s' × IsStash s''
unfolding prepare encode_closure
block-IsStash F c s s' s'' total ns buf payload v p e =
    let ((ns', s₁), e₁, h₁) =
      >>=-eq-some (size_args (with_texts F c.pieces c.args) (start_stash c.args s)) _ p in
    let sized : IsStash s' = subst IsStash (ap (λ r. r.2) (some_inj h₁)) (
      size_args-IsStash (with_texts F c.pieces c.args) (start_stash c.args s) s₁ ns' e₁
        (start_stash-IsStash c.args s v)) in
    let (b, _, h₂) = >>=-eq-some (prefix_encode c.line c.target buf) _ e in
    (
      sized,
      encode_args-IsStash (with_texts F c.pieces c.args) ns b payload (6 + length c.target) s' s''
          h₂ sized,
    )
