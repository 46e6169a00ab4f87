-- ===== src/Examples/Queue.antt =====
-- A ring buffer as a list of records, which has room for two of them.
use inqjet.Common.{
  ℕ, ◌≡◌, refl, sym, ap, ◌∙◌, inl, inr, Option, none, some, List, [], ◌∷◌, ◌++◌, ltb, if◌then◌else◌,
  Bool-cases, length, replicate, length-replicate, some_inj, some-none,
}
use inqjet.Common.Bytes.{Bytes}
use inqjet.Logbuf.{Logbuf}

abbrev pub list_claim : List Bytes → ℕ → Option (Bytes × List Bytes)
list_claim q n = if ltb (length q) 2 then some (replicate n 0, q) else none

abbrev list_receive : List Bytes → Option (Bytes × List Bytes)
list_receive [] = none
list_receive (r ∷ q) = some (r, q)

pub list_claim-length :
    (q q' : List Bytes) (n : ℕ) (region : Bytes)
    → list_claim q n ≡ some (region, q')
    → length region ≡ n
list_claim-length q q' n region h = elim (Bool-cases (ltb (length q) 2)) [
  | inl e ↦
      ap (λ (xs : Bytes). length xs) (sym (ap (λ p. p.0) (some_inj (rw e at h))))
      ∙ length-replicate n 0
  | inr e ↦ absurd (some-none (sym (rw e at h)))
]

-- A claim leaves the list as it is.
pub list_commit :
    (q q' : List Bytes) (n : ℕ) (region bytes : Bytes)
    → Unit {0}
    → list_claim q n ≡ some (region, q')
    → length bytes ≡ n
    → q' ++ (bytes ∷ []) ≡ q ++ (bytes ∷ [])
list_commit q q' n region bytes idle h size = elim (Bool-cases (ltb (length q) 2)) [
  | inl e ↦ ap (λ p. p.1 ++ (bytes ∷ [])) (sym (some_inj (rw e at h)))
  | inr e ↦ absurd (some-none (sym (rw e at h)))
]

pub list_receive-none : (q : List Bytes) → list_receive q ≡ none → q ≡ []
list_receive-none [] h = refl
list_receive-none (r ∷ q) h = cc

pub list_receive-some :
    (q q' : List Bytes) (bytes : Bytes) → list_receive q ≡ some (bytes, q') → q ≡ bytes ∷ q'
list_receive-some [] q' bytes h = cc
list_receive-some (r ∷ q) q' bytes h = cc

abbrev pub list_logbuf : Logbuf
list_logbuf = record {
  Queue = List Bytes;
  create = λ capacity. [];
  try_claim = list_claim;
  commit = λ q bytes. q ++ (bytes ∷ []);
  receive = list_receive;
  pending = λ q. q;
  create-pending = λ capacity. refl;
  IsIdle = λ q. Unit;
  create-IsIdle = λ capacity. tt;
  claim_length = list_claim-length;
  commit-pending = list_commit;
  receive-none = list_receive-none;
  receive-some = list_receive-some;
}
