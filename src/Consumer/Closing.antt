-- ===== src/Consumer/Closing.antt =====
-- Streams that are drained and flushed, and polls that do not panic.
use mathlib.Core.Path.{subst}
use inqjet.Common.{
  ℕ, zero, suc, ◌≡◌, refl, ◌≢◌, inl, inr, Option, none, some, List, [], ◌∷◌, ◌++◌, map, append-nil,
  Option-cases, get_elem?, All, some_inj,
}
use inqjet.Common.Bytes.{Bytes}
use inqjet.Logbuf.{Logbuf}
use inqjet.Consumer.{
  WriterCall, flush, Phase, drain_archive, done, Stream, ArchiveStream, Archiver, Polled, empty,
  took, panicked, format_and_write, poll, flushed, set_archive,
}
use inqjet.Consumer.Promise.{written, promised, archive_promised}

-- Formatting panics on none of the records.
abbrev pub AllFormat : List (Option Bytes) → Type 0
AllFormat = All (λ o. o ≢ none)

pub All-append_right {ℓ κ} :
    {A : Type ℓ} (P : A → Type κ) (xs ys : List A) → All P (xs ++ ys) → All P ys
All-append_right P [] ys h = h
All-append_right P (x ∷ xs) ys h = All-append_right P xs ys h.1

pub All-map_get_elem? {ℓ κ μ} :
    {A : Type ℓ} {B : Type κ} (P : B → Type μ) (f : A → B) (xs : List A) (i : ℕ) (x : A)
    → All P (map f xs)
    → get_elem? xs i ≡ some x
    → P (f x)
All-map_get_elem? P f [] i x h e = cc
All-map_get_elem? P f (y ∷ ys) zero x h e = subst (λ z. P (f z)) (some_inj e) h.0
All-map_get_elem? P f (y ∷ ys) (suc i) x h e = All-map_get_elem? P f ys i x h.1 e

module _ (R : Logbuf) where
  open R use {Queue, pending, receive, receive-some}

  -- Nothing waits, and the last call on the writer was a flush.
  abbrev pub IsClosed : Stream R → Type 0
  IsClosed s =
      (pending s.queue ≡ []) × (calls : List WriterCall) × (s.calls ≡ calls ++ (flush ∷ []))

  -- The first streams are closed.
  abbrev pub ClosedTo : ℕ → List (ArchiveStream R) → Type 0
  ClosedTo zero xs = Unit
  ClosedTo (suc n) [] = Unit
  ClosedTo (suc n) (x ∷ xs) = IsClosed x.stream × ClosedTo n xs

  abbrev pub AllClosed : List (ArchiveStream R) → Type 0
  AllClosed = All (λ x. IsClosed x.stream)

  -- What the phases of the drain have behind them.
  abbrev pub IsDrained : Phase → Archiver R → Type 0
  IsDrained (drain_archive i) a = IsClosed a.log × ClosedTo i a.archives
  IsDrained done a = IsClosed a.log × AllClosed a.archives
  IsDrained _ a = Unit

  pub ClosedTo-AllClosed :
      (i : ℕ) (xs : List (ArchiveStream R)) → get_elem? xs i ≡ none → ClosedTo i xs → AllClosed xs
  ClosedTo-AllClosed i [] e h = tt
  ClosedTo-AllClosed zero (x ∷ xs) e h = cc
  ClosedTo-AllClosed (suc i) (x ∷ xs) e (h, hs) = (h, ClosedTo-AllClosed i xs e hs)

  pub ClosedTo-set_archive :
      (i : ℕ) (s : Stream R) (xs : List (ArchiveStream R))
      → ClosedTo i xs
      → ClosedTo i (set_archive R i s xs)
  unfolding set_archive
  ClosedTo-set_archive zero s xs h = tt
  ClosedTo-set_archive (suc i) s [] h = tt
  ClosedTo-set_archive (suc i) s (x ∷ xs) (h, hs) = (h, ClosedTo-set_archive i s xs hs)

  pub ClosedTo-set_closed :
      (i : ℕ) (s : Stream R) (xs : List (ArchiveStream R))
      → IsClosed s
      → ClosedTo i xs
      → ClosedTo (suc i) (set_archive R i s xs)
  unfolding set_archive
  ClosedTo-set_closed i s [] c h = tt
  ClosedTo-set_closed zero s (x ∷ xs) c h = (c, tt)
  ClosedTo-set_closed (suc i) s (x ∷ xs) c (h, hs) = (h, ClosedTo-set_closed i s xs c hs)

  pub flushed-IsClosed : (s : Stream R) → pending s.queue ≡ [] → IsClosed (flushed R s)
  unfolding flushed
  flushed-IsClosed s e = (e, s.calls, refl)

  -- The answer is not a panic.
  abbrev pub NoPanic : Polled R → Type 0
  NoPanic empty = Unit
  NoPanic (took s) = Unit
  NoPanic (panicked s) = ⊥

  format_and_write-NoPanic :
      (s : Stream R) (q : Queue) (o : Option Bytes) → o ≢ none → NoPanic (format_and_write R s q o)
  unfolding format_and_write
  format_and_write-NoPanic s q none h = h refl
  format_and_write-NoPanic s q (some text) h = tt

  pub poll-NoPanic :
      (format : Bytes → Option Bytes) (s : Stream R)
      → AllFormat (promised R format s)
      → NoPanic (poll R format s)
  unfolding poll
  poll-NoPanic format s h = elim (Option-cases (receive s.queue)) [
    | inl e ↦ rw e tt
    | inr ((claim, q), e) ↦ rw e (
        format_and_write-NoPanic s q (format claim) (
          (rw (receive-some s.queue q claim e) at (
            All-append_right (λ o. o ≢ none) (map some (written s.calls))
              (map format (pending s.queue)) h)).0))
  ]

  -- What the writers were given.
  abbrev pub outputs : Archiver R → List (List (Option Bytes))
  outputs a =
      map some (written a.log.calls) ∷ map (λ x. map some (written x.stream.calls)) a.archives

  pub closed-outputs :
      (xs : List (ArchiveStream R))
      → AllClosed xs
      → map (λ x. map some (written x.stream.calls)) xs ≡ map (archive_promised R) xs
  closed-outputs [] h = refl
  closed-outputs (x ∷ xs) (c, hs) = rw (c.0, append-nil, closed-outputs xs hs)
