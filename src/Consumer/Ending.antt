-- ===== src/Consumer/Ending.antt =====
-- Once `running` is false and nothing more is committed, the archiver ends.
pub mod Loop
pub mod Drained
use inqjet.Common.{
  ℕ, zero, suc, ◌+◌, ◌-◌, ◌≤◌, ◌<◌, ◌≡◌, refl, ap, ◌⊎◌, inl, inr, true, false, Option, none, some,
  List, [], ◌∷◌, arith, Option-cases, length, get_elem?, some_inj,
}
use inqjet.Common.Bytes.{Bytes}
use inqjet.Logbuf.{Logbuf}
use inqjet.Consumer.{
  Phase, test, poll_log, poll_archive, settle, drain_log, drain_archive, done, died, Stream,
  ArchiveStream, Archiver, Polled, empty, took, panicked, format_and_write, poll, flushed,
  set_archive, flush_all, after_log, after_archive, at_archive, tick_at, tick, ticks,
}

-- How far a phase is from the end, when there are `k` archives and no records.
abbrev pub rank : ℕ → Phase → ℕ
rank k (poll_log w) = k + k + 6
rank k (poll_archive i w) = k + 5 + (k - i)
rank k (settle w) = k + 4
rank k test = k + 3
rank k drain_log = k + 2
rank k (drain_archive i) = 1 + (k - i)
rank k done = 0
rank k died = 0

abbrev pub Ended : Phase → Type 0
Ended phase = (phase ≡ done) ⊎ (phase ≡ died)

module _ (R : Logbuf) where
  open R use {Queue, pending, receive, receive-none, receive-some}

  abbrev pub waiting : Stream R → ℕ
  waiting s = length (pending s.queue)

  abbrev pub all_waiting : List (ArchiveStream R) → ℕ
  all_waiting [] = 0
  all_waiting (x ∷ xs) = waiting x.stream + all_waiting xs

  -- Records that wait, and the rank of the phase.
  abbrev pub measured : (ℕ → Phase → ℕ) → Archiver R → ℕ
  measured r a = waiting a.log + all_waiting a.archives + r (length a.archives) a.phase

  abbrev pub measure : Archiver R → ℕ
  measure a = measured rank a

  -- What the answer to a claim says of the records that wait.
  abbrev pub Shrinks : Stream R → Polled R → Type 0
  Shrinks s empty = pending s.queue ≡ []
  Shrinks s (took s') = waiting s ≡ suc (waiting s')
  Shrinks s (panicked s') = waiting s ≡ suc (waiting s')

  format_and_write-Shrinks :
      (s : Stream R) (q : Queue) (claim : Bytes) (o : Option Bytes)
      → receive s.queue ≡ some (claim, q)
      → Shrinks s (format_and_write R s q o)
  unfolding format_and_write
  format_and_write-Shrinks s q claim none e = rw (receive-some s.queue q claim e)
  format_and_write-Shrinks s q claim (some text) e = rw (receive-some s.queue q claim e)

  pub poll-Shrinks : (format : Bytes → Option Bytes) (s : Stream R) → Shrinks s (poll R format s)
  unfolding poll
  poll-Shrinks format s = elim (Option-cases (receive s.queue)) [
    | inl e ↦ rw e (receive-none s.queue e)
    | inr ((claim, q), e) ↦ rw e (format_and_write-Shrinks s q claim (format claim) e)
  ]

  length-set_archive :
      (i : ℕ) (s : Stream R) (xs : List (ArchiveStream R))
      → length (set_archive R i s xs) ≡ length xs
  unfolding set_archive
  length-set_archive i s [] = refl
  length-set_archive zero s (x ∷ xs) = refl
  length-set_archive (suc i) s (x ∷ xs) = rw (length-set_archive i s xs)

  waiting-set_archive :
      (i : ℕ) (s : Stream R) (xs : List (ArchiveStream R)) (x : ArchiveStream R)
      → get_elem? xs i ≡ some x
      → all_waiting (set_archive R i s xs) + waiting x.stream ≡ all_waiting xs + waiting s
  unfolding set_archive
  waiting-set_archive i s [] x e = cc
  waiting-set_archive zero s (y ∷ ys) x e = omega (arith, ap (λ z. waiting z.stream) (some_inj e))
  waiting-set_archive (suc i) s (y ∷ ys) x e = omega (arith, waiting-set_archive i s ys x e)

  length-flush_all : (xs : List (ArchiveStream R)) → length (flush_all R xs) ≡ length xs
  unfolding flush_all
  length-flush_all [] = refl
  length-flush_all (x ∷ xs) = rw (length-flush_all xs)

  waiting-flush_all : (xs : List (ArchiveStream R)) → all_waiting (flush_all R xs) ≡ all_waiting xs
  unfolding flush_all flushed
  waiting-flush_all [] = refl
  waiting-flush_all (x ∷ xs) = rw (waiting-flush_all xs)

  get_elem?-lt :
      (xs : List (ArchiveStream R)) (i : ℕ) (x : ArchiveStream R)
      → get_elem? xs i ≡ some x
      → i < length xs
  get_elem?-lt [] i x e = cc
  get_elem?-lt (y ∷ ys) zero x e = omega arith
  get_elem?-lt (y ∷ ys) (suc i) x e = omega (arith, get_elem?-lt ys i x e)

  -- Both ways of leaving a stream keep what waits in it.
  abbrev Leaves : (Stream R → Stream R) → Type 0
  Leaves close = (s : Stream R) → (close s).queue ≡ s.queue

  module _ (format_log : Bytes → Option Bytes) where
    after_log-measure :
        (r : ℕ → Phase → ℕ) (end_rank : (k : ℕ) → r k died ≡ 0) (again next : Phase)
        (close : Stream R → Stream R) (a : Archiver R) (p : Polled R)
        → Leaves close
        → Shrinks a.log p
        → r (length a.archives) again ≤ r (length a.archives) a.phase
        → r (length a.archives) next < r (length a.archives) a.phase
        → measured r (after_log R again next close a p) < measured r a
    unfolding after_log
    after_log-measure r end_rank again next close a empty c k h h' = rw (c a.log) (omega arith)
    after_log-measure r end_rank again next close a (took s) c k h h' = omega arith
    after_log-measure r end_rank again next close a (panicked s) c k h h' =
        omega (arith, end_rank (length a.archives))

    after_archive-measure :
        (r : ℕ → Phase → ℕ) (end_rank : (k : ℕ) → r k died ≡ 0) (i : ℕ) (again next : Phase)
        (close : Stream R → Stream R) (a : Archiver R) (x : ArchiveStream R) (p : Polled R)
        → Leaves close
        → get_elem? a.archives i ≡ some x
        → Shrinks x.stream p
        → r (length a.archives) again ≤ r (length a.archives) a.phase
        → r (length a.archives) next < r (length a.archives) a.phase
        → measured r (after_archive R i again next close a x.stream p) < measured r a
    unfolding after_archive
    after_archive-measure r end_rank i again next close a x empty c e k h h' =
        rw (length-set_archive i (close x.stream) a.archives) (
          omega (
            arith,
            waiting-set_archive i (close x.stream) a.archives x e,
            ap (λ q. length (pending q)) (c x.stream),
          ))
    after_archive-measure r end_rank i again next close a x (took s) c e k h h' =
        rw (length-set_archive i s a.archives)
          (omega (arith, waiting-set_archive i s a.archives x e))
    after_archive-measure r end_rank i again next close a x (panicked s) c e k h h' = omega (
      arith,
      waiting-set_archive i s a.archives x e,
      end_rank (length (set_archive R i s a.archives)),
    )

    at_archive-measure :
        (r : ℕ → Phase → ℕ) (end_rank : (k : ℕ) → r k died ≡ 0) (i : ℕ) (again next end : Phase)
        (close : Stream R → Stream R) (a : Archiver R) (o : Option (ArchiveStream R))
        → Leaves close
        → get_elem? a.archives i ≡ o
        → r (length a.archives) again ≤ r (length a.archives) a.phase
        → (i < length a.archives → r (length a.archives) next < r (length a.archives) a.phase)
        → r (length a.archives) end < r (length a.archives) a.phase
        → measured r (at_archive R i again next end close a o) < measured r a
    unfolding at_archive
    at_archive-measure r end_rank i again next end close a none c e h h' h'' = omega arith
    at_archive-measure r end_rank i again next end close a (some x) c e h h' h'' =
        after_archive-measure r end_rank i again next close a x (poll R x.format_fn x.stream) c e
          (poll-Shrinks x.format_fn x.stream) h (h' (get_elem?-lt a.archives i x e))

    flushed-Leaves : Leaves (flushed R)
    unfolding flushed
    flushed-Leaves s = refl

    open-Leaves : Leaves (λ s. s)
    open-Leaves s = refl

    -- Every action that is not the last takes the archiver nearer to its end.
    tick_at-measure :
        (phase : Phase) (a : Archiver R)
        → a.phase ≡ phase
        → Ended phase ⊎ (measure (tick_at R format_log phase false a) < measure a)
    unfolding tick_at
    tick_at-measure test a e = inr (rw e (omega arith))
    tick_at-measure (poll_log w) a e = inr (
        after_log-measure rank (λ k. refl) (poll_log true) (poll_archive 0 w) (λ s. s) a
          (poll R format_log a.log) open-Leaves (poll-Shrinks format_log a.log) (rw e (omega arith))
          (rw e (omega arith)))
    tick_at-measure (poll_archive i w) a e = inr (
        at_archive-measure rank (λ k. refl) i (poll_archive i true) (poll_archive (suc i) w)
          (settle w) (λ s. s) a (get_elem? a.archives i) open-Leaves refl (rw e (omega arith))
          (λ lt. rw e (omega arith)) (rw e (omega arith)))
    tick_at-measure (settle true) a e = inr (
        rw (e, length-flush_all a.archives, waiting-flush_all a.archives, flushed-Leaves a.log)
          (omega arith))
    tick_at-measure (settle false) a e = inr (rw e (omega arith))
    tick_at-measure drain_log a e = inr (
        after_log-measure rank (λ k. refl) drain_log (drain_archive 0) (flushed R) a
          (poll R format_log a.log) flushed-Leaves (poll-Shrinks format_log a.log)
          (rw e (omega arith)) (rw e (omega arith)))
    tick_at-measure (drain_archive i) a e = inr (
        at_archive-measure rank (λ k. refl) i (drain_archive i) (drain_archive (suc i)) done
          (flushed R) a (get_elem? a.archives i) flushed-Leaves refl (rw e (omega arith))
          (λ lt. rw e (omega arith)) (rw e (omega arith)))
    tick_at-measure done a e = inl (inl refl)
    tick_at-measure died a e = inl (inr refl)

    stays : (a : Archiver R) → Ended a.phase → tick R format_log false a ≡ a
    unfolding tick tick_at
    stays a (inl e) = rw e
    stays a (inr e) = rw e

    pub ticks-stays : (n : ℕ) (a : Archiver R) → Ended a.phase → ticks R format_log n false a ≡ a
    unfolding ticks
    ticks-stays zero a e = refl
    ticks-stays (suc n) a e = rw (stays a e) (ticks-stays n a e)

    -- With `running` false and no more commits, the thread ends after at most as many actions as
    -- `measure` gives: its phase is `done`, or `died` after a panic in a format function.
    pub ticks-Ended :
        (n : ℕ) (a : Archiver R) → measure a ≤ n → Ended (ticks R format_log n false a).phase
    unfolding ticks
    ticks-Ended zero a h = elim (tick_at-measure a.phase a refl) [
      | inl e ↦ e
      | inr smaller ↦ absurd (omega arith)
    ]
    ticks-Ended (suc n) a h = elim (tick_at-measure a.phase a refl) [
      | inl e ↦ rw (ticks-stays (suc n) a e) e
      | inr smaller ↦ ticks-Ended n (tick R format_log false a) (omega arith)
    ]
