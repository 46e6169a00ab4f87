-- ===== src/Consumer/Promise.antt =====
-- What the archiver owes each writer: the texts that it has written, and those of the records that
-- still wait. No action of the thread changes it.
use mathlib.Core.Path.{subst}
use inqjet.Common.{
  ◌≢◌, ℕ, zero, suc, ◌≡◌, refl, sym, ap, ◌≢◌, inl, inr, Bool, true, false, Option, none, some, List,
  [], ◌∷◌, ◌++◌, map, append-nil, append_assoc, Option-cases, get_elem?, some_inj,
}
use inqjet.Common.Bytes.{Bytes}
use inqjet.Logbuf.{Logbuf}
use mathlib.Core.List.{map-append}
use inqjet.Consumer.{
  WriterCall, write_all, flush, Phase, test, poll_log, poll_archive, settle, drain_log,
  drain_archive, done, died, Stream, ArchiveStream, Archiver, Polled, empty, took, panicked,
  format_and_write, poll, flushed, set_archive, flush_all, after_log, after_archive, at_archive,
  tick_at, tick,
}

-- The texts written, in order.
abbrev pub written : List WriterCall → List Bytes
written [] = []
written (write_all text ∷ calls) = text ∷ written calls
written (flush ∷ calls) = written calls

written-append : (xs ys : List WriterCall) → written (xs ++ ys) ≡ written xs ++ written ys
written-append [] ys = refl
written-append (write_all text ∷ xs) ys = rw (written-append xs ys)
written-append (flush ∷ xs) ys = written-append xs ys

module _ (R : Logbuf) where
  open R use {Queue, pending, receive, receive-some}

  -- `none` stands for a record whose formatting panics.
  abbrev pub promised : (Bytes → Option Bytes) → Stream R → List (Option Bytes)
  promised format s = map some (written s.calls) ++ map format (pending s.queue)

  abbrev pub archive_promised : ArchiveStream R → List (Option Bytes)
  archive_promised x = promised x.format_fn x.stream

  -- For the log, and for each archive in its place.
  abbrev pub promises : (Bytes → Option Bytes) → Archiver R → List (List (Option Bytes))
  promises format_log a = promised format_log a.log ∷ map archive_promised a.archives

  flushed-promised :
      (format : Bytes → Option Bytes) (s : Stream R)
      → promised format (flushed R s) ≡ promised format s
  unfolding flushed
  flushed-promised format s = rw (written-append s.calls (flush ∷ []), append-nil)

  -- What the answer to a claim leaves to do.
  abbrev Keeps : (Bytes → Option Bytes) → Stream R → Polled R → Type 0
  Keeps format s empty = Unit
  Keeps format s (took s') = promised format s' ≡ promised format s
  Keeps format s (panicked s') = Unit

  format_and_write-Keeps :
      (format : Bytes → Option Bytes) (s : Stream R) (q : Queue) (claim : Bytes) (o : Option Bytes)
      → format claim ≡ o
      → receive s.queue ≡ some (claim, q)
      → Keeps format s (format_and_write R s q o)
  unfolding format_and_write
  format_and_write-Keeps format s q claim none f e = tt
  format_and_write-Keeps format s q claim (some text) f e = rw (
    written-append s.calls (write_all text ∷ []),
    receive-some s.queue q claim e,
    f,
    map-append,
    append_assoc,
  )

  poll-Keeps : (format : Bytes → Option Bytes) (s : Stream R) → Keeps format s (poll R format s)
  unfolding poll
  poll-Keeps format s = elim (Option-cases (receive s.queue)) [
    | inl e ↦ rw e tt
    | inr ((claim, q), e) ↦ rw e (format_and_write-Keeps format s q claim (format claim) refl e)
  ]

  set_archive-promised :
      (i : ℕ) (s : Stream R) (xs : List (ArchiveStream R)) (x : ArchiveStream R)
      → get_elem? xs i ≡ some x
      → promised x.format_fn s ≡ promised x.format_fn x.stream
      → map archive_promised (set_archive R i s xs) ≡ map archive_promised xs
  unfolding set_archive
  set_archive-promised i s [] x e k = refl
  set_archive-promised zero s (y ∷ ys) x e k =
      ap (λ p. p ∷ map archive_promised ys)
        (subst (λ z. promised z.format_fn s ≡ promised z.format_fn z.stream) (sym (some_inj e)) k)
  set_archive-promised (suc i) s (y ∷ ys) x e k = rw (set_archive-promised i s ys x e k)

  flush_all-promised :
      (xs : List (ArchiveStream R))
      → map archive_promised (flush_all R xs) ≡ map archive_promised xs
  unfolding flush_all
  flush_all-promised [] = refl
  flush_all-promised (x ∷ xs) = rw (flushed-promised x.format_fn x.stream, flush_all-promised xs)

  -- A stream that is left, closed by a flush or not at all.
  abbrev Closes : (Stream R → Stream R) → Type 0
  Closes close =
      (format : Bytes → Option Bytes) (s : Stream R) → promised format (close s) ≡ promised format s

  module _ (format_log : Bytes → Option Bytes) where
    after_log-promises :
        (again next : Phase) (close : Stream R → Stream R) (a : Archiver R) (p : Polled R)
        → Closes close
        → Keeps format_log a.log p
        → (after_log R again next close a p).phase ≢ died
        → promises format_log (after_log R again next close a p) ≡ promises format_log a
    unfolding after_log
    after_log-promises again next close a empty c k alive = rw (c format_log a.log)
    after_log-promises again next close a (took s) c k alive = rw k
    after_log-promises again next close a (panicked s) c k alive = absurd (alive refl)

    after_archive-promises :
        (i : ℕ) (again next : Phase) (close : Stream R → Stream R) (a : Archiver R)
        (x : ArchiveStream R) (p : Polled R)
        → Closes close
        → get_elem? a.archives i ≡ some x
        → Keeps x.format_fn x.stream p
        → (after_archive R i again next close a x.stream p).phase ≢ died
        → promises format_log (after_archive R i again next close a x.stream p)
          ≡ promises format_log a
    unfolding after_archive
    after_archive-promises i again next close a x empty c e k alive =
        rw (set_archive-promised i (close x.stream) a.archives x e (c x.format_fn x.stream))
    after_archive-promises i again next close a x (took s) c e k alive =
        rw (set_archive-promised i s a.archives x e k)
    after_archive-promises i again next close a x (panicked s) c e k alive = absurd (alive refl)

    at_archive-promises :
        (i : ℕ) (again next end : Phase) (close : Stream R → Stream R) (a : Archiver R)
        (o : Option (ArchiveStream R))
        → Closes close
        → get_elem? a.archives i ≡ o
        → (at_archive R i again next end close a o).phase ≢ died
        → promises format_log (at_archive R i again next end close a o) ≡ promises format_log a
    unfolding at_archive
    at_archive-promises i again next end close a none c e alive = refl
    at_archive-promises i again next end close a (some x) c e alive =
        after_archive-promises i again next close a x (poll R x.format_fn x.stream) c e
          (poll-Keeps x.format_fn x.stream) alive

    left_open : Closes (λ s. s)
    left_open format s = refl

    tick_at-promises :
        (phase : Phase) (running : Bool) (a : Archiver R)
        → (tick_at R format_log phase running a).phase ≢ died
        → promises format_log (tick_at R format_log phase running a) ≡ promises format_log a
    unfolding tick_at
    tick_at-promises test running a alive = refl
    tick_at-promises (poll_log w) running a alive =
        after_log-promises (poll_log true) (poll_archive 0 w) (λ s. s) a (poll R format_log a.log)
          left_open (poll-Keeps format_log a.log) alive
    tick_at-promises (poll_archive i w) running a alive =
        at_archive-promises i (poll_archive i true) (poll_archive (suc i) w) (settle w) (λ s. s) a
          (get_elem? a.archives i) left_open refl alive
    tick_at-promises (settle true) running a alive =
        rw (flushed-promised format_log a.log, flush_all-promised a.archives)
    tick_at-promises (settle false) running a alive = refl
    tick_at-promises drain_log running a alive =
        after_log-promises drain_log (drain_archive 0) (flushed R) a (poll R format_log a.log)
          flushed-promised (poll-Keeps format_log a.log) alive
    tick_at-promises (drain_archive i) running a alive =
        at_archive-promises i (drain_archive i) (drain_archive (suc i)) done (flushed R) a
          (get_elem? a.archives i) flushed-promised refl alive
    tick_at-promises done running a alive = refl
    tick_at-promises died running a alive = refl

    pub tick-promises :
        (running : Bool) (a : Archiver R)
        → (tick R format_log running a).phase ≢ died
        → promises format_log (tick R format_log running a) ≡ promises format_log a
    unfolding tick
    tick-promises running a alive = tick_at-promises a.phase running a alive
