-- ===== src/Consumer/Shutdown.antt =====
-- The drain at shutdown writes everything that is owed, and flushes every writer behind it.
use mathlib.Core.Path.{subst}
use inqjet.Common.{
  ℕ, zero, suc, ◌≤◌, ◌≡◌, refl, sym, ◌∙◌, ◌≢◌, inl, inr, false, Option, append-nil, All,
}
use inqjet.Common.Bytes.{Bytes}
use inqjet.Logbuf.{Logbuf}
use inqjet.Consumer.{done, died, Archiver, tick, ticks}
use inqjet.Consumer.Promise.{promises, tick-promises}
use inqjet.Consumer.Ending.Drained.{tick_at-Drains}
use inqjet.Consumer.Alive.{tick_at-alive}
use inqjet.Consumer.Ending.{measure, ticks-Ended}
use inqjet.Consumer.Closing.{AllFormat, IsClosed, AllClosed, IsDrained, outputs, closed-outputs}

module _ (R : Logbuf) where
  open R use {Queue, pending}

  module _ (format_log : Bytes → Option Bytes) where
    -- A step of the drain, or of the loop, from a state that can go on.
    abbrev Goes : Archiver R → Type 0
    Goes a = (a.phase ≢ died) × IsDrained R a.phase a

    tick-Goes :
        (a : Archiver R)
        → All AllFormat (promises R format_log a)
        → Goes a
        → Goes (tick R format_log false a)
    unfolding tick
    tick-Goes a h (alive, d) = (
      tick_at-alive R format_log a h a.phase false refl alive,
      tick_at-Drains R format_log a.phase a refl d,
    )

    -- What all the actions of the shutdown keep.
    ticks-Goes :
        (n : ℕ) (a : Archiver R)
        → All AllFormat (promises R format_log a)
        → Goes a
        → Goes (ticks R format_log n false a)
          × (promises R format_log (ticks R format_log n false a) ≡ promises R format_log a)
    unfolding ticks
    ticks-Goes zero a h g = (g, refl)
    ticks-Goes (suc n) a h g =
        let g' : Goes (tick R format_log false a) = tick-Goes a h g in
        let same = tick-promises R format_log false a g'.0 in
        let (g'', same') =
          ticks-Goes n (tick R format_log false a) (subst (All AllFormat) (sym same) h) g' in
        (g'', same' ∙ same)

    outputs-promises :
        (a : Archiver R)
        → IsClosed R a.log
        → AllClosed R a.archives
        → outputs R a ≡ promises R format_log a
    outputs-promises a l xs = rw (l.0, append-nil, closed-outputs R a.archives xs)

    -- From the loop, or from the beginning of the drain, with `running` false, no more commits and
    -- no record whose formatting panics: within as many actions as `measure` gives, the thread is at
    -- its end; every writer was given what was owed to it, in order, and then flushed; and nothing
    -- waits.
    pub ticks-outputs :
        (a : Archiver R) (n : ℕ)
        → All AllFormat (promises R format_log a)
        → a.phase ≢ died
        → IsDrained R a.phase a
        → measure R a ≤ n
        → ((ticks R format_log n false a).phase ≡ done)
          × (outputs R (ticks R format_log n false a) ≡ promises R format_log a)
          × IsClosed R (ticks R format_log n false a).log
          × AllClosed R (ticks R format_log n false a).archives
    ticks-outputs a n h alive d enough =
        let ((alive', d'), same) = ticks-Goes n a h (alive, d) in
        let ended = ticks-Ended R format_log n a enough in
        let e : (ticks R format_log n false a).phase ≡ done = elim ended [
          | inl e ↦ e
          | inr e ↦ absurd (alive' e)
        ] in
        let (l, xs) = rw e at d' in
        (e, outputs-promises (ticks R format_log n false a) l xs ∙ same, l, xs)
