-- ===== src/Consumer/Ending/Loop.antt =====
-- While the guard is there, the loop comes round to the log and empties it.
use inqjet.Common.{
  ℕ, zero, suc, ◌+◌, ◌-◌, ◌≤◌, ◌<◌, ◌≡◌, refl, sym, ◌≢◌, ◌⊎◌, inl, inr, Bool, true, false, Option,
  [], arith, get_elem?, All,
}
use mathlib.Core.Path.{subst}
use inqjet.Common.Bytes.{Bytes}
use inqjet.Logbuf.{Logbuf}
use inqjet.Consumer.{
  Phase, test, poll_log, poll_archive, settle, drain_log, drain_archive, done, died, Archiver,
  Polled, empty, took, panicked, poll, flushed, after_log, tick_at, tick, ticks,
}
use inqjet.Consumer.Promise.{promises, tick-promises}
use inqjet.Consumer.Ending.{
  measured, Shrinks, poll-Shrinks, at_archive-measure, open-Leaves, waiting-flush_all,
}
use inqjet.Consumer.Closing.{AllFormat}
use inqjet.Consumer.Alive.{tick-alive}
use inqjet.Consumer.Delivery.Stop.{IsLooping, tick_at-IsLooping}

-- How far a phase of the loop is from the next claim in the log.
abbrev pub lap : ℕ → Phase → ℕ
lap k (poll_archive i w) = 3 + (k - i)
lap k (settle w) = 2
lap k test = 1
lap k phase = 0

module _ (R : Logbuf) where
  open R use {Queue, pending}

  module _ (format_log : Bytes → Option Bytes) where
    abbrev pub IsEmpty : Archiver R → Type 0
    IsEmpty a = pending a.log.queue ≡ []

    after_log-lap :
        (w : Bool) (a : Archiver R) (p : Polled R)
        → a.phase ≡ poll_log w
        → Shrinks R a.log p
        → IsEmpty a
          ⊎ (measured R lap (after_log R (poll_log true) (poll_archive 0 w) (λ s. s) a p)
              < measured R lap a)
    unfolding after_log
    after_log-lap w a empty e k = inl k
    after_log-lap w a (took s) e k = inr (rw e (omega arith))
    after_log-lap w a (panicked s) e k = inr (rw e (omega arith))

    tick_at-lap :
        (phase : Phase) (a : Archiver R)
        → a.phase ≡ phase
        → phase ≢ died
        → IsLooping phase
        → IsEmpty a ⊎ (measured R lap (tick_at R format_log phase true a) < measured R lap a)
    unfolding tick_at flushed
    tick_at-lap test a e alive l = inr (rw e (omega arith))
    tick_at-lap (poll_log w) a e alive l =
        after_log-lap w a (poll R format_log a.log) e (poll-Shrinks R format_log a.log)
    tick_at-lap (poll_archive i w) a e alive l = inr (
        at_archive-measure R format_log lap (λ k. refl) i (poll_archive i true)
          (poll_archive (suc i) w) (settle w) (λ s. s) a (get_elem? a.archives i)
          (open-Leaves R format_log) refl (rw e (omega arith)) (λ lt. rw e (omega arith))
          (rw e (omega arith)))
    tick_at-lap (settle true) a e alive l =
        inr (rw (e, waiting-flush_all R a.archives) (omega arith))
    tick_at-lap (settle false) a e alive l = inr (rw e (omega arith))
    tick_at-lap drain_log a e alive l = absurd l
    tick_at-lap (drain_archive i) a e alive l = absurd l
    tick_at-lap done a e alive l = absurd l
    tick_at-lap died a e alive l = absurd (alive refl)

    -- A thread in its loop, with formatting that panics on no record, comes to a moment at which no
    -- record of the log waits, if nothing more is committed.
    pub empties :
        (n : ℕ) (a : Archiver R)
        → measured R lap a ≤ n
        → All AllFormat (promises R format_log a)
        → a.phase ≢ died
        → IsLooping a.phase
        → (m : ℕ) × IsEmpty (ticks R format_log m true a)
    unfolding ticks tick
    empties zero a enough formats alive l = elim (tick_at-lap a.phase a refl alive l) [
      | inl e ↦ (0, e)
      | inr smaller ↦ absurd (omega arith)
    ]
    empties (suc n) a enough formats alive l = elim (tick_at-lap a.phase a refl alive l) [
      | inl e ↦ (0, e)
      | inr smaller ↦
          let alive' = tick-alive R format_log a formats true alive in
          let same = tick-promises R format_log true a alive' in
          let (m, e) =
            empties n (tick R format_log true a) (omega arith)
              (subst (All AllFormat) (sym same) formats) alive'
              (tick_at-IsLooping R format_log a.phase a refl l) in
          (suc m, e)
    ]
