-- ===== src/Producers.antt =====
-- inqjet/src/logger.rs: many threads in the loops of `hot_log_submit` and `log_impl` at a time, and
-- the archiver beside them. A `turn` is one action of a thread on what it shares with the others:
-- a load of `running`, a `try_claim`, or the commit of its claim.
pub mod Order
pub mod Backoff
pub mod Claims
pub mod Held
pub mod Turns
pub mod Delivered
pub mod Shutdown
pub mod Dropped
pub mod Leaving
pub mod Effort
pub mod Acts
pub mod Progress
use inqjet.Common.{
  ℕ, zero, suc, ◌+◌, ◌-◌, ◌*◌, ◌/◌, ◌%◌, ◌^◌, ◌≤◌, ◌<◌, min, ◌≡◌, refl, sym, ap, ◌∙◌, ◌≡⟨◌⟩◌, ◌∎,
  ◌≢◌, ◌↔◌, ◌⊎◌, inl, inr, Bool, true, false, not, ◌&&◌, ◌||◌, Option, none, some, List, [], ◌∷◌,
  ◌++◌, map, append-nil, append_assoc, arith, ltb, leb, ◌==◌, if◌then◌else◌, ltb→lt, lt→ltb, le→ltb,
  leb→le, le→leb, lt→leb, Bool-cases, Option-cases, length, get_elem?, take, drop, replicate, All,
  length-append, length-drop, length-take, length-replicate, take-append-drop, take-append,
  drop-append, take-length, drop-length, drop-drop, take-append_at, drop-append_at, take-all,
  drop-all, ◌>>=◌, ◌>>◌, assert, >>=-eq-some, some_inj, some-none, assert-eq-some, set,
}
use inqjet.Common.Bytes.{Bytes}
use inqjet.Config.{BackpressureMode}
use inqjet.Logbuf.Mpsc.{Mpsc, logbuf}
use inqjet.Consumer.{Archiver, tick}

-- A submission that has been prepared: the size to claim, and what is written into the region, where
-- `none` is a panic.
pub record Job : Type 0 where
  pub total_size : ℕ
  pub fill : Bytes → Option Bytes

-- Where a thread is: between two calls, at the head of the loop, behind `BufferFull` under `Backoff`,
-- or behind a successful claim with the claim's number and region. A panic has unwound it.
pub data Place : Type 0 where
  between : Place
  trying full : Job → Place
  holding : Job → ℕ → Bytes → Place
  unwound : Place

-- The calls that the thread has still to make.
pub record Producer : Type 0 where
  pub place : Place
  pub calls : List Job

-- What a turn is to an observer: a call's record got its place in the queue, or the call returned
-- without one.
pub data Note : Type 0 where
  silent : Note
  claimed skipped : Job → Note

module _ (M : Mpsc) where
  open M use {Queue, try_claim, commit}

  pub record Turn : Type 0 where
    pub producer : Producer
    pub queue : Queue
    pub note : Note

  abbrev at : Place → Producer → Queue → Note → Turn
  at place p q note = record { producer = record p { place = place }; queue = q; note = note }

  -- The entry's test of the flag.
  enter : Bool → Queue → Producer → List Job → Turn
  enter running q p [] = at between p q silent
  enter true q p (j ∷ js) = at (trying j) (record p { calls = js }) q silent
  enter false q p (j ∷ js) = at between (record p { calls = js }) q (skipped j)

  -- The answer to `try_claim`.
  after_claim : BackpressureMode → Queue → Producer → Job → Option (ℕ × Bytes × Queue) → Turn
  after_claim mode q p j (some (t, region, q')) = at (holding j t region) p q' (claimed j)
  after_claim BackpressureMode.drop q p j none = at between p q (skipped j)
  after_claim BackpressureMode.backoff q p j none = at (full j) p q silent

  -- The flag behind `BufferFull`; waking the archiver changes nothing here.
  after_full : Bool → Queue → Producer → Job → Turn
  after_full true q p j = at (trying j) p q silent
  after_full false q p j = at between p q (skipped j)

  after_fill : Queue → Producer → ℕ → Option Bytes → Turn
  after_fill q p t (some bytes) = at between p (commit q t bytes) silent
  after_fill q p t none = at unwound p q silent

  turn_at : Place → BackpressureMode → Bool → Queue → Producer → Turn
  unfolding enter after_claim after_full after_fill
  turn_at between mode running q p = enter running q p p.calls
  turn_at (trying j) mode running q p = after_claim mode q p j (try_claim q j.total_size)
  turn_at (full j) mode running q p = after_full running q p j
  turn_at (holding j t region) mode running q p = after_fill q p t (j.fill region)
  turn_at unwound mode running q p = at unwound p q silent

  unfoldable pub turn : BackpressureMode → Bool → Queue → Producer → Turn
  unfolding turn_at
  turn mode running q p = turn_at p.place mode running q p

  -- The queue is the one that the archiver's log stream receives from.
  pub record System : Type 0 where
    pub archiver : Archiver (logbuf M)
    pub producers : List Producer
    pub running : Bool

  abbrev pub queue_of : System → Queue
  queue_of s = s.archiver.log.queue

  -- The system after a thread's turn.
  abbrev pub turned : System → ℕ → Turn → System
  turned s i t = record s {
    archiver = record s.archiver { log = record s.archiver.log { queue = t.queue } };
    producers = set s.producers i t.producer;
  }

  module _ (mode : BackpressureMode) (format_log : Bytes → Option Bytes) where
    -- The threads act in any order, and the guard may be dropped at any moment. The number is the
    -- thread's.
    pub data Step : System → ℕ → Note → System → Type 0 where
      archive :
          (s : System) (i : ℕ)
          → Step s i silent
              (record s { archiver = tick (logbuf M) format_log s.running s.archiver })
      produce :
          (s : System) (i : ℕ) (p : Producer)
          → get_elem? s.producers i ≡ some p
          → Step s i
              (turn mode s.running (queue_of s) p).note
              (turned s i (turn mode s.running (queue_of s) p))
      stop : (s : System) (i : ℕ) → Step s i silent (record s { running = false })

    -- The notes of a run, with the threads that they are of, the first in front.
    pub data Run (s : System) : List (ℕ × Note) → System → Type 0 where
      start : Run s [] s
      next :
          {t u : System} {i : ℕ} {note : Note} {es : List (ℕ × Note)}
          → Run s es t
          → Step t i note u
          → Run s (es ++ ((i, note) ∷ [])) u

-- The calls that got a place in the queue, in the order of their places, each with its thread.
abbrev pub claims : List (ℕ × Note) → List (ℕ × Job)
claims [] = []
claims ((i, silent) ∷ es) = claims es
claims ((i, claimed j) ∷ es) = (i, j) ∷ claims es
claims ((i, skipped j) ∷ es) = claims es

-- A thread's calls among them.
abbrev pub of_thread : ℕ → List (ℕ × Job) → List Job
of_thread k [] = []
of_thread k ((i, j) ∷ cs) = let rest = of_thread k cs in if k == i then j ∷ rest else rest

abbrev pub claims_by : ℕ → List (ℕ × Note) → List Job
claims_by k es = of_thread k (claims es)

-- A thread's calls that have got a place or returned without one.
abbrev pub calls_by : ℕ → List (ℕ × Note) → List Job
calls_by i [] = []
calls_by i ((k, silent) ∷ es) = calls_by i es
calls_by i ((k, claimed j) ∷ es) = let rest = calls_by i es in if i == k then j ∷ rest else rest
calls_by i ((k, skipped j) ∷ es) = let rest = calls_by i es in if i == k then j ∷ rest else rest
