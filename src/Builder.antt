-- ===== src/Builder.antt =====
-- inqjet/src/lib.rs: building the logger and shutting it down. The process's global state is a
-- record; queues, flags and threads are numbered in the order in which they are created.
pub mod Build
pub mod Overlap
pub mod Ownership
use inqjet.Common.{
  ℕ, zero, suc, ◌+◌, ◌-◌, Bool, true, false, Option, none, some, List, [], ◌∷◌, ◌++◌, length, drop,
}
use inqjet.Config.{
  LevelFilter, LogLevelFilter, as_u8, into_log, ColorMode, BackpressureMode, InqJetBuilderError,
  Terminal, is_color_enabled,
}

abbrev pub default_capacity : ℕ
default_capacity = 65536

-- Five milliseconds, in nanoseconds.
abbrev pub default_timeout : ℕ
default_timeout = 5000000

-- An archive stream: its queue, its writer, and the tag type whose format function it is given.
pub record ArchiveStream (W : Type 0) : Type 0 where
  pub queue : ℕ
  pub writer : W
  pub format_fn : ℕ

pub record InqJetBuilder (W : Type 0) : Type 0 where
  pub wr : Option W
  pub level : Option LevelFilter
  pub cap : Option ℕ
  pub timeout : Option ℕ
  pub color_mode : ColorMode
  pub backpressure : BackpressureMode
  pub archives : List (ArchiveStream W)

-- What the static `LOGGER` holds once it is set; `unparker` is the number of the archiver thread.
pub record LoggerState : Type 0 where
  pub source_producer : ℕ
  pub unparker : ℕ
  pub backpressure : BackpressureMode
  pub running : ℕ

-- The archiver thread, with what moved into it.
pub record Archiver (W : Type 0) : Type 0 where
  pub consumer : ℕ
  pub writer : W
  pub archives : List (ArchiveStream W)
  pub running : ℕ
  pub timeout : Option ℕ

-- The process: the statics, the `log` crate's two settings, the capacity that each queue was asked for
-- with, which nexus_logbuf rounds up to a power of two, each `running` flag, the archivers, and the
-- archivers unparked and joined so far.
pub record Process (W : Type 0) : Type 0 where
  pub logger : Option LoggerState
  pub max_level : ℕ
  pub color_enabled : Bool
  pub log_max_level : LogLevelFilter
  pub log_registered : Bool
  pub queues : List ℕ
  pub flags : List Bool
  pub threads : List (Archiver W)
  pub unparked : List ℕ
  pub joined : List ℕ

pub record InqJetGuard : Type 0 where
  pub handle : Option ℕ
  pub running : ℕ
  pub unparker : ℕ

pub data Result (A : Type 0) : Type 0 where
  ok : A → Result A
  err : InqJetBuilderError → Result A

abbrev set_at : ℕ → Bool → List Bool → List Bool
set_at i b [] = []
set_at zero b (x ∷ xs) = b ∷ xs
set_at (suc i) b (x ∷ xs) = x ∷ set_at i b xs

abbrev pub unwrap_or {ℓ} : {A : Type ℓ} → Option A → A → A
unwrap_or (some a) d = a
unwrap_or none d = d

-- `let _ = LOGGER.set(...)`: what is set stays.
set_once : Option LoggerState → LoggerState → Option LoggerState
set_once (some s) new = some s
set_once none new = some new

module _ {W : Type 0} where
  unfoldable pub default : InqJetBuilder W
  default = record {
    wr = none;
    level = none;
    cap = none;
    timeout = some default_timeout;
    color_mode = ColorMode.auto;
    backpressure = BackpressureMode.backoff;
    archives = [];
  }

  unfoldable pub with_writer : InqJetBuilder W → W → InqJetBuilder W
  with_writer b wr = record b { wr = some wr }

  unfoldable pub with_buffer_size : InqJetBuilder W → ℕ → InqJetBuilder W
  with_buffer_size b cap = record b { cap = some cap }

  unfoldable pub with_log_level : InqJetBuilder W → LevelFilter → InqJetBuilder W
  with_log_level b level = record b { level = some level }

  unfoldable pub with_timeout : InqJetBuilder W → Option ℕ → InqJetBuilder W
  with_timeout b timeout = record b { timeout = timeout }

  unfoldable pub with_color_mode : InqJetBuilder W → ColorMode → InqJetBuilder W
  with_color_mode b mode = record b { color_mode = mode }

  unfoldable pub with_backpressure : InqJetBuilder W → BackpressureMode → InqJetBuilder W
  with_backpressure b mode = record b { backpressure = mode }

  -- The handle is the number of its queue.
  unfoldable pub add_archive :
      InqJetBuilder W → (tag : ℕ) → W → ℕ → Process W → InqJetBuilder W × ℕ × Process W
  add_archive b tag writer buffer_size p =
      let queue = length p.queues in
      (
        record b {
          archives =
              b.archives ++ (record { queue = queue; writer = writer; format_fn = tag } ∷ []);
        },
        queue,
        record p { queues = p.queues ++ (buffer_size ∷ []) },
      )

  -- The checks, in their order.
  unfoldable pub checks :
      Option LoggerState → Option W → Option LevelFilter → Result (W × LevelFilter)
  checks (some s) wr level = err InqJetBuilderError.already_initialized
  checks none none level = err InqJetBuilderError.no_configured_writer
  checks none (some writer) none = err InqJetBuilderError.no_configured_log_level
  checks none (some writer) (some level) = ok (writer, level)

  -- The rest of `build`, which another thread's `build` may come before.
  unfoldable pub install :
      InqJetBuilder W → Terminal → W × LevelFilter → Process W → InqJetGuard × Process W
  unfolding set_once
  install b term (writer, level) p =
      let queue = length p.queues in
      let running = length p.flags in
      let thread = length p.threads in
      let state : LoggerState = record {
        source_producer = queue;
        unparker = thread;
        backpressure = b.backpressure;
        running = running;
      } in
      (
        record { handle = some thread; running = running; unparker = thread },
        record p {
          color_enabled = is_color_enabled b.color_mode term;
          queues = p.queues ++ (unwrap_or b.cap default_capacity ∷ []);
          flags = p.flags ++ (true ∷ []);
          threads =
              p.threads
              ++ (record {
                consumer = queue;
                writer = writer;
                archives = b.archives;
                running = running;
                timeout = b.timeout;
              }
                  ∷ []);
          logger = set_once p.logger state;
          max_level = as_u8 level;
          log_registered = true;
          log_max_level = into_log level;
        },
      )

  unfoldable pub build_with :
      InqJetBuilder W
      → Terminal
      → Process W
      → Result (W × LevelFilter)
      → Result InqJetGuard × Process W
  build_with b term p (err e) = (err e, p)
  build_with b term p (ok settings) =
      (ok (install b term settings p).0, (install b term settings p).1)

  unfoldable pub build : InqJetBuilder W → Terminal → Process W → Result InqJetGuard × Process W
  unfolding checks build_with
  build b term p = build_with b term p (checks p.logger b.wr b.level)

  unfoldable pub set_level : LevelFilter → Process W → Process W
  set_level level p = record p { max_level = as_u8 level; log_max_level = into_log level }

  join_thread : InqJetGuard → Option ℕ → Process W → InqJetGuard × Process W
  join_thread g none p = (g, p)
  join_thread g (some handle) p =
      (record g { handle = none }, record p { joined = p.joined ++ (handle ∷ []) })

  -- `drop` of the guard: stop, wake, join.
  unfoldable pub drop_guard : InqJetGuard → Process W → InqJetGuard × Process W
  unfolding join_thread
  drop_guard g p = join_thread g g.handle (record p {
    flags = set_at g.running false p.flags;
    unparked = p.unparked ++ (g.unparker ∷ []);
  })
