-- ===== src/LevelMacros.antt =====
-- inqjet/src/lib.rs: the macros `error!`, `warn!`, `info!`, `debug!` and `trace!`.
pub mod Gate
use inqjet.Common.{ℕ, ◌-◌, Bool, Option, none, some, List, if◌then◌else◌}
use inqjet.Common.Bytes.{Bytes, Endian}
use inqjet.Logbuf.{Logbuf}
use inqjet.Logger.{LoggerState, Moment, Outcome, ignored, log_enabled}
use inqjet.Macros.Parse.{Piece}
use inqjet.Pod.{Arg, Stash}
use inqjet.HotLog.{Fmt}
use inqjet.HotLog.Block.{hot_block}

pub data LevelMacro : Type 0 where
  error warn info debug trace : LevelMacro

-- The number that a macro passes to `log_enabled` and to `__hot_log!`.
unfoldable pub macro_level : LevelMacro → ℕ
macro_level error = 1
macro_level warn = 2
macro_level info = 3
macro_level debug = 4
macro_level trace = 5

-- The two arms: `target: ...`, or else `module_path!()`.
unfoldable pub macro_target : Option Bytes → Bytes → Bytes
macro_target (some target) module_path = target
macro_target none module_path = module_path

module _ (R : Logbuf) where
  -- `max_level` is what `MAX_LEVEL` holds. A call that the gate refuses evaluates no argument.
  unfoldable pub log_macro :
      Endian
      → Fmt
      → (max_level : ℕ) → Option (LoggerState R)
      → (running borrowed : Bool) → LevelMacro
      → (target : Option Bytes) → (module_path : Bytes) → (line : ℕ) → List Piece
      → List Arg
      → (fmt_fn now : ℕ) → List (Moment R)
      → Stash
      → Option ((Outcome R × ℕ) × Stash)
  log_macro e F max_level logger running borrowed m target module_path line pieces args fmt_fn now
        ms s =
      if log_enabled max_level (macro_level m)
      then hot_block R e F logger running borrowed
          (record {
            level = macro_level m;
            target = macro_target target module_path;
            line = line;
            pieces = pieces;
            args = args;
          })
          fmt_fn now ms s
      else some ((ignored, 0), s)
