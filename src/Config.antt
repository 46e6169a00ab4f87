-- ===== src/Config.antt =====
-- inqjet/src/lib.rs: the values a user configures the logger with, and the numbers they become.
use inqjet.Common.{ℕ, Bool, true, false, not, Option, none, some, if◌then◌else◌}

pub data LevelFilter : Type 0 where
  off error warn info debug trace : LevelFilter

-- The `log` crate's levels.
pub data LogLevel : Type 0 where
  error warn info debug trace : LogLevel

-- The `log` crate's filters.
pub data LogLevelFilter : Type 0 where
  off error warn info debug trace : LogLevelFilter

unfoldable pub as_u8 : LevelFilter → ℕ
as_u8 LevelFilter.off = 0
as_u8 LevelFilter.error = 1
as_u8 LevelFilter.warn = 2
as_u8 LevelFilter.info = 3
as_u8 LevelFilter.debug = 4
as_u8 LevelFilter.trace = 5

unfoldable pub from_log : LogLevelFilter → LevelFilter
from_log LogLevelFilter.off = LevelFilter.off
from_log LogLevelFilter.error = LevelFilter.error
from_log LogLevelFilter.warn = LevelFilter.warn
from_log LogLevelFilter.info = LevelFilter.info
from_log LogLevelFilter.debug = LevelFilter.debug
from_log LogLevelFilter.trace = LevelFilter.trace

unfoldable pub into_log : LevelFilter → LogLevelFilter
into_log LevelFilter.off = LogLevelFilter.off
into_log LevelFilter.error = LogLevelFilter.error
into_log LevelFilter.warn = LogLevelFilter.warn
into_log LevelFilter.info = LogLevelFilter.info
into_log LevelFilter.debug = LogLevelFilter.debug
into_log LevelFilter.trace = LogLevelFilter.trace

unfoldable pub level_to_u8 : LogLevel → ℕ
level_to_u8 LogLevel.error = 1
level_to_u8 LogLevel.warn = 2
level_to_u8 LogLevel.info = 3
level_to_u8 LogLevel.debug = 4
level_to_u8 LogLevel.trace = 5

pub data ColorMode : Type 0 where
  auto always never : ColorMode

pub data BackpressureMode : Type 0 where
  backoff drop : BackpressureMode

pub data InqJetBuilderError : Type 0 where
  no_configured_writer no_configured_log_level already_initialized : InqJetBuilderError

-- What `is_color_enabled` asks the system: whether stdout is a terminal, whether `NO_COLOR` is set,
-- and what `TERM` holds, if anything.
pub record Terminal : Type 0 where
  pub is_terminal : Bool
  pub no_color : Bool
  pub term_is_dumb : Option Bool

unfoldable pub is_color_enabled : ColorMode → Terminal → Bool
is_color_enabled ColorMode.auto t =
    if not t.is_terminal
    then false
    else if t.no_color
    then false
    else elim t.term_is_dumb [ some dumb ↦ not dumb | none ↦ true ]
is_color_enabled ColorMode.always t = true
is_color_enabled ColorMode.never t = false
