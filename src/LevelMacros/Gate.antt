-- ===== src/LevelMacros/Gate.antt =====
-- Which calls pass the level gate.
use inqjet.Common.{
  not, refl, ◌∙◌, ℕ, ◌≡◌, refl, ◌∙◌, Bool, true, false, not, Option, some, List, arith, leb,
  if◌then◌else◌,
}
use inqjet.Common.Bytes.{Bytes, Endian}
use inqjet.Config.{LevelFilter, as_u8, LogLevel, level_to_u8}
use inqjet.Logbuf.{Logbuf}
use inqjet.Logger.{LoggerState, Moment, ignored, log_enabled, log, log_impl}
use inqjet.Macros.Parse.{Piece}
use inqjet.Pod.{Arg, Stash}
use inqjet.HotLog.{Fmt}
use inqjet.HotLog.Block.{hot_block}
use inqjet.Builder.{Process, set_level}
use inqjet.LevelMacros.{LevelMacro, macro_level, macro_target, log_macro}

-- What the documentation of `LevelFilter` says of each filter.
abbrev pub allows : LevelFilter → LogLevel → Bool
allows LevelFilter.off m = false
allows LevelFilter.error LogLevel.error = true
allows LevelFilter.error m = false
allows LevelFilter.warn LogLevel.error = true
allows LevelFilter.warn LogLevel.warn = true
allows LevelFilter.warn m = false
allows LevelFilter.info LogLevel.debug = false
allows LevelFilter.info LogLevel.trace = false
allows LevelFilter.info m = true
allows LevelFilter.debug LogLevel.trace = false
allows LevelFilter.debug m = true
allows LevelFilter.trace m = true

-- The level that a macro is named after.
abbrev pub named : LevelMacro → LogLevel
named LevelMacro.error = LogLevel.error
named LevelMacro.warn = LogLevel.warn
named LevelMacro.info = LogLevel.info
named LevelMacro.debug = LogLevel.debug
named LevelMacro.trace = LogLevel.trace

gate : (f : LevelFilter) (l : LogLevel) → leb (level_to_u8 l) (as_u8 f) ≡ allows f l
unfolding as_u8 level_to_u8
gate f l = ground arith

if_not {ℓ} : {A : Type ℓ} (b : Bool) (x y : A) → (if not b then x else y) ≡ (if b then y else x)
if_not true x y = refl
if_not false x y = refl

macro_level-named : (m : LevelMacro) → macro_level m ≡ level_to_u8 (named m)
unfolding macro_level level_to_u8
macro_level-named m = ground arith

module _ (R : Logbuf) {W : Type 0} (f : LevelFilter) (p : Process W) where
  -- After `set_level`, a macro runs its block exactly if the filter's documentation lets its level
  -- pass; otherwise it leaves the queue and the stash as they are, and wakes nobody. The bridge of
  -- the `log` crate lets the same levels pass.
  pub log_macro-set_level :
      (e : Endian) (F : Fmt) (logger : Option (LoggerState R)) (running borrowed : Bool)
      (m : LevelMacro) (target : Option Bytes) (module_path : Bytes) (line : ℕ)
      (pieces : List Piece) (args : List Arg) (fmt_fn now : ℕ) (ms : List (Moment R)) (s : Stash)
      (message : Bytes) (record_target : Bytes)
      → (log_macro R e F
            (set_level f p).max_level
            logger
            running
            borrowed
            m
            target
            module_path
            line
            pieces
            args
            fmt_fn
            now
            ms
            s
          ≡ (if allows f (named m)
              then hot_block R e F logger running borrowed
                  (record {
                    level = level_to_u8 (named m);
                    target = macro_target target module_path;
                    line = line;
                    pieces = pieces;
                    args = args;
                  })
                  fmt_fn
                  now
                  ms
                  s
              else some ((ignored, 0), s)))
        × (log R e
              (set_level f p).max_level
              logger
              running
              borrowed
              (named m)
              record_target
              (some line)
              message
              fmt_fn
              now
              ms
            ≡ (if allows f (named m)
                then log_impl R e logger running borrowed
                    (level_to_u8 (named m))
                    record_target
                    line
                    message
                    fmt_fn
                    now
                    ms
                else (ignored, 0)))
  unfolding log_macro log log_enabled set_level
  log_macro-set_level e F logger running borrowed m target module_path line pieces args fmt_fn now
        ms s message record_target =
      (
        rw (macro_level-named m, gate f (named m)),
        if_not (leb (level_to_u8 (named m)) (as_u8 f)) _ _ ∙ rw (gate f (named m)),
      )
