-- ===== src/Examples/Calls.antt =====
-- Calls from the macro to the line that the archiver writes for them.
use inqjet.Common.{
  ℕ, ◌≡◌, refl, true, false, none, some, List, [], ◌∷◌, ◌++◌, map, arith, length, replicate, ◌>>=◌,
}
use inqjet.Common.Bytes.{Bytes, little, to_le_bytes}
use inqjet.Config.{BackpressureMode, LevelFilter, LogLevel}
use inqjet.Record.{FormatFn, standard_record_size}
use inqjet.Format.{standard_format_fn, write_log_prefix}
use inqjet.Macros.Parse.{Piece}
use inqjet.Pod.{
  Stash, fresh_stash, hot_witness, hot_encode, hot_encode_str, fallback_stash_encode, hot_size_with,
  fallback_stash_clear,
}
use inqjet.Pod.Fallback.{IsStash}
use inqjet.HotLog.{
  hot_fmt, encode_closure, prepare, encode_args, size_args, prefix_encode, with_texts,
}
use inqjet.HotLog.Invariant.{block-IsStash}
use inqjet.Logger.{submitted, ignored, log, log_impl}
use inqjet.LevelMacros.{LevelMacro, log_macro}
use inqjet.LevelMacros.Gate.{log_macro-set_level}
use inqjet.Builder.{set_level}
use inqjet.Consumer.{format_claim}
use inqjet.EndToEnd.{log_impl-line}
use inqjet.Examples.Data.{
  net, hello, net-IsText, hello-IsText, sample_fmt, sample_call, full_moment, free_moment,
  no_process,
}
use inqjet.Examples.Queue.{list_logbuf}

-- A process whose only call sites are `sample_call` and the `log` crate's.
abbrev call_site : ℕ → FormatFn
call_site a = hot_fmt sample_fmt false (map hot_witness sample_call.args) sample_call.pieces

abbrev log_site : ℕ → FormatFn
log_site a = standard_format_fn true

fresh : IsStash fresh_stash
fresh = record { clean = λ e. refl }

log_impl-line_example :
    (q' : List Bytes) × (bytes : Bytes) × (log_impl list_logbuf little
        (some (record { backpressure = BackpressureMode.backoff }))
        true
        false
        3
        net
        42
        hello
        8192
        1000
        (full_moment ∷ free_moment ∷ full_moment ∷ [])
      ≡ (submitted q', 1))
    × (q' ≡ (net ∷ []) ++ (bytes ∷ []))
    × (format_claim little log_site bytes ≡ (
        write_log_prefix true 1000 3 net 42 >>= λ prefix. some (prefix ++ (hello ++ (b'\n' ∷ [])))))
log_impl-line_example =
    log_impl-line list_logbuf little log_site true 3 net 42 hello 8192 1000 (full_moment ∷ [])
      free_moment (full_moment ∷ [])
      (replicate (standard_record_size (length net) (length hello)) 0) (net ∷ []) (omega arith)
      (omega arith) net-IsText hello-IsText (omega arith) (omega arith) (omega arith) refl
      (refl, refl, tt) refl tt

abbrev warned : List Piece
warned = Piece.text hello ∷ []

log_macro-set_level_example :
    (log_macro list_logbuf little sample_fmt
        (set_level LevelFilter.info no_process).max_level
        none
        true
        false
        LevelMacro.debug
        none
        net
        7
        warned
        []
        4096
        1000
        (free_moment ∷ [])
        fresh_stash
      ≡ some ((ignored, 0), fresh_stash))
    × (log list_logbuf little
          (set_level LevelFilter.info no_process).max_level
          none
          true
          false
          LogLevel.debug
          net
          (some 7)
          hello
          4096
          1000
          (free_moment ∷ [])
        ≡ (ignored, 0))
log_macro-set_level_example =
    log_macro-set_level list_logbuf LevelFilter.info no_process little sample_fmt none true false
      LevelMacro.debug none net 7 warned [] 4096 1000 (free_moment ∷ []) fresh_stash hello net

-- The call's stash as its sizing leaves it, and as its encoding does.
abbrev sized : Stash
sized = record { dirty = true; buf = b'?' ∷ b':' ∷ b'x' ∷ []; offsets = 0 ∷ []; read_idx = 0 }

abbrev encoded : Stash
encoded = record sized { read_idx = 1 }

abbrev payload : Bytes
payload =
    to_le_bytes 4 12
    ++ (to_le_bytes 2 3
        ++ (net
            ++ (to_le_bytes 4 7
                ++ (to_le_bytes 4 3 ++ ((b'?' ∷ b':' ∷ b'x' ∷ []) ++ (to_le_bytes 4 2 ++ hello))))))

prepared : prepare sample_fmt sample_call fresh_stash ≡ some (26, 4 ∷ 7 ∷ 6 ∷ [], sized)
unfolding prepare size_args with_texts hot_size_with fallback_stash_clear
prepared = refl

written :
    encode_closure sample_call
      (with_texts sample_fmt sample_call.pieces sample_call.args)
      (4 ∷ 7 ∷ 6 ∷ [])
      sized
      (replicate 26 0)
    ≡ some (payload, encoded)
unfolding encode_closure encode_args prefix_encode hot_encode hot_encode_str fallback_stash_encode
    with_texts
written = refl

block-IsStash_example : IsStash sized × IsStash encoded
block-IsStash_example =
    block-IsStash sample_fmt sample_call fresh_stash sized encoded 26 (4 ∷ 7 ∷ 6 ∷ [])
      (replicate 26 0) payload fresh prepared written
