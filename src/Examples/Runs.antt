-- ===== src/Examples/Runs.antt =====
-- The theorems at concrete inputs.
use inqjet.Common.{
  ℕ, ◌+◌, ◌*◌, ◌≡◌, refl, ◌≢◌, ◌⊎◌, true, false, none, some, List, [], ◌∷◌, ◌++◌, arith, length,
  take, drop, replicate, All, ◌>>=◌, Bool, if◌then◌else◌, ◌==◌,
}
use inqjet.Common.Bytes.{codes, Bytes, to_le_bytes, little}
use inqjet.Common.Int.{pos}
use inqjet.Config.{LevelFilter, BackpressureMode, InqJetBuilderError}
use inqjet.Record.{
  header_bytes, write_standard_payload, read_standard_payload, standard_record_size, RecordHeader,
  header_size, write_header, read_header,
}
use inqjet.Record.Header.{IsHeader, read_header-write_header}
use inqjet.Record.Payload.{read_standard_payload-write_standard_payload}
use inqjet.Format.{civil_from_days, format_timestamp}
use inqjet.Format.Calendar.{IsDate, day_number}
use inqjet.Format.Civil.{epoch, civil_from_days-IsDate}
use inqjet.Format.Timestamp.{read_instant, read_instant-format_timestamp}
use inqjet.Macros.{Parsed, explicit_index, parse_format_placeholders, generate, out_of_fuel}
use inqjet.Macros.Parse.{
  Piece, text, hole, print, holes, parse_format_placeholders-print,
  parse_format_placeholders_rejects, generate-ne-out_of_fuel, IsPiece,
}
use inqjet.Pod.{Stash, fallback_stash_encode}
use inqjet.Pod.Fallback.{Holds, fallback_stash_encode-Holds}
use inqjet.Logger.{hot_log_submit, Outcome, claim_loop}
use inqjet.Logger.Endings.{Ends, claim_loop-Ends}
use inqjet.Logger.Backpressure.{hot_log_submit-pending}
use inqjet.Builder.{
  InqJetBuilder, InqJetGuard, LoggerState, Result, ok, checks, build_with, build, install,
}
use inqjet.Builder.Build.{Refused, Starts, build_error, build-Starts}
use inqjet.Builder.Overlap.{Overlaps, overlapping_builds}
use inqjet.Archive.{ArchiveTag, record_size, archive_format_fn, write}
use inqjet.Archive.Line.{archive_format_fn-write}
use inqjet.Examples.Data.{
  net, hello, net-IsText, hello-IsText, full_moment, free_moment, no_process, pipe, bare, complete,
}
use inqjet.Examples.Queue.{list_logbuf, list_claim}

-- Days.
civil_from_days-IsDate_example :
    (y : ℕ) × (m : ℕ) × (d : ℕ) × (civil_from_days (pos 19782) ≡ some (pos y, m, d))
    × IsDate y m d
    × (day_number y m d ≡ epoch + 19782)
civil_from_days-IsDate_example = civil_from_days-IsDate 19782 (omega arith)

read_instant-format_timestamp_example :
    (t : Bytes) × (format_timestamp 1705329045123456789 ≡ some t)
    × (length t ≡ 30)
    × (read_instant t ≡ epoch * 86400 * 1_000_000_000 + 1705329045123456789)
read_instant-format_timestamp_example =
    read_instant-format_timestamp 1705329045123456789 (omega arith)

abbrev sample_header : RecordHeader
sample_header = record { timestamp_ns = 1000; formatter = 4096; level = 3; pad = replicate 7 0 }

sample_header-IsHeader : IsHeader sample_header
sample_header-IsHeader = record {
  timestamp_fits = omega arith;
  formatter_fits = omega arith;
  level_fits = omega arith;
  pad_size = refl;
}

read_header-write_header_example :
    (out : Bytes) × (write_header little (replicate 30 255) sample_header ≡ some out)
    × (read_header little out ≡ some sample_header)
    × (drop header_size out ≡ drop header_size (replicate 30 255))
    × (length out ≡ 30)
read_header-write_header_example =
    read_header-write_header little sample_header (replicate 30 255) sample_header-IsHeader
      (omega arith)

read_standard_payload-write_standard_payload_example :
    (out : Bytes) × (n : ℕ) × (write_standard_payload (replicate 20 255) 42 net hello
      ≡ some (out, n))
    × (header_size + n ≡ standard_record_size (length net) (length hello))
    × (read_standard_payload (take n out) ≡ some (42, net, hello))
    × (drop n out ≡ drop n (replicate 20 255))
read_standard_payload-write_standard_payload_example =
    read_standard_payload-write_standard_payload (replicate 20 255) 42 net hello (omega arith)
      (omega arith) net-IsText hello-IsText (unfold standard_record_size in omega arith)

-- `a{}{{:#x}`, of which the first brace pair is a placeholder and the doubled one a literal.
abbrev pub template : List Piece
template = text (b'a' ∷ []) ∷ hole [] ∷ text (b'{' ∷ []) ∷ hole (b':' ∷ b'#' ∷ b'x' ∷ []) ∷ []

pub template-IsPiece : All IsPiece template
template-IsPiece = (
  tt,
  (tt, (tt, ((refl, ((λ e. omega arith), ((λ e. omega arith), ((λ e. omega arith), tt)))), tt))),
)

parse_format_placeholders-print_example :
    parse_format_placeholders (print template) ≡ Parsed.ok (holes template)
parse_format_placeholders-print_example = parse_format_placeholders-print template template-IsPiece

parse_format_placeholders_rejects_example :
    parse_format_placeholders (print template ++ (b'{' ∷ ((b'0' ∷ []) ++ (b'}' ∷ b'z' ∷ []))))
    ≡ Parsed.err (explicit_index (b'0' ∷ []))
parse_format_placeholders_rejects_example =
    parse_format_placeholders_rejects template b'0' [] (b'z' ∷ []) template-IsPiece (λ e. cc)
      (λ e. cc) ((λ e. cc), tt)

generate-ne-out_of_fuel_example : generate (b'{' ∷ b'{' ∷ b'{' ∷ []) 2 ≢ out_of_fuel
generate-ne-out_of_fuel_example = generate-ne-out_of_fuel (b'{' ∷ b'{' ∷ b'{' ∷ []) 2

-- A stash that holds two texts, of which the first has been taken.
abbrev two_texts : Stash
two_texts = record { dirty = true; buf = hello ++ net; offsets = 0 ∷ 2 ∷ []; read_idx = 1 }

two_texts-Holds : Holds ((hello ∷ []) ++ (net ∷ [])) 1 two_texts
two_texts-Holds = record { buf_is = refl; offsets_are = refl; read_is = refl }

fallback_stash_encode-Holds_example :
    (s' : Stash) × (fallback_stash_encode (replicate 9 255) two_texts
      ≡ some ((to_le_bytes 4 3 ++ net) ++ (255 ∷ 255 ∷ []), s'))
    × Holds ((hello ∷ []) ++ (net ∷ [])) 2 s'
fallback_stash_encode-Holds_example =
    fallback_stash_encode-Holds (hello ∷ []) net [] two_texts (replicate 9 255) two_texts-Holds
      (omega arith) (omega arith)

hot_log_submit-pending_example :
    (q' : List Bytes) × (payload : Bytes) × (hot_log_submit list_logbuf little
        (some (record { backpressure = BackpressureMode.backoff }))
        true
        false
        3
        2
        4096
        some
        1000
        (full_moment ∷ full_moment ∷ free_moment ∷ [])
      ≡ (Outcome.submitted q', 2))
    × (q'
        ≡ (net ∷ [])
          ++ ((header_bytes little
                  (record { timestamp_ns = 1000; formatter = 4096; level = 3; pad = replicate 7 0 })
                ++ payload)
              ∷ []))
    × (some (drop header_size (replicate 26 0)) ≡ some payload)
hot_log_submit-pending_example =
    hot_log_submit-pending list_logbuf little 3 2 4096 1000 some (full_moment ∷ full_moment ∷ [])
      free_moment [] (replicate 26 0) (net ∷ []) (refl, refl, (refl, refl, tt)) refl tt
      (λ b h. (b, refl, h))

claim_loop-Ends_example :
    Ends list_logbuf BackpressureMode.backoff 2 some
      (full_moment ∷ free_moment ∷ [])
      (Outcome.submitted (free_moment.queue ++ ((0 ∷ 0 ∷ []) ∷ [])))
      1
unfolding claim_loop
claim_loop-Ends_example =
    claim_loop-Ends list_logbuf 2 some BackpressureMode.backoff (full_moment ∷ free_moment ∷ [])

bare_refused :
    (build bare pipe no_process).0 ≡ Result.err InqJetBuilderError.no_configured_log_level
unfolding build checks build_with
bare_refused = refl

build_error_example :
    ((build bare pipe no_process).1 ≡ no_process)
    × Refused bare no_process InqJetBuilderError.no_configured_log_level
build_error_example =
    build_error bare pipe no_process InqJetBuilderError.no_configured_log_level bare_refused

build-Starts_example :
    (g : InqJetGuard) × (s : LoggerState) × ((build complete pipe no_process).0 ≡ ok g)
    × Starts complete pipe 1 LevelFilter.info no_process g (build complete pipe no_process).1 s
build-Starts_example = build-Starts complete pipe no_process 1 LevelFilter.info refl refl refl

-- Another build, which differs from the first in what the process would show.
abbrev rival : InqJetBuilder ℕ
rival = record complete {
  level = some LevelFilter.debug;
  cap = some 1024;
  backpressure = BackpressureMode.drop;
}

overlapping_builds_example :
    (s : LoggerState) × (unused : LoggerState) × Overlaps complete rival pipe 1 1 LevelFilter.debug
      no_process
      (install complete pipe (1, LevelFilter.info) no_process).0
      (install rival pipe
        (1, LevelFilter.debug)
        (install complete pipe (1, LevelFilter.info) no_process).1).0
      (install rival pipe
        (1, LevelFilter.debug)
        (install complete pipe (1, LevelFilter.info) no_process).1).1
      s
      unused
unfolding checks
overlapping_builds_example =
    overlapping_builds complete rival pipe no_process 1 1 LevelFilter.info LevelFilter.debug refl
      refl

-- A direction, of one byte.
abbrev pub direction_byte : Bool → Bytes
direction_byte d = (if d then 1 else 0) ∷ []

abbrev pub direction_of : Bytes → Bool
direction_of [] = false
direction_of (b ∷ bs) = b == 1

pub direction_byte-size : (d : Bool) → length (direction_byte d) ≡ 1
direction_byte-size d = refl

pub direction_of-direction_byte : (d : Bool) → direction_of (direction_byte d) ≡ d
direction_of-direction_byte true = refl
direction_of-direction_byte false = refl

abbrev pub direction : ArchiveTag
direction = record {
  Tag = Bool;
  size_of = 1;
  to_memory = direction_byte;
  from_memory = direction_of;
  write_label = λ d. if d then hello else net;
  memory_size = direction_byte-size;
  copied = direction_of-direction_byte;
}

archive_format_fn-write_example :
    (q' : List Bytes) × (write direction list_logbuf (net ∷ []) true hello 1000 ≡ some q')
    × (((list_claim (net ∷ []) (record_size direction hello) ≡ none) × (q' ≡ net ∷ []))
        ⊎ ((bytes : Bytes) × (q' ≡ (net ∷ []) ++ (bytes ∷ []))
            × (archive_format_fn direction bytes ≡ (
                format_timestamp 1000 >>= λ timestamp. some (
                  timestamp
                  ++ (codes " [" ++ (hello ++ (codes "] " ++ (hello ++ (b'\n' ∷ []))))))))))
archive_format_fn-write_example =
    archive_format_fn-write direction list_logbuf (net ∷ []) true hello 1000 (omega arith)
      (omega arith) tt
