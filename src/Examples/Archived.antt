-- ===== src/Examples/Archived.antt =====
-- Bytes that are archived while the archiver polls, and that it writes out.
use inqjet.Common.{
  ℕ, ◌≡◌, refl, ◌≢◌, true, false, Option, none, some, List, [], ◌∷◌, arith, replicate, some-none,
}
use inqjet.Common.Bytes.{Bytes}
use inqjet.Format.Timestamp.{read_instant-format_timestamp}
use inqjet.Archive.{archive_format_fn, record_size, write}
use inqjet.Consumer.{ArchiveStream, Phase, test, poll_log, ticks, tick, tick_at}
use inqjet.Consumer.Closing.{outputs}
use inqjet.Consumer.Delivery.{Event, System, Step, Run}
use inqjet.EndToEnd.Archived.{archive_line, stored, write-outputs}
use inqjet.Examples.Data.{hello}
use inqjet.Examples.Runs.{direction}
use inqjet.Examples.Queue.{list_logbuf}

abbrev as_is : Bytes → Option Bytes
as_is bytes = some bytes

abbrev directions : ArchiveStream list_logbuf
directions = record {
  stream = record { queue = []; calls = [] };
  format_fn = archive_format_fn direction;
}

abbrev started : System list_logbuf
started = record {
  thread = record {
    phase = test;
    log = record { queue = hello ∷ []; calls = [] };
    archives = directions ∷ [];
  };
  running = true;
}

abbrev polling : System list_logbuf
polling = record { running = true; thread = record started.thread { phase = poll_log false } }

begins : Step list_logbuf as_is started Event.internal polling
unfolding tick tick_at
begins = Step.act started

hello_line : archive_line direction true hello 1000 ≢ none
hello_line e =
    let (text, written, _, _) = read_instant-format_timestamp 1000 (omega arith) in
    some-none (rw written at e)

write-outputs_example :
    (q' : List Bytes) × (n : ℕ) × (write direction list_logbuf [] true hello 1000 ≡ some q')
    × ((ticks list_logbuf as_is n false (stored list_logbuf polling.thread 0 directions q')).phase
        ≡ Phase.done)
    × (outputs list_logbuf
          (ticks list_logbuf as_is n false (stored list_logbuf polling.thread 0 directions q'))
        ≡ (some hello ∷ []) ∷ (archive_line direction true hello 1000 ∷ []) ∷ [])
write-outputs_example =
    write-outputs list_logbuf as_is direction 0 directions true hello 1000
      (replicate (record_size direction hello) 0) [] (Run.next begins (Run.start polling)) tt refl
      (λ e. cc) refl refl (omega arith) (omega arith) tt refl
      (((λ e. cc), tt), ((hello_line, tt), tt))
