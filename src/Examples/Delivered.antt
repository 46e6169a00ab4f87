-- ===== src/Examples/Delivered.antt =====
-- A call that the archiver, started before it, writes out.
use inqjet.Common.{ℕ, ◌≢◌, true, false, none, [], map, arith, some-none}
use inqjet.Common.Bytes.{Bytes}
use inqjet.Record.{FormatFn}
use inqjet.Format.{write_log_prefix, write_prefix_inner}
use inqjet.Format.Timestamp.{read_instant-format_timestamp}
use inqjet.Pod.{hot_witness}
use inqjet.HotLog.{hot_fmt}
use inqjet.HotLog.Deferred.{eager_line}
use inqjet.Consumer.{test, poll_log}
use inqjet.Consumer.Delivery.{System}
use inqjet.Examples.Data.{sample_fmt, sample_call}
use inqjet.Examples.Queue.{list_logbuf}

abbrev pub call_site : ℕ → FormatFn
call_site a = hot_fmt sample_fmt false (map hot_witness sample_call.args) sample_call.pieces

abbrev started : System list_logbuf
started = record {
  thread = record { phase = test; log = record { queue = []; calls = [] }; archives = [] };
  running = true;
}

abbrev polling : System list_logbuf
polling = record { running = true; thread = record started.thread { phase = poll_log false } }

pub sample_line : eager_line sample_fmt false sample_call 1000 ≢ none
unfolding write_log_prefix write_prefix_inner
sample_line e =
    let (text, written, _, _) = read_instant-format_timestamp 1000 (omega arith) in
    some-none (rw written at e)
