-- ===== src/Consumer.antt =====
-- inqjet/src/consumer.rs: the archiver thread's loop. A `tick` is one action of the thread: one test
-- of the `running` flag, one `try_claim` with what follows it, or the flushes behind a round. Other
-- threads may act between any two ticks.
pub mod Promise
pub mod Ending
pub mod Closing
pub mod Shutdown
pub mod Delivery
pub mod Received
pub mod Alive
use inqjet.Common.{
  ℕ, zero, suc, Bool, true, false, Option, none, some, List, [], ◌∷◌, ◌++◌, if◌then◌else◌,
  get_elem?, drop, ◌>>=◌,
}
use inqjet.Common.Bytes.{Bytes, Endian}
use inqjet.Logbuf.{Logbuf}
use inqjet.Record.{FormatFn, header_size, read_header}

-- What the thread has called on a writer, whose errors it ignores.
pub data WriterCall : Type 0 where
  write_all : Bytes → WriterCall
  flush : WriterCall

-- Where the thread is. The Boolean is `had_work`, and the number is the archive that is polled next.
pub data Phase : Type 0 where
  test : Phase
  poll_log : Bool → Phase
  poll_archive : ℕ → Bool → Phase
  settle : Bool → Phase
  drain_log : Phase
  drain_archive : ℕ → Phase
  done died : Phase

-- The text of a log record: `formatters` is what a function's address calls.
unfoldable pub format_claim : Endian → (ℕ → FormatFn) → Bytes → Option Bytes
format_claim e formatters claim = do
  header ← read_header e claim
  formatters header.formatter (record {
    timestamp_ns = header.timestamp_ns;
    level = header.level;
    payload = drop header_size claim;
  })

module _ (R : Logbuf) where
  open R use {Queue, receive}

  -- A consumer and its writer; the writer is given by the calls made on it.
  pub record Stream : Type 0 where
    pub queue : Queue
    pub calls : List WriterCall

  pub record ArchiveStream : Type 0 where
    pub stream : Stream
    pub format_fn : Bytes → Option Bytes

  pub record Archiver : Type 0 where
    pub phase : Phase
    pub log : Stream
    pub archives : List ArchiveStream

  -- The answer to one `try_claim`: nothing was there, a record was written out, or formatting it
  -- panicked. The claim is given back in either of the last two cases.
  pub data Polled : Type 0 where
    empty : Polled
    took panicked : Stream → Polled

  unfoldable pub format_and_write : Stream → Queue → Option Bytes → Polled
  format_and_write s q none = panicked (record s { queue = q })
  format_and_write s q (some text) =
      took (record { queue = q; calls = s.calls ++ (write_all text ∷ []) })

  unfoldable pub claimed : (Bytes → Option Bytes) → Stream → Option (Bytes × Queue) → Polled
  unfolding format_and_write
  claimed format s none = empty
  claimed format s (some (claim, q)) = format_and_write s q (format claim)

  unfoldable pub poll : (Bytes → Option Bytes) → Stream → Polled
  unfolding claimed
  poll format s = claimed format s (receive s.queue)

  unfoldable pub flushed : Stream → Stream
  flushed s = record s { calls = s.calls ++ (flush ∷ []) }

  unfoldable pub set_archive : ℕ → Stream → List ArchiveStream → List ArchiveStream
  set_archive i s [] = []
  set_archive zero s (x ∷ xs) = record x { stream = s } ∷ xs
  set_archive (suc i) s (x ∷ xs) = x ∷ set_archive i s xs

  flush_all : List ArchiveStream → List ArchiveStream
  unfolding flushed
  flush_all [] = []
  flush_all (x ∷ xs) = record x { stream = flushed x.stream } ∷ flush_all xs

  -- The log stream's answer, in the loop and in the drain.
  unfoldable pub after_log : (again next : Phase) → (Stream → Stream) → Archiver → Polled → Archiver
  after_log again next close a empty = record a { phase = next; log = close a.log }
  after_log again next close a (took s) = record a { phase = again; log = s }
  after_log again next close a (panicked s) = record a { phase = died; log = s }

  after_archive :
      ℕ → (again next : Phase) → (Stream → Stream) → Archiver → Stream → Polled → Archiver
  unfolding set_archive
  after_archive i again next close a s empty = record a {
    phase = next;
    archives = set_archive i (close s) a.archives;
  }
  after_archive i again next close a s (took s') = record a {
    phase = again;
    archives = set_archive i s' a.archives;
  }
  after_archive i again next close a s (panicked s') = record a {
    phase = died;
    archives = set_archive i s' a.archives;
  }

  -- The archive at an index, or the end of the `for` loop.
  at_archive :
      ℕ → (again next end : Phase) → (Stream → Stream) → Archiver → Option ArchiveStream → Archiver
  unfolding after_archive poll
  at_archive i again next end close a none = record a { phase = end }
  at_archive i again next end close a (some x) =
      after_archive i again next close a x.stream (poll x.format_fn x.stream)

  -- Idle, the thread parks or spins, which changes nothing here.
  module _ (format_log : Bytes → Option Bytes) where
    unfoldable pub tick_at : Phase → Bool → Archiver → Archiver
    unfolding after_log at_archive flush_all
    tick_at test running a = record a { phase = if running then poll_log false else drain_log }
    tick_at (poll_log had_work) running a =
        after_log (poll_log true) (poll_archive 0 had_work) (λ s. s) a (poll format_log a.log)
    tick_at (poll_archive i had_work) running a =
        at_archive i (poll_archive i true) (poll_archive (suc i) had_work) (settle had_work)
          (λ s. s) a (get_elem? a.archives i)
    tick_at (settle true) running a = record a {
      phase = test;
      log = flushed a.log;
      archives = flush_all a.archives;
    }
    tick_at (settle false) running a = record a { phase = test }
    tick_at drain_log running a =
        after_log drain_log (drain_archive 0) flushed a (poll format_log a.log)
    tick_at (drain_archive i) running a =
        at_archive i (drain_archive i) (drain_archive (suc i)) done flushed a
          (get_elem? a.archives i)
    tick_at done running a = a
    tick_at died running a = a

    unfoldable pub tick : Bool → Archiver → Archiver
    unfolding tick_at
    tick running a = tick_at a.phase running a

    unfoldable pub ticks : ℕ → Bool → Archiver → Archiver
    unfolding tick
    ticks zero running a = a
    ticks (suc n) running a = ticks n running (tick running a)
