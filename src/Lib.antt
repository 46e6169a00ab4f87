-- ===== src/Lib.antt =====
-- Verification of inqjet, a logger whose hot path encodes a call's arguments into a ring buffer and
-- leaves the formatting to a background thread.
--
-- A level macro checks the level and expands to a block made by inqjet-macros/src/lib.rs. The block
-- sizes its arguments (inqjet/src/pod.rs), claims a region of the ring buffer (inqjet/src/logger.rs)
-- and writes a header (inqjet/src/record.rs), a prefix and the arguments there. The archiver thread
-- (inqjet/src/consumer.rs) reads the header and calls the format function that it names: the block's
-- own, or the standard one (inqjet/src/format.rs) for records of the `log` crate. It polls the archive
-- streams (inqjet/src/archive.rs) as well. inqjet/src/lib.rs builds all this and shuts it down.
--
-- Files:
-- - Record: inqjet/src/record.rs, the header and the standard payload. Header and Payload prove.
-- - Format: inqjet/src/format.rs. Calendar is the calendar that Civil measures civil_from_days by;
--   Timestamp reads a timestamp back, Clock is about snap_timestamp, Color about coloured prefixes.
-- - Pod: inqjet/src/pod.rs. Fallback is about the fallback stash, RoundTrip about one argument.
-- - Macros: the format string parser of inqjet-macros/src/lib.rs and the checks of `generate`. Parse is
--   about the parser, Bounds about the trait bounds of the block; Input is the parsing of the macro's
--   tokens, and its Calls is about calls as they are written; Derive is the derive macro for Pod.
-- - HotLog: the code that `generate` emits, and Block, the whole of it. Args is about all arguments of
--   a call, Sizing and Prefix about the producer's steps, Deferred about the way from the call to its
--   line of output, Types about what any payload decodes to, Invariant about the stash that one block
--   leaves to the next.
-- - LevelMacros: the macros `error!` to `trace!` of inqjet/src/lib.rs; Gate is about the level.
-- - Logbuf: the interface of the ring buffer, which comes from the crate nexus_logbuf, as one thread
--   meets it; Mpsc is the interface with claims of many threads, from which the first is made.
-- - Config, Builder: the settings, the builder and the guard of inqjet/src/lib.rs. Build is about one
--   build, Overlap about two at a time, Ownership about who receives from which queue when many are made.
-- - Logger: hot_log_submit, log_impl and the `log` bridge of inqjet/src/logger.rs. Backpressure is about
--   what the first does while the queue is full, Endings about every way in which its loop ends, Bridge
--   about log_impl.
-- - Producers: the threads in hot_log_submit and log_impl of inqjet/src/logger.rs, many at a time, beside
--   the archiver. Leaving is about calls after the guard was dropped, Order and
--   Backoff about a thread's calls; Claims and Held are the places in the queue and the threads behind a
--   claim, Turns what one turn does to them; Delivered is the run as the archiver meets it, Shutdown and
--   Dropped the lines at the end; Effort and Acts are about what a thread still needs, and Progress about
--   runs that go on to the end of all calls.
-- - Archive: ArchiveHandle::write and archive_format_fn of inqjet/src/archive.rs; Line proves.
-- - Consumer: archiver_loop of inqjet/src/consumer.rs. Promise is what is owed to each writer, Ending
--   and Shutdown are about the time after the guard's signal, Ending.Loop about the time before, Closing
--   and Ending.Drained about drained streams, Received about the queue's places, Alive about panics, and Delivery and its
--   Stop about the thread among others.
-- - EndToEnd: from a call through the queue to the archiver's line; Delivered, to the log's writer;
--   Archived, from an archive's handle to its writer; Jobs, the calls as Producers has them.
-- - Common: bytes, reads and writes of slices and lists, UTF-8, machine words and decimal numbers.
-- - Examples: concrete inputs.
--
-- Conventions. A byte is a number below 256 and a slice a list of them. A panic is `none`, as is an
-- unchecked copy past the end of its region, where the program's behaviour is undefined; a Pod value is read as in a build with debug assertions,
-- which test that the bytes are there. A w-bit
-- conversion is `% 2 ^ w`; the i32 arithmetic of civil_from_days is checked on every operation. A
-- format function returns the text that the program would write to `out`, whose errors the program
-- ignores. What std::fmt prints for a value is a parameter, the record Fmt, and so are the tokens of a
-- macro's input with their parsers, the record Syn, and the clock's reading. What a writer was given is
-- the list of the calls made on it.
--
-- Concurrency. One `tick` of the archiver is one test of the flag, one `try_claim` with what follows it,
-- or the flushes behind a round; Consumer.Delivery.Step puts the steps of the other threads between any
-- two ticks. A record is committed in its stream when it can be received: the documented race of a
-- record that is still being written when the guard is dropped is a commit after the stop, of which
-- nothing is said here. One `turn` of a thread in a submit function is a load of `running`, a
-- `try_claim`, or the commit of its claim; Producers.Step puts the turns of all threads, the archiver's
-- ticks and the guard's drop in any order, with the order of claims that the crate gives them. A call is
-- a Job: the size that it claims, and what it writes into its region. A thread that panics between its
-- claim and the commit is `unwound`, and its claim stays open here, whatever the crate does with it: the
-- theorems on lines are about calls that do not panic.
--
-- Bounds. The format string parser runs on as much fuel as the string has characters, and each round
-- takes one at least; the parser of the macro's arguments on one more than there are tokens, and each
-- round takes a comma. The producer's loop runs over a list of moments, what it finds at each of its
-- attempts; a list that ends before the loop does gives the outcome `waiting`. The archiver's loop has no
-- fuel: `measure` bounds its actions after the stop, by the records that wait and the archives.
--
-- Not modelled: the threads' memory orderings, and Debug implementations.
pub mod Archive
pub mod Builder
pub mod Common
pub mod Config
pub mod Consumer
pub mod EndToEnd
pub mod Examples
pub mod Format
pub mod HotLog
pub mod LevelMacros
pub mod Logbuf
pub mod Logger
pub mod Macros
pub mod Pod
pub mod Producers
pub mod Record
