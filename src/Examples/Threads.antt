-- ===== src/Examples/Threads.antt =====
-- The archiver among other threads, and builders of a process.
use inqjet.Common.{◌⊎◌, ◌≡◌, refl, true, false, Option, some, List, [], ◌∷◌, arith, ℕ}
use inqjet.Common.Bytes.{Bytes}
use inqjet.Consumer.{
  Archiver, Phase, test, poll_log, ticks, write_all, tick, tick_at, after_log, poll, claimed,
  format_and_write, set_archive,
}
use inqjet.Consumer.Promise.{promises}
use inqjet.Consumer.Ending.Drained.{ticks-AllClosed}
use inqjet.Consumer.Closing.{IsClosed, AllClosed, outputs}
use inqjet.Consumer.Delivery.{Run-promises, Event, System, Step, Run}
use inqjet.Consumer.Delivery.Stop.{Run-outputs}
use inqjet.Config.{LevelFilter}
use inqjet.Builder.{
  default, add_archive, with_writer, with_log_level, checks, install, InqJetBuilder,
}
use inqjet.Builder.Ownership.{World, Setting, Reach, IsWorld, created, configured}
use inqjet.Builder.Ownership.Invariant.{Reach-IsWorld}
use inqjet.Builder.Ownership as Ownership
use inqjet.Examples.Data.{net, hello, no_process, pipe}
use inqjet.Examples.Queue.{list_logbuf}

abbrev as_is : Bytes → Option Bytes
as_is bytes = some bytes

abbrev numbered : Bytes → Option Bytes
numbered bytes = some (b'#' ∷ bytes)

-- One record in the log, and an archive without any.
abbrev thread : Archiver list_logbuf
thread = record {
  phase = test;
  log = record { queue = net ∷ []; calls = [] };
  archives = record { stream = record { queue = []; calls = [] }; format_fn = numbered } ∷ [];
}

abbrev system : System list_logbuf
system = record { thread = thread; running = true }

-- The thread begins a round; both streams grow, one before and one after the log is polled.
abbrev polling : System list_logbuf
polling = record { running = true; thread = record thread { phase = poll_log false } }

abbrev logged : System list_logbuf
logged = record {
  running = true;
  thread = record thread {
    phase = poll_log false;
    log = record { queue = net ∷ hello ∷ []; calls = [] };
  };
}

abbrev written : System list_logbuf
written = record {
  running = true;
  thread = record thread {
    phase = poll_log true;
    log = record { queue = hello ∷ []; calls = write_all net ∷ [] };
  };
}

abbrev archived : System list_logbuf
archived = record {
  running = true;
  thread = record written.thread {
    archives =
        record { stream = record { queue = hello ∷ []; calls = [] }; format_fn = numbered } ∷ [];
  };
}

begins : Step list_logbuf as_is system Event.internal polling
unfolding tick tick_at
begins = Step.act system

polls : Step list_logbuf as_is logged Event.internal written
unfolding tick tick_at after_log poll claimed format_and_write
polls = Step.act logged

abbrev events : List Event
events =
    Event.internal
    ∷ Event.committed 0 (some hello ∷ [])
    ∷ Event.internal
    ∷ Event.committed 1 (some (b'#' ∷ hello) ∷ [])
    ∷ []

run : Run list_logbuf as_is system events archived
unfolding set_archive
run = Run.next begins (
    Run.next (Step.commit_log polling (net ∷ hello ∷ []) (hello ∷ []) refl) (
      Run.next polls (
        Run.next
          (Step.commit_archive written 0
            (record { stream = record { queue = []; calls = [] }; format_fn = numbered })
            (hello ∷ []) (hello ∷ []) refl refl)
          (Run.start archived))))

Run-outputs_example :
    ((ticks list_logbuf as_is 20 false archived.thread).phase ≡ Phase.done)
    × (outputs list_logbuf (ticks list_logbuf as_is 20 false archived.thread)
        ≡ (some net ∷ some hello ∷ []) ∷ (some (b'#' ∷ hello) ∷ []) ∷ [])
    × IsClosed list_logbuf (ticks list_logbuf as_is 20 false archived.thread).log
    × AllClosed list_logbuf (ticks list_logbuf as_is 20 false archived.thread).archives
Run-outputs_example =
    Run-outputs list_logbuf as_is 20 run tt refl (λ e. cc)
      ((λ e. cc, (λ e. cc, tt)), ((λ e. cc, tt), tt)) (omega arith)

Run-promises_example :
    promises list_logbuf as_is archived.thread
    ≡ (some net ∷ some hello ∷ []) ∷ (some (b'#' ∷ hello) ∷ []) ∷ []
Run-promises_example = Run-promises list_logbuf as_is run (λ e. cc)

ticks-AllClosed_example :
    (((ticks list_logbuf as_is 20 false archived.thread).phase ≡ Phase.done)
      × IsClosed list_logbuf (ticks list_logbuf as_is 20 false archived.thread).log
      × AllClosed list_logbuf (ticks list_logbuf as_is 20 false archived.thread).archives)
    ⊎ ((ticks list_logbuf as_is 20 false archived.thread).phase ≡ Phase.died)
ticks-AllClosed_example = ticks-AllClosed list_logbuf as_is 20 archived.thread tt (omega arith)

-- A process with a queue that nobody uses, and then the builder of it that has an archive.
abbrev idle : World ℕ
idle = record { process = no_process; builders = []; building = [] }

abbrev named : InqJetBuilder ℕ
named = with_log_level (with_writer default 1) LevelFilter.info

abbrev built : World ℕ
built = record {
  process =
      (install (add_archive named 7 2 4096 no_process).0 pipe (1, LevelFilter.info)
        (add_archive named 7 2 4096 no_process).2).1;
  builders = [];
  building = [];
}

idle-IsWorld : IsWorld ℕ idle
unfolding created
idle-IsWorld = record { single = λ q. omega arith; serves = tt }

builds : Reach ℕ idle built
unfolding configured checks with_writer with_log_level default add_archive
builds =
    Reach.next
      (Reach.next
        (Reach.next
          (Reach.next
            (Reach.next (Reach.next Reach.here (Ownership.Step.create refl))
              (Ownership.Step.configure (Setting.writer 1) default [] [] refl refl))
            (Ownership.Step.configure (Setting.log_level LevelFilter.info) (with_writer default 1)
              [] [] refl refl))
          (Ownership.Step.add 7 2 4096 named [] [] refl refl))
        (Ownership.Step.check (1, LevelFilter.info) (add_archive named 7 2 4096 no_process).0 [] []
          refl refl refl))
      (Ownership.Step.finish pipe (add_archive named 7 2 4096 no_process).0 1 LevelFilter.info [] []
        refl refl)

Reach-IsWorld_example : IsWorld ℕ built
Reach-IsWorld_example = Reach-IsWorld ℕ builds idle-IsWorld
