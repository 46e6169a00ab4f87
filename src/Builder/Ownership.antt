-- ===== src/Builder/Ownership.antt =====
-- Who receives from which queue, when builders are made, configured and built in any order, also
-- with two builds at a time.
pub mod Invariant
use mathlib.Core.List.{map-append}
use mathlib.Core.Path.{subst}
use inqjet.Common.{
  ℕ, ◌+◌, ◌≤◌, ◌≡◌, Option, none, some, List, [], ◌∷◌, ◌++◌, map, ltb, ◌==◌, if◌then◌else◌, length,
  get_elem?,
}
use inqjet.Config.{LevelFilter, ColorMode, BackpressureMode, InqJetBuilderError, Terminal}
use inqjet.Builder.{
  ArchiveStream, InqJetBuilder, LoggerState, Archiver, Process, InqJetGuard, ok, err, default,
  with_writer, with_buffer_size, with_log_level, with_timeout, with_color_mode, with_backpressure,
  join_thread, add_archive, checks, install, set_level, drop_guard, set_once,
}

-- One call of a setter.
pub data Setting (W : Type 0) : Type 0 where
  writer : W → Setting W
  buffer_size : ℕ → Setting W
  log_level : LevelFilter → Setting W
  timeout : Option ℕ → Setting W
  color_mode : ColorMode → Setting W
  backpressure : BackpressureMode → Setting W

abbrev pub count : ℕ → List ℕ → ℕ
count q [] = 0
count q (x ∷ xs) = (if q == x then 1 else 0) + count q xs

-- One for a queue that is among the `n` created so far, and otherwise none.
unfoldable pub created : ℕ → ℕ → ℕ
created q n = if ltb q n then 1 else 0

module _ (W : Type 0) where
  unfoldable pub configured : Setting W → InqJetBuilder W → InqJetBuilder W
  configured (writer w) b = with_writer b w
  configured (buffer_size n) b = with_buffer_size b n
  configured (log_level l) b = with_log_level b l
  configured (timeout d) b = with_timeout b d
  configured (color_mode m) b = with_color_mode b m
  configured (backpressure m) b = with_backpressure b m

  -- A process, the builders in it, and the builds that have passed their checks and go on.
  pub record World : Type 0 where
    pub process : Process W
    pub builders : List (InqJetBuilder W)
    pub building : List (InqJetBuilder W × W × LevelFilter)

  -- Builders are values that are moved: a call takes one out of the list, and its result goes in.
  pub data Step (s t : World) : Type 0 where
    create : t ≡ record s { builders = default ∷ s.builders } → Step s t
    configure :
        (op : Setting W) (b : InqJetBuilder W) (xs ys : List (InqJetBuilder W))
        → s.builders ≡ xs ++ (b ∷ ys)
        → t ≡ record s { builders = xs ++ (configured op b ∷ ys) }
        → Step s t
    add :
        (tag : ℕ) (w : W) (size : ℕ) (b : InqJetBuilder W) (xs ys : List (InqJetBuilder W))
        → s.builders ≡ xs ++ (b ∷ ys)
        → t ≡ record s {
          builders = xs ++ ((add_archive b tag w size s.process).0 ∷ ys);
          process = (add_archive b tag w size s.process).2;
        }
        → Step s t
    refuse :
        (e : InqJetBuilderError) (b : InqJetBuilder W) (xs ys : List (InqJetBuilder W))
        → s.builders ≡ xs ++ (b ∷ ys)
        → checks s.process.logger b.wr b.level ≡ err e
        → t ≡ record s { builders = xs ++ ys }
        → Step s t
    check :
        (settings : W × LevelFilter) (b : InqJetBuilder W) (xs ys : List (InqJetBuilder W))
        → s.builders ≡ xs ++ (b ∷ ys)
        → checks s.process.logger b.wr b.level ≡ ok settings
        → t ≡ record s { builders = xs ++ ys; building = (b, settings.0, settings.1) ∷ s.building }
        → Step s t
    finish :
        (term : Terminal) (b : InqJetBuilder W) (w : W) (level : LevelFilter)
        (xs ys : List (InqJetBuilder W × W × LevelFilter))
        → s.building ≡ xs ++ ((b, w, level) ∷ ys)
        → t ≡ record s { building = xs ++ ys; process = (install b term (w, level) s.process).1 }
        → Step s t
    change_level : (l : LevelFilter) → t ≡ record s { process = set_level l s.process } → Step s t
    shut_down : (g : InqJetGuard) → t ≡ record s { process = (drop_guard g s.process).1 } → Step s t

  pub data Reach (s : World) : World → Type 0 where
    here : Reach s s
    next : {t u : World} → Reach s t → Step t u → Reach s u

  -- How often a queue is received from.
  abbrev pub in_archives : ℕ → List (ArchiveStream W) → ℕ
  in_archives q xs = count q (map (λ x. x.queue) xs)

  abbrev pub in_threads : ℕ → List (Archiver W) → ℕ
  in_threads q [] = 0
  in_threads q (t ∷ ts) = count q (t.consumer ∷ []) + in_archives q t.archives + in_threads q ts

  abbrev pub in_builders : ℕ → List (InqJetBuilder W) → ℕ
  in_builders q [] = 0
  in_builders q (b ∷ bs) = in_archives q b.archives + in_builders q bs

  abbrev pub in_building : ℕ → List (InqJetBuilder W × W × LevelFilter) → ℕ
  in_building q [] = 0
  in_building q (b ∷ bs) = in_archives q b.0.archives + in_building q bs

  abbrev pub receivers : ℕ → World → ℕ
  receivers q s =
      in_threads q s.process.threads + in_builders q s.builders + in_building q s.building

  -- The logger's queue is received from by the thread that it unparks, under the logger's flag.
  abbrev pub Serves : Option LoggerState → List (Archiver W) → Type 0
  Serves none threads = Unit
  Serves (some s) threads =
      (t : Archiver W) × (get_elem? threads s.unparker ≡ some t)
      × (t.consumer ≡ s.source_producer)
      × (t.running ≡ s.running)

  -- A queue that exists has one receiver at most, and any other has none.
  pub record IsWorld (s : World) : Type 0 where
    pub single : (q : ℕ) → receivers q s ≤ created q (length s.process.queues)
    pub serves : Serves s.process.logger s.process.threads
