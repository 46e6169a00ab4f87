-- ===== src/Builder/Build.antt =====
-- What building the logger changes, and what it refuses.
use mathlib.Core.Path.{subst}
use inqjet.Common.{
  get_elem?-append_length, ◌≡◌, refl, ◌≢◌, inl, inr, Bool, true, false, none, some, List, [], ◌∷◌,
  ◌++◌, Option-cases, length, get_elem?,
}
use inqjet.Config.{LevelFilter, as_u8, InqJetBuilderError, Terminal, is_color_enabled}
use inqjet.Builder.{
  InqJetBuilder, Archiver, LoggerState, Process, InqJetGuard, Result, ok, err, checks, build_with,
  install, build, drop_guard, set_at, set_once, unwrap_or, join_thread,
}

-- The checks fail for just one reason at a time: a logger that is set already, else a missing
-- writer, else a missing level.
abbrev pub Refused : {W : Type 0} → InqJetBuilder W → Process W → InqJetBuilderError → Type 0
Refused b p InqJetBuilderError.already_initialized = p.logger ≢ none
Refused b p InqJetBuilderError.no_configured_writer = (p.logger ≡ none) × (b.wr ≡ none)
Refused b p InqJetBuilderError.no_configured_log_level =
    (p.logger ≡ none) × (b.wr ≢ none) × (b.level ≡ none)

-- The archiver of a builder's settings, on the queue and the flag of the logger `s`.
abbrev pub archiver_of : {W : Type 0} → InqJetBuilder W → W → LoggerState → Archiver W
archiver_of b writer s = record {
  consumer = s.source_producer;
  writer = writer;
  archives = b.archives;
  running = s.running;
  timeout = b.timeout;
}

some-ne-none {ℓ} : {A : Type ℓ} {a : A} → some a ≢ none
some-ne-none h = cc

err_inj : {A : Type 0} {d e : InqJetBuilderError} → ◌≡◌ {A = Result A} (err d) (err e) → d ≡ e
err_inj h = cc

ok_err : {A : Type 0} {a : A} {e : InqJetBuilderError} → ◌≢◌ {A = Result A} (ok a) (err e)
ok_err h = cc

pub length-set_at :
    (flags rest : List Bool) (b c : Bool)
    → set_at (length flags) b (flags ++ (c ∷ rest)) ≡ flags ++ (b ∷ rest)
length-set_at [] rest b c = refl
length-set_at (x ∷ xs) rest b c = rw (length-set_at xs rest b c)

-- A build that fails leaves the process as it was, and its error is the reason: a logger is set
-- already, else no writer is configured, else no level is.
pub build_error :
    {W : Type 0} (b : InqJetBuilder W) (term : Terminal) (p : Process W) (e : InqJetBuilderError)
    → (build b term p).0 ≡ err e
    → ((build b term p).1 ≡ p) × Refused b p e
unfolding build checks build_with
build_error b term p e h = elim (Option-cases p.logger) [
  | inr (s, l) ↦ (rw l, because _ (rw l at h) (rw l some-ne-none))
  | inl l ↦ elim (Option-cases b.wr) [
    | inl w ↦ (rw (l, w), because _ (rw (l, w) at h) (l, w))
    | inr (writer, w) ↦ elim (Option-cases b.level) [
      | inl k ↦ (rw (l, w, k), because _ (rw (l, w, k) at h) (l, rw w some-ne-none, k))
      | inr (level, k) ↦ absurd (ok_err (rw (l, w, k) at h))
    ]
  ]
]
  where
    because :
        (d : InqJetBuilderError)
        → ◌≡◌ {A = Result InqJetGuard} (err d) (err e)
        → Refused b p d
        → Refused b p e
    because d q r = subst (Refused b p) (err_inj q) r

-- What a build with these settings does to the process `p`, where it returns the guard `g` and leaves
-- the process `q` with the logger `s`; and what dropping that guard does to `q`.
pub record Starts {W : Type 0} (b : InqJetBuilder W) (term : Terminal) (writer : W)
    (level : LevelFilter) (p : Process W) (g : InqJetGuard) (q : Process W) (s : LoggerState)
    : Type 0 where
  pub set : q.logger ≡ some s
  pub mode : s.backpressure ≡ b.backpressure
  pub raised : q.flags ≡ p.flags ++ (true ∷ [])
  pub watched : get_elem? q.flags s.running ≡ some true
  pub gate : q.max_level ≡ as_u8 level
  pub colors : q.color_enabled ≡ is_color_enabled b.color_mode term
  pub capacity : get_elem? q.queues s.source_producer ≡ some (unwrap_or b.cap 65536)
  pub archivers : q.threads ≡ p.threads ++ (archiver_of b writer s ∷ [])
  pub archiver : get_elem? q.threads s.unparker ≡ some (archiver_of b writer s)
  pub lowered : (drop_guard g q).1.flags ≡ p.flags ++ (false ∷ [])
  pub woken : (drop_guard g q).1.unparked ≡ p.unparked ++ (s.unparker ∷ [])
  pub joined : (drop_guard g q).1.joined ≡ p.joined ++ (s.unparker ∷ [])
  pub spent : (drop_guard g q).0.handle ≡ none

-- With a writer and a level, and no logger set, a build succeeds. The logger is the new one, in the
-- builder's mode; its flag is raised; the level gate is the level's number, and the colours are what
-- the colour mode says of the terminal; its queue is asked for with the configured capacity, or the
-- default; and one archiver more runs, on that queue, with the writer, the archives and the timeout of
-- the builder, watching that flag. Dropping the guard lowers just that flag, and wakes and joins just
-- that archiver.
pub build-Starts :
    {W : Type 0} (b : InqJetBuilder W) (term : Terminal) (p : Process W) (writer : W)
    (level : LevelFilter)
    → p.logger ≡ none
    → b.wr ≡ some writer
    → b.level ≡ some level
    → (g : InqJetGuard) × (s : LoggerState) × ((build b term p).0 ≡ ok g)
      × Starts b term writer level p g (build b term p).1 s
unfolding build checks build_with install set_once drop_guard join_thread
build-Starts b term p writer level no_logger w l = (
  record {
    handle = some (length p.threads);
    running = length p.flags;
    unparker = length p.threads;
  },
  record {
    source_producer = length p.queues;
    unparker = length p.threads;
    backpressure = b.backpressure;
    running = length p.flags;
  },
  rw (no_logger, w, l),
  record {
    set = rw (no_logger, w, l);
    mode = refl;
    raised = rw (no_logger, w, l);
    watched = rw (no_logger, w, l) (get_elem?-append_length p.flags [] true);
    gate = rw (no_logger, w, l);
    colors = rw (no_logger, w, l);
    capacity = rw (no_logger, w, l) (get_elem?-append_length p.queues [] (unwrap_or b.cap 65536));
    archivers = rw (no_logger, w, l);
    archiver = rw (no_logger, w, l) (get_elem?-append_length p.threads [] _);
    lowered = rw (no_logger, w, l) (length-set_at p.flags [] false true);
    woken = rw (no_logger, w, l);
    joined = rw (no_logger, w, l);
    spent = refl;
  },
)
