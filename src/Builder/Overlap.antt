-- ===== src/Builder/Overlap.antt =====
-- inqjet/src/lib.rs: two builds at a time, neither of which has set `LOGGER` when the other checks it.
use inqjet.Common.{
  suc, ◌≡◌, refl, sym, ◌≢◌, Bool, true, false, Option, none, some, List, [], ◌∷◌, ◌++◌,
  append_assoc, arith, length, get_elem?, length-append,
}
use inqjet.Common.{get_elem?-append_length}
use inqjet.Config.{LevelFilter, as_u8, Terminal, is_color_enabled}
use inqjet.Builder.{
  InqJetBuilder, LoggerState, Process, InqJetGuard, Result, ok, err, checks, install, unwrap_or,
  drop_guard, set_once, set_at, join_thread, InqJetBuilderError,
}
use inqjet.Builder.Build.{archiver_of, length-set_at}

-- The process `q` behind two installations from `p`, with the guards `g₁` and `g₂` that they return
-- and the logger `s`. `unused` is what the second installation has made for a logger of its own.
pub record Overlaps {W : Type 0} (b₁ b₂ : InqJetBuilder W) (term : Terminal) (w₁ w₂ : W)
    (l₂ : LevelFilter) (p : Process W) (g₁ g₂ : InqJetGuard) (q : Process W)
    (s unused : LoggerState) : Type 0 where
  pub set : q.logger ≡ some s
  pub mode : s.backpressure ≡ b₁.backpressure
  pub queues : q.queues ≡ p.queues ++ (unwrap_or b₁.cap 65536 ∷ unwrap_or b₂.cap 65536 ∷ [])
  pub apart :
      (s.source_producer ≢ unused.source_producer)
      × (s.running ≢ unused.running)
      × (s.unparker ≢ unused.unparker)
  pub first : get_elem? q.threads s.unparker ≡ some (archiver_of b₁ w₁ s)
  pub second : get_elem? q.threads unused.unparker ≡ some (archiver_of b₂ w₂ unused)
  pub gate : q.max_level ≡ as_u8 l₂
  pub colors : q.color_enabled ≡ is_color_enabled b₂.color_mode term
  pub first_dropped :
      (get_elem? (drop_guard g₁ q).1.flags s.running ≡ some false)
      × (get_elem? (drop_guard g₁ q).1.flags unused.running ≡ some true)
      × ((drop_guard g₁ q).1.unparked ≡ p.unparked ++ (s.unparker ∷ []))
      × ((drop_guard g₁ q).1.joined ≡ p.joined ++ (s.unparker ∷ []))
  pub second_dropped :
      (get_elem? (drop_guard g₂ q).1.flags s.running ≡ some true)
      × (get_elem? (drop_guard g₂ q).1.flags unused.running ≡ some false)
      × ((drop_guard g₂ q).1.unparked ≡ p.unparked ++ (unused.unparker ∷ []))
      × ((drop_guard g₂ q).1.joined ≡ p.joined ++ (unused.unparker ∷ []))

ok_err : {A : Type 0} {a : A} {e : InqJetBuilderError} → ◌≢◌ {A = Result A} (err e) (ok a)
ok_err h = cc

unset :
    {W : Type 0} (wr : Option W) (level : Option LevelFilter) (settings : W × LevelFilter)
    (logger : Option LoggerState)
    → checks logger wr level ≡ ok settings
    → logger ≡ none
unfolding checks
unset wr level settings none h = refl
unset wr level settings (some s) h = absurd (ok_err h)

length-snoc {ℓ} : {A : Type ℓ} (xs : List A) (a : A) → length (xs ++ (a ∷ [])) ≡ suc (length xs)
length-snoc xs a = rw (length-append xs (a ∷ [])) (omega arith)

module _ {ℓ} {A : Type ℓ} (xs : List A) (a b : A) where
  snoc_twice : (xs ++ (a ∷ [])) ++ (b ∷ []) ≡ xs ++ (a ∷ b ∷ [])
  snoc_twice = append_assoc xs (a ∷ []) (b ∷ [])

  get_elem?-first : get_elem? (xs ++ (a ∷ b ∷ [])) (length xs) ≡ some a
  get_elem?-first = get_elem?-append_length xs (b ∷ []) a

  get_elem?-second : get_elem? (xs ++ (a ∷ b ∷ [])) (suc (length xs)) ≡ some b
  get_elem?-second =
      rw (sym (length-snoc xs a), sym snoc_twice) (get_elem?-append_length (xs ++ (a ∷ [])) [] b)

-- `false` in front of, or behind, the other flag.
lower_first :
    (xs : List Bool)
    → set_at (length xs) false ((xs ++ (true ∷ [])) ++ (true ∷ [])) ≡ xs ++ (false ∷ true ∷ [])
lower_first xs = rw (snoc_twice xs true true) (length-set_at xs (true ∷ []) false true)

lower_second :
    (xs : List Bool)
    → set_at (suc (length xs)) false ((xs ++ (true ∷ [])) ++ (true ∷ []))
      ≡ xs ++ (true ∷ false ∷ [])
lower_second xs = rw (
  sym (length-snoc xs true),
  length-set_at (xs ++ (true ∷ [])) [] false true,
  snoc_twice xs true false,
)

-- Two builds that have both passed their checks before either installs, where the second's
-- installation runs behind the first's: the logger stays the first's, in its mode. Each has its own
-- queue, its own flag and its own archiver, which runs with its writer, archives and timeout on its
-- queue; the logger claims from the first's queue, so that nothing reaches the second's archiver through
-- it; but the level and the colours are the second's. Dropping either guard lowers the flag of its own
-- archiver and not the other's, and wakes and joins just that archiver.
pub overlapping_builds :
    {W : Type 0} (b₁ b₂ : InqJetBuilder W) (term : Terminal) (p : Process W) (w₁ w₂ : W)
    (l₁ l₂ : LevelFilter)
    → checks p.logger b₁.wr b₁.level ≡ ok (w₁, l₁)
    → checks p.logger b₂.wr b₂.level ≡ ok (w₂, l₂)
    → (s : LoggerState) × (unused : LoggerState) × Overlaps b₁ b₂ term w₁ w₂ l₂ p
        (install b₁ term (w₁, l₁) p).0
        (install b₂ term (w₂, l₂) (install b₁ term (w₁, l₁) p).1).0
        (install b₂ term (w₂, l₂) (install b₁ term (w₁, l₁) p).1).1
        s
        unused
unfolding install set_once drop_guard join_thread
overlapping_builds b₁ b₂ term p w₁ w₂ l₁ l₂ h₁ h₂ =
    let no_logger = unset b₁.wr b₁.level (w₁, l₁) p.logger h₁ in
    (
      record {
        source_producer = length p.queues;
        unparker = length p.threads;
        backpressure = b₁.backpressure;
        running = length p.flags;
      },
      record {
        source_producer = suc (length p.queues);
        unparker = suc (length p.threads);
        backpressure = b₂.backpressure;
        running = suc (length p.flags);
      },
      record {
        set = rw no_logger;
        mode = refl;
        queues = snoc_twice p.queues _ _;
        apart = (omega arith, omega arith, omega arith);
        first = rw (snoc_twice p.threads) (get_elem?-first p.threads _ _);
        second =
            rw (snoc_twice p.threads, length-snoc p.queues, length-snoc p.flags)
              (get_elem?-second p.threads _ _);
        gate = refl;
        colors = refl;
        first_dropped = (
          rw lower_first (get_elem?-first p.flags false true),
          rw lower_first (get_elem?-second p.flags false true),
          refl,
          refl,
        );
        second_dropped = (
          rw (length-snoc p.flags, lower_second) (get_elem?-first p.flags true false),
          rw (length-snoc p.flags, lower_second) (get_elem?-second p.flags true false),
          rw (length-snoc p.threads),
          rw (length-snoc p.threads),
        );
      },
    )
