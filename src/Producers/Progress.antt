-- ===== src/Producers/Progress.antt =====
-- Under `Backoff`, the threads can always finish their calls: none waits for ever for another.
use inqjet.Common.{
  ℕ, zero, suc, ◌*◌, ◌≤◌, ◌<◌, ◌≡◌, refl, sym, ap, ◌≢◌, ◌⊎◌, inl, inr, true, Option, some, List, [],
  ◌∷◌, ◌++◌, map, append-nil, append_assoc, arith, length, get_elem?, All, get_elem?-set-all,
}
use mathlib.Core.Path.{subst}
use inqjet.Common.Bytes.{Bytes}
use inqjet.Config.{BackpressureMode}
use inqjet.Logbuf.Mpsc.{Mpsc, logbuf, pending}
use inqjet.Consumer.{tick, ticks, died}
use inqjet.Consumer.Promise.{archive_promised}
use inqjet.Consumer.Ending.{measured}
use inqjet.Consumer.Ending.Loop.{empties, lap}
use inqjet.Consumer.Closing.{AllFormat, All-append_right}
use inqjet.Consumer.Delivery.Stop.{IsLooping, Loops, Run-Loops}
use inqjet.Producers.{
  Job, Producer, Note, Turn, turn, System, queue_of, turned, archive, produce, Run, start, next,
  claims,
}
use inqjet.Producers.Order.{todo, noted, turn-Keeps}
use inqjet.Producers.Claims.{Stands}
use inqjet.Producers.Held.{IsHolding}
use inqjet.Producers.Delivered.{IsStarted, IsServed, Run-IsServed}
use inqjet.Producers.Shutdown.{AllOut, AllDone, Run-alive, IsServed-AllFormat, IsServed-IsFilled}
use inqjet.Producers.Acts.{HasRoom, holding_acts, out_acts, idle_done}
use inqjet.Producers.Effort.{
  holding_busy, IsHolding-or-out, busy-or-idle, effort, all_effort, all_effort-set, first_or_all,
  CanAct, turn-effort,
}

module _ (M : Mpsc) (format_log : Bytes → Option Bytes) (line : Job → Bytes) (limit : ℕ) where
  open M use {Queue, try_claim, slots}

  abbrev pub AllSmall : System M → Type 0
  AllSmall t =
      (k : ℕ) (p : Producer)
      → get_elem? t.producers k ≡ some p
      → All (λ j. j.total_size ≤ limit) (todo p)

  abbrev Backoff : System M → List (ℕ × Note) → System M → Type 0
  Backoff = Run M BackpressureMode.backoff format_log

  Run-append :
      {s t u : System M} {es es' : List (ℕ × Note)}
      → Backoff s es t
      → Backoff t es' u
      → Backoff s (es ++ es') u
  Run-append {es = es} run start = rw append-nil run
  Run-append {es = es} run (next {i = i} {note = note} {es = es'} run' st) =
      rw (sym (append_assoc es es' ((i, note) ∷ []))) (next (Run-append run run') st)

  -- The archiver alone.
  Run-ticks :
      (n : ℕ) (t u : System M) (es : List (ℕ × Note))
      → Backoff t es u
      → (es' : List (ℕ × Note)) × Backoff t es'
          (record u { archiver = ticks (logbuf M) format_log n u.running u.archiver })
  unfolding ticks
  Run-ticks zero t u es run = (es, run)
  Run-ticks (suc n) t u es run =
      Run-ticks n t (record u { archiver = tick (logbuf M) format_log u.running u.archiver }) _
        (next run (archive u 0))

  module _ {s t : System M} {es : List (ℕ × Note)} (base : Backoff s es t)
      (begun : IsStarted M format_log line s)
      (formats : All AllFormat (map (archive_promised (logbuf M)) s.archiver.archives))
      (room : HasRoom M limit) where
    -- A state that the run may go on to.
    record Ahead (u : System M) : Type 0 where
      notes : List (ℕ × Note)
      run : Backoff t notes u
      running : u.running ≡ true
      small : AllSmall u

    served : (u : System M) (h : Ahead u) → IsServed M format_log line s u (claims (es ++ h.notes))
    served u h = Run-IsServed M format_log line (Run-append base h.run) begun

    alive : (u : System M) → Ahead u → u.archiver.phase ≢ died
    alive u h = Run-alive M format_log line (Run-append base h.run) begun formats

    -- One more turn of a thread that can act.
    after_turn :
        (u : System M) (h : Ahead u) (i : ℕ) (p : Producer)
        → get_elem? u.producers i ≡ some p
        → CanAct M BackpressureMode.backoff (queue_of M u) p.place
        → 0 < effort p
        → (v : System M) × Ahead v × (all_effort v.producers < all_effort u.producers)
    after_turn u h i p e act busy =
        let o : Turn M = turn M BackpressureMode.backoff u.running (queue_of M u) p in
        let fewer : effort o.producer < effort p =
          rw h.running (turn-effort M BackpressureMode.backoff (queue_of M u) p act busy) in
        (
          turned M u i o,
          record {
            notes = _;
            run = next h.run (produce u i p e);
            running = h.running;
            small = λ k p'.
                get_elem?-set-all (λ n q. All (λ j. j.total_size ≤ limit) (todo q)) u.producers i k
                  o.producer p'
                  (All-append_right (λ j. j.total_size ≤ limit) (noted o.note) (todo o.producer)
                    (subst (All (λ j. j.total_size ≤ limit))
                      (sym (
                        turn-Keeps M BackpressureMode.backoff format_log u.running (queue_of M u)
                          p))
                      (h.small i p e)))
                  (λ other. h.small k p');
          },
          omega (arith, all_effort-set u.producers i p o.producer e, fewer),
        )

    standing :
        (u : System M) (h : Ahead u) (k : ℕ) (p : Producer)
        → get_elem? u.producers k ≡ some p
        → Stands format_log line (claims (es ++ h.notes)) (slots (queue_of M u)) k p.place
    standing u h k p e = ((served u h).held.stands k p e).0

    -- The archiver runs until nothing waits for it; the threads rest.
    drained :
        (u : System M)
        → Ahead u
        → (v : System M) × Ahead v × (v.producers ≡ u.producers) × (pending M (queue_of M v) ≡ [])
    unfolding Loops
    drained u h =
        let fits = IsServed-AllFormat M format_log line s u _ (served u h) formats (alive u h) in
        let loops : IsLooping u.archiver.phase =
          Run-Loops (logbuf M) format_log (served u h).commits.1 (λ _. begun.looping) h.running in
        let (n, empty) =
          empties (logbuf M) format_log (measured (logbuf M) lap u.archiver) u.archiver
            (omega arith) fits (alive u h) loops in
        let (notes, run) = Run-ticks n t u h.notes h.run in
        (
          record u { archiver = ticks (logbuf M) format_log n u.running u.archiver },
          record { notes = notes; run = run; running = h.running; small = h.small },
          refl,
          rw h.running empty,
        )

    -- A thread with something to do, where no claim is open: once nothing waits, it can act.
    after_rest :
        (u : System M)
        → Ahead u
        → AllOut M format_log line u
        → (k : ℕ) (p : Producer) → get_elem? u.producers k ≡ some p
        → 0 < effort p
        → (v : System M) × Ahead v × (all_effort v.producers < all_effort u.producers)
    after_rest u h out k p e busy =
        let (v, ahead, same, empty) = drained u h in
        let here : get_elem? v.producers k ≡ some p = rw same e in
        let out' : AllOut M format_log line v =
          subst (λ ps. (i : ℕ) (o : Producer) → get_elem? ps i ≡ some o → IsHolding o.place → ⊥)
            (sym same) out in
        let filled = IsServed-IsFilled M format_log line s v _ (served v ahead) out' in
        let (w, further, fewer) =
          after_turn v ahead k p here
            (out_acts M limit format_log line _ _ k (queue_of M v) room p.place p.calls
              (standing v ahead k p here) (out k p e) (ahead.small k p here) filled empty)
            busy in
        (w, further, omega (arith, ap all_effort same))

    step :
        (u : System M) (h : Ahead u)
        → ((v : System M) × Ahead v × (all_effort v.producers < all_effort u.producers))
          ⊎ AllDone M format_log line u
    step u h =
        elim (first_or_all (λ p. IsHolding p.place) (λ p. IsHolding p.place → ⊥) u.producers
          IsHolding-or-out) [
            | inl (k, p, e, held) ↦ inl (
                after_turn u h k p e
                  (holding_acts M limit format_log line _ _ k (queue_of M u) p.place
                    (standing u h k p e) held)
                  (holding_busy p.place (5 * length p.calls) held))
            | inr out ↦
                elim (first_or_all (λ p. 0 < effort p) (λ p. effort p ≡ 0) u.producers
                  busy-or-idle) [
                    | inl (k, p, e, busy) ↦ inl (after_rest u h out k p e busy)
                    | inr idle ↦ inr (λ k p e.
                        idle_done M limit format_log line _ _ k (queue_of M u) p.place p.calls
                          (standing u h k p e) (idle k p e))
                  ]
          ]

    finishes :
        (n : ℕ) (u : System M)
        → Ahead u
        → all_effort u.producers ≤ n
        → (v : System M) × Ahead v × AllDone M format_log line v
    finishes zero u h enough = elim (step u h) [
      | inr finished ↦ (u, h, finished)
      | inl (v, ahead, fewer) ↦ absurd (omega arith)
    ]
    finishes (suc n) u h enough = elim (step u h) [
      | inr finished ↦ (u, h, finished)
      | inl (v, ahead, fewer) ↦ finishes n v ahead (omega arith)
    ]

    -- Under `Backoff`, where an empty queue without open claims has room for a record of up to
    -- `limit` bytes: a run of an archiver in its loop and any number of threads, none of whose calls
    -- panics or gives a record whose formatting panics, with formatting that panics on no record that
    -- waits for an archive, can at any moment, as long as the guard is there, go on until all the
    -- threads have made their calls, if those that are left claim no more than `limit` bytes. So no
    -- order of turns leads to a deadlock.
    pub Run-finishes :
        t.running ≡ true
        → AllSmall t
        → (v : System M) × (notes : List (ℕ × Note)) × Backoff t notes v
          × (v.running ≡ true)
          × AllDone M format_log line v
    Run-finishes running small =
        let here : Ahead t = record { notes = []; run = start; running = running; small = small } in
        let (v, ahead, finished) = finishes (all_effort t.producers) t here (omega arith) in
        (v, ahead.notes, ahead.run, ahead.running, finished)
