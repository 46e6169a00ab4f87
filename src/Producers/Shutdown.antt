-- ===== src/Producers/Shutdown.antt =====
-- The calls of many threads and the lines that the log's writer has been given at the end.
use inqjet.Common.{
  ℕ, suc, ◌≡◌, refl, sym, ap, ◌∙◌, ◌≢◌, true, false, Option, some, List, [], ◌∷◌, map, arith,
  get_elem?, All, ◌++◌, append-nil,
}
use mathlib.Core.Path.{subst}
use inqjet.Common.Bytes.{Bytes}
use inqjet.Config.{BackpressureMode}
use inqjet.Logbuf.Mpsc.{Mpsc, logbuf, Slot, reserved, filled, IsFilled}
use inqjet.Consumer.{Archiver, ticks, done, died}
use inqjet.Consumer.Promise.{promises, archive_promised, written}
use inqjet.Consumer.Ending.{measure}
use inqjet.Consumer.Closing.{AllFormat}
use inqjet.Consumer.Alive.{tick-alive}
use inqjet.Consumer.Delivery.{Run-promises}
use inqjet.Consumer.Delivery.Stop.{Run-outputs}
use inqjet.Producers.{
  Step, archive, produce, stop, start, next, between, claims_by, of_thread, Job, Producer, Note,
  System, queue_of, Run, claims,
}
use inqjet.Producers.Claims.{Fits-visible, Fits-AllFormat}
use inqjet.Producers.Held.{IsHolding}
use inqjet.Producers.Backoff.{Run-calls}
use inqjet.Producers.Delivered.{IsStarted, IsServed, Run-IsServed}

All-IsFilled :
    (ss : List Slot) → ((t n : ℕ) → get_elem? ss t ≡ some (reserved n) → ⊥) → All IsFilled ss
All-IsFilled [] h = tt
All-IsFilled (reserved n ∷ ss) h = absurd (h 0 n refl)
All-IsFilled (filled bytes ∷ ss) h = (tt, All-IsFilled ss (λ t n. h (suc t) n))

map-some_inj : (xs ys : List Bytes) → map some xs ≡ map some ys → xs ≡ ys
map-some_inj [] [] e = refl
map-some_inj [] (y ∷ ys) e = cc
map-some_inj (x ∷ xs) [] e = cc
map-some_inj (x ∷ xs) (y ∷ ys) e =
    let same : map some xs ≡ map some ys = cc in let rest = map-some_inj xs ys same in cc

abbrev first : List (List (Option Bytes)) → List (Option Bytes)
first [] = []
first (x ∷ xs) = x

module _ (M : Mpsc) (format_log : Bytes → Option Bytes) (line : Job → Bytes) where
  open M use {Queue, slots}

  -- The archiver, some steps after the guard was dropped.
  abbrev pub stopped : System M → Archiver (logbuf M)
  stopped t = ticks (logbuf M) format_log (measure (logbuf M) t.archiver) false t.archiver

  -- No thread is behind a claim.
  abbrev pub AllOut : System M → Type 0
  AllOut t = (k : ℕ) (p : Producer) → get_elem? t.producers k ≡ some p → IsHolding p.place → ⊥

  pub IsServed-IsFilled :
      (s t : System M) (cs : List (ℕ × Job))
      → IsServed M format_log line s t cs
      → AllOut t
      → All IsFilled (slots (queue_of M t))
  IsServed-IsFilled s t cs h out = All-IsFilled (slots (queue_of M t)) (λ u n e.
      let (k, p, j, region, here, place) = h.held.held u n e in
      out k p here (subst IsHolding (sym place) tt))

  pub IsServed-AllFormat :
      (s t : System M) (cs : List (ℕ × Job))
      → IsServed M format_log line s t cs
      → All AllFormat (map (archive_promised (logbuf M)) s.archiver.archives)
      → t.archiver.phase ≢ died
      → All AllFormat (promises (logbuf M) format_log t.archiver)
  IsServed-AllFormat s t cs h formats alive =
      let (evs, acts, owed) = h.commits in
      subst (All AllFormat) (sym (Run-promises (logbuf M) format_log acts alive ∙ owed))
        (Fits-AllFormat format_log line cs (slots (queue_of M t)) h.held.fits, formats)

  Step-alive :
      {mode : BackpressureMode} {t u : System M} {i : ℕ} {note : Note}
      → Step M mode format_log t i note u
      → All AllFormat (promises (logbuf M) format_log t.archiver)
      → t.archiver.phase ≢ died
      → u.archiver.phase ≢ died
  Step-alive (archive t i) formats alive =
      tick-alive (logbuf M) format_log t.archiver formats t.running alive
  Step-alive (produce t i p e) formats alive = alive
  Step-alive (stop t i) formats alive = alive

  -- The archiver does not panic, neither before the guard is dropped nor after it.
  pub Run-alive :
      {mode : BackpressureMode} {s t : System M} {es : List (ℕ × Note)}
      → Run M mode format_log s es t
      → IsStarted M format_log line s
      → All AllFormat (map (archive_promised (logbuf M)) s.archiver.archives)
      → t.archiver.phase ≢ died
  Run-alive start begun formats = begun.alive
  Run-alive {s = s} (next {t = t} {es = es} run st) begun formats =
      let alive = Run-alive run begun formats in
      Step-alive st
        (IsServed-AllFormat s t (claims es) (Run-IsServed M format_log line run begun) formats
          alive)
        alive

  -- Where a run, in either mode, has come to a moment at which no thread is behind a claim and the
  -- guard is there, the archiver would end by itself without further claims, and the lines are those
  -- of the calls that have got a place.
  pub Run-lines :
      {mode : BackpressureMode} {s t : System M} {es : List (ℕ × Note)}
      → Run M mode format_log s es t
      → IsStarted M format_log line s
      → All AllFormat (map (archive_promised (logbuf M)) s.archiver.archives)
      → t.running ≡ true
      → AllOut t
      → ((stopped t).phase ≡ done)
        × (written (stopped t).log.calls ≡ map (λ c. line c.1) (claims es))
  Run-lines {mode} {s} {t} {es} run begun formats running out =
      let alive = Run-alive run begun formats in
      let served = Run-IsServed M format_log line run begun in
      let (evs, acts, owed) = served.commits in
      let lines =
        Fits-visible format_log line (claims es) (slots (queue_of M t)) served.held.fits
          (IsServed-IsFilled s t (claims es) served out) in
      let fits = IsServed-AllFormat s t (claims es) served formats alive in
      let (ended, outs, _, _) =
        Run-outputs (logbuf M) format_log (measure (logbuf M) t.archiver) acts begun.looping running
          alive fits (omega arith) in
      (ended, map-some_inj _ _ (ap first (outs ∙ owed) ∙ lines))

  -- No thread has a call in front of it.
  abbrev pub AllDone : System M → Type 0
  AllDone t =
      (k : ℕ) (p : Producer)
      → get_elem? t.producers k ≡ some p
      → (p.place ≡ between) × (p.calls ≡ [])

  -- An archiver in its loop and any number of threads that have calls to make, none of which panics
  -- or gives a record whose formatting panics, run in any order, under `Backoff`, until the threads
  -- have made all their calls; formatting panics on no record that waits for an archive. Then the
  -- guard is dropped. The archiver ends by itself, at the latest after
  -- as many actions as `measure` gives, and the log's writer has been given the line of every call
  -- that has got a place in the queue, in the order of the places, and nothing else; and the calls of
  -- any thread among these are all the calls that it had to make, in its own order.
  pub Run-delivered :
      {s t : System M} {es : List (ℕ × Note)} (k : ℕ) (p : Producer)
      → Run M BackpressureMode.backoff format_log s es t
      → IsStarted M format_log line s
      → get_elem? s.producers k ≡ some p
      → All AllFormat (map (archive_promised (logbuf M)) s.archiver.archives)
      → t.running ≡ true
      → AllDone t
      → ((stopped t).phase ≡ done)
        × (written (stopped t).log.calls ≡ map (λ c. line c.1) (claims es))
        × (of_thread k (claims es) ≡ p.calls)
  Run-delivered {s} {t} {es} k p run begun e formats running finished =
      let out : AllOut t = λ i o at held. subst IsHolding (finished i o at).0 held in
      let (ended, lines) = Run-lines run begun formats running out in
      let (p', e', order) = Run-calls M format_log k p run running e in
      let (rest, none_left) = finished k p' e' in
      let whole : claims_by k es ++ [] ≡ p.calls =
        rw ((begun.callers k p e).0, rest, none_left) at order in
      (ended, lines, sym (append-nil _) ∙ whole)
