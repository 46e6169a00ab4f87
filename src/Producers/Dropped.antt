-- ===== src/Producers/Dropped.antt =====
-- With `Drop`, or calls that are given up, the others are delivered all the same.
use inqjet.Common.{
  ℕ, ◌≡◌, refl, inl, inr, true, Option, some, List, [], ◌∷◌, ◌++◌, map, ◌==◌, Bool-cases, get_elem?,
  All,
}
use mathlib.Core.List.{Sublistᴰ}
use mathlib.Core.Path.{subst}
use inqjet.Common.Bytes.{Bytes}
use inqjet.Config.{BackpressureMode}
use inqjet.Logbuf.Mpsc.{Mpsc, logbuf}
use inqjet.Consumer.{done}
use inqjet.Consumer.Promise.{archive_promised, written}
use inqjet.Consumer.Closing.{AllFormat}
use inqjet.Producers.{
  Job, Producer, Note, silent, claimed, skipped, System, Run, claims, claims_by, calls_by,
  of_thread,
}
use inqjet.Producers.Order.{todo, Run-todo}
use inqjet.Producers.Delivered.{IsStarted}
use inqjet.Producers.Shutdown.{AllOut, stopped, Run-lines}

Sublist-claims_by : (k : ℕ) (es : List (ℕ × Note)) → Sublistᴰ (claims_by k es) (calls_by k es)
Sublist-claims_by k [] = Sublistᴰ.slnil
Sublist-claims_by k ((i, silent) ∷ es) = Sublist-claims_by k es
Sublist-claims_by k ((i, claimed j) ∷ es) = elim (Bool-cases (k == i)) [
  | inl e ↦ rw e (Sublistᴰ.cons-cons refl (Sublist-claims_by k es))
  | inr e ↦ rw e (Sublist-claims_by k es)
]
Sublist-claims_by k ((i, skipped j) ∷ es) = elim (Bool-cases (k == i)) [
  | inl e ↦ rw e (Sublistᴰ.cons (Sublist-claims_by k es))
  | inr e ↦ rw e (Sublist-claims_by k es)
]

Sublist-append {ℓ} :
    {A : Type ℓ} {xs ys : List A} (zs : List A) → Sublistᴰ xs ys → Sublistᴰ xs (ys ++ zs)
Sublist-append [] Sublistᴰ.slnil = Sublistᴰ.slnil
Sublist-append (z ∷ zs) Sublistᴰ.slnil = Sublistᴰ.cons (Sublist-append zs Sublistᴰ.slnil)
Sublist-append zs (Sublistᴰ.cons h) = Sublistᴰ.cons (Sublist-append zs h)
Sublist-append zs (Sublistᴰ.cons-cons e h) = Sublistᴰ.cons-cons e (Sublist-append zs h)

module _ (M : Mpsc) (format_log : Bytes → Option Bytes) (line : Job → Bytes) where
  -- An archiver in its loop and any number of threads that have calls to make, none of which panics
  -- or gives a record whose formatting panics, run in any order and in either mode; formatting panics
  -- on no record that waits for an archive. At a moment at which no thread is behind a claim the
  -- guard is dropped, and no thread makes another claim. The archiver ends by itself, at the latest
  -- after as many actions as `measure` gives, and the log's writer has been given the line of every
  -- call that has got a place in the queue, in the order of the places, and nothing else; and the
  -- calls of any thread among these are some of those that it had to make, in its own order.
  pub Run-kept :
      {mode : BackpressureMode} {s t : System M} {es : List (ℕ × Note)} (k : ℕ) (p : Producer)
      → Run M mode format_log s es t
      → IsStarted M format_log line s
      → get_elem? s.producers k ≡ some p
      → All AllFormat (map (archive_promised (logbuf M)) s.archiver.archives)
      → t.running ≡ true
      → AllOut M format_log line t
      → ((stopped M format_log line t).phase ≡ done)
        × (written (stopped M format_log line t).log.calls ≡ map (λ c. line c.1) (claims es))
        × Sublistᴰ (of_thread k (claims es)) p.calls
  Run-kept {mode} {s} {t} {es} k p run begun e formats running out =
      let (ended, lines) = Run-lines M format_log line run begun formats running out in
      let (p', _, order) = Run-todo M mode format_log k p run e in
      let whole : calls_by k es ++ todo p' ≡ p.calls = rw (begun.callers k p e).0 at order in
      (
        ended,
        lines,
        subst (Sublistᴰ (claims_by k es)) whole (Sublist-append (todo p') (Sublist-claims_by k es)),
      )
