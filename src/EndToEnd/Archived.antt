-- ===== src/EndToEnd/Archived.antt =====
-- An archive record among other threads, and its line among the outputs after the shutdown.
use inqjet.Common.{
  ℕ, suc, ◌^◌, ◌<◌, ◌≡◌, sym, ap, ◌∙◌, ◌≢◌, inl, inr, true, false, Option, some, List, [], ◌∷◌,
  ◌++◌, length, get_elem?, All, ◌>>=◌, some-none,
}
use inqjet.Common.Bytes.{Bytes, codes}
use inqjet.Logbuf.{Logbuf}
use inqjet.Format.{format_timestamp}
use inqjet.Archive.{ArchiveTag, record_size, archive_format_fn, write}
use inqjet.Archive.Line.{archive_format_fn-write}
use inqjet.Consumer.{Archiver, ArchiveStream, died, done, ticks, set_archive}
use inqjet.Consumer.Promise.{promises}
use inqjet.Consumer.Ending.{measure}
use inqjet.Consumer.Closing.{AllFormat, outputs}
use inqjet.Consumer.Delivery.{Event, append_at, accept_all, System, Run, Step}
use inqjet.Consumer.Delivery.Stop.{IsLooping, commit-outputs}

-- The line of an archive record.
abbrev pub archive_line : (T : ArchiveTag) → T.Tag → Bytes → ℕ → Option Bytes
archive_line T tag payload now = do
  timestamp ← format_timestamp now
  some (
      timestamp ++ (codes " [" ++ (T.write_label tag ++ (codes "] " ++ (payload ++ (b'\n' ∷ []))))))

module _ (R : Logbuf) where
  -- The archiver with another queue in one of its archives.
  abbrev pub stored : Archiver R → ℕ → ArchiveStream R → R.Queue → Archiver R
  stored a i x q = record a {
    archives = set_archive R i (record x.stream { queue = q }) a.archives;
  }

  -- The archiver has run from inside its loop among other threads. Then less than 4 GiB are
  -- archived in one of its streams, with the stream's own tag type, where there is room and no
  -- other claim is open; and then the guard is dropped, with formatting that panics on no record
  -- owed. Writing does not panic, the thread ends by itself, and the archive's writer has been given
  -- what was owed at the start and the lines of the records committed since, in order, and at last
  -- the timestamp, the tag's label in brackets, the payload and a newline; each other writer, what
  -- was owed to it and committed since.
  pub write-outputs :
      {s₀ s : System R} {es : List Event} (format_log : Bytes → Option Bytes) (T : ArchiveTag)
      (i : ℕ) (x : ArchiveStream R) (tag : T.Tag) (payload : Bytes) (now : ℕ) (region : Bytes)
      (q : R.Queue)
      → Run R format_log s₀ es s
      → IsLooping s₀.thread.phase
      → s.running ≡ true
      → s.thread.phase ≢ died
      → get_elem? s.thread.archives i ≡ some x
      → x.format_fn ≡ archive_format_fn T
      → length payload < 2 ^ 32
      → now < 2 ^ 64
      → R.IsIdle x.stream.queue
      → R.try_claim x.stream.queue (record_size T payload) ≡ some (region, q)
      → All AllFormat (
          append_at
            (suc i)
            (archive_line T tag payload now ∷ [])
            (accept_all es (promises R format_log s₀.thread)))
      → (q' : R.Queue) × (n : ℕ) × (write T R x.stream.queue tag payload now ≡ some q')
        × ((ticks R format_log n false (stored s.thread i x q')).phase ≡ done)
        × (outputs R (ticks R format_log n false (stored s.thread i x q'))
            ≡ append_at
                (suc i)
                (archive_line T tag payload now ∷ [])
                (accept_all es (promises R format_log s₀.thread)))
  write-outputs {s₀} {s} {es} format_log T i x tag payload now region q r loops running alive found
        code small fits idle claimed formats =
      let (q', written, result) =
        archive_format_fn-write T R x.stream.queue tag payload now small fits idle in
      elim result [
        | inl (full, same) ↦ absurd (some-none (sym claimed ∙ full))
        | inr (bytes, grown, line) ↦
            let spelled : x.format_fn bytes ≡ archive_line T tag payload now =
              ap (λ (f : Bytes → Option Bytes). f bytes) code ∙ line in
            let (ended, out) =
              commit-outputs R format_log r (Step.commit_archive s i x q' (bytes ∷ []) found grown)
                loops running alive (rw spelled formats) in
            (q', measure R (stored s.thread i x q'), written, ended, out ∙ rw spelled)
      ]
