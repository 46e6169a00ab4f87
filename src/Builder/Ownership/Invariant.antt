-- ===== src/Builder/Ownership/Invariant.antt =====
-- Every call on builders, builds and guards keeps the ownership of the queues.
use mathlib.Core.List.{map-append}
use mathlib.Core.Path.{subst}
use inqjet.Common.{
  get_elem?-append_length, get_elem?-append, ℕ, ◌+◌, ◌≡◌, refl, Option, none, some, List, [], ◌∷◌,
  ◌++◌, arith, length, ap, sym, length-append,
}
use inqjet.Config.{LevelFilter, Terminal}
use inqjet.Builder.{
  InqJetBuilder, LoggerState, Archiver, Process, InqJetGuard, default, with_writer,
  with_buffer_size, with_log_level, with_timeout, with_color_mode, with_backpressure, join_thread,
  add_archive, install, set_level, drop_guard, set_once,
}
use inqjet.Builder.Ownership.{
  Setting, writer, buffer_size, log_level, timeout, color_mode, backpressure, count, created,
  configured, World, Step, create, configure, add, refuse, check, finish, change_level, shut_down,
  Reach, here, next, in_archives, in_threads, in_builders, in_building, Serves, IsWorld,
}

count-append : (q : ℕ) (xs ys : List ℕ) → count q (xs ++ ys) ≡ count q xs + count q ys
count-append q [] ys = omega arith
count-append q (x ∷ xs) ys = omega (arith, count-append q xs ys)

created-suc : (q n : ℕ) → created q (n + 1) ≡ created q n + count q (n ∷ [])
unfolding created
created-suc q n = ground arith

module _ (W : Type 0) where
  in_builders-append :
      (q : ℕ) (xs ys : List (InqJetBuilder W))
      → in_builders W q (xs ++ ys) ≡ in_builders W q xs + in_builders W q ys
  in_builders-append q [] ys = omega arith
  in_builders-append q (b ∷ xs) ys = omega (arith, in_builders-append q xs ys)

  in_building-append :
      (q : ℕ) (xs ys : List (InqJetBuilder W × W × LevelFilter))
      → in_building W q (xs ++ ys) ≡ in_building W q xs + in_building W q ys
  in_building-append q [] ys = omega arith
  in_building-append q (b ∷ xs) ys = omega (arith, in_building-append q xs ys)

  in_threads-append :
      (q : ℕ) (xs ys : List (Archiver W))
      → in_threads W q (xs ++ ys) ≡ in_threads W q xs + in_threads W q ys
  in_threads-append q [] ys = omega arith
  in_threads-append q (t ∷ xs) ys = omega (arith, in_threads-append q xs ys)

  configured-archives :
      (op : Setting W) (b : InqJetBuilder W) → (configured W op b).archives ≡ b.archives
  unfolding configured with_writer with_buffer_size with_log_level with_timeout with_color_mode
      with_backpressure
  configured-archives (writer w) b = refl
  configured-archives (buffer_size n) b = refl
  configured-archives (log_level l) b = refl
  configured-archives (timeout d) b = refl
  configured-archives (color_mode m) b = refl
  configured-archives (backpressure m) b = refl

  add_archive-archives :
      (b : InqJetBuilder W) (tag : ℕ) (w : W) (size : ℕ) (p : Process W) (q : ℕ)
      → in_archives W q (add_archive b tag w size p).0.archives
        ≡ in_archives W q b.archives + count q (length p.queues ∷ [])
  unfolding add_archive
  add_archive-archives b tag w size p q = rw map-append (count-append q _ _)

  Serves-append :
      (o : Option LoggerState) (xs ys : List (Archiver W)) → Serves W o xs → Serves W o (xs ++ ys)
  Serves-append none xs ys h = tt
  Serves-append (some s) xs ys (t, e, c, r) = (t, get_elem?-append xs ys s.unparker t e, c, r)

  Serves-set_once :
      (o : Option LoggerState) (threads : List (Archiver W)) (s : LoggerState) (t : Archiver W)
      → Serves W o threads
      → s.unparker ≡ length threads
      → t.consumer ≡ s.source_producer
      → t.running ≡ s.running
      → Serves W (set_once o s) (threads ++ (t ∷ []))
  unfolding set_once
  Serves-set_once (some s') threads s t h u c r = Serves-append (some s') threads (t ∷ []) h
  Serves-set_once none threads s t h u c r = (t, rw u (get_elem?-append_length threads [] t), c, r)

  module _ (s : World W) (v : IsWorld W s) where
    create-IsWorld : IsWorld W (record s { builders = default ∷ s.builders })
    unfolding default
    create-IsWorld = record { single = λ q. omega (arith, v.single q); serves = v.serves }

    configure-IsWorld :
        (op : Setting W) (b : InqJetBuilder W) (xs ys : List (InqJetBuilder W))
        → s.builders ≡ xs ++ (b ∷ ys)
        → IsWorld W (record s { builders = xs ++ (configured W op b ∷ ys) })
    configure-IsWorld op b xs ys h = record {
      single = λ q. omega (
        arith,
        v.single q,
        ap (in_builders W q) h,
        in_builders-append q xs (b ∷ ys),
        in_builders-append q xs (configured W op b ∷ ys),
        ap (in_archives W q) (configured-archives op b),
      );
      serves = v.serves;
    }

    add-IsWorld :
        (tag : ℕ) (w : W) (size : ℕ) (b : InqJetBuilder W) (xs ys : List (InqJetBuilder W))
        → s.builders ≡ xs ++ (b ∷ ys)
        → IsWorld W (record s {
          builders = xs ++ ((add_archive b tag w size s.process).0 ∷ ys);
          process = (add_archive b tag w size s.process).2;
        })
    unfolding add_archive
    add-IsWorld tag w size b xs ys h = record {
      single = λ q. rw length-append (
          omega (
            arith,
            v.single q,
            ap (in_builders W q) h,
            in_builders-append q xs (b ∷ ys),
            in_builders-append q xs ((add_archive b tag w size s.process).0 ∷ ys),
            add_archive-archives b tag w size s.process q,
            created-suc q (length s.process.queues),
          ));
      serves = v.serves;
    }

    remove-IsWorld :
        (b : InqJetBuilder W) (xs ys : List (InqJetBuilder W))
        → s.builders ≡ xs ++ (b ∷ ys)
        → IsWorld W (record s { builders = xs ++ ys })
    remove-IsWorld b xs ys h = record {
      single = λ q. omega (
        arith,
        v.single q,
        ap (in_builders W q) h,
        in_builders-append q xs (b ∷ ys),
        in_builders-append q xs ys,
      );
      serves = v.serves;
    }

    check-IsWorld :
        (w : W) (level : LevelFilter) (b : InqJetBuilder W) (xs ys : List (InqJetBuilder W))
        → s.builders ≡ xs ++ (b ∷ ys)
        → IsWorld W (record s { builders = xs ++ ys; building = (b, w, level) ∷ s.building })
    check-IsWorld w level b xs ys h = record {
      single = λ q. omega (
        arith,
        v.single q,
        ap (in_builders W q) h,
        in_builders-append q xs (b ∷ ys),
        in_builders-append q xs ys,
      );
      serves = v.serves;
    }

    finish-IsWorld :
        (term : Terminal) (b : InqJetBuilder W) (w : W) (level : LevelFilter)
        (xs ys : List (InqJetBuilder W × W × LevelFilter))
        → s.building ≡ xs ++ ((b, w, level) ∷ ys)
        → IsWorld W
            (record s { building = xs ++ ys; process = (install b term (w, level) s.process).1 })
    unfolding install
    finish-IsWorld term b w level xs ys h = record {
      single = λ q.
          rw (length-append, in_threads-append)
            (omega (
              arith,
              v.single q,
              ap (in_building W q) h,
              in_building-append q xs ((b, w, level) ∷ ys),
              in_building-append q xs ys,
              created-suc q (length s.process.queues),
            ));
      serves = Serves-set_once s.process.logger s.process.threads _ _ v.serves refl refl refl;
    }

    join_thread-IsWorld :
        (g : InqJetGuard) (handle : Option ℕ) (p : Process W)
        → IsWorld W (record s { process = p })
        → IsWorld W (record s { process = (join_thread g handle p).1 })
    unfolding join_thread
    join_thread-IsWorld g none p w = w
    join_thread-IsWorld g (some handle) p w = record { single = w.single; serves = w.serves }

    shut_down-IsWorld :
        (g : InqJetGuard) → IsWorld W (record s { process = (drop_guard g s.process).1 })
    unfolding drop_guard
    shut_down-IsWorld g =
        join_thread-IsWorld g g.handle _ (record { single = v.single; serves = v.serves })

    level-IsWorld : (l : LevelFilter) → IsWorld W (record s { process = set_level l s.process })
    unfolding set_level
    level-IsWorld l = record { single = v.single; serves = v.serves }

  Step-IsWorld : {s t : World W} → Step W s t → IsWorld W s → IsWorld W t
  Step-IsWorld {s} (create e) v = subst (IsWorld W) (sym e) (create-IsWorld s v)
  Step-IsWorld {s} (configure op b xs ys h e) v =
      subst (IsWorld W) (sym e) (configure-IsWorld s v op b xs ys h)
  Step-IsWorld {s} (add tag w size b xs ys h e) v =
      subst (IsWorld W) (sym e) (add-IsWorld s v tag w size b xs ys h)
  Step-IsWorld {s} (refuse reason b xs ys h c e) v =
      subst (IsWorld W) (sym e) (remove-IsWorld s v b xs ys h)
  Step-IsWorld {s} (check settings b xs ys h c e) v =
      subst (IsWorld W) (sym e) (check-IsWorld s v settings.0 settings.1 b xs ys h)
  Step-IsWorld {s} (finish term b w level xs ys h e) v =
      subst (IsWorld W) (sym e) (finish-IsWorld s v term b w level xs ys h)
  Step-IsWorld {s} (change_level l e) v = subst (IsWorld W) (sym e) (level-IsWorld s v l)
  Step-IsWorld {s} (shut_down g e) v = subst (IsWorld W) (sym e) (shut_down-IsWorld s v g)

  -- Whatever builders are made, configured W, given archives, refused and built, in any order, with
  -- builds that overlap and guards that are dropped: every queue that was created has at most one
  -- receiver, and once a logger is set, its queue is received from by the archiver that it unparks,
  -- which obeys the logger's flag.
  pub Reach-IsWorld : {s t : World W} → Reach W s t → IsWorld W s → IsWorld W t
  Reach-IsWorld here v = v
  Reach-IsWorld (next r st) v = Step-IsWorld st (Reach-IsWorld r v)
