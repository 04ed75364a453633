-- ===== src/Workers/Following/Working.antt =====
-- The steps of a worker keep `IsFollowing`.
use garuda_codec.Base.{
  ℕ, ◌<◌, ◌≡◌, refl, sym, ◌∙◌, ◌≢◌, Bool, true, false, List, [], ◌∷◌, ◌++◌, append_assoc,
  append-nil, some, inl,
}
use garuda_codec.Dispatch.Routes.{picked}
use garuda_codec.Merge.Growing.{Merge-snoc}
use garuda_codec.Workers.{
  Pool, Worker, State, running, ended, outputs, update, update_same, update_other,
}
use garuda_codec.Workers.Following.{Follows, Each-changed}
use garuda_codec.Workers.Following.Sent.{Trace, true_false, running_Follows}

module _ {X Y S : Type 0} (pool : Pool X Y S) (items : List X) where
  -- Worker `q` runs, and takes an item or ends.
  worker_Trace :
      (s : State X Y S) (q : ℕ) (queue : ℕ → List X) (w : Worker Y S) (failed : Bool)
      → (failed ≡ false → s.failed ≡ false)
      → ((j : ℕ) → j ≢ q → s.queue j ≡ queue j)
      → s.worker q ≢ ended
      → q < pool.workers
      → (i : Trace pool items s)
      → Follows pool
          (picked pool.key pool.workers q i.sent)
          (i.emitted q)
          (queue q)
          w
          failed
          s.dispatching
      → Trace pool items (record s { queue = queue; worker = update q w s.worker; failed = failed })
  worker_Trace s q queue w failed hf same runs h i now =
      let f = i.following in
      let t : State X Y S = record s {
        queue = queue;
        worker = update q w s.worker;
        failed = failed;
      } in
      record {
        sent = i.sent;
        emitted = i.emitted;
        lost = i.lost;
        following = record {
          read = f.read;
          merged = f.merged;
          only_lost = f.only_lost;
          none_lost = f.none_lost;
          none_collected = f.none_collected;
          each =
              Each-changed pool s t i.sent i.emitted i.emitted q f.each
                (λ j k. (refl, same j k, sym (update_other q j w s.worker k))) hf (λ d. d)
                (rw (update_same q w s.worker) now);
          all_read = λ d g. f.all_read d (hf g);
          closed = λ g c. absurd (runs ((f.closed (hf g) c).1 q h));
        };
      }

  -- Worker `q` ends: what it has sent is the beginning of what it makes of its items.
  pub stop_Trace :
      (s : State X Y S) (q : ℕ) (queue : ℕ → List X) (st : S) (pending : List Y) (failed : Bool)
      → (failed ≡ false → s.failed ≡ false)
      → ((j : ℕ) → j ≢ q → s.queue j ≡ queue j)
      → q < pool.workers
      → s.worker q ≡ running st pending
      → (failed ≡ false → (pending ++ outputs pool st (s.queue q) ≡ []) × (s.dispatching ≡ false))
      → Trace pool items s
      → Trace pool items
          (record s { queue = queue; worker = update q ended s.worker; failed = failed })
  stop_Trace s q queue st pending failed hf same h w clean i =
      worker_Trace s q queue ended failed hf same (λ e. cc) h i
        (
          pending ++ outputs pool st (s.queue q),
          (rw (append-nil (s.queue q)) at (
              rw (append-nil (picked pool.key pool.workers q i.sent)) at
                (running_Follows pool items s q st pending i h w []))),
          clean,
        )

  pub take_Trace :
      (s : State X Y S) (q : ℕ) (st st' : S) (x : X) (rest : List X) (made : List Y)
      → q < pool.workers
      → s.worker q ≡ running st []
      → s.queue q ≡ x ∷ rest
      → pool.work st x ≡ some (st', made)
      → Trace pool items s
      → Trace pool items (record s {
        queue = update q rest s.queue;
        worker = update q (running st' made) s.worker;
      })
  take_Trace s q st st' x rest made h w e m i =
      worker_Trace s q (update q rest s.queue) (running st' made) s.failed (λ g. g)
        (λ j k. sym (update_other q j rest s.queue k)) (λ e. cc) h i
        (λ more.
          rw (update_same q rest s.queue)
            (running_Follows pool items s q st [] i h w more ∙ rw (e, m)))

  pub emit_Trace :
      (s : State X Y S) (q : ℕ) (st : S) (y : Y) (pending : List Y)
      → q < pool.workers
      → s.worker q ≡ running st (y ∷ pending)
      → s.forwarding ≡ true
      → Trace pool items s
      → Trace pool items (record s {
        worker = update q (running st pending) s.worker;
        collected = s.collected ++ (y ∷ []);
      })
  emit_Trace s q st y pending h w live i =
      let f = i.following in
      let emitted = update q (i.emitted q ++ (y ∷ [])) i.emitted in
      let t : State X Y S = record s {
        worker = update q (running st pending) s.worker;
        collected = s.collected ++ (y ∷ []);
      } in
      record {
        sent = i.sent;
        emitted = emitted;
        lost = [];
        following = record {
          read = f.read;
          merged =
              rw (append-nil, ← append_assoc s.written s.collected (y ∷ []))
                (Merge-snoc pool.workers q y h (rw (f.none_lost live, append-nil) at f.merged));
          only_lost = inl refl;
          none_lost = λ g. refl;
          none_collected = λ c. true_false s.forwarding live c;
          each =
              Each-changed pool s t i.sent i.emitted emitted q f.each
                (λ j k. (
                  sym (update_other q j (i.emitted q ++ (y ∷ [])) i.emitted k),
                  refl,
                  sym (update_other q j (running st pending) s.worker k),
                ))
                (λ g. g) (λ d. d)
                (rw (update_same q (running st pending) s.worker) (λ more.
                  rw (update_same q (i.emitted q ++ (y ∷ [])) i.emitted, append_assoc)
                    (running_Follows pool items s q st (y ∷ pending) i h w more)));
          all_read = f.all_read;
          closed = λ g c. true_false s.forwarding live c;
        };
      }
