-- ===== src/Workers/Following/Sent.antt =====
-- What was sent and written up to a state, and the steps of the dispatcher.
use garuda_codec.Base.{
  ℕ, ◌%◌, ◌<◌, ◌≡◌, refl, sym, ◌∙◌, Bool, true, false, List, [], ◌∷◌, ◌++◌, ℕ_discrete,
  append_assoc, append-nil, ne→==_false, ==_iff,
}
use garuda_codec.Dispatch.Routes.{picked, picked-append}
use garuda_codec.Workers.{Pool, State, running, outputs, update}
use garuda_codec.Workers.Following.{IsFollowing, Each-kept}

pub true_false : {A : Type 0} (b : Bool) → b ≡ true → b ≡ false → A
true_false b e f = cc

module _ {X Y S : Type 0} (pool : Pool X Y S) (items : List X) where
  -- What was sent, what each worker has sent, and what was lost.
  pub record Trace (s : State X Y S) : Type 0 where
    pub sent : List X
    pub emitted : ℕ → List Y
    pub lost : List Y
    pub following : IsFollowing pool items s sent emitted lost

  -- What is known of a worker that runs.
  pub running_Follows :
      (s : State X Y S) (q : ℕ) (st : S) (pending : List Y) (i : Trace s)
      → q < pool.workers
      → s.worker q ≡ running st pending
      → (more : List X)
      → outputs pool pool.fresh (picked pool.key pool.workers q i.sent ++ more)
        ≡ i.emitted q ++ (pending ++ outputs pool st (s.queue q ++ more))
  running_Follows s q st pending i h w = rw w at (i.following.each q h)

  pub dispatch_Trace :
      (s : State X Y S) (x : X) (rest : List X) (q : ℕ) (st : S) (pending : List Y)
      → s.dispatching ≡ true
      → s.todo ≡ x ∷ rest
      → pool.key x % pool.workers ≡ q
      → q < pool.workers
      → s.worker q ≡ running st pending
      → Trace s
      → Trace (record s {
        todo = rest;
        reading = true;
        queue = update q (s.queue q ++ (x ∷ [])) s.queue;
      })
  dispatch_Trace s x rest q st pending d e k h w i =
      let f = i.following in
      let t : State X Y S = record s {
        todo = rest;
        reading = true;
        queue = update q (s.queue q ++ (x ∷ [])) s.queue;
      } in
      record {
        sent = i.sent ++ (x ∷ []);
        emitted = i.emitted;
        lost = i.lost;
        following = record {
          read = f.read ∙ rw (e, append_assoc);
          merged = f.merged;
          only_lost = f.only_lost;
          none_lost = f.none_lost;
          none_collected = f.none_collected;
          each = λ j below.
              rw (picked-append pool.key pool.workers j i.sent (x ∷ []), k)
                (elim (ℕ_discrete j q) [
                  | yes same ↦
                      rw (same, (==_iff q q).1 refl, w)
                        (λ more.
                          rw
                            (
                              append_assoc (picked pool.key pool.workers q i.sent) (x ∷ []) more,
                              append_assoc (s.queue q) (x ∷ []) more,
                            )
                            (running_Follows s q st pending i h w (x ∷ more)))
                  | no other ↦
                      rw (ne→==_false j q other, ne→==_false q j (λ g. other (sym g)), append-nil)
                        (f.each j below)
                ]);
          all_read = λ c. true_false s.dispatching d c;
          closed = f.closed;
        };
      }

  -- The dispatcher ends.
  pub end_Trace :
      (s : State X Y S) (failed interrupted : Bool)
      → (failed ≡ false → s.failed ≡ false)
      → (failed ≡ false → interrupted ≡ false → s.todo ≡ [])
      → Trace s
      → Trace (record s { dispatching = false; failed = failed; interrupted = interrupted })
  end_Trace s failed interrupted hf read_all i =
      let f = i.following in
      let t : State X Y S = record s {
        dispatching = false;
        failed = failed;
        interrupted = interrupted;
      } in
      record {
        sent = i.sent;
        emitted = i.emitted;
        lost = i.lost;
        following = record {
          read = f.read;
          merged = f.merged;
          only_lost = f.only_lost;
          none_lost = f.none_lost;
          none_collected = f.none_collected;
          each = Each-kept pool s t i.sent i.emitted refl refl hf (λ d. refl) f.each;
          all_read = λ d. read_all;
          closed = λ g. f.closed (hf g);
        };
      }
