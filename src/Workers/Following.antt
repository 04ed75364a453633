-- ===== src/Workers/Following.antt =====
-- What the threads have written at any time, in terms of what the dispatcher has sent.
pub mod Sent
pub mod Working
pub mod Preserved
use garuda_codec.Base.{
  ℕ, ◌%◌, ◌<◌, ◌≡◌, refl, sym, ◌≢◌, ◌⊎◌, Bool, true, false, List, [], ◌∷◌, ◌++◌, ℕ_discrete,
}
use garuda_codec.Dispatch.Routes.{picked}
use garuda_codec.Merge.{Merge}
use garuda_codec.Workers.{Pool, Worker, State, running, ended, outputs}

module _ {X Y S : Type 0} (pool : Pool X Y S) where
  -- A worker was sent the items `given` and has sent `out`. While it runs, what it makes of them
  -- and of any more items is `out`, what it still has to send, and what it will make of its queue.
  -- When it has ended, `out` is the beginning of what it makes of them, and all of it if nothing
  -- has failed; then the dispatcher has ended before it.
  abbrev pub Follows : List X → List Y → List X → Worker Y S → Bool → Bool → Type 0
  Follows given out queue (running st pending) failed dispatching =
      (more : List X)
      → outputs pool pool.fresh (given ++ more)
        ≡ out ++ (pending ++ outputs pool st (queue ++ more))
  Follows given out queue ended failed dispatching =
      (rest : List Y) × (outputs pool pool.fresh given ≡ out ++ rest)
      × (failed ≡ false → (rest ≡ []) × (dispatching ≡ false))

  abbrev pub Each : State X Y S → List X → (ℕ → List Y) → Type 0
  Each s sent emitted =
      (q : ℕ)
      → q < pool.workers
      → Follows (picked pool.key pool.workers q sent) (emitted q) (s.queue q) (s.worker q) s.failed
          s.dispatching

  -- `sent` is what the dispatcher has sent, `emitted` what each worker has sent, and `lost` what
  -- was in the queue of the forwarder when a write failed.
  pub record IsFollowing (items : List X) (s : State X Y S) (sent : List X) (emitted : ℕ → List Y)
      (lost : List Y) : Type 0 where
    pub read : items ≡ sent ++ s.todo
    pub merged : Merge pool.workers emitted (s.written ++ (s.collected ++ lost))
    pub only_lost : (lost ≡ []) ⊎ (s.output_failed ≡ true)
    pub none_lost : s.forwarding ≡ true → lost ≡ []
    pub none_collected : s.forwarding ≡ false → s.collected ≡ []
    pub each : Each s sent emitted
    pub all_read : s.dispatching ≡ false → s.failed ≡ false → s.interrupted ≡ false → s.todo ≡ []
    pub closed :
        s.failed ≡ false
        → s.forwarding ≡ false
        → (lost ≡ []) × ((q : ℕ) → q < pool.workers → s.worker q ≡ ended)

  Follows-weaken :
      (given : List X) (out : List Y) (queue : List X) (w : Worker Y S) (f f' d d' : Bool)
      → (f' ≡ false → f ≡ false)
      → (d ≡ false → d' ≡ false)
      → Follows given out queue w f d
      → Follows given out queue w f' d'
  Follows-weaken given out queue (running st pending) f f' d d' hf hd h = h
  Follows-weaken given out queue ended f f' d d' hf hd (rest, e, clean) =
      (rest, e, λ g. ((clean (hf g)).0, hd (clean (hf g)).1))

  -- A change at worker `q` only.
  pub Each-changed :
      (s t : State X Y S) (sent : List X) (emitted emitted' : ℕ → List Y) (q : ℕ)
      → Each s sent emitted
      → ((j : ℕ)
          → j ≢ q
          → (emitted j ≡ emitted' j) × (s.queue j ≡ t.queue j) × (s.worker j ≡ t.worker j))
      → (t.failed ≡ false → s.failed ≡ false)
      → (s.dispatching ≡ false → t.dispatching ≡ false)
      → Follows
          (picked pool.key pool.workers q sent)
          (emitted' q)
          (t.queue q)
          (t.worker q)
          t.failed
          t.dispatching
      → Each t sent emitted'
  Each-changed s t sent emitted emitted' q each same hf hd here j h = elim (ℕ_discrete j q) [
    | yes e ↦ rw e here
    | no e ↦
        let (a, b, c) = same j e in
        rw (sym a, sym b, sym c)
          (Follows-weaken _ (emitted j) (s.queue j) (s.worker j) s.failed t.failed s.dispatching
            t.dispatching hf hd (each j h))
  ]

  pub Each-kept :
      (s t : State X Y S) (sent : List X) (emitted : ℕ → List Y)
      → s.queue ≡ t.queue
      → s.worker ≡ t.worker
      → (t.failed ≡ false → s.failed ≡ false)
      → (s.dispatching ≡ false → t.dispatching ≡ false)
      → Each s sent emitted
      → Each t sent emitted
  Each-kept s t sent emitted a b hf hd each j h =
      rw (sym a, sym b)
        (Follows-weaken _ (emitted j) (s.queue j) (s.worker j) s.failed t.failed s.dispatching
          t.dispatching hf hd (each j h))
