-- ===== src/Workers/Written.antt =====
-- What the threads have written at any time, and when they have ended.
use garuda_codec.Base.{
  ℕ, ◌<◌, ◌≡◌, sym, ◌∙◌, ◌≢◌, ◌⊎◌, inl, inr, Bool-cases, true, false, List, ◌++◌, append-nil,
}
use garuda_codec.Dispatch.Routes.{picked}
use garuda_codec.Merge.{Merge}
use garuda_codec.Merge.Growing.{Merge-cong}
use garuda_codec.Workers.{Pool, State, Reach, IsFinal, ended, outputs, started}
use garuda_codec.Workers.Following.Preserved.{Reach-Trace}

module _ {X Y S : Type 0} (pool : Pool X Y S) where
  -- A list begins with another.
  abbrev pub BeginsWith : List Y → List Y → Type 0
  BeginsWith ys xs = (rest : List Y) × (ys ≡ xs ++ rest)

  -- When all threads have ended and no read, no write and no work on an item has failed, the
  -- dispatcher has sent a beginning of its items, and all of them if it was not stopped, and what
  -- was written is an interleaving of all that each worker makes of those that are its own.
  pub written-Merge :
      (items : List X) (s : State X Y S)
      → Reach pool (started pool items) s
      → IsFinal pool s
      → s.failed ≡ false
      → (sent : List X) × (items ≡ sent ++ s.todo)
        × ((s.interrupted ≡ true) ⊎ (items ≡ sent))
        × Merge pool.workers
            (λ q. outputs pool pool.fresh (picked pool.key pool.workers q sent))
            s.written
  written-Merge items s r final clean =
      let i = Reach-Trace pool items r in
      let f = i.following in
      let all_written : s.written ++ (s.collected ++ i.lost) ≡ s.written = rw (
        f.none_collected final.forwarder_ended,
        (f.closed clean final.forwarder_ended).0,
        append-nil,
      ) in
      (
        i.sent,
        f.read,
        elim (Bool-cases s.interrupted) [
          | inl g ↦ inl g
          | inr g ↦ inr (f.read ∙ rw (f.all_read final.dispatcher_ended clean g, append-nil))
        ],
        Merge-cong pool.workers (rw all_written at f.merged) (λ q h.
            let (rest, e, all) = rw (final.workers_ended q h) at (f.each q h) in
            sym (e ∙ rw ((all clean).0, append-nil))),
      )

  -- What is left out of the case that was excluded.
  pub unless_interrupted :
      {P : Type 0} (s : State X Y S) → s.interrupted ≡ false → (s.interrupted ≡ true) ⊎ P → P
  unless_interrupted s g (inl h) = cc
  unless_interrupted s g (inr p) = p

  -- As long as no read, no write and no work on an item has failed, no send is refused: while the
  -- dispatcher runs, all workers run, and while a worker runs, the forwarder does.
  pub no_send_refused :
      (items : List X) (s : State X Y S)
      → Reach pool (started pool items) s
      → s.failed ≡ false
      → (q : ℕ) → q < pool.workers
      → (s.dispatching ≡ true → s.worker q ≢ ended) × (s.worker q ≢ ended → s.forwarding ≢ false)
  no_send_refused items s r clean q h =
      let f = (Reach-Trace pool items r).following in
      (
        (λ d e. let (rest, g, all) = rw e at (f.each q h) in let d' = (all clean).1 in cc),
        (λ runs e. runs ((f.closed clean e).1 q h)),
      )
