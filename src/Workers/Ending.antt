-- ===== src/Workers/Ending.antt =====
-- The threads end, whatever the scheduler does.
use garuda_codec.Base.{ℕ, zero, suc, ◌<◌, ◌≡◌, ap, subst, arith, ◌⊎◌, inl, inr, false, List}
use garuda_codec.Dispatch.Routes.{picked}
use garuda_codec.Merge.{Merge}
use garuda_codec.Workers.{
  Pool, State, Step, Reach, IsFinal, here, later, started, outputs, dispatch, dispatch_refused,
  read_item, input_ends, stopped, read_fails, take_item, work_fails, emit, emit_refused,
  worker_ends, write, write_fails, forwarder_ends,
}
use garuda_codec.Workers.Measure.{before_work, after_work, step_Decreases}
use garuda_codec.Workers.Progress.{no_deadlock, IsProgress, HasItem, step-HasItem}
use garuda_codec.Workers.Written.{written-Merge, unless_interrupted}

module _ {X Y S : Type 0} (pool : Pool X Y S) where
  -- No thread can make a step, unless a read or a write fails or a read sees the stop flag.
  abbrev pub IsStuck : State X Y S → Type 0
  IsStuck s = (t : State X Y S) (step : Step pool s t) → ¬ IsProgress step

  -- A schedule goes on as long as a thread can make a step without a failure or a stop. Where none
  -- can, it may end, even if a read or a write could still fail.
  abbrev pub IsSchedule : (ℕ → State X Y S) → Type 0
  IsSchedule run = (i : ℕ) → Step pool (run i) (run (suc i)) ⊎ IsStuck (run i)

  -- Threads that have ended make no step.
  pub IsFinal-IsStuck : (s : State X Y S) → IsFinal pool s → IsStuck s
  IsFinal-IsStuck s h t (read_item x rest d r e) p = cc (h.dispatcher_ended, d)
  IsFinal-IsStuck s h t (dispatch x rest q st pending d r e k l w room) p =
      cc (h.dispatcher_ended, d)
  IsFinal-IsStuck s h t (dispatch_refused x rest q d r e k l w) p = cc (h.dispatcher_ended, d)
  IsFinal-IsStuck s h t (input_ends d r e) p = cc (h.dispatcher_ended, d)
  IsFinal-IsStuck s h t (stopped d r) p = cc (h.dispatcher_ended, d)
  IsFinal-IsStuck s h t (read_fails d r) p = cc (h.dispatcher_ended, d)
  IsFinal-IsStuck s h t (take_item q st st' x rest made l w e m) p = cc (h.workers_ended q l, w)
  IsFinal-IsStuck s h t (work_fails q st x rest l w e m) p = cc (h.workers_ended q l, w)
  IsFinal-IsStuck s h t (emit q st y pending l w f room) p = cc (h.workers_ended q l, w)
  IsFinal-IsStuck s h t (emit_refused q st y pending l w f) p = cc (h.workers_ended q l, w)
  IsFinal-IsStuck s h t (worker_ends q st l w e d) p = cc (h.workers_ended q l, w)
  IsFinal-IsStuck s h t (write y rest f e) p = cc (h.forwarder_ended, f)
  IsFinal-IsStuck s h t (write_fails y rest f e) p = cc (h.forwarder_ended, f)
  IsFinal-IsStuck s h t (forwarder_ends f e all) p = cc (h.forwarder_ended, f)

  module _ (has_room : 0 < pool.capacity) (some_worker : 0 < pool.workers) (run : ℕ → State X Y S)
      (goes_on : IsSchedule run) where
    abbrev Ends : Type 0
    Ends = (k : ℕ) × Reach pool (run 0) (run k) × IsFinal pool (run k)

    ends_within :
        (a b i : ℕ)
        → Reach pool (run 0) (run i)
        → HasItem (run i)
        → before_work pool (run i) < a
        → after_work pool (run i) < b
        → Ends
    ends_within zero b i r item h k = absurd (omega arith)
    ends_within (suc a) zero i r item h k = absurd (omega arith)
    ends_within (suc a) (suc b) i r item h k = elim (goes_on i) [
      | inr stuck ↦ elim (no_deadlock pool has_room some_worker (run i) item) [
        | inl (t, step, p) ↦ absurd (stuck t step p)
        | inr final ↦ (i, r, final)
      ]
      | inl step ↦ elim (step_Decreases pool step) [
        | inl less ↦
            ends_within a (suc (after_work pool (run (suc i)))) (suc i) (later r step)
              (step-HasItem step item) (omega arith) (omega arith)
        | inr (same, less) ↦
            ends_within (suc a) b (suc i) (later r step) (step-HasItem step item) (omega arith)
              (omega arith)
      ]
    ]

    -- With at least one worker and channels that hold at least one message: from the start, or any
    -- state in which a dispatcher that does not wait for a read has an item to send, in whatever
    -- order the scheduler lets the threads make their steps and whatever fails, after a number of
    -- steps all threads have ended. The schedule has to go on only as long as a thread can make a
    -- step without a failed read or write and without a stop: no thread waits for ever for another,
    -- and every thread that `wait` joins returns.
    pub all_threads_end : HasItem (run 0) → Ends
    all_threads_end item =
        ends_within (suc (before_work pool (run 0))) (suc (after_work pool (run 0))) 0 here item
          (omega arith) (omega arith)

  -- With at least one worker and channels that hold at least one message: under any schedule from
  -- the start that goes on as long as a thread can make a step without a failed read or write and
  -- without a stop, if no read, no write and no work on an item fails and no `stop` is seen, after
  -- a number of steps all threads have ended, and an interleaving of all that each worker makes of
  -- those items that are its own was written.
  pub every_schedule_delivers :
      (items : List X) (run : ℕ → State X Y S)
      → 0 < pool.capacity
      → 0 < pool.workers
      → IsSchedule run
      → run 0 ≡ started pool items
      → ((i : ℕ) → (run i).failed ≡ false)
      → ((i : ℕ) → (run i).interrupted ≡ false)
      → (k : ℕ) × IsFinal pool (run k)
        × Merge pool.workers
            (λ q. outputs pool pool.fresh (picked pool.key pool.workers q items))
            (run k).written
  every_schedule_delivers items run room worker goes_on at_start clean whole =
      let (k, r, final) =
        all_threads_end room worker run goes_on (λ e. let r = ap (λ s. s.reading) at_start in cc) in
      let (sent, e, all, merged) =
        written-Merge pool items (run k) (subst (λ s. Reach pool s (run k)) at_start r) final
          (clean k) in
      (k, final, rw (unless_interrupted pool (run k) (whole k) all) merged)
