-- ===== src/Workers/Tests.antt =====
-- One worker that adds up what it gets, and two items.
use garuda_codec.Base.{
  ℕ, zero, suc, ◌+◌, ◌<◌, ◌≡◌, refl, arith, ◌==◌, if◌then◌else◌, inl, inr, true, false, [], ◌∷◌,
  none, some,
}
use garuda_codec.Dispatch.Routes.{picked}
use garuda_codec.Merge.{Merge}
use garuda_codec.Workers.{
  Pool, State, Reach, IsFinal, started, outputs, running, ended, read_item, dispatch, input_ends,
  take_item, emit, worker_ends, write, forwarder_ends, update, work_fails, dispatch_refused,
}
use garuda_codec.Workers.Ending.{
  IsFinal-IsStuck, IsSchedule, all_threads_end, every_schedule_delivers,
}

-- The channels hold one message; the worker fails on 7.
abbrev adder : Pool ℕ ℕ ℕ
adder = record {
  key = λ x. x;
  workers = 1;
  capacity = 1;
  fresh = 0;
  work = λ st x. if x == 7 then none else some (st + x, (st + x) ∷ []);
}

-- The item 3 goes all the way.
abbrev good_0 : State ℕ ℕ ℕ
good_0 = started adder (3 ∷ [])

abbrev good_read : State ℕ ℕ ℕ
good_read = record good_0 { reading = false }

abbrev good_1 : State ℕ ℕ ℕ
good_1 = record good_0 { todo = []; queue = update 0 (3 ∷ []) good_0.queue }

abbrev good_2 : State ℕ ℕ ℕ
good_2 = record good_1 { dispatching = false }

abbrev good_3 : State ℕ ℕ ℕ
good_3 = record good_2 {
  queue = update 0 [] good_2.queue;
  worker = update 0 (running 3 (3 ∷ [])) good_2.worker;
}

abbrev good_4 : State ℕ ℕ ℕ
good_4 = record good_3 { worker = update 0 (running 3 []) good_3.worker; collected = 3 ∷ [] }

abbrev good_5 : State ℕ ℕ ℕ
good_5 = record good_4 { worker = update 0 ended good_4.worker }

abbrev good_6 : State ℕ ℕ ℕ
good_6 = record good_5 { collected = []; written = 3 ∷ [] }

abbrev good_7 : State ℕ ℕ ℕ
good_7 = record good_6 { forwarding = false }

abbrev good : ℕ → State ℕ ℕ ℕ
good zero = good_0
good (suc zero) = good_read
good (suc (suc zero)) = good_1
good (suc (suc (suc zero))) = good_2
good (suc (suc (suc (suc zero)))) = good_3
good (suc (suc (suc (suc (suc zero))))) = good_4
good (suc (suc (suc (suc (suc (suc zero)))))) = good_5
good (suc (suc (suc (suc (suc (suc (suc zero))))))) = good_6
good (suc (suc (suc (suc (suc (suc (suc (suc i)))))))) = good_7

good_ended : (q : ℕ) → q < 1 → good_5.worker q ≡ ended
good_ended zero h = refl
good_ended (suc q) h = absurd (omega arith)

good-IsFinal : IsFinal adder good_7
good-IsFinal = record {
  dispatcher_ended = refl;
  workers_ended = good_ended;
  forwarder_ended = refl;
}

good-IsSchedule : IsSchedule adder good
good-IsSchedule zero = inl (read_item 3 [] refl refl refl)
good-IsSchedule (suc zero) =
    inl (dispatch 3 [] 0 0 [] refl refl refl refl (omega arith) refl (omega arith))
good-IsSchedule (suc (suc zero)) = inl (input_ends refl refl refl)
good-IsSchedule (suc (suc (suc zero))) =
    inl (take_item 0 0 3 3 [] (3 ∷ []) (omega arith) refl refl refl)
good-IsSchedule (suc (suc (suc (suc zero)))) =
    inl (emit 0 3 3 [] (omega arith) refl refl (omega arith))
good-IsSchedule (suc (suc (suc (suc (suc zero))))) =
    inl (worker_ends 0 3 (omega arith) refl refl refl)
good-IsSchedule (suc (suc (suc (suc (suc (suc zero)))))) = inl (write 3 [] refl refl)
good-IsSchedule (suc (suc (suc (suc (suc (suc (suc zero))))))) =
    inl (forwarder_ends refl refl good_ended)
good-IsSchedule (suc (suc (suc (suc (suc (suc (suc (suc i)))))))) =
    inr (IsFinal-IsStuck adder good_7 good-IsFinal)

-- The work on 7 fails, and the send of 3 is refused.
abbrev bad_0 : State ℕ ℕ ℕ
bad_0 = started adder (7 ∷ 3 ∷ [])

abbrev bad_read_7 : State ℕ ℕ ℕ
bad_read_7 = record bad_0 { reading = false }

abbrev bad_1 : State ℕ ℕ ℕ
bad_1 = record bad_0 { todo = 3 ∷ []; queue = update 0 (7 ∷ []) bad_0.queue }

abbrev bad_2 : State ℕ ℕ ℕ
bad_2 = record bad_1 {
  queue = update 0 [] bad_1.queue;
  worker = update 0 ended bad_1.worker;
  failed = true;
}

abbrev bad_read_3 : State ℕ ℕ ℕ
bad_read_3 = record bad_2 { reading = false }

abbrev bad_3 : State ℕ ℕ ℕ
bad_3 = record bad_read_3 { dispatching = false }

abbrev bad_4 : State ℕ ℕ ℕ
bad_4 = record bad_3 { forwarding = false }

abbrev bad : ℕ → State ℕ ℕ ℕ
bad zero = bad_0
bad (suc zero) = bad_read_7
bad (suc (suc zero)) = bad_1
bad (suc (suc (suc zero))) = bad_2
bad (suc (suc (suc (suc zero)))) = bad_read_3
bad (suc (suc (suc (suc (suc zero))))) = bad_3
bad (suc (suc (suc (suc (suc (suc i)))))) = bad_4

bad_ended : (q : ℕ) → q < 1 → bad_2.worker q ≡ ended
bad_ended zero h = refl
bad_ended (suc q) h = absurd (omega arith)

bad-IsFinal : IsFinal adder bad_4
bad-IsFinal = record { dispatcher_ended = refl; workers_ended = bad_ended; forwarder_ended = refl }

bad-IsSchedule : IsSchedule adder bad
bad-IsSchedule zero = inl (read_item 7 (3 ∷ []) refl refl refl)
bad-IsSchedule (suc zero) =
    inl (dispatch 7 (3 ∷ []) 0 0 [] refl refl refl refl (omega arith) refl (omega arith))
bad-IsSchedule (suc (suc zero)) = inl (work_fails 0 0 7 [] (omega arith) refl refl refl)
bad-IsSchedule (suc (suc (suc zero))) = inl (read_item 3 [] refl refl refl)
bad-IsSchedule (suc (suc (suc (suc zero)))) =
    inl (dispatch_refused 3 [] 0 refl refl refl refl (omega arith) refl)
bad-IsSchedule (suc (suc (suc (suc (suc zero))))) = inl (forwarder_ends refl refl bad_ended)
bad-IsSchedule (suc (suc (suc (suc (suc (suc i)))))) = inr (IsFinal-IsStuck adder bad_4 bad-IsFinal)

all_threads_end_example : (k : ℕ) × Reach adder (bad 0) (bad k) × IsFinal adder (bad k)
all_threads_end_example =
    all_threads_end adder (omega arith) (omega arith) bad bad-IsSchedule (λ e. cc)

good_clean : (i : ℕ) → (good i).failed ≡ false
good_clean zero = refl
good_clean (suc zero) = refl
good_clean (suc (suc zero)) = refl
good_clean (suc (suc (suc zero))) = refl
good_clean (suc (suc (suc (suc zero)))) = refl
good_clean (suc (suc (suc (suc (suc zero))))) = refl
good_clean (suc (suc (suc (suc (suc (suc zero)))))) = refl
good_clean (suc (suc (suc (suc (suc (suc (suc zero))))))) = refl
good_clean (suc (suc (suc (suc (suc (suc (suc (suc i)))))))) = refl

good_whole : (i : ℕ) → (good i).interrupted ≡ false
good_whole zero = refl
good_whole (suc zero) = refl
good_whole (suc (suc zero)) = refl
good_whole (suc (suc (suc zero))) = refl
good_whole (suc (suc (suc (suc zero)))) = refl
good_whole (suc (suc (suc (suc (suc zero))))) = refl
good_whole (suc (suc (suc (suc (suc (suc zero)))))) = refl
good_whole (suc (suc (suc (suc (suc (suc (suc zero))))))) = refl
good_whole (suc (suc (suc (suc (suc (suc (suc (suc i)))))))) = refl

every_schedule_delivers_example :
    (k : ℕ) × IsFinal adder (good k)
    × Merge 1 (λ q. outputs adder 0 (picked (λ x. x) 1 q (3 ∷ []))) (good k).written
every_schedule_delivers_example =
    every_schedule_delivers adder (3 ∷ []) good (omega arith) (omega arith) good-IsSchedule refl
      good_clean good_whole

-- The dispatcher is stopped before it reads 7; 3 was written, and the forwarder still runs.
abbrev cut : State ℕ ℕ ℕ
cut = record good_6 { todo = 7 ∷ []; interrupted = true }
