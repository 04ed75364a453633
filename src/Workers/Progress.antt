-- ===== src/Workers/Progress.antt =====
-- As long as a thread has not ended, some thread can make a step that is neither a failure nor a
-- stop: the channels do not deadlock.
use garuda_codec.Base.{
  ℕ, zero, suc, ◌%◌, ◌<◌, ◌≡◌, ◌≢◌, refl, arith, ◌⊎◌, inl, inr, true, false, List, [], ◌∷◌,
  Bool-cases, Option-cases, ℕ_discrete,
}
use garuda_codec.Workers.{
  Pool, Worker, State, Step, IsFinal, running, ended, dispatch, dispatch_refused, input_ends,
  take_item, work_fails, emit, emit_refused, worker_ends, write, forwarder_ends, read_item, stopped,
  read_fails, write_fails,
}

-- A step that does not rest on a read or a write that fails, or on a read that sees the stop flag.
abbrev pub IsProgress :
    {X Y S : Type 0} {pool : Pool X Y S} {s t : State X Y S} → Step pool s t → Type 0
IsProgress (stopped d r) = ⊥
IsProgress (read_fails d r) = ⊥
IsProgress (write_fails y rest f e) = ⊥
IsProgress (read_item x rest d r e) = Unit
IsProgress (dispatch x rest q st pending d r e k h w room) = Unit
IsProgress (dispatch_refused x rest q d r e k h w) = Unit
IsProgress (input_ends d r e) = Unit
IsProgress (take_item q st st' x rest made h w e m) = Unit
IsProgress (work_fails q st x rest h w e m) = Unit
IsProgress (emit q st y pending h w f room) = Unit
IsProgress (emit_refused q st y pending h w f) = Unit
IsProgress (worker_ends q st h w e d) = Unit
IsProgress (write y rest f e) = Unit
IsProgress (forwarder_ends f e all) = Unit

-- A dispatcher that does not wait for a read has an item to send.
abbrev pub HasItem : {X Y S : Type 0} → State X Y S → Type 0
HasItem s = s.reading ≡ false → s.todo ≢ []

pub step-HasItem :
    {X Y S : Type 0} {pool : Pool X Y S} {s t : State X Y S} → Step pool s t → HasItem s → HasItem t
step-HasItem (stopped d r) h = h
step-HasItem (read_fails d r) h = h
step-HasItem (write_fails y rest f e) h = h
step-HasItem (read_item x rest d r e) h = λ i j. cc
step-HasItem (dispatch x rest q st pending d r e k l w room) h = λ i. cc
step-HasItem (dispatch_refused x rest q d r e k l w) h = h
step-HasItem (input_ends d r e) h = h
step-HasItem (take_item q st st' x rest made l w e m) h = h
step-HasItem (work_fails q st x rest l w e m) h = h
step-HasItem (emit q st y pending l w f room) h = h
step-HasItem (emit_refused q st y pending l w f) h = h
step-HasItem (worker_ends q st l w e d) h = h
step-HasItem (write y rest f e) h = h
step-HasItem (forwarder_ends f e all) h = h

List-cases : {A : Type 0} (xs : List A) → (xs ≡ []) ⊎ ((x : A) × (rest : List A) × (xs ≡ x ∷ rest))
List-cases [] = inl refl
List-cases (x ∷ xs) = inr (x, xs, refl)

Worker-cases :
    {Y S : Type 0} (w : Worker Y S)
    → (w ≡ ended)
      ⊎ (((st : S) × (w ≡ running st []))
          ⊎ ((st : S) × (y : Y) × (pending : List Y) × (w ≡ running st (y ∷ pending))))
Worker-cases ended = inl refl
Worker-cases (running st []) = inr (inl (st, refl))
Worker-cases (running st (y ∷ pending)) = inr (inr (st, y, pending, refl))

-- Below `n`, one place has the first property, or all have the second.
search_below :
    {P : Type 0} (Q : ℕ → Type 0) (n : ℕ)
    → ((q : ℕ) → q < n → P ⊎ Q q)
    → P ⊎ ((q : ℕ) → q < n → Q q)
search_below Q zero h = inr (λ q k. absurd (omega arith))
search_below Q (suc n) h = elim (h n (omega arith)) [
  | inl p ↦ inl p
  | inr here ↦ elim (search_below Q n (λ q k. h q (omega arith))) [
    | inl p ↦ inl p
    | inr below ↦
        inr (λ q k. elim (ℕ_discrete q n) [ yes e ↦ rw e here | no e ↦ below q (omega (arith, e)) ])
  ]
]

module _ {X Y S : Type 0} (pool : Pool X Y S) (has_room : 0 < pool.capacity) where
  abbrev CanStep : State X Y S → Type 0
  CanStep s = (t : State X Y S) × (step : Step pool s t) × IsProgress step

  -- The worker waits for the dispatcher, which runs.
  abbrev IsWaiting : State X Y S → ℕ → Type 0
  IsWaiting s q =
      (st : S) × (s.worker q ≡ running st []) × (s.queue q ≡ []) × (s.dispatching ≡ true)

  -- The forwarder has ended, or has nothing to write.
  abbrev IsIdle : State X Y S → Type 0
  IsIdle s = (s.forwarding ≡ false) ⊎ (s.collected ≡ [])

  work_step :
      (s : State X Y S) (q : ℕ) (st : S) (x : X) (rest : List X)
      → q < pool.workers
      → s.worker q ≡ running st []
      → s.queue q ≡ x ∷ rest
      → CanStep s
  work_step s q st x rest h w e = elim (Option-cases (pool.work st x)) [
    | inl fails ↦ (_, work_fails q st x rest h w e fails, tt)
    | inr ((st', made), works) ↦ (_, take_item q st st' x rest made h w e works, tt)
  ]

  emit_step :
      (s : State X Y S) (q : ℕ) (st : S) (y : Y) (pending : List Y)
      → IsIdle s
      → q < pool.workers
      → s.worker q ≡ running st (y ∷ pending)
      → CanStep s
  emit_step s q st y pending (inl f) h w = (_, emit_refused q st y pending h w f, tt)
  emit_step s q st y pending (inr e) h w = elim (Bool-cases s.forwarding) [
    | inl f ↦ (_, emit q st y pending h w f (rw e has_room), tt)
    | inr f ↦ (_, emit_refused q st y pending h w f, tt)
  ]

  worker_step :
      (s : State X Y S)
      → IsIdle s
      → (q : ℕ) → q < pool.workers
      → CanStep s ⊎ ((s.worker q ≡ ended) ⊎ IsWaiting s q)
  worker_step s idle q h = elim (Worker-cases (s.worker q)) [
    | inl w ↦ inr (inl w)
    | inr (inl (st, w)) ↦ elim (List-cases (s.queue q)) [
      | inl e ↦ elim (Bool-cases s.dispatching) [
        | inl d ↦ inr (inr (st, w, e, d))
        | inr d ↦ inl (_, worker_ends q st h w e d, tt)
      ]
      | inr (x, rest, e) ↦ inl (work_step s q st x rest h w e)
    ]
    | inr (inr (st, y, pending, w)) ↦ inl (emit_step s q st y pending idle h w)
  ]

  module _ (some_worker : 0 < pool.workers) where
    -- The dispatcher runs, and no worker can do a step.
    dispatcher_step :
        (s : State X Y S)
        → HasItem s
        → s.dispatching ≡ true
        → ((q : ℕ) → q < pool.workers → (s.worker q ≡ ended) ⊎ IsWaiting s q)
        → CanStep s
    dispatcher_step s item d all = elim (Bool-cases s.reading) [
      | inl r ↦ elim (List-cases s.todo) [
        | inl e ↦ (_, input_ends d r e, tt)
        | inr (x, rest, e) ↦ (_, read_item x rest d r e, tt)
      ]
      | inr r ↦ elim (List-cases s.todo) [
        | inl e ↦ absurd (item r e)
        | inr (x, rest, e) ↦
            let q : ℕ = pool.key x % pool.workers in
            let h : q < pool.workers = omega arith in
            elim (all q h) [
              | inl w ↦ (_, dispatch_refused x rest q d r e refl h w, tt)
              | inr (st, w, none_left, d') ↦
                  (_, dispatch x rest q st [] d r e refl h w (rw none_left has_room), tt)
            ]
      ]
    ]

    forwarder_step :
        (s : State X Y S)
        → s.dispatching ≡ false
        → IsIdle s
        → ((q : ℕ) → q < pool.workers → s.worker q ≡ ended)
        → CanStep s ⊎ IsFinal pool s
    forwarder_step s d idle all = elim (Bool-cases s.forwarding) [
      | inr f ↦ inr (record { dispatcher_ended = d; workers_ended = all; forwarder_ended = f })
      | inl f ↦ elim idle [ inl g ↦ cc | inr e ↦ inl (_, forwarder_ends f e all, tt) ]
    ]

    idle_step : (s : State X Y S) → HasItem s → IsIdle s → CanStep s ⊎ IsFinal pool s
    idle_step s item idle = elim (search_below _ pool.workers (worker_step s idle)) [
      | inl can ↦ inl can
      | inr all ↦ elim (Bool-cases s.dispatching) [
        | inl d ↦ inl (dispatcher_step s item d all)
        | inr d ↦
            forwarder_step s d idle (λ q h. elim (all q h) [ inl w ↦ w | inr (st, w, e, d') ↦ cc ])
      ]
    ]

    -- With at least one worker and channels that hold a message at least, in every state some
    -- thread can make a step that is neither a failure nor a stop, or all threads have ended.
    pub no_deadlock : (s : State X Y S) → HasItem s → CanStep s ⊎ IsFinal pool s
    no_deadlock s item = elim (Bool-cases s.forwarding) [
      | inr f ↦ idle_step s item (inl f)
      | inl f ↦ elim (List-cases s.collected) [
        | inl e ↦ idle_step s item (inr e)
        | inr (y, rest, e) ↦ inl (_, write y rest f e, tt)
      ]
    ]
