-- ===== src/Workers/Measure.antt =====
-- Every step of the threads makes a pair of numbers smaller, in the order of pairs.
use garuda_codec.Base.{
  ℕ, zero, suc, ◌+◌, ◌*◌, ◌<◌, ◌≡◌, refl, sym, ◌≢◌, arith, ap, ◌⊎◌, inl, inr, Bool, true, false,
  List, [], ◌∷◌, ◌++◌, length, ℕ_discrete, length-append,
}
use garuda_codec.Workers.{
  read_item, Pool, Worker, State, Step, running, ended, update, update_same, update_other, dispatch,
  dispatch_refused, input_ends, stopped, read_fails, take_item, work_fails, emit, emit_refused,
  worker_ends, write, write_fails, forwarder_ends,
}

-- The sum of the values at the places below `n`.
abbrev pub total : ℕ → (ℕ → ℕ) → ℕ
total zero f = 0
total (suc n) f = f n + total n f

total_same : (n : ℕ) (f g : ℕ → ℕ) → ((j : ℕ) → j < n → f j ≡ g j) → total n f ≡ total n g
total_same zero f g h = refl
total_same (suc n) f g h =
    omega (arith, h n (omega arith), total_same n f g (λ j k. h j (omega arith)))

-- Two functions that differ at one place only have sums that differ as their values there.
total_changed :
    (n q : ℕ) (f g : ℕ → ℕ)
    → q < n
    → ((j : ℕ) → j ≢ q → f j ≡ g j)
    → total n f + g q ≡ total n g + f q
total_changed zero q f g h same = absurd (omega arith)
total_changed (suc n) q f g h same = elim (ℕ_discrete q n) [
  | yes e ↦
      let rest = total_same n f g (λ j k. same j (λ i. omega (arith, i, e))) in
      rw e (omega (arith, rest))
  | no e ↦
      let here = same n (λ i. e (omega (arith, i))) in
      let below : q < n = omega (arith, e) in omega (arith, here, total_changed n q f g below same)
]

abbrev pub bit : Bool → ℕ
bit true = 1
bit false = 0

module _ {X Y S : Type 0} (pool : Pool X Y S) where
  abbrev alive : Worker Y S → ℕ
  alive (running st pending) = 1
  alive ended = 0

  abbrev unsent : Worker Y S → ℕ
  unsent (running st pending) = length pending
  unsent ended = 0

  -- What is at one worker: the items in its queue, and one for a running thread.
  abbrev load : State X Y S → ℕ → ℕ
  load s q = length (s.queue q) + alive (s.worker q)

  -- Items count three times before they are queued, once in a queue; a read that is waited for
  -- counts once.
  abbrev pub before_work : State X Y S → ℕ
  before_work s =
      3 * length s.todo
      + total pool.workers (load s)
      + bit s.reading
      + bit s.dispatching
      + bit s.forwarding

  -- What was made counts twice before it is sent to the forwarder, once in its queue.
  abbrev pub after_work : State X Y S → ℕ
  after_work s = 2 * total pool.workers (λ q. unsent (s.worker q)) + length s.collected

  abbrev Decreases : State X Y S → State X Y S → Type 0
  Decreases s t =
      (before_work t < before_work s)
      ⊎ ((before_work t ≡ before_work s) × (after_work t < after_work s))

  -- A change at worker `q` only.
  load_changed :
      (s t : State X Y S) (q : ℕ) (xs : List X) (w : Worker Y S)
      → q < pool.workers
      → ((j : ℕ) → j ≢ q → (s.queue j ≡ t.queue j) × (s.worker j ≡ t.worker j))
      → t.queue q ≡ xs
      → t.worker q ≡ w
      → total pool.workers (load s) + (length xs + alive w) ≡ total pool.workers (load t) + load s q
  load_changed s t q xs w h same e f =
      let g =
        total_changed pool.workers q (load s) (load t) h (λ j i. rw ((same j i).0, (same j i).1)) in
      omega (arith, g, ap length e, ap alive f)

  unsent_changed :
      (s : State X Y S) (q : ℕ) (w : Worker Y S)
      → q < pool.workers
      → total pool.workers (λ j. unsent (s.worker j)) + unsent w
        ≡ total pool.workers (λ j. unsent (update q w s.worker j)) + unsent (s.worker q)
  unsent_changed s q w h =
      let g =
        total_changed pool.workers q (λ j. unsent (s.worker j))
          (λ j. unsent (update q w s.worker j)) h (λ j i. rw (update_other q j w s.worker i)) in
      let v = ap unsent (update_same q w s.worker) in omega (arith, g, v)

  pub step_Decreases : {s t : State X Y S} → Step pool s t → Decreases s t
  step_Decreases (read_item {s = s} x rest d r e) = inl (rw r (omega arith))
  step_Decreases (dispatch {s = s} x rest q st pending d r e k h w room) =
      let g =
        load_changed s
          (record s {
            todo = rest;
            reading = true;
            queue = update q (s.queue q ++ (x ∷ [])) s.queue;
          })
          q (s.queue q ++ (x ∷ [])) (s.worker q) h
          (λ j i. (sym (update_other q j (s.queue q ++ (x ∷ [])) s.queue i), refl))
          (update_same q (s.queue q ++ (x ∷ [])) s.queue) refl in
      inl (omega (arith, g, ap length e, length-append (s.queue q) (x ∷ [])))
  step_Decreases (dispatch_refused {s = s} x rest q d r e k h w) = inl (rw d (omega arith))
  step_Decreases (input_ends {s = s} d r e) = inl (rw d (omega arith))
  step_Decreases (stopped {s = s} d r) = inl (rw d (omega arith))
  step_Decreases (read_fails {s = s} d r) = inl (rw d (omega arith))
  step_Decreases (write_fails {s = s} y rest f e) = inl (rw f (omega arith))
  step_Decreases (forwarder_ends {s = s} f e all) = inl (rw f (omega arith))
  step_Decreases (write {s = s} y rest f e) = inr (refl, rw e (omega arith))
  step_Decreases (take_item {s = s} q st st' x rest made h w e m) =
      let g =
        load_changed s
          (record s {
            queue = update q (rest) s.queue;
            worker = update q (running st' made) s.worker;
          })
          q (rest) (running st' made) h
          (λ j i. (
            sym (update_other q j (rest) s.queue i),
            sym (update_other q j (running st' made) s.worker i),
          ))
          (update_same q (rest) s.queue) (update_same q (running st' made) s.worker) in
      inl (omega (arith, g, ap alive w, ap length e))
  step_Decreases (work_fails {s = s} q st x rest h w e m) =
      let g =
        load_changed s
          (record s { queue = update q ([]) s.queue; worker = update q (ended) s.worker }) q ([])
          (ended) h
          (λ j i.
            (sym (update_other q j ([]) s.queue i), sym (update_other q j (ended) s.worker i)))
          (update_same q ([]) s.queue) (update_same q (ended) s.worker) in
      inl (omega (arith, g, ap alive w, ap length e))
  step_Decreases (emit {s = s} q st y pending h w f room) =
      let g =
        load_changed s (record s { worker = update q (running st pending) s.worker }) q (s.queue q)
          (running st pending) h
          (λ j i. (refl, sym (update_other q j (running st pending) s.worker i))) refl
          (update_same q (running st pending) s.worker) in
      inr (
        omega (arith, g, ap alive w),
        omega (
          arith,
          unsent_changed s q (running st pending) h,
          ap unsent w,
          length-append s.collected (y ∷ []),
        ),
      )
  step_Decreases (emit_refused {s = s} q st y pending h w f) =
      let g =
        load_changed s
          (record s { queue = update q ([]) s.queue; worker = update q (ended) s.worker }) q ([])
          (ended) h
          (λ j i.
            (sym (update_other q j ([]) s.queue i), sym (update_other q j (ended) s.worker i)))
          (update_same q ([]) s.queue) (update_same q (ended) s.worker) in
      inl (omega (arith, g, ap alive w))
  step_Decreases (worker_ends {s = s} q st h w e d) =
      let g =
        load_changed s (record s { worker = update q (ended) s.worker }) q (s.queue q) (ended) h
          (λ j i. (refl, sym (update_other q j (ended) s.worker i))) refl
          (update_same q (ended) s.worker) in
      inl (omega (arith, g, ap alive w))
