-- ===== src/Workers.antt =====
-- The threads that `start_encoding` (encoder.rs) and `start_decoding` (decoder.rs) spawn, with the
-- bounded channels between them, as a relation of steps: a dispatcher, workers that each have a
-- queue, and a forwarder that takes what all workers send to one queue. A step is what one thread
-- does between two waits, and the scheduler may choose any step that is possible.
pub mod Measure
pub mod Progress
pub mod Ending
mod Tests
pub mod Following
pub mod Written
use garuda_codec.Base.{
  ℕ, ◌%◌, ◌<◌, ◌≡◌, ◌==◌, if◌then◌else◌, Bool, true, false, List, [], ◌∷◌, ◌++◌, length, Option,
  none, some, refl, ◌≢◌, ==_iff, ne→==_false,
}

-- What the two sides differ in: `key` is the block id of an item, `work` what one round of the loop
-- of a worker makes of an item, with none for an error or a panic, which ends its thread.
pub record Pool (X Y S : Type 0) : Type 0 where
  pub key : X → ℕ
  pub workers : ℕ
  pub capacity : ℕ
  pub fresh : S
  pub work : S → X → Option (S × List Y)

-- A worker has a state and what it still has to send of the last item, or its thread has ended.
pub data Worker (Y S : Type 0) : Type 0 where
  running : S → List Y → Worker Y S
  ended : Worker Y S

-- `todo` is what the dispatcher has not sent. While `reading` holds it waits for a read; otherwise
-- it has read the first item of `todo` and sends it. `queue` is the queue of each worker,
-- `collected` the queue of the forwarder, oldest first, and `written` what the forwarder has
-- written. `failed` says that a read, a write or the work on an item gave an error,
-- `output_failed` that a write did, `interrupted` that a read saw the stop flag.
pub record State (X Y S : Type 0) : Type 0 where
  pub todo : List X
  pub dispatching : Bool
  pub reading : Bool
  pub queue : ℕ → List X
  pub worker : ℕ → Worker Y S
  pub collected : List Y
  pub forwarding : Bool
  pub written : List Y
  pub failed : Bool
  pub output_failed : Bool
  pub interrupted : Bool

-- `f` with another value at one place.
abbrev pub update {ℓ} : {A : Type ℓ} → ℕ → A → (ℕ → A) → ℕ → A
update i v f j = if j == i then v else f j

pub update_same {ℓ} : {A : Type ℓ} (q : ℕ) (v : A) (f : ℕ → A) → update q v f q ≡ v
update_same q v f = rw ((==_iff q q).1 refl)

pub update_other {ℓ} : {A : Type ℓ} (q j : ℕ) (v : A) (f : ℕ → A) → j ≢ q → update q v f j ≡ f j
update_other q j v f h = rw (ne→==_false j q h)

module _ {X Y S : Type 0} (pool : Pool X Y S) where
  -- The state right after the threads were spawned.
  abbrev pub started : List X → State X Y S
  started items = record {
    todo = items;
    dispatching = true;
    reading = true;
    queue = λ q. [];
    worker = λ q. running pool.fresh [];
    collected = [];
    forwarding = true;
    written = [];
    failed = false;
    output_failed = false;
    interrupted = false;
  }

  -- A send to a queue waits until the queue has room or its receiver is gone, which makes the send
  -- an error; a thread that ends drops its receiver, with what is queued, and its sender.
  pub data Step : State X Y S → State X Y S → Type 0 where
    -- The dispatcher has read an item.
    read_item :
        {s : State X Y S} (x : X) (rest : List X)
        → s.dispatching ≡ true
        → s.reading ≡ true
        → s.todo ≡ x ∷ rest
        → Step s (record s { reading = false })
    -- The dispatcher sends the item to the worker of its key.
    dispatch :
        {s : State X Y S} (x : X) (rest : List X) (q : ℕ) (st : S) (pending : List Y)
        → s.dispatching ≡ true
        → s.reading ≡ false
        → s.todo ≡ x ∷ rest
        → pool.key x % pool.workers ≡ q
        → q < pool.workers
        → s.worker q ≡ running st pending
        → length (s.queue q) < pool.capacity
        → Step s (record s {
          todo = rest;
          reading = true;
          queue = update q (s.queue q ++ (x ∷ [])) s.queue;
        })
    -- The worker has ended: the dispatcher ends with an error.
    dispatch_refused :
        {s : State X Y S} (x : X) (rest : List X) (q : ℕ)
        → s.dispatching ≡ true
        → s.reading ≡ false
        → s.todo ≡ x ∷ rest
        → pool.key x % pool.workers ≡ q
        → q < pool.workers
        → s.worker q ≡ ended
        → Step s (record s { dispatching = false })
    -- The input ends.
    input_ends :
        {s : State X Y S}
        → s.dispatching ≡ true
        → s.reading ≡ true
        → s.todo ≡ []
        → Step s (record s { dispatching = false })
    -- A read sees the stop flag.
    stopped :
        {s : State X Y S}
        → s.dispatching ≡ true
        → s.reading ≡ true
        → Step s (record s { dispatching = false; interrupted = true })
    -- A read fails.
    read_fails :
        {s : State X Y S}
        → s.dispatching ≡ true
        → s.reading ≡ true
        → Step s (record s { dispatching = false; failed = true })
    -- A worker that has nothing to send takes an item.
    take_item :
        {s : State X Y S} (q : ℕ) (st st' : S) (x : X) (rest : List X) (made : List Y)
        → q < pool.workers
        → s.worker q ≡ running st []
        → s.queue q ≡ x ∷ rest
        → pool.work st x ≡ some (st', made)
        → Step s (record s {
          queue = update q rest s.queue;
          worker = update q (running st' made) s.worker;
        })
    -- The work on the item gives an error.
    work_fails :
        {s : State X Y S} (q : ℕ) (st : S) (x : X) (rest : List X)
        → q < pool.workers
        → s.worker q ≡ running st []
        → s.queue q ≡ x ∷ rest
        → pool.work st x ≡ none
        → Step s (record s {
          queue = update q [] s.queue;
          worker = update q ended s.worker;
          failed = true;
        })
    -- A worker sends to the forwarder.
    emit :
        {s : State X Y S} (q : ℕ) (st : S) (y : Y) (pending : List Y)
        → q < pool.workers
        → s.worker q ≡ running st (y ∷ pending)
        → s.forwarding ≡ true
        → length s.collected < pool.capacity
        → Step s (record s {
          worker = update q (running st pending) s.worker;
          collected = s.collected ++ (y ∷ []);
        })
    -- The forwarder has ended: the worker ends with an error.
    emit_refused :
        {s : State X Y S} (q : ℕ) (st : S) (y : Y) (pending : List Y)
        → q < pool.workers
        → s.worker q ≡ running st (y ∷ pending)
        → s.forwarding ≡ false
        → Step s (record s { queue = update q [] s.queue; worker = update q ended s.worker })
    -- The queue of the worker is empty, and the dispatcher, which has its sender, has ended.
    worker_ends :
        {s : State X Y S} (q : ℕ) (st : S)
        → q < pool.workers
        → s.worker q ≡ running st []
        → s.queue q ≡ []
        → s.dispatching ≡ false
        → Step s (record s { worker = update q ended s.worker })
    -- The forwarder writes the oldest element.
    write :
        {s : State X Y S} (y : Y) (rest : List Y)
        → s.forwarding ≡ true
        → s.collected ≡ y ∷ rest
        → Step s (record s { collected = rest; written = s.written ++ (y ∷ []) })
    -- The write fails.
    write_fails :
        {s : State X Y S} (y : Y) (rest : List Y)
        → s.forwarding ≡ true
        → s.collected ≡ y ∷ rest
        → Step s
            (record s { collected = []; forwarding = false; failed = true; output_failed = true })
    -- The queue of the forwarder is empty, and all workers, which have its senders, have ended.
    forwarder_ends :
        {s : State X Y S}
        → s.forwarding ≡ true
        → s.collected ≡ []
        → ((q : ℕ) → q < pool.workers → s.worker q ≡ ended)
        → Step s (record s { forwarding = false })

  -- Any number of steps.
  pub data Reach : State X Y S → State X Y S → Type 0 where
    here : {s : State X Y S} → Reach s s
    later : {s t u : State X Y S} → Reach s t → Step t u → Reach s u

  -- All threads have ended.
  pub record IsFinal (s : State X Y S) : Type 0 where
    pub dispatcher_ended : s.dispatching ≡ false
    pub workers_ended : (q : ℕ) → q < pool.workers → s.worker q ≡ ended
    pub forwarder_ended : s.forwarding ≡ false

  -- What a worker in a state makes of a queue of items, up to the first error.
  abbrev pub outputs : S → List X → List Y
  outputs st [] = []
  outputs st (x ∷ xs) = elim (pool.work st x) [
    | some made ↦ made.1 ++ outputs made.0 xs
    | none ↦ []
  ]
