-- ===== src/Dispatch.antt =====
-- How both dispatchers choose a queue: the block id modulo the number of queues.
pub mod Routes
use garuda_codec.Base.{ℕ, zero, suc, ◌%◌, List, [], ◌∷◌, Option, none, some, length, get_elem?, set}
use garuda_codec.Base.{Outcome, ok, err, panic, out_of_fuel, ◌≢◌, arith}
use garuda_codec.Channel.{Sender, SendError, send}

module _ {A : Type 0} where
  send_at : ℕ → A → List (Sender A) → Outcome (SendError A) (Unit {0}) × List (Sender A)
  send_at i x queues = elim (get_elem? queues i) [
    | none ↦ (panic, queues)
    | some queue ↦ (let (sent, queue') = send x queue in (sent, set queues i queue'))
  ]

  -- `queues[id % queues.len()].send(x)`; with no queue the remainder by zero panics.
  unfoldable pub dispatch_to :
      ℕ → A → List (Sender A) → Outcome (SendError A) (Unit {0}) × List (Sender A)
  unfolding send_at send
  dispatch_to id x [] = (panic, [])
  dispatch_to id x (q ∷ queues) = send_at (id % length (q ∷ queues)) x (q ∷ queues)

  send_at_ends : (i : ℕ) (x : A) (queues : List (Sender A)) → (send_at i x queues).0 ≢ out_of_fuel
  unfolding send_at send
  send_at_ends i x queues = ground arith

  -- A send returns, or panics for want of a queue.
  pub dispatch_to_ends :
      (id : ℕ) (x : A) (queues : List (Sender A)) → (dispatch_to id x queues).0 ≢ out_of_fuel
  unfolding dispatch_to
  dispatch_to_ends id x [] = λ e. cc
  dispatch_to_ends id x (q ∷ queues) = send_at_ends (id % length (q ∷ queues)) x (q ∷ queues)
