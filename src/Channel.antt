-- ===== src/Channel.antt =====
-- `std::sync::mpsc::sync_channel`, as its sending side sees it. A thread that blocks on a full
-- channel goes on when the receiver takes a message, so the capacity does not show here, but that
-- the receiver is dropped does. Workers has the channels with their capacity.
use garuda_codec.Base.{
  ℕ, zero, suc, ◌+◌, ◌≤◌, ◌≡◌, refl, arith, List, [], ◌∷◌, ◌++◌, Option, none, some,
}
use garuda_codec.Base.{ap, ◌-◌, get_elem?, Outcome, ok, err, length, take, append-nil, append_assoc}
use native.Mathlib.Nat.{sub-zero}

-- `queued` holds what was accepted so far, oldest first. `room` is the number of messages that are
-- still accepted before the receiver is dropped, `none` if it never is.
pub record Sender {ℓ} (A : Type ℓ) : Type ℓ where
  pub queued : List A
  pub room : Option ℕ

-- `mpsc::SendError` hands the message back.
pub data SendError {ℓ} (A : Type ℓ) : Type ℓ where
  send_error : A → SendError A

module _ {ℓ} {A : Type ℓ} where
  abbrev accept : A → Option ℕ → Sender A → Outcome (SendError A) (Unit {0}) × Sender A
  accept x none s = (ok tt, record s { queued = s.queued ++ (x ∷ []) })
  accept x (some zero) s = (err (send_error x), s)
  accept x (some (suc k)) s = (ok tt, record { queued = s.queued ++ (x ∷ []); room = some k })

  -- `SyncSender::send`
  unfoldable pub send : A → Sender A → Outcome (SendError A) (Unit {0}) × Sender A
  send x s = accept x s.room s

  -- `for x in xs { output.send(x)?; }`
  unfoldable pub send_all : List A → Sender A → Outcome (SendError A) (Unit {0}) × Sender A
  unfolding send
  send_all [] s = (ok tt, s)
  send_all (x ∷ xs) s =
      let (sent, s') = send x s in
      let rest = send_all xs s' in elim sent [ ok _ ↦ rest | other ↦ (other, s') ]

-- `n` more messages are accepted, and what is left of the room after them.
abbrev pub Fits : Option ℕ → ℕ → Type 0
Fits none n = Unit
Fits (some k) n = n ≤ k

abbrev pub room_after : Option ℕ → ℕ → Option ℕ
room_after none n = none
room_after (some k) n = some (k - n)

pub Fits-add :
    (room : Option ℕ) (a b : ℕ) → Fits room (a + b) → Fits room a × Fits (room_after room a) b
Fits-add none a b h = (tt, tt)
Fits-add (some k) a b h = (omega arith, omega arith)

pub room_after-add :
    (room : Option ℕ) (a b : ℕ) → room_after (room_after room a) b ≡ room_after room (a + b)
room_after-add none a b = refl
room_after-add (some k) a b = ap some (omega arith)

pub room_after-zero : (room : Option ℕ) → room_after room 0 ≡ room
room_after-zero none = refl
room_after-zero (some k) = ap some (omega arith)

module _ {ℓ} {A : Type ℓ} where
  pub send_all-Fits :
      (xs q : List A) (r : Option ℕ)
      → Fits r (length xs)
      → send_all xs (record { queued = q; room = r })
        ≡ (ok tt, record { queued = q ++ xs; room = room_after r (length xs) })
  unfolding send_all
  send_all-Fits [] q none h = rw append-nil
  send_all-Fits [] q (some k) h = rw (append-nil, sub-zero)
  send_all-Fits (x ∷ xs) q none h = rw (send_all-Fits xs (q ++ (x ∷ [])) none tt, append_assoc)
  send_all-Fits (x ∷ xs) q (some zero) h = absurd (omega arith)
  send_all-Fits (x ∷ xs) q (some (suc k)) h =
      let e : suc k - suc (length xs) ≡ k - length xs = omega arith in
      rw (send_all-Fits xs (q ++ (x ∷ [])) (some k) (omega arith), append_assoc, e)

  pub send_all-full :
      (xs q : List A) (k : ℕ) (x : A)
      → get_elem? xs k ≡ some x
      → send_all xs (record { queued = q; room = some k })
        ≡ (err (send_error x), record { queued = q ++ take k xs; room = some 0 })
  unfolding send_all
  send_all-full [] q k x h = cc
  send_all-full (y ∷ xs) q zero x h = rw append-nil (cc)
  send_all-full (y ∷ xs) q (suc k) x h = rw (send_all-full xs (q ++ (y ∷ [])) k x h, append_assoc)
