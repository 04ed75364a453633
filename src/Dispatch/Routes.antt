-- ===== src/Dispatch/Routes.antt =====
-- What each queue receives.
use garuda_codec.Base.{
  Bool-cases, inl, inr, ==_iff, ℕ, zero, suc, ◌+◌, ◌%◌, ◌<◌, ◌≡◌, refl, ap, arith, ◌==◌,
  if◌then◌else◌, List, [], ◌∷◌,
}
use garuda_codec.Base.{◌++◌, none, some, length, get_elem?, All, ok, append-nil, append_assoc}
use garuda_codec.Channel.{Sender, send}
use garuda_codec.Dispatch.{dispatch_to, send_at}

module _ {A : Type 0} (key : A → ℕ) where
  -- The elements that go to queue `i` of `n`, in order.
  abbrev pub picked : ℕ → ℕ → List A → List A
  picked n i [] = []
  picked n i (x ∷ xs) = if key x % n == i then x ∷ picked n i xs else picked n i xs

  -- Queues `i`, `i + 1`, … of `n`, each with its elements added.
  abbrev pub delivered : ℕ → List A → ℕ → List (Sender A) → List (Sender A)
  delivered n xs i [] = []
  delivered n xs i (s ∷ queues) =
      record { queued = s.queued ++ picked n i xs; room = s.room } ∷ delivered n xs (suc i) queues

  -- The receiver of every queue is alive.
  abbrev pub AllOpen : List (Sender A) → Type 0
  AllOpen = All (λ s. s.room ≡ none)

  pub picked-append :
      (n i : ℕ) (xs ys : List A) → picked n i (xs ++ ys) ≡ picked n i xs ++ picked n i ys
  picked-append n i [] ys = refl
  picked-append n i (x ∷ xs) ys = ground (arith, picked-append n i xs ys)

  pub length-delivered :
      (n : ℕ) (xs : List A) (i : ℕ) (queues : List (Sender A))
      → length (delivered n xs i queues) ≡ length queues
  length-delivered n xs i [] = refl
  length-delivered n xs i (s ∷ queues) = ap suc (length-delivered n xs (suc i) queues)

  pub delivered-AllOpen :
      (n : ℕ) (xs : List A) (i : ℕ) (queues : List (Sender A))
      → AllOpen queues
      → AllOpen (delivered n xs i queues)
  delivered-AllOpen n xs i [] h = tt
  delivered-AllOpen n xs i (s ∷ queues) h = (h.0, delivered-AllOpen n xs (suc i) queues h.1)

  pub delivered-delivered :
      (n : ℕ) (xs ys : List A) (i : ℕ) (queues : List (Sender A))
      → delivered n ys i (delivered n xs i queues) ≡ delivered n (xs ++ ys) i queues
  delivered-delivered n xs ys i [] = refl
  delivered-delivered n xs ys i (s ∷ queues) =
      rw (delivered-delivered n xs ys (suc i) queues, picked-append n i xs ys, append_assoc)

  pub delivered-nil : (n i : ℕ) (queues : List (Sender A)) → delivered n [] i queues ≡ queues
  delivered-nil n i [] = refl
  delivered-nil n i (s ∷ queues) = rw (delivered-nil n (suc i) queues, append-nil)

  -- Later queues than that of `x` stay as they are.
  delivered_other :
      (n : ℕ) (x : A) (i : ℕ) (queues : List (Sender A))
      → key x % n < i
      → delivered n (x ∷ []) i queues ≡ queues
  delivered_other n x i [] h = refl
  delivered_other n x i (s ∷ queues) h =
      ground (arith, delivered_other n x (suc i) queues, append-nil s.queued)

  send_at-delivered :
      (n : ℕ) (x : A) (i j : ℕ) (queues : List (Sender A))
      → key x % n ≡ i + j
      → j < length queues
      → AllOpen queues
      → send_at j x queues ≡ (ok tt, delivered n (x ∷ []) i queues)
  unfolding send_at send
  send_at-delivered n x i j [] e h o = absurd (omega arith)
  send_at-delivered n x i zero (s ∷ queues) e h o =
      ground (arith, delivered_other n x (suc i) queues)
  send_at-delivered n x i (suc j) (s ∷ queues) e h o =
      ground (arith, send_at-delivered n x (suc i) j queues, append-nil s.queued)

  -- Sending to live queues adds the element to the queue of its key and touches no other.
  pub dispatch_to-delivered :
      (x : A) (queues : List (Sender A))
      → 0 < length queues
      → AllOpen queues
      → dispatch_to (key x) x queues ≡ (ok tt, delivered (length queues) (x ∷ []) 0 queues)
  unfolding dispatch_to
  dispatch_to-delivered x [] h o = absurd (omega arith)
  dispatch_to-delivered x (s ∷ queues) h o =
      send_at-delivered (length (s ∷ queues)) x 0 (key x % length (s ∷ queues)) (s ∷ queues)
        (omega arith) (omega arith) o

  -- The queue at place `j` holds what it held and the elements picked for it.
  pub get_elem?-delivered :
      (n : ℕ) (xs : List A) (i j k : ℕ) (queues : List (Sender A)) (s : Sender A)
      → get_elem? queues j ≡ some s
      → k ≡ i + j
      → get_elem? (delivered n xs i queues) j
        ≡ some (record { queued = s.queued ++ picked n k xs; room = s.room })
  get_elem?-delivered n xs i j k [] s e f = cc
  get_elem?-delivered n xs i zero k (q ∷ queues) s e f = let g : k ≡ i = omega arith in rw g (cc)
  get_elem?-delivered n xs i (suc j) k (q ∷ queues) s e f =
      get_elem?-delivered n xs (suc i) j k queues s e (omega arith)

  -- All elements picked for a queue have its key.
  pub picked-keys : (n i : ℕ) (xs : List A) → All (λ x. key x % n ≡ i) (picked n i xs)
  picked-keys n i [] = tt
  picked-keys n i (x ∷ xs) = elim (Bool-cases (key x % n == i)) [
    | inl hit ↦ rw hit ((==_iff _ _).0 hit, picked-keys n i xs)
    | inr miss ↦ rw miss (picked-keys n i xs)
  ]
