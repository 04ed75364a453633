-- ===== src/Threads.antt =====
-- `std::thread` and `Arc<AtomicBool>`, as encoder.rs and decoder.rs use them.
use garuda_codec.Base.{
  ℕ, zero, suc, ◌<◌, ◌≡◌, refl, ◌≢◌, arith, Bool, true, false, if◌then◌else◌, List, [], ◌∷◌, ◌++◌,
}
use garuda_codec.Base.{length, get_elem?, set, some, replicate, All, Outcome, ok, panic}

module _ {Job : Type 0} (ends : Job → Bool) where
  -- A handle is the thread's job; `ends` says whether the job returns, or panics. A panic that
  -- `join` reports is raised again.
  abbrev pub join {ℓ} : {E : Type ℓ} → Job → Outcome E (Unit {0})
  join job = if ends job then ok tt else panic

  -- `for handle in handles.drain(..)`, each joined.
  abbrev pub join_all {ℓ} : {E : Type ℓ} → List Job → Outcome E (Unit {0})
  join_all [] = ok tt
  join_all (job ∷ jobs) = let rest = join_all jobs in if ends job then rest else panic

  pub join_all_ok {ℓ} :
      {E : Type ℓ} (jobs : List Job) → All (λ j. ends j ≡ true) jobs → join_all {E = E} jobs ≡ ok tt
  join_all_ok {E = E} [] h = refl
  join_all_ok {E = E} (job ∷ jobs) h = ground (arith, join_all_ok {E = E} jobs h.1)

-- The flags that exist; an `Arc` is the place of its flag.
abbrev pub Flags : Type 0
Flags = List Bool

-- `Arc::new(AtomicBool::new(false))`
abbrev pub allocate : Flags → ℕ × Flags
allocate flags = (length flags, flags ++ (false ∷ []))

-- `store(true)`
abbrev pub raise : ℕ → Flags → Flags
raise flag flags = set flags flag true

pub raise_same :
    (flags : Flags) (i : ℕ) → i < length flags → get_elem? (raise i flags) i ≡ some true
raise_same [] i h = absurd (omega arith)
raise_same (f ∷ flags) zero h = refl
raise_same (f ∷ flags) (suc i) h = raise_same flags i (omega arith)

pub raise_other :
    (flags : Flags) (i j : ℕ) → i ≢ j → get_elem? (raise i flags) j ≡ get_elem? flags j
raise_other [] i j h = refl
raise_other (f ∷ flags) zero zero h = absurd (h refl)
raise_other (f ∷ flags) zero (suc j) h = refl
raise_other (f ∷ flags) (suc i) zero h = refl
raise_other (f ∷ flags) (suc i) (suc j) h = raise_other flags i j (λ e. h (omega (arith, e)))

pub length-raise : (flags : Flags) (i : ℕ) → length (raise i flags) ≡ length flags
length-raise [] i = refl
length-raise (f ∷ flags) zero = refl
length-raise (f ∷ flags) (suc i) = omega (arith, length-raise flags i)

-- The flag that is allocated is down.
pub get_elem?-allocate : (flags : Flags) → get_elem? (allocate flags).1 (length flags) ≡ some false
get_elem?-allocate [] = refl
get_elem?-allocate (f ∷ flags) = get_elem?-allocate flags

pub replicate_snoc {ℓ} :
    {A : Type ℓ} (n : ℕ) (x : A) (xs : List A)
    → (xs ++ (x ∷ [])) ++ replicate n x ≡ xs ++ replicate (suc n) x
replicate_snoc n x [] = refl
replicate_snoc n x (y ∷ xs) = rw (replicate_snoc n x xs)
