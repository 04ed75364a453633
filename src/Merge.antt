-- ===== src/Merge.antt =====
-- The packet queue of the encoder takes packets from all workers, in an order that the scheduler
-- chooses; here that order is a relation.
pub mod Growing
pub mod Dropping
use garuda_codec.Base.{ℕ, ◌%◌, ◌<◌, ◌≡◌, sym, ap, ◌∙◌, ◌≢◌, List, [], ◌∷◌, All, ==_iff}
use garuda_codec.Base.{ℕ_discrete, ne→==_false}
use garuda_codec.Dispatch.Routes.{picked}

-- `zs` takes the elements of the streams `0` to `n - 1`, those of each stream in their order.
pub data Merge {A : Type 0} (n : ℕ) : (ℕ → List A) → List A → Type 0 where
  done : {streams : ℕ → List A} → ((q : ℕ) → q < n → streams q ≡ []) → Merge n streams []
  next :
      {streams later : ℕ → List A} {zs : List A} (q : ℕ) (x : A)
      → q < n
      → streams q ≡ x ∷ later q
      → ((j : ℕ) → j ≢ q → streams j ≡ later j)
      → Merge n later zs
      → Merge n streams (x ∷ zs)

module _ {A : Type 0} (key : A → ℕ) (n : ℕ) where
  abbrev pub IsKeyed : (ℕ → List A) → Type 0
  IsKeyed streams = (q : ℕ) → q < n → All (λ x. key x % n ≡ q) (streams q)

  later-IsKeyed :
      (streams later : ℕ → List A) (q : ℕ) (x : A)
      → streams q ≡ x ∷ later q
      → ((j : ℕ) → j ≢ q → streams j ≡ later j)
      → IsKeyed streams
      → IsKeyed later
  later-IsKeyed streams later q x e same keyed j h = elim (ℕ_discrete j q) [
    | yes f ↦ rw f (rw e at (keyed q (rw (← f) h))).1
    | no f ↦ rw (same j f) at (keyed j h)
  ]

  -- If the elements of stream `q` have keys that are `q` modulo `n`, then whatever the order in
  -- which the streams are merged, choosing by the key modulo `n` gives each stream back.
  pub picked-Merge :
      {streams : ℕ → List A} {zs : List A}
      → Merge n streams zs
      → IsKeyed streams
      → (q : ℕ) → q < n
      → picked key n q zs ≡ streams q
  picked-Merge (done empty) keyed q h = sym (empty q h)
  picked-Merge (next {streams = streams} {later = later} {zs = zs} j x k e same r) keyed q h =
      let rest = picked-Merge r (later-IsKeyed streams later j x e same keyed) q h in
      let at : key x % n ≡ j = (rw e at (keyed j k)).0 in
      elim (ℕ_discrete q j) [
        | yes f ↦
            rw (at, (==_iff j q).1 (sym f))
              (ap (λ (t : List A). x ∷ t) (rest ∙ ap later f) ∙ sym e ∙ ap streams (sym f))
        | no f ↦ rw (at, ne→==_false j q (λ g. f (sym g))) (rest ∙ sym (same q f))
      ]

module _ {A : Type 0} (P : A → Type 0) (n : ℕ) where
  later-All :
      (streams later : ℕ → List A) (q : ℕ) (x : A)
      → streams q ≡ x ∷ later q
      → ((j : ℕ) → j ≢ q → streams j ≡ later j)
      → ((j : ℕ) → j < n → All P (streams j))
      → (j : ℕ) → j < n
      → All P (later j)
  later-All streams later q x e same all j h = elim (ℕ_discrete j q) [
    | yes f ↦ rw f (rw e at (all q (rw (← f) h))).1
    | no f ↦ rw (same j f) at (all j h)
  ]

  -- What holds of all elements of the streams holds of all merged elements.
  pub All-Merge :
      {streams : ℕ → List A} {zs : List A}
      → Merge n streams zs
      → ((q : ℕ) → q < n → All P (streams q))
      → All P zs
  All-Merge (done empty) all = tt
  All-Merge (next {streams = streams} {later = later} j x k e same r) all =
      ((rw e at (all j k)).0, All-Merge r (later-All streams later j x e same all))
