-- ===== src/Vector/Spread.antt =====
-- The relation between the two vectors and the order that `interleave` gives them.
use garuda_codec.Base.{ℕ, zero, suc, ◌+◌, ◌<◌, ◌≤◌, ◌≡◌, arith, List, [], ◌∷◌, ◌++◌}
use garuda_codec.Base.{All, length, get_elem?, refl}
use garuda_codec.Vector.Slots.{slot, slot_mono}
use mathlib.Core.List.{Perm, perm_middle, Memᴰ}
use mathlib.Core.List.Perm

-- `zs` is made of `xs` and `ys`, each in its order.
pub data Interleaving {ℓ} {A : Type ℓ} : List A → List A → List A → Type ℓ where
  done : Interleaving [] [] []
  left : {xs ys zs : List A} (x : A) → Interleaving xs ys zs → Interleaving (x ∷ xs) ys (x ∷ zs)
  right : {xs ys zs : List A} (y : A) → Interleaving xs ys zs → Interleaving xs (y ∷ ys) (y ∷ zs)

-- What is emitted from place `p` on, when `i` elements came from the shorter side: an element of
-- the shorter side in each slot, and elements of the longer side in all other places.
pub data Spread {ℓ} {A : Type ℓ} (T S : ℕ) : ℕ → ℕ → List A → List A → List A → Type ℓ where
  done : {p i : ℕ} → Spread T S p i [] [] []
  from_long :
      {p i : ℕ} {ls ss zs : List A} (x : A)
      → (i < S → p < slot T S i)
      → Spread T S (suc p) i ls ss zs
      → Spread T S p i (x ∷ ls) ss (x ∷ zs)
  from_short :
      {p i : ℕ} {ls ss zs : List A} (y : A)
      → p ≡ slot T S i
      → Spread T S (suc p) (suc i) ls ss zs
      → Spread T S p i ls (y ∷ ss) (y ∷ zs)

module _ {ℓ} {A : Type ℓ} where
  pub Spread-Interleaving :
      {T S p i : ℕ} {ls ss zs : List A} → Spread T S p i ls ss zs → Interleaving ls ss zs
  Spread-Interleaving done = Interleaving.done
  Spread-Interleaving (from_long x h r) = left x (Spread-Interleaving r)
  Spread-Interleaving (from_short y h r) = right y (Spread-Interleaving r)

  pub Interleaving-swap : {xs ys zs : List A} → Interleaving xs ys zs → Interleaving ys xs zs
  Interleaving-swap Interleaving.done = Interleaving.done
  Interleaving-swap (left x r) = right x (Interleaving-swap r)
  Interleaving-swap (right y r) = left y (Interleaving-swap r)

  pub Interleaving-perm : {xs ys zs : List A} → Interleaving xs ys zs → Perm zs (xs ++ ys)
  Interleaving-perm Interleaving.done = Perm.refl []
  Interleaving-perm (left x r) = Perm.cons x (Interleaving-perm r)
  Interleaving-perm (right {xs = xs} {ys = ys} y r) =
      Perm.trans (Perm.cons y (Interleaving-perm r)) (Perm.symm (perm_middle xs ys))

  -- The elements of the shorter side stand in their slots.
  pub get_elem?-Spread :
      {T S p i : ℕ} {ls ss zs : List A}
      → Spread T S p i ls ss zs
      → S ≤ T
      → i + length ss ≡ S
      → (d q j : ℕ) → d < length ss
      → i + d ≡ j
      → p + q ≡ slot T S j
      → get_elem? zs q ≡ get_elem? ss d
  get_elem?-Spread done le b d q j h e f = absurd (omega arith)
  get_elem?-Spread {T} {S} {i = i} (from_long x g r) le b d zero j h e f =
      absurd (omega (arith, slot_mono T S i j d (omega arith) le e))
  get_elem?-Spread (from_long x g r) le b d (suc q) j h e f =
      get_elem?-Spread r le b d q j h e (omega arith)
  get_elem?-Spread (from_short y g r) le b zero zero j h e f = refl
  get_elem?-Spread {T} {S} {i = i} (from_short y g r) le b zero (suc q) j h e f =
      let k : j ≡ i = omega arith in let f' = rw k at f in absurd (omega arith)
  get_elem?-Spread {T} {S} {i = i} (from_short y g r) le b (suc d) zero j h e f =
      absurd (omega (arith, slot_mono T S i j (suc d) (omega arith) le e))
  get_elem?-Spread (from_short y g r) le b (suc d) (suc q) j h e f =
      get_elem?-Spread r le (omega arith) d q j (omega arith) (omega arith) (omega arith)

module _ {ℓ κ} {A : Type ℓ} (P : A → Type κ) where
  pub All-Interleaving :
      {xs ys zs : List A} → Interleaving xs ys zs → All P xs → All P ys → All P zs
  All-Interleaving Interleaving.done h k = tt
  All-Interleaving (left x r) h k = (h.0, All-Interleaving r h.1 k)
  All-Interleaving (right y r) h k = (k.0, All-Interleaving r h k.1)

module _ {ℓ} {A : Type ℓ} where
  pub Interleaving-length :
      {xs ys zs : List A} → Interleaving xs ys zs → length zs ≡ length xs + length ys
  Interleaving-length Interleaving.done = omega arith
  Interleaving-length (left x r) = omega (arith, Interleaving-length r)
  Interleaving-length (right y r) = omega (arith, Interleaving-length r)

  pub mem-Interleaving_left :
      {p : A} {xs ys zs : List A} → Interleaving xs ys zs → Memᴰ p xs → Memᴰ p zs
  mem-Interleaving_left Interleaving.done m = m
  mem-Interleaving_left (left x r) (Memᴰ.head e) = Memᴰ.head e
  mem-Interleaving_left (left x r) (Memᴰ.tail m) = Memᴰ.tail (mem-Interleaving_left r m)
  mem-Interleaving_left (right y r) m = Memᴰ.tail (mem-Interleaving_left r m)
