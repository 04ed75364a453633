-- ===== src/Base/Parts.antt =====
-- Parts of lists: `take` and `drop`, and the elements at their places.
use garuda_codec.Base.Lists.{length, take, drop, get_elem?}
use Prim.Native.Nat.{ℕ, zero, suc, ◌+◌, ◌≤◌, ◌<◌}
use mathlib.Core.List.{List, [], ◌∷◌}
use mathlib.Core.Path.{◌≡◌, refl}
use native.Mathlib.Omega.{arith}

module _ {ℓ} {A : Type ℓ} where
  pub get_elem?-take : (n i : ℕ) (xs : List A) → i < n → get_elem? (take n xs) i ≡ get_elem? xs i
  get_elem?-take zero i xs h = absurd (omega arith)
  get_elem?-take (suc n) i [] h = refl
  get_elem?-take (suc n) zero (x ∷ xs) h = refl
  get_elem?-take (suc n) (suc i) (x ∷ xs) h = get_elem?-take n i xs (omega arith)

  pub get_elem?-drop :
      (n i j : ℕ) (xs : List A) → j ≡ n + i → get_elem? (drop n xs) i ≡ get_elem? xs j
  get_elem?-drop zero i j xs e = let f : j ≡ i = omega arith in rw f
  get_elem?-drop (suc n) i j [] e = refl
  get_elem?-drop (suc n) i zero (x ∷ xs) e = absurd (omega arith)
  get_elem?-drop (suc n) i (suc j) (x ∷ xs) e = get_elem?-drop n i j xs (omega arith)

  -- A list that is no longer than another and agrees with it at every place is the other.
  pub eq_of_get_elem? :
      (xs ys : List A)
      → length xs ≤ length ys
      → ((i : ℕ) → i < length ys → get_elem? xs i ≡ get_elem? ys i)
      → xs ≡ ys
  eq_of_get_elem? [] [] h same = refl
  eq_of_get_elem? [] (y ∷ ys) h same = cc (same 0 (omega arith))
  eq_of_get_elem? (x ∷ xs) [] h same = absurd (omega arith)
  eq_of_get_elem? (x ∷ xs) (y ∷ ys) h same =
      let first = same 0 (omega arith) in
      let rest = eq_of_get_elem? xs ys (omega arith) (λ i k. same (suc i) (omega arith)) in cc

pub drop-drop : (a k j : ℕ) (xs : List ℕ) → j ≡ a + k → drop j xs ≡ drop k (drop a xs)
drop-drop zero k j xs e = let f : j ≡ k = omega arith in rw f
drop-drop (suc a) zero zero [] e = refl
drop-drop (suc a) (suc k) zero [] e = refl
drop-drop (suc a) zero (suc j) [] e = refl
drop-drop (suc a) (suc k) (suc j) [] e = refl
drop-drop (suc a) k zero (x ∷ xs) e = absurd (omega arith)
drop-drop (suc a) k (suc j) (x ∷ xs) e = drop-drop a k j xs (omega arith)
