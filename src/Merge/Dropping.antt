-- ===== src/Merge/Dropping.antt =====
-- A wire that loses some elements of a merged queue loses them from the streams.
use garuda_codec.Base.{
  ℕ, ◌<◌, ◌≡◌, refl, sym, subst, ap, inl, inr, List, [], ◌∷◌, ◌++◌, ℕ_discrete, All,
}
use garuda_codec.Merge.{Merge, done, next}
use garuda_codec.Workers.{update, update_same, update_other}
use mathlib.Core.List.{Memᴰ}
use mathlib.Core.List.Memᴰ as Memᴰ

-- The second list is the first without some of the elements for which `P` holds.
pub data Drops {A : Type 0} (P : A → Type 0) : List A → List A → Type 0 where
  none_left : Drops P [] []
  kept : {xs ys : List A} (x : A) → Drops P xs ys → Drops P (x ∷ xs) (x ∷ ys)
  lost : {xs ys : List A} (x : A) → P x → Drops P xs ys → Drops P (x ∷ xs) ys

module _ {A : Type 0} (P : A → Type 0) where
  pub Drops-self : (xs : List A) → Drops P xs xs
  Drops-self [] = none_left
  Drops-self (x ∷ xs) = kept x (Drops-self xs)

  pub Drops-append :
      (xs ys zs : List A)
      → Drops P (xs ++ ys) zs
      → (us : List A) × (vs : List A) × (zs ≡ us ++ vs) × Drops P xs us × Drops P ys vs
  Drops-append [] ys zs d = ([], zs, refl, none_left, d)
  Drops-append (x ∷ xs) ys zs (kept _ d) =
      let (us, vs, e, du, dv) = Drops-append xs ys _ d in
      (x ∷ us, vs, ap (λ (t : List A). x ∷ t) e, kept x du, dv)
  Drops-append (x ∷ xs) ys zs (lost _ p d) =
      let (us, vs, e, du, dv) = Drops-append xs ys _ d in (us, vs, e, lost x p du, dv)

  pub Drops-All : (Q : A → Type 0) (xs ys : List A) → Drops P xs ys → All Q xs → All Q ys
  Drops-All Q xs ys none_left h = tt
  Drops-All Q xs ys (kept x d) h = (h.0, Drops-All Q _ _ d h.1)
  Drops-All Q xs ys (lost x p d) h = Drops-All Q _ _ d h.1

  pub Drops-mem : (a : A) (xs ys : List A) → Drops P xs ys → ¬ P a → Memᴰ a xs → Memᴰ a ys
  Drops-mem a xs ys none_left h m = m
  Drops-mem a xs ys (kept x d) h m = elim (Memᴰ.cases_cons m) [
    | inl e ↦ Memᴰ.head e
    | inr there ↦ Memᴰ.tail (Drops-mem a _ _ d h there)
  ]
  Drops-mem a xs ys (lost x p d) h m = elim (Memᴰ.cases_cons m) [
    | inl e ↦ absurd (h (subst P (sym e) p))
    | inr there ↦ Drops-mem a _ _ d h there
  ]

  pub Drops-Merge :
      (n : ℕ) {streams : ℕ → List A} {zs ys : List A}
      → Merge n streams zs
      → Drops P zs ys
      → (left : ℕ → List A) × Merge n left ys × ((q : ℕ) → q < n → Drops P (streams q) (left q))
  Drops-Merge n (done empty) none_left =
      ((λ q. []), done (λ q h. refl), λ q h. rw (empty q h) none_left)
  Drops-Merge n (next {streams = streams} {later = later} q x h e same r) (kept _ d) =
      let (left, merged, all) = Drops-Merge n r d in
      let streams' = update q (x ∷ left q) left in
      (
        streams',
        next {streams = streams'} {later = left} q x h (update_same q (x ∷ left q) left)
            (λ j i. update_other q j (x ∷ left q) left i) merged,
        λ j k. elim (ℕ_discrete j q) [
          | yes f ↦ rw (f, e, update_same q (x ∷ left q) left) (kept x (all q h))
          | no f ↦ rw (same j f, update_other q j (x ∷ left q) left f) (all j k)
        ],
      )
  Drops-Merge n (next {streams = streams} {later = later} q x h e same r) (lost _ p d) =
      let (left, merged, all) = Drops-Merge n r d in
      (
        left,
        merged,
        λ j k. elim (ℕ_discrete j q) [
          | yes f ↦ rw (f, e) (lost x p (all q h))
          | no f ↦ rw (same j f) (all j k)
        ],
      )
