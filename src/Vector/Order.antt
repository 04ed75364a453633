-- ===== src/Vector/Order.antt =====
-- `interleave` keeps every element, the order within each vector and the even spacing.
use garuda_codec.Base.{ℕ, zero, suc, ◌+◌, ◌-◌, ◌*◌, ◌^◌, ◌≤◌, ◌<◌, ◌≡◌, arith}
use garuda_codec.Base.{some, List, [], ◌∷◌, reverse, length}
use garuda_codec.Base.{◌⊎◌, inl, inr}
use garuda_codec.Base.{length-reverse, le→leb, lt→leb_false, reverse-reverse, ℕ_discrete}
use garuda_codec.Vector.{Cursor, target, pop, next_item, items_below, interleave}
use garuda_codec.Vector.Spread.{Spread, done, from_long, from_short}
use garuda_codec.Vector.Slots.{slot, slot-lt, slot-suc, slot-le, slot-wrap}

target-slot : (T S i : ℕ) → S * T < 2 ^ 64 → i < S → target T S i ≡ T - slot T S i - 1
unfolding target
target-slot T S i fits h = rw (slot-wrap T S i h fits)

module _ {ℓ} {A : Type ℓ} where
  pop-reverse : (x : A) (xs : List A) → pop (reverse (x ∷ xs)) ≡ (some x, reverse xs)
  unfolding pop
  pop-reverse x xs = rw (reverse-reverse (x ∷ xs))

  -- A cursor over the vectors whose elements, from the back, are `ls` and `ss`.
  abbrev cursor : ℕ → List A → List A → Cursor A
  cursor i ls ss = record { short_idx = i; long = reverse ls; short = reverse ss }

  next_short :
      (T S idx i : ℕ) (y : A) (ls ss : List A)
      → i < S
      → idx ≡ target T S i
      → next_item T S idx (cursor i ls (y ∷ ss)) ≡ (some y, cursor (suc i) ls ss)
  unfolding next_item
  next_short T S idx i y ls ss h e = ground (arith, pop-reverse y ss)

  next_long :
      (T S idx i : ℕ) (x : A) (ls ss : List A)
      → (S ≤ i) ⊎ ¬ (idx ≡ target T S i)
      → next_item T S idx (cursor i (x ∷ ls) ss) ≡ (some x, cursor i ls ss)
  unfolding next_item
  next_long T S idx i x ls ss h = ground (arith, pop-reverse x ls)

  -- The loop from place `p` on, after `i` elements of the shorter side.
  items_below-Spread :
      (T S : ℕ)
      → S * T < 2 ^ 64
      → S ≤ T
      → (n i p : ℕ) (ls ss : List A) → p + n ≡ T
      → i + length ss ≡ S
      → length ls + length ss ≡ n
      → (i < S → p ≤ slot T S i)
      → Spread T S p i ls ss (items_below T S n (cursor i ls ss))
  unfolding items_below
  items_below-Spread T S fits le zero i p [] [] a b c d = done
  items_below-Spread T S fits le zero i p (x ∷ ls) ss a b c d = absurd (omega arith)
  items_below-Spread T S fits le zero i p [] (y ∷ ss) a b c d = absurd (omega arith)
  items_below-Spread T S fits le (suc n) i p [] [] a b c d = absurd (omega arith)
  items_below-Spread T S fits le (suc n) i p (x ∷ ls) [] a b c d =
      rw (next_long T S n i x ls [] (inl (omega arith))) (
        from_long x (λ h. absurd (omega arith))
          (items_below-Spread T S fits le n i (suc p) ls [] (omega arith) b (omega arith)
            (λ h. absurd (omega arith))))
  items_below-Spread T S fits le (suc n) i p [] (y ∷ ss) a b c d =
      let h : i < S = omega arith in
      let e : n ≡ target T S i = omega (
        arith,
        d h,
        target-slot T S i fits h,
        slot-lt T S i h (omega arith),
        slot-le T S i (omega arith) le,
      ) in
      let at : p ≡ slot T S i =
        omega (arith, d h, target-slot T S i fits h, slot-lt T S i h (omega arith)) in
      rw (next_short T S n i y [] ss (omega arith) e) (
        from_short y at (
          items_below-Spread T S fits le n (suc i) (suc p) [] ss (omega arith) (omega arith)
            (omega arith) (λ k. omega (arith, at, slot-suc T S i (omega arith) le))))
  items_below-Spread T S fits le (suc n) i p (x ∷ ls) (y ∷ ss) a b c d =
      let h : i < S = omega arith in
      elim (ℕ_discrete n (target T S i)) [
        | yes e ↦
            let at : p ≡ slot T S i =
              omega (arith, d h, target-slot T S i fits h, slot-lt T S i h (omega arith)) in
            rw (next_short T S n i y (x ∷ ls) ss (omega arith) e) (
              from_short y at (
                items_below-Spread T S fits le n (suc i) (suc p) (x ∷ ls) ss (omega arith)
                  (omega arith) (omega arith)
                  (λ k. omega (arith, at, slot-suc T S i (omega arith) le))))
        | no e ↦
            let early : p < slot T S i =
              omega (arith, d h, target-slot T S i fits h, slot-lt T S i h (omega arith)) in
            rw (next_long T S n i x ls (y ∷ ss) (inr e)) (
              from_long x (λ k. early)
                (items_below-Spread T S fits le n i (suc p) ls (y ∷ ss) (omega arith) b
                  (omega arith) (λ k. early)))
      ]

  whole_loop :
      (long short : List A)
      → length short ≤ length long
      → length short * (length long + length short) < 2 ^ 64
      → let T = length long + length short in
        Spread T
          (length short)
          0
          0
          (reverse long)
          (reverse short)
          (items_below T (length short) T (record { short_idx = 0; long = long; short = short }))
  whole_loop long short le fits =
      let L = length-reverse long in
      let R = length-reverse short in
      let loop =
        items_below-Spread (length long + length short) (length short) fits (omega arith)
          (length long + length short) 0 0 (reverse long) (reverse short) (omega arith)
          (omega arith) (omega arith) (λ h. omega arith) in
      rw (reverse-reverse long, reverse-reverse short) at loop

  -- The order of `interleave` when the first vector is not the shorter one.
  pub interleave_long :
      (v1 v2 : List A)
      → length v2 ≤ length v1
      → length v2 * (length v1 + length v2) < 2 ^ 64
      → Spread (length v1 + length v2) (length v2) 0 0 (reverse v1) (reverse v2) (interleave v1 v2)
  unfolding interleave
  interleave_long v1 v2 le fits = rw (le→leb _ _ le) (whole_loop v1 v2 le fits)

  pub interleave_short :
      (v1 v2 : List A)
      → length v1 < length v2
      → length v1 * (length v1 + length v2) < 2 ^ 64
      → Spread (length v1 + length v2) (length v1) 0 0 (reverse v2) (reverse v1) (interleave v1 v2)
  unfolding interleave
  interleave_short v1 v2 lt fits =
      let e : length v1 + length v2 ≡ length v2 + length v1 = omega arith in
      rw (lt→leb_false _ _ lt, e) (whole_loop v2 v1 (omega arith) (rw e at fits))
