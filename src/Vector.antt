-- ===== src/Vector.antt =====
-- garuda-codec-core/src/vector.rs: the order in which a block's packets are sent.
pub mod Slots
pub mod Spread
pub mod Order
pub mod Interleave
mod Tests
use garuda_codec.Base.{ℕ, zero, suc, ◌+◌, ◌-◌, ◌*◌, ◌/◌, ◌%◌, ◌^◌, ◌&&◌, ltb, leb, ◌==◌}
use garuda_codec.Base.{Option, none, some, List, [], ◌∷◌, reverse, length, if◌then◌else◌}

module _ {ℓ} {A : Type ℓ} where
  unsnoc : List A → Option A × List A
  unsnoc [] = (none, [])
  unsnoc (x ∷ front) = (some x, reverse front)

  -- `Vec::pop`: the last element, and the vector without it.
  pub pop : List A → Option A × List A
  unfolding unsnoc
  pop xs = unsnoc (reverse xs)

-- The variables that the closure of `interleave` captures and changes.
pub record Cursor {ℓ} (A : Type ℓ) : Type ℓ where
  pub short_idx : ℕ
  pub long : List A
  pub short : List A

-- The index of the next element of the shorter vector; `*` wraps at 64 bits.
pub target : ℕ → ℕ → ℕ → ℕ
target total_len short_len short_idx = total_len - short_idx * total_len % 2 ^ 64 / short_len - 1

abbrev pub emit {ℓ} : {A : Type ℓ} → Option A → List A → List A
emit none rest = rest
emit (some x) rest = x ∷ rest

module _ {ℓ} {A : Type ℓ} (total_len short_len : ℕ) where
  -- The closure, called at `idx`.
  pub next_item : ℕ → Cursor A → Option A × Cursor A
  next_item idx c =
      if ltb c.short_idx short_len && idx == target total_len short_len c.short_idx
      then (let (item, rest) = pop c.short in
          (item, record c { short_idx = c.short_idx + 1; short = rest }))
      else (let (item, rest) = pop c.long in (item, record c { long = rest }))

  -- `(0..n).rev().filter_map(closure)`, collected.
  pub items_below : ℕ → Cursor A → List A
  unfolding next_item
  items_below zero c = []
  items_below (suc idx) c = let (item, c') = next_item idx c in emit item (items_below idx c')

unfoldable pub interleave {ℓ} : {A : Type ℓ} → List A → List A → List A
unfolding items_below pop target
interleave v1 v2 =
    let (long, short) = if leb (length v2) (length v1) then (v1, v2) else (v2, v1) in
    let total_len = length long + length short in
    items_below total_len (length short) total_len
      (record { short_idx = 0; long = long; short = short })
