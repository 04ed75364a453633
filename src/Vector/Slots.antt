-- ===== src/Vector/Slots.antt =====
-- Where `interleave` puts the elements of the shorter vector: the arithmetic of its slots.
use garuda_codec.Base.{ℕ, zero, suc, ◌+◌, ◌-◌, ◌*◌, ◌/◌, ◌%◌, ◌^◌, ◌≤◌, ◌<◌, ◌≡◌, ap, arith}
use native.Mathlib.Nat.{div-le_of_le-mul}

-- The place in the output of the `i`-th element taken from the shorter vector.
abbrev pub slot : ℕ → ℕ → ℕ → ℕ
slot T S i = i * T / S

pub slot-lt : (T S i : ℕ) → i < S → 0 < T → slot T S i < T
slot-lt T S i h p = grind arith

pub slot-suc : (T S i : ℕ) → 0 < S → S ≤ T → slot T S i + 1 ≤ slot T S (suc i)
slot-suc T S i p h = grind arith

slot-le_of_parts : (T S i d L : ℕ) → S ≡ i + d → T ≡ S + L → slot T S i ≤ i + L
slot-le_of_parts T S i d L e f =
    div-le_of_le-mul S
      (omega (arith, ap (λ (t : ℕ). i * t) f, ap (λ (t : ℕ). i * t) e, ap (λ (t : ℕ). t * L) e))

pub slot-le : (T S i : ℕ) → i ≤ S → S ≤ T → slot T S i + S ≤ i + T
slot-le T S i h q =
    omega (arith, slot-le_of_parts T S i (S - i) (T - S) (omega arith) (omega arith))

-- The slots come in order, one place at least apart.
pub slot_mono : (T S i j d : ℕ) → 0 < S → S ≤ T → i + d ≡ j → slot T S i + d ≤ slot T S j
slot_mono T S i j zero p h e = let f : j ≡ i = omega arith in rw f (omega arith)
slot_mono T S i j (suc d) p h e =
    omega (arith, slot-suc T S i p h, slot_mono T S (suc i) j d p h (omega arith))

-- No product that `interleave` forms leaves 64 bits.
pub slot-wrap : (T S i : ℕ) → i < S → S * T < 2 ^ 64 → i * T % 2 ^ 64 ≡ i * T
slot-wrap T S i h b = grind arith
