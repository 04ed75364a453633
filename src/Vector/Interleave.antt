-- ===== src/Vector/Interleave.antt =====
-- What `interleave` promises: every element once, each vector back to front, evenly spread.
use garuda_codec.Base.{ℕ, min, ◌+◌, ◌*◌, ◌/◌, ◌^◌, ◌≤◌, ◌<◌, ◌≡◌, arith, List, ◌++◌, dec_lt}
use garuda_codec.Base.{reverse, length, get_elem?, length-reverse}
use garuda_codec.Vector.{interleave}
use garuda_codec.Vector.Spread.{Interleaving, Spread-Interleaving, Interleaving-swap}
use garuda_codec.Vector.Spread.{Interleaving-perm, get_elem?-Spread}
use garuda_codec.Vector.Order.{interleave_long, interleave_short}
use mathlib.Core.List.{Perm, reverse_perm}
use mathlib.Core.List.Perm

module _ {ℓ} {A : Type ℓ} (v1 v2 : List A) where
  -- While the number of all elements times that of the shorter vector fits 64 bits, `interleave`
  -- yields the elements of both vectors, each vector from its end to its start, and nothing else.
  pub interleave-Interleaving :
      min (length v1) (length v2) * (length v1 + length v2) < 2 ^ 64
      → Interleaving (reverse v1) (reverse v2) (interleave v1 v2)
  interleave-Interleaving fits = elim (dec_lt (length v1) (length v2)) [
    | yes lt ↦
        let e : min (length v1) (length v2) ≡ length v1 = omega arith in
        Interleaving-swap (Spread-Interleaving (interleave_short v1 v2 lt (rw e at fits)))
    | no ge ↦
        let e : min (length v1) (length v2) ≡ length v2 = omega arith in
        Spread-Interleaving (interleave_long v1 v2 (omega arith) (rw e at fits))
  ]

  -- So the output is a permutation of the two inputs.
  pub interleave-perm :
      min (length v1) (length v2) * (length v1 + length v2) < 2 ^ 64
      → Perm (interleave v1 v2) (v1 ++ v2)
  interleave-perm fits =
      Perm.trans (Interleaving-perm (interleave-Interleaving fits))
        (Perm.append (reverse_perm v1) (reverse_perm v2))

  -- If the second vector is not the longer one, its `d`-th element from the end is yielded at
  -- place `d * total / length v2` of the output, total being the number of all elements.
  pub get_elem?-interleave :
      (d : ℕ)
      → min (length v1) (length v2) * (length v1 + length v2) < 2 ^ 64
      → length v2 ≤ length v1
      → d < length v2
      → get_elem? (interleave v1 v2) (d * (length v1 + length v2) / length v2)
        ≡ get_elem? (reverse v2) d
  get_elem?-interleave d fits le h =
      let e = length-reverse v2 in
      let m : min (length v1) (length v2) ≡ length v2 = omega arith in
      get_elem?-Spread (interleave_long v1 v2 le (rw m at fits)) (omega arith) (omega arith) d _ d
        (omega arith) (omega arith) (omega arith)
