-- ===== src/Vector/Tests.antt =====
-- The unit tests of vector.rs.
use garuda_codec.Base.{ℕ, [], ◌∷◌, ◌≡◌, refl}
use garuda_codec.Base.{arith}
use garuda_codec.Vector.{interleave}
use garuda_codec.Vector.Spread.{Interleaving}
use garuda_codec.Vector.Interleave.{interleave-Interleaving}

equal_length : interleave {A = ℕ} (1 ∷ 3 ∷ 5 ∷ []) (2 ∷ 4 ∷ 6 ∷ []) ≡ 6 ∷ 5 ∷ 4 ∷ 3 ∷ 2 ∷ 1 ∷ []
unfolding interleave
equal_length = refl

different_length :
    interleave {A = ℕ} (10 ∷ 20 ∷ 30 ∷ 40 ∷ 50 ∷ []) (1 ∷ 2 ∷ [])
    ≡ 2 ∷ 50 ∷ 40 ∷ 1 ∷ 30 ∷ 20 ∷ 10 ∷ []
unfolding interleave
different_length = refl

one_empty : interleave {A = ℕ} [] (1 ∷ 2 ∷ 3 ∷ []) ≡ 3 ∷ 2 ∷ 1 ∷ []
unfolding interleave
one_empty = refl

interleave-Interleaving_example :
    Interleaving {A = ℕ} (5 ∷ 4 ∷ 3 ∷ []) (2 ∷ 1 ∷ []) (interleave (3 ∷ 4 ∷ 5 ∷ []) (1 ∷ 2 ∷ []))
interleave-Interleaving_example =
    interleave-Interleaving (3 ∷ 4 ∷ 5 ∷ []) (1 ∷ 2 ∷ []) (omega arith)
