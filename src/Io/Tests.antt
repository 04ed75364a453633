-- ===== src/Io/Tests.antt =====
-- `read_exact` on concrete streams.
use garuda_codec.Base.{◌≡◌, refl, arith, ok, err, List, [], ◌∷◌, ◌++◌, true, false, inr}
use garuda_codec.Io.{ReadEvent, chunk, fail, interrupted, would_block, read_exact}
use garuda_codec.Io.Exact.{bytes_of, IsQuiet, read_exact-IsQuiet, read_exact_fail}

-- The data come in two pieces, with an interrupted read between them.
abbrev pieces : List ReadEvent
pieces = chunk (1 ∷ 2 ∷ []) ∷ fail interrupted false ∷ chunk (3 ∷ 4 ∷ 5 ∷ []) ∷ []

pieces-IsQuiet : IsQuiet pieces
pieces-IsQuiet = (λ e. cc, ((refl, refl), (λ e. cc, tt)))

read_exact-IsQuiet_example :
    ((read_exact pieces 4).0 ≡ ok (1 ∷ 2 ∷ 3 ∷ 4 ∷ []))
    × (bytes_of (read_exact pieces 4).1 ≡ 5 ∷ [])
    × IsQuiet (read_exact pieces 4).1
read_exact-IsQuiet_example = read_exact-IsQuiet pieces 4 pieces-IsQuiet (omega arith)

pieces_read : read_exact pieces 4 ≡ (ok (1 ∷ 2 ∷ 3 ∷ 4 ∷ []), chunk (5 ∷ []) ∷ [])
unfolding read_exact
pieces_read = refl

read_exact_fail_example :
    read_exact (pieces ++ (fail would_block true ∷ chunk (6 ∷ []) ∷ [])) 6
    ≡ (err interrupted, chunk (6 ∷ []) ∷ [])
read_exact_fail_example =
    read_exact_fail pieces (chunk (6 ∷ []) ∷ []) would_block true 6 pieces-IsQuiet (omega arith)
      (inr refl)
