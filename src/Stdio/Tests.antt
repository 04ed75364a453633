-- ===== src/Stdio/Tests.antt =====
-- Reads at concrete inputs.
use garuda_codec.Base.{◌≡◌, refl, false, true, [], ◌∷◌, ok, err}
use garuda_codec.Io.{chunk, fail, interrupted, timed_out, unexpected_eof}
use garuda_codec.Stdio.{read, read_to_fill}

-- A read takes what its buffer can hold.
read_part : read (chunk (1 ∷ 2 ∷ 3 ∷ []) ∷ []) 2 ≡ (ok (1 ∷ 2 ∷ []), chunk (3 ∷ []) ∷ [])
unfolding read
read_part = refl

-- An interrupted read is tried again, even when the flag says to stop.
fill_interrupted :
    read_to_fill (chunk (1 ∷ []) ∷ fail interrupted true ∷ chunk (2 ∷ 3 ∷ []) ∷ []) 2
    ≡ (ok (1 ∷ 2 ∷ []), chunk (3 ∷ []) ∷ [])
unfolding read_to_fill
fill_interrupted = refl

-- Unlike in io.rs, a read that times out ends the reading.
fill_timed_out : read_to_fill (fail timed_out false ∷ []) 1 ≡ (err timed_out, [])
unfolding read_to_fill
fill_timed_out = refl

fill_short : (read_to_fill (chunk (1 ∷ []) ∷ []) 2).0 ≡ err unexpected_eof
unfolding read_to_fill
fill_short = refl
