-- ===== src/Forward/Tests.antt =====
-- Streams that take all bytes, and one that takes three.
use garuda_codec.Base.{[], ◌∷◌}
use garuda_codec.RaptorQ.Sample.{Copy}

abbrev packet : Copy
packet = record { block = 7; symbol = 1 ∷ 2 ∷ [] }
