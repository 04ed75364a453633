-- ===== src/BlockEncoder/Sample.antt =====
-- Two blocks of one symbol each, and the sizes for them.
use garuda_codec.Base.{refl, arith, [], ◌∷◌}
use garuda_codec.Base.{◌≡◌, ok}
use garuda_codec.BlockEncoder.{Block, new}
use garuda_codec.BlockEncoder.Configuration.{encoder_for, new-eq-ok}
use garuda_codec.BlockEncoder.Encode.{IsUsable}
use garuda_codec.RaptorQ.Sample.{copies}

abbrev pub first_block : Block
first_block = record { id = 7; content = 1 ∷ 2 ∷ [] }

abbrev pub second_block : Block
second_block = record { id = 8; content = 3 ∷ 4 ∷ [] }

pub copies-IsUsable : IsUsable copies 2 1
copies-IsUsable = record {
  nonempty = omega arith;
  symbols = omega arith;
  multiple = refl;
  count = omega arith;
}

pub copies-new : new copies 2 1 1 ≡ ok (encoder_for copies 2 1 1)
copies-new =
    (new-eq-ok copies 2 1 1 (encoder_for copies 2 1 1)).1 (omega arith, refl, omega arith, refl)
