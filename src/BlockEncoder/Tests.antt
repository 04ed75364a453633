-- ===== src/BlockEncoder/Tests.antt =====
-- The encoder on concrete blocks.
use garuda_codec.Base.{
  ℕ, ◌+◌, ◌*◌, ◌<◌, ◌≤◌, ◌≡◌, refl, arith, ok, List, [], ◌∷◌, length, All, some,
}
use garuda_codec.BlockEncoder.{Block, encode, encode_stream, compute_repair_packets_per_block}
use garuda_codec.BlockEncoder.Configuration.{encoder_for, new-eq-ok, repair_packets_ceil}
use garuda_codec.BlockEncoder.Encode.{encode_block}
use garuda_codec.BlockEncoder.Stream.{encode_stream_ok}
use garuda_codec.BlockEncoder.Sample.{first_block, second_block, copies-IsUsable}
use garuda_codec.RaptorQ.Sample.{copies, copies-IsLawful, Copy}
use garuda_codec.Vector.{interleave}
use garuda_codec.Vector.Spread.{Interleaving}

abbrev first_copy : Copy
first_copy = record { block = 7; symbol = 1 ∷ 2 ∷ [] }

abbrev second_copy : Copy
second_copy = record { block = 8; symbol = 3 ∷ 4 ∷ [] }

abbrev short_block : Block
short_block = record { id = 9; content = 5 ∷ [] }

repair_packets_ceil_example :
    (n : ℕ) × (compute_repair_packets_per_block copies 2 1 150 ≡ ok n)
    × (1 * 150 ≤ 100 * n)
    × (100 * n < 1 * 150 + 100)
repair_packets_ceil_example =
    repair_packets_ceil copies 2 1 1 150 (encoder_for copies 2 1 1)
      ((new-eq-ok copies 2 1 1 (encoder_for copies 2 1 1)).1 (omega arith, refl, omega arith, refl))
      (omega arith)

encode_block_example :
    (packets : List Copy) × (encode copies (encoder_for copies 2 1 2) first_block ≡ ok packets)
    × Interleaving (first_copy ∷ []) (first_copy ∷ first_copy ∷ []) packets
    × (length packets ≡ 3)
    × All (λ (p : Copy). p.block ≡ 7) packets
encode_block_example =
    encode_block copies copies-IsLawful 2 1 2 copies-IsUsable (omega arith) first_block
      (omega arith) refl

encode_stream_ok_example :
    encode_stream copies
      (encoder_for copies 2 1 1)
      (first_block ∷ second_block ∷ [])
      (record { queued = []; room = some 5 })
    ≡ (
      ok tt,
      record { queued = first_copy ∷ first_copy ∷ second_copy ∷ second_copy ∷ []; room = some 1 },
    )
unfolding interleave
encode_stream_ok_example =
    encode_stream_ok copies 2 1 1 (first_block ∷ second_block ∷ []) [] (some 5) (refl, (refl, tt))
      (omega arith)
