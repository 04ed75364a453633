-- ===== src/Codec/Tests.antt =====
-- Two blocks through encoder and decoder.
use garuda_codec.Base.{◌≡◌, refl, arith, ok, [], ◌∷◌, none}
use garuda_codec.BlockEncoder.{encode_stream}
use garuda_codec.BlockEncoder.Configuration.{encoder_for}
use garuda_codec.BlockEncoder.Sample.{first_block, second_block, copies-IsUsable}
use garuda_codec.BlockDecoder.{decode_stream}
use garuda_codec.BlockDecoder.Recovery.{decoder_for}
use garuda_codec.Codec.{decode_stream-encode_stream}
use garuda_codec.RaptorQ.Sample.{copies, copies-IsLawful}

decode_stream-encode_stream_example :
    ((encode_stream copies
        (encoder_for copies 2 1 3)
        (first_block ∷ second_block ∷ [])
        (record { queued = []; room = none })).0
      ≡ ok tt)
    × (decode_stream copies
          (decoder_for copies 2 1)
          (encode_stream copies
            (encoder_for copies 2 1 3)
            (first_block ∷ second_block ∷ [])
            (record { queued = []; room = none })).1.queued
          (record { queued = []; room = none })
        ≡ (ok tt, record { queued = (1 ∷ 2 ∷ []) ∷ (3 ∷ 4 ∷ []) ∷ []; room = none }))
decode_stream-encode_stream_example =
    decode_stream-encode_stream copies copies-IsLawful 2 1 3 copies-IsUsable (omega arith)
      (first_block ∷ second_block ∷ []) (omega arith, (omega arith, tt)) (refl, (refl, tt))
      (λ e. cc, (λ e. cc, tt))
