-- ===== src/BlockDecoder/Tests.antt =====
-- The decoder on packets of two blocks.
use garuda_codec.Base.{◌≡◌, refl, arith, List, [], ◌∷◌, some, true, inl, map_err}
use garuda_codec.BlockEncoder.Sample.{first_block, second_block, copies-IsUsable}
use garuda_codec.BlockDecoder.{BlockDecoder, decode_stream, from_send_error}
use garuda_codec.BlockDecoder.Runs.{decoded_blocks, decode_stream-decoded_blocks}
use garuda_codec.BlockDecoder.Recovery.{
  Reception, IsReception, decoder_for, decoded_blocks-delivered,
}
use garuda_codec.Channel.{send_all}
use garuda_codec.RaptorQ.Sample.{copies, copies-IsLawful, Copy}
use mathlib.Core.List.{Memᴰ}

abbrev first_copy : Copy
first_copy = record { block = 7; symbol = 1 ∷ 2 ∷ [] }

abbrev second_copy : Copy
second_copy = record { block = 8; symbol = 3 ∷ 4 ∷ [] }

abbrev twice : Reception copies
twice = record { block = first_block; packets = first_copy ∷ first_copy ∷ [] }

abbrev once : Reception copies
once = record { block = second_block; packets = second_copy ∷ [] }

-- The packets of both, in the order in which they arrive.
abbrev stream : List Copy
stream = first_copy ∷ first_copy ∷ second_copy ∷ []

twice-IsReception : IsReception copies 2 1 twice
twice-IsReception = record {
  id_fits = omega arith;
  sized = refl;
  some_packet = λ e. cc;
  of_block = (inl (Memᴰ.head refl), (inl (Memᴰ.head refl), tt));
}

once-IsReception : IsReception copies 2 1 once
once-IsReception = record {
  id_fits = omega arith;
  sized = refl;
  some_packet = λ e. cc;
  of_block = (inl (Memᴰ.head refl), tt);
}

decoded_blocks-delivered_example :
    decoded_blocks copies (decoder_for copies 2 1) stream ≡ (1 ∷ 2 ∷ []) ∷ (3 ∷ 4 ∷ []) ∷ []
decoded_blocks-delivered_example =
    decoded_blocks-delivered copies copies-IsLawful 2 1 copies-IsUsable (twice ∷ once ∷ [])
      (twice-IsReception, (once-IsReception, tt)) (λ e. cc, (λ e. cc, tt))

sole : (p c : Copy) → Memᴰ p (c ∷ []) → p ≡ c
sole p c (Memᴰ.head e) = e
sole p c (Memᴰ.tail m) = elim m [ ]

decode_stream-decoded_blocks_example :
    decode_stream copies (decoder_for copies 2 1) stream (record { queued = []; room = some 1 }) ≡ (
      map_err from_send_error
          (send_all
            (decoded_blocks copies (decoder_for copies 2 1) stream)
            (record { queued = []; room = some 1 })).0,
      (send_all
          (decoded_blocks copies (decoder_for copies 2 1) stream)
          (record { queued = []; room = some 1 })).1,
    )
decode_stream-decoded_blocks_example =
    decode_stream-decoded_blocks copies (decoder_for copies 2 1) stream
      (record { queued = []; room = some 1 })

-- A decoder that has returned block 7.
abbrev finished : BlockDecoder copies
finished = record (decoder_for copies 2 1) {
  current_block_id = some 7;
  current_block_is_decoded = true;
}
