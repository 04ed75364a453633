-- ===== src/Codec.antt =====
-- `encode_stream` (block_encoder.rs) followed by `decode_stream` (block_decoder.rs), as the unit
-- test `test_encode_decode_stream` runs them.
mod Tests
use garuda_codec.BlockEncoder.Configuration.{symbol_len}
use garuda_codec.RaptorQ.{symbol_id_bits}
use garuda_codec.Base.{
  ℕ, ◌+◌, ◌/◌, ◌^◌, ◌<◌, ◌≤◌, ◌≡◌, refl, ap, ◌∙◌, arith, List, [], ◌∷◌, ◌++◌, Option, none, some,
}
use garuda_codec.Base.{All, All-map, map, length, Outcome, ok, ne-nil_of_length, mem-reverse, sym}
use garuda_codec.Channel.{Sender}
use garuda_codec.RaptorQ.{RaptorQ, IsLawful}
use garuda_codec.Vector.Spread.{mem-Interleaving_left}
use garuda_codec.BlockEncoder.{Block, encode_stream}
use garuda_codec.BlockEncoder.Configuration.{encoder_for}
use garuda_codec.BlockEncoder.Encode.{
  IsUsable, block-IsBlock, packets_of, packets-IsPacketOf, packets_order, length-packets,
}
use garuda_codec.BlockEncoder.Stream.{IsSized, stream_of, encode_stream_ok}
use garuda_codec.BlockDecoder.{decode_stream}
use garuda_codec.BlockDecoder.Recovery.{Reception, IsReception, IdsAlternate, HasSource, arriving}
use garuda_codec.BlockDecoder.Recovery.{decoder_for, decode_stream_complete}
use garuda_codec.BlockDispatcher.Ids.{Alternates}

module _ (R : RaptorQ) (laws : IsLawful R) (b m r : ℕ) (u : IsUsable R b m)
    (fits : b / symbol_len R b m + r ≤ 2 ^ symbol_id_bits) where
  -- A block of which every packet arrives.
  abbrev intact : Block → Reception R
  intact block = record { block = block; packets = packets_of R b m r block }

  module _ (block : Block) (id_fits : block.id < 256) (sized : length block.content ≡ b) where
    intact-IsReception : IsReception R b m (intact block)
    intact-IsReception = record {
      id_fits = id_fits;
      sized = sized;
      some_packet = ne-nil_of_length (packets_of R b m r block) (
          omega (
            arith,
            length-packets R laws b m r u fits block id_fits sized,
            (block-IsBlock R b m block u id_fits sized).some_symbol,
          ));
      of_block = packets-IsPacketOf R laws b m r u fits block id_fits sized;
    }

    pub intact-HasSource : HasSource R laws b m u (intact block)
    intact-HasSource p h =
        mem-Interleaving_left (packets_order R laws b m r u fits block id_fits sized)
          (mem-reverse p _ h)

  intact_blocks :
      (blocks : List Block)
      → All (λ (block : Block). block.id < 256) blocks
      → All (IsSized R b m r) blocks
      → All (IsReception R b m) (map intact blocks)
        × All (HasSource R laws b m u) (map intact blocks)
  intact_blocks [] h k = (tt, tt)
  intact_blocks (block ∷ blocks) h k =
      let rest = intact_blocks blocks h.1 k.1 in
      ((intact-IsReception block h.0 k.0, rest.0), (intact-HasSource block h.0 k.0, rest.1))

  intact_ids :
      (blocks : List Block) (last : Option ℕ)
      → Alternates last blocks
      → IdsAlternate R b m last (map intact blocks)
  intact_ids [] last h = tt
  intact_ids (block ∷ blocks) last h = (h.0, intact_ids blocks _ h.1)

  intact_stream : (blocks : List Block) → stream_of R b m r blocks ≡ arriving R (map intact blocks)
  intact_stream [] = refl
  intact_stream (block ∷ blocks) = rw (intact_stream blocks)

  intact_contents :
      (blocks : List Block)
      → map (λ (s : Reception R). s.block.content) (map intact blocks)
        ≡ map (λ (block : Block). block.content) blocks
  intact_contents [] = refl
  intact_contents (block ∷ blocks) = rw (intact_contents blocks)

  -- Under the laws of `raptorq`, for a block of a whole number of symbols, at most 56403: what
  -- `encode_stream` sends, `decode_stream` turns back into the contents of the blocks, in
  -- order: for any number of blocks of the configured size whose ids are bytes and change from each
  -- block to the next, and at most `2 ^ 24` symbols and repair packets of a block
  -- together, neither fails.
  pub decode_stream-encode_stream :
      (blocks : List Block)
      → All (λ (block : Block). block.id < 256) blocks
      → All (IsSized R b m r) blocks
      → Alternates none blocks
      → ((encode_stream R (encoder_for R b m r) blocks (record { queued = []; room = none })).0
          ≡ ok tt)
        × (decode_stream R
              (decoder_for R b m)
              (encode_stream R
                (encoder_for R b m r)
                blocks
                (record { queued = []; room = none })).1.queued
              (record { queued = []; room = none })
            ≡ (
              ok tt,
              record { queued = map (λ (block : Block). block.content) blocks; room = none },
            ))
  decode_stream-encode_stream blocks h sized ids =
      let sent = encode_stream_ok R b m r blocks [] none sized tt in
      let (all, source) = intact_blocks blocks h sized in
      (
        rw sent refl,
        rw
            (
              sent,
              intact_stream blocks,
              decode_stream_complete R laws b m u (map intact blocks) [] none all
                  (intact_ids blocks none ids) source tt,
            )
            (ap (λ (q : List (List ℕ)). (ok tt, record { queued = q; room = none }))
              (intact_contents blocks)),
      )
