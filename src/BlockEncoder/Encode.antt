-- ===== src/BlockEncoder/Encode.antt =====
-- The packets of a block, and the stream of blocks.
use garuda_codec.Base.{ℕ, ◌+◌, ◌*◌, ◌/◌, ◌%◌, ◌^◌, ◌<◌, ◌≤◌, ◌≡◌, ap, ◌∙◌, arith, min, ok, err}
use garuda_codec.Base.{List, reverse, length, All, inl, inr, ==_iff}
use garuda_codec.Base.{◌≢◌, length-reverse, All-reverse, All-of_mem, All-weaken, sym}
use garuda_codec.RaptorQ.{
  RaptorQ, IsLawful, IsBlock, IsPacketOf, encoder_of, max_source_symbols, symbol_id_bits,
}
use garuda_codec.Vector.{interleave}
use garuda_codec.Vector.Spread.{Interleaving, Interleaving-length, All-Interleaving}
use garuda_codec.Vector.Interleave.{interleave-Interleaving}
use garuda_codec.BlockEncoder.{Block, unexpected_block_size}
use garuda_codec.BlockEncoder.{encode}
use garuda_codec.BlockEncoder.Configuration.{encoder_for, symbol_len}
use native.Mathlib.Nat.{div-add-mod', mul-le-mul, le_refl}

whole_symbols : (b s : ℕ) → 0 < b → b % s ≡ 0 → (0 < b / s) × (b ≡ b / s * s)
whole_symbols b s p h = grind (arith, div-add-mod' b s)

product_fits :
    (k r : ℕ) → k ≤ max_source_symbols → k + r ≤ 2 ^ symbol_id_bits → min k r * (k + r) < 2 ^ 64
product_fits k r h g =
    let small : min k r ≤ max_source_symbols = omega arith in
    omega (arith, mul-le-mul small (le_refl (k + r)))

module _ (R : RaptorQ) where
  -- The sizes under which the laws of `raptorq` hold: some symbol, and no more than RFC 6330 has.
  pub record IsUsable (b m : ℕ) : Type 0 where
    pub nonempty : 0 < b
    pub symbols : 0 < symbol_len R b m
    pub multiple : b % symbol_len R b m ≡ 0
    pub count : b / symbol_len R b m ≤ max_source_symbols

  pub block-IsBlock :
      (b m : ℕ) (block : Block)
      → IsUsable b m
      → block.id < 256
      → length block.content ≡ b
      → IsBlock R block.id (R.with_defaults b m) block.content (b / symbol_len R b m)
  block-IsBlock b m block u h e = record {
    max_packet_size = m;
    configured = ap (λ (n : ℕ). R.with_defaults n m) (sym e);
    id_fits = h;
    some_symbol = (whole_symbols b _ u.nonempty u.multiple).0;
    k_fits = u.count;
    whole = e ∙ (whole_symbols b _ u.nonempty u.multiple).1;
  }

  -- The packets that the encoder for `b`, `m` and `r` makes of a block.
  module _ (b m r : ℕ) where
    abbrev pub source_encoder : Block → R.SourceEncoder
    source_encoder block =
        encoder_of R block.id (R.with_defaults b m) block.content (b / symbol_len R b m)

    abbrev pub packets_of : Block → List R.Packet
    packets_of block =
        interleave (R.source_packets (source_encoder block))
          (R.repair_packets (source_encoder block) 0 r)

    pub encode_sized :
        (block : Block)
        → length block.content ≡ b
        → encode R (encoder_for R b m r) block ≡ ok (packets_of block)
    unfolding encode
    encode_sized block e = ground (arith, ==_iff (length block.content) b)

    pub encode_unsized :
        (block : Block)
        → length block.content ≢ b
        → encode R (encoder_for R b m r) block ≡ err unexpected_block_size
    unfolding encode
    encode_unsized block e = ground (arith, ==_iff (length block.content) b)

  -- Under the laws of `raptorq`.
  module _ (laws : IsLawful R) (b m r : ℕ) (u : IsUsable b m)
      (r_fits : b / symbol_len R b m + r ≤ 2 ^ symbol_id_bits) (block : Block)
      (id_fits : block.id < 256) (sized : length block.content ≡ b) where
    valid : IsBlock R block.id (R.with_defaults b m) block.content (b / symbol_len R b m)
    valid = block-IsBlock b m block u id_fits sized

    pub packets_order :
        Interleaving
          (reverse (R.source_packets (source_encoder b m r block)))
          (reverse (R.repair_packets (source_encoder b m r block) 0 r))
          (packets_of b m r block)
    packets_order =
        let e = source_encoder b m r block in
        let src = laws.length-source_packets block.id _ _ block.content valid in
        let rep = laws.length-repair_packets block.id _ _ block.content r valid r_fits in
        interleave-Interleaving (R.source_packets e) (R.repair_packets e 0 r)
          (rw (src, rep) (product_fits _ r u.count r_fits))

    pub length-packets : length (packets_of b m r block) ≡ b / symbol_len R b m + r
    length-packets =
        let e = source_encoder b m r block in
        omega (
          arith,
          laws.length-source_packets block.id _ _ block.content valid,
          laws.length-repair_packets block.id _ _ block.content r valid r_fits,
          length-reverse (R.source_packets e),
          length-reverse (R.repair_packets e 0 r),
          Interleaving-length packets_order,
        )

    pub packets-IsPacketOf :
        All (IsPacketOf R (source_encoder b m r block)) (packets_of b m r block)
    packets-IsPacketOf =
        let e = source_encoder b m r block in
        All-Interleaving (IsPacketOf R e) packets_order
          (All-reverse _ _ (All-of_mem (IsPacketOf R e) _ (λ p h. inl h)))
          (All-reverse _ _ (All-of_mem (IsPacketOf R e) _ (λ p h. inr (r, h))))

    -- Under the laws of `raptorq`, for a whole number of symbols, at most 56403, an id below 256
    -- and at most `2 ^ 24` symbols and repair packets together: a block of the configured size is
    -- encoded; the packets are the encoder's source packets and `r` repair packets, each kind from
    -- the last to the first; there is one for each symbol besides the repair packets, and each
    -- carries the id of the block.
    pub encode_block :
        (packets : List R.Packet) × (encode R (encoder_for R b m r) block ≡ ok packets)
        × Interleaving
            (reverse (R.source_packets (source_encoder b m r block)))
            (reverse (R.repair_packets (source_encoder b m r block) 0 r))
            packets
        × (length packets ≡ b / symbol_len R b m + r)
        × All (λ p. R.source_block_number p ≡ block.id) packets
    encode_block = (
      packets_of b m r block,
      encode_sized b m r block sized,
      packets_order,
      length-packets,
      All-weaken (IsPacketOf R (source_encoder b m r block)) _
          (λ p h. laws.block_number block.id _ _ block.content p valid h) _ packets-IsPacketOf,
    )
