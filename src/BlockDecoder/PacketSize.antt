-- ===== src/BlockDecoder/PacketSize.antt =====
-- `infer_packet_size`: the size in which the decoder reads is the size in which the encoder writes.
use garuda_codec.Base.{◌≤◌}
use garuda_codec.RaptorQ.{symbol_id_bits}
use garuda_codec.Base.{◌/◌}
use garuda_codec.Base.{
  ℕ, zero, ◌+◌, ◌^◌, ◌<◌, ◌≡◌, ◌≢◌, refl, arith, List, [], ◌∷◌, All, length, replicate,
}
use garuda_codec.Base.{ok, length-replicate, All-weaken}
use garuda_codec.RaptorQ.{RaptorQ, IsLawful, IsPacketOf, payload_id_len}
use garuda_codec.BlockEncoder.{Block, encode}
use garuda_codec.BlockEncoder as Encoding
use garuda_codec.BlockEncoder.Configuration.{symbol_len, new-eq-ok, encoder_for}
use garuda_codec.BlockEncoder.Encode.{
  IsUsable, block-IsBlock, source_encoder, packets_of, encode_sized,
}
use garuda_codec.BlockEncoder.Encode.{packets-IsPacketOf, length-packets}
use garuda_codec.BlockDecoder.{infer_packet_size}

nonempty : {A : Type 0} (ps : List A) (k : ℕ) → length ps ≡ k + 1 → ps ≢ []
nonempty [] k e f = omega arith
nonempty (p ∷ ps) k e f = cc

module _ (R : RaptorQ) (laws : IsLawful R) (b m : ℕ) (u : IsUsable R b m) where
  -- Every packet that an encoder for these sizes makes is serialised to the payload id and one
  -- symbol.
  pub packets_size :
      (r : ℕ) (block : Block)
      → b / symbol_len R b m + r ≤ 2 ^ symbol_id_bits
      → block.id < 256
      → length block.content ≡ b
      → All
          (λ p. length (R.serialize p) ≡ payload_id_len + symbol_len R b m)
          (packets_of R b m r block)
  packets_size r block r_fits id_fits sized =
      All-weaken (IsPacketOf R (source_encoder R b m r block)) _
        (λ p h.
          laws.length-serialize block.id _ _ block.content p
            (block-IsBlock R b m block u id_fits sized) h)
        _ (packets-IsPacketOf R laws b m r u r_fits block id_fits sized)

  pub encoder_new : (r : ℕ) → Encoding.new R b m r ≡ ok (encoder_for R b m r)
  encoder_new r =
      (new-eq-ok R b m r (encoder_for R b m r)).1
        (u.symbols, u.multiple, omega (arith, u.count), refl)

  abbrev dummy : Block
  dummy = record { id = 1; content = replicate b 0 }

  first_size :
      (ps : List R.Packet) (n : ℕ)
      → ps ≢ []
      → All (λ p. length (R.serialize p) ≡ n) ps
      → (p : R.Packet) × (rest : List R.Packet) × (ps ≡ p ∷ rest) × (length (R.serialize p) ≡ n)
  first_size [] n some h = absurd (some refl)
  first_size (p ∷ ps) n some h = (p, ps, refl, h.0)

  -- Under the laws of `raptorq`, for a block of a whole number of symbols, at most 56403: the size
  -- that the decoder infers from a dummy block is that of every packet of every block.
  pub infer_packet_size_lem : infer_packet_size R b m ≡ ok (payload_id_len + symbol_len R b m)
  unfolding infer_packet_size
  infer_packet_size_lem =
      let sized = length-replicate b (zero) in
      let count =
        length-packets R laws b m 1 u (omega (arith, u.count)) dummy (omega arith) sized in
      let (p, rest, e, size) =
        first_size (packets_of R b m 1 dummy) _ (λ f. nonempty _ _ count f)
          (packets_size 1 dummy (omega arith) (omega arith) sized) in
      rw (encoder_new 1, encode_sized R b m 1 dummy sized, e, size)
