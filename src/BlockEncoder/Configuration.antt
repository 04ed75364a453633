-- ===== src/BlockEncoder/Configuration.antt =====
-- What `BlockEncoder::new` and `compute_repair_packets_per_block` accept.
use garuda_codec.Base.{ℕ, ◌+◌, ◌*◌, ◌/◌, ◌%◌, ◌^◌, ◌<◌, ◌≤◌, ◌≡◌, ◌≢◌, ◌↔◌, arith, ok, err}
use garuda_codec.RaptorQ.{RaptorQ}
use garuda_codec.BlockEncoder.{BlockEncoder, invalid_configuration, get_configuration, new}
use garuda_codec.BlockEncoder.{
  configuration_message, invalid_block_size, compute_repair_packets_per_block,
}

product_fits : (k f : ℕ) → k < 2 ^ 16 → f ≤ 65536 → k * f < 2 ^ 32
product_fits k f h g = grind arith

-- Rounding up as `div_ceil(100)` does.
div_ceil : (x : ℕ) → (x ≤ 100 * ((x + 99) / 100)) × (100 * ((x + 99) / 100) < x + 100)
div_ceil x = omega arith

module _ (R : RaptorQ) where
  -- The symbol size that the configuration for a block gives.
  abbrev pub symbol_len : ℕ → ℕ → ℕ
  symbol_len block_size max_packet_size = R.symbol_size (R.with_defaults block_size max_packet_size)

  -- The encoder that `new` is to return.
  abbrev pub encoder_for : ℕ → ℕ → ℕ → BlockEncoder R
  encoder_for b m r = record {
    block_size = b;
    repair_packets_per_block = r;
    config = R.with_defaults b m;
    encoding_plan = R.generate (b / symbol_len b m);
  }

  -- `new` succeeds exactly if symbols are not empty, the block is a whole number of symbols, and
  -- that number fits 16 bits; it then returns the encoder for these parameters.
  pub new-eq-ok :
      (b m r : ℕ) (self : BlockEncoder R)
      → (new R b m r ≡ ok self) ↔ (
          (0 < symbol_len b m)
          × (b % symbol_len b m ≡ 0)
          × (b / symbol_len b m < 2 ^ 16)
          × (self ≡ encoder_for b m r))
  unfolding new get_configuration
  new-eq-ok b m r self = (λ h. ground arith, λ h. ground arith)

  -- A block that is no whole number of symbols is refused with a message that names both sizes.
  pub new_refuses :
      (b m r : ℕ)
      → b % symbol_len b m ≢ 0
      → new R b m r
        ≡ err
            (invalid_configuration (configuration_message (invalid_block_size b (symbol_len b m))))
  unfolding new get_configuration
  new_refuses b m r h = ground arith

  -- For a block that `new` accepts and a redundancy factor of at most 65536 percent the product
  -- does not wrap: the result is the least number of packets that is at least that percentage of
  -- the block's symbols.
  pub repair_packets_ceil :
      (b m r factor : ℕ) (self : BlockEncoder R)
      → new R b m r ≡ ok self
      → factor ≤ 65536
      → (n : ℕ) × (compute_repair_packets_per_block R b m factor ≡ ok n)
        × (b / symbol_len b m * factor ≤ 100 * n)
        × (100 * n < b / symbol_len b m * factor + 100)
  unfolding compute_repair_packets_per_block get_configuration
  repair_packets_ceil b m r factor self made h =
      let v = (new-eq-ok b m r self).0 made in
      let k : ℕ = b / symbol_len b m in
      let p = product_fits k factor v.2 h in
      let (lo, hi) = div_ceil (k * factor) in ((k * factor + 99) / 100, ground arith, lo, hi)
