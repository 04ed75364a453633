-- ===== src/CommandLine/Main/Defaults.antt =====
-- The default values of the options fit each other and the code.
use garuda_codec.Base.{ℕ, ◌-◌, ◌%◌, ◌<◌, ◌≤◌, ◌≡◌, refl, arith, List, Option, none, ok}
use garuda_codec.BlockEncoder.{compute_repair_packets_per_block, get_configuration}
use garuda_codec.BlockEncoder.Configuration.{symbol_len}
use garuda_codec.BlockEncoder.Encode.{IsUsable}
use garuda_codec.CommandLine.Main.{codec_args, encoder_args, send_args, receive_args}
use garuda_codec.Files.{FilePath}
use garuda_codec.Header.{datagram_header_len}
use garuda_codec.RaptorQ.{RaptorQ}

-- `with_defaults` takes the largest multiple of the alignment, 8 bytes, that is no larger than a
-- packet for the size of a symbol.
abbrev pub IsAligned : RaptorQ → Type 0
IsAligned R =
    (len max_packet_size : ℕ)
    → 8 ≤ max_packet_size
    → R.symbol_size (R.with_defaults len max_packet_size) ≡ max_packet_size - max_packet_size % 8

module _ (R : RaptorQ) where
  -- If `raptorq` aligns symbols to 8 bytes: with the options for sizes and redundancy left out,
  -- whatever the addresses and the number of workers, a block is a whole number of symbols that the
  -- code can take, `compute_repair_packets_per_block` gives 58 packets for each block, and all four
  -- commands have the same block size, which has room for a header and a payload.
  pub defaults_fit :
      IsAligned R
      → (input output address : List ℕ) (workers : Option ℕ) (file_path directory : FilePath)
      → let args = encoder_args (codec_args input output none none workers) none in
        let a = args.codec_args in
        IsUsable R a.block_size a.max_packet_size
        × (compute_repair_packets_per_block R a.block_size a.max_packet_size args.redundancy
            ≡ ok 58)
        × ((send_args file_path address none).block_size ≡ a.block_size)
        × ((receive_args directory address none).block_size ≡ a.block_size)
        × (datagram_header_len < a.block_size)
  unfolding get_configuration codec_args encoder_args send_args receive_args
      compute_repair_packets_per_block
  defaults_fit aligned input output address workers file_path directory =
      let size : symbol_len R 287232 1500 ≡ 1496 = aligned 287232 1500 (omega arith) in
      (
        record {
          nonempty = omega arith;
          symbols = rw size (omega arith);
          multiple = rw size refl;
          count = rw size (omega arith);
        },
        rw (compute_repair_packets_per_block, get_configuration, size) (rw size refl),
        refl,
        refl,
        omega arith,
      )
