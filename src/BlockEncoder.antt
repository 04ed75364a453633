-- ===== src/BlockEncoder.antt =====
-- garuda-codec-core/src/block_encoder.rs: one block into its packets.
pub mod Configuration
pub mod Encode
pub mod Stream
pub mod Sample
mod Tests
use garuda_codec.Base.{ℕ, zero, suc, ◌+◌, ◌*◌, ◌/◌, ◌%◌, ◌^◌, ltb, ◌==◌, if◌then◌else◌, not, ◌<◌}
use garuda_codec.Base.{List, [], ◌∷◌, length, Outcome, ok, err, panic, out_of_fuel, ◌>>=◌, map_err}
use garuda_codec.Channel.{Sender, SendError, send_error, send_all}
use garuda_codec.Decimal.{decimal}
use garuda_codec.RaptorQ.{RaptorQ}
use garuda_codec.Vector.{interleave}
use Prim.Native.String.{String, ◌++◌ as ◌<>◌}

-- `content` is the field `data`.
pub record Block : Type 0 where
  pub id : ℕ
  pub content : List ℕ

-- `Clone for Block`
pub clone : Block → Block
clone b = record { id = b.id; content = b.content }

pub data ConfigurationError : Type 0 where
  invalid_block_size : ℕ → ℕ → ConfigurationError

-- `Display for ConfigurationError`
unfoldable pub configuration_message : ConfigurationError → String
unfolding decimal
configuration_message (invalid_block_size block_size symbol_size) =
    "Block size "
    <> (decimal block_size <> (" is not a multiple of symbol size " <> decimal symbol_size))

module _ (R : RaptorQ) where
  pub data BlockEncoderError : Type 0 where
    unexpected_block_size : BlockEncoderError
    invalid_configuration : String → BlockEncoderError
    send_failed : SendError R.Packet → BlockEncoderError

  -- `Display for BlockEncoderError`
  unfoldable pub message : BlockEncoderError → String
  message unexpected_block_size = "Block size does not match encoder configuration"
  message (invalid_configuration s) = s
  message (send_failed e) = "sending on a closed channel"

  -- `From<ConfigurationError>` and `From<mpsc::SendError<EncodingPacket>>`
  pub from_configuration_error : ConfigurationError → BlockEncoderError
  from_configuration_error e = invalid_configuration (configuration_message e)

  pub from_send_error : SendError R.Packet → BlockEncoderError
  from_send_error e = send_failed e

  -- `usize::is_multiple_of` holds of the divisor 0 at 0 alone, as does `n % 0` for `n`.
  unfoldable pub get_configuration : ℕ → ℕ → Outcome ConfigurationError R.Config
  get_configuration block_size max_packet_size =
      let config = R.with_defaults block_size max_packet_size in
      let symbol_size = R.symbol_size config in
      if not (block_size % symbol_size == 0)
      then err (invalid_block_size block_size symbol_size)
      else ok config

  pub record BlockEncoder : Type 0 where
    pub block_size : ℕ
    pub repair_packets_per_block : ℕ
    pub config : R.Config
    pub encoding_plan : R.Plan

  -- A division by zero panics.
  pub checked_div : ℕ → ℕ → Outcome BlockEncoderError ℕ
  checked_div a b = if b == 0 then panic else ok (a / b)

  -- `u16::try_from`
  pub to_u16 : ℕ → Outcome BlockEncoderError ℕ
  to_u16 n =
      if ltb n (2 ^ 16)
      then ok n
      else err (invalid_configuration "Cannot safely cast symbol_count to u16")

  -- `BlockEncoder::new`
  unfoldable pub new : ℕ → ℕ → ℕ → Outcome BlockEncoderError BlockEncoder
  unfolding checked_div to_u16 from_configuration_error
  new block_size max_packet_size repair_packets_per_block = do
    config ← map_err from_configuration_error (get_configuration block_size max_packet_size)
    quotient ← checked_div block_size (R.symbol_size config)
    symbol_count ← to_u16 quotient
    ok (record {
      block_size = block_size;
      repair_packets_per_block = repair_packets_per_block;
      config = config;
      encoding_plan = R.generate symbol_count;
    })

  -- `BlockEncoder::encode`; the iterator is the list of what it yields.
  unfoldable pub encode : BlockEncoder → Block → Outcome BlockEncoderError (List R.Packet)
  encode self block =
      if not (length block.content == self.block_size)
      then err unexpected_block_size
      else (let block_encoder =
            R.with_encoding_plan block.id self.config block.content self.encoding_plan in
          ok (
            interleave (R.source_packets block_encoder)
              (R.repair_packets block_encoder 0 self.repair_packets_per_block)))

  -- The inner loop of `encode_stream`.
  unfoldable pub send_packets :
      List R.Packet → Sender R.Packet → Outcome BlockEncoderError (Unit {0}) × Sender R.Packet
  unfolding from_send_error
  send_packets packets output =
      let (sent, output') = send_all packets output in (map_err from_send_error sent, output')

  -- `BlockEncoder::encode_stream`
  unfoldable pub encode_stream :
      BlockEncoder
      → List Block
      → Sender R.Packet
      → Outcome BlockEncoderError (Unit {0}) × Sender R.Packet
  unfolding send_packets
  encode_stream self [] output = (ok tt, output)
  encode_stream self (block ∷ input) output = elim (encode self block) [
    | ok packets ↦
        (let (sent, output') = send_packets packets output in
          let rest = encode_stream self input output' in
          elim sent [ ok _ ↦ rest | other ↦ (other, output') ])
    | err e ↦ (err e, output)
    | panic ↦ (panic, output)
    | out_of_fuel ↦ (out_of_fuel, output)
  ]

  -- The errors that `compute_repair_packets_per_block` boxes.
  pub data RepairError : Type 0 where
    configuration : ConfigurationError → RepairError
    try_from_int : RepairError

  -- The quotient, converted by `u32::try_from`.
  pub num_source_symbols : ℕ → ℕ → Outcome RepairError ℕ
  num_source_symbols block_size symbol_size =
      if symbol_size == 0
      then panic
      else if ltb (block_size / symbol_size) (2 ^ 32)
      then ok (block_size / symbol_size)
      else err try_from_int

  -- `compute_repair_packets_per_block`; the product wraps at 32 bits, as in the release profile.
  unfoldable pub compute_repair_packets_per_block : ℕ → ℕ → ℕ → Outcome RepairError ℕ
  unfolding num_source_symbols
  compute_repair_packets_per_block block_size max_packet_size redundancy_factor = do
    config ← map_err configuration (get_configuration block_size max_packet_size)
    symbols ← num_source_symbols block_size (R.symbol_size config)
    ok ((symbols * redundancy_factor % 2 ^ 32 + 99) / 100)
