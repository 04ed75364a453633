-- ===== src/BlockDecoder.antt =====
-- garuda-codec-core/src/block_decoder.rs: packets back into blocks.
pub mod Runs
pub mod Recovery
pub mod PacketSize
mod Tests
use garuda_codec.Base.{ℕ, ◌==◌, if◌then◌else◌, Bool, true, false, Option, none, some, List, [], ◌∷◌}
use garuda_codec.Base.{length, replicate, Outcome, ok, err, panic, out_of_fuel, ◌>>=◌, map_err}
use garuda_codec.Channel.{Sender, SendError, send}
use garuda_codec.RaptorQ.{RaptorQ}
use garuda_codec.BlockEncoder as Encoding
use garuda_codec.BlockEncoder.{ConfigurationError, configuration_message, BlockEncoderError}
use garuda_codec.BlockEncoder.{get_configuration}
use Prim.Native.String.{String}

pub data BlockDecoderError : Type 0 where
  invalid_configuration : String → BlockDecoderError
  send_failed : SendError (List ℕ) → BlockDecoderError

-- `Display for BlockDecoderError`
pub message : BlockDecoderError → String
message (invalid_configuration s) = s
message (send_failed e) = "sending on a closed channel"

-- `From<ConfigurationError>` and `From<mpsc::SendError<Vec<u8>>>`
pub from_configuration_error : ConfigurationError → BlockDecoderError
from_configuration_error e = invalid_configuration (configuration_message e)

pub from_send_error : SendError (List ℕ) → BlockDecoderError
from_send_error e = send_failed e

module _ (R : RaptorQ) where
  pub record BlockDecoder : Type 0 where
    pub block_size : ℕ
    pub config : R.Config
    pub current_block_id : Option ℕ
    pub current_decoder : R.SourceDecoder
    pub current_block_is_decoded : Bool

  -- `BlockDecoder::new`
  unfoldable pub new : ℕ → ℕ → Outcome BlockDecoderError BlockDecoder
  unfolding from_configuration_error
  new block_size max_packet_size = do
    config ← map_err from_configuration_error (get_configuration R block_size max_packet_size)
    ok (record {
      block_size = block_size;
      config = config;
      current_block_id = none;
      current_decoder = R.new_decoder 0 config block_size;
      current_block_is_decoded = false;
    })

  unfoldable pub reset_current_decoder : BlockDecoder → ℕ → BlockDecoder
  reset_current_decoder self block_id = record self {
    current_block_id = some block_id;
    current_block_is_decoded = false;
    current_decoder = R.new_decoder block_id self.config self.block_size;
  }

  unfoldable pub try_decode : BlockDecoder → R.Packet → BlockDecoder × Option (List ℕ)
  try_decode self packet =
      let (decoder, decoded) = R.decode_packets self.current_decoder (packet ∷ []) in
      elim decoded [
        | some block ↦
            (record self { current_decoder = decoder; current_block_is_decoded = true }, some block)
        | none ↦ (record self { current_decoder = decoder }, none)
      ]

  -- `BlockDecoder::decode`
  unfoldable pub decode : BlockDecoder → R.Packet → BlockDecoder × Option (List ℕ)
  unfolding reset_current_decoder try_decode
  decode self packet =
      let received_block_id = R.source_block_number packet in
      elim self.current_block_id [
        | some current_block_id ↦
            if received_block_id == current_block_id
            then (if self.current_block_is_decoded then (self, none) else try_decode self packet)
            else try_decode (reset_current_decoder self received_block_id) packet
        | none ↦ try_decode (reset_current_decoder self received_block_id) packet
      ]

  -- `BlockDecoder::decode_stream`
  unfoldable pub decode_stream :
      BlockDecoder
      → List R.Packet
      → Sender (List ℕ)
      → Outcome BlockDecoderError (Unit {0}) × Sender (List ℕ)
  unfolding from_send_error
  decode_stream self [] output = (ok tt, output)
  decode_stream self (packet ∷ input) output =
      let (self', decoded) = decode self packet in
      elim decoded [
        | none ↦ decode_stream self' input output
        | some decoded_block ↦
            (let (sent, output') = send decoded_block output in
              let rest = decode_stream self' input output' in
              elim sent [
                | ok _ ↦ rest
                | err e ↦ (err (from_send_error e), output')
                | panic ↦ (panic, output')
                | out_of_fuel ↦ (out_of_fuel, output')
              ])
      ]

  -- `e.to_string()`, as an `InvalidConfiguration`
  pub from_encoder_error : BlockEncoderError R → BlockDecoderError
  from_encoder_error e = invalid_configuration (Encoding.message R e)

  pub first_packet : List R.Packet → Outcome BlockDecoderError R.Packet
  first_packet [] = err (invalid_configuration "No packet was generated")
  first_packet (packet ∷ packets) = ok packet

  unfoldable pub infer_packet_size : ℕ → ℕ → Outcome BlockDecoderError ℕ
  unfolding from_encoder_error first_packet
  infer_packet_size block_size max_packet_size = do
    encoder ← map_err from_encoder_error (Encoding.new R block_size max_packet_size 1)
    let dummy_block : Encoding.Block = record { id = 1; content = replicate block_size 0 }
    packets ← map_err from_encoder_error (Encoding.encode R encoder dummy_block)
    packet ← first_packet packets
    ok (length (R.serialize packet))
