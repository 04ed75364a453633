-- ===== src/Messages.antt =====
-- The `Display` of the errors of encoder.rs, decoder.rs and protocol.rs. How the errors of the
-- standard library and of the `uuid` crate are shown is a parameter.
use garuda_codec.BlockDecoder as BlockDecoder
use garuda_codec.BlockDispatcher as BlockDispatcher
use garuda_codec.BlockDispatcher.{BlockDispatcherError}
use garuda_codec.BlockEncoder as BlockEncoder
use garuda_codec.Decoder as Decoder
use garuda_codec.Decoder.{DecoderError}
use garuda_codec.Encoder as Encoder
use garuda_codec.Encoder.{EncoderError}
use garuda_codec.Header.{
  DatagramHeaderDeserializationError, buffer_too_small, invalid_uuid, invalid_utf8,
}
use garuda_codec.Io.{ErrorKind}
use garuda_codec.PacketDispatcher as PacketDispatcher
use garuda_codec.PacketDispatcher.{PacketDispatcherError}
use garuda_codec.RaptorQ.{RaptorQ}
use Prim.Native.String.{String, ◌++◌ as ◌<>◌}

module _ (R : RaptorQ) (show_io : ErrorKind → String) where
  -- `Display for BlockDispatcherError`
  pub block_dispatcher_message : BlockDispatcherError → String
  block_dispatcher_message (BlockDispatcher.send_failed e) = "sending on a closed channel"
  block_dispatcher_message (BlockDispatcher.io kind) = show_io kind

  -- `Display for PacketDispatcherError`
  pub packet_dispatcher_message : PacketDispatcherError R → String
  packet_dispatcher_message (PacketDispatcher.send_failed e) = "sending on a closed channel"
  packet_dispatcher_message (PacketDispatcher.io kind) = show_io kind

  -- `Display for EncoderError`
  pub encoder_message : EncoderError R → String
  unfolding block_dispatcher_message
  encoder_message (Encoder.block_encoder e) = BlockEncoder.message R e
  encoder_message (Encoder.block_dispatcher_failed e) = block_dispatcher_message e
  encoder_message (Encoder.io kind) = show_io kind
  encoder_message (Encoder.invalid_state s) = s

  -- `Display for DecoderError`
  pub decoder_message : DecoderError → String
  decoder_message (Decoder.block_decoder e) = BlockDecoder.message e
  decoder_message (Decoder.invalid_state s) = s

-- `Display for DatagramHeaderDeserializationError`, with what the two inner errors show.
pub header_error_message : String → String → DatagramHeaderDeserializationError → String
header_error_message uuid_error utf8_error buffer_too_small = "buffer too small"
header_error_message uuid_error utf8_error invalid_uuid = "invalid UUID: " <> uuid_error
header_error_message uuid_error utf8_error invalid_utf8 =
    "file name contains invalid UTF-8: " <> utf8_error
