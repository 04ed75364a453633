-- ===== src/Decoder/Tests.antt =====
-- Two workers, on packets of six bytes.
use garuda_codec.Base.{◌≡◌, refl, true, false, [], ◌∷◌, none, some, ok, err}
use garuda_codec.RaptorQ.{RaptorQ}
use garuda_codec.RaptorQ.Sample.{copies, copies-IsLawful}
use garuda_codec.BlockDecoder.{infer_packet_size, invalid_configuration}
use garuda_codec.BlockDecoder.Recovery.{decoder_for}
use garuda_codec.BlockEncoder as BlockEncoding
use garuda_codec.BlockEncoder.Sample.{copies-IsUsable}
use garuda_codec.Decoder.{Decoder, Job, start_decoding, forwarding, decoding, dispatching}
use garuda_codec.Decoder.Lifecycle.{start_decoding_ok}

-- A decoder whose first flag, at place 0, was raised by `stop` before the start.
abbrev idle : Decoder copies
idle = record {
  block_size = 2;
  num_block_decoders = 2;
  max_packet_size = 1;
  packet_dispatcher = none;
  packet_dispatcher_should_stop = 0;
  block_decoders = [];
  block_forwarder = none;
}

abbrev dispatcher : Job copies
dispatcher = dispatching (record { packet_size = 6 }) 1

start_decoding_ok_example : start_decoding copies idle (true ∷ []) ≡ (
  ok tt,
  record idle {
    block_forwarder = some forwarding;
    block_decoders = decoding (decoder_for copies 2 1) ∷ decoding (decoder_for copies 2 1) ∷ [];
    packet_dispatcher_should_stop = 1;
    packet_dispatcher = some dispatcher;
  },
  true ∷ false ∷ [],
)
start_decoding_ok_example =
    start_decoding_ok copies copies-IsLawful idle (true ∷ []) copies-IsUsable

-- Symbols of one byte, and a block of more of them than 16 bits count.
abbrev units : RaptorQ
units = record copies { symbol_size = λ config. 1 }

abbrev units_idle : Decoder units
units_idle = record {
  block_size = 65536;
  num_block_decoders = 1;
  max_packet_size = 1;
  packet_dispatcher = none;
  packet_dispatcher_should_stop = 0;
  block_decoders = [];
  block_forwarder = none;
}

units_unsized :
    infer_packet_size units 65536 1
    ≡ err (invalid_configuration "Cannot safely cast symbol_count to u16")
unfolding infer_packet_size BlockEncoding.new BlockEncoding.get_configuration BlockEncoding.message
units_unsized = refl
