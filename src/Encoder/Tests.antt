-- ===== src/Encoder/Tests.antt =====
-- Two workers, and the random number 9.
use garuda_codec.Base.{◌≡◌, true, false, [], ◌∷◌, none, some, ok}
use garuda_codec.RaptorQ.Sample.{copies}
use garuda_codec.BlockEncoder.Configuration.{encoder_for}
use garuda_codec.BlockEncoder.Sample.{copies-new}
use garuda_codec.Encoder.{Encoder, Job, start_encoding, forwarding, encoding, dispatching}
use garuda_codec.Encoder.Lifecycle.{start_encoding_ok}

-- An encoder whose first flag, at place 0, was raised by `stop` before the start.
abbrev idle : Encoder copies
idle = record {
  block_size = 2;
  max_packet_size = 1;
  repair_packets_per_block = 1;
  num_block_encoders = 2;
  block_dispatcher = none;
  block_dispatcher_should_stop = 0;
  block_encoders = [];
  packet_forwarder = none;
}

abbrev dispatcher : Job copies
dispatcher = dispatching (record { block_size = 2; current_block_id = 9 }) 1

start_encoding_ok_example : start_encoding copies (ok 9) idle (true ∷ []) ≡ (
  ok tt,
  record idle {
    packet_forwarder = some forwarding;
    block_encoders = encoding (encoder_for copies 2 1 1) ∷ encoding (encoder_for copies 2 1 1) ∷ [];
    block_dispatcher_should_stop = 1;
    block_dispatcher = some dispatcher;
  },
  true ∷ false ∷ [],
)
start_encoding_ok_example =
    start_encoding_ok copies idle (encoder_for copies 2 1 1) 9 (true ∷ []) copies-new
