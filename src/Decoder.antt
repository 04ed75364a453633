-- ===== src/Decoder.antt =====
-- garuda-codec-core/src/decoder.rs, `Decoder`: the threads, their start, stop and end.
pub mod Lifecycle
pub mod Threads
mod Tests
use garuda_codec.Base.{
  ℕ, zero, suc, Bool, List, [], ◌∷◌, ◌++◌, Option, none, some, Outcome, ok, err, panic, out_of_fuel,
}
use garuda_codec.RaptorQ.{RaptorQ}
use garuda_codec.BlockDecoder.{BlockDecoder, BlockDecoderError, infer_packet_size}
use garuda_codec.BlockDecoder as BlockDecoding
use garuda_codec.PacketDispatcher.{PacketDispatcher}
use garuda_codec.PacketDispatcher as PacketDispatching
use garuda_codec.Threads.{Flags, allocate, raise, join, join_all}
use Prim.Native.String.{String}

pub data DecoderError : Type 0 where
  block_decoder : BlockDecoderError → DecoderError
  invalid_state : String → DecoderError

module _ (R : RaptorQ) where
  -- What a spawned thread runs: `forward_blocks`, `decode_stream`, or `dispatch` with the flag
  -- `should_stop` of the dispatcher.
  pub data Job : Type 0 where
    forwarding : Job
    decoding : BlockDecoder R → Job
    dispatching : PacketDispatcher → ℕ → Job

  pub record Decoder : Type 0 where
    pub block_size : ℕ
    pub num_block_decoders : ℕ
    pub max_packet_size : ℕ
    pub packet_dispatcher : Option Job
    pub packet_dispatcher_should_stop : ℕ
    pub block_decoders : List Job
    pub block_forwarder : Option Job

  -- `Decoder::new`
  unfoldable pub new : ℕ → ℕ → ℕ → Flags → Decoder × Flags
  new block_size num_block_decoders max_packet_size flags =
      let (flag, flags') = allocate flags in
      (
        record {
          block_size = block_size;
          num_block_decoders = num_block_decoders;
          max_packet_size = max_packet_size;
          packet_dispatcher = none;
          packet_dispatcher_should_stop = flag;
          block_decoders = [];
          block_forwarder = none;
        },
        flags',
      )

  -- The `for` loop of `start_decoding`, with the rounds it has left.
  pub start_block_decoders : ℕ → Decoder → Outcome DecoderError (Unit {0}) × Decoder
  start_block_decoders zero self = (ok tt, self)
  start_block_decoders (suc n) self =
      elim (BlockDecoding.new R self.block_size self.max_packet_size) [
        | ok decoder ↦
            start_block_decoders n
              (record self { block_decoders = self.block_decoders ++ (decoding decoder ∷ []) })
        | err e ↦ (err (block_decoder e), self)
        | panic ↦ (panic, self)
        | out_of_fuel ↦ (out_of_fuel, self)
      ]

  -- The end of `start_decoding`: the packet dispatcher, with a flag of its own.
  pub start_packet_dispatcher : Decoder → Flags → Outcome DecoderError (Unit {0}) × Decoder × Flags
  start_packet_dispatcher self flags =
      elim (infer_packet_size R self.block_size self.max_packet_size) [
        | ok packet_size ↦
            (let (flag, flags') = allocate flags in
              (
                ok tt,
                record self {
                  packet_dispatcher_should_stop = flag;
                  packet_dispatcher = some (dispatching (PacketDispatching.new packet_size) flag);
                },
                flags',
              ))
        | err e ↦ (err (block_decoder e), self, flags)
        | panic ↦ (panic, self, flags)
        | out_of_fuel ↦ (out_of_fuel, self, flags)
      ]

  -- `Decoder::start_decoding`
  unfoldable pub start_decoding :
      Decoder → Flags → Outcome DecoderError (Unit {0}) × Decoder × Flags
  unfolding start_block_decoders start_packet_dispatcher
  start_decoding self flags =
      let forwarded : Decoder = record self { block_forwarder = some forwarding } in
      let (started, self') = start_block_decoders self.num_block_decoders forwarded in
      elim started [ ok _ ↦ start_packet_dispatcher self' flags | other ↦ (other, self', flags) ]

  -- `Decoder::stop`
  unfoldable pub stop : Decoder → Flags → Flags
  stop self flags = raise self.packet_dispatcher_should_stop flags

  -- `Decoder::wait`. A handle that was taken is gone, whatever happens after it.
  unfoldable pub wait : (Job → Bool) → Decoder → Outcome DecoderError (Unit {0}) × Decoder
  wait ends self = elim self.packet_dispatcher [
    | none ↦ (err (invalid_state "Packet dispatcher not initialized"), self)
    | some dispatcher ↦
        (let without : Decoder = record self { packet_dispatcher = none } in
          elim self.block_forwarder [
            | none ↦ (err (invalid_state "Block forwarder not initialized"), without)
            | some forwarder ↦
                (let taken : Decoder = record without { block_forwarder = none } in
                  let drained : Decoder = record taken { block_decoders = [] } in
                  elim (join ends {E = DecoderError} dispatcher) [
                    | ok _ ↦ elim (join_all ends {E = DecoderError} self.block_decoders) [
                      | ok _ ↦ (join ends forwarder, drained)
                      | other ↦ (other, drained)
                    ]
                    | other ↦ (other, taken)
                  ])
          ])
  ]
