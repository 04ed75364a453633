-- ===== src/Encoder.antt =====
-- garuda-codec-core/src/encoder.rs, `Encoder`: the threads, their start, stop and end.
pub mod Lifecycle
pub mod Threads
mod Tests
use garuda_codec.Base.{
  ℕ, zero, suc, ◌<◌, Bool, List, [], ◌∷◌, ◌++◌, Option, none, some, Outcome, ok, err, panic,
  out_of_fuel,
}
use garuda_codec.RaptorQ.{RaptorQ}
use garuda_codec.BlockEncoder.{BlockEncoder, BlockEncoderError}
use garuda_codec.BlockEncoder as BlockEncoding
use garuda_codec.BlockDispatcher.{BlockDispatcher, BlockDispatcherError}
use garuda_codec.BlockDispatcher as BlockDispatching
use garuda_codec.Io.{ErrorKind}
use garuda_codec.Threads.{Flags, allocate, raise, join, join_all}
use Prim.Native.String.{String}

module _ (R : RaptorQ) where
  pub data EncoderError : Type 0 where
    block_encoder : BlockEncoderError R → EncoderError
    block_dispatcher_failed : BlockDispatcherError → EncoderError
    io : ErrorKind → EncoderError
    invalid_state : String → EncoderError

  -- What a spawned thread runs: `forward_packets`, `encode_stream`, or `dispatch` with the flag
  -- `should_stop` of the dispatcher.
  pub data Job : Type 0 where
    forwarding : Job
    encoding : BlockEncoder R → Job
    dispatching : BlockDispatcher → ℕ → Job

  pub record Encoder : Type 0 where
    pub block_size : ℕ
    pub max_packet_size : ℕ
    pub repair_packets_per_block : ℕ
    pub num_block_encoders : ℕ
    pub block_dispatcher : Option Job
    pub block_dispatcher_should_stop : ℕ
    pub block_encoders : List Job
    pub packet_forwarder : Option Job

  -- `Encoder::new`
  unfoldable pub new : ℕ → ℕ → ℕ → ℕ → Flags → Encoder × Flags
  new block_size max_packet_size repair_packets_per_block num_block_encoders flags =
      let (flag, flags') = allocate flags in
      (
        record {
          block_size = block_size;
          max_packet_size = max_packet_size;
          repair_packets_per_block = repair_packets_per_block;
          num_block_encoders = num_block_encoders;
          block_dispatcher = none;
          block_dispatcher_should_stop = flag;
          block_encoders = [];
          packet_forwarder = none;
        },
        flags',
      )

  -- The `for` loop of `start_encoding`, with the rounds it has left.
  pub start_block_encoders : ℕ → Encoder → Outcome EncoderError (Unit {0}) × Encoder
  start_block_encoders zero self = (ok tt, self)
  start_block_encoders (suc n) self =
      elim (BlockEncoding.new R self.block_size self.max_packet_size
        self.repair_packets_per_block) [
          | ok encoder ↦
              start_block_encoders n
                (record self { block_encoders = self.block_encoders ++ (encoding encoder ∷ []) })
          | err e ↦ (err (block_encoder e), self)
          | panic ↦ (panic, self)
          | out_of_fuel ↦ (out_of_fuel, self)
        ]

  -- The end of `start_encoding`: the block dispatcher, with a flag of its own.
  pub start_block_dispatcher :
      Outcome ErrorKind ℕ → Encoder → Flags → Outcome EncoderError (Unit {0}) × Encoder × Flags
  start_block_dispatcher random self flags = elim (BlockDispatching.new self.block_size random) [
    | ok dispatcher ↦
        (let (flag, flags') = allocate flags in
          (
            ok tt,
            record self {
              block_dispatcher_should_stop = flag;
              block_dispatcher = some (dispatching dispatcher flag);
            },
            flags',
          ))
    | err e ↦ (err (block_dispatcher_failed e), self, flags)
    | panic ↦ (panic, self, flags)
    | out_of_fuel ↦ (out_of_fuel, self, flags)
  ]

  -- `Encoder::start_encoding`; `random` is what `get_random_u8` returns.
  unfoldable pub start_encoding :
      Outcome ErrorKind ℕ → Encoder → Flags → Outcome EncoderError (Unit {0}) × Encoder × Flags
  unfolding start_block_encoders start_block_dispatcher
  start_encoding random self flags =
      let forwarded : Encoder = record self { packet_forwarder = some forwarding } in
      let (started, self') = start_block_encoders self.num_block_encoders forwarded in
      elim started [
        | ok _ ↦ start_block_dispatcher random self' flags
        | other ↦ (other, self', flags)
      ]

  -- `Encoder::stop`
  unfoldable pub stop : Encoder → Flags → Flags
  stop self flags = raise self.block_dispatcher_should_stop flags

  -- `Encoder::wait`. A handle that was taken is gone, whatever happens after it.
  unfoldable pub wait : (Job → Bool) → Encoder → Outcome EncoderError (Unit {0}) × Encoder
  wait ends self = elim self.block_dispatcher [
    | none ↦ (err (invalid_state "Block dispatcher not initialized"), self)
    | some dispatcher ↦
        (let without : Encoder = record self { block_dispatcher = none } in
          elim self.packet_forwarder [
            | none ↦ (err (invalid_state "Packet forwarder not initialized"), without)
            | some forwarder ↦
                (let taken : Encoder = record without { packet_forwarder = none } in
                  let drained : Encoder = record taken { block_encoders = [] } in
                  elim (join ends {E = EncoderError} dispatcher) [
                    | ok _ ↦ elim (join_all ends {E = EncoderError} self.block_encoders) [
                      | ok _ ↦ (join ends forwarder, drained)
                      | other ↦ (other, drained)
                    ]
                    | other ↦ (other, taken)
                  ])
          ])
  ]
