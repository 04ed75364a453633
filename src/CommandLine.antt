-- ===== src/CommandLine.antt =====
-- garuda-codec/src/main.rs: the loops of the encoder and of the decoder over incoming streams.
pub mod Serving
pub mod Main
mod Tests
use garuda_codec.Base.{
  ℕ, zero, suc, Bool, true, false, List, [], Option, none, some, Outcome, ok, err, panic,
  out_of_fuel, map_err,
}
use garuda_codec.BlockEncoder.{RepairError, compute_repair_packets_per_block}
use garuda_codec.Decoder as Decoder
use garuda_codec.Decoder.{DecoderError}
use garuda_codec.Encoder as Encoder
use garuda_codec.Encoder.{EncoderError}
use garuda_codec.Io.{ErrorKind, ReadEvent}
use garuda_codec.RaptorQ.{RaptorQ}
use garuda_codec.Socket.{Libc}
use garuda_codec.Streams.{
  Net, InputStream, OutputStream, Listener, listener_from_uri, output_from_uri, try_clone,
  next_stream, get_random_u8,
}
use garuda_codec.Threads.{Flags}

pub record CodecArgs : Type 0 where
  pub input : List ℕ
  pub output : List ℕ
  pub block_size : ℕ
  pub max_packet_size : ℕ
  pub workers : ℕ

pub record EncoderArgs : Type 0 where
  pub codec_args : CodecArgs
  pub redundancy : ℕ

module _ (R : RaptorQ) (L : Libc) (N : Net L) where
  -- The errors that are boxed.
  pub data MainError : Type 0 where
    repair : RepairError R → MainError
    io : ErrorKind → MainError
    encoder : EncoderError R → MainError
    decoder : DecoderError → MainError

  -- What happens beside the loops: what opening /dev/urandom gives, and what the threads of an
  -- encoder or a decoder do to the system until they end, with the jobs that end without a panic.
  pub record Outside : Type 0 where
    pub urandom : L.Os → Outcome ErrorKind (List ReadEvent)
    pub encoding :
        InputStream L N
        → OutputStream L N
        → Encoder.Encoder R
        → L.Os
        → (Encoder.Job R → Bool) × L.Os
    pub decoding :
        InputStream L N
        → OutputStream L N
        → Decoder.Decoder R
        → L.Os
        → (Decoder.Job R → Bool) × L.Os

  -- The flags of the process and the state of the system.
  abbrev pub World : Type 0
  World = Flags × L.Os

  module _ (W : Outside) where
    -- A round of `run_encoder`, once the streams are there.
    pub encode_incoming :
        Encoder.Encoder R
        → InputStream L N
        → OutputStream L N
        → World
        → Outcome MainError (Unit {0}) × World
    encode_incoming self input_stream output_stream world =
        let (started, self', flags') =
          Encoder.start_encoding R (get_random_u8 (W.urandom world.1)) self world.0 in
        let (ends, os') = W.encoding input_stream output_stream self' world.1 in
        elim started [
          | ok _ ↦ (map_err encoder (Encoder.wait R ends self').0, (flags', os'))
          | err e ↦ (err (encoder e), (flags', world.1))
          | panic ↦ (panic, (flags', world.1))
          | out_of_fuel ↦ (out_of_fuel, (flags', world.1))
        ]

    -- A round of `run_decoder`, once the streams are there.
    pub decode_incoming :
        Decoder.Decoder R
        → InputStream L N
        → OutputStream L N
        → World
        → Outcome MainError (Unit {0}) × World
    decode_incoming self input_stream output_stream world =
        let (started, self', flags') = Decoder.start_decoding R self world.0 in
        let (ends, os') = W.decoding input_stream output_stream self' world.1 in
        elim started [
          | ok _ ↦ (map_err decoder (Decoder.wait R ends self').0, (flags', os'))
          | err e ↦ (err (decoder e), (flags', world.1))
          | panic ↦ (panic, (flags', world.1))
          | out_of_fuel ↦ (out_of_fuel, (flags', world.1))
        ]

  -- The two streams of a round: `input_stream?` and `output_stream.try_clone()?`.
  pub with_streams :
      (InputStream L N → OutputStream L N → World → Outcome MainError (Unit {0}) × World)
      → Outcome ErrorKind (InputStream L N)
      → OutputStream L N
      → World
      → Outcome MainError (Unit {0}) × World
  with_streams serve input output_stream world =
      let (cloned, os') = try_clone L N output_stream world.1 in
      elim input [
        | ok input_stream ↦ elim cloned [
          | ok output_stream' ↦ serve input_stream output_stream' (world.0, os')
          | err kind ↦ (err (io kind), (world.0, os'))
          | panic ↦ (panic, (world.0, os'))
          | out_of_fuel ↦ (out_of_fuel, (world.0, os'))
        ]
        | err kind ↦ (err (io kind), world)
        | panic ↦ (panic, world)
        | out_of_fuel ↦ (out_of_fuel, world)
      ]

  -- `for input_stream in listener.incoming()`, a round for each unit of fuel.
  pub for_each_stream :
      (Outcome ErrorKind (InputStream L N) → World → Outcome MainError (Unit {0}) × World)
      → ℕ
      → Listener L N
      → World
      → Outcome MainError (Unit {0}) × World
  for_each_stream body zero listener world = (out_of_fuel, world)
  for_each_stream body (suc fuel) listener world =
      let ((item, listener'), os') = next_stream L N listener world.1 in
      elim item [
        | none ↦ (ok tt, (world.0, os'))
        | some input_stream ↦
            (let (served, world') = body input_stream (world.0, os') in
              let rest = for_each_stream body fuel listener' world' in
              elim served [ ok _ ↦ rest | other ↦ (other, world') ])
      ]

  -- The listener, the output stream, and the loop.
  pub listen :
      (OutputStream L N
        → Outcome ErrorKind (InputStream L N)
        → World
        → Outcome MainError (Unit {0}) × World)
      → ℕ
      → CodecArgs
      → World
      → Outcome MainError (Unit {0}) × World
  unfolding for_each_stream
  listen body fuel args world =
      let (listener, os') = listener_from_uri L N args.input world.1 in
      let (output, os'') = output_from_uri L N args.output os' in
      elim listener [
        | ok listener' ↦ elim output [
          | ok output_stream ↦ for_each_stream (body output_stream) fuel listener' (world.0, os'')
          | err kind ↦ (err (io kind), (world.0, os''))
          | panic ↦ (panic, (world.0, os''))
          | out_of_fuel ↦ (out_of_fuel, (world.0, os''))
        ]
        | err kind ↦ (err (io kind), (world.0, os'))
        | panic ↦ (panic, (world.0, os'))
        | out_of_fuel ↦ (out_of_fuel, (world.0, os'))
      ]

  -- The body of the loop of `run_encoder`.
  pub encoder_round :
      Outside
      → CodecArgs
      → ℕ
      → OutputStream L N
      → Outcome ErrorKind (InputStream L N)
      → World
      → Outcome MainError (Unit {0}) × World
  unfolding with_streams encode_incoming
  encoder_round W args repair_packets_per_block output_stream input world =
      let (self, flags) =
        Encoder.new R args.block_size args.max_packet_size repair_packets_per_block args.workers
          world.0 in
      with_streams (encode_incoming W self) input output_stream (flags, world.1)

  -- `run_encoder`
  unfoldable pub run_encoder :
      Outside → ℕ → EncoderArgs → World → Outcome MainError (Unit {0}) × World
  unfolding listen encoder_round
  run_encoder W fuel args world =
      let a = args.codec_args in
      elim (compute_repair_packets_per_block R a.block_size a.max_packet_size args.redundancy) [
        | ok repair_packets_per_block ↦
            listen (encoder_round W a repair_packets_per_block) fuel a world
        | err e ↦ (err (repair e), world)
        | panic ↦ (panic, world)
        | out_of_fuel ↦ (out_of_fuel, world)
      ]

  -- The body of the loop of `run_decoder`.
  pub decoder_round :
      Outside
      → CodecArgs
      → OutputStream L N
      → Outcome ErrorKind (InputStream L N)
      → World
      → Outcome MainError (Unit {0}) × World
  unfolding with_streams decode_incoming
  decoder_round W args output_stream input world =
      let (self, flags) = Decoder.new R args.block_size args.workers args.max_packet_size world.0 in
      with_streams (decode_incoming W self) input output_stream (flags, world.1)

  -- `run_decoder`
  unfoldable pub run_decoder :
      Outside → ℕ → CodecArgs → World → Outcome MainError (Unit {0}) × World
  unfolding listen decoder_round
  run_decoder W fuel args world = listen (decoder_round W args) fuel args world
