-- ===== src/CommandLine/Main.antt =====
-- garuda-codec/src/main.rs: the commands with their options, and `main`. What clap makes of the
-- arguments is a value of `Commands`; if it refuses them, the process ends before `main` goes on.
pub mod Defaults
pub mod Delivery
mod Tests
use garuda_codec.Base.{
  ℕ, List, [], ◌∷◌, map, Option, none, some, Outcome, ok, err, panic, out_of_fuel, map_err,
}
use garuda_codec.CommandLine.{
  CodecArgs, EncoderArgs, MainError, Outside, World, run_encoder, run_decoder,
}
use garuda_codec.Files.{FilePath, Disk}
use garuda_codec.Forward.{Sink}
use garuda_codec.Header.{UuidCrate}
use garuda_codec.Io.{ErrorKind, ReadEvent}
use garuda_codec.RaptorQ.{RaptorQ}
use garuda_codec.Socket.{Libc}
use garuda_codec.Streams.{
  Net, OutputStream, InputStream, Listener, output_from_uri, listener_from_uri, next_stream,
}
use garuda_codec.Threads.{Flags}
use garuda_codec.Transfer as Transfer
use garuda_codec.Transfer.{SendError, SourceFile}

pub record SendArgs : Type 0 where
  pub file_path : FilePath
  pub address : List ℕ
  pub block_size : ℕ

pub record ReceiveArgs : Type 0 where
  pub directory : FilePath
  pub address : List ℕ
  pub block_size : ℕ

pub data Commands : Type 0 where
  encoder : EncoderArgs → Commands
  decoder : CodecArgs → Commands
  send : SendArgs → Commands
  receive : ReceiveArgs → Commands

-- An option that is left out has the value of its `default_value_t`.
abbrev or_default : ℕ → Option ℕ → ℕ
or_default value none = value
or_default value (some given) = given

-- `-b`, `-p` and `-w` may be left out.
pub codec_args : List ℕ → List ℕ → Option ℕ → Option ℕ → Option ℕ → CodecArgs
codec_args input output block_size max_packet_size workers = record {
  input = input;
  output = output;
  block_size = or_default 287232 block_size;
  max_packet_size = or_default 1500 max_packet_size;
  workers = or_default 1 workers;
}

-- So may `-r`.
pub encoder_args : CodecArgs → Option ℕ → EncoderArgs
encoder_args args redundancy = record { codec_args = args; redundancy = or_default 30 redundancy }

pub send_args : FilePath → List ℕ → Option ℕ → SendArgs
send_args file_path address block_size = record {
  file_path = file_path;
  address = address;
  block_size = or_default 287232 block_size;
}

pub receive_args : FilePath → List ℕ → Option ℕ → ReceiveArgs
receive_args directory address block_size = record {
  directory = directory;
  address = address;
  block_size = or_default 287232 block_size;
}

module _ (U : UuidCrate) (R : RaptorQ) (L : Libc) (N : Net L) where
  -- The errors that are boxed.
  pub data CommandError : Type 0 where
    of_codec : MainError R L N → CommandError
    of_send : SendError → CommandError
    of_receive : ErrorKind → CommandError

  -- What the process meets: what is beside the loops of encoder and decoder, `Uuid::new_v4`, the
  -- file to send, what creating a directory gives, and what the reads of a stream that the receiver
  -- has accepted give, until it is dropped.
  pub record Surroundings : Type 0 where
    pub outside : Outside R L N
    pub new_v4 : U.Uuid
    pub source : FilePath → SourceFile
    pub create_dir_all : FilePath → Outcome ErrorKind (Unit {0})
    pub reading : InputStream L N → L.Os → List ReadEvent × L.Os

  -- Flags and system, what the stream of `send` has taken, and the files of the receiver.
  pub record MainState : Type 0 where
    pub world : World R L N
    pub sink : Sink
    pub disk : Disk

  abbrev opened {ℓ} : {A : Type ℓ} → Outcome ErrorKind A → Outcome ErrorKind (Unit {0})
  opened (ok a) = ok tt
  opened (err kind) = err kind
  opened panic = panic
  opened out_of_fuel = out_of_fuel

  abbrev pub reads_of :
      Surroundings
      → Option (Outcome ErrorKind (InputStream L N))
      → L.Os
      → Option (Outcome ErrorKind (List ReadEvent)) × L.Os
  reads_of E none os = (none, os)
  reads_of E (some (ok stream)) os =
      let (events, os') = E.reading stream os in (some (ok events), os')
  reads_of E (some (err kind)) os = (some (err kind), os)
  reads_of E (some panic) os = (some panic, os)
  reads_of E (some out_of_fuel) os = (some out_of_fuel, os)

  -- `Incoming::next`, and the reads of the stream that it gives.
  abbrev pub next_reads :
      Surroundings
      → Listener L N
      → L.Os
      → (Option (Outcome ErrorKind (List ReadEvent)) × Listener L N) × L.Os
  next_reads E listener os =
      let ((item, listener'), os') = next_stream L N listener os in
      let (events, os'') = reads_of E item os' in ((events, listener'), os'')

  -- `Commands::Send`
  unfoldable pub main_send :
      Surroundings → SendArgs → MainState → Outcome CommandError (Unit {0}) × MainState
  main_send E args s =
      let (stream, os') = output_from_uri L N args.address s.world.1 in
      let (sent, sink') =
        Transfer.send U args.file_path (opened stream) E.new_v4 (E.source args.file_path)
          args.block_size s.sink in
      (map_err of_send sent, record s { world = (s.world.0, os'); sink = sink' })

  -- `Commands::Receive`; the listener is made once the directory is there.
  unfoldable pub main_receive :
      Surroundings → ℕ → ReceiveArgs → MainState → Outcome CommandError (Unit {0}) × MainState
  main_receive E fuel args s =
      let created = E.create_dir_all args.directory in
      let (listener, os') = listener_from_uri L N args.address s.world.1 in
      let (received, (disk', os'')) =
        Transfer.receive U fuel (next_reads E) args.directory created listener os' args.block_size
          s.disk in
      elim created [
        | ok _ ↦ (map_err of_receive received, record s { world = (s.world.0, os''); disk = disk' })
        | other ↦ (map_err of_receive received, record s { disk = disk' })
      ]

  -- `main`, for a command; the loops of encoder, decoder and receiver look at `fuel` streams.
  unfoldable pub main :
      Surroundings → ℕ → Commands → MainState → Outcome CommandError (Unit {0}) × MainState
  unfolding main_send main_receive
  main E fuel (encoder args) s =
      let (ran, world') = run_encoder R L N E.outside fuel args s.world in
      (map_err of_codec ran, record s { world = world' })
  main E fuel (decoder args) s =
      let (ran, world') = run_decoder R L N E.outside fuel args s.world in
      (map_err of_codec ran, record s { world = world' })
  main E fuel (send args) s = main_send E args s
  main E fuel (receive args) s = main_receive E fuel args s
