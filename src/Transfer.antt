-- ===== src/Transfer.antt =====
-- garuda-file-transfer/src/transfer.rs: a file as a stream of blocks, and back.
pub mod Blocks
pub mod Sending
pub mod Ending
pub mod Receiving
pub mod Restoring
pub mod Delivery
pub mod EndToEnd
pub mod Sample
mod Cases
mod Tests
use garuda_codec.Base.{
  ℕ, zero, suc, ◌+◌, ◌-◌, ◌%◌, ◌^◌, ltb, leb, ◌==◌, if◌then◌else◌, List, [], ◌∷◌, ◌++◌, length,
  take, drop, replicate, Option, none, some, Bool, true, false, Outcome, ok, err, panic,
  out_of_fuel,
}
use garuda_codec.Files.{FilePath, Disk, file_name, join, open_file, seek_and_write}
use garuda_codec.Forward.{Sink, write_all}
use garuda_codec.Header as Header
use garuda_codec.Header.{UuidCrate, DatagramHeader, serialize, deserialize, datagram_header_len}
use garuda_codec.Io.{ErrorKind, ReadEvent}
use garuda_codec.Io.Exact.{bytes_of}
use garuda_codec.Stdio.{read, read_to_fill}
use Prim.Native.String.{String}

-- The errors that `send` boxes.
pub data SendError : Type 0 where
  io : ErrorKind → SendError
  message : String → SendError
  try_from_int : SendError

-- The file of `send`: what `fs::metadata` gives for its length, what `File::open` gives, and then
-- what its reads give.
pub record SourceFile : Type 0 where
  pub metadata_len : Outcome ErrorKind ℕ
  pub opened : Outcome ErrorKind (List ReadEvent)

module _ (U : UuidCrate) where
  -- A round's two writes.
  pub write_block : DatagramHeader U → List ℕ → Sink → Outcome SendError (Unit {0}) × Sink
  write_block header buffer stream = elim (serialize U header) [
    | ok bytes ↦
        (let (sent, stream') = write_all bytes stream in
          let (padded, stream'') = write_all buffer stream' in
          elim sent [
            | ok _ ↦ elim padded [
              | ok _ ↦ (ok tt, stream'')
              | err kind ↦ (err (io kind), stream'')
              | panic ↦ (panic, stream'')
              | out_of_fuel ↦ (out_of_fuel, stream'')
            ]
            | err kind ↦ (err (io kind), stream')
            | panic ↦ (panic, stream')
            | out_of_fuel ↦ (out_of_fuel, stream')
          ])
    | _ ↦ (panic, stream)
  ]

  -- The loop of `send`, a round for each unit of fuel. What a read does not fill of the buffer
  -- stays as it was; `+=` wraps at 64 bits, as in the release profile.
  pub send_loop :
      ℕ
      → U.Uuid
      → List ℕ
      → ℕ
      → List ReadEvent
      → List ℕ
      → ℕ
      → Sink
      → Outcome SendError (Unit {0}) × Sink
  unfolding write_block
  send_loop zero file_id name file_length file buffer offset stream = (out_of_fuel, stream)
  send_loop (suc fuel) file_id name file_length file buffer offset stream =
      let (got, file') = read file (length buffer) in
      elim got [
        | ok bytes ↦
            (let n = length bytes in
              let buffer' = bytes ++ drop n buffer in
              let header = Header.new U file_id name file_length offset n in
              let (sent, stream') = write_block header buffer' stream in
              let rest =
                send_loop fuel file_id name file_length file' buffer' ((offset + n) % 2 ^ 64)
                  stream' in
              elim (n == 0) [
                | true ↦ (ok tt, stream)
                | false ↦ elim (ltb n (2 ^ 32)) [
                  | true ↦ elim sent [ ok _ ↦ rest | other ↦ (other, stream') ]
                  | false ↦ (err try_from_int, stream)
                ]
              ])
        | err kind ↦ (err (io kind), stream)
        | panic ↦ (panic, stream)
        | out_of_fuel ↦ (out_of_fuel, stream)
      ]

  -- `send`, from the subtraction on. Below the length of a header it panics: by the overflow
  -- check, or in the release profile for the size of the buffer.
  pub send_file :
      U.Uuid → List ℕ → ℕ → List ReadEvent → ℕ → Sink → Outcome SendError (Unit {0}) × Sink
  unfolding send_loop
  send_file file_id name file_length file block_size stream =
      if ltb block_size datagram_header_len
      then (panic, stream)
      else send_loop (suc (length (bytes_of file) + length file)) file_id name file_length file
          (replicate (block_size - datagram_header_len) 0) 0 stream

  -- `send`. `connected` is what `OutputStream::from_uri` returns, `file_id` what `Uuid::new_v4`
  -- returns. A `&str` is a string, so that `to_str` does not fail.
  unfoldable pub send :
      FilePath
      → Outcome ErrorKind (Unit {0})
      → U.Uuid
      → SourceFile
      → ℕ
      → Sink
      → Outcome SendError (Unit {0}) × Sink
  unfolding send_file
  send file_path connected file_id source block_size stream = elim connected [
    | ok _ ↦ elim (file_name file_path) [
      | none ↦ (err (message "invalid filename"), stream)
      | some name ↦ elim source.metadata_len [
        | ok file_length ↦ elim source.opened [
          | ok file ↦ send_file file_id name file_length file block_size stream
          | err kind ↦ (err (io kind), stream)
          | panic ↦ (panic, stream)
          | out_of_fuel ↦ (out_of_fuel, stream)
        ]
        | err kind ↦ (err (io kind), stream)
        | panic ↦ (panic, stream)
        | out_of_fuel ↦ (out_of_fuel, stream)
      ]
    ]
    | err kind ↦ (err (io kind), stream)
    | panic ↦ (panic, stream)
    | out_of_fuel ↦ (out_of_fuel, stream)
  ]

  -- A round of `process_stream` once the header is read: the slice panics out of the buffer.
  unfoldable pub write_payload :
      FilePath → DatagramHeader U → List ℕ → Disk → Outcome ErrorKind (Unit {0}) × Disk
  write_payload output_path header buffer disk =
      let payload = take header.payload_length (drop datagram_header_len buffer) in
      let file_path = join output_path header.file_name in
      let (opened, disk') = open_file file_path disk in
      if ltb (length buffer) (datagram_header_len + header.payload_length)
      then (panic, disk)
      else elim opened [
        | ok bytes ↦ seek_and_write file_path header.chunk_offset payload bytes disk'
        | err kind ↦ (err kind, disk')
        | panic ↦ (panic, disk')
        | out_of_fuel ↦ (out_of_fuel, disk')
      ]

  -- A buffer that does not begin with a header is skipped.
  pub process_buffer : FilePath → List ℕ → Disk → Outcome ErrorKind (Unit {0}) × Disk
  unfolding write_payload
  process_buffer output_path buffer disk = elim (deserialize U buffer) [
    | ok header ↦ write_payload output_path header buffer disk
    | err e ↦ (ok tt, disk)
    | panic ↦ (panic, disk)
    | out_of_fuel ↦ (out_of_fuel, disk)
  ]

  -- The loop of `process_stream`, a round for each unit of fuel.
  pub process_loop : ℕ → FilePath → ℕ → List ReadEvent → Disk → Outcome ErrorKind (Unit {0}) × Disk
  unfolding process_buffer
  process_loop zero output_path block_size stream disk = (out_of_fuel, disk)
  process_loop (suc fuel) output_path block_size stream disk =
      let (got, stream') = read_to_fill stream block_size in
      elim got [
        | ok buffer ↦
            (let (written, disk') = process_buffer output_path buffer disk in
              let rest = process_loop fuel output_path block_size stream' disk' in
              elim written [ ok _ ↦ rest | other ↦ (other, disk') ])
        | err kind ↦ (err kind, disk)
        | panic ↦ (panic, disk)
        | out_of_fuel ↦ (out_of_fuel, disk)
      ]

  -- `process_stream`. A round takes `block_size` bytes of the stream or is the last.
  unfoldable pub process_stream :
      FilePath → List ReadEvent → ℕ → Disk → Outcome ErrorKind (Unit {0}) × Disk
  unfolding process_loop
  process_stream output_path stream block_size disk =
      process_loop (suc (length (bytes_of stream))) output_path block_size stream disk

  -- The loop of `receive`, a round for each unit of fuel: a failed stream is reported and the next
  -- one is taken. `next` is `Incoming::next`, on a listener and what is beside it, with what the
  -- reads of the stream give.
  unfoldable pub receive_loop :
      {A B : Type 0}
      → ℕ
      → (A → B → (Option (Outcome ErrorKind (List ReadEvent)) × A) × B)
      → FilePath
      → A
      → B
      → ℕ
      → Disk
      → Outcome ErrorKind (Unit {0}) × (Disk × B)
  receive_loop zero next output_path listener os block_size disk = (out_of_fuel, (disk, os))
  receive_loop (suc fuel) next output_path listener os block_size disk =
      let ((item, listener'), os') = next listener os in
      elim item [
        | none ↦ (ok tt, (disk, os'))
        | some accepted ↦ elim accepted [
          | ok stream ↦
              (let (processed, disk') = process_stream output_path stream block_size disk in
                let rest = receive_loop fuel next output_path listener' os' block_size disk' in
                elim processed [
                  | ok _ ↦ rest
                  | err kind ↦ rest
                  | panic ↦ (panic, (disk', os'))
                  | out_of_fuel ↦ (out_of_fuel, (disk', os'))
                ])
          | err kind ↦ (err kind, (disk, os'))
          | panic ↦ (panic, (disk, os'))
          | out_of_fuel ↦ (out_of_fuel, (disk, os'))
        ]
      ]

  -- `receive`. `created` is what `fs::create_dir_all` returns, `listening` what
  -- `Listener::from_uri` returns.
  unfoldable pub receive :
      {A B : Type 0}
      → ℕ
      → (A → B → (Option (Outcome ErrorKind (List ReadEvent)) × A) × B)
      → FilePath
      → Outcome ErrorKind (Unit {0})
      → Outcome ErrorKind A
      → B
      → ℕ
      → Disk
      → Outcome ErrorKind (Unit {0}) × (Disk × B)
  unfolding receive_loop
  receive fuel next output_path created listening os block_size disk = elim created [
    | ok _ ↦ elim listening [
      | ok listener ↦ receive_loop fuel next output_path listener os block_size disk
      | err kind ↦ (err kind, (disk, os))
      | panic ↦ (panic, (disk, os))
      | out_of_fuel ↦ (out_of_fuel, (disk, os))
    ]
    | other ↦ (other, (disk, os))
  ]
