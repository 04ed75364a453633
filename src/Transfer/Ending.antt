-- ===== src/Transfer/Ending.antt =====
-- The loop of `send` ends.
use garuda_codec.Base.{Returns}
use garuda_codec.Base.{
  subst, ℕ, zero, suc, ◌+◌, ◌^◌, ◌%◌, ◌<◌, ◌≢◌, arith, inl, inr, Bool-cases, ==_iff, List, ◌-◌,
  replicate, length, drop, ◌==◌, ◌++◌, out_of_fuel,
}
use garuda_codec.Forward.{Sink, write_all}
use garuda_codec.Header as Header
use garuda_codec.Header.{UuidCrate, DatagramHeader, serialize, datagram_header_len}
use garuda_codec.Io.{ReadEvent}
use garuda_codec.Io.Exact.{bytes_of}
use garuda_codec.Stdio.{read}
use garuda_codec.Stdio.Reads.{read_cases}
use garuda_codec.Transfer.{write_block, send_loop, send_file}

module _ (U : UuidCrate) where
  write_block-Returns :
      (header : DatagramHeader U) (buffer : List ℕ) (stream : Sink)
      → Returns (write_block U header buffer stream).0
  unfolding write_block write_all
  write_block-Returns header buffer stream = ground arith

  send_loop-Returns :
      (fuel : ℕ) (file_id : U.Uuid) (name : List ℕ) (file_length : ℕ) (events : List ReadEvent)
      (buffer : List ℕ) (offset : ℕ) (stream : Sink)
      → length (bytes_of events) < fuel
      → Returns (send_loop U fuel file_id name file_length events buffer offset stream).0
  unfolding send_loop
  send_loop-Returns zero file_id name file_length events buffer offset stream h =
      absurd (omega arith)
  send_loop-Returns (suc fuel) file_id name file_length events buffer offset stream h =
      elim (read_cases events (length buffer)) [
        | inl (bytes, e, used) ↦
            (let block =
                write_block-Returns (Header.new U file_id name file_length offset (length bytes))
                  (bytes ++ drop (length bytes) buffer) stream in
              elim (Bool-cases (length bytes == 0)) [
                | inl done ↦ rw (send_loop, e, done) tt
                | inr more ↦
                    (let some_bytes : length bytes ≢ 0 =
                        λ f. cc (more, (==_iff (length bytes) 0).1 f) in
                      rw (send_loop, e, more)
                        (ground (
                          arith,
                          block,
                          send_loop-Returns fuel file_id name file_length
                              (read events (length buffer)).1 (bytes ++ drop (length bytes) buffer)
                              ((offset + length bytes) % 2 ^ 64)
                              (write_block U
                                (Header.new U file_id name file_length offset (length bytes))
                                (bytes ++ drop (length bytes) buffer) stream).1
                              (omega arith),
                        )))
              ])
        | inr (kind, e) ↦ rw (send_loop, e) tt
      ]

  send_file-Returns :
      (file_id : U.Uuid) (name : List ℕ) (file_length : ℕ) (events : List ReadEvent)
      (block_size : ℕ) (stream : Sink)
      → Returns (send_file U file_id name file_length events block_size stream).0
  unfolding send_file
  send_file-Returns file_id name file_length events block_size stream =
      let fuel = suc (length (bytes_of events) + length events) in
      let buffer : List ℕ = replicate (block_size - datagram_header_len) 0 in
      let returns =
        send_loop-Returns fuel file_id name file_length events buffer 0 stream (omega arith) in
      ground (arith, returns)

  -- From its check of the block size on, `send` ends whatever the reads of the file give,
  -- whatever the block size, and whatever the stream takes: with success, an error, or a panic.
  pub send_file_ends :
      (file_id : U.Uuid) (name : List ℕ) (file_length : ℕ) (events : List ReadEvent)
      (block_size : ℕ) (stream : Sink)
      → (send_file U file_id name file_length events block_size stream).0 ≢ out_of_fuel
  send_file_ends file_id name file_length events block_size stream e =
      subst Returns e (send_file-Returns file_id name file_length events block_size stream)
