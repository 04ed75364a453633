-- ===== src/Transfer/Receiving.antt =====
-- `process_stream`: it ends, and what it writes.
use garuda_codec.Base.{Returns}
use garuda_codec.Base.{
  subst, ℕ, zero, suc, ◌<◌, ◌≢◌, arith, inl, inr, List, length, Outcome, ok, err, panic,
  out_of_fuel,
}
use garuda_codec.Files.{FilePath, Disk, open_file, seek_and_write}
use garuda_codec.Header.{UuidCrate, DatagramHeader}
use garuda_codec.Header.RoundTrip.{deserialize_cases}
use garuda_codec.Io.{ErrorKind, ReadEvent}
use garuda_codec.Io.Exact.{bytes_of}
use garuda_codec.Stdio.{read_to_fill, read_to_fill_used, read_to_fill_cases}
use garuda_codec.Transfer.{write_payload, process_buffer, process_loop, process_stream}

module _ (U : UuidCrate) where
  write_payload-Returns :
      (output_path : FilePath) (header : DatagramHeader U) (buffer : List ℕ) (disk : Disk)
      → Returns (write_payload U output_path header buffer disk).0
  unfolding write_payload open_file seek_and_write garuda_codec.Files.write_file
  write_payload-Returns output_path header buffer disk = ground arith

  process_buffer-Returns :
      (output_path : FilePath) (buffer : List ℕ) (disk : Disk)
      → Returns (process_buffer U output_path buffer disk).0
  unfolding process_buffer
  process_buffer-Returns output_path buffer disk = elim (deserialize_cases U buffer) [
    | inl (h, e) ↦ rw (e, process_buffer) (write_payload-Returns output_path h buffer disk)
    | inr (k, e) ↦ rw (e, process_buffer) tt
  ]

  abbrev Stops : Outcome ErrorKind (Unit {0}) → Type 0
  Stops (ok _) = ⊥
  Stops (err kind) = Unit
  Stops panic = Unit
  Stops out_of_fuel = ⊥

  process_loop-Stops :
      (fuel : ℕ) (output_path : FilePath) (block_size : ℕ) (stream : List ReadEvent) (disk : Disk)
      → 0 < block_size
      → length (bytes_of stream) < fuel
      → Stops (process_loop U fuel output_path block_size stream disk).0
  unfolding process_loop
  process_loop-Stops zero output_path b stream disk p h = absurd (omega arith)
  process_loop-Stops (suc fuel) output_path b stream disk p h = elim (read_to_fill_cases stream b) [
    | inl (buffer, e) ↦
        let used = read_to_fill_used stream b buffer e in
        let next = process_buffer U output_path buffer disk in
        let rest =
          process_loop-Stops fuel output_path b (read_to_fill stream b).1 next.1 p (omega arith) in
        let returns = process_buffer-Returns output_path buffer disk in
        rw (e, process_loop) (ground (arith, rest, returns))
    | inr (kind, e) ↦ rw (e, process_loop) tt
  ]

  -- With a block size above 0 `process_stream` ends on every stream, and never in success: with an
  -- error, or in a panic.
  pub process_stream_ends :
      (output_path : FilePath) (stream : List ReadEvent) (block_size : ℕ) (disk : Disk)
      → 0 < block_size
      → ((process_stream U output_path stream block_size disk).0 ≢ out_of_fuel)
        × ((process_stream U output_path stream block_size disk).0 ≢ ok tt)
  unfolding process_stream
  process_stream_ends output_path stream b disk p =
      let stops =
        process_loop-Stops (suc (length (bytes_of stream))) output_path b stream disk p
          (omega arith) in
      (λ e. subst Stops e stops, λ e. subst Stops e stops)
