-- ===== src/Transfer/Restoring.antt =====
-- `process_stream` puts a file together from its blocks.
use garuda_codec.Base.{
  ℕ, zero, suc, ◌+◌, ◌^◌, ◌<◌, ◌≤◌, ◌≡◌, refl, sym, ap, ◌∙◌, arith, inl, inr, ◌⊎◌, Bool-cases, List,
  [], ◌∷◌, ◌++◌, length, take, drop, All, Option, none, some, ok, err, le→ltb_false, lt→ltb,
  if◌then◌else◌, ◌==◌, ==_iff,
}
use garuda_codec.Files.{
  FilePath, Contents, Device, Disk, content_at, join, store, open_file, or_empty, write_at,
  write_file, seek_and_write,
}
use garuda_codec.Files.Slices.{Piece, IsSlice, write_pieces, Covered, write_pieces-restores}
use garuda_codec.BlockDispatcher.Routing.{joined, joined_long}
use garuda_codec.Header.{
  UuidCrate, DatagramHeader, DatagramHeaderDeserializationError, deserialize, datagram_header_len,
}
use garuda_codec.Io.{ReadEvent, unexpected_eof}
use garuda_codec.Io.Exact.{bytes_of}
use garuda_codec.Stdio.{IsSteady, read_to_fill, read_to_fill_head, read_to_fill_short}
use garuda_codec.Transfer.{write_payload, process_buffer, process_loop, process_stream}

some_of_or_empty :
    (file : Option (List ℕ)) (content : List ℕ)
    → 0 < length content
    → or_empty file ≡ content
    → file ≡ some content
some_of_or_empty none [] p e = absurd (omega arith)
some_of_or_empty none (b ∷ content) p e = cc
some_of_or_empty (some bytes) content p e = ap some e

module _ (U : UuidCrate) where
  -- What a block brings, given its header.
  abbrev pub piece : DatagramHeader U → List ℕ → Piece
  piece header block = record {
    offset = header.chunk_offset;
    payload = take header.payload_length (drop datagram_header_len block);
  }

-- Opening the path, seeking to the offset and writing the payload there give no error.
abbrev pub Accepts : Device → FilePath → ℕ → List ℕ → Type 0
Accepts device path offset payload =
    (contents : Contents)
    → (device.open_error contents path ≡ none)
      × (device.seek_error contents path offset ≡ none)
      × (device.write_error contents path offset payload ≡ none)

module _ (U : UuidCrate) (output_path : FilePath) where
  -- The disk after a payload was written.
  written : FilePath → DatagramHeader U → List ℕ → Disk → Disk
  unfolding store
  written path header block disk =
      let bytes = or_empty (content_at path disk) in
      store path (write_at header.chunk_offset (piece U header block).payload bytes)
        (store path bytes disk)

  open_file_ok :
      (path : FilePath) (disk : Disk)
      → disk.device.open_error disk.contents path ≡ none
      → open_file path disk
        ≡ (ok (or_empty (content_at path disk)), store path (or_empty (content_at path disk)) disk)
  unfolding open_file
  open_file_ok path disk opens = rw (open_file, opens) refl

  seek_and_write_ok :
      (path : FilePath) (offset : ℕ) (payload bytes : List ℕ) (disk : Disk)
      → offset < 2 ^ 63
      → disk.device.seek_error disk.contents path offset ≡ none
      → disk.device.write_error disk.contents path offset payload ≡ none
      → seek_and_write path offset payload bytes disk
        ≡ (ok tt, store path (write_at offset payload bytes) disk)
  unfolding seek_and_write garuda_codec.Files.write_file
  seek_and_write_ok path offset payload bytes disk h seeks writes =
      rw (lt→ltb offset (2 ^ 63) h, seeks, write_file, writes) refl

  write_payload_ok :
      (header : DatagramHeader U) (block : List ℕ) (disk : Disk)
      → datagram_header_len + header.payload_length ≤ length block
      → header.chunk_offset < 2 ^ 63
      → Accepts disk.device
          (join output_path header.file_name)
          header.chunk_offset
          (piece U header block).payload
      → write_payload U output_path header block disk
        ≡ (ok tt, written (join output_path header.file_name) header block disk)
  unfolding write_payload written store
  write_payload_ok header block disk fits offset accepts =
      let path = join output_path header.file_name in
      let bytes = or_empty (content_at path disk) in
      let opened = open_file_ok path disk (accepts disk.contents).0 in
      let after = store path bytes disk in
      let seen = accepts after.contents in
      let done =
        seek_and_write_ok path header.chunk_offset (piece U header block).payload bytes after offset
          seen.1 seen.2 in
      rw
        (
          le→ltb_false (datagram_header_len + header.payload_length) (length block) fits,
          ap (λ r. r.0) opened,
          ap (λ r. r.1) opened,
        )
        done

  -- What file `i` holds after a write to `target`.
  contents-written :
      (i : ℕ) (target : FilePath) (header : DatagramHeader U) (block : List ℕ) (disk : Disk)
      → or_empty ((written target header block disk).contents i)
        ≡ write_pieces
            (if i == disk.device.file_of target then piece U header block ∷ [] else [])
            (or_empty (disk.contents i))
  unfolding written
  contents-written i target header block disk =
      elim (Bool-cases (i == disk.device.file_of target)) [
        | inl e ↦
            (let at : i ≡ disk.device.file_of target =
                (==_iff i (disk.device.file_of target)).0 e in
              rw e (
                ap
                  (λ q.
                    write_at header.chunk_offset (piece U header block).payload
                      (or_empty (disk.contents q)))
                  (sym at)))
        | inr e ↦ rw e refl
      ]

  written-device :
      (target : FilePath) (header : DatagramHeader U) (block : List ℕ) (disk : Disk)
      → (written target header block disk).device ≡ disk.device
  unfolding written
  written-device target header block disk = refl

module _ (U : UuidCrate) (device : Device) (output_path : FilePath) where
  -- The piece of file `i` that the block brings.
  abbrev pub pieces_in : ℕ → List ℕ → List Piece
  pieces_in i block = elim (deserialize U block) [
    | ok header ↦
        if i == device.file_of (join output_path header.file_name)
        then piece U header block ∷ []
        else []
    | _ ↦ []
  ]

  abbrev pub pieces : ℕ → List (List ℕ) → List Piece
  pieces i [] = []
  pieces i (block ∷ blocks) = pieces_in i block ++ pieces i blocks

  -- The block has no header and is skipped, or its payload can be written.
  abbrev pub IsReceivable : List ℕ → Type 0
  IsReceivable block =
      ((e : DatagramHeaderDeserializationError) × (deserialize U block ≡ err e))
      ⊎ ((header : DatagramHeader U) × (deserialize U block ≡ ok header)
          × (datagram_header_len + header.payload_length ≤ length block)
          × (header.chunk_offset < 2 ^ 63)
          × Accepts device (join output_path header.file_name) header.chunk_offset
              (piece U header block).payload)

  pieces_in_ok :
      (i : ℕ) (header : DatagramHeader U) (block : List ℕ)
      → deserialize U block ≡ ok header
      → pieces_in i block ≡ (
          if i == device.file_of (join output_path header.file_name)
          then piece U header block ∷ []
          else [])
  pieces_in_ok i header block read = rw (pieces_in, read) refl

  pieces_in_err :
      (i : ℕ) (e : DatagramHeaderDeserializationError) (block : List ℕ)
      → deserialize U block ≡ err e
      → pieces_in i block ≡ []
  pieces_in_err i e block skipped = rw (pieces_in, skipped) refl

  -- A round on a block that can be received.
  process_buffer-IsReceivable :
      (i : ℕ) (block : List ℕ) (disk : Disk)
      → disk.device ≡ device
      → IsReceivable block
      → (disk' : Disk) × (process_buffer U output_path block disk ≡ (ok tt, disk'))
        × (disk'.device ≡ device)
        × (or_empty (disk'.contents i)
            ≡ write_pieces (pieces_in i block) (or_empty (disk.contents i)))
  unfolding process_buffer
  process_buffer-IsReceivable i block disk on_device (inl (e, skipped)) = (
    disk,
    rw (skipped, process_buffer) refl,
    on_device,
    rw (pieces_in_err i e block skipped) refl,
  )
  process_buffer-IsReceivable i block disk on_device (inr (header, read, fits, offset, accepts)) =
      let target = join output_path header.file_name in
      (
        written U output_path target header block disk,
        rw (read, process_buffer)
            (write_payload_ok U output_path header block disk fits offset
              (λ contents. rw on_device (accepts contents))),
        written-device U output_path target header block disk ∙ on_device,
        rw (pieces_in_ok i header block read) (
            contents-written U output_path i target header block disk
            ∙ ap
                (λ (d : Device).
                  write_pieces (if i == d.file_of target then piece U header block ∷ [] else [])
                    (or_empty (disk.contents i)))
                on_device),
      )

  write_pieces-append :
      (ps qs : List Piece) (bytes : List ℕ)
      → write_pieces (ps ++ qs) bytes ≡ write_pieces qs (write_pieces ps bytes)
  write_pieces-append [] qs bytes = refl
  write_pieces-append (p ∷ ps) qs bytes =
      write_pieces-append ps qs (write_at p.offset p.payload bytes)

  -- The loop, on whole blocks that can be received.
  process_loop_lem :
      (i b fuel : ℕ) (blocks : List (List ℕ)) (tail : List ℕ) (stream : List ReadEvent)
      (disk : Disk)
      → IsSteady stream
      → bytes_of stream ≡ joined blocks tail
      → All (λ block. length block ≡ b) blocks
      → length tail < b
      → length blocks < fuel
      → disk.device ≡ device
      → All IsReceivable blocks
      → ((process_loop U fuel output_path b stream disk).0 ≡ err unexpected_eof)
        × (or_empty ((process_loop U fuel output_path b stream disk).1.contents i)
            ≡ write_pieces (pieces i blocks) (or_empty (disk.contents i)))
  unfolding process_loop
  process_loop_lem i b zero blocks tail stream disk q e s t f o r = absurd (omega arith)
  process_loop_lem i b (suc fuel) [] tail stream disk q e s t f o r =
      let short = read_to_fill_short stream b q (rw e t) in rw (short, process_loop) (refl, refl)
  process_loop_lem i b (suc fuel) (block ∷ blocks) tail stream disk q e s t f o r =
      let (got, rest, steady) = read_to_fill_head stream block (joined blocks tail) b q e s.0 in
      let (disk', step, same_errors, now) = process_buffer-IsReceivable i block disk o r.0 in
      let (ending, later) =
        process_loop_lem i b fuel blocks tail (read_to_fill stream b).1 disk' steady rest s.1 t
          (omega arith) same_errors r.1 in
      rw (got, process_loop, ap (λ r. r.0) step, ap (λ r. r.1) step)
        (
          ending,
          later
              ∙ ap (write_pieces (pieces i blocks)) now
              ∙ sym (
                  write_pieces-append (pieces_in i block) (pieces i blocks)
                    (or_empty (disk.contents i))),
        )

module _ (U : UuidCrate) (output_path : FilePath) where
  -- Let a stream, without errors other than interrupted reads, be made of whole blocks and a tail
  -- that is shorter. Let each block have no header, or a payload that it holds whole, at an offset
  -- below 2^63, and a file name that opens and takes a seek to the offset and a write of the
  -- payload there without an error. If the payloads for the file that `path` names, under this
  -- path or another, are slices of `content` and cover it, in any order and however often each
  -- comes, `content` is not empty, and what was in the file is no longer than it, then
  -- `process_stream` ends with the error of a stream that is at its end, and leaves `content` in
  -- the file.
  pub process_stream_restores :
      (path : FilePath) (block_size : ℕ) (blocks : List (List ℕ)) (tail : List ℕ)
      (stream : List ReadEvent) (disk : Disk) (content : List ℕ)
      → IsSteady stream
      → bytes_of stream ≡ joined blocks tail
      → All (λ block. length block ≡ block_size) blocks
      → length tail < block_size
      → All (IsReceivable U disk.device output_path) blocks
      → All (IsSlice content) (pieces U disk.device output_path (disk.device.file_of path) blocks)
      → ((i : ℕ)
          → i < length content
          → Covered (pieces U disk.device output_path (disk.device.file_of path) blocks) i)
      → 0 < length content
      → length (or_empty (content_at path disk)) ≤ length content
      → ((process_stream U output_path stream block_size disk).0 ≡ err unexpected_eof)
        × ((process_stream U output_path stream block_size disk).1.contents
              (disk.device.file_of path)
            ≡ some content)
  unfolding process_stream
  process_stream_restores path b blocks tail stream disk content q e s t r slices cover p old =
      let enough : length blocks < suc (length (bytes_of stream)) =
        rw e (omega (arith, joined_long b blocks tail (omega arith) s)) in
      let file = disk.device.file_of path in
      let (ending, bytes) =
        process_loop_lem U disk.device output_path file b (suc (length (bytes_of stream))) blocks
          tail stream disk q e s t enough refl r in
      (
        ending,
        some_of_or_empty _ content p (
            bytes
            ∙ write_pieces-restores content (pieces U disk.device output_path file blocks)
                (or_empty (disk.contents file)) slices old cover),
      )
