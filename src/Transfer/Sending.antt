-- ===== src/Transfer/Sending.antt =====
-- `send`: the blocks that it makes of a file.
use garuda_codec.Base.{
  subst, ℕ, zero, suc, ◌+◌, ◌-◌, ◌%◌, ◌^◌, ◌<◌, ◌≤◌, ◌≡◌, refl, sym, ap, ◌∙◌, arith, inl, inr, List,
  [], ◌∷◌, ◌++◌, length, drop, replicate, All, All-weaken, none, some, ok, length-append,
  le→ltb_false, ne→==_false, lt→ltb, length-drop, append_assoc, append-nil, drop-append,
  length-replicate,
}
use garuda_codec.Files.{FilePath, file_name}
use garuda_codec.BlockDispatcher.Routing.{joined}
use garuda_codec.Base.{drop-drop}
use garuda_codec.Forward.{Sink, write_all}
use garuda_codec.Forward.Written.{sink}
use mathlib.Core.List.{Memᴰ}
use garuda_codec.Header as Header
use garuda_codec.Header.{
  UuidCrate, IsUuid, DatagramHeader, serialize, deserialize, datagram_header_len,
}
use garuda_codec.Header.Layout.{IsNameChar}
use garuda_codec.Header.RoundTrip.{IsCut, received_name, header_bytes}
use garuda_codec.Io.{ErrorKind, ReadEvent}
use garuda_codec.Io.Exact.{bytes_of}
use garuda_codec.Stdio.{read}
use garuda_codec.Stdio.Reads.{IsFile, IsRead-IsFile}
use garuda_codec.Transfer.{write_block, send_loop, send_file, send}
use garuda_codec.Transfer.Blocks.{
  Sent, IsSplit, IsChunk, Carries, header_at, block_at, length-rest, block_at_read,
  block_at-IsChunk, cover_step,
}

written_apart :
    (w header payload rest : List ℕ)
    → ((w ++ header) ++ payload) ++ rest ≡ w ++ ((header ++ payload) ++ rest)
written_apart w header payload rest =
    rw
      (
        append_assoc (w ++ header) payload rest,
        append_assoc w header (payload ++ rest),
        append_assoc header payload rest,
      )
      refl

module _ (U : UuidCrate) where
  -- The two writes of a round, on a stream that takes everything.
  write_block_ok :
      (header : DatagramHeader U) (bytes buffer w : List ℕ) (failure : ErrorKind)
      → serialize U header ≡ ok bytes
      → write_block U header buffer (sink w none failure)
        ≡ (ok tt, sink ((w ++ bytes) ++ buffer) none failure)
  unfolding write_block write_all
  write_block_ok header bytes buffer w failure e = rw (write_block, e) refl

  send_loop_step :
      (fuel : ℕ) (file_id : U.Uuid) (name : List ℕ) (file_length : ℕ) (events : List ReadEvent)
      (bytes buffer : List ℕ) (offset : ℕ) (stream stream' : Sink)
      → (read events (length buffer)).0 ≡ ok bytes
      → 0 < length bytes
      → length bytes < 2 ^ 32
      → offset + length bytes < 2 ^ 64
      → write_block U
          (Header.new U file_id name file_length offset (length bytes))
          (bytes ++ drop (length bytes) buffer)
          stream
        ≡ (ok tt, stream')
      → send_loop U (suc fuel) file_id name file_length events buffer offset stream
        ≡ send_loop U fuel file_id name file_length
            (read events (length buffer)).1
            (bytes ++ drop (length bytes) buffer)
            (offset + length bytes)
            stream'
  unfolding send_loop
  send_loop_step fuel file_id name file_length events bytes buffer offset stream stream' got p small
        fits sent =
      let wrapped : (offset + length bytes) % 2 ^ 64 ≡ offset + length bytes = omega arith in
      rw
        (
          send_loop,
          got,
          ne→==_false (length bytes) 0 (λ e. absurd (omega arith)),
          lt→ltb (length bytes) (2 ^ 32) small,
          ap (λ r. r.0) sent,
          ap (λ r. r.1) sent,
          wrapped,
        )
        refl

  send_loop_end :
      (fuel : ℕ) (file_id : U.Uuid) (name : List ℕ) (file_length : ℕ) (events : List ReadEvent)
      (bytes buffer : List ℕ) (offset : ℕ) (stream : Sink)
      → (read events (length buffer)).0 ≡ ok bytes
      → bytes ≡ []
      → send_loop U (suc fuel) file_id name file_length events buffer offset stream
        ≡ (ok tt, stream)
  unfolding send_loop
  send_loop_end fuel file_id name file_length events bytes buffer offset stream got nothing =
      rw (send_loop, got ∙ ap ok nothing) refl

module _ (U : UuidCrate) (file : Sent U) (n m : ℕ) (s : IsSplit U file n m) where
  send_loop_lem :
      (fuel : ℕ) (events : List ReadEvent) (buffer w : List ℕ) (offset : ℕ) (failure : ErrorKind)
      → IsFile events
      → length buffer ≡ m
      → drop offset file.content ≡ bytes_of events
      → offset ≤ length file.content
      → length (bytes_of events) < fuel
      → (blocks : List (List ℕ)) × (send_loop U fuel file.file_id file.name file.file_length events
            buffer offset
            (sink w none failure)
          ≡ (ok tt, sink (w ++ joined blocks []) none failure))
        × All (IsChunk U file (received_name file.name n) (datagram_header_len + m)) blocks
        × ((i : ℕ)
            → offset ≤ i
            → i < length file.content
            → (block : List ℕ) × Memᴰ block blocks × Carries U i block)
  send_loop_lem zero events buffer w offset failure h a e within enough = absurd (omega arith)
  send_loop_lem (suc fuel) events buffer w offset failure h a e within enough =
      let (bytes, r) = IsRead-IsFile events (length buffer) (omega arith) h in
      let left = length-drop offset file.content in
      let split : drop offset file.content ≡ bytes ++ bytes_of (read events (length buffer)).1 =
        e ∙ r.taken in
      elim r.any [
        | inr (nothing, ended) ↦ (
          [],
          send_loop_end U fuel file.file_id file.name file.file_length events bytes buffer offset
                (sink w none failure) r.got nothing
              ∙ rw append-nil refl,
          tt,
          λ i j k. absurd (omega (arith, left, ap length (e ∙ ended))),
        )
        | inl some_bytes ↦
            (let k = length bytes in
              let more = bytes_of (read events (length buffer)).1 in
              let whole : offset + k ≤ length file.content =
                omega (arith, left, ap length split, length-append bytes more) in
              let buffer' = bytes ++ drop k buffer in
              let header = header_at U file n m s offset k in
              let b : k ≤ m = omega (arith, r.short) in
              let (written, len, got) =
                block_at_read U file n m s offset bytes buffer (omega arith) b in
              let sent =
                write_block_ok U header (header_bytes U header n) buffer' w failure written in
              let (blocks, run, all, cover) =
                send_loop_lem fuel (read events (length buffer)).1 buffer'
                  ((w ++ header_bytes U header n) ++ buffer') (offset + k) failure r.rest
                  (length-rest U file n m s bytes buffer a b)
                  (drop-drop offset k (offset + k) file.content refl
                    ∙ ap (drop k) split
                    ∙ drop-append bytes more)
                  whole (omega (arith, ap length r.taken, length-append bytes more)) in
              (
                block_at U file n m s offset bytes buffer ∷ blocks,
                send_loop_step U fuel file.file_id file.name file.file_length events bytes buffer
                      offset _ _ r.got some_bytes (omega arith) (omega arith) sent
                    ∙ run
                    ∙ ap (λ xs. (ok tt, sink xs none failure))
                        (written_apart w (header_bytes U header n) buffer' (joined blocks [])),
                (block_at-IsChunk U file n m s offset bytes buffer more a b whole split, all),
                cover_step U file n m s offset bytes buffer blocks (omega arith) b cover,
              ))
      ]

module _ (U : UuidCrate) where
  send_regular :
      (file_path : FilePath) (name : List ℕ) (file_id : U.Uuid) (file_length : ℕ)
      (events : List ReadEvent) (block_size : ℕ) (stream : Sink)
      → file_name file_path ≡ some name
      → datagram_header_len ≤ block_size
      → send U file_path
          (ok tt)
          file_id
          (record { metadata_len = ok file_length; opened = ok events })
          block_size
          stream
        ≡ send_loop U
            (suc (length (bytes_of events) + length events))
            file_id
            name
            file_length
            events
            (replicate (block_size - datagram_header_len) 0)
            0
            stream
  unfolding send send_file
  send_regular file_path name file_id file_length events block_size stream e h =
      rw (send, e, send_file, le→ltb_false datagram_header_len block_size h) refl

  -- Under the laws of `uuid`: let the output stream connect and take everything, let the path
  -- have a file name of scalar values other than NUL, which is cut to its first `n` characters,
  -- let the length of the file and that of the content be below 2^64, let its reads give data
  -- until its end, and let the block size be above the 292 bytes of a header and below 292 +
  -- 2^32. Then `send` returns without error, and writes blocks of the block size. Each has a
  -- header with the identifier, the length and the cut name of the file, and brings a slice of
  -- the content at the offset of its header; together they carry every byte.
  pub send_blocks :
      (laws : IsUuid U) (file : Sent U) (n : ℕ) (file_path : FilePath) (events : List ReadEvent)
      (block_size : ℕ) (w : List ℕ) (failure : ErrorKind)
      → file_name file_path ≡ some file.name
      → All IsNameChar file.name
      → IsCut file.name n
      → file.file_length < 2 ^ 64
      → IsFile events
      → bytes_of events ≡ file.content
      → length file.content < 2 ^ 64
      → datagram_header_len < block_size
      → block_size < datagram_header_len + 2 ^ 32
      → (blocks : List (List ℕ)) × (send U file_path
            (ok tt)
            file.file_id
            (record { metadata_len = ok file.file_length; opened = ok events })
            block_size
            (sink w none failure)
          ≡ (ok tt, sink (w ++ joined blocks []) none failure))
        × All (IsChunk U file (received_name file.name n) block_size) blocks
        × ((i : ℕ)
            → i < length file.content
            → (block : List ℕ) × Memᴰ block blocks × Carries U i block)
  send_blocks laws file n file_path events b w failure name chars cut flen given e clen long small =
      let m : ℕ = b - datagram_header_len in
      let size : datagram_header_len + m ≡ b = omega arith in
      let split : IsSplit U file n m = record {
        laws = laws;
        cut = cut;
        chars = chars;
        flen = flen;
        clen = clen;
        pos = omega arith;
        small = omega arith;
      } in
      let (blocks, run, all, cover) =
        send_loop_lem U file n m split (suc (length (bytes_of events) + length events)) events
          (replicate m 0) w 0 failure given (length-replicate m (zero)) (sym e) (omega arith)
          (omega arith) in
      (
        blocks,
        send_regular file_path file.name file.file_id file.file_length events b
              (sink w none failure) name (omega arith)
            ∙ run,
        All-weaken (IsChunk U file (received_name file.name n) (datagram_header_len + m))
            (IsChunk U file (received_name file.name n) b)
            (λ block c. subst (λ s. IsChunk U file (received_name file.name n) s block) size c)
            blocks all,
        λ i k. cover i (omega arith) k,
      )
