-- ===== src/Transfer/Delivery.antt =====
-- `send` and `process_stream` together: the file arrives.
use garuda_codec.Base.{
  ℕ, ◌+◌, ◌^◌, ◌<◌, ◌≤◌, ◌≡◌, refl, sym, ap, ◌∙◌, arith, inl, inr, ◌⊎◌, List, [], ◌∷◌, ◌++◌, length,
  take, drop, All, All-weaken, none, some, ok, err, length-append, take-append, drop-append, ==_iff,
}
use garuda_codec.Files.{FilePath, Device, Disk, content_at, file_name, join, or_empty}
use garuda_codec.Files.Slices.{Piece, IsSlice, Covered}
use garuda_codec.Base.{All_mem, ok_injective}
use garuda_codec.BlockDispatcher.Routing.{joined}
use garuda_codec.Forward.Written.{sink}
use garuda_codec.Header.{UuidCrate, IsUuid, deserialize, datagram_header_len}
use garuda_codec.Header.Layout.{IsNameChar}
use garuda_codec.Header.RoundTrip.{IsCut, received_name}
use garuda_codec.Io.{ErrorKind, ReadEvent, unexpected_eof}
use garuda_codec.Io.Exact.{bytes_of}
use garuda_codec.Stdio.{IsSteady}
use garuda_codec.Transfer.{send, process_stream}
use garuda_codec.Transfer.Restoring.{
  piece, pieces_in, pieces, Accepts, IsReceivable, process_stream_restores,
}
use garuda_codec.Stdio.Reads.{IsFile}
use garuda_codec.Transfer.Blocks.{Sent, IsChunk, Carries}
use garuda_codec.Transfer.Sending.{send_blocks}
use mathlib.Core.List.{Memᴰ}

-- Blocks of one length are determined by their bytes.
joined_injective :
    (b : ℕ) (xs ys : List (List ℕ))
    → 0 < b
    → All (λ x. length x ≡ b) xs
    → All (λ y. length y ≡ b) ys
    → joined xs [] ≡ joined ys []
    → xs ≡ ys
joined_injective b [] [] p h k e = refl
joined_injective b [] (y ∷ ys) p h k e =
    absurd (omega (arith, k.0, ap length e, length-append y (joined ys [])))
joined_injective b (x ∷ xs) [] p h k e =
    absurd (omega (arith, h.0, ap length e, length-append x (joined xs [])))
joined_injective b (x ∷ xs) (y ∷ ys) p h k e =
    let first : x ≡ y =
      sym (take-append x (joined xs []))
      ∙ ap (take (length x)) e
      ∙ ap (λ n. take n (y ++ joined ys [])) (h.0 ∙ sym k.0)
      ∙ take-append y (joined ys []) in
    let rest : joined xs [] ≡ joined ys [] =
      sym (drop-append x (joined xs []))
      ∙ ap (drop (length x)) e
      ∙ ap (λ n. drop n (y ++ joined ys [])) (h.0 ∙ sym k.0)
      ∙ drop-append y (joined ys []) in
    let others = joined_injective b xs ys p h.1 k.1 rest in cc

-- A file of some length can be written at the path: it opens, and no seek and no write within the
-- length gives an error.
abbrev pub IsWritable : Device → FilePath → ℕ → Type 0
IsWritable device path limit =
    (offset : ℕ) (payload : List ℕ)
    → offset + length payload ≤ limit
    → Accepts device path offset payload

module _ (U : UuidCrate) (device : Device) (output_path : FilePath) where
  Covered-append : (ps qs : List Piece) (i : ℕ) → Covered ps i ⊎ Covered qs i → Covered (ps ++ qs) i
  Covered-append [] qs i (inl c) = absurd c
  Covered-append [] qs i (inr c) = c
  Covered-append (p ∷ ps) qs i (inl (inl c)) = inl c
  Covered-append (p ∷ ps) qs i (inl (inr c)) = inr (Covered-append ps qs i (inl c))
  Covered-append (p ∷ ps) qs i (inr c) = inr (Covered-append ps qs i (inr c))

  module _ (file : Sent U) (name : List ℕ) (b : ℕ) where
    pieces_in-IsChunk :
        (block : List ℕ)
        → (c : IsChunk U file name b block)
        → pieces_in U device output_path (device.file_of (join output_path name)) block
          ≡ piece U c.header block ∷ []
    pieces_in-IsChunk block c =
        rw
          (
            pieces_in,
            c.read,
            c.named,
            (==_iff (device.file_of (join output_path name))
                  (device.file_of (join output_path name))).1
                refl,
          )
          refl

    -- The pieces of blocks of the file are slices of it.
    pieces-IsSlice :
        (blocks : List (List ℕ))
        → All (IsChunk U file name b) blocks
        → All
            (IsSlice file.content)
            (pieces U device output_path (device.file_of (join output_path name)) blocks)
    pieces-IsSlice [] h = tt
    pieces-IsSlice (block ∷ blocks) h =
        rw (pieces_in-IsChunk block h.0) (h.0.slice, pieces-IsSlice blocks h.1)

    pieces-Covered :
        (blocks : List (List ℕ)) (block : List ℕ) (i : ℕ)
        → All (IsChunk U file name b) blocks
        → Memᴰ block blocks
        → Carries U i block
        → Covered (pieces U device output_path (device.file_of (join output_path name)) blocks) i
    pieces-Covered [] block i h there c = elim there [ ]
    pieces-Covered (x ∷ blocks) block i h (Memᴰ.head e) (header, got, held) =
        let same_header : header ≡ h.0.header =
          ok_injective (sym got ∙ ap (deserialize U) e ∙ h.0.read) in
        rw (pieces_in-IsChunk x h.0) (inl (rw (← same_header, ← e) held))
    pieces-Covered (x ∷ blocks) block i h (Memᴰ.tail there) c =
        Covered-append (pieces_in U device output_path (device.file_of (join output_path name)) x) _
          i (inr (pieces-Covered blocks block i h.1 there c))

    IsChunk-IsReceivable :
        (block : List ℕ)
        → length file.content < 2 ^ 63
        → IsWritable device (join output_path name) (length file.content)
        → IsChunk U file name b block
        → IsReceivable U device output_path block
    IsChunk-IsReceivable block small writable c = inr (
      c.header,
      c.read,
      c.fits,
      omega (arith, c.slice.within),
      rw c.named (writable c.header.chunk_offset (piece U c.header block).payload c.slice.within),
    )

-- What a regular file is sent under, and what the sender needs of it.
pub record IsSendable (U : UuidCrate) (file : Sent U) (n : ℕ) (file_path : FilePath)
    (events : List ReadEvent) (block_size : ℕ) : Type 0 where
  pub laws : IsUuid U
  pub named : file_name file_path ≡ some file.name
  pub name_chars : All IsNameChar file.name
  pub cut : IsCut file.name n
  pub file_length_fits : file.file_length < 2 ^ 64
  pub is_file : IsFile events
  pub reads : bytes_of events ≡ file.content
  pub content_fits : length file.content < 2 ^ 63
  pub some_content : 0 < length file.content
  pub payload : datagram_header_len < block_size
  pub payload_fits : block_size < datagram_header_len + 2 ^ 32

module _ (U : UuidCrate) where
  -- What `send` writes for a file, to a stream that takes everything.
  abbrev pub sent_bytes : Sent U → FilePath → List ReadEvent → ℕ → ErrorKind → List ℕ
  sent_bytes file file_path events block_size failure =
      (send U file_path (ok tt) file.file_id
        (record { metadata_len = ok file.file_length; opened = ok events }) block_size
        (sink [] none failure)).1.written

  -- Let a file that is not empty be sent, as `IsSendable` says, and let the blocks that `send`
  -- writes be `sent`. Let a receiver read, on a stream without errors other than interrupted reads,
  -- these blocks and no others, each at least once, in any order, and a tail shorter than a block.
  -- If the file can be written in the output directory, without an error of opening, seeking or
  -- writing, and was no longer than the content there, then `process_stream` ends with the error of
  -- a stream that is at its end, and leaves the content in the directory, under the name cut to `n`
  -- characters and without white space.
  pub send_then_receive :
      (file : Sent U) (n : ℕ) (file_path output_path : FilePath) (events : List ReadEvent)
      (block_size : ℕ) (failure : ErrorKind) (sent arrived : List (List ℕ)) (tail : List ℕ)
      (stream : List ReadEvent) (disk : Disk)
      → IsSendable U file n file_path events block_size
      → sent_bytes file file_path events block_size failure ≡ joined sent []
      → All (λ block. length block ≡ block_size) sent
      → All (λ block. Memᴰ block sent) arrived
      → ((block : List ℕ) → Memᴰ block sent → Memᴰ block arrived)
      → IsSteady stream
      → bytes_of stream ≡ joined arrived tail
      → length tail < block_size
      → IsWritable disk.device (join output_path (received_name file.name n)) (length file.content)
      → length (or_empty (content_at (join output_path (received_name file.name n)) disk))
        ≤ length file.content
      → ((process_stream U output_path stream block_size disk).0 ≡ err unexpected_eof)
        × ((process_stream U output_path stream block_size disk).1.contents
              (disk.device.file_of (join output_path (received_name file.name n)))
            ≡ some file.content)
  send_then_receive file n file_path output_path events b failure sent arrived tail stream disk s
        written sized of_sent complete q e short writable old =
      let name = received_name file.name n in
      let path = join output_path name in
      let (blocks, run, all, cover) =
        send_blocks U s.laws file n file_path events b [] failure s.named s.name_chars s.cut
          s.file_length_fits s.is_file s.reads (omega (arith, s.content_fits)) s.payload
          s.payload_fits in
      let size =
        All-weaken (IsChunk U file name b) (λ block. length block ≡ b) (λ block c. c.sized) blocks
          all in
      let same_blocks : blocks ≡ sent =
        joined_injective b blocks sent (omega (arith, s.payload)) size sized
          (sym (ap (λ r. r.1.written) run) ∙ written) in
      let chunks : All (IsChunk U file name b) arrived =
        All-weaken (λ block. Memᴰ block sent) (IsChunk U file name b)
          (λ block m. All_mem (IsChunk U file name b) blocks block all (rw same_blocks m)) arrived
          of_sent in
      process_stream_restores U output_path path b arrived tail stream disk file.content q e
        (All-weaken (IsChunk U file name b) (λ block. length block ≡ b) (λ block c. c.sized) arrived
          chunks)
        short
        (All-weaken (IsChunk U file name b) (IsReceivable U disk.device output_path)
          (λ block c.
            IsChunk-IsReceivable U disk.device output_path file name b block s.content_fits writable
              c)
          arrived chunks)
        (pieces-IsSlice U disk.device output_path file name b arrived chunks)
        (λ i k.
          let (block, there, carried) = cover i k in
          pieces-Covered U disk.device output_path file name b arrived block i chunks
            (complete block (rw (← same_blocks) there)) carried)
        s.some_content old
