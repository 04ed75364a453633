-- ===== src/Transfer/Tests.antt =====
-- The sample file; its second block comes first and twice.
use garuda_codec.Base.{
  ℕ, ◌<◌, ◌≡◌, ◌≢◌, refl, arith, inl, inr, List, [], ◌∷◌, ◌++◌, none, some, ok, err, replicate,
  false, All, out_of_fuel, dec_lt,
}
use garuda_codec.BlockDispatcher.Routing.{joined}
use garuda_codec.Files.{FilePath, Disk, join}
use garuda_codec.Header.{DatagramHeader, datagram_header_len}
use garuda_codec.Header.RoundTrip.{received_name}
use garuda_codec.Header.Sample.{single, single-IsUuid}
use garuda_codec.Io.{ReadEvent, chunk, fail, interrupted, unexpected_eof, not_found}
use garuda_codec.Transfer.{process_stream, send, send_file}
use garuda_codec.Transfer.Ending.{send_file_ends}
use garuda_codec.Transfer.Receiving.{process_stream_ends}
use garuda_codec.Transfer.Restoring.{pieces, process_stream_restores}
use garuda_codec.Files.Slices.{IsSlice, Covered}
use garuda_codec.Header.{deserialize, invalid_utf8}
use garuda_codec.Transfer.Blocks.{IsChunk, Carries}
use garuda_codec.Transfer.Sending.{send_blocks}
use garuda_codec.Forward.Written.{sink}
use garuda_codec.Transfer.Delivery.{send_then_receive}
use mathlib.Core.List.{Memᴰ}
use garuda_codec.Transfer.Sample.{
  header_of, file, first, second, sent, file_path, events, file-IsSendable, sent_lem, sum_of,
  sound_device, empty_disk, sizes,
}

abbrev arrived : List (List ℕ)
arrived = second ∷ first ∷ second ∷ []

arrived_all : (block : List ℕ) → Memᴰ block sent → Memᴰ block arrived
arrived_all block (Memᴰ.head e) = Memᴰ.tail (Memᴰ.head e)
arrived_all block (Memᴰ.tail (Memᴰ.head e)) = Memᴰ.head e
arrived_all block (Memᴰ.tail (Memᴰ.tail m)) = elim m [ ]

abbrev stream : List ReadEvent
stream = chunk second ∷ fail interrupted false ∷ chunk (first ++ second) ∷ chunk (9 ∷ []) ∷ []

send_then_receive_example :
    ((process_stream single (111 ∷ []) stream 294 empty_disk).0 ≡ err unexpected_eof)
    × ((process_stream single (111 ∷ []) stream 294 empty_disk).1.contents
          (sum_of (join (111 ∷ []) (received_name (97 ∷ []) 1)))
        ≡ some (1 ∷ 2 ∷ 3 ∷ []))
unfolding garuda_codec.Header.BigEndian.to_be_bytes garuda_codec.Utf8.encode
    garuda_codec.Header.without_whitespace garuda_codec.Header.is_whitespace
send_then_receive_example =
    send_then_receive single file 1 file_path (111 ∷ []) events 294 not_found sent arrived (9 ∷ [])
      stream empty_disk file-IsSendable sent_lem (sizes.0, (sizes.1, tt))
      (Memᴰ.tail (Memᴰ.head refl), (Memᴰ.head refl, (Memᴰ.tail (Memᴰ.head refl), tt))) arrived_all
      ((λ e. cc), ((refl, refl), ((λ e. cc), ((λ e. cc), tt)))) refl (omega arith)
      (λ offset payload h contents. (refl, refl, refl)) (omega arith)

send_blocks_example :
    (blocks : List (List ℕ)) × (send single file_path
        (ok tt)
        tt
        (record { metadata_len = ok 3; opened = ok events })
        294
        (sink (5 ∷ []) none not_found)
      ≡ (ok tt, sink ((5 ∷ []) ++ joined blocks []) none not_found))
    × All (IsChunk single file (received_name (97 ∷ []) 1) 294) blocks
    × ((i : ℕ) → i < 3 → (block : List ℕ) × Memᴰ block blocks × Carries single i block)
send_blocks_example =
    send_blocks single single-IsUuid file 1 file_path events 294 (5 ∷ []) not_found
      file-IsSendable.named file-IsSendable.name_chars file-IsSendable.cut (omega arith)
      file-IsSendable.is_file refl (omega arith) (omega arith) (omega arith)

-- A stream that ends inside of a block.
process_stream_ends_example :
    ((process_stream single (111 ∷ []) (chunk (1 ∷ 2 ∷ []) ∷ []) 294 empty_disk).0 ≢ out_of_fuel)
    × ((process_stream single (111 ∷ []) (chunk (1 ∷ 2 ∷ []) ∷ []) 294 empty_disk).0 ≢ ok tt)
process_stream_ends_example =
    process_stream_ends single (111 ∷ []) (chunk (1 ∷ 2 ∷ []) ∷ []) 294 empty_disk (omega arith)

-- A file that is cut short by an error, and a stream that does not take all of a block.
send_file_ends_example :
    (send_file single tt
      (97 ∷ [])
      3
      (chunk (1 ∷ []) ∷ fail interrupted false ∷ [])
      294
      (record { written = []; room = some 300; failure = not_found })).0
    ≢ out_of_fuel
send_file_ends_example =
    send_file_ends single tt (97 ∷ []) 3 (chunk (1 ∷ []) ∷ fail interrupted false ∷ []) 294
      (record { written = []; room = some 300; failure = not_found })

-- A block without a header, the two blocks in reverse, and a file that is there already.
abbrev broken : List ℕ
broken = replicate 294 255

abbrev old_disk : Disk
old_disk = record { contents = λ i. some (8 ∷ 8 ∷ []); device = sound_device }

reads :
    (deserialize single broken ≡ err invalid_utf8)
    × (deserialize single second ≡ ok (header_of 2 1))
    × (deserialize single first ≡ ok (header_of 0 2))
unfolding garuda_codec.Header.BigEndian.to_be_bytes garuda_codec.Utf8.encode
    garuda_codec.Header.without_whitespace garuda_codec.Header.is_whitespace
    garuda_codec.Header.deserialize garuda_codec.Header.first_zero
    garuda_codec.Header.BigEndian.from_be_bytes garuda_codec.Utf8.Decoding.from_utf8
    garuda_codec.Files.join
reads = (refl, refl, refl)

pieces_lem :
    pieces single sound_device
      (111 ∷ [])
      (sum_of (111 ∷ 47 ∷ 97 ∷ []))
      (broken ∷ second ∷ first ∷ [])
    ≡ record { offset = 2; payload = 3 ∷ [] } ∷ record { offset = 0; payload = 1 ∷ 2 ∷ [] } ∷ []
unfolding garuda_codec.Header.BigEndian.to_be_bytes garuda_codec.Utf8.encode
    garuda_codec.Header.without_whitespace garuda_codec.Header.is_whitespace
    garuda_codec.Header.deserialize garuda_codec.Header.first_zero
    garuda_codec.Header.BigEndian.from_be_bytes garuda_codec.Utf8.Decoding.from_utf8
    garuda_codec.Files.join
pieces_lem = refl

IsSlice-All :
    All
      (IsSlice (1 ∷ 2 ∷ 3 ∷ []))
      (record { offset = 2; payload = 3 ∷ [] } ∷ record { offset = 0; payload = 1 ∷ 2 ∷ [] } ∷ [])
IsSlice-All = (
  record { within = omega arith; same = refl },
  (record { within = omega arith; same = refl }, tt),
)

covered :
    (i : ℕ)
    → i < 3
    → Covered
        (record { offset = 2; payload = 3 ∷ [] } ∷ record { offset = 0; payload = 1 ∷ 2 ∷ [] } ∷ [])
        i
covered i h = elim (dec_lt i 2) [
  | yes low ↦ inr (inl (omega arith, omega arith))
  | no high ↦ inl (omega arith, omega arith)
]

process_stream_restores_example :
    ((process_stream single (111 ∷ []) (chunk (broken ++ (second ++ first)) ∷ []) 294 old_disk).0
      ≡ err unexpected_eof)
    × ((process_stream single
            (111 ∷ [])
            (chunk (broken ++ (second ++ first)) ∷ [])
            294
            old_disk).1.contents
          (sum_of (111 ∷ 47 ∷ 97 ∷ []))
        ≡ some (1 ∷ 2 ∷ 3 ∷ []))
unfolding garuda_codec.Header.BigEndian.to_be_bytes garuda_codec.Utf8.encode
    garuda_codec.Header.without_whitespace garuda_codec.Header.is_whitespace
process_stream_restores_example =
    process_stream_restores single (111 ∷ []) (111 ∷ 47 ∷ 97 ∷ []) 294
      (broken ∷ second ∷ first ∷ []) [] (chunk (broken ++ (second ++ first)) ∷ []) old_disk
      (1 ∷ 2 ∷ 3 ∷ []) ((λ e. cc), tt) refl (refl, (refl, (refl, tt))) (omega arith)
      (
        inl (invalid_utf8, reads.0),
        (
          inr (header_of 2 1, reads.1, omega arith, omega arith, λ contents. (refl, refl, refl)),
          (
            inr (header_of 0 2, reads.2, omega arith, omega arith, λ contents. (refl, refl, refl)),
            tt,
          ),
        ),
      )
      (rw pieces_lem IsSlice-All) (λ i h. rw pieces_lem (covered i h)) (omega arith) (omega arith)
