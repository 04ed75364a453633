-- ===== src/Transfer/Cases.antt =====
-- Single cases: sizes and names at the edge, and a receiver of several streams.
use garuda_codec.Base.{
  ◌≡◌, refl, List, [], ◌∷◌, ◌++◌, Option, none, some, Outcome, ok, err, panic, false,
}
use garuda_codec.Files.{Disk, join, file_name}
use garuda_codec.Forward.Written.{sink}
use garuda_codec.Header.RoundTrip.{header_bytes}
use garuda_codec.Header.Sample.{single}
use garuda_codec.Io.{ErrorKind, ReadEvent, chunk, fail, not_found, timed_out}
use garuda_codec.Transfer.{send_file, process_stream, receive}
use garuda_codec.Transfer.Sample.{
  header_of, first, second, events, empty_disk, sum_of, sound_device,
}

-- With a payload of 0 bytes nothing is sent, and that is a success.
no_payload :
    send_file single tt (97 ∷ []) 3 events 292 (sink [] none not_found)
    ≡ (ok tt, sink [] none not_found)
unfolding send_file garuda_codec.Stdio.read
no_payload = refl

-- A block size below the length of a header is a panic.
no_room : (send_file single tt (97 ∷ []) 3 events 291 (sink [] none not_found)).0 ≡ panic
unfolding send_file
no_room = refl

-- A header whose payload is longer than the block is a panic.
long_payload :
    (process_stream single
      (111 ∷ [])
      (chunk (header_bytes single (header_of 0 3) 1 ++ (1 ∷ 2 ∷ [])) ∷ [])
      294
      empty_disk).0
    ≡ panic
unfolding process_stream garuda_codec.Stdio.read_to_fill garuda_codec.Header.BigEndian.to_be_bytes
    garuda_codec.Utf8.encode garuda_codec.Header.without_whitespace
    garuda_codec.Header.is_whitespace garuda_codec.Header.deserialize
    garuda_codec.Utf8.Decoding.from_utf8 garuda_codec.Header.BigEndian.from_be_bytes
long_payload = refl

-- An absolute name leaves the directory, and a path that ends in `..` has no file name.
absolute_name : join (111 ∷ []) (47 ∷ 97 ∷ []) ≡ 47 ∷ 97 ∷ []
unfolding join
absolute_name = refl

no_file_name : file_name (97 ∷ 47 ∷ 46 ∷ 46 ∷ []) ≡ none
unfolding file_name
no_file_name = refl

-- A listener that gives the streams of a list.
abbrev listed :
    List (Outcome ErrorKind (List ReadEvent))
    → Unit {0}
    → (Option (Outcome ErrorKind (List ReadEvent)) × List (Outcome ErrorKind (List ReadEvent)))
      × Unit {0}
listed [] os = ((none, []), os)
listed (item ∷ rest) os = ((some item, rest), os)

-- A disk that takes one byte of a payload and is full.
abbrev full_disk : Disk
full_disk = record empty_disk {
  device = record sound_device {
    write_error = λ contents path offset payload. some (1, timed_out);
  };
}

full_disk_fails :
    let (processed, disk) = process_stream single (111 ∷ []) (chunk first ∷ []) 294 full_disk in
    (processed ≡ err timed_out) × (disk.contents (sum_of (111 ∷ 47 ∷ 97 ∷ [])) ≡ some (1 ∷ []))
unfolding process_stream garuda_codec.Stdio.read_to_fill garuda_codec.Header.BigEndian.to_be_bytes
    garuda_codec.Utf8.encode garuda_codec.Header.without_whitespace
    garuda_codec.Header.is_whitespace garuda_codec.Header.deserialize
    garuda_codec.Utf8.Decoding.from_utf8 garuda_codec.Header.BigEndian.from_be_bytes
    garuda_codec.Files.open_file garuda_codec.Files.seek_and_write garuda_codec.Files.write_file
    join garuda_codec.Files.write_at
full_disk_fails = (refl, refl)

-- The first stream fails after its block, and the second brings the rest.
receive_two :
    (receive single 3 listed
        (111 ∷ [])
        (ok tt)
        (ok (ok (chunk first ∷ fail timed_out false ∷ []) ∷ ok (chunk second ∷ []) ∷ []))
        tt
        294
        empty_disk).1.0.contents
      (sum_of (111 ∷ 47 ∷ 97 ∷ []))
    ≡ some (1 ∷ 2 ∷ 3 ∷ [])
unfolding receive process_stream garuda_codec.Stdio.read_to_fill
    garuda_codec.Header.BigEndian.to_be_bytes garuda_codec.Utf8.encode
    garuda_codec.Header.without_whitespace garuda_codec.Header.is_whitespace
    garuda_codec.Header.deserialize garuda_codec.Utf8.Decoding.from_utf8
    garuda_codec.Header.BigEndian.from_be_bytes garuda_codec.Files.open_file
    garuda_codec.Files.seek_and_write garuda_codec.Files.write_file join garuda_codec.Files.write_at
receive_two = refl
