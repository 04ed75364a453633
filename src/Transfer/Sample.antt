-- ===== src/Transfer/Sample.antt =====
-- A file of three bytes, which is sent in two blocks.
use garuda_codec.Base.{
  ℕ, ◌+◌, ◌==◌, if◌then◌else◌, ◌≡◌, refl, arith, List, [], ◌∷◌, ◌++◌, length, none,
}
use garuda_codec.BlockDispatcher.Routing.{joined}
use garuda_codec.Files.{FilePath, Device, Disk, join}
use garuda_codec.Header.{DatagramHeader, datagram_header_len}
use garuda_codec.Header.RoundTrip.{header_bytes}
use garuda_codec.Header.Sample.{single, single-IsUuid}
use garuda_codec.Io.{ReadEvent, chunk, not_found}
use garuda_codec.Stdio.{IsSteady}
use garuda_codec.Transfer.{process_stream}
use garuda_codec.Transfer.Delivery.{IsSendable, sent_bytes}
use garuda_codec.Transfer.Blocks.{Sent}

abbrev pub file : Sent single
file = record { file_id = tt; file_length = 3; name = 97 ∷ []; content = 1 ∷ 2 ∷ 3 ∷ [] }

abbrev pub header_of : ℕ → ℕ → DatagramHeader single
header_of offset n = record {
  file_id = tt;
  file_length = 3;
  chunk_offset = offset;
  payload_length = n;
  file_name = 97 ∷ [];
}

-- The second payload is padded with what is left of the first.
abbrev pub first : List ℕ
first = header_bytes single (header_of 0 2) 1 ++ (1 ∷ 2 ∷ [])

abbrev pub second : List ℕ
second = header_bytes single (header_of 2 1) 1 ++ (3 ∷ 2 ∷ [])

abbrev pub sent : List (List ℕ)
sent = first ∷ second ∷ []

abbrev pub file_path : FilePath
file_path = 100 ∷ 47 ∷ 97 ∷ []

abbrev pub events : List ReadEvent
events = chunk (1 ∷ 2 ∷ 3 ∷ []) ∷ []

pub file-IsSendable : IsSendable single file 1 file_path events 294
unfolding garuda_codec.Files.file_name garuda_codec.Utf8.encode garuda_codec.Utf8.truncate_utf8
file-IsSendable = record {
  laws = single-IsUuid;
  named = refl;
  name_chars = ((refl, omega arith), tt);
  cut = (refl, omega arith);
  file_length_fits = omega arith;
  is_file = ((λ e. cc), tt);
  reads = refl;
  content_fits = omega arith;
  some_content = omega arith;
  payload = omega arith;
  payload_fits = omega arith;
}

pub sent_lem : sent_bytes single file file_path events 294 not_found ≡ joined sent []
unfolding garuda_codec.Transfer.send garuda_codec.Files.file_name garuda_codec.Stdio.read
    garuda_codec.Header.serialize garuda_codec.Utf8.Decoding.from_utf8
    garuda_codec.Utf8.truncate_utf8 garuda_codec.Utf8.encode garuda_codec.Header.new
    garuda_codec.Forward.write_all garuda_codec.Header.BigEndian.to_be_bytes
    garuda_codec.Header.is_whitespace garuda_codec.Header.without_whitespace
sent_lem = refl

-- A path names the file whose number is the sum of its characters, `.` and slashes left out, so
-- that `o/a` and `./o/a` name one file. Nothing fails.
abbrev pub sum_of : FilePath → ℕ
sum_of [] = 0
sum_of (c ∷ path) = (if c == 46 then 0 else if c == 47 then 0 else c) + sum_of path

abbrev pub sound_device : Device
sound_device = record {
  file_of = sum_of;
  open_error = λ contents path. none;
  seek_error = λ contents path offset. none;
  write_error = λ contents path offset payload. none;
}

-- A directory and nothing in it.
abbrev pub empty_disk : Disk
empty_disk = record { contents = λ i. none; device = sound_device }

pub sizes : (length first ≡ 294) × (length second ≡ 294)
unfolding garuda_codec.Utf8.encode garuda_codec.Header.BigEndian.to_be_bytes
    garuda_codec.Header.is_whitespace garuda_codec.Header.without_whitespace
sizes = (refl, refl)
