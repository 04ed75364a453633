-- ===== src/Transfer/Blocks.antt =====
-- The blocks of a file.
use garuda_codec.Base.{
  ℕ, ◌+◌, ◌^◌, ◌<◌, ◌≤◌, ◌≡◌, refl, sym, ap, ◌∙◌, arith, List, ◌∷◌, ◌++◌, length, take, drop, All,
  ok, length-append, dec_lt, length-drop, take-append, drop-append,
}
use garuda_codec.Files.Slices.{IsSlice, Holds}
use mathlib.Core.List.{Memᴰ}
use garuda_codec.Header as Header
use garuda_codec.Header.{
  UuidCrate, IsUuid, DatagramHeader, serialize, deserialize, datagram_header_len,
}
use garuda_codec.Header.Layout.{IsHeader, IsNameChar}
use garuda_codec.Header.RoundTrip.{IsCut, received_name, header_bytes, serialize_cut}
use garuda_codec.Transfer.Restoring.{piece}

-- A file of the file system, with the identifier that it is sent under.
pub record Sent (U : UuidCrate) : Type 0 where
  pub file_id : U.Uuid
  pub file_length : ℕ
  pub name : List ℕ
  pub content : List ℕ

-- `block` is a header of the file, and behind it a slice of the content, at the offset that the
-- header gives.
pub record IsChunk (U : UuidCrate) (file : Sent U) (name : List ℕ) (block_size : ℕ) (block : List ℕ)
    : Type 0 where
  pub header : DatagramHeader U
  pub sized : length block ≡ block_size
  pub read : deserialize U block ≡ ok header
  pub of_file : header.file_id ≡ file.file_id
  pub of_length : header.file_length ≡ file.file_length
  pub named : header.file_name ≡ name
  pub fits : datagram_header_len + header.payload_length ≤ length block
  pub slice : IsSlice file.content (piece U header block)

-- What is cut into blocks with `m` bytes of payload; the name is cut to `n` characters.
pub record IsSplit (U : UuidCrate) (file : Sent U) (n m : ℕ) : Type 0 where
  pub laws : IsUuid U
  pub cut : IsCut file.name n
  pub chars : All IsNameChar file.name
  pub flen : file.file_length < 2 ^ 64
  pub clen : length file.content < 2 ^ 64
  pub pos : 0 < m
  pub small : m < 2 ^ 32

module _ (U : UuidCrate) where
  -- The block carries the byte at `i`.
  abbrev pub Carries : ℕ → List ℕ → Type 0
  Carries i block =
      (header : DatagramHeader U) × (deserialize U block ≡ ok header)
      × Holds (piece U header block) i

module _ (U : UuidCrate) (file : Sent U) (n m : ℕ) (s : IsSplit U file n m) where
  abbrev pub header_at : ℕ → ℕ → DatagramHeader U
  header_at offset k = Header.new U file.file_id file.name file.file_length offset k

  abbrev pub block_at : ℕ → List ℕ → List ℕ → List ℕ
  block_at offset bytes buffer =
      header_bytes U (header_at offset (length bytes)) n ++ (bytes ++ drop (length bytes) buffer)

  header_at-IsHeader :
      (offset k : ℕ) → offset < 2 ^ 64 → k < 2 ^ 32 → IsHeader U (header_at offset k)
  unfolding Header.new
  header_at-IsHeader offset k a b = record {
    file_length_fits = s.flen;
    chunk_offset_fits = a;
    payload_length_fits = b;
    name_chars = s.chars;
  }

  pub received : ℕ → ℕ → DatagramHeader U
  unfolding Header.new
  received offset k = record (header_at offset k) { file_name = received_name file.name n }

  pub length-rest :
      (bytes buffer : List ℕ)
      → length buffer ≡ m
      → length bytes ≤ m
      → length (bytes ++ drop (length bytes) buffer) ≡ m
  length-rest bytes buffer a b =
      omega
        (arith, length-append bytes (drop (length bytes) buffer), length-drop (length bytes) buffer)

  pub block_at_read :
      (offset : ℕ) (bytes buffer : List ℕ)
      → offset < 2 ^ 64
      → length bytes ≤ m
      → (serialize U (header_at offset (length bytes))
          ≡ ok (header_bytes U (header_at offset (length bytes)) n))
        × (length (header_bytes U (header_at offset (length bytes)) n) ≡ datagram_header_len)
        × (deserialize U (block_at offset bytes buffer) ≡ ok (received offset (length bytes)))
  unfolding Header.new received
  block_at_read offset bytes buffer a b =
      serialize_cut U s.laws (header_at offset (length bytes)) n
        (bytes ++ drop (length bytes) buffer) s.cut
        (header_at-IsHeader offset (length bytes) a (omega arith))

  payload_of_block :
      (offset : ℕ) (bytes buffer : List ℕ)
      → offset < 2 ^ 64
      → length bytes ≤ m
      → take (length bytes) (drop datagram_header_len (block_at offset bytes buffer)) ≡ bytes
  payload_of_block offset bytes buffer a b =
      let (written, len, got) = block_at_read offset bytes buffer a b in
      let rest = bytes ++ drop (length bytes) buffer in
      let behind : drop datagram_header_len (block_at offset bytes buffer) ≡ rest =
        ap (λ k. drop k (block_at offset bytes buffer)) (sym len)
        ∙ drop-append (header_bytes U (header_at offset (length bytes)) n) rest in
      rw behind (take-append bytes (drop (length bytes) buffer))

  pub block_at-IsChunk :
      (offset : ℕ) (bytes buffer more : List ℕ)
      → length buffer ≡ m
      → length bytes ≤ m
      → offset + length bytes ≤ length file.content
      → drop offset file.content ≡ bytes ++ more
      → IsChunk U file
          (received_name file.name n)
          (datagram_header_len + m)
          (block_at offset bytes buffer)
  unfolding received Header.new
  block_at-IsChunk offset bytes buffer more a b within e =
      let (written, len, got) = block_at_read offset bytes buffer (omega arith) b in
      let payload = payload_of_block offset bytes buffer (omega arith) b in
      let whole : length (block_at offset bytes buffer) ≡ datagram_header_len + m = omega (
        arith,
        length-append (header_bytes U (header_at offset (length bytes)) n)
            (bytes ++ drop (length bytes) buffer),
        len,
        length-rest bytes buffer a b,
      ) in
      record {
        header = received offset (length bytes);
        sized = whole;
        read = got;
        of_file = refl;
        of_length = refl;
        named = refl;
        fits = omega (arith, whole);
        slice = record {
          within = rw payload within;
          same = rw (payload, e) (sym (take-append bytes more));
        };
      }

  -- The bytes from `offset` on, if the block at `offset` and the blocks behind it carry them.
  pub cover_step :
      (offset : ℕ) (bytes buffer : List ℕ) (blocks : List (List ℕ))
      → offset < 2 ^ 64
      → length bytes ≤ m
      → ((i : ℕ)
          → offset + length bytes ≤ i
          → i < length file.content
          → (block : List ℕ) × Memᴰ block blocks × Carries U i block)
      → (i : ℕ) → offset ≤ i
      → i < length file.content
      → (block : List ℕ) × Memᴰ block (block_at offset bytes buffer ∷ blocks) × Carries U i block
  unfolding received Header.new
  cover_step offset bytes buffer blocks a b cover i j l =
      let (written, len, got) = block_at_read offset bytes buffer a b in
      elim (dec_lt i (offset + length bytes)) [
        | yes here ↦ (
          block_at offset bytes buffer,
          Memᴰ.head refl,
          (
            received offset (length bytes),
            got,
            (j, rw (payload_of_block offset bytes buffer a b) here),
          ),
        )
        | no beyond ↦
            (let (block, there, carried) = cover i (omega arith) l in
              (block, Memᴰ.tail there, carried))
      ]
