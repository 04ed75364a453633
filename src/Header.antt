-- ===== src/Header.antt =====
-- garuda-file-transfer/src/protocol.rs: the header in front of each piece of a file.
pub mod BigEndian
pub mod Layout
pub mod RoundTrip
pub mod Sample
mod Tests
use garuda_codec.Base.{
  ℕ, zero, suc, ◌+◌, ◌-◌, ◌*◌, ◌||◌, ◌&&◌, ltb, leb, ◌==◌, if◌then◌else◌, Bool, true, false, ◌≡◌,
  ◌<◌,
}
use garuda_codec.Base.{
  List, [], ◌∷◌, ◌++◌, length, take, drop, replicate, Option, none, some, Outcome, ok, err, panic,
  ◌>>=◌,
}
use garuda_codec.Header.BigEndian.{to_be_bytes, from_be_bytes}
use garuda_codec.Utf8 as Utf8
use garuda_codec.Utf8.{truncate_utf8}
use garuda_codec.Utf8.Decoding.{from_utf8}

-- The `uuid` crate, which is not in the repository.
pub record UuidCrate : Type 1 where
  pub Uuid : Type 0
  pub as_bytes : Uuid → List ℕ
  -- `Uuid::from_slice`; `none` is its error.
  pub from_slice : List ℕ → Option Uuid

-- An identifier is 16 bytes.
pub record IsUuid (U : UuidCrate) : Type 0 where
  pub length-as_bytes : (u : U.Uuid) → length (U.as_bytes u) ≡ 16
  pub from_slice-as_bytes : (u : U.Uuid) → U.from_slice (U.as_bytes u) ≡ some u

abbrev pub file_name_len : ℕ
file_name_len = 256

abbrev pub datagram_header_len : ℕ
datagram_header_len = 16 + 8 + 8 + 4 + file_name_len

-- `char::is_whitespace`
unfoldable pub is_whitespace : ℕ → Bool
is_whitespace c =
    (leb 9 c && ltb c 14)
    || c == 32
    || c == 133
    || c == 160
    || c == 5760
    || (leb 8192 c && ltb c 8203)
    || c == 8232
    || c == 8233
    || c == 8239
    || c == 8287
    || c == 12288

-- `.chars().filter(|c| !c.is_whitespace())`
unfoldable pub without_whitespace : List ℕ → List ℕ
without_whitespace [] = []
without_whitespace (c ∷ cs) =
    if is_whitespace c then without_whitespace cs else c ∷ without_whitespace cs

-- `.position(|&b| b == 0).unwrap_or(...)`, for a slice of the length of the default.
unfoldable pub first_zero : List ℕ → ℕ
first_zero [] = 0
first_zero (b ∷ bs) = if b == 0 then 0 else suc (first_zero bs)

pub data DatagramHeaderDeserializationError : Type 0 where
  buffer_too_small invalid_uuid invalid_utf8 : DatagramHeaderDeserializationError

module _ (U : UuidCrate) where
  -- `file_name` is a string, as the list of its characters.
  pub record DatagramHeader : Type 0 where
    pub file_id : U.Uuid
    pub file_length : ℕ
    pub chunk_offset : ℕ
    pub payload_length : ℕ
    pub file_name : List ℕ

  -- `DatagramHeader::new`
  unfoldable pub new : U.Uuid → List ℕ → ℕ → ℕ → ℕ → DatagramHeader
  new file_id file_name file_length chunk_offset payload_length = record {
    file_id = file_id;
    file_length = file_length;
    chunk_offset = chunk_offset;
    payload_length = payload_length;
    file_name = file_name;
  }

  -- The padded name, from the bytes to which it is cut; they are the bytes of a string.
  pub padded_name : List ℕ → Outcome (Unit {0}) (List ℕ)
  unfolding without_whitespace
  padded_name truncated = elim (from_utf8 truncated) [
    | none ↦ panic
    | some chars ↦
        (let name_bytes = Utf8.encode (without_whitespace chars) in
          ok (name_bytes ++ replicate (file_name_len - length name_bytes) 0))
  ]

  -- `DatagramHeader::serialize`
  unfoldable pub serialize : DatagramHeader → Outcome (Unit {0}) (List ℕ)
  unfolding padded_name
  serialize self = do
    name ← padded_name (truncate_utf8 (Utf8.encode self.file_name) file_name_len)
    ok (
        U.as_bytes self.file_id
        ++ (to_be_bytes 8 self.file_length
            ++ (to_be_bytes 8 self.chunk_offset ++ (to_be_bytes 4 self.payload_length ++ name))))

  abbrev pub or_err {ℓ} :
      {A : Type ℓ}
      → DatagramHeaderDeserializationError
      → Option A
      → Outcome DatagramHeaderDeserializationError A
  or_err e none = err e
  or_err e (some a) = ok a

  -- `DatagramHeader::deserialize`
  unfoldable pub deserialize : List ℕ → Outcome DatagramHeaderDeserializationError DatagramHeader
  unfolding first_zero
  deserialize buf =
      let rest = (do
        file_id ← or_err invalid_uuid (U.from_slice (take 16 buf))
        let raw_name = take file_name_len (drop 36 buf)
        file_name ← or_err invalid_utf8 (from_utf8 (take (first_zero raw_name) raw_name))
        ok (record {
          file_id = file_id;
          file_length = from_be_bytes (take 8 (drop 16 buf));
          chunk_offset = from_be_bytes (take 8 (drop 24 buf));
          payload_length = from_be_bytes (take 4 (drop 32 buf));
          file_name = file_name;
        })) in
      if ltb (length buf) datagram_header_len then err buffer_too_small else rest
