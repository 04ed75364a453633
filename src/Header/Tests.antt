-- ===== src/Header/Tests.antt =====
-- A name with a space and an accent, and a payload of two bytes.
use garuda_codec.Base.{
  ℕ, suc, ◌<◌, ◌≤◌, ◌≡◌, refl, ◌⊎◌, arith, List, [], ◌∷◌, ◌++◌, length, take, ok,
}
use garuda_codec.Header.{
  DatagramHeader, serialize, deserialize, without_whitespace, datagram_header_len, file_name_len,
}
use garuda_codec.Header.RoundTrip.{deserialize-serialize}
use garuda_codec.Header.Layout.{IsHeader}
use garuda_codec.Header.Sample.{single, single-IsUuid}
use garuda_codec.Utf8.{encode}

abbrev header : DatagramHeader single
header = record {
  file_id = tt;
  file_length = 70000;
  chunk_offset = 300;
  payload_length = 2;
  file_name = 97 ∷ 32 ∷ 233 ∷ [];
}

header-IsHeader : IsHeader single header
header-IsHeader = record {
  file_length_fits = omega arith;
  chunk_offset_fits = omega arith;
  payload_length_fits = omega arith;
  name_chars = ((refl, omega arith), ((refl, omega arith), ((refl, omega arith), tt)));
}

deserialize-serialize_example :
    (n : ℕ) × (bytes : List ℕ) × (serialize single header ≡ ok bytes)
    × (length bytes ≡ datagram_header_len)
    × (deserialize single (bytes ++ (1 ∷ 2 ∷ []))
        ≡ ok (record header { file_name = without_whitespace (take n header.file_name) }))
    × (length (encode (take n header.file_name)) ≤ file_name_len)
    × ((take n header.file_name ≡ header.file_name)
        ⊎ (file_name_len < length (encode (take (suc n) header.file_name))))
deserialize-serialize_example =
    deserialize-serialize single single-IsUuid header (1 ∷ 2 ∷ []) header-IsHeader
