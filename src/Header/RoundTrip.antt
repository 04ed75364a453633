-- ===== src/Header/RoundTrip.antt =====
-- What `deserialize` makes of what `serialize` wrote.
use garuda_codec.Base.{
  Option-cases, ltb, err, ℕ, zero, suc, ◌+◌, ◌-◌, ◌<◌, ◌≤◌, ◌≡◌, refl, ◌⊎◌, inl, inr, arith, true,
  List, ◌++◌,
}
use garuda_codec.Base.{
  Bool-cases, length, take, drop, replicate, All, All-weaken, ok, length-append, length-replicate,
}
use garuda_codec.Header.{
  UuidCrate, IsUuid, DatagramHeaderDeserializationError, buffer_too_small, invalid_uuid,
  invalid_utf8, DatagramHeader, serialize, deserialize, padded_name, without_whitespace, first_zero,
  file_name_len, datagram_header_len,
}
use garuda_codec.Utf8.{encode, truncate_utf8}
use garuda_codec.Utf8.Decoding.{is_scalar, from_utf8, from_utf8-encode}
use garuda_codec.Utf8.Truncation.{truncate_utf8_lem}
use garuda_codec.Header.Layout.{
  IsNameChar, IsHeader, layout, All-without_whitespace, length-without_whitespace, All-take,
  scalar_bound, length-layout, deserialize-layout,
}

-- The name is cut to its first `n` characters.
abbrev pub IsCut : List ℕ → ℕ → Type 0
IsCut name n =
    (truncate_utf8 (encode name) 256 ≡ encode (take n name)) × (length (encode (take n name)) ≤ 256)

abbrev pub received_name : List ℕ → ℕ → List ℕ
received_name name n = without_whitespace (take n name)

-- A name of scalar values is cut somewhere: nowhere before its end if it fits.
pub name-IsCut :
    (name : List ℕ)
    → All IsNameChar name
    → (n : ℕ) × IsCut name n
      × ((take n name ≡ name) ⊎ (file_name_len < length (encode (take (suc n) name))))
name-IsCut name chars =
    let bounded = All-weaken IsNameChar (λ c. c < 1114112) (λ c g. scalar_bound c g.0) name chars in
    let (n, cut, fits, longest) = truncate_utf8_lem name 256 bounded in (n, (cut, fits), longest)

module _ (U : UuidCrate) where
  serialize_name :
      (self : DatagramHeader U) (kept : List ℕ)
      → truncate_utf8 (encode self.file_name) 256 ≡ encode kept
      → All (λ c. is_scalar c ≡ true) kept
      → serialize U self
        ≡ ok (
            layout U self (
              encode (without_whitespace kept)
              ++ replicate (256 - length (encode (without_whitespace kept))) 0))
  unfolding serialize padded_name
  serialize_name self kept cut scalars = rw (cut, padded_name, from_utf8-encode kept scalars) refl

  -- The bytes of a header whose name is cut to `n` characters.
  abbrev pub header_bytes : DatagramHeader U → ℕ → List ℕ
  header_bytes self n = layout U self (
      encode (received_name self.file_name n)
      ++ replicate (256 - length (encode (received_name self.file_name n))) 0)

  -- `serialize` writes them; they have a fixed length, and are read back but for the name.
  pub serialize_cut :
      (laws : IsUuid U) (self : DatagramHeader U) (n : ℕ) (payload : List ℕ)
      → IsCut self.file_name n
      → IsHeader U self
      → (serialize U self ≡ ok (header_bytes self n))
        × (length (header_bytes self n) ≡ datagram_header_len)
        × (deserialize U (header_bytes self n ++ payload)
            ≡ ok (record self { file_name = received_name self.file_name n }))
  serialize_cut laws self n payload c h =
      let kept = take n self.file_name in
      let short = without_whitespace kept in
      let chars = All-take IsNameChar n self.file_name h.name_chars in
      let scalars = All-weaken IsNameChar (λ c. is_scalar c ≡ true) (λ c g. g.0) kept chars in
      let padding : ℕ = 256 - length (encode short) in
      let sent : DatagramHeader U = record self { file_name = short } in
      let filled : length (encode short) + padding ≡ 256 =
        omega (arith, length-without_whitespace kept, c.1) in
      let valid : IsHeader U sent = record {
        file_length_fits = h.file_length_fits;
        chunk_offset_fits = h.chunk_offset_fits;
        payload_length_fits = h.payload_length_fits;
        name_chars = All-without_whitespace IsNameChar kept chars;
      } in
      (
        serialize_name self kept c.0 scalars,
        omega (
          arith,
          length-layout U laws self (encode short ++ replicate padding 0),
          length-append (encode short) (replicate padding 0),
          length-replicate padding (zero),
          filled,
        ),
        deserialize-layout U laws sent padding payload valid filled,
      )

  -- For a header whose numbers are machine integers and whose name is of scalar values other than
  -- NUL, `serialize` returns 292 bytes. From them, and whatever payload follows, `deserialize`
  -- returns the header, its name cut to the longest beginning of at most 256 bytes, in whole
  -- characters, and without the white space of that beginning.
  pub deserialize-serialize :
      (laws : IsUuid U) (self : DatagramHeader U) (payload : List ℕ)
      → IsHeader U self
      → (n : ℕ) × (bytes : List ℕ) × (serialize U self ≡ ok bytes)
        × (length bytes ≡ datagram_header_len)
        × (deserialize U (bytes ++ payload)
            ≡ ok (record self { file_name = without_whitespace (take n self.file_name) }))
        × (length (encode (take n self.file_name)) ≤ file_name_len)
        × ((take n self.file_name ≡ self.file_name)
            ⊎ (file_name_len < length (encode (take (suc n) self.file_name))))
  deserialize-serialize laws self payload h =
      let (n, cut, longest) = name-IsCut self.file_name h.name_chars in
      let (written, len, read) = serialize_cut laws self n payload cut h in
      (n, header_bytes self n, written, len, read, cut.1, longest)

  -- `deserialize` returns on every buffer.
  pub deserialize_cases :
      (buf : List ℕ)
      → ((h : DatagramHeader U) × (deserialize U buf ≡ ok h))
        ⊎ ((e : DatagramHeaderDeserializationError) × (deserialize U buf ≡ err e))
  unfolding deserialize
  deserialize_cases buf =
      let raw = take file_name_len (drop 36 buf) in
      elim (Bool-cases (ltb (length buf) datagram_header_len)) [
        | inl short ↦ rw short (inr (buffer_too_small, refl))
        | inr long ↦ elim (Option-cases (U.from_slice (take 16 buf))) [
          | inl bad ↦ rw (long, bad) (inr (invalid_uuid, refl))
          | inr (id, e) ↦ elim (Option-cases (from_utf8 (take (first_zero raw) raw))) [
            | inl bad ↦ rw (long, e, bad) (inr (invalid_utf8, refl))
            | inr (name, f) ↦ rw (long, e, f) (inl (_, refl))
          ]
        ]
      ]
