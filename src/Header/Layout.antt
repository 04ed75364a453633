-- ===== src/Header/Layout.antt =====
-- The bytes of a header, field by field, and what `deserialize` reads from them.
use garuda_codec.Base.{
  ℕ, zero, suc, ◌+◌, ◌^◌, ◌<◌, ◌≤◌, ◌≡◌, refl, sym, ◌∙◌, inl, inr, arith, true, List, [], ◌∷◌, ◌++◌,
}
use garuda_codec.Base.{
  Bool-cases, le→ltb_false, length, take, drop, replicate, All, All-weaken, some, ok, append_assoc,
  length-append, length-replicate, take-append,
}
use garuda_codec.Header.{
  UuidCrate, IsUuid, DatagramHeader, deserialize, without_whitespace, is_whitespace, first_zero,
}
use garuda_codec.Header.BigEndian.{
  to_be_bytes, from_be_bytes, length-to_be_bytes, from_be_bytes-to_be_bytes,
}
use garuda_codec.Utf8.{encode, encode_char}
use garuda_codec.Utf8.Decoding.{is_scalar, from_utf8-encode}

-- A character that may stand in a name: a scalar value other than NUL.
abbrev pub IsNameChar : ℕ → Type 0
IsNameChar c = (is_scalar c ≡ true) × (0 < c)

pub All-without_whitespace :
    (P : ℕ → Type 0) (cs : List ℕ) → All P cs → All P (without_whitespace cs)
unfolding without_whitespace
All-without_whitespace P [] h = tt
All-without_whitespace P (c ∷ cs) h = elim (Bool-cases (is_whitespace c)) [
  | inl e ↦ rw e (All-without_whitespace P cs h.1)
  | inr e ↦ rw e (h.0, All-without_whitespace P cs h.1)
]

pub length-without_whitespace :
    (cs : List ℕ) → length (encode (without_whitespace cs)) ≤ length (encode cs)
unfolding without_whitespace encode
length-without_whitespace [] = omega arith
length-without_whitespace (c ∷ cs) =
    let rest = length-without_whitespace cs in
    let len = length-append (encode_char c) (encode cs) in
    let len' = length-append (encode_char c) (encode (without_whitespace cs)) in
    elim (Bool-cases (is_whitespace c)) [
      | inl e ↦ rw e (omega (arith, rest, len))
      | inr e ↦ rw e (omega (arith, rest, len, len'))
    ]

pub All-take : (P : ℕ → Type 0) (n : ℕ) (cs : List ℕ) → All P cs → All P (take n cs)
All-take P zero cs h = tt
All-take P (suc n) [] h = tt
All-take P (suc n) (c ∷ cs) h = (h.0, All-take P n cs h.1)

first_zero-char :
    (c : ℕ) (rest : List ℕ)
    → 0 < c
    → first_zero (encode_char c ++ rest) ≡ length (encode_char c) + first_zero rest
unfolding first_zero encode_char
first_zero-char c rest h = ground arith

first_zero-zeros : (k : ℕ) → first_zero (replicate k 0) ≡ 0
unfolding first_zero
first_zero-zeros zero = refl
first_zero-zeros (suc k) = refl

first_zero-encode :
    (cs : List ℕ) (k : ℕ)
    → All IsNameChar cs
    → first_zero (encode cs ++ replicate k 0) ≡ length (encode cs)
unfolding encode
first_zero-encode [] k h = first_zero-zeros k
first_zero-encode (c ∷ cs) k h =
    rw
      (
        append_assoc (encode_char c) (encode cs) (replicate k 0),
        first_zero-char c (encode cs ++ replicate k 0) h.0.1,
        first_zero-encode cs k h.1,
      )
      (sym (length-append (encode_char c) (encode cs)))

pub scalar_bound : (c : ℕ) → is_scalar c ≡ true → c < 1114112
scalar_bound c h = ground arith

skip : (xs ys : List ℕ) (m k : ℕ) → k ≡ length xs + m → drop k (xs ++ ys) ≡ drop m ys
skip [] ys m k e = let f : k ≡ m = omega arith in rw f
skip (x ∷ xs) ys m zero e = absurd (omega arith)
skip (x ∷ xs) ys m (suc k) e = skip xs ys m k (omega arith)

front : (xs ys : List ℕ) (n : ℕ) → length xs ≡ n → take n (xs ++ ys) ≡ xs
front xs ys n e = rw (← e) (take-append xs ys)

-- The part of a buffer behind `skipped` bytes.
field :
    (xs ys buf : List ℕ) (skipped n : ℕ)
    → drop skipped buf ≡ xs ++ ys
    → length xs ≡ n
    → take n (drop skipped buf) ≡ xs
field xs ys buf skipped n e len = rw e (front xs ys n len)

module _ (U : UuidCrate) where
  deserialize_fields :
      (buf : List ℕ) (self : DatagramHeader U) (padding : ℕ)
      → 292 ≤ length buf
      → U.from_slice (take 16 buf) ≡ some self.file_id
      → from_be_bytes (take 8 (drop 16 buf)) ≡ self.file_length
      → from_be_bytes (take 8 (drop 24 buf)) ≡ self.chunk_offset
      → from_be_bytes (take 4 (drop 32 buf)) ≡ self.payload_length
      → take 256 (drop 36 buf) ≡ encode self.file_name ++ replicate padding 0
      → All IsNameChar self.file_name
      → deserialize U buf ≡ ok self
  unfolding deserialize
  deserialize_fields buf self padding long id a b p name chars =
      let zero_at = first_zero-encode self.file_name padding chars in
      let scalars =
        from_utf8-encode self.file_name
          (All-weaken IsNameChar (λ c. is_scalar c ≡ true) (λ c h. h.0) self.file_name chars) in
      let cut = take-append (encode self.file_name) (replicate padding 0) in
      rw (le→ltb_false 292 (length buf) long, id, a, b, p, name, zero_at, cut, scalars) refl

  -- The bytes of the fields, one after the other.
  abbrev pub layout : DatagramHeader U → List ℕ → List ℕ
  layout self name =
      U.as_bytes self.file_id
      ++ (to_be_bytes 8 self.file_length
          ++ (to_be_bytes 8 self.chunk_offset ++ (to_be_bytes 4 self.payload_length ++ name)))

  -- The numbers of a header are machine integers, and its name is of proper characters.
  pub record IsHeader (self : DatagramHeader U) : Type 0 where
    pub file_length_fits : self.file_length < 2 ^ 64
    pub chunk_offset_fits : self.chunk_offset < 2 ^ 64
    pub payload_length_fits : self.payload_length < 2 ^ 32
    pub name_chars : All IsNameChar self.file_name

  pub length-layout :
      (laws : IsUuid U) (self : DatagramHeader U) (name : List ℕ)
      → length (layout self name) ≡ 36 + length name
  length-layout laws self name =
      let id = U.as_bytes self.file_id in
      let a = to_be_bytes 8 self.file_length in
      let b = to_be_bytes 8 self.chunk_offset in
      let p = to_be_bytes 4 self.payload_length in
      omega (
        arith,
        length-append id (a ++ (b ++ (p ++ name))),
        length-append a (b ++ (p ++ name)),
        length-append b (p ++ name),
        length-append p name,
        laws.length-as_bytes self.file_id,
        length-to_be_bytes 8 self.file_length,
        length-to_be_bytes 8 self.chunk_offset,
        length-to_be_bytes 4 self.payload_length,
      )

  layout_append :
      (self : DatagramHeader U) (name payload : List ℕ)
      → layout self name ++ payload ≡ layout self (name ++ payload)
  layout_append self name payload = rw (append_assoc, append_assoc, append_assoc, append_assoc) refl

  pub deserialize-layout :
      (laws : IsUuid U) (self : DatagramHeader U) (padding : ℕ) (payload : List ℕ)
      → IsHeader self
      → length (encode self.file_name) + padding ≡ 256
      → deserialize U (layout self (encode self.file_name ++ replicate padding 0) ++ payload)
        ≡ ok self
  deserialize-layout laws self padding payload h len =
      let id = U.as_bytes self.file_id in
      let a = to_be_bytes 8 self.file_length in
      let b = to_be_bytes 8 self.chunk_offset in
      let p = to_be_bytes 4 self.payload_length in
      let name = encode self.file_name ++ replicate padding 0 in
      let id_len = laws.length-as_bytes self.file_id in
      let a_len = length-to_be_bytes 8 self.file_length in
      let b_len = length-to_be_bytes 8 self.chunk_offset in
      let p_len = length-to_be_bytes 4 self.payload_length in
      let name_len : length name ≡ 256 = omega (
        arith,
        len,
        length-append (encode self.file_name) (replicate padding 0),
        length-replicate padding (zero),
      ) in
      let tail_p = p ++ (name ++ payload) in
      let tail_b = b ++ tail_p in
      let tail_a = a ++ tail_b in
      let buf = id ++ tail_a in
      let at_a : drop 16 buf ≡ tail_a = skip id tail_a 0 16 (omega arith) in
      let at_b : drop 24 buf ≡ tail_b =
        skip id tail_a 8 24 (omega arith) ∙ skip a tail_b 0 8 (omega arith) in
      let at_p : drop 32 buf ≡ tail_p =
        skip id tail_a 16 32 (omega arith)
        ∙ skip a tail_b 8 16 (omega arith)
        ∙ skip b tail_p 0 8 (omega arith) in
      let at_name : drop 36 buf ≡ name ++ payload =
        skip id tail_a 20 36 (omega arith)
        ∙ skip a tail_b 12 20 (omega arith)
        ∙ skip b tail_p 4 12 (omega arith)
        ∙ skip p (name ++ payload) 0 4 (omega arith) in
      let long : 292 ≤ length buf =
        omega (arith, length-layout laws self (name ++ payload), length-append name payload) in
      rw (layout_append self name payload) (
        deserialize_fields buf self padding long
          (rw (front id tail_a 16 id_len) (laws.from_slice-as_bytes self.file_id))
          (rw (field a tail_b buf 16 8 at_a a_len)
            (from_be_bytes-to_be_bytes 8 self.file_length (h.file_length_fits)))
          (rw (field b tail_p buf 24 8 at_b b_len)
            (from_be_bytes-to_be_bytes 8 self.chunk_offset (h.chunk_offset_fits)))
          (rw (field p (name ++ payload) buf 32 4 at_p p_len)
            (from_be_bytes-to_be_bytes 4 self.payload_length (h.payload_length_fits)))
          (field name payload buf 36 256 at_name name_len) h.name_chars)
