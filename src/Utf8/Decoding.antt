-- ===== src/Utf8/Decoding.antt =====
-- `str::from_utf8`: the characters of valid bytes.
use garuda_codec.Base.{
  ℕ, zero, suc, ◌+◌, ◌-◌, ◌*◌, ◌<◌, ◌≤◌, ◌≡◌, refl, ◌∙◌, ◌&&◌, ◌||◌, ltb, leb, if◌then◌else◌, arith,
  Bool, true,
}
use garuda_codec.Base.{List, [], ◌∷◌, ◌++◌, length, Option, none, some, All, length-append}
use garuda_codec.Utf8.{encode, encode_char, is_continuation}

-- A scalar value: no surrogate, and below 0x110000.
abbrev pub is_scalar : ℕ → Bool
is_scalar c = ltb c 55296 || (leb 57344 c && ltb c 1114112)

-- A character of several bytes: its value, if it is no surrogate and needs that many bytes.
abbrev valid : ℕ → ℕ → List ℕ → Option (ℕ × List ℕ)
valid least c rest = if leb least c && is_scalar c then some (c, rest) else none

-- The value and the rest, for a first byte of two, three or four bytes.
two : ℕ → List ℕ → Option (ℕ × List ℕ)
unfolding is_continuation
two b (c ∷ rest) = if is_continuation c then valid 128 ((b - 192) * 64 + (c - 128)) rest else none
two b [] = none

three : ℕ → List ℕ → Option (ℕ × List ℕ)
unfolding is_continuation
three b (c ∷ d ∷ rest) =
    if is_continuation c && is_continuation d
    then valid 2048 ((b - 224) * 4096 + (c - 128) * 64 + (d - 128)) rest
    else none
three b _ = none

four : ℕ → List ℕ → Option (ℕ × List ℕ)
unfolding is_continuation
four b (c ∷ d ∷ e ∷ rest) =
    if is_continuation c && is_continuation d && is_continuation e
    then valid 65536 ((b - 240) * 262144 + (c - 128) * 4096 + (d - 128) * 64 + (e - 128)) rest
    else none
four b _ = none

-- The first character, and the bytes after it.
pub decode_char : List ℕ → Option (ℕ × List ℕ)
unfolding two three four
decode_char [] = none
decode_char (b ∷ bs) =
    if ltb b 128
    then some (b, bs)
    else if ltb b 192
    then none
    else if ltb b 224
    then two b bs
    else if ltb b 240
    then three b bs
    else if ltb b 248
    then four b bs
    else none

abbrev pub push : ℕ → Option (List ℕ) → Option (List ℕ)
push c none = none
push c (some cs) = some (c ∷ cs)

-- The characters one by one; each takes at least one byte.
pub decode_chars : ℕ → List ℕ → Option (List ℕ)
unfolding decode_char
decode_chars fuel [] = some []
decode_chars zero (b ∷ bs) = none
decode_chars (suc fuel) (b ∷ bs) = elim (decode_char (b ∷ bs)) [
  | none ↦ none
  | some (c, rest) ↦ push c (decode_chars fuel rest)
]

unfoldable pub from_utf8 : List ℕ → Option (List ℕ)
unfolding decode_chars
from_utf8 s = decode_chars (length s) s

decode_char-encode_char :
    (c : ℕ) (rest : List ℕ)
    → is_scalar c ≡ true
    → decode_char (encode_char c ++ rest) ≡ some (c, rest)
unfolding decode_char encode_char
decode_char-encode_char c rest h = ground arith

length-encode_char : (c : ℕ) → 0 < length (encode_char c)
unfolding encode_char
length-encode_char c = ground arith

decode_chars_step :
    (s rest : List ℕ) (fuel c : ℕ)
    → decode_char s ≡ some (c, rest)
    → decode_chars (suc fuel) s ≡ push c (decode_chars fuel rest)
unfolding decode_chars decode_char
decode_chars_step [] rest fuel c e = cc
decode_chars_step (b ∷ bs) rest fuel c e = rw (e, decode_chars) refl

decode_chars-encode :
    (cs : List ℕ) (fuel : ℕ)
    → All (λ c. is_scalar c ≡ true) cs
    → length (encode cs) ≤ fuel
    → decode_chars fuel (encode cs) ≡ some cs
unfolding decode_chars encode
decode_chars-encode [] fuel h k = refl
decode_chars-encode (c ∷ cs) zero h k =
    absurd (omega (arith, length-encode_char c, length-append (encode_char c) (encode cs)))
decode_chars-encode (c ∷ cs) (suc fuel) h k =
    let len = length-append (encode_char c) (encode cs) in
    let fits : length (encode cs) ≤ fuel = omega (arith, len, length-encode_char c) in
    decode_chars_step (encode_char c ++ encode cs) (encode cs) fuel c
      (decode_char-encode_char c (encode cs) h.0)
    ∙ rw (decode_chars-encode cs fuel h.1 fits) refl

-- The characters of a string's bytes are the string's.
pub from_utf8-encode :
    (cs : List ℕ) → All (λ c. is_scalar c ≡ true) cs → from_utf8 (encode cs) ≡ some cs
unfolding from_utf8
from_utf8-encode cs h = decode_chars-encode cs (length (encode cs)) h (omega arith)
