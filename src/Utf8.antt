-- ===== src/Utf8.antt =====
-- garuda-file-transfer/src/string.rs, and the part of UTF-8 that it relies on.
pub mod Truncation
pub mod Decoding
mod Tests
use garuda_codec.Base.{
  ℕ, zero, suc, ◌+◌, ◌/◌, ◌%◌, ◌||◌, ltb, leb, ◌==◌, if◌then◌else◌, Bool, true, false,
}
use garuda_codec.Base.{List, [], ◌∷◌, ◌++◌, length, take, get_elem?, Option, none, some}

-- The bytes of a character, given by its scalar value.
unfoldable pub encode_char : ℕ → List ℕ
encode_char c =
    if ltb c 128
    then (c ∷ [])
    else if ltb c 2048
    then (192 + c / 64) ∷ (128 + c % 64) ∷ []
    else if ltb c 65536
    then (224 + c / 4096) ∷ (128 + c / 64 % 64) ∷ (128 + c % 64) ∷ []
    else (240 + c / 262144) ∷ (128 + c / 4096 % 64) ∷ (128 + c / 64 % 64) ∷ (128 + c % 64) ∷ []

-- The bytes of a `str`.
unfoldable pub encode : List ℕ → List ℕ
unfolding encode_char
encode [] = []
encode (c ∷ cs) = encode_char c ++ encode cs

-- A byte that does not start a character.
pub is_continuation : ℕ → Bool
is_continuation b = if ltb b 128 then false else ltb b 192

abbrev starts : Option ℕ → Bool
starts none = false
starts (some b) = if is_continuation b then false else true

-- `is_char_boundary`
pub is_char_boundary : List ℕ → ℕ → Bool
unfolding is_continuation
is_char_boundary s index = index == 0 || index == length s || starts (get_elem? s index)

-- The `while` loop; at the index 0 it ends, since that is a boundary.
pub last_boundary : List ℕ → ℕ → ℕ
unfolding is_char_boundary
last_boundary s zero = 0
last_boundary s (suc end) =
    let rest = last_boundary s end in if is_char_boundary s (suc end) then suc end else rest

-- `truncate_utf8`, on the bytes of the string.
unfoldable pub truncate_utf8 : List ℕ → ℕ → List ℕ
unfolding last_boundary
truncate_utf8 s max_bytes =
    if leb (length s) max_bytes then s else take (last_boundary s max_bytes) s
