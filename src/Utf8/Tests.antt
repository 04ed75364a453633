-- ===== src/Utf8/Tests.antt =====
-- The unit tests of string.rs: "hello", "héllo" and "hi 👋 world", as scalar values.
use garuda_codec.Base.{ℕ, suc, ◌<◌, ◌≤◌, ◌≡◌, refl, ◌⊎◌, arith, List, [], ◌∷◌, length, take}
use garuda_codec.Utf8.{encode, truncate_utf8}
use garuda_codec.Utf8.Truncation.{truncate_utf8_lem}

abbrev hello : List ℕ
hello = 104 ∷ 101 ∷ 108 ∷ 108 ∷ 111 ∷ []

abbrev accented : List ℕ
accented = 104 ∷ 233 ∷ 108 ∷ 108 ∷ 111 ∷ []

abbrev emoji : List ℕ
emoji = 104 ∷ 105 ∷ 32 ∷ 128075 ∷ 32 ∷ 119 ∷ []

returns_original_if_shorter : truncate_utf8 (encode hello) 10 ≡ encode hello
unfolding truncate_utf8 encode
returns_original_if_shorter = refl

does_not_split_multibyte_char : truncate_utf8 (encode accented) 2 ≡ 104 ∷ []
unfolding truncate_utf8 encode
does_not_split_multibyte_char = refl

handles_emoji : truncate_utf8 (encode emoji) 5 ≡ 104 ∷ 105 ∷ 32 ∷ []
unfolding truncate_utf8 encode
handles_emoji = refl

truncate_utf8_lem_example :
    (n : ℕ) × (truncate_utf8 (encode emoji) 5 ≡ encode (take n emoji))
    × (length (encode (take n emoji)) ≤ 5)
    × ((take n emoji ≡ emoji) ⊎ (5 < length (encode (take (suc n) emoji))))
truncate_utf8_lem_example =
    truncate_utf8_lem emoji 5
      (omega arith, (omega arith, (omega arith, (omega arith, (omega arith, (omega arith, tt))))))
