-- ===== src/Utf8/Truncation.antt =====
-- `truncate_utf8` cuts between characters, as late as it can.
use garuda_codec.Base.{
  ℕ, zero, suc, ◌+◌, ◌-◌, ◌<◌, ◌≤◌, ◌≡◌, refl, ap, ◌∙◌, ◌⊎◌, inl, inr, arith, true, false, List, [],
  ◌∷◌, ◌++◌,
}
use garuda_codec.Base.{
  length, take, get_elem?, All, some, length-append, take-append_right, get_elem?-append_left,
  get_elem?-append_right, append-nil, dec_lt, ==_iff,
}
use garuda_codec.Utf8.{
  encode, encode_char, is_continuation, is_char_boundary, last_boundary, truncate_utf8,
}

-- The bytes of one character: one that starts it, and continuations.
abbrev IsCoded : List ℕ → Type 0
IsCoded [] = ⊥
IsCoded (b ∷ bs) = (is_continuation b ≡ false) × All (λ x. is_continuation x ≡ true) bs

-- What follows a character: nothing, or a byte that starts one.
abbrev IsStart : List ℕ → Type 0
IsStart [] = Unit
IsStart (b ∷ bs) = is_continuation b ≡ false

encode_char-IsCoded : (c : ℕ) → c < 1114112 → IsCoded (encode_char c)
unfolding encode_char is_continuation
encode_char-IsCoded c h = ground arith

get_elem?-All :
    (bs : List ℕ) (i : ℕ)
    → All (λ x. is_continuation x ≡ true) bs
    → i < length bs
    → (b : ℕ) × (get_elem? bs i ≡ some b) × (is_continuation b ≡ true)
get_elem?-All [] i h k = absurd (omega arith)
get_elem?-All (b ∷ bs) zero h k = (b, refl, h.0)
get_elem?-All (b ∷ bs) (suc i) h k = get_elem?-All bs i h.1 (omega arith)

inside :
    (char rest : List ℕ) (i : ℕ)
    → IsCoded char
    → suc i < length char
    → is_char_boundary (char ++ rest) (suc i) ≡ false
unfolding is_char_boundary
inside [] rest i h k = absurd (omega arith)
inside (b ∷ bs) rest i h k =
    let (x, at, cont) = get_elem?-All bs i h.1 (omega arith) in
    ground (
      arith,
      length-append bs rest,
      get_elem?-append_left bs rest i (omega arith),
      ==_iff (suc i) 0,
      ==_iff (suc i) (suc (length (bs ++ rest))),
    )

-- Below the end of the first character the loop goes back to 0.
last_boundary-first :
    (char rest : List ℕ) (end : ℕ)
    → IsCoded char
    → end < length char
    → last_boundary (char ++ rest) end ≡ 0
unfolding last_boundary
last_boundary-first char rest zero h k = refl
last_boundary-first char rest (suc end) h k =
    rw (inside char rest end h k) (last_boundary-first char rest end h (omega arith))

boundary_start :
    (char rest : List ℕ) → IsStart rest → is_char_boundary (char ++ rest) (length char) ≡ true
unfolding is_char_boundary
boundary_start char [] h =
    ground (arith, length-append {A = ℕ} char [], ==_iff (length char) (length (char ++ [])))
boundary_start char (b ∷ bs) h =
    ground (arith, get_elem?-append_right char (b ∷ bs) (length char) 0 (omega arith))

boundary_later :
    (char rest : List ℕ) (i : ℕ)
    → is_char_boundary (char ++ rest) (length char + suc i) ≡ is_char_boundary rest (suc i)
unfolding is_char_boundary
boundary_later char rest i = ground (
  arith,
  length-append char rest,
  get_elem?-append_right char rest (length char + suc i) (suc i) refl,
  ==_iff (length char + suc i) (length (char ++ rest)),
  ==_iff (suc i) (length rest),
  ==_iff (length char + suc i) 0,
  ==_iff (suc i) 0,
)

-- From the end of the first character on the loop goes as it goes in what follows.
last_boundary-later :
    (char rest : List ℕ) (j : ℕ)
    → IsCoded char
    → IsStart rest
    → last_boundary (char ++ rest) (length char + j) ≡ length char + last_boundary rest j
unfolding last_boundary
last_boundary-later [] rest j h k = absurd h
last_boundary-later (b ∷ bs) rest zero h k = ground (arith, boundary_start (b ∷ bs) rest k)
last_boundary-later (b ∷ bs) rest (suc i) h k =
    ground (arith, boundary_later (b ∷ bs) rest i, last_boundary-later (b ∷ bs) rest i h k)

IsCoded-IsStart : (char rest : List ℕ) → IsCoded char → IsStart (char ++ rest)
IsCoded-IsStart [] rest h = absurd h
IsCoded-IsStart (b ∷ bs) rest h = h.0

encode-IsStart : (cs : List ℕ) → All (λ c. c < 1114112) cs → IsStart (encode cs)
unfolding encode
encode-IsStart [] h = tt
encode-IsStart (c ∷ cs) h = IsCoded-IsStart (encode_char c) (encode cs) (encode_char-IsCoded c h.0)

take-all : {A : Type 0} (xs : List A) → take (length xs) xs ≡ xs
take-all [] = refl
take-all (x ∷ xs) = rw (take-all xs)

cut :
    (cs : List ℕ) (max_bytes : ℕ)
    → All (λ c. c < 1114112) cs
    → max_bytes < length (encode cs)
    → (n : ℕ) × (n < length cs)
      × (take (last_boundary (encode cs) max_bytes) (encode cs) ≡ encode (take n cs))
      × (length (encode (take n cs)) ≤ max_bytes)
      × (max_bytes < length (encode (take (suc n) cs)))
unfolding encode
cut [] m h k = absurd (omega arith)
cut (c ∷ cs) m h k =
    let char = encode_char c in
    let coded = encode_char-IsCoded c h.0 in
    let len = length-append char (encode cs) in
    elim (dec_lt m (length char)) [
      | yes g ↦ (
        0,
        omega arith,
        rw (last_boundary-first char (encode cs) m coded g) refl,
        omega arith,
        rw append-nil g,
      )
      | no g ↦
          let j : ℕ = m - length char in
          let split : m ≡ length char + j = omega arith in
          let (n, few, same, fits, longest) = cut cs j h.1 (omega (arith, len)) in
          let at = last_boundary-later char (encode cs) j coded (encode-IsStart cs h.1) in
          let part =
            take-append_right char (encode cs) (length char + last_boundary (encode cs) j)
              (last_boundary (encode cs) j) refl in
          (
            suc n,
            omega arith,
            ap (λ (i : ℕ). take (last_boundary (char ++ encode cs) i) (char ++ encode cs)) split
                ∙ ap (λ (i : ℕ). take i (char ++ encode cs)) at
                ∙ part
                ∙ ap (λ (t : List ℕ). char ++ t) same,
            omega (arith, length-append char (encode (take n cs))),
            omega (arith, length-append char (encode (take (suc n) cs))),
          )
    ]

-- For a string of characters and any bound, the result is the bytes of the longest beginning of
-- the string, in whole characters, that has no more bytes than the bound.
pub truncate_utf8_lem :
    (cs : List ℕ) (max_bytes : ℕ)
    → All (λ c. c < 1114112) cs
    → (n : ℕ) × (truncate_utf8 (encode cs) max_bytes ≡ encode (take n cs))
      × (length (encode (take n cs)) ≤ max_bytes)
      × ((take n cs ≡ cs) ⊎ (max_bytes < length (encode (take (suc n) cs))))
unfolding truncate_utf8
truncate_utf8_lem cs m h = elim (dec_lt m (length (encode cs))) [
  | yes g ↦
      let (n, few, same, fits, longest) = cut cs m h g in
      (n, ground (arith, same), fits, inr longest)
  | no g ↦
      let all = take-all cs in (length cs, rw all (ground arith), rw all (omega arith), inl all)
]
