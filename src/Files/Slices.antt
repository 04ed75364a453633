-- ===== src/Files/Slices.antt =====
-- Pieces of a file, written in any order and any number of times.
use garuda_codec.Base.{
  ℕ, zero, suc, ◌+◌, ◌-◌, ◌<◌, ◌≤◌, ◌≡◌, refl, ap, ◌∙◌, arith, ◌⊎◌, inl, inr, List, [], ◌∷◌, ◌++◌,
  length, take, drop, replicate, get_elem?, All, dec_lt, length-append, length-take, length-drop,
  length-replicate, get_elem?-append_left, get_elem?-append_right,
}
use garuda_codec.Base.{get_elem?-take, get_elem?-drop, eq_of_get_elem?}
use garuda_codec.Files.{write_at}

-- A part of a file that begins at `offset`.
pub record Piece : Type 0 where
  pub offset : ℕ
  pub payload : List ℕ

abbrev pub Holds : Piece → ℕ → Type 0
Holds p i = (p.offset ≤ i) × (i < p.offset + length p.payload)

-- The piece is what stands at its place in `content`.
pub record IsSlice (content : List ℕ) (p : Piece) : Type 0 where
  pub within : p.offset + length p.payload ≤ length content
  pub same : p.payload ≡ take (length p.payload) (drop p.offset content)

get_elem?-slice :
    (content : List ℕ) (p : Piece) (i : ℕ)
    → IsSlice content p
    → Holds p i
    → get_elem? p.payload (i - p.offset) ≡ get_elem? content i
get_elem?-slice content p i s h =
    ap (λ (xs : List ℕ). get_elem? xs (i - p.offset)) s.same
    ∙ get_elem?-take (length p.payload) (i - p.offset) (drop p.offset content) (omega arith)
    ∙ get_elem?-drop p.offset (i - p.offset) i content (omega arith)

length-padded :
    (offset : ℕ) (bytes : List ℕ) → offset ≤ length (bytes ++ replicate (offset - length bytes) 0)
length-padded offset bytes = omega (
  arith,
  length-append bytes (replicate (offset - length bytes) 0),
  length-replicate (offset - length bytes) (zero),
)

length-front :
    (offset : ℕ) (bytes : List ℕ)
    → length (take offset (bytes ++ replicate (offset - length bytes) 0)) ≡ offset
length-front offset bytes = omega (
  arith,
  length-take offset (bytes ++ replicate (offset - length bytes) 0),
  length-padded offset bytes,
)

-- The write is read back.
get_elem?-write_at_in :
    (offset i : ℕ) (payload bytes : List ℕ)
    → offset ≤ i
    → i < offset + length payload
    → get_elem? (write_at offset payload bytes) i ≡ get_elem? payload (i - offset)
unfolding write_at
get_elem?-write_at_in offset i [] bytes h k = absurd (omega arith)
get_elem?-write_at_in offset i (b ∷ bs) bytes h k =
    let front = take offset (bytes ++ replicate (offset - length bytes) 0) in
    let len = length-front offset bytes in
    get_elem?-append_right front ((b ∷ bs) ++ drop (offset + length (b ∷ bs)) bytes) i (i - offset)
      (omega arith)
    ∙ get_elem?-append_left (b ∷ bs) (drop (offset + length (b ∷ bs)) bytes) (i - offset)
        (omega arith)

-- Other bytes stay as they are.
get_elem?-write_at_out :
    (offset i : ℕ) (payload bytes : List ℕ)
    → i < length bytes
    → (i < offset) ⊎ (offset + length payload ≤ i)
    → get_elem? (write_at offset payload bytes) i ≡ get_elem? bytes i
unfolding write_at
get_elem?-write_at_out offset i [] bytes h k = refl
get_elem?-write_at_out offset i (b ∷ bs) bytes h (inl k) =
    let zeros = replicate (offset - length bytes) 0 in
    get_elem?-append_left (take offset (bytes ++ zeros))
      ((b ∷ bs) ++ drop (offset + length (b ∷ bs)) bytes) i
      (omega (arith, length-front offset bytes))
    ∙ get_elem?-take offset i (bytes ++ zeros) k
    ∙ get_elem?-append_left bytes zeros i h
get_elem?-write_at_out offset i (b ∷ bs) bytes h (inr k) =
    let front = take offset (bytes ++ replicate (offset - length bytes) 0) in
    let n = length (b ∷ bs) in
    let rest = drop (offset + n) bytes in
    let len = length-front offset bytes in
    get_elem?-append_right front ((b ∷ bs) ++ rest) i (i - offset) (omega arith)
    ∙ get_elem?-append_right (b ∷ bs) rest (i - offset) (i - offset - n) (omega arith)
    ∙ get_elem?-drop (offset + n) (i - offset - n) i bytes (omega arith)

length-write_at :
    (offset : ℕ) (payload bytes : List ℕ) (n : ℕ)
    → length bytes ≤ n
    → offset + length payload ≤ n
    → length (write_at offset payload bytes) ≤ n
unfolding write_at
length-write_at offset [] bytes n h k = h
length-write_at offset (b ∷ bs) bytes n h k =
    let front = take offset (bytes ++ replicate (offset - length bytes) 0) in
    let rest = drop (offset + length (b ∷ bs)) bytes in
    omega (
      arith,
      length-append front ((b ∷ bs) ++ rest),
      length-append (b ∷ bs) rest,
      length-front offset bytes,
      length-drop (offset + length (b ∷ bs)) bytes,
    )

-- The byte at `i` is that of `content` already.
abbrev pub Restored : List ℕ → List ℕ → ℕ → Type 0
Restored content bytes i = get_elem? bytes i ≡ get_elem? content i

bound_of_get_elem? :
    (xs ys : List ℕ) (i : ℕ) → i < length ys → get_elem? xs i ≡ get_elem? ys i → i < length xs
bound_of_get_elem? [] [] i h e = h
bound_of_get_elem? [] (y ∷ ys) zero h e = cc
bound_of_get_elem? [] (y ∷ ys) (suc i) h e =
    let there = bound_of_get_elem? [] ys i (omega arith) e in absurd (omega arith)
bound_of_get_elem? (x ∷ xs) [] i h e = absurd (omega arith)
bound_of_get_elem? (x ∷ xs) (y ∷ ys) zero h e = omega arith
bound_of_get_elem? (x ∷ xs) (y ∷ ys) (suc i) h e =
    let rest = bound_of_get_elem? xs ys i (omega arith) e in omega arith

-- Writing a piece of the content restores what the piece holds and spoils nothing.
Restored-write_at :
    (content bytes : List ℕ) (p : Piece) (i : ℕ)
    → i < length content
    → IsSlice content p
    → Holds p i ⊎ Restored content bytes i
    → Restored content (write_at p.offset p.payload bytes) i
Restored-write_at content bytes p i h s (inl held) =
    get_elem?-write_at_in p.offset i p.payload bytes held.0 held.1
    ∙ get_elem?-slice content p i s held
Restored-write_at content bytes p i h s (inr old) =
    let there = bound_of_get_elem? bytes content i h old in
    elim (dec_lt i p.offset) [
      | yes before ↦ get_elem?-write_at_out p.offset i p.payload bytes there (inl before) ∙ old
      | no reached ↦ elim (dec_lt i (p.offset + length p.payload)) [
        | yes held ↦
            get_elem?-write_at_in p.offset i p.payload bytes (omega arith) held
            ∙ get_elem?-slice content p i s (omega arith, held)
        | no behind ↦
            get_elem?-write_at_out p.offset i p.payload bytes there (inr (omega arith)) ∙ old
      ]
    ]

-- Pieces written one after the other.
abbrev pub write_pieces : List Piece → List ℕ → List ℕ
write_pieces [] bytes = bytes
write_pieces (p ∷ ps) bytes = write_pieces ps (write_at p.offset p.payload bytes)

abbrev pub Covered : List Piece → ℕ → Type 0
Covered [] i = ⊥
Covered (p ∷ ps) i = Holds p i ⊎ Covered ps i

Restored-write_pieces :
    (content : List ℕ) (ps : List Piece) (bytes : List ℕ) (i : ℕ)
    → i < length content
    → All (IsSlice content) ps
    → Covered ps i ⊎ Restored content bytes i
    → Restored content (write_pieces ps bytes) i
Restored-write_pieces content [] bytes i h s (inl c) = absurd c
Restored-write_pieces content [] bytes i h s (inr r) = r
Restored-write_pieces content (p ∷ ps) bytes i h s (inl (inl held)) =
    Restored-write_pieces content ps (write_at p.offset p.payload bytes) i h s.1
      (inr (Restored-write_at content bytes p i h s.0 (inl held)))
Restored-write_pieces content (p ∷ ps) bytes i h s (inl (inr later)) =
    Restored-write_pieces content ps (write_at p.offset p.payload bytes) i h s.1 (inl later)
Restored-write_pieces content (p ∷ ps) bytes i h s (inr r) =
    Restored-write_pieces content ps (write_at p.offset p.payload bytes) i h s.1
      (inr (Restored-write_at content bytes p i h s.0 (inr r)))

length-write_pieces :
    (content : List ℕ) (ps : List Piece) (bytes : List ℕ)
    → All (IsSlice content) ps
    → length bytes ≤ length content
    → length (write_pieces ps bytes) ≤ length content
length-write_pieces content [] bytes s h = h
length-write_pieces content (p ∷ ps) bytes s h =
    length-write_pieces content ps (write_at p.offset p.payload bytes) s.1
      (length-write_at p.offset p.payload bytes (length content) h s.0.within)

-- Slices of `content` that cover it restore it, in any order and however often each is written,
-- in a file that is no longer than it.
pub write_pieces-restores :
    (content : List ℕ) (ps : List Piece) (bytes : List ℕ)
    → All (IsSlice content) ps
    → length bytes ≤ length content
    → ((i : ℕ) → i < length content → Covered ps i)
    → write_pieces ps bytes ≡ content
write_pieces-restores content ps bytes s h all =
    eq_of_get_elem? (write_pieces ps bytes) content (length-write_pieces content ps bytes s h)
      (λ i k. Restored-write_pieces content ps bytes i k s (inl (all i k)))
