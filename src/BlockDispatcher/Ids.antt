-- ===== src/BlockDispatcher/Ids.antt =====
-- The block ids that one queue sees: they wrap at 256, and the decoder tells blocks apart by them.
use garuda_codec.Base.{
  ℕ, ◌+◌, ◌-◌, ◌%◌, ◌<◌, ◌≤◌, ◌≡◌, refl, arith, ◌≢◌, All, List, [], ◌∷◌, ltb, ◌==◌,
}
use garuda_codec.Base.{Option, none, some, if◌then◌else◌, false, Bool-cases, inl, inr, ==_iff}
use garuda_codec.BlockEncoder.{Block}
use garuda_codec.Dispatch.Routes.{picked}
use garuda_codec.BlockDispatcher.Routing.{numbered, block_id}
use native.Mathlib.Nat.{add-mod_right, mod-eq_of_lt}

-- Each block has another id than the one before it.
abbrev pub Alternates : Option ℕ → List Block → Type 0
Alternates last [] = Unit
Alternates last (block ∷ blocks) = (last ≢ some block.id) × Alternates (some block.id) blocks

-- How far behind the id `l` the next id of the queue comes.
gap : ℕ → ℕ → ℕ → ℕ
gap n q l = if ltb (l + n) 256 then n else 256 - l + q

gap_bounds : (n q l : ℕ) → 0 < n → n ≤ 128 → q < n → l < 256 → (0 < gap n q l) × (gap n q l < 256)
unfolding gap
gap_bounds n q l p h k m = ground arith

gap_hits :
    (n q l : ℕ) → 0 < n → n ≤ 128 → q < n → l < 256 → l % n ≡ q → (l + gap n q l) % 256 % n ≡ q
unfolding gap
gap_hits n q l p h k m e = ground (arith, add-mod_right l n, mod-eq_of_lt k)

at_gap :
    (n q l d cur : ℕ)
    → 0 < n
    → n ≤ 128
    → q < n
    → l < 256
    → l % n ≡ q
    → cur ≡ (l + d) % 256
    → (cur % n == q) ≡ false
    → d ≡ gap n q l
    → ⊥
at_gap n q l d cur p h k m e f miss g = ground (arith, gap_hits n q l p h k m e)

module _ (n q : ℕ) (pos : 0 < n) (few : n ≤ 128) (in_range : q < n) where
  ids_from :
      (contents : List (List ℕ)) (l d cur : ℕ)
      → l < 256
      → l % n ≡ q
      → 0 < d
      → d ≤ gap n q l
      → cur ≡ (l + d) % 256
      → Alternates (some l) (picked block_id n q (numbered cur contents))
  ids_from [] l d cur a b c e f = tt
  ids_from (content ∷ contents) l d cur a b c e f =
      let bounds = gap_bounds n q l pos few in_range a in
      elim (Bool-cases (cur % n == q)) [
        | inl hit ↦
            let other : l ≢ cur = λ g. omega arith in
            rw hit (
              λ g. other (cc),
              ids_from contents cur 1 ((cur + 1) % 256) (omega arith) ((==_iff _ _).0 hit)
                  (omega arith) (gap_bounds n q cur pos few in_range (omega arith)).0 refl,
            )
        | inr miss ↦
            let later : d ≢ gap n q l = λ g. at_gap n q l d cur pos few in_range a b f miss g in
            rw miss (
              ids_from contents l (d + 1) ((cur + 1) % 256) a b (omega arith) (omega arith)
                (omega arith))
      ]

  -- With 1 to 128 queues, two blocks that follow one another in a queue never have the same id,
  -- whatever id the dispatcher starts from and although ids repeat after 256 blocks.
  pub picked-Alternates :
      (id : ℕ) (contents : List (List ℕ))
      → id < 256
      → Alternates none (picked block_id n q (numbered id contents))
  picked-Alternates id [] h = tt
  picked-Alternates id (content ∷ contents) h = elim (Bool-cases (id % n == q)) [
    | inl hit ↦ rw hit (
      λ g. cc,
      ids_from contents id 1 ((id + 1) % 256) h ((==_iff _ _).0 hit) (omega arith)
          (gap_bounds n q id pos few in_range h).0 refl,
    )
    | inr miss ↦ rw miss (picked-Alternates ((id + 1) % 256) contents (omega arith))
  ]

-- With more than 128 queues some queues see a single id: every block of queue `q` has the id `q`.
pub picked_single :
    (n q : ℕ)
    → q < n
    → 256 ≤ q + n
    → (id : ℕ) (contents : List (List ℕ)) → id < 256
    → All (λ (block : Block). block.id ≡ q) (picked block_id n q (numbered id contents))
picked_single n q h k id [] i = tt
picked_single n q h k id (content ∷ contents) i = elim (Bool-cases (id % n == q)) [
  | inl hit ↦ rw hit (
    grind (arith, (==_iff _ _).0 hit),
    picked_single n q h k ((id + 1) % 256) contents (omega arith),
  )
  | inr miss ↦ rw miss (picked_single n q h k ((id + 1) % 256) contents (omega arith))
]
