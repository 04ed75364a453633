-- ===== src/Pipeline/Losses.antt =====
-- What arrives of the packets of some blocks when a wire loses repair packets.
use garuda_codec.Base.{◌+◌}
use garuda_codec.Base.{◌≤◌}
use garuda_codec.BlockEncoder.Configuration.{symbol_len}
use garuda_codec.RaptorQ.{symbol_id_bits}
use garuda_codec.Base.{◌/◌}
use garuda_codec.Base.{
  ℕ, zero, suc, ◌^◌, ◌<◌, ◌≡◌, refl, ap, ◌∙◌, ◌≢◌, arith, List, [], ◌∷◌, length, map, All,
  ℕ_discrete,
}
use garuda_codec.BlockDecoder.Recovery.{Reception, IsReception, HasSource, arriving, encoder_at}
use garuda_codec.BlockEncoder.{Block}
use garuda_codec.BlockEncoder.Encode.{IsUsable, block-IsBlock, packets_of, packets-IsPacketOf}
use garuda_codec.BlockEncoder.Stream.{IsSized, stream_of}
use garuda_codec.Codec.{intact-HasSource}
use garuda_codec.Merge.Dropping.{Drops, none_left, Drops-append, Drops-All, Drops-mem}
use garuda_codec.RaptorQ.{RaptorQ, IsLawful, IsPacketOf}
use garuda_codec.Workers.{update, update_same, update_other}
use mathlib.Core.List.{Memᴰ}

-- A value for each place below `n`, as one function.
pub choose_below :
    {A : Type 0} (Q : ℕ → A → Type 0) (n : ℕ) (other : A)
    → ((q : ℕ) → q < n → (a : A) × Q q a)
    → (f : ℕ → A) × ((q : ℕ) → q < n → Q q (f q))
choose_below Q zero other h = ((λ q. other), λ q k. absurd (omega arith))
choose_below Q (suc n) other h =
    let (f, all) = choose_below Q n other (λ q k. h q (omega arith)) in
    let (a, here) = h n (omega arith) in
    (
      update n a f,
      λ q k. elim (ℕ_discrete q n) [
        | yes e ↦ rw (e, update_same n a f) here
        | no e ↦ rw (update_other n q a f e) (all q (omega (arith, e)))
      ],
    )

some_member : {A : Type 0} (xs : List A) → 0 < length xs → (x : A) × Memᴰ x xs
some_member [] h = absurd (omega arith)
some_member (x ∷ xs) h = (x, Memᴰ.head refl)

mem-ne-nil : {A : Type 0} (x : A) (xs : List A) → Memᴰ x xs → xs ≢ []
mem-ne-nil x [] m e = elim m [ ]
mem-ne-nil x (y ∷ xs) m e = cc

module _ (R : RaptorQ) (laws : IsLawful R) (b m r : ℕ) (u : IsUsable R b m)
    (fits : b / symbol_len R b m + r ≤ 2 ^ symbol_id_bits) (P : R.Packet → Type 0) where
  -- No source packet of the block satisfies `P`.
  abbrev pub KeepsSource : Block → Type 0
  KeepsSource block = (p : R.Packet) → P p → ¬ Memᴰ p (R.source_packets (encoder_at R b m block))

  -- What is left of the packets of one block.
  survivors_of_block :
      (block : Block) (ps : List R.Packet)
      → block.id < 256
      → length block.content ≡ b
      → KeepsSource block
      → Drops P (packets_of R b m r block) ps
      → IsReception R b m (record { block = block; packets = ps })
        × HasSource R laws b m u (record { block = block; packets = ps })
  survivors_of_block block ps id_fits sized keeps d =
      let valid = block-IsBlock R b m block u id_fits sized in
      let source : HasSource R laws b m u (record { block = block; packets = ps }) = λ p h.
        Drops-mem P p (packets_of R b m r block) ps d (λ x. keeps p x h)
          (intact-HasSource R laws b m r u fits block id_fits sized p h) in
      let count = laws.length-source_packets block.id _ _ block.content valid in
      let (p, first) =
        some_member (R.source_packets (encoder_at R b m block))
          (omega (arith, count, valid.some_symbol)) in
      (
        record {
          id_fits = id_fits;
          sized = sized;
          some_packet = mem-ne-nil p ps (source p first);
          of_block =
              Drops-All P (IsPacketOf R (encoder_at R b m block)) (packets_of R b m r block) ps d
                (packets-IsPacketOf R laws b m r u fits block id_fits sized);
        },
        source,
      )

  -- If the packets of some blocks lose no source packet, what is left is, for each block, packets
  -- of it, with all its source packets among them.
  pub survivors_of_blocks :
      (blocks : List Block) (ps : List R.Packet)
      → All (λ (block : Block). block.id < 256) blocks
      → All (IsSized R b m r) blocks
      → All KeepsSource blocks
      → Drops P (stream_of R b m r blocks) ps
      → (rs : List (Reception R)) × (map (λ (s : Reception R). s.block) rs ≡ blocks)
        × All (IsReception R b m) rs
        × All (HasSource R laws b m u) rs
        × (ps ≡ arriving R rs)
  survivors_of_blocks [] ps ids sized keeps none_left = ([], refl, tt, tt, refl)
  survivors_of_blocks (block ∷ blocks) ps ids sized keeps d =
      let (us, vs, e, du, dv) =
        Drops-append P (packets_of R b m r block) (stream_of R b m r blocks) ps d in
      let (rs, same, all, source, f) = survivors_of_blocks blocks vs ids.1 sized.1 keeps.1 dv in
      let (here, complete) = survivors_of_block block us ids.0 sized.0 keeps.0 du in
      (
        record { block = block; packets = us } ∷ rs,
        ap (λ (t : List Block). block ∷ t) same,
        (here, all),
        (complete, source),
        e ∙ rw f,
      )
