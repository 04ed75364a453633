-- ===== src/BlockDecoder/Recovery.antt =====
-- Which blocks come out of the decoder, under the laws of `raptorq`.
use garuda_codec.Base.{
  ℕ, ◌%◌, ◌<◌, ◌≡◌, ◌≢◌, refl, arith, Bool, true, false, Option, none, some, List, [], ◌∷◌, ◌++◌,
}
use garuda_codec.Base.{All, length, map, if◌then◌else◌, Option-cases, inl, inr, ok}
use garuda_codec.Base.{All-append, All-weaken, length-map, append-ne-nil, append-nil, ◌∙◌, ap}
use garuda_codec.Channel.{Fits, room_after, send_all-Fits}
use garuda_codec.RaptorQ.{RaptorQ, IsLawful, IsPacketOf, feed, first_decoded}
use garuda_codec.BlockEncoder.{Block, get_configuration}
use garuda_codec.BlockEncoder.Configuration.{symbol_len}
use garuda_codec.BlockEncoder.Encode.{IsUsable, block-IsBlock, source_encoder}
use garuda_codec.BlockDecoder.{BlockDecoder, new, decode_stream}
use garuda_codec.BlockDecoder.Runs.{
  decode_stream-decoded_blocks, decoded_blocks, decoded_blocks-recovered, recovered, Run,
  Alternates,
}
use garuda_codec.BlockDecoder.Runs.{all_packets, IsRun}
use mathlib.Core.List.{Memᴰ}

abbrev pub is_some {ℓ} : {A : Type ℓ} → Option A → Bool
is_some none = false
is_some (some a) = true

module _ (R : RaptorQ) where
  -- The decoder that `new` returns.
  abbrev pub decoder_for : ℕ → ℕ → BlockDecoder R
  decoder_for b m = record {
    block_size = b;
    config = R.with_defaults b m;
    current_block_id = none;
    current_decoder = R.new_decoder 0 (R.with_defaults b m) b;
    current_block_is_decoded = false;
  }

  pub decoder_new : (b m : ℕ) → b % symbol_len R b m ≡ 0 → new R b m ≡ ok (decoder_for b m)
  unfolding new get_configuration
  decoder_new b m h = ground arith

  -- A block and the packets of it that came through.
  pub record Reception : Type 0 where
    pub block : Block
    pub packets : List R.Packet

  feed-append :
      (d : R.SourceDecoder) (ps : List R.Packet) (p : R.Packet)
      → feed R d (ps ++ (p ∷ [])) ≡ (R.decode_packets (feed R d ps) (p ∷ [])).0
  feed-append d [] p = refl
  feed-append d (q ∷ ps) p = feed-append (R.decode_packets d (q ∷ [])).0 ps p

  module _ (b m : ℕ) where
    -- The sender's encoder of a block; the number of repair packets does not show in it.
    abbrev pub encoder_at : Block → R.SourceEncoder
    encoder_at block = source_encoder R b m 0 block

    abbrev pub fresh : ℕ → R.SourceDecoder
    fresh id = R.new_decoder id (R.with_defaults b m) b

    -- The reception is of a block of the configured size, and the packets are packets of it.
    pub record IsReception (r : Reception) : Type 0 where
      pub id_fits : r.block.id < 256
      pub sized : length r.block.content ≡ b
      pub some_packet : r.packets ≢ []
      pub of_block : All (IsPacketOf R (encoder_at r.block)) r.packets

    -- Each block has another id than the one before it.
    abbrev pub IdsAlternate : Option ℕ → List Reception → Type 0
    IdsAlternate last [] = Unit
    IdsAlternate last (r ∷ rs) = (last ≢ some r.block.id) × IdsAlternate (some r.block.id) rs

  abbrev pub run_of : Reception → Run R
  run_of r = record { id = r.block.id; packets = r.packets }

  -- The packets in the order in which they arrive.
  abbrev pub arriving : List Reception → List R.Packet
  arriving [] = []
  arriving (r ∷ rs) = r.packets ++ arriving rs

  -- The contents of the blocks whose packets were enough for a fresh decoder.
  abbrev pub delivered : ℕ → ℕ → List Reception → List (List ℕ)
  delivered b m [] = []
  delivered b m (r ∷ rs) =
      (if is_some (first_decoded R (fresh b m r.block.id) r.packets)
        then r.block.content ∷ []
        else [])
      ++ delivered b m rs

  arriving-all_packets : (rs : List Reception) → arriving rs ≡ all_packets R (map run_of rs)
  arriving-all_packets [] = refl
  arriving-all_packets (r ∷ rs) = rw (arriving-all_packets rs)

  module _ (laws : IsLawful R) (b m : ℕ) (u : IsUsable R b m) where
    first_sound :
        (block : Block) (before ps : List R.Packet) (out : List ℕ)
        → block.id < 256
        → length block.content ≡ b
        → All (IsPacketOf R (encoder_at b m block)) before
        → All (IsPacketOf R (encoder_at b m block)) ps
        → first_decoded R (feed R (fresh b m block.id) before) ps ≡ some out
        → out ≡ block.content
    first_sound block before [] out h e hb hp f = cc
    first_sound block before (p ∷ ps) out h e hb hp f =
        elim (Option-cases (R.decode_packets (feed R (fresh b m block.id) before) (p ∷ [])).1) [
          | inl g ↦
              first_sound block (before ++ (p ∷ [])) ps out h e
                (All-append (IsPacketOf R (encoder_at b m block)) before (p ∷ []) hb (hp.0, tt))
                hp.1 (rw feed-append (ground arith))
          | inr (found, g) ↦
              laws.decode_sound block.id _ _ block.content before p out
                (block-IsBlock R b m block u h e) hb hp.0 (rw e (ground arith))
        ]

    recovered-delivered :
        (rs : List Reception)
        → All (IsReception b m) rs
        → recovered R (R.with_defaults b m) b (map run_of rs) ≡ delivered b m rs
    recovered-delivered [] h = refl
    recovered-delivered (r ∷ rs) h =
        elim (Option-cases (first_decoded R (fresh b m r.block.id) r.packets)) [
          | inl e ↦ ground (arith, recovered-delivered rs h.1)
          | inr (out, e) ↦ ground (
            arith,
            recovered-delivered rs h.1,
            first_sound r.block [] r.packets out h.0.id_fits h.0.sized tt h.0.of_block e,
          )
        ]

    runs_alternate :
        (rs : List Reception) (last : Option ℕ)
        → All (IsReception b m) rs
        → IdsAlternate b m last rs
        → Alternates R last (map run_of rs)
    runs_alternate [] last h k = tt
    runs_alternate (r ∷ rs) last h k = (
      h.0.some_packet,
      k.0,
      All-weaken (IsPacketOf R (encoder_at b m r.block)) _
          (λ p q.
            laws.block_number r.block.id _ _ r.block.content p
              (block-IsBlock R b m r.block u h.0.id_fits h.0.sized) q)
          r.packets h.0.of_block,
      runs_alternate rs _ h.1 k.1,
    )

    -- Under the laws of `raptorq`, for a block of a whole number of symbols, at most 56403:
    -- whatever packets of the blocks are lost, as long as some packet of each block arrives, in
    -- the order of the blocks, and each block has another id than the one before it, the decoder
    -- returns exactly the contents of the blocks whose packets are enough for a fresh
    -- `SourceBlockDecoder`, in order and unaltered.
    pub decoded_blocks-delivered :
        (rs : List Reception)
        → All (IsReception b m) rs
        → IdsAlternate b m none rs
        → decoded_blocks R (decoder_for b m) (arriving rs) ≡ delivered b m rs
    decoded_blocks-delivered rs h k =
        rw
          (
            arriving-all_packets rs,
            decoded_blocks-recovered R (decoder_for b m) (map run_of rs)
                (runs_alternate rs none h k),
          )
          (recovered-delivered rs h)

    -- The source packets of the block are among those that arrive.
    abbrev pub HasSource : Reception → Type 0
    HasSource r =
        (p : R.Packet) → Memᴰ p (R.source_packets (encoder_at b m r.block)) → Memᴰ p r.packets

    first_complete :
        (r : Reception)
        → IsReception b m r
        → HasSource r
        → first_decoded R (fresh b m r.block.id) r.packets ≡ some r.block.content
    first_complete r h source =
        let e = h.sized in
        let enough =
          laws.decode_complete r.block.id _ _ r.block.content r.packets
            (block-IsBlock R b m r.block u h.id_fits e) h.of_block source in
        elim (Option-cases (first_decoded R (fresh b m r.block.id) r.packets)) [
          | inl f ↦ absurd (enough (rw e f))
          | inr (out, f) ↦
              f ∙ ap some (first_sound r.block [] r.packets out h.id_fits e tt h.of_block f)
        ]

    pub delivered_complete :
        (rs : List Reception)
        → All (IsReception b m) rs
        → All HasSource rs
        → delivered b m rs ≡ map (λ r. r.block.content) rs
    delivered_complete [] h k = refl
    delivered_complete (r ∷ rs) h k =
        ground (arith, first_complete r h.0 k.0, delivered_complete rs h.1 k.1)

    -- If moreover, under the same laws and conditions, all source packets of each block arrive,
    -- every block is returned, and `decode_stream` sends them all to a queue that takes them.
    pub decode_stream_complete :
        (rs : List Reception) (q : List (List ℕ)) (room : Option ℕ)
        → All (IsReception b m) rs
        → IdsAlternate b m none rs
        → All HasSource rs
        → Fits room (length rs)
        → decode_stream R (decoder_for b m) (arriving rs) (record { queued = q; room = room }) ≡ (
          ok tt,
          record {
            queued = q ++ map (λ r. r.block.content) rs;
            room = room_after room (length rs);
          },
        )
    decode_stream_complete rs q room h k all fits =
        let blocks : List (List ℕ) = map (λ r. r.block.content) rs in
        let out : decoded_blocks R (decoder_for b m) (arriving rs) ≡ blocks =
          decoded_blocks-delivered rs h k ∙ delivered_complete rs h all in
        let len = length-map rs (λ (r : Reception). r.block.content) in
        rw (decode_stream-decoded_blocks, out, send_all-Fits blocks q room (rw len fits), len)

    first_decoded-append :
        (d : R.SourceDecoder) (ps qs : List R.Packet) (out : List ℕ)
        → first_decoded R d ps ≡ some out
        → first_decoded R d (ps ++ qs) ≡ some out
    first_decoded-append d [] qs out e = cc
    first_decoded-append d (p ∷ ps) qs out e =
        ground (arith, first_decoded-append (R.decode_packets d (p ∷ [])).0 ps qs out)

    arriving-IsRun :
        (id : ℕ) (rs : List Reception)
        → All (IsReception b m) rs
        → All (λ (r : Reception). r.block.id ≡ id) rs
        → IsRun R id (arriving rs)
    arriving-IsRun id [] h k = tt
    arriving-IsRun id (r ∷ rs) h k =
        All-append _ r.packets (arriving rs)
          (All-weaken (IsPacketOf R (encoder_at b m r.block)) _
            (λ p q.
              laws.block_number r.block.id _ _ r.block.content p
                (block-IsBlock R b m r.block u h.0.id_fits h.0.sized) q
              ∙ k.0)
            r.packets h.0.of_block)
          (arriving-IsRun id rs h.1 k.1)

    -- If blocks that follow one another have the same id, the first of them is returned and all
    -- others are lost, though every source packet of every block arrives.
    pub decoded_blocks_same_id :
        (r : Reception) (rs : List Reception)
        → All (IsReception b m) (r ∷ rs)
        → HasSource r
        → All (λ (s : Reception). s.block.id ≡ r.block.id) rs
        → decoded_blocks R (decoder_for b m) (arriving (r ∷ rs)) ≡ r.block.content ∷ []
    decoded_blocks_same_id r rs h source same =
        let id = r.block.id in
        let one : Run R = record { id = id; packets = arriving (r ∷ rs) } in
        let all = decoded_blocks-recovered R (decoder_for b m) (one ∷ []) (
          append-ne-nil r.packets (arriving rs) h.0.some_packet,
          (λ e. cc),
          arriving-IsRun id (r ∷ rs) h (refl, same),
          tt,
        ) in
        let out =
          first_decoded-append (fresh b m id) r.packets (arriving rs) r.block.content
            (first_complete r h.0 source) in
        rw append-nil at all ∙ ground (arith, out)
