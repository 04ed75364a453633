-- ===== src/Pipeline.antt =====
-- The whole path of the data: input stream, block dispatcher, block encoders, packet queue, wire,
-- packet dispatcher, block decoders (encoder.rs, decoder.rs), with workers in any interleaving.
mod Tests
pub mod Lossless
pub mod Losses
pub mod Session
pub mod Recovering
use garuda_codec.Base.{
  ℕ, zero, suc, ◌+◌, ◌%◌, ◌<◌, ◌≤◌, ◌≡◌, refl, sym, subst, ap, ◌∙◌, arith, List, [], ◌∷◌, ◌++◌,
}
use garuda_codec.Base.{
  Option, none, some, All, All-append, All-weaken, All-map, All-replicate, length, length-replicate,
  get_elem?-replicate, map, replicate, get_elem?, Outcome, ok,
}
use garuda_codec.Channel.{Sender, send_all-Fits}
use garuda_codec.RaptorQ.{RaptorQ, IsLawful, IsPacketOf, payload_id_len}
use garuda_codec.BlockEncoder.{Block}
use garuda_codec.BlockEncoder.Configuration.{symbol_len}
use garuda_codec.BlockEncoder.Encode.{IsUsable, block-IsBlock}
use garuda_codec.BlockDecoder.{decode_stream}
use garuda_codec.BlockDecoder.Runs.{decode_stream-decoded_blocks}
use garuda_codec.BlockDecoder.Recovery.{Reception, IsReception, IdsAlternate, HasSource, arriving}
use garuda_codec.BlockDecoder.Recovery.{
  delivered, decoder_for, decoded_blocks-delivered, encoder_at, decoded_blocks_same_id,
}
use garuda_codec.BlockDispatcher.Routing.{numbered, block_id}
use garuda_codec.BlockDispatcher.Ids.{Alternates, picked-Alternates, picked_single}
use garuda_codec.Dispatch.Routes as Routes
use garuda_codec.Dispatch.Routes.{picked, picked-keys}
use garuda_codec.Io.{ReadEvent}
use garuda_codec.Io.Exact.{bytes_of, IsQuiet}
use garuda_codec.Merge.{Merge, IsKeyed, picked-Merge, All-Merge}
use garuda_codec.PacketDispatcher.{dispatch}
use garuda_codec.PacketDispatcher.Routing.{wire, IsFramed, dispatch_packets}

-- A queue into which nothing was sent, with a receiver that stays.
abbrev pub empty {ℓ} : {A : Type ℓ} → Sender A
empty = record { queued = []; room = none }

module _ (R : RaptorQ) where
  ids_change :
      (b m : ℕ) (rs : List (Reception R)) (last : Option ℕ)
      → Alternates last (map (λ r. r.block) rs)
      → IdsAlternate R b m last rs
  ids_change b m [] last h = tt
  ids_change b m (r ∷ rs) last h = (h.0, ids_change b m rs _ h.1)

  module _ (laws : IsLawful R) (b m : ℕ) (u : IsUsable R b m) where
    reception_keys :
        (n q : ℕ) (rs : List (Reception R))
        → All (IsReception R b m) rs
        → All (λ (r : Reception R). r.block.id % n ≡ q) rs
        → All (λ p. R.source_block_number p % n ≡ q) (arriving R rs)
    reception_keys n q [] h k = tt
    reception_keys n q (r ∷ rs) h k =
        All-append _ r.packets (arriving R rs)
          (All-weaken (IsPacketOf R (encoder_at R b m r.block)) _
            (λ p i.
              ap (λ (t : ℕ). t % n)
                (laws.block_number r.block.id _ _ r.block.content p
                  (block-IsBlock R b m r.block u h.0.id_fits h.0.sized) i)
              ∙ k.0)
            r.packets h.0.of_block)
          (reception_keys n q rs h.1 k.1)

    reception-IsFramed :
        (rs : List (Reception R))
        → All (IsReception R b m) rs
        → All (IsFramed R (payload_id_len + symbol_len R b m)) (arriving R rs)
    reception-IsFramed [] h = tt
    reception-IsFramed (r ∷ rs) h =
        let block = block-IsBlock R b m r.block u h.0.id_fits h.0.sized in
        All-append _ r.packets (arriving R rs)
          (All-weaken (IsPacketOf R (encoder_at R b m r.block)) _
            (λ p i. (
              laws.length-serialize r.block.id _ _ r.block.content p block i,
              laws.deserialize-serialize p
                  (rw (laws.block_number r.block.id _ _ r.block.content p block i) h.0.id_fits),
            ))
            r.packets h.0.of_block)
          (reception-IsFramed rs h.1)

    -- What queue `q` of `n` is to get, of the blocks numbered from `id` on: all its blocks, in
    -- order, and of each some of its packets.
    pub record IsArrival (n id : ℕ) (contents : List (List ℕ)) (arrivals : ℕ → List (Reception R))
        : Type 0 where
      pub blocks :
          (q : ℕ)
          → q < n
          → map (λ r. r.block) (arrivals q) ≡ picked block_id n q (numbered id contents)
      pub receptions : (q : ℕ) → q < n → All (IsReception R b m) (arrivals q)

    arrival_keys :
        (n q : ℕ) (blocks : List Block) (rs : List (Reception R))
        → map (λ r. r.block) rs ≡ picked block_id n q blocks
        → All (λ (r : Reception R). r.block.id % n ≡ q) rs
    arrival_keys n q blocks rs e =
        All-map (λ (r : Reception R). r.block) (λ (x : Block). x.id % n ≡ q) rs
          (rw e (picked-keys block_id n q blocks))

    -- Choosing by the block id gives back what arrives of the blocks of a worker.
    pub picked-arriving :
        (n id : ℕ) (contents : List (List ℕ)) (arrivals : ℕ → List (Reception R))
        (arrived : List R.Packet)
        → IsArrival n id contents arrivals
        → Merge n (λ q. arriving R (arrivals q)) arrived
        → (q : ℕ) → q < n
        → picked R.source_block_number n q arrived ≡ arriving R (arrivals q)
    picked-arriving n id contents arrivals arrived a merge =
        picked-Merge R.source_block_number n merge (λ j k.
          reception_keys n j (arrivals j) (a.receptions j k)
            (arrival_keys n j _ (arrivals j) (a.blocks j k)))

    abbrev pub packet_size : ℕ
    packet_size = payload_id_len + symbol_len R b m

    -- The queues of the packet dispatcher, for streams of known keys.
    queue_filled :
        (n : ℕ) (streams : ℕ → List R.Packet) (zs : List R.Packet) (tail : List ℕ)
        (input : List ReadEvent)
        → 0 < n
        → Merge n streams zs
        → IsKeyed R.source_block_number n streams
        → All (IsFramed R packet_size) zs
        → IsQuiet input
        → bytes_of input ≡ wire R zs tail
        → length tail < packet_size
        → (q : ℕ) → q < n
        → get_elem?
            (dispatch R (record { packet_size = packet_size }) input (replicate n empty)).queues
            q
          ≡ some (record { queued = streams q; room = none })
    queue_filled n streams zs tail input pos merge keyed framed quiet e short q h =
        let key = R.source_block_number in
        let len = length-replicate n (empty {A = R.Packet}) in
        let sent =
          dispatch_packets R packet_size zs tail input (replicate n empty) (omega arith) quiet e
            framed short (omega arith) (All-replicate _ n empty refl) in
        rw (sent, len)
          (Routes.get_elem?-delivered key n zs 0 q q (replicate n empty) empty
              (get_elem?-replicate n q empty h) (omega arith)
            ∙ rw (picked-Merge key n merge keyed q h))

    pub decoder_sends :
        (n q id : ℕ) (contents : List (List ℕ)) (rs : List (Reception R))
        → 0 < n
        → n ≤ 128
        → q < n
        → id < 256
        → map (λ r. r.block) rs ≡ picked block_id n q (numbered id contents)
        → All (IsReception R b m) rs
        → decode_stream R (decoder_for R b m) (arriving R rs) empty
          ≡ (ok tt, record { queued = delivered R b m rs; room = none })
    decoder_sends n q id contents rs pos few h id_fits e all =
        let ids =
          ids_change b m rs none (rw e (picked-Alternates n q pos few h id contents id_fits)) in
        rw (
          decode_stream-decoded_blocks,
          decoded_blocks-delivered R laws b m u rs all ids,
          send_all-Fits (delivered R b m rs) [] none tt,
        )

    -- Under the laws of `raptorq`, for a block of a whole number of symbols, at most 56403, and for
    -- 1 to 128 workers on both sides: let the blocks of the input be numbered from `id` on and
    -- spread over the workers by number, let some packets of each block survive, and let the
    -- packets of different workers reach the wire in any interleaving. Then, however the wire
    -- delivers the bytes and up to a packet's length of bytes after them, as long as no read ends
    -- the stream before its end, queue `q` of the packet dispatcher gets exactly the surviving
    -- packets of the blocks of encoder `q`, in order, and decoder `q` returns without error and
    -- sends exactly the contents of those blocks whose packets are enough for a fresh
    -- `SourceBlockDecoder`.
    pub pipeline :
        (n id : ℕ) (contents : List (List ℕ)) (arrivals : ℕ → List (Reception R))
        (zs : List R.Packet) (tail : List ℕ) (input : List ReadEvent)
        → 0 < n
        → n ≤ 128
        → id < 256
        → IsArrival n id contents arrivals
        → Merge n (λ q. arriving R (arrivals q)) zs
        → IsQuiet input
        → bytes_of input ≡ wire R zs tail
        → length tail < packet_size
        → (q : ℕ) → q < n
        → (get_elem?
              (dispatch R (record { packet_size = packet_size }) input (replicate n empty)).queues
              q
            ≡ some (record { queued = arriving R (arrivals q); room = none }))
          × (decode_stream R (decoder_for R b m) (arriving R (arrivals q)) empty
              ≡ (ok tt, record { queued = delivered R b m (arrivals q); room = none }))
    pipeline n id contents arrivals zs tail input pos few id_fits a merge quiet e short q h = (
      queue_filled n _ zs tail input pos merge
          (λ j k.
            reception_keys n j (arrivals j) (a.receptions j k)
              (arrival_keys n j _ (arrivals j) (a.blocks j k)))
          (All-Merge _ n merge (λ j k. reception-IsFramed (arrivals j) (a.receptions j k))) quiet e
          short q h,
      decoder_sends n q id contents (arrivals q) pos few h id_fits (a.blocks q h)
          (a.receptions q h),
    )

    -- Under the same laws and sizes, with more than 128 workers the system loses data without any
    -- loss on the wire: in every queue `q` with `256 ≤ q + n` all blocks have the same id, so
    -- decoder `q` sends the first of them and no other, though every packet of every block arrives,
    -- and reports no error.
    pub blocks_lost :
        (n q id : ℕ) (contents : List (List ℕ)) (r : Reception R) (rs : List (Reception R))
        → q < n
        → 256 ≤ q + n
        → id < 256
        → map (λ s. s.block) (r ∷ rs) ≡ picked block_id n q (numbered id contents)
        → All (IsReception R b m) (r ∷ rs)
        → HasSource R laws b m u r
        → decode_stream R (decoder_for R b m) (arriving R (r ∷ rs)) empty
          ≡ (ok tt, record { queued = r.block.content ∷ []; room = none })
    blocks_lost n q id contents r rs h k id_fits e all source =
        let ids =
          All-map (λ (s : Reception R). s.block) (λ (x : Block). x.id ≡ q) (r ∷ rs)
            (subst (λ bs. All (λ (x : Block). x.id ≡ q) bs) (sym e)
              (picked_single n q h k id contents id_fits)) in
        let same =
          All-weaken (λ (s : Reception R). s.block.id ≡ q) (λ s. s.block.id ≡ r.block.id)
            (λ s f. f ∙ sym ids.0) rs ids.1 in
        rw (
          decode_stream-decoded_blocks,
          decoded_blocks_same_id R laws b m u r rs all source same,
          send_all-Fits (r.block.content ∷ []) [] none tt,
        )
