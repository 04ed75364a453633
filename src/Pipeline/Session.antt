-- ===== src/Pipeline/Session.antt =====
-- Encoder and decoder with their threads (encoder.rs, decoder.rs), from the bytes of the input to
-- the blocks that the forwarder of the decoder writes.
use garuda_codec.BlockEncoder.Configuration.{symbol_len}
use garuda_codec.RaptorQ.{symbol_id_bits}
use garuda_codec.Base.{◌/◌}
use garuda_codec.Base.{
  ℕ, ◌+◌, ◌%◌, ◌^◌, ◌<◌, ◌≤◌, ◌≡◌, refl, sym, ap, ◌∙◌, arith, List, [], ◌∷◌, length, map, All,
  false, none,
}
use garuda_codec.BlockDecoder.{BlockDecoder, decode_stream}
use garuda_codec.BlockDecoder.Recovery.{
  Reception, IsReception, HasSource, encoder_at, arriving, decoder_for,
}
use garuda_codec.BlockDispatcher.Routing.{joined, numbered, block_id}
use garuda_codec.BlockEncoder.{Block, BlockEncoder}
use garuda_codec.BlockEncoder.Configuration.{encoder_for}
use garuda_codec.BlockEncoder.Encode.{IsUsable}
use garuda_codec.BlockEncoder.Stream.{stream_of, IsSized, encode_stream_ok}
use garuda_codec.Decoder.Threads.{decoder_pool, decoder_threads}
use garuda_codec.Dispatch.Routes.{picked}
use garuda_codec.Encoder.Threads.{encoder_pool, encoder_threads}
use garuda_codec.Io.{ReadEvent}
use garuda_codec.Io.Exact.{bytes_of, IsQuiet}
use garuda_codec.Merge.{Merge}
use garuda_codec.Merge.Growing.{Merge-cong}
use garuda_codec.Merge.Dropping.{Drops, Drops-Merge}
use garuda_codec.Pipeline.Losses.{KeepsSource, survivors_of_blocks, choose_below}
use garuda_codec.Base.{All-weaken, All-self}
use garuda_codec.PacketDispatcher.Routing.{wire}
use garuda_codec.Pipeline.{IsArrival, empty, packet_size, pipeline, picked-arriving}
use garuda_codec.Pipeline.Lossless.{
  All-picked, All-numbered, queued, decoded_by, dispatched_blocks, IsTransmission, lossless,
}
use garuda_codec.RaptorQ.{RaptorQ, IsLawful}
use garuda_codec.Workers.{State, Reach, IsFinal, started}
use garuda_codec.Workers.Written.{unless_interrupted}
use mathlib.Core.List.{Memᴰ}

numbered_ids :
    (id : ℕ) (contents : List (List ℕ))
    → id < 256
    → All (λ (block : Block). block.id < 256) (numbered id contents)
numbered_ids id [] h = tt
numbered_ids id (content ∷ contents) h = (h, numbered_ids ((id + 1) % 256) contents (omega arith))

module _ (R : RaptorQ) (laws : IsLawful R) (b m r : ℕ) (u : IsUsable R b m)
    (fits : b / symbol_len R b m + r ≤ 2 ^ symbol_id_bits) where
  abbrev pub EncoderState : Type 0
  EncoderState = State Block R.Packet (BlockEncoder R)

  abbrev pub DecoderState : Type 0
  DecoderState = State R.Packet (List ℕ) (BlockDecoder R)

  -- No source packet of a block of the input.
  abbrev pub IsSpare : ℕ → List (List ℕ) → R.Packet → Type 0
  IsSpare id contents p =
      (block : Block)
      → Memᴰ block (numbered id contents)
      → ¬ Memᴰ p (R.source_packets (encoder_at R b m block))

  -- `sender` and `receiver` are states in which the threads of the encoder and of the decoder have
  -- ended, each after any schedule, nothing has failed, and no `stop` was seen. The dispatchers
  -- read the blocks of `input` and the packets of `wire_input`. The wire delivers `arrived`, which
  -- is what the encoder has written, except that packets other than source packets may be lost.
  pub record IsSession (n id : ℕ) (contents : List (List ℕ)) (input wire_input : List ReadEvent)
      (sender : EncoderState) (arrived : List R.Packet) (receiver : DecoderState) (tail : List ℕ)
      : Type 0 where
    pub some_worker : 0 < n
    pub few_workers : n ≤ 128
    pub id_fits : id < 256
    pub quiet : IsQuiet input
    pub input_bytes : bytes_of input ≡ joined contents []
    pub sized : All (λ content. length content ≡ b) contents
    pub encoded :
        let pool = encoder_pool R (encoder_for R b m r) n in
        Reach pool (started pool (numbered id contents)) sender × IsFinal pool sender
    pub encoder_clean : sender.failed ≡ false
    pub never_stopped : sender.interrupted ≡ false
    pub losses : Drops (IsSpare id contents) sender.written arrived
    pub wire_quiet : IsQuiet wire_input
    pub wire_bytes : bytes_of wire_input ≡ wire R arrived tail
    pub short_tail : length tail < packet_size R laws b m u
    pub decoded :
        let pool = decoder_pool R (decoder_for R b m) n in
        Reach pool (started pool arrived) receiver × IsFinal pool receiver
    pub decoder_clean : receiver.failed ≡ false
    pub decoder_never_stopped : receiver.interrupted ≡ false

  module _ (n id : ℕ) (contents : List (List ℕ)) (input wire_input : List ReadEvent)
      (sender : EncoderState) (arrived : List R.Packet) (receiver : DecoderState) (tail : List ℕ)
      (pos : 0 < b)
      (i : IsSession n id contents input wire_input sender arrived receiver tail) where
    abbrev blocks_of : ℕ → List Block
    blocks_of q = picked block_id n q (numbered id contents)

    blocks-IsSized : (q : ℕ) → All (IsSized R b m r) (blocks_of q)
    blocks-IsSized q =
        All-picked block_id n (IsSized R b m r) q (numbered id contents)
          (All-numbered (λ content. length content ≡ b) id contents i.sized)

    blocks_ids : (q : ℕ) → All (λ (block : Block). block.id < 256) (blocks_of q)
    blocks_ids q = All-picked block_id n _ q _ (numbered_ids id contents i.id_fits)

    blocks_kept :
        (q : ℕ) → All (KeepsSource R laws b m r u fits (IsSpare id contents)) (blocks_of q)
    blocks_kept q =
        All-weaken (λ (block : Block). Memᴰ block (numbered id contents)) _
          (λ block there p spare. spare block there) (blocks_of q)
          (All-picked block_id n _ q _ (All-self (numbered id contents)))

    packets_merged : Merge n (λ q. stream_of R b m r (blocks_of q)) sender.written
    packets_merged =
        let (sent, e, complete, merged) =
          encoder_threads R (encoder_for R b m r) n (numbered id contents) sender i.encoded.0
            i.encoded.1 i.encoder_clean in
        let all =
          unless_interrupted (encoder_pool R (encoder_for R b m r) n) sender i.never_stopped
            complete in
        Merge-cong n merged (λ q h.
          rw (sym all, encode_stream_ok R b m r (blocks_of q) [] none (blocks-IsSized q) tt) refl)

    abbrev IsLeft : (ℕ → List R.Packet) → ℕ → List (Reception R) → Type 0
    IsLeft left q rs =
        (map (λ (s : Reception R). s.block) rs ≡ blocks_of q)
        × All (IsReception R b m) rs
        × All (HasSource R laws b m u) rs
        × (left q ≡ arriving R rs)

    -- For each worker what arrives of its blocks.
    survivors :
        (arrivals : ℕ → List (Reception R)) × IsArrival R laws b m u n id contents arrivals
        × ((q : ℕ) → q < n → All (HasSource R laws b m u) (arrivals q))
        × Merge n (λ q. arriving R (arrivals q)) arrived
    survivors =
        let (left, merged, dropped) = Drops-Merge (IsSpare id contents) n packets_merged i.losses in
        let (arrivals, all) = choose_below (IsLeft left) n [] (λ q h.
          let (rs, same, all, source, e) =
            survivors_of_blocks R laws b m r u fits (IsSpare id contents) (blocks_of q) (left q)
              (blocks_ids q) (blocks-IsSized q) (blocks_kept q) (dropped q h) in
          (rs, (same, all, source, e))) in
        (
          arrivals,
          record { blocks = λ q h. (all q h).0; receptions = λ q h. (all q h).1 },
          (λ q h. (all q h).2),
          Merge-cong n merged (λ q h. (all q h).3),
        )

    -- Decoder `q` gets what the packet dispatcher makes of the wire.
    decoder_input :
        (arrivals : ℕ → List (Reception R))
        → IsArrival R laws b m u n id contents arrivals
        → Merge n (λ q. arriving R (arrivals q)) arrived
        → (q : ℕ) → q < n
        → (decode_stream R
            (decoder_for R b m)
            (picked R.source_block_number n q arrived)
            empty).1.queued
          ≡ decoded_by R laws b m u n q wire_input
    decoder_input arrivals arrival merged q h =
        let (got, returned) =
          pipeline R laws b m u n id contents arrivals arrived tail wire_input i.some_worker
            i.few_workers i.id_fits arrival merged i.wire_quiet i.wire_bytes i.short_tail q h in
        let same = picked-arriving R laws b m u n id contents arrivals arrived arrival merged q h in
        ap (λ (ps : List R.Packet). (decode_stream R (decoder_for R b m) ps empty).1.queued)
          (same ∙ sym (ap queued got))

    -- What the threads do is a transmission in which every source packet arrives.
    pub session-IsTransmission :
        (arrivals : ℕ → List (Reception R)) × IsTransmission R laws b m u n id input wire_input
          arrivals arrived tail receiver.written
    session-IsTransmission =
        let (arrivals, arrival, source, merged) = survivors in
        let (sent, e, complete, returned) =
          decoder_threads R (decoder_for R b m) n arrived receiver i.decoded.0 i.decoded.1
            i.decoder_clean in
        let all =
          unless_interrupted (decoder_pool R (decoder_for R b m) n) receiver i.decoder_never_stopped
            complete in
        (
          arrivals,
          record {
            some_worker = i.some_worker;
            few_workers = i.few_workers;
            id_fits = i.id_fits;
            quiet = i.quiet;
            blocks = λ q h.
                dispatched_blocks b n id contents input pos i.quiet i.input_bytes i.sized q h
                ∙ sym (arrival.blocks q h);
            receptions = arrival.receptions;
            sources = source;
            merged = merged;
            wire_quiet = i.wire_quiet;
            wire_bytes = i.wire_bytes;
            short_tail = i.short_tail;
            returned =
                Merge-cong n returned
                  (λ q h. rw (sym all) (decoder_input arrivals arrival merged q h));
          },
        )

  -- Under the laws of `raptorq`, for a block of a whole number of symbols, at most 56403, at most
  -- `2 ^ 24` symbols and repair packets of a block together, and for 1 to 128 workers on each side:
  -- let the bytes of the input be whole blocks, and let the threads of the encoder and of the
  -- decoder run as `IsSession` says, under any schedule, through bounded queues, until all have
  -- ended and nothing has failed, with a wire that delivers what the encoder has written, or loses
  -- repair packets of it. Then what the decoder has written is the blocks of the input: none that
  -- was not there, and each of them; it takes the blocks whose ids are equal modulo `n` in their
  -- order and each block of the input once.
  pub threads_lossless :
      (n id : ℕ) (contents : List (List ℕ)) (input wire_input : List ReadEvent)
      (sender : EncoderState) (arrived : List R.Packet) (receiver : DecoderState) (tail : List ℕ)
      → 0 < b
      → IsSession n id contents input wire_input sender arrived receiver tail
      → All (λ content. Memᴰ content contents) receiver.written
        × ((content : List ℕ) → Memᴰ content contents → Memᴰ content receiver.written)
        × Merge n
            (λ q. map (λ (x : Block). x.content) (picked block_id n q (numbered id contents)))
            receiver.written
  threads_lossless n id contents input wire_input sender arrived receiver tail pos i =
      let (arrivals, t) =
        session-IsTransmission n id contents input wire_input sender arrived receiver tail pos i in
      lossless R laws b m u n id contents input wire_input arrivals arrived tail receiver.written
        pos i.input_bytes i.sized t
