-- ===== src/Decoder/Threads.antt =====
-- The threads of `start_decoding` (decoder.rs): block decoders between the packet dispatcher and
-- the block forwarder.
use garuda_codec.Base.{
  ℕ, ◌≡◌, sym, true, false, List, [], ◌∷◌, ◌++◌, Option, none, some, append-nil, append_assoc,
  arith, ◌⊎◌, inl, inr, Option-cases,
}
use garuda_codec.BlockDecoder.{BlockDecoder, decode, decode_stream}
use garuda_codec.Channel.{send}
use garuda_codec.Dispatch.Routes.{picked}
use garuda_codec.Merge.{Merge}
use garuda_codec.Merge.Growing.{Merge-cong}
use garuda_codec.Pipeline.{empty}
use garuda_codec.RaptorQ.{RaptorQ}
use garuda_codec.Workers.{Pool, State, Reach, IsFinal, outputs, started}
use garuda_codec.Workers.Written.{written-Merge}

module _ (R : RaptorQ) where
  -- A round of the loop of `decode_stream`, up to its send.
  unfoldable pub decode_round : BlockDecoder R → R.Packet → Option (BlockDecoder R × List (List ℕ))
  decode_round self packet =
      let (self', decoded) = decode R self packet in
      elim decoded [
        | some decoded_block ↦ some (self', decoded_block ∷ [])
        | none ↦ some (self', [])
      ]

  -- The threads, with `n` block decoders; their queues hold packets, that of the forwarder blocks.
  abbrev pub decoder_pool : BlockDecoder R → ℕ → Pool R.Packet (List ℕ) (BlockDecoder R)
  decoder_pool decoder n = record {
    key = R.source_block_number;
    workers = n;
    capacity = 10;
    fresh = decoder;
    work = decode_round;
  }

  decode_stream-outputs :
      (decoder : BlockDecoder R) (n : ℕ) (self : BlockDecoder R) (packets : List R.Packet)
      (queued : List (List ℕ))
      → (decode_stream R self packets (record { queued = queued; room = none })).1.queued
        ≡ queued ++ outputs (decoder_pool decoder n) self packets
  unfolding decode_stream decode_round send
  decode_stream-outputs decoder n self [] queued = rw append-nil
  decode_stream-outputs decoder n self (packet ∷ packets) queued =
      elim (Option-cases (decode R self packet).1) [
        | inl e ↦
            ground (arith, decode_stream-outputs decoder n (decode R self packet).0 packets queued)
        | inr (block, e) ↦ ground (
          arith,
          decode_stream-outputs decoder n (decode R self packet).0 packets (queued ++ (block ∷ [])),
          append_assoc queued (block ∷ [])
              (outputs (decoder_pool decoder n) (decode R self packet).0 packets),
        )
      ]

  -- When all threads that `start_decoding` has spawned have ended, in whatever order the scheduler
  -- has let them run, and no read and no write has failed: the dispatcher has sent a beginning of
  -- its packets, and all of them if it was not stopped, and the blocks that were written are an
  -- interleaving of what `decode_stream` sends for the packets of each worker, those whose block
  -- id is the number of the worker modulo `n`.
  pub decoder_threads :
      (decoder : BlockDecoder R) (n : ℕ) (packets : List R.Packet)
      (s : State R.Packet (List ℕ) (BlockDecoder R))
      → Reach (decoder_pool decoder n) (started (decoder_pool decoder n) packets) s
      → IsFinal (decoder_pool decoder n) s
      → s.failed ≡ false
      → (sent : List R.Packet) × (packets ≡ sent ++ s.todo)
        × ((s.interrupted ≡ true) ⊎ (packets ≡ sent))
        × Merge n
            (λ q. (decode_stream R decoder (picked R.source_block_number n q sent) empty).1.queued)
            s.written
  decoder_threads decoder n packets s r final clean =
      let (sent, e, all, merged) = written-Merge (decoder_pool decoder n) packets s r final clean in
      (
        sent,
        e,
        all,
        Merge-cong n merged (λ q h.
            sym
              (decode_stream-outputs decoder n decoder (picked R.source_block_number n q sent) [])),
      )
