-- ===== src/Encoder/Threads.antt =====
-- The threads of `start_encoding` (encoder.rs): block encoders between the block dispatcher and the
-- packet forwarder.
use garuda_codec.Base.{
  ℕ, ◌≡◌, true, false, List, [], ◌∷◌, ◌++◌, Option, none, some, ok, err, panic, out_of_fuel,
  append-nil, append_assoc, arith, sym, ◌⊎◌, inl, inr, outcome_cases,
}
use garuda_codec.BlockDispatcher.Routing.{block_id}
use garuda_codec.BlockEncoder.{Block, BlockEncoder, encode, encode_stream, send_packets}
use garuda_codec.Channel.{send_all-Fits}
use garuda_codec.Dispatch.Routes.{picked}
use garuda_codec.Merge.{Merge}
use garuda_codec.Merge.Growing.{Merge-cong}
use garuda_codec.Pipeline.{empty}
use garuda_codec.RaptorQ.{RaptorQ}
use garuda_codec.Workers.{Pool, State, Reach, IsFinal, outputs, started}
use garuda_codec.Workers.Written.{written-Merge}

module _ (R : RaptorQ) where
  -- A round of the loop of `encode_stream`, up to its sends.
  unfoldable pub encode_round : BlockEncoder R → Block → Option (BlockEncoder R × List R.Packet)
  encode_round self block = elim (encode R self block) [
    | ok packets ↦ some (self, packets)
    | err e ↦ none
    | panic ↦ none
    | out_of_fuel ↦ none
  ]

  -- The threads, with `n` block encoders; their queues hold blocks, that of the forwarder packets.
  abbrev pub encoder_pool : BlockEncoder R → ℕ → Pool Block R.Packet (BlockEncoder R)
  encoder_pool encoder n = record {
    key = block_id;
    workers = n;
    capacity = 10;
    fresh = encoder;
    work = encode_round;
  }

  encode_stream-outputs :
      (encoder : BlockEncoder R) (n : ℕ) (self : BlockEncoder R) (blocks : List Block)
      (queued : List R.Packet)
      → (encode_stream R self blocks (record { queued = queued; room = none })).1.queued
        ≡ queued ++ outputs (encoder_pool encoder n) self blocks
  unfolding encode_stream encode_round send_packets
  encode_stream-outputs encoder n self [] queued = rw append-nil
  encode_stream-outputs encoder n self (block ∷ blocks) queued =
      elim (outcome_cases (encode R self block)) [
        | inl (packets, e) ↦ ground (
          arith,
          send_all-Fits packets queued none tt,
          encode_stream-outputs encoder n self blocks (queued ++ packets),
          append_assoc queued packets (outputs (encoder_pool encoder n) self blocks),
        )
        | inr (inl (error, e)) ↦ ground (arith, append-nil queued)
        | inr (inr (inl e)) ↦ ground (arith, append-nil queued)
        | inr (inr (inr e)) ↦ ground (arith, append-nil queued)
      ]

  -- When all threads that `start_encoding` has spawned have ended, in whatever order the scheduler
  -- has let them run, and no read, no write and no encoding has failed: the dispatcher has sent a
  -- beginning of its blocks, and all of them if it was not stopped, and the packets that were
  -- written are an interleaving of what `encode_stream` sends for the blocks of each worker, those
  -- whose id is the number of the worker modulo `n`.
  pub encoder_threads :
      (encoder : BlockEncoder R) (n : ℕ) (blocks : List Block)
      (s : State Block R.Packet (BlockEncoder R))
      → Reach (encoder_pool encoder n) (started (encoder_pool encoder n) blocks) s
      → IsFinal (encoder_pool encoder n) s
      → s.failed ≡ false
      → (sent : List Block) × (blocks ≡ sent ++ s.todo)
        × ((s.interrupted ≡ true) ⊎ (blocks ≡ sent))
        × Merge n
            (λ q. (encode_stream R encoder (picked block_id n q sent) empty).1.queued)
            s.written
  encoder_threads encoder n blocks s r final clean =
      let (sent, e, all, merged) = written-Merge (encoder_pool encoder n) blocks s r final clean in
      (
        sent,
        e,
        all,
        Merge-cong n merged
            (λ q h. sym (encode_stream-outputs encoder n encoder (picked block_id n q sent) [])),
      )
