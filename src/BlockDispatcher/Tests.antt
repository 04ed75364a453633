-- ===== src/BlockDispatcher/Tests.antt =====
-- Two queues, and ids that wrap.
use garuda_codec.Base.{ℕ, ◌≡◌, refl, arith, ok, inr, ◌++◌, List, [], ◌∷◌, none, true, false}
use garuda_codec.BlockEncoder.{Block}
use garuda_codec.BlockDispatcher.{dispatch}
use garuda_codec.BlockDispatcher.Routing.{dispatch_blocks}
use garuda_codec.BlockDispatcher.Ending.{block_dispatch_stops}
use garuda_codec.Channel.{Sender}
use garuda_codec.Io.{ReadEvent, chunk, fail, interrupted, timed_out}

-- Three blocks of two bytes and one byte more, in pieces that do not respect the blocks.
abbrev input : List ReadEvent
input = chunk (1 ∷ 2 ∷ 3 ∷ []) ∷ fail interrupted false ∷ chunk (4 ∷ 5 ∷ 6 ∷ 9 ∷ []) ∷ []

abbrev queue : List Block → Sender Block
queue blocks = record { queued = blocks; room = none }

abbrev block : ℕ → List ℕ → Block
block id content = record { id = id; content = content }

dispatch_blocks_example :
    dispatch (record { block_size = 2; current_block_id = 255 }) input (queue [] ∷ queue [] ∷ [])
    ≡ record {
      result = ok tt;
      dispatcher = record { block_size = 2; current_block_id = 2 };
      queues =
          queue (block 0 (3 ∷ 4 ∷ []) ∷ [])
          ∷ queue (block 255 (1 ∷ 2 ∷ []) ∷ block 1 (5 ∷ 6 ∷ []) ∷ [])
          ∷ [];
    }
dispatch_blocks_example =
    dispatch_blocks 2 255 ((1 ∷ 2 ∷ []) ∷ (3 ∷ 4 ∷ []) ∷ (5 ∷ 6 ∷ []) ∷ []) (9 ∷ []) input
      (queue [] ∷ queue [] ∷ []) (omega arith) (λ e. cc, ((refl, refl), (λ e. cc, tt))) refl
      (refl, (refl, (refl, tt))) (omega arith) (omega arith) (refl, (refl, tt))

-- After two blocks and a byte a read times out while `stop` is set, and more data would come.
abbrev stopped_input : List ReadEvent
stopped_input = chunk (1 ∷ 2 ∷ 3 ∷ []) ∷ fail timed_out false ∷ chunk (4 ∷ 5 ∷ []) ∷ []

block_dispatch_stops_example :
    dispatch
      (record { block_size = 2; current_block_id = 255 })
      (stopped_input ++ (fail timed_out true ∷ input))
      (queue [] ∷ queue [] ∷ [])
    ≡ record {
      result = ok tt;
      dispatcher = record { block_size = 2; current_block_id = 1 };
      queues = queue (block 0 (3 ∷ 4 ∷ []) ∷ []) ∷ queue (block 255 (1 ∷ 2 ∷ []) ∷ []) ∷ [];
    }
unfolding garuda_codec.BlockDispatcher.end_of
block_dispatch_stops_example =
    block_dispatch_stops 2 timed_out true (inr refl) input 255 ((1 ∷ 2 ∷ []) ∷ (3 ∷ 4 ∷ []) ∷ [])
      (5 ∷ []) stopped_input (queue [] ∷ queue [] ∷ []) (omega arith)
      (λ e. cc, ((refl, refl), (λ e. cc, tt))) refl (refl, (refl, tt)) (omega arith) (omega arith)
      (refl, (refl, tt))
