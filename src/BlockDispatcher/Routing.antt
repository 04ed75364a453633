-- ===== src/BlockDispatcher/Routing.antt =====
-- The blocks of a stream, and the queue of each.
use garuda_codec.Base.{ℕ, zero, suc, ◌+◌, ◌%◌, ◌<◌, ◌≤◌, ◌≡◌, refl, sym, ◌∙◌, arith, List, [], ◌∷◌}
use garuda_codec.Base.{◌++◌, length, All, ok, err}
use garuda_codec.Base.{length-append}
use garuda_codec.BlockEncoder.{Block}
use garuda_codec.Channel.{Sender}
use garuda_codec.Dispatch.{dispatch_to}
use garuda_codec.Dispatch.Routes.{delivered, AllOpen, dispatch_to-delivered, delivered-delivered}
use garuda_codec.Dispatch.Routes.{delivered-nil, delivered-AllOpen, length-delivered}
use garuda_codec.Io.{ReadEvent, read_exact, unexpected_eof}
use garuda_codec.Io.Exact.{bytes_of, IsQuiet, read_exact_head, read_exact_short}
use garuda_codec.BlockDispatcher.{BlockDispatcher, dispatch_loop, dispatch}

-- The blocks that the contents become, numbered from `id` on.
abbrev pub numbered : ℕ → List (List ℕ) → List Block
numbered id [] = []
numbered id (content ∷ contents) =
    record { id = id; content = content } ∷ numbered ((id + 1) % 256) contents

abbrev pub id_after : ℕ → List (List ℕ) → ℕ
id_after id [] = id
id_after id (content ∷ contents) = id_after ((id + 1) % 256) contents

-- The contents one after the other, and `tail` behind them.
abbrev pub joined : List (List ℕ) → List ℕ → List ℕ
joined [] tail = tail
joined (content ∷ contents) tail = content ++ joined contents tail

abbrev pub at_id : ℕ → ℕ → BlockDispatcher
at_id b id = record { block_size = b; current_block_id = id }

abbrev pub block_id : Block → ℕ
block_id block = block.id

module _ (b fuel id : ℕ) (input : List ReadEvent) (queues : List (Sender Block)) where
  round_end :
      (read_exact input b).0 ≡ err unexpected_eof
      → dispatch_loop (suc fuel) (at_id b id) input queues
        ≡ record { result = ok tt; dispatcher = at_id b id; queues = queues }
  unfolding dispatch_loop
  round_end e = ground arith

  pub round_block :
      (content : List ℕ) (queues' : List (Sender Block))
      → (read_exact input b).0 ≡ ok content
      → dispatch_to id (record { id = id; content = content }) queues ≡ (ok tt, queues')
      → dispatch_loop (suc fuel) (at_id b id) input queues
        ≡ dispatch_loop fuel (at_id b ((id + 1) % 256)) (read_exact input b).1 queues'
  unfolding dispatch_loop
  round_block content queues' e d = ground arith

-- Whole blocks are at least as many bytes.
pub joined_long :
    (b : ℕ) (contents : List (List ℕ)) (tail : List ℕ)
    → 0 < b
    → All (λ c. length c ≡ b) contents
    → length contents ≤ length (joined contents tail)
joined_long b [] tail p s = omega arith
joined_long b (c ∷ contents) tail p s =
    omega (arith, length-append c (joined contents tail), joined_long b contents tail p s.1, s.0)

dispatch_loop_lem :
    (b : ℕ) (contents : List (List ℕ)) (tail : List ℕ) (fuel id n : ℕ) (input : List ReadEvent)
    (queues : List (Sender Block))
    → IsQuiet input
    → bytes_of input ≡ joined contents tail
    → All (λ c. length c ≡ b) contents
    → length tail < b
    → length contents < fuel
    → n ≡ length queues
    → 0 < n
    → AllOpen block_id queues
    → dispatch_loop fuel (at_id b id) input queues ≡ record {
      result = ok tt;
      dispatcher = at_id b (id_after id contents);
      queues = delivered block_id n (numbered id contents) 0 queues;
    }
dispatch_loop_lem b contents tail zero id n input queues q e s t f l p o = absurd (omega arith)
dispatch_loop_lem b [] tail (suc fuel) id n input queues q e s t f l p o =
    rw delivered-nil (round_end b fuel id input queues (read_exact_short input b q (rw e t)))
dispatch_loop_lem b (c ∷ contents) tail (suc fuel) id n input queues q e s t f l p o =
    let block : Block = record { id = id; content = c } in
    let (got, rest, quiet) = read_exact_head input c (joined contents tail) b q e s.0 in
    let sent = dispatch_to-delivered block_id block queues (omega arith) o in
    let queues' : List (Sender Block) = delivered block_id n (block ∷ []) 0 queues in
    round_block b fuel id input queues c queues' got (rw l sent)
    ∙ dispatch_loop_lem b contents tail fuel ((id + 1) % 256) n (read_exact input b).1 queues' quiet
        rest s.1 t (omega arith) (l ∙ sym (length-delivered block_id n (block ∷ []) 0 queues)) p
        (delivered-AllOpen block_id n (block ∷ []) 0 queues o)
    ∙ rw (delivered-delivered block_id n (block ∷ []) (numbered ((id + 1) % 256) contents) 0 queues)

-- On a quiet stream whose bytes are blocks of the configured size and a shorter rest, with one
-- queue at least and all receivers alive, `dispatch` ends without error, has numbered the blocks
-- from `current_block_id` on, modulo 256, and has sent each to the queue of its number modulo the
-- number of queues, in order; the rest is dropped.
pub dispatch_blocks :
    (b id : ℕ) (contents : List (List ℕ)) (tail : List ℕ) (input : List ReadEvent)
    (queues : List (Sender Block))
    → 0 < b
    → IsQuiet input
    → bytes_of input ≡ joined contents tail
    → All (λ c. length c ≡ b) contents
    → length tail < b
    → 0 < length queues
    → AllOpen block_id queues
    → dispatch (at_id b id) input queues ≡ record {
      result = ok tt;
      dispatcher = at_id b (id_after id contents);
      queues = delivered block_id (length queues) (numbered id contents) 0 queues;
    }
unfolding dispatch
dispatch_blocks b id contents tail input queues pos q e s t n o =
    dispatch_loop_lem b contents tail (suc (length (bytes_of input))) id (length queues) input
      queues q e s t (rw e (omega (arith, joined_long b contents tail pos s))) refl n o
