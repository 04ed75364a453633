-- ===== src/BlockEncoder/Stream.antt =====
-- `encode_stream`: what reaches the packet queue, whatever ends the stream.
use garuda_codec.Base.{ℕ, ◌+◌, ◌-◌, ◌≡◌, ◌≢◌, arith, ok, err, List, [], ◌∷◌}
use garuda_codec.Base.{◌++◌, length, All, Option, some, append_assoc, append-nil, length-append}
use garuda_codec.Base.{
  take, get_elem?, take-append_left, take-append_right, get_elem?-append_left,
  get_elem?-append_right, dec_lt, ◌∙◌, sym,
}
use garuda_codec.RaptorQ.{RaptorQ}
use garuda_codec.Channel.{
  Sender, send_error, send_all-Fits, send_all-full, Fits, room_after, Fits-add, room_after-add,
  room_after-zero,
}
use garuda_codec.BlockEncoder.{Block, unexpected_block_size, send_failed}
use garuda_codec.BlockEncoder.{encode_stream}
use garuda_codec.BlockEncoder.Configuration.{encoder_for}
use garuda_codec.BlockEncoder.Encode.{packets_of, encode_sized, encode_unsized}

module _ (R : RaptorQ) (b m r : ℕ) where
  abbrev pub IsSized : Block → Type 0
  IsSized block = length block.content ≡ b

  -- The packets of the blocks, one block after the other.
  abbrev pub stream_of : List Block → List R.Packet
  stream_of [] = []
  stream_of (block ∷ blocks) = packets_of R b m r block ++ stream_of blocks

  abbrev sender : List R.Packet → Option ℕ → Sender R.Packet
  sender q room = record { queued = q; room = room }

  encode_stream_step :
      (block : Block) (input : List Block) (q : List R.Packet) (room : Option ℕ)
      → IsSized block
      → Fits room (length (packets_of R b m r block))
      → encode_stream R (encoder_for R b m r) (block ∷ input) (sender q room)
        ≡ encode_stream R (encoder_for R b m r) input (
            sender
              (q ++ packets_of R b m r block)
              (room_after room (length (packets_of R b m r block))))
  unfolding encode_stream
  encode_stream_step block input q room sized fits = ground (
    arith,
    encode_sized R b m r block sized,
    send_all-Fits (packets_of R b m r block) q room fits,
  )

  encode_stream_prefix :
      (blocks rest : List Block) (q : List R.Packet) (room : Option ℕ)
      → All IsSized blocks
      → Fits room (length (stream_of blocks))
      → encode_stream R (encoder_for R b m r) (blocks ++ rest) (sender q room)
        ≡ encode_stream R
            (encoder_for R b m r)
            rest
            (sender (q ++ stream_of blocks) (room_after room (length (stream_of blocks))))
  encode_stream_prefix [] rest q room sized fits = rw (append-nil, room_after-zero)
  encode_stream_prefix (block ∷ blocks) rest q room sized fits =
      let e = length-append (packets_of R b m r block) (stream_of blocks) in
      let (first, others) =
        Fits-add room (length (packets_of R b m r block)) (length (stream_of blocks))
          (rw e at fits) in
      rw (
        encode_stream_step block (blocks ++ rest) q room sized.0 first,
        encode_stream_prefix blocks rest _ _ sized.1 others,
        append_assoc,
        room_after-add,
        e,
      )

  -- If every block has the configured size and the queue takes all their packets, `encode_stream`
  -- succeeds and has sent the packets of each block, in the order of the blocks.
  pub encode_stream_ok :
      (blocks : List Block) (q : List R.Packet) (room : Option ℕ)
      → All IsSized blocks
      → Fits room (length (stream_of blocks))
      → encode_stream R (encoder_for R b m r) blocks (sender q room)
        ≡ (ok tt, sender (q ++ stream_of blocks) (room_after room (length (stream_of blocks))))
  unfolding encode_stream
  encode_stream_ok blocks q room sized fits =
      rw (append-nil blocks) at (encode_stream_prefix blocks [] q room sized fits)

  -- At the first block of another size it fails with `UnexpectedBlockSize`; the packets of the
  -- blocks before it were sent, and no others.
  pub encode_stream_unsized :
      (blocks rest : List Block) (bad : Block) (q : List R.Packet) (room : Option ℕ)
      → All IsSized blocks
      → length bad.content ≢ b
      → Fits room (length (stream_of blocks))
      → encode_stream R (encoder_for R b m r) (blocks ++ (bad ∷ rest)) (sender q room) ≡ (
        err unexpected_block_size,
        sender (q ++ stream_of blocks) (room_after room (length (stream_of blocks))),
      )
  unfolding encode_stream
  encode_stream_unsized blocks rest bad q room sized other fits =
      encode_stream_prefix blocks (bad ∷ rest) q room sized fits
      ∙ ground (arith, encode_unsized R b m r bad other)

  -- If the receiver is dropped after `k` more packets, `encode_stream` has sent the first `k`
  -- packets, and fails with the packet that was refused.
  pub encode_stream_full :
      (blocks : List Block) (q : List R.Packet) (k : ℕ) (p : R.Packet)
      → All IsSized blocks
      → get_elem? (stream_of blocks) k ≡ some p
      → encode_stream R (encoder_for R b m r) blocks (sender q (some k))
        ≡ (err (send_failed (send_error p)), sender (q ++ take k (stream_of blocks)) (some 0))
  unfolding encode_stream
  encode_stream_full [] q k p sized at = cc
  encode_stream_full (block ∷ blocks) q k p sized at =
      elim (dec_lt k (length (packets_of R b m r block))) [
        | yes h ↦ ground (
          arith,
          encode_sized R b m r block sized.0,
          take-append_left (packets_of R b m r block) (stream_of blocks) k (omega arith),
          get_elem?-append_left (packets_of R b m r block) (stream_of blocks) k h,
          send_all-full (packets_of R b m r block) q k p,
        )
        | no h ↦
            let packets = packets_of R b m r block in
            let j : ℕ = k - length packets in
            let cut : k ≡ length packets + j = omega arith in
            encode_stream_step block blocks q (some k) sized.0 (omega arith)
            ∙ encode_stream_full blocks (q ++ packets) j p sized.1
                (sym (get_elem?-append_right packets (stream_of blocks) k j cut) ∙ at)
            ∙ rw (append_assoc, take-append_right packets (stream_of blocks) k j cut)
      ]
