-- ===== src/Transfer/EndToEnd/Threaded/Tests.antt =====
-- What the theorems on threads say of the sample file.
use garuda_codec.Base.{ℕ, ◌≡◌, refl, arith, List, [], ◌∷◌, ◌++◌, All, map, true, ◌⊎◌}
use garuda_codec.BlockDecoder.{decode_stream}
use garuda_codec.BlockDecoder.Recovery.{decoder_for}
use garuda_codec.BlockDispatcher.Routing.{block_id, numbered}
use garuda_codec.BlockEncoder.{Block, encode_stream}
use garuda_codec.BlockEncoder.Configuration.{encoder_for}
use garuda_codec.Decoder.Threads.{decoder_threads}
use garuda_codec.Dispatch.Routes.{picked}
use garuda_codec.Encoder.Threads.{encoder_threads}
use garuda_codec.Merge.{Merge}
use garuda_codec.Pipeline.{empty}
use garuda_codec.Pipeline.Session.{threads_lossless}
use garuda_codec.RaptorQ.Sample.{copies, copies-IsLawful, Copy}
use garuda_codec.Transfer.EndToEnd.Sample.{IsUsable_294, input, wire_input}
use garuda_codec.Transfer.EndToEnd.Threaded.Receiving.{receiver, receiver_reached, receiver-IsFinal}
use garuda_codec.Transfer.EndToEnd.Threaded.Sending.{
  block_0, block_1, packet_0, packet_1, sender, sender_reached, sender-IsFinal,
}
use garuda_codec.Transfer.Sample.{first, second, sent}
use garuda_codec.Transfer.EndToEnd.Threaded.Sample.{sample-IsSession}
use mathlib.Core.List.{Memᴰ}

threads_lossless_example :
    All (λ content. Memᴰ content sent) (second ∷ first ∷ [])
    × ((content : List ℕ) → Memᴰ content sent → Memᴰ content (second ∷ first ∷ []))
    × Merge 2
        (λ q. map (λ (x : Block). x.content) (picked block_id 2 q (numbered 0 sent)))
        (second ∷ first ∷ [])
threads_lossless_example =
    threads_lossless copies copies-IsLawful 294 1 0 IsUsable_294 (omega arith) 2 0 sent input
      wire_input sender (packet_1 ∷ packet_0 ∷ []) receiver [] (omega arith) sample-IsSession

encoder_threads_example :
    (blocks : List Block) × (block_0 ∷ block_1 ∷ [] ≡ blocks ++ [])
    × ((sender.interrupted ≡ true) ⊎ (block_0 ∷ block_1 ∷ [] ≡ blocks))
    × Merge 2
        (λ q.
          (encode_stream copies
            (encoder_for copies 294 1 0)
            (picked block_id 2 q blocks)
            empty).1.queued)
        (packet_1 ∷ packet_0 ∷ [])
encoder_threads_example =
    encoder_threads copies (encoder_for copies 294 1 0) 2 (block_0 ∷ block_1 ∷ []) sender
      sender_reached sender-IsFinal refl

decoder_threads_example :
    (packets : List Copy) × (packet_1 ∷ packet_0 ∷ [] ≡ packets ++ [])
    × ((receiver.interrupted ≡ true) ⊎ (packet_1 ∷ packet_0 ∷ [] ≡ packets))
    × Merge 2
        (λ q.
          (decode_stream copies
            (decoder_for copies 294 1)
            (picked copies.source_block_number 2 q packets)
            empty).1.queued)
        (second ∷ first ∷ [])
decoder_threads_example =
    decoder_threads copies (decoder_for copies 294 1) 2 (packet_1 ∷ packet_0 ∷ []) receiver
      receiver_reached receiver-IsFinal refl
