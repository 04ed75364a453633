-- ===== src/Transfer/EndToEnd/Threaded/Sending.antt =====
-- The sample file through the threads of an encoder: the second worker overtakes the first.
use garuda_codec.Base.{ℕ, zero, suc, ◌<◌, ◌≡◌, refl, arith, false, [], ◌∷◌, some}
use garuda_codec.BlockEncoder.{Block, BlockEncoder}
use garuda_codec.BlockEncoder.Configuration.{encoder_for}
use garuda_codec.Encoder.Threads.{encoder_pool}
use garuda_codec.RaptorQ.Sample.{copies, Copy}
use garuda_codec.Transfer.Sample.{first, second}
use garuda_codec.Workers.{
  Pool, State, Reach, IsFinal, here, later, started, running, ended, update, read_item, dispatch,
  input_ends, take_item, emit, worker_ends, write, forwarder_ends,
}

abbrev pub block_0 : Block
block_0 = record { id = 0; content = first }

abbrev pub block_1 : Block
block_1 = record { id = 1; content = second }

abbrev pub packet_0 : Copy
packet_0 = record { block = 0; symbol = first }

abbrev pub packet_1 : Copy
packet_1 = record { block = 1; symbol = second }

abbrev sender_pool : Pool Block (Copy) (BlockEncoder copies)
sender_pool = encoder_pool copies (encoder_for copies 294 1 0) 2

sender_round_0 :
    sender_pool.work (encoder_for copies 294 1 0) (block_0)
    ≡ some (encoder_for copies 294 1 0, packet_0 ∷ [])
unfolding garuda_codec.Encoder.Threads.encode_round garuda_codec.BlockEncoder.encode
    garuda_codec.Vector.interleave garuda_codec.Header.BigEndian.to_be_bytes
    garuda_codec.Utf8.encode garuda_codec.Header.without_whitespace
    garuda_codec.Header.is_whitespace
sender_round_0 = refl

sender_round_1 :
    sender_pool.work (encoder_for copies 294 1 0) (block_1)
    ≡ some (encoder_for copies 294 1 0, packet_1 ∷ [])
unfolding garuda_codec.Encoder.Threads.encode_round garuda_codec.BlockEncoder.encode
    garuda_codec.Vector.interleave garuda_codec.Header.BigEndian.to_be_bytes
    garuda_codec.Utf8.encode garuda_codec.Header.without_whitespace
    garuda_codec.Header.is_whitespace
sender_round_1 = refl

abbrev sender_0 : State Block (Copy) (BlockEncoder copies)
sender_0 = started sender_pool (block_0 ∷ block_1 ∷ [])

abbrev sender_1 : State Block (Copy) (BlockEncoder copies)
sender_1 = record sender_0 { todo = block_1 ∷ []; queue = update 0 (block_0 ∷ []) sender_0.queue }

abbrev sender_2 : State Block (Copy) (BlockEncoder copies)
sender_2 = record sender_1 { todo = []; queue = update 1 (block_1 ∷ []) sender_1.queue }

abbrev sender_3 : State Block (Copy) (BlockEncoder copies)
sender_3 = record sender_2 { dispatching = false }

abbrev sender_4 : State Block (Copy) (BlockEncoder copies)
sender_4 = record sender_3 {
  queue = update 1 [] sender_3.queue;
  worker = update 1 (running (encoder_for copies 294 1 0) (packet_1 ∷ [])) sender_3.worker;
}

abbrev sender_5 : State Block (Copy) (BlockEncoder copies)
sender_5 = record sender_4 {
  queue = update 0 [] sender_4.queue;
  worker = update 0 (running (encoder_for copies 294 1 0) (packet_0 ∷ [])) sender_4.worker;
}

abbrev sender_6 : State Block (Copy) (BlockEncoder copies)
sender_6 = record sender_5 {
  worker = update 1 (running (encoder_for copies 294 1 0) []) sender_5.worker;
  collected = packet_1 ∷ [];
}

abbrev sender_7 : State Block (Copy) (BlockEncoder copies)
sender_7 = record sender_6 {
  worker = update 0 (running (encoder_for copies 294 1 0) []) sender_6.worker;
  collected = packet_1 ∷ packet_0 ∷ [];
}

abbrev sender_8 : State Block (Copy) (BlockEncoder copies)
sender_8 = record sender_7 { worker = update 0 ended sender_7.worker }

abbrev sender_9 : State Block (Copy) (BlockEncoder copies)
sender_9 = record sender_8 { worker = update 1 ended sender_8.worker }

abbrev sender_10 : State Block (Copy) (BlockEncoder copies)
sender_10 = record sender_9 { collected = packet_0 ∷ []; written = packet_1 ∷ [] }

abbrev sender_11 : State Block (Copy) (BlockEncoder copies)
sender_11 = record sender_10 { collected = []; written = packet_1 ∷ packet_0 ∷ [] }

sender_workers_ended : (q : ℕ) → q < 2 → sender_11.worker q ≡ ended
sender_workers_ended zero h = refl
sender_workers_ended (suc zero) h = refl
sender_workers_ended (suc (suc q)) h = absurd (omega arith)

abbrev pub sender : State Block (Copy) (BlockEncoder copies)
sender = record sender_11 { forwarding = false }

sender_half : Reach sender_pool sender_0 sender_6
sender_half =
    later
      (later
        (later
          (later
            (later
              (later
                (later (later here (read_item (block_0) (block_1 ∷ []) refl refl refl)) (
                  dispatch (block_0) (block_1 ∷ []) 0 (encoder_for copies 294 1 0) [] refl refl refl
                    refl (omega arith) refl (omega arith)))
                (read_item (block_1) [] refl refl refl))
              (dispatch (block_1) [] 1 (encoder_for copies 294 1 0) [] refl refl refl refl
                (omega arith) refl (omega arith)))
            (input_ends refl refl refl))
          (take_item 1 (encoder_for copies 294 1 0) (encoder_for copies 294 1 0) (block_1) []
            (packet_1 ∷ []) (omega arith) refl refl sender_round_1))
        (take_item 0 (encoder_for copies 294 1 0) (encoder_for copies 294 1 0) (block_0) []
          (packet_0 ∷ []) (omega arith) refl refl sender_round_0))
      (emit 1 (encoder_for copies 294 1 0) (packet_1) [] (omega arith) refl refl (omega arith))

pub sender_reached : Reach sender_pool sender_0 sender
sender_reached =
    later
      (later
        (later
          (later
            (later
              (later sender_half (
                emit 0 (encoder_for copies 294 1 0) (packet_0) [] (omega arith) refl refl
                  (omega arith)))
              (worker_ends 0 (encoder_for copies 294 1 0) (omega arith) refl refl refl))
            (worker_ends 1 (encoder_for copies 294 1 0) (omega arith) refl refl refl))
          (write (packet_1) (packet_0 ∷ []) refl refl))
        (write (packet_0) [] refl refl))
      (forwarder_ends refl refl sender_workers_ended)

pub sender-IsFinal : IsFinal sender_pool sender
sender-IsFinal = record {
  dispatcher_ended = refl;
  workers_ended = sender_workers_ended;
  forwarder_ended = refl;
}
