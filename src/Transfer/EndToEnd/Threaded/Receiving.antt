-- ===== src/Transfer/EndToEnd/Threaded/Receiving.antt =====
-- The packets of the sample file through the threads of a decoder.
use garuda_codec.Base.{ℕ, zero, suc, ◌<◌, ◌≡◌, refl, arith, false, List, [], ◌∷◌, some}
use garuda_codec.BlockDecoder.{BlockDecoder, decode}
use garuda_codec.BlockDecoder.Recovery.{decoder_for}
use garuda_codec.Decoder.Threads.{decoder_pool}
use garuda_codec.RaptorQ.Sample.{copies, Copy}
use garuda_codec.Transfer.Sample.{first, second}
use garuda_codec.Workers.{
  Pool, State, Reach, IsFinal, here, later, started, running, ended, update, read_item, dispatch,
  input_ends, take_item, emit, worker_ends, write, forwarder_ends,
}
use garuda_codec.Transfer.EndToEnd.Threaded.Sending.{packet_0, packet_1}

abbrev receiver_pool : Pool Copy (List ℕ) (BlockDecoder copies)
receiver_pool = decoder_pool copies (decoder_for copies 294 1) 2

receiver_round_0 :
    receiver_pool.work (decoder_for copies 294 1) (packet_0)
    ≡ some ((decode copies (decoder_for copies 294 1) packet_0).0, first ∷ [])
unfolding garuda_codec.Decoder.Threads.decode_round garuda_codec.BlockDecoder.decode
receiver_round_0 = refl

receiver_round_1 :
    receiver_pool.work (decoder_for copies 294 1) (packet_1)
    ≡ some ((decode copies (decoder_for copies 294 1) packet_1).0, second ∷ [])
unfolding garuda_codec.Decoder.Threads.decode_round garuda_codec.BlockDecoder.decode
receiver_round_1 = refl

abbrev receiver_0 : State Copy (List ℕ) (BlockDecoder copies)
receiver_0 = started receiver_pool (packet_1 ∷ packet_0 ∷ [])

abbrev receiver_1 : State Copy (List ℕ) (BlockDecoder copies)
receiver_1 = record receiver_0 {
  todo = packet_0 ∷ [];
  queue = update 1 (packet_1 ∷ []) receiver_0.queue;
}

abbrev receiver_2 : State Copy (List ℕ) (BlockDecoder copies)
receiver_2 = record receiver_1 { todo = []; queue = update 0 (packet_0 ∷ []) receiver_1.queue }

abbrev receiver_3 : State Copy (List ℕ) (BlockDecoder copies)
receiver_3 = record receiver_2 { dispatching = false }

abbrev receiver_4 : State Copy (List ℕ) (BlockDecoder copies)
receiver_4 = record receiver_3 {
  queue = update 1 [] receiver_3.queue;
  worker =
      update 1 (running ((decode copies (decoder_for copies 294 1) packet_1).0) (second ∷ []))
        receiver_3.worker;
}

abbrev receiver_5 : State Copy (List ℕ) (BlockDecoder copies)
receiver_5 = record receiver_4 {
  queue = update 0 [] receiver_4.queue;
  worker =
      update 0 (running ((decode copies (decoder_for copies 294 1) packet_0).0) (first ∷ []))
        receiver_4.worker;
}

abbrev receiver_6 : State Copy (List ℕ) (BlockDecoder copies)
receiver_6 = record receiver_5 {
  worker =
      update 1 (running ((decode copies (decoder_for copies 294 1) packet_1).0) [])
        receiver_5.worker;
  collected = second ∷ [];
}

abbrev receiver_7 : State Copy (List ℕ) (BlockDecoder copies)
receiver_7 = record receiver_6 {
  worker =
      update 0 (running ((decode copies (decoder_for copies 294 1) packet_0).0) [])
        receiver_6.worker;
  collected = second ∷ first ∷ [];
}

abbrev receiver_8 : State Copy (List ℕ) (BlockDecoder copies)
receiver_8 = record receiver_7 { worker = update 0 ended receiver_7.worker }

abbrev receiver_9 : State Copy (List ℕ) (BlockDecoder copies)
receiver_9 = record receiver_8 { worker = update 1 ended receiver_8.worker }

abbrev receiver_10 : State Copy (List ℕ) (BlockDecoder copies)
receiver_10 = record receiver_9 { collected = first ∷ []; written = second ∷ [] }

abbrev receiver_11 : State Copy (List ℕ) (BlockDecoder copies)
receiver_11 = record receiver_10 { collected = []; written = second ∷ first ∷ [] }

receiver_workers_ended : (q : ℕ) → q < 2 → receiver_11.worker q ≡ ended
receiver_workers_ended zero h = refl
receiver_workers_ended (suc zero) h = refl
receiver_workers_ended (suc (suc q)) h = absurd (omega arith)

abbrev pub receiver : State Copy (List ℕ) (BlockDecoder copies)
receiver = record receiver_11 { forwarding = false }

receiver_half : Reach receiver_pool receiver_0 receiver_6
receiver_half =
    later
      (later
        (later
          (later
            (later
              (later
                (later (later here (read_item (packet_1) (packet_0 ∷ []) refl refl refl)) (
                  dispatch (packet_1) (packet_0 ∷ []) 1 (decoder_for copies 294 1) [] refl refl refl
                    refl (omega arith) refl (omega arith)))
                (read_item (packet_0) [] refl refl refl))
              (dispatch (packet_0) [] 0 (decoder_for copies 294 1) [] refl refl refl refl
                (omega arith) refl (omega arith)))
            (input_ends refl refl refl))
          (take_item 1 (decoder_for copies 294 1)
            ((decode copies (decoder_for copies 294 1) packet_1).0) (packet_1) [] (second ∷ [])
            (omega arith) refl refl receiver_round_1))
        (take_item 0 (decoder_for copies 294 1)
          ((decode copies (decoder_for copies 294 1) packet_0).0) (packet_0) [] (first ∷ [])
          (omega arith) refl refl receiver_round_0))
      (emit 1 ((decode copies (decoder_for copies 294 1) packet_1).0) (second) [] (omega arith) refl
        refl (omega arith))

pub receiver_reached : Reach receiver_pool receiver_0 receiver
receiver_reached =
    later
      (later
        (later
          (later
            (later
              (later receiver_half (
                emit 0 ((decode copies (decoder_for copies 294 1) packet_0).0) (first) []
                  (omega arith) refl refl (omega arith)))
              (worker_ends 0 ((decode copies (decoder_for copies 294 1) packet_0).0) (omega arith)
                refl refl refl))
            (worker_ends 1 ((decode copies (decoder_for copies 294 1) packet_1).0) (omega arith)
              refl refl refl))
          (write (second) (first ∷ []) refl refl))
        (write (first) [] refl refl))
      (forwarder_ends refl refl receiver_workers_ended)

pub receiver-IsFinal : IsFinal receiver_pool receiver
receiver-IsFinal = record {
  dispatcher_ended = refl;
  workers_ended = receiver_workers_ended;
  forwarder_ended = refl;
}
