-- ===== src/Pipeline/Recovering.antt =====
-- The threads of the decoder (decoder.rs) on a wire that loses any packets.
use garuda_codec.Base.{ℕ, ◌<◌, ◌≤◌, ◌≡◌, sym, ap, ◌∙◌, List, false}
use garuda_codec.BlockDecoder.{BlockDecoder, decode_stream}
use garuda_codec.BlockDecoder.Recovery.{Reception, arriving, delivered, decoder_for}
use garuda_codec.BlockEncoder.Encode.{IsUsable}
use garuda_codec.Decoder.Threads.{decoder_pool, decoder_threads}
use garuda_codec.Dispatch.Routes.{picked}
use garuda_codec.Merge.{Merge}
use garuda_codec.Merge.Growing.{Merge-cong}
use garuda_codec.Pipeline.{IsArrival, empty, picked-arriving, decoder_sends}
use garuda_codec.RaptorQ.{RaptorQ, IsLawful}
use garuda_codec.Workers.{State, Reach, IsFinal, started}
use garuda_codec.Workers.Written.{unless_interrupted}

module _ (R : RaptorQ) (laws : IsLawful R) (b m : ℕ) (u : IsUsable R b m) where
  -- Under the laws of `raptorq`, for a block of a whole number of symbols, at most 56403, and for
  -- 1 to 128 workers on both sides: let the blocks of the input be numbered from `id` on and
  -- spread over the workers by number, let some packets of each block arrive, in any
  -- interleaving with those of other workers, and let the threads of the decoder run on them under
  -- any schedule, until all have ended, nothing has failed, and no `stop` was seen. Then what they
  -- have written is, for each worker in the order of its blocks, the contents of exactly those
  -- blocks whose packets are enough for a fresh `SourceBlockDecoder`, in some interleaving.
  pub threads_recover :
      (n id : ℕ) (contents : List (List ℕ)) (arrivals : ℕ → List (Reception R))
      (arrived : List R.Packet) (receiver : State R.Packet (List ℕ) (BlockDecoder R))
      → 0 < n
      → n ≤ 128
      → id < 256
      → IsArrival R laws b m u n id contents arrivals
      → Merge n (λ q. arriving R (arrivals q)) arrived
      → Reach
          (decoder_pool R (decoder_for R b m) n)
          (started (decoder_pool R (decoder_for R b m) n) arrived)
          receiver
      → IsFinal (decoder_pool R (decoder_for R b m) n) receiver
      → receiver.failed ≡ false
      → receiver.interrupted ≡ false
      → Merge n (λ q. delivered R b m (arrivals q)) receiver.written
  threads_recover n id contents arrivals arrived receiver pos few id_fits arrival merged run final
        clean whole =
      let pool = decoder_pool R (decoder_for R b m) n in
      let (sent, e, complete, returned) =
        decoder_threads R (decoder_for R b m) n arrived receiver run final clean in
      let all = unless_interrupted pool receiver whole complete in
      Merge-cong n returned (λ q h.
        let same = picked-arriving R laws b m u n id contents arrivals arrived arrival merged q h in
        ap (λ (ps : List R.Packet). (decode_stream R (decoder_for R b m) ps empty).1.queued)
          (ap (picked R.source_block_number n q) (sym all) ∙ same)
        ∙ ap (λ r. r.1.queued)
            (decoder_sends R laws b m u n q id contents (arrivals q) pos few h id_fits
              (arrival.blocks q h) (arrival.receptions q h)))
