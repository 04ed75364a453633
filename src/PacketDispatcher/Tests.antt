-- ===== src/PacketDispatcher/Tests.antt =====
-- Two queues, and packets of two blocks.
use garuda_codec.Base.{ℕ, ◌≡◌, refl, arith, ok, inr, ◌++◌, List, [], ◌∷◌, none, true, false}
use garuda_codec.PacketDispatcher.{dispatch}
use garuda_codec.PacketDispatcher.Routing.{dispatch_packets}
use garuda_codec.PacketDispatcher.Ending.{packet_dispatch_stops}
use garuda_codec.Channel.{Sender}
use garuda_codec.Io.{ReadEvent, chunk, fail, interrupted, timed_out}
use garuda_codec.RaptorQ.Sample.{copies, Copy}

abbrev copy : ℕ → List ℕ → Copy
copy id symbol = record { block = id; symbol = symbol }

abbrev queue : List Copy → Sender Copy
queue packets = record { queued = packets; room = none }

-- A packet of block 7, a packet of block 8, and a byte more.
abbrev input : List ReadEvent
input =
    chunk (7 ∷ 0 ∷ 0 ∷ 0 ∷ 1 ∷ 2 ∷ 8 ∷ [])
    ∷ fail interrupted false
    ∷ chunk (0 ∷ 0 ∷ 0 ∷ 3 ∷ 4 ∷ 9 ∷ [])
    ∷ []

dispatch_packets_example :
    dispatch copies (record { packet_size = 6 }) input (queue [] ∷ queue [] ∷ []) ≡ record {
      result = ok tt;
      queues = queue (copy 8 (3 ∷ 4 ∷ []) ∷ []) ∷ queue (copy 7 (1 ∷ 2 ∷ []) ∷ []) ∷ [];
    }
dispatch_packets_example =
    dispatch_packets copies 6 (copy 7 (1 ∷ 2 ∷ []) ∷ copy 8 (3 ∷ 4 ∷ []) ∷ []) (9 ∷ []) input
      (queue [] ∷ queue [] ∷ []) (omega arith) (λ e. cc, ((refl, refl), (λ e. cc, tt))) refl
      ((refl, refl), ((refl, refl), tt)) (omega arith) (omega arith) (refl, (refl, tt))

-- After a packet and a byte a read times out while `stop` is set, and more data would come.
packet_dispatch_stops_example :
    dispatch copies
      (record { packet_size = 6 })
      ((chunk (7 ∷ 0 ∷ 0 ∷ 0 ∷ 1 ∷ 2 ∷ 8 ∷ []) ∷ []) ++ (fail timed_out true ∷ input))
      (queue [] ∷ queue [] ∷ [])
    ≡ record { result = ok tt; queues = queue [] ∷ queue (copy 7 (1 ∷ 2 ∷ []) ∷ []) ∷ [] }
unfolding garuda_codec.PacketDispatcher.end_of
packet_dispatch_stops_example =
    packet_dispatch_stops copies 6 timed_out true (inr refl) input (copy 7 (1 ∷ 2 ∷ []) ∷ [])
      (8 ∷ []) (chunk (7 ∷ 0 ∷ 0 ∷ 0 ∷ 1 ∷ 2 ∷ 8 ∷ []) ∷ []) (queue [] ∷ queue [] ∷ [])
      (omega arith) (λ e. cc, tt) refl ((refl, refl), tt) (omega arith) (omega arith)
      (refl, (refl, tt))
