-- ===== src/PacketDispatcher/Routing.antt =====
-- The packets of a stream, and the queue of each.
use garuda_codec.Base.{ℕ, zero, suc, ◌<◌, ◌≤◌, ◌≡◌, refl, sym, ◌∙◌, arith, List, [], ◌∷◌, ◌++◌}
use garuda_codec.Base.{length, All, ok, err, length-append}
use garuda_codec.Channel.{Sender}
use garuda_codec.Dispatch.{dispatch_to}
use garuda_codec.Dispatch.Routes.{delivered, AllOpen, dispatch_to-delivered, delivered-delivered}
use garuda_codec.Dispatch.Routes.{delivered-nil, delivered-AllOpen, length-delivered}
use garuda_codec.Io.{ReadEvent, read_exact, unexpected_eof}
use garuda_codec.Io.Exact.{bytes_of, IsQuiet, read_exact_head, read_exact_short}
use garuda_codec.PacketDispatcher.{PacketDispatcher, dispatch_loop, dispatch}
use garuda_codec.RaptorQ.{RaptorQ}

module _ (R : RaptorQ) where
  -- The packets as they are sent, and `tail` behind them.
  abbrev pub wire : List R.Packet → List ℕ → List ℕ
  wire [] tail = tail
  wire (p ∷ ps) tail = R.serialize p ++ wire ps tail

  -- A packet that fills a buffer of `size` bytes and is read back from it.
  abbrev pub IsFramed : ℕ → R.Packet → Type 0
  IsFramed size p = (length (R.serialize p) ≡ size) × (R.deserialize (R.serialize p) ≡ p)

  abbrev pub of_size : ℕ → PacketDispatcher
  of_size size = record { packet_size = size }

  module _ (size fuel : ℕ) (input : List ReadEvent) (queues : List (Sender R.Packet)) where
    round_end :
        (read_exact input size).0 ≡ err unexpected_eof
        → dispatch_loop R (suc fuel) (of_size size) input queues
          ≡ record { result = ok tt; queues = queues }
    unfolding dispatch_loop
    round_end e = ground arith

    pub round_packet :
        (p : R.Packet) (queues' : List (Sender R.Packet))
        → (read_exact input size).0 ≡ ok (R.serialize p)
        → R.deserialize (R.serialize p) ≡ p
        → dispatch_to (R.source_block_number p) p queues ≡ (ok tt, queues')
        → dispatch_loop R (suc fuel) (of_size size) input queues
          ≡ dispatch_loop R fuel (of_size size) (read_exact input size).1 queues'
    unfolding dispatch_loop
    round_packet p queues' e f d = ground arith

  dispatch_loop_lem :
      (size : ℕ) (ps : List R.Packet) (tail : List ℕ) (fuel n : ℕ) (input : List ReadEvent)
      (queues : List (Sender R.Packet))
      → IsQuiet input
      → bytes_of input ≡ wire ps tail
      → All (IsFramed size) ps
      → length tail < size
      → length ps < fuel
      → n ≡ length queues
      → 0 < n
      → AllOpen R.source_block_number queues
      → dispatch_loop R fuel (of_size size) input queues
        ≡ record { result = ok tt; queues = delivered R.source_block_number n ps 0 queues }
  dispatch_loop_lem size ps tail zero n input queues q e s t f l p o = absurd (omega arith)
  dispatch_loop_lem size [] tail (suc fuel) n input queues q e s t f l p o =
      rw delivered-nil (round_end size fuel input queues (read_exact_short input size q (rw e t)))
  dispatch_loop_lem size (x ∷ ps) tail (suc fuel) n input queues q e s t f l p o =
      let id = R.source_block_number in
      let (got, rest, quiet) =
        read_exact_head input (R.serialize x) (wire ps tail) size q e s.0.0 in
      let sent = dispatch_to-delivered id x queues (omega arith) o in
      let queues' : List (Sender R.Packet) = delivered id n (x ∷ []) 0 queues in
      round_packet size fuel input queues x queues' got s.0.1 (rw l sent)
      ∙ dispatch_loop_lem size ps tail fuel n (read_exact input size).1 queues' quiet rest s.1 t
          (omega arith) (l ∙ sym (length-delivered id n (x ∷ []) 0 queues)) p
          (delivered-AllOpen id n (x ∷ []) 0 queues o)
      ∙ rw (delivered-delivered id n (x ∷ []) ps 0 queues)

  pub wire_long :
      (size : ℕ) (ps : List R.Packet) (tail : List ℕ)
      → 0 < size
      → All (IsFramed size) ps
      → length ps ≤ length (wire ps tail)
  wire_long size [] tail p s = omega arith
  wire_long size (x ∷ ps) tail p s =
      omega
        (arith, length-append (R.serialize x) (wire ps tail), wire_long size ps tail p s.1, s.0.0)

  -- On a quiet stream of serialised packets of the inferred size and a shorter rest, with one
  -- queue at least and all receivers alive, `dispatch` ends without error and has sent each
  -- packet, as it was, to the queue of its block id modulo the number of queues, in order.
  pub dispatch_packets :
      (size : ℕ) (ps : List R.Packet) (tail : List ℕ) (input : List ReadEvent)
      (queues : List (Sender R.Packet))
      → 0 < size
      → IsQuiet input
      → bytes_of input ≡ wire ps tail
      → All (IsFramed size) ps
      → length tail < size
      → 0 < length queues
      → AllOpen R.source_block_number queues
      → dispatch R (record { packet_size = size }) input queues ≡ record {
        result = ok tt;
        queues = delivered R.source_block_number (length queues) ps 0 queues;
      }
  unfolding dispatch
  dispatch_packets size ps tail input queues pos q e s t n o =
      dispatch_loop_lem size ps tail (suc (length (bytes_of input))) (length queues) input queues q
        e s t (rw e (omega (arith, wire_long size ps tail pos s))) refl n o
