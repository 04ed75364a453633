-- ===== src/PacketDispatcher/Ending.antt =====
-- How `dispatch` ends: the fuel is enough, and a stop or a failed read ends it.
use garuda_codec.Base.{ok, Outcome}
use garuda_codec.Base.{ℕ, zero, suc, ◌<◌, arith, ◌≢◌, List, length, out_of_fuel, inl, inr}
use garuda_codec.Base.{
  ◌≡◌, refl, ◌∙◌, sym, [], ◌∷◌, ◌++◌, All, err, Bool, if◌then◌else◌, length-append, ap,
}
use garuda_codec.Dispatch.Routes.{
  delivered, AllOpen, dispatch_to-delivered, delivered-delivered, delivered-nil, delivered-AllOpen,
  length-delivered,
}
use garuda_codec.Io.{
  fail, interrupted, is_retried, would_block, timed_out, not_found, invalid_input, other,
}
use garuda_codec.Io.Exact.{IsQuiet, Ends, read_exact_fail}
use garuda_codec.Io.Prefix.{bytes_of-append, read_exact_prefix}
use garuda_codec.PacketDispatcher.Routing.{wire, wire_long, IsFramed, of_size, round_packet}
use garuda_codec.Channel.{Sender}
use garuda_codec.Dispatch.{dispatch_to, dispatch_to_ends}
use garuda_codec.Io.{ErrorKind, ReadEvent, read_exact, unexpected_eof}
use garuda_codec.Io.Exact.{bytes_of, read_exact_cases, read_exact_shorter}
use garuda_codec.PacketDispatcher.{
  PacketDispatcher, dispatch_loop, dispatch, end_of, PacketDispatcherError, io,
}
use garuda_codec.RaptorQ.{RaptorQ}

module _ (R : RaptorQ) where
  end_of_ends : (kind : ErrorKind) → end_of R kind ≢ out_of_fuel
  unfolding end_of
  end_of_ends unexpected_eof = λ e. cc
  end_of_ends _ = λ e. cc

  dispatch_loop_ends :
      (fuel : ℕ) (self : PacketDispatcher) (input : List ReadEvent)
      (queues : List (Sender R.Packet))
      → 0 < self.packet_size
      → length (bytes_of input) < fuel
      → (dispatch_loop R fuel self input queues).result ≢ out_of_fuel
  unfolding dispatch_loop
  dispatch_loop_ends zero self input queues p h = absurd (omega arith)
  dispatch_loop_ends (suc fuel) self input queues p h =
      elim (read_exact_cases input self.packet_size) [
        | inl (bytes, e) ↦
            let x = R.deserialize bytes in
            let id = R.source_block_number x in
            ground (
              arith,
              dispatch_to_ends id x queues,
              read_exact_shorter input self.packet_size fuel bytes p h e,
              dispatch_loop_ends fuel self (read_exact input self.packet_size).1
                  (dispatch_to id x queues).1 p,
            )
        | inr (kind, e) ↦ rw (e, dispatch_loop) (end_of_ends kind)
      ]

  -- The fuel is enough: with a packet size above 0 the loop does not run out of it on any list of
  -- events, whatever the receivers do.
  pub packet_dispatch_ends :
      (self : PacketDispatcher) (input : List ReadEvent) (queues : List (Sender R.Packet))
      → 0 < self.packet_size
      → (dispatch R self input queues).result ≢ out_of_fuel
  unfolding dispatch
  packet_dispatch_ends self input queues p =
      dispatch_loop_ends (suc (length (bytes_of input))) self input queues p (omega arith)

  -- How `dispatch` ends on an error that is not retried: the end of the stream is none.
  abbrev pub reported : ErrorKind → Outcome (PacketDispatcherError R) (Unit {0})
  reported unexpected_eof = ok tt
  reported kind = err (io kind)

  end_of_failure :
      (kind : ErrorKind)
      → end_of R (if is_retried kind then interrupted else kind)
        ≡ (if is_retried kind then ok tt else reported kind)
  unfolding end_of
  end_of_failure interrupted = refl
  end_of_failure would_block = refl
  end_of_failure timed_out = refl
  end_of_failure unexpected_eof = refl
  end_of_failure not_found = refl
  end_of_failure invalid_input = refl
  end_of_failure (other code) = refl

  module _ (size : ℕ) (kind : ErrorKind) (stop : Bool) (ends : Ends kind stop)
      (after : List ReadEvent) where
    -- What the read that ends `dispatch` returns.
    abbrev failure : ErrorKind
    failure = if is_retried kind then interrupted else kind

    round_fails :
        (fuel : ℕ) (input : List ReadEvent) (queues : List (Sender R.Packet))
        → (read_exact input size).0 ≡ err failure
        → dispatch_loop R (suc fuel) (of_size R size) input queues
          ≡ record { result = end_of R failure; queues = queues }
    unfolding dispatch_loop
    round_fails fuel input queues e = rw (e, dispatch_loop)

    dispatch_loop_stops :
        (ps : List R.Packet) (tail : List ℕ) (fuel n : ℕ) (events : List ReadEvent)
        (queues : List (Sender R.Packet))
        → IsQuiet events
        → bytes_of events ≡ wire R ps tail
        → All (IsFramed R size) ps
        → length tail < size
        → length ps < fuel
        → n ≡ length queues
        → 0 < n
        → AllOpen R.source_block_number queues
        → dispatch_loop R fuel (of_size R size) (events ++ (fail kind stop ∷ after)) queues
          ≡ record {
            result = end_of R failure;
            queues = delivered R.source_block_number n ps 0 queues;
          }
    dispatch_loop_stops ps tail zero n events queues q e s t f l p o = absurd (omega arith)
    dispatch_loop_stops [] tail (suc fuel) n events queues q e s t f l p o = rw delivered-nil (
        round_fails fuel (events ++ (fail kind stop ∷ after)) queues
          (ap (λ r. r.0) (read_exact_fail events after kind stop size q (rw e t) ends)))
    dispatch_loop_stops (x ∷ ps) tail (suc fuel) n events queues q e s t f l p o =
        let id = R.source_block_number in
        let input = events ++ (fail kind stop ∷ after) in
        let (rest, got, bytes, quiet) =
          read_exact_prefix events (fail kind stop ∷ after) (R.serialize x) (wire R ps tail) size q
            e s.0.0 in
        let sent = dispatch_to-delivered id x queues (omega arith) o in
        let queues' : List (Sender R.Packet) = delivered id n (x ∷ []) 0 queues in
        round_packet R size fuel input queues x queues' (ap (λ r. r.0) got) s.0.1 (rw l sent)
        ∙ ap (λ r. dispatch_loop R fuel (of_size R size) r.1 queues') got
        ∙ dispatch_loop_stops ps tail fuel n rest queues' quiet bytes s.1 t (omega arith)
            (l ∙ sym (length-delivered id n (x ∷ []) 0 queues)) p
            (delivered-AllOpen id n (x ∷ []) 0 queues o)
        ∙ rw (delivered-delivered id n (x ∷ []) ps 0 queues)

    -- Let a stream be quiet up to an error that is not retried, or one that is, such as a timeout,
    -- while `stop_reading` is set, and let its bytes before that be serialised packets of the
    -- inferred size and a shorter rest. Then, with one queue at least and all receivers alive,
    -- `dispatch` returns at that error, whatever is behind it: without an error in the second case,
    -- and in the first with the error, unless it is the end of the stream. It has sent each packet
    -- before it, as it was, to the queue of its block id modulo the number of queues, in order; the
    -- rest is dropped.
    pub packet_dispatch_stops :
        (ps : List R.Packet) (tail : List ℕ) (events : List ReadEvent)
        (queues : List (Sender R.Packet))
        → 0 < size
        → IsQuiet events
        → bytes_of events ≡ wire R ps tail
        → All (IsFramed R size) ps
        → length tail < size
        → 0 < length queues
        → AllOpen R.source_block_number queues
        → dispatch R (of_size R size) (events ++ (fail kind stop ∷ after)) queues ≡ record {
          result = if is_retried kind then ok tt else reported kind;
          queues = delivered R.source_block_number (length queues) ps 0 queues;
        }
    unfolding dispatch
    packet_dispatch_stops ps tail events queues pos q e s t n o = rw (sym (end_of_failure kind)) (
        dispatch_loop_stops ps tail (suc (length (bytes_of (events ++ (fail kind stop ∷ after)))))
          (length queues) events queues q e s t
          (rw (bytes_of-append events (fail kind stop ∷ after), e)
            (omega (
              arith,
              length-append (wire R ps tail) (bytes_of after),
              wire_long R size ps tail pos s,
            )))
          refl n o)
