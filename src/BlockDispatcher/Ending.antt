-- ===== src/BlockDispatcher/Ending.antt =====
-- How `dispatch` ends: the fuel is enough, and a stop or a failed read ends it.
use garuda_codec.Base.{ok, Outcome}
use garuda_codec.Base.{ℕ, zero, suc, ◌+◌, ◌%◌, ◌<◌, arith, ◌≢◌, List, length}
use garuda_codec.Base.{out_of_fuel, inl, inr}
use garuda_codec.Base.{
  ◌≡◌, refl, ◌∙◌, sym, [], ◌∷◌, ◌++◌, All, err, Bool, if◌then◌else◌, length-append, ap,
}
use garuda_codec.BlockDispatcher.Routing.{
  numbered, id_after, joined, joined_long, at_id, block_id, round_block,
}
use garuda_codec.Dispatch.Routes.{
  delivered, AllOpen, dispatch_to-delivered, delivered-delivered, delivered-nil, delivered-AllOpen,
  length-delivered,
}
use garuda_codec.Io.{
  fail, interrupted, is_retried, would_block, timed_out, not_found, invalid_input, other,
}
use garuda_codec.Io.Exact.{IsQuiet, Ends, read_exact_fail}
use garuda_codec.Io.Prefix.{bytes_of-append, read_exact_prefix}
use garuda_codec.BlockEncoder.{Block}
use garuda_codec.Channel.{Sender}
use garuda_codec.Dispatch.{dispatch_to, dispatch_to_ends}
use garuda_codec.Io.{ErrorKind, ReadEvent, read_exact, unexpected_eof}
use garuda_codec.Io.Exact.{bytes_of, read_exact_cases, read_exact_shorter}
use garuda_codec.BlockDispatcher.{
  BlockDispatcher, dispatch_loop, dispatch, end_of, BlockDispatcherError, io,
}

end_of_ends : (kind : ErrorKind) → end_of kind ≢ out_of_fuel
unfolding end_of
end_of_ends unexpected_eof = λ e. cc
end_of_ends _ = λ e. cc

dispatch_loop_ends :
    (fuel : ℕ) (self : BlockDispatcher) (input : List ReadEvent) (queues : List (Sender Block))
    → 0 < self.block_size
    → length (bytes_of input) < fuel
    → (dispatch_loop fuel self input queues).result ≢ out_of_fuel
unfolding dispatch_loop
dispatch_loop_ends zero self input queues p h = absurd (omega arith)
dispatch_loop_ends (suc fuel) self input queues p h =
    elim (read_exact_cases input self.block_size) [
      | inl (bytes, e) ↦
          let block : Block = record { id = self.current_block_id; content = bytes } in
          let sent = dispatch_to self.current_block_id block queues in
          let next : BlockDispatcher = record self {
            current_block_id = (self.current_block_id + 1) % 256;
          } in
          ground (
            arith,
            dispatch_to_ends self.current_block_id block queues,
            read_exact_shorter input self.block_size fuel bytes p h e,
            dispatch_loop_ends fuel next (read_exact input self.block_size).1 sent.1 p,
          )
      | inr (kind, e) ↦ rw (e, dispatch_loop) (end_of_ends kind)
    ]

-- The fuel is enough: with a block size above 0 the loop does not run out of it on any list of
-- events, whatever the receivers do.
pub block_dispatch_ends :
    (self : BlockDispatcher) (input : List ReadEvent) (queues : List (Sender Block))
    → 0 < self.block_size
    → (dispatch self input queues).result ≢ out_of_fuel
unfolding dispatch
block_dispatch_ends self input queues p =
    dispatch_loop_ends (suc (length (bytes_of input))) self input queues p (omega arith)

-- How `dispatch` ends on an error that is not retried: the end of the stream is none.
abbrev pub reported : ErrorKind → Outcome BlockDispatcherError (Unit {0})
reported unexpected_eof = ok tt
reported kind = err (io kind)

end_of_failure :
    (kind : ErrorKind)
    → end_of (if is_retried kind then interrupted else kind)
      ≡ (if is_retried kind then ok tt else reported kind)
unfolding end_of
end_of_failure interrupted = refl
end_of_failure would_block = refl
end_of_failure timed_out = refl
end_of_failure unexpected_eof = refl
end_of_failure not_found = refl
end_of_failure invalid_input = refl
end_of_failure (other code) = refl

module _ (b : ℕ) (kind : ErrorKind) (stop : Bool) (ends : Ends kind stop)
    (after : List ReadEvent) where
  -- What the read that ends `dispatch` returns.
  abbrev failure : ErrorKind
  failure = if is_retried kind then interrupted else kind

  round_fails :
      (fuel id : ℕ) (input : List ReadEvent) (queues : List (Sender Block))
      → (read_exact input b).0 ≡ err failure
      → dispatch_loop (suc fuel) (at_id b id) input queues
        ≡ record { result = end_of failure; dispatcher = at_id b id; queues = queues }
  unfolding dispatch_loop
  round_fails fuel id input queues e = rw (e, dispatch_loop)

  dispatch_loop_stops :
      (contents : List (List ℕ)) (tail : List ℕ) (fuel id n : ℕ) (events : List ReadEvent)
      (queues : List (Sender Block))
      → IsQuiet events
      → bytes_of events ≡ joined contents tail
      → All (λ c. length c ≡ b) contents
      → length tail < b
      → length contents < fuel
      → n ≡ length queues
      → 0 < n
      → AllOpen block_id queues
      → dispatch_loop fuel (at_id b id) (events ++ (fail kind stop ∷ after)) queues ≡ record {
        result = end_of failure;
        dispatcher = at_id b (id_after id contents);
        queues = delivered block_id n (numbered id contents) 0 queues;
      }
  dispatch_loop_stops contents tail zero id n events queues q e s t f l p o = absurd (omega arith)
  dispatch_loop_stops [] tail (suc fuel) id n events queues q e s t f l p o = rw delivered-nil (
      round_fails fuel id (events ++ (fail kind stop ∷ after)) queues
        (ap (λ r. r.0) (read_exact_fail events after kind stop b q (rw e t) ends)))
  dispatch_loop_stops (c ∷ contents) tail (suc fuel) id n events queues q e s t f l p o =
      let block : Block = record { id = id; content = c } in
      let input = events ++ (fail kind stop ∷ after) in
      let (rest, got, bytes, quiet) =
        read_exact_prefix events (fail kind stop ∷ after) c (joined contents tail) b q e s.0 in
      let sent = dispatch_to-delivered block_id block queues (omega arith) o in
      let queues' : List (Sender Block) = delivered block_id n (block ∷ []) 0 queues in
      let next = (id + 1) % 256 in
      round_block b fuel id input queues c queues' (ap (λ r. r.0) got) (rw l sent)
      ∙ ap (λ r. dispatch_loop fuel (at_id b next) r.1 queues') got
      ∙ dispatch_loop_stops contents tail fuel next n rest queues' quiet bytes s.1 t (omega arith)
          (l ∙ sym (length-delivered block_id n (block ∷ []) 0 queues)) p
          (delivered-AllOpen block_id n (block ∷ []) 0 queues o)
      ∙ rw (delivered-delivered block_id n (block ∷ []) (numbered next contents) 0 queues)

  -- Let a stream be quiet up to an error that is not retried, or one that is, such as a timeout,
  -- while `stop_reading` is set, and let its bytes before that be blocks of the configured size and
  -- a shorter rest. Then, with one queue at least and all receivers alive, `dispatch`
  -- returns at that error, whatever is behind it: without an error in the second case, and in the
  -- first with the error, unless it is the end of the stream. It has numbered the blocks before it
  -- from `current_block_id` on, modulo 256, and has sent each to the queue of its number modulo the
  -- number of queues, in order; the rest is dropped.
  pub block_dispatch_stops :
      (id : ℕ) (contents : List (List ℕ)) (tail : List ℕ) (events : List ReadEvent)
      (queues : List (Sender Block))
      → 0 < b
      → IsQuiet events
      → bytes_of events ≡ joined contents tail
      → All (λ c. length c ≡ b) contents
      → length tail < b
      → 0 < length queues
      → AllOpen block_id queues
      → dispatch (at_id b id) (events ++ (fail kind stop ∷ after)) queues ≡ record {
        result = if is_retried kind then ok tt else reported kind;
        dispatcher = at_id b (id_after id contents);
        queues = delivered block_id (length queues) (numbered id contents) 0 queues;
      }
  unfolding dispatch
  block_dispatch_stops id contents tail events queues pos q e s t n o =
      rw (sym (end_of_failure kind)) (
        dispatch_loop_stops contents tail
          (suc (length (bytes_of (events ++ (fail kind stop ∷ after))))) id (length queues) events
          queues q e s t
          (rw (bytes_of-append events (fail kind stop ∷ after), e)
            (omega (
              arith,
              length-append (joined contents tail) (bytes_of after),
              joined_long b contents tail pos s,
            )))
          refl n o)
