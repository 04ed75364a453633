-- ===== src/BlockDispatcher.antt =====
-- garuda-codec-core/src/encoder.rs, `BlockDispatcher`: the input stream, cut into numbered blocks.
pub mod Routing
pub mod Ending
pub mod Ids
mod Tests
use garuda_codec.Base.{ℕ, zero, suc, ◌+◌, ◌%◌, List, length, Outcome, ok, err, panic, out_of_fuel}
use garuda_codec.BlockEncoder.{Block}
use garuda_codec.Channel.{Sender, SendError}
use garuda_codec.Dispatch.{dispatch_to}
use garuda_codec.Io.{
  ErrorKind, ReadEvent, interrupted, unexpected_eof, would_block, timed_out, not_found,
}
use garuda_codec.Io.{invalid_input, other, read_exact}
use garuda_codec.Io.Exact.{bytes_of}

pub data BlockDispatcherError : Type 0 where
  send_failed : SendError Block → BlockDispatcherError
  io : ErrorKind → BlockDispatcherError

-- `should_stop` is not a field here: its value at each look at it is part of the stream's events.
pub record BlockDispatcher : Type 0 where
  pub block_size : ℕ
  pub current_block_id : ℕ

-- `BlockDispatcher::new`; the argument is what `get_random_u8` returned.
unfoldable pub new : ℕ → Outcome ErrorKind ℕ → Outcome BlockDispatcherError BlockDispatcher
new block_size (ok id) = ok (record { block_size = block_size; current_block_id = id })
new block_size (err kind) = err (io kind)
new block_size panic = panic
new block_size out_of_fuel = out_of_fuel

-- The end of `dispatch` after `read_exact` failed.
pub end_of : ErrorKind → Outcome BlockDispatcherError (Unit {0})
end_of unexpected_eof = ok tt
end_of interrupted = ok tt
end_of would_block = err (io would_block)
end_of timed_out = err (io timed_out)
end_of not_found = err (io not_found)
end_of invalid_input = err (io invalid_input)
end_of (other code) = err (io (other code))

-- How `dispatch` ended, the dispatcher and the queues after it.
pub record Dispatched : Type 0 where
  pub result : Outcome BlockDispatcherError (Unit {0})
  pub dispatcher : BlockDispatcher
  pub queues : List (Sender Block)

-- The loop of `dispatch`, a round for each unit of fuel; `wrapping_add(1)` is modulo 256.
pub dispatch_loop : ℕ → BlockDispatcher → List ReadEvent → List (Sender Block) → Dispatched
unfolding end_of
dispatch_loop zero self input_stream block_queues = record {
  result = out_of_fuel;
  dispatcher = self;
  queues = block_queues;
}
dispatch_loop (suc fuel) self input_stream block_queues =
    let (read, input_stream') = read_exact input_stream self.block_size in
    elim read [
      | ok buffer ↦
          (let block : Block = record { id = self.current_block_id; content = buffer } in
            let (sent, block_queues') = dispatch_to self.current_block_id block block_queues in
            let next : BlockDispatcher = record self {
              current_block_id = (self.current_block_id + 1) % 256;
            } in
            let rest = dispatch_loop fuel next input_stream' block_queues' in
            elim sent [
              | ok _ ↦ rest
              | err e ↦ record {
                result = err (send_failed e);
                dispatcher = self;
                queues = block_queues';
              }
              | panic ↦ record { result = panic; dispatcher = self; queues = block_queues' }
              | out_of_fuel ↦ record {
                result = out_of_fuel;
                dispatcher = self;
                queues = block_queues';
              }
            ])
      | err kind ↦ record { result = end_of kind; dispatcher = self; queues = block_queues }
      | panic ↦ record { result = panic; dispatcher = self; queues = block_queues }
      | out_of_fuel ↦ record { result = out_of_fuel; dispatcher = self; queues = block_queues }
    ]

-- `BlockDispatcher::dispatch`. A round takes `block_size` bytes of the stream or is the last.
unfoldable pub dispatch : BlockDispatcher → List ReadEvent → List (Sender Block) → Dispatched
unfolding dispatch_loop
dispatch self input_stream block_queues =
    dispatch_loop (suc (length (bytes_of input_stream))) self input_stream block_queues
