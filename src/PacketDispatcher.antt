-- ===== src/PacketDispatcher.antt =====
-- garuda-codec-core/src/decoder.rs, `PacketDispatcher`: the input stream, cut into packets.
pub mod Routing
pub mod Ending
mod Tests
use garuda_codec.Base.{ℕ, zero, suc, List, length, Outcome, ok, err, panic, out_of_fuel}
use garuda_codec.Channel.{Sender, SendError}
use garuda_codec.Dispatch.{dispatch_to}
use garuda_codec.Io.{
  ErrorKind, ReadEvent, interrupted, unexpected_eof, would_block, timed_out, not_found,
}
use garuda_codec.Io.{invalid_input, other, read_exact}
use garuda_codec.Io.Exact.{bytes_of}
use garuda_codec.RaptorQ.{RaptorQ}

-- `should_stop` is not a field here: its value at each look at it is part of the stream's events.
pub record PacketDispatcher : Type 0 where
  pub packet_size : ℕ

-- `PacketDispatcher::new`
unfoldable pub new : ℕ → PacketDispatcher
new packet_size = record { packet_size = packet_size }

module _ (R : RaptorQ) where
  pub data PacketDispatcherError : Type 0 where
    send_failed : SendError R.Packet → PacketDispatcherError
    io : ErrorKind → PacketDispatcherError

  -- The end of `dispatch` after `read_exact` failed.
  pub end_of : ErrorKind → Outcome PacketDispatcherError (Unit {0})
  end_of unexpected_eof = ok tt
  end_of interrupted = ok tt
  end_of would_block = err (io would_block)
  end_of timed_out = err (io timed_out)
  end_of not_found = err (io not_found)
  end_of invalid_input = err (io invalid_input)
  end_of (other code) = err (io (other code))

  -- How `dispatch` ended, and the queues after it.
  pub record Dispatched : Type 0 where
    pub result : Outcome PacketDispatcherError (Unit {0})
    pub queues : List (Sender R.Packet)

  -- The loop of `dispatch`, a round for each unit of fuel.
  pub dispatch_loop : ℕ → PacketDispatcher → List ReadEvent → List (Sender R.Packet) → Dispatched
  unfolding end_of
  dispatch_loop zero self input_stream packet_queues = record {
    result = out_of_fuel;
    queues = packet_queues;
  }
  dispatch_loop (suc fuel) self input_stream packet_queues =
      let (read, input_stream') = read_exact input_stream self.packet_size in
      elim read [
        | ok buffer ↦
            (let packet = R.deserialize buffer in
              let received_block_id = R.source_block_number packet in
              let (sent, packet_queues') = dispatch_to received_block_id packet packet_queues in
              let rest = dispatch_loop fuel self input_stream' packet_queues' in
              elim sent [
                | ok _ ↦ rest
                | err e ↦ record { result = err (send_failed e); queues = packet_queues' }
                | panic ↦ record { result = panic; queues = packet_queues' }
                | out_of_fuel ↦ record { result = out_of_fuel; queues = packet_queues' }
              ])
        | err kind ↦ record { result = end_of kind; queues = packet_queues }
        | panic ↦ record { result = panic; queues = packet_queues }
        | out_of_fuel ↦ record { result = out_of_fuel; queues = packet_queues }
      ]

  -- `PacketDispatcher::dispatch`. A round takes `packet_size` bytes of the stream or is the last.
  unfoldable pub dispatch : PacketDispatcher → List ReadEvent → List (Sender R.Packet) → Dispatched
  unfolding dispatch_loop
  dispatch self input_stream packet_queues =
      dispatch_loop (suc (length (bytes_of input_stream))) self input_stream packet_queues
