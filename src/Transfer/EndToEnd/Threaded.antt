-- ===== src/Transfer/EndToEnd/Threaded.antt =====
-- A file from `send` to `receive`, through the threads of encoder and decoder under any schedule.
pub mod Sending
pub mod Receiving
pub mod Sample
mod Tests
use garuda_codec.BlockEncoder.Configuration.{symbol_len}
use garuda_codec.RaptorQ.{symbol_id_bits}
use garuda_codec.Base.{◌/◌}
use garuda_codec.Base.{
  ℕ, ◌+◌, ◌^◌, ◌<◌, ◌≤◌, ◌≡◌, sym, ◌∙◌, arith, List, [], ◌∷◌, ◌++◌, length, none, some, err,
}
use garuda_codec.BlockDispatcher.Routing.{joined}
use garuda_codec.BlockEncoder.Encode.{IsUsable}
use garuda_codec.Files.{FilePath, Disk, content_at, join, or_empty}
use garuda_codec.Forward.{forward_blocks}
use garuda_codec.Forward.Written.{sink}
use garuda_codec.Header.{UuidCrate, datagram_header_len}
use garuda_codec.Header.RoundTrip.{received_name}
use garuda_codec.Io.{ErrorKind, ReadEvent, unexpected_eof}
use garuda_codec.Io.Exact.{bytes_of}
use garuda_codec.Pipeline.Session.{IsSession, EncoderState, DecoderState, session-IsTransmission}
use garuda_codec.RaptorQ.{RaptorQ, IsLawful}
use garuda_codec.Stdio.{IsSteady}
use garuda_codec.Transfer.{process_stream}
use garuda_codec.Transfer.Blocks.{Sent}
use garuda_codec.Transfer.Delivery.{IsSendable, IsWritable, sent_bytes}
use garuda_codec.Transfer.EndToEnd.{file_arrives}

module _ (U : UuidCrate) (R : RaptorQ) (laws : IsLawful R) (b m r : ℕ) (u : IsUsable R b m)
    (fits : b / symbol_len R b m + r ≤ 2 ^ symbol_id_bits) where
  -- Under the laws of `raptorq` and of `uuid`, for a block of a whole number of symbols, at most
  -- 56403, and at most `2 ^ 24` symbols and repair packets of a block together: let a file that is
  -- not empty be sent, as `IsSendable` says, let the blocks that `send` writes be `sent`, and let
  -- them be the input of the encoder. Let each side have 1 to 128 workers, and let the threads of
  -- both sides run as `IsSession` says, under any schedule, until all have ended and nothing has
  -- failed, with a wire that delivers what the encoder has written, or loses repair packets of it.
  -- Let `forward_blocks` write what the decoders return to the receiver, whose reads give no error
  -- but interrupted ones. If the file can be written in the output directory, without an error of
  -- opening, seeking or writing, and was no longer than the content there, `process_stream` leaves
  -- the content in the directory, under the name cut to `k` characters and without white space,
  -- when the stream is at its end.
  pub threads_file_arrives :
      (file : Sent U) (k : ℕ) (file_path output_path : FilePath) (events : List ReadEvent)
      (failure : ErrorKind) (sent : List (List ℕ)) (n id : ℕ) (input wire_input : List ReadEvent)
      (sender : EncoderState R laws b m r u fits) (arrived : List R.Packet)
      (receiver : DecoderState R laws b m r u fits) (tail : List ℕ) (stream : List ReadEvent)
      (disk : Disk)
      → IsSendable U file k file_path events b
      → sent_bytes U file file_path events b failure ≡ joined sent []
      → IsSession R laws b m r u fits n id sent input wire_input sender arrived receiver tail
      → bytes_of stream ≡ (forward_blocks receiver.written (sink [] none failure)).1.written
      → IsSteady stream
      → IsWritable disk.device (join output_path (received_name file.name k)) (length file.content)
      → length (or_empty (content_at (join output_path (received_name file.name k)) disk))
        ≤ length file.content
      → ((process_stream U output_path stream b disk).0 ≡ err unexpected_eof)
        × ((process_stream U output_path stream b disk).1.contents
              (disk.device.file_of (join output_path (received_name file.name k)))
            ≡ some file.content)
  threads_file_arrives file k file_path output_path events failure sent n id input wire_input sender
        arrived receiver tail stream disk s written i forwarded q opens old =
      let (arrivals, t) =
        session-IsTransmission R laws b m r u fits n id sent input wire_input sender arrived
          receiver tail (omega (arith, s.payload)) i in
      file_arrives U R laws b m u file k file_path output_path events failure sent n id input
        wire_input arrivals arrived tail receiver.written stream disk s written i.sized
        (i.input_bytes ∙ sym written) t forwarded q opens old
