-- ===== src/Transfer/EndToEnd.antt =====
-- A file from `send` through encoder and decoder to `receive`.
pub mod Threaded
pub mod Sample
mod Tests
use garuda_codec.Base.{
  ℕ, ◌+◌, ◌<◌, ◌≤◌, ◌≡◌, refl, sym, ap, ◌∙◌, arith, List, [], ◌∷◌, ◌++◌, length, All, none, some,
  err, append-nil,
}
use garuda_codec.BlockDecoder.Recovery.{Reception}
use garuda_codec.BlockDispatcher.Routing.{joined}
use garuda_codec.BlockEncoder.Encode.{IsUsable}
use garuda_codec.Files.{FilePath, Disk, content_at, join, or_empty}
use garuda_codec.Forward.{forward_blocks}
use garuda_codec.Forward.Written.{sink, forward_blocks_ok}
use garuda_codec.Header.{UuidCrate, datagram_header_len}
use garuda_codec.Header.RoundTrip.{received_name}
use garuda_codec.Io.{ErrorKind, ReadEvent, unexpected_eof}
use garuda_codec.Io.Exact.{bytes_of}
use garuda_codec.Pipeline.Lossless.{IsTransmission, lossless}
use garuda_codec.RaptorQ.{RaptorQ, IsLawful}
use garuda_codec.Stdio.{IsSteady}
use garuda_codec.Transfer.{process_stream}
use garuda_codec.Transfer.Delivery.{IsSendable, IsWritable, sent_bytes, send_then_receive}
use garuda_codec.Transfer.Blocks.{Sent}

module _ (U : UuidCrate) (R : RaptorQ) (laws : IsLawful R) (b m : ℕ) (u : IsUsable R b m) where
  -- Under the laws of `raptorq` and of `uuid`, for a block of a whole number of symbols, at most
  -- 56403: let a file that is not empty be sent, as `IsSendable` says, let the blocks that `send`
  -- writes be `sent`, and let them be the input of the encoder. Let each side have 1 to 128
  -- workers, and let the blocks pass as `IsTransmission` says: the source packets of all blocks
  -- reach the decoders, in any interleaving with those of other workers and with repair packets,
  -- and `out` is what the decoders return, in any interleaving. Let `forward_blocks` write it to
  -- the receiver, whose reads give no error but interrupted ones. If the file can be written in the
  -- output directory, without an error of opening, seeking or writing, and was no longer than the
  -- content there, `process_stream` leaves the content in
  -- the directory, under the name cut to `k` characters and without white space, when the stream
  -- is at its end.
  pub file_arrives :
      (file : Sent U) (k : ℕ) (file_path output_path : FilePath) (events : List ReadEvent)
      (failure : ErrorKind) (sent : List (List ℕ)) (n id : ℕ) (input wire_input : List ReadEvent)
      (arrivals : ℕ → List (Reception R)) (zs : List R.Packet) (tail : List ℕ) (out : List (List ℕ))
      (stream : List ReadEvent) (disk : Disk)
      → IsSendable U file k file_path events b
      → sent_bytes U file file_path events b failure ≡ joined sent []
      → All (λ block. length block ≡ b) sent
      → bytes_of input ≡ sent_bytes U file file_path events b failure
      → IsTransmission R laws b m u n id input wire_input arrivals zs tail out
      → bytes_of stream ≡ (forward_blocks out (sink [] none failure)).1.written
      → IsSteady stream
      → IsWritable disk.device (join output_path (received_name file.name k)) (length file.content)
      → length (or_empty (content_at (join output_path (received_name file.name k)) disk))
        ≤ length file.content
      → ((process_stream U output_path stream b disk).0 ≡ err unexpected_eof)
        × ((process_stream U output_path stream b disk).1.contents
              (disk.device.file_of (join output_path (received_name file.name k)))
            ≡ some file.content)
  file_arrives file k file_path output_path events failure sent n id input wire_input arrivals zs
        tail out stream disk s written sized e t forwarded q opens old =
      let pos : 0 < b = omega (arith, s.payload) in
      let (of_sent, complete, each_once) =
        lossless R laws b m u n id sent input wire_input arrivals zs tail out pos (e ∙ written)
          sized t in
      let bytes : bytes_of stream ≡ joined out [] =
        forwarded ∙ ap (λ r. r.1.written) (forward_blocks_ok out [] none failure tt) in
      send_then_receive U file k file_path output_path events b failure sent out [] stream disk s
        written sized of_sent complete q bytes pos opens old
