-- ===== src/CommandLine/Main/Delivery.antt =====
-- A file from `garuda send` to `garuda receive`, with the threads of an encoder and a decoder
-- between them.
use garuda_codec.Base.{◌+◌}
use garuda_codec.BlockEncoder.Configuration.{symbol_len}
use garuda_codec.RaptorQ.{symbol_id_bits}
use garuda_codec.Base.{◌/◌}
use garuda_codec.Base.{
  ℕ, ◌^◌, ◌≤◌, ◌≡◌, refl, sym, ap, ◌∙◌, arith, List, [], length, none, some, ok, err, Option,
  Outcome, out_of_fuel,
}
use garuda_codec.BlockDispatcher.Routing.{joined}
use garuda_codec.BlockEncoder.Encode.{IsUsable}
use garuda_codec.CommandLine.Main.{
  SendArgs, ReceiveArgs, Surroundings, MainState, next_reads, main, main_send, main_receive, send,
  receive,
}
use garuda_codec.Files.{FilePath, Disk, content_at, join, or_empty}
use garuda_codec.Forward.{forward_blocks}
use garuda_codec.Forward.Written.{sink}
use garuda_codec.Header.{UuidCrate}
use garuda_codec.Header.RoundTrip.{received_name}
use garuda_codec.Io.{ErrorKind, ReadEvent, unexpected_eof}
use garuda_codec.Io.Exact.{bytes_of}
use garuda_codec.Pipeline.Session.{IsSession, EncoderState, DecoderState}
use garuda_codec.RaptorQ.{RaptorQ, IsLawful}
use garuda_codec.Socket.{Libc}
use garuda_codec.Stdio.{IsSteady}
use garuda_codec.Streams.{
  Net, InputStream, OutputStream, Listener, output_from_uri, listener_from_uri, next_stream,
}
use garuda_codec.Transfer as Transfer
use garuda_codec.Transfer.{receive_loop, process_stream}
use garuda_codec.Transfer.Blocks.{Sent}
use garuda_codec.Transfer.Delivery.{IsSendable, IsWritable, sent_bytes}
use garuda_codec.Transfer.EndToEnd.Threaded.{threads_file_arrives}
use garuda_codec.Transfer.Sending.{send_blocks}

module _ (U : UuidCrate) (R : RaptorQ) (L : Libc) (N : Net L) where
  -- The address of the command opens, to a stream that takes everything, and the path is that of
  -- `file`, whose reads give `events`.
  pub record IsSending (args : SendArgs) (E : Surroundings U R L N) (s : MainState U R L N)
      (file : Sent U) (events : List ReadEvent) (failure : ErrorKind) : Type 0 where
    pub stream : OutputStream L N
    pub opens : (output_from_uri L N args.address s.world.1).0 ≡ ok stream
    pub identifier : E.new_v4 ≡ file.file_id
    pub source :
        E.source args.file_path ≡ record { metadata_len = ok file.file_length; opened = ok events }
    pub nothing_sent : s.sink ≡ sink [] none failure

  -- The directory is there, or can be made, and the first stream that the listener gives has the
  -- reads `stream`.
  pub record IsReceiving (args : ReceiveArgs) (E : Surroundings U R L N) (s : MainState U R L N)
      (stream : List ReadEvent) : Type 0 where
    pub listener : Listener L N
    pub accepted : InputStream L N
    pub created : E.create_dir_all args.directory ≡ ok tt
    pub listens : (listener_from_uri L N args.address s.world.1).0 ≡ ok listener
    pub accepts :
        (next_stream L N listener (listener_from_uri L N args.address s.world.1).1).0.0
        ≡ some (ok accepted)
    pub reads :
        (E.reading accepted
          (next_stream L N listener (listener_from_uri L N args.address s.world.1).1).1).0
        ≡ stream

  main_sent :
      (args : SendArgs) (E : Surroundings U R L N) (fuel : ℕ) (s : MainState U R L N)
      (file : Sent U) (k : ℕ) (events : List ReadEvent) (failure : ErrorKind)
      → IsSendable U file k args.file_path events args.block_size
      → IsSending args E s file events failure
      → ((main U R L N E fuel (send args) s).0 ≡ ok tt)
        × ((main U R L N E fuel (send args) s).1.sink.written
            ≡ sent_bytes U file args.file_path events args.block_size failure)
  unfolding main
  main_sent args E fuel s file k events failure h i =
      let (blocks, sent, all, carried) =
        send_blocks U h.laws file k args.file_path events args.block_size [] failure h.named
          h.name_chars h.cut h.file_length_fits h.is_file h.reads (omega (arith, h.content_fits))
          h.payload h.payload_fits in
      (
        rw (main_send, i.opens, i.identifier, i.source, i.nothing_sent, ap (λ r. r.0) sent) refl,
        rw (main_send, i.opens, i.identifier, i.source, i.nothing_sent) refl,
      )

  -- `receive` at the end of the first stream, which is a failure that is reported only.
  receive_one :
      {A B : Type 0} (next : A → B → (Option (Outcome ErrorKind (List ReadEvent)) × A) × B)
      (listener : A) (os : B) (output_path : FilePath) (stream : List ReadEvent) (block_size : ℕ)
      (disk : Disk) (kind : ErrorKind)
      → (next listener os).0.0 ≡ some (ok stream)
      → (process_stream U output_path stream block_size disk).0 ≡ err kind
      → Transfer.receive U 1 next output_path (ok tt) (ok listener) os block_size disk ≡ (
        out_of_fuel,
        ((process_stream U output_path stream block_size disk).1, (next listener os).1),
      )
  unfolding Transfer.receive receive_loop
  receive_one next listener os output_path stream block_size disk kind e f =
      rw (Transfer.receive, receive_loop, e, f) refl

  main_received :
      (args : ReceiveArgs) (E : Surroundings U R L N) (s : MainState U R L N)
      (stream : List ReadEvent) (kind : ErrorKind)
      → IsReceiving args E s stream
      → (process_stream U args.directory stream args.block_size s.disk).0 ≡ err kind
      → ((main U R L N E 1 (receive args) s).0 ≡ out_of_fuel)
        × ((main U R L N E 1 (receive args) s).1.disk
            ≡ (process_stream U args.directory stream args.block_size s.disk).1)
  unfolding main
  main_received args E s stream kind i e =
      let os = (listener_from_uri L N args.address s.world.1).1 in
      let first : (next_reads U R L N E i.listener os).0.0 ≡ some (ok stream) =
        rw (i.accepts, i.reads) refl in
      let one =
        receive_one (next_reads U R L N E) i.listener os args.directory stream args.block_size
          s.disk kind first e in
      (
        rw (main_receive, i.created, i.listens, i.created, one) refl,
        rw (main_receive, i.created, i.listens, i.created, one) refl,
      )

  module _ (laws : IsLawful R) (r : ℕ) where
    -- Under the laws of `raptorq` and of `uuid`: let `garuda send` send a file that is not empty,
    -- as `IsSendable` and `IsSending` say, with a block size that is a whole number of symbols,
    -- at most 56403, and at most `2 ^ 24` symbols and repair packets of a block together. Let what
    -- it has written be whole blocks, and let the threads of an encoder and of a decoder, of 1 to
    -- 128 workers each, pass these on, as `IsSession` says, under any schedule, over a wire that
    -- may lose repair packets. Let `garuda receive` take the blocks that the decoder returns, with
    -- the same block size, as its first stream, whose reads give no error but interrupted ones,
    -- and let the file be one that can be written in its directory, without an error of opening,
    -- seeking or writing, and no longer than the content there. Then `garuda send` ends in success,
    -- and `garuda receive`, when it is at the end of the stream and goes on to the next one, has
    -- left the content in the directory, under the name cut to `k` characters and without white
    -- space.
    pub commands_deliver :
        (sending : SendArgs) (receiving : ReceiveArgs) (E E' : Surroundings U R L N) (fuel : ℕ)
        (s s' : MainState U R L N) (file : Sent U) (k m : ℕ) (events : List ReadEvent)
        (failure : ErrorKind) (sent : List (List ℕ)) (n id : ℕ) (input wire_input : List ReadEvent)
        (u : IsUsable R sending.block_size m)
        (fits : sending.block_size / symbol_len R sending.block_size m + r ≤ 2 ^ symbol_id_bits)
        (sender : EncoderState R laws sending.block_size m r u fits) (arrived : List R.Packet)
        (receiver : DecoderState R laws sending.block_size m r u fits) (tail : List ℕ)
        (stream : List ReadEvent)
        → IsSendable U file k sending.file_path events sending.block_size
        → IsSending sending E s file events failure
        → (main U R L N E fuel (send sending) s).1.sink.written ≡ joined sent []
        → IsSession R laws sending.block_size m r u fits n id sent input wire_input sender arrived
            receiver tail
        → bytes_of stream ≡ (forward_blocks receiver.written (sink [] none failure)).1.written
        → IsSteady stream
        → receiving.block_size ≡ sending.block_size
        → IsReceiving receiving E' s' stream
        → IsWritable s'.disk.device
            (join receiving.directory (received_name file.name k))
            (length file.content)
        → length
            (or_empty (content_at (join receiving.directory (received_name file.name k)) s'.disk))
          ≤ length file.content
        → ((main U R L N E fuel (send sending) s).0 ≡ ok tt)
          × ((main U R L N E' 1 (receive receiving) s').0 ≡ out_of_fuel)
          × ((main U R L N E' 1 (receive receiving) s').1.disk.contents
                (s'.disk.device.file_of (join receiving.directory (received_name file.name k)))
              ≡ some file.content)
    commands_deliver sending receiving E E' fuel s s' file k m events failure sent n id input
          wire_input u fits sender arrived receiver tail stream h i written session forwarded steady
          same j opens old =
        let (sent_ok, sent_same) = main_sent sending E fuel s file k events failure h i in
        let (failed, arrived) =
          threads_file_arrives U R laws sending.block_size m r u fits file k sending.file_path
            receiving.directory events failure sent n id input wire_input sender arrived receiver
            tail stream s'.disk h (sym sent_same ∙ written) session forwarded steady opens old in
        let (received_ok, left) =
          main_received receiving E' s' stream unexpected_eof j (rw same failed) in
        (
          sent_ok,
          received_ok,
          ap
                (λ (d : Disk).
                  d.contents
                    (s'.disk.device.file_of (join receiving.directory (received_name file.name k))))
                left
              ∙ rw same arrived,
        )
