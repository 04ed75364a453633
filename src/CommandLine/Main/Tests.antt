-- ===== src/CommandLine/Main/Tests.antt =====
-- The sample file from `garuda send` to `garuda receive`, on the standard streams; and a code with
-- aligned symbols.
use garuda_codec.Base.{
  ◌-◌, ◌%◌, ◌≡◌, refl, arith, true, false, [], ◌∷◌, none, some, ok, out_of_fuel,
}
use garuda_codec.BlockDispatcher.Routing.{joined}
use garuda_codec.BlockEncoder.{compute_repair_packets_per_block}
use garuda_codec.CommandLine.Main.Defaults.{IsAligned, defaults_fit}
use garuda_codec.RaptorQ.{RaptorQ}
use garuda_codec.CommandLine.Main.{
  codec_args, encoder_args, SendArgs, ReceiveArgs, Surroundings, MainState, main, main_send, send,
  receive,
}
use garuda_codec.CommandLine.Main.Delivery.{IsSending, IsReceiving, commands_deliver}
use garuda_codec.Files.{join}
use garuda_codec.Forward.Written.{sink}
use garuda_codec.Header.RoundTrip.{received_name}
use garuda_codec.Header.Sample.{single}
use garuda_codec.Io.{chunk, not_found}
use garuda_codec.RaptorQ.Sample.{copies, copies-IsLawful}
use garuda_codec.Socket.Sample.{listed}
use garuda_codec.Streams.{in_stdin, out_stdout, on_stdin, stdin, stdout}
use garuda_codec.Streams.Sample.{quiet_net}
use garuda_codec.Transfer.Sample.{
  file, sent, file_path, events, file-IsSendable, sent_lem, empty_disk, sum_of,
}
use garuda_codec.Transfer.EndToEnd.Sample.{IsUsable_294, input, wire_input, stream, stream_bytes}
use garuda_codec.Transfer.EndToEnd.Threaded.Sample.{sample-IsSession}
use garuda_codec.Transfer.EndToEnd.Threaded.Receiving.{receiver}
use garuda_codec.Transfer.EndToEnd.Threaded.Sending.{packet_0, packet_1, sender}

abbrev sending : SendArgs
sending = record { file_path = file_path; address = stdout; block_size = 294 }

abbrev receiving : ReceiveArgs
receiving = record { directory = 111 ∷ []; address = stdin; block_size = 294 }

abbrev here : Surroundings single copies listed quiet_net
here = record {
  outside = record {
    urandom = λ os. ok (chunk (7 ∷ []) ∷ []);
    encoding = λ input output self os. ((λ job. true), os);
    decoding = λ input output self os. ((λ job. true), os);
  };
  new_v4 = tt;
  source = λ path. record { metadata_len = ok 3; opened = ok events };
  create_dir_all = λ path. ok tt;
  reading = λ accepted os. (stream, os);
}

abbrev fresh : MainState single copies listed quiet_net
fresh = record { world = ([], []); sink = sink [] none not_found; disk = empty_disk }

sample-IsSending : IsSending single copies listed quiet_net sending here fresh file events not_found
unfolding garuda_codec.Streams.output_from_uri
sample-IsSending = record {
  stream = out_stdout;
  opens = refl;
  identifier = refl;
  source = refl;
  nothing_sent = refl;
}

sample-IsReceiving : IsReceiving single copies listed quiet_net receiving here fresh stream
unfolding garuda_codec.Streams.listener_from_uri garuda_codec.Streams.next_stream
sample-IsReceiving = record {
  listener = on_stdin false;
  created = refl;
  listens = refl;
  accepted = in_stdin;
  accepts = refl;
  reads = refl;
}

sample_written :
    (main single copies listed quiet_net here 1 (send sending) fresh).1.sink.written
    ≡ joined sent []
unfolding main main_send garuda_codec.Streams.output_from_uri
sample_written = sent_lem

commands_deliver_example :
    ((main single copies listed quiet_net here 1 (send sending) fresh).0 ≡ ok tt)
    × ((main single copies listed quiet_net here 1 (receive receiving) fresh).0 ≡ out_of_fuel)
    × ((main single copies listed quiet_net here 1 (receive receiving) fresh).1.disk.contents
          (sum_of (join (111 ∷ []) (received_name (97 ∷ []) 1)))
        ≡ some (1 ∷ 2 ∷ 3 ∷ []))
commands_deliver_example =
    commands_deliver single copies listed quiet_net copies-IsLawful 0 sending receiving here here 1
      fresh fresh file 1 1 events not_found sent 2 0 input wire_input IsUsable_294 (omega arith)
      sender (packet_1 ∷ packet_0 ∷ []) receiver [] stream file-IsSendable sample-IsSending
      sample_written sample-IsSession stream_bytes ((λ e. cc), ((λ e. cc), tt)) refl
      sample-IsReceiving (λ offset payload h contents. (refl, refl, refl)) (omega arith)

-- Symbols as `raptorq` aligns them.
abbrev aligned : RaptorQ
aligned = record copies {
  with_defaults = λ len max_packet_size. max_packet_size - max_packet_size % 8;
}

aligned-IsAligned : IsAligned aligned
aligned-IsAligned len max_packet_size h = refl

default_repair_packets : compute_repair_packets_per_block aligned 287232 1500 30 ≡ ok 58
unfolding codec_args encoder_args
default_repair_packets = (defaults_fit aligned aligned-IsAligned [] [] [] none [] []).1
