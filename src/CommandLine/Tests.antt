-- ===== src/CommandLine/Tests.antt =====
-- An encoder on the standard input, and one that listens on a TCP address.
use garuda_codec.Base.{ℕ, ◌≡◌, ◌≢◌, refl, true, List, [], ◌∷◌, ◌++◌, ok}
use garuda_codec.BlockEncoder.{compute_repair_packets_per_block}
use garuda_codec.CommandLine.{EncoderArgs, Outside, run_encoder, run_decoder}
use garuda_codec.CommandLine.Serving.{serves_forever}
use garuda_codec.Io.{chunk}
use garuda_codec.RaptorQ.Sample.{copies}
use garuda_codec.Socket.Sample.{listed}
use garuda_codec.Streams.{tcp_uri_prefix, in_stdin, out_stdout}
use garuda_codec.Streams.Sample.{quiet_net}

abbrev calm : Outside copies listed quiet_net
calm = record {
  urandom = λ os. ok (chunk (7 ∷ []) ∷ []);
  encoding = λ input output self os. ((λ job. true), os);
  decoding = λ input output self os. ((λ job. true), os);
}

abbrev args_on : List ℕ → EncoderArgs
args_on uri = record {
  codec_args = record {
    input = uri;
    output = 45 ∷ [];
    block_size = 2;
    max_packet_size = 1;
    workers = 1;
  };
  redundancy = 30;
}

abbrev tcp_args : EncoderArgs
tcp_args = args_on (tcp_uri_prefix ++ (97 ∷ []))

serves_forever_example :
    ((run_encoder copies listed quiet_net calm 3 tcp_args ([], [])).0 ≢ ok tt)
    × ((run_decoder copies listed quiet_net calm 3 tcp_args.codec_args ([], [])).0 ≢ ok tt)
serves_forever_example = serves_forever copies listed quiet_net calm 3 tcp_args ([], []) (λ e. cc)

abbrev stdin_args : EncoderArgs
stdin_args = args_on (45 ∷ [])

output_opens :
    garuda_codec.Streams.output_from_uri listed quiet_net (45 ∷ []) [] ≡ (ok out_stdout, [])
unfolding garuda_codec.Streams.output_from_uri
output_opens = refl

one_repair_packet : compute_repair_packets_per_block copies 2 1 30 ≡ ok 1
unfolding compute_repair_packets_per_block garuda_codec.BlockEncoder.get_configuration
one_repair_packet = refl
