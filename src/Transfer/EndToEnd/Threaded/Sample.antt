-- ===== src/Transfer/EndToEnd/Threaded/Sample.antt =====
-- The sample file with two workers on each side.
use garuda_codec.Base.{◌∷◌, refl, arith, []}
use garuda_codec.Merge.Dropping.{Drops-self}
use garuda_codec.Pipeline.Session.{IsSession}
use garuda_codec.RaptorQ.Sample.{copies, copies-IsLawful}
use garuda_codec.Transfer.EndToEnd.Sample.{IsUsable_294, input, wire_input, input_bytes}
use garuda_codec.Transfer.EndToEnd.Threaded.Receiving.{receiver, receiver_reached, receiver-IsFinal}
use garuda_codec.Transfer.EndToEnd.Threaded.Sending.{
  packet_0, packet_1, sender, sender_reached, sender-IsFinal,
}
use garuda_codec.Transfer.Sample.{sent, sizes}

pub sample-IsSession :
    IsSession copies copies-IsLawful 294 1 0 IsUsable_294
      (omega arith)
      2
      0
      sent
      input
      wire_input
      sender
      (packet_1 ∷ packet_0 ∷ [])
      receiver
      []
unfolding garuda_codec.Header.BigEndian.to_be_bytes garuda_codec.Utf8.encode
    garuda_codec.Header.without_whitespace garuda_codec.Header.is_whitespace
sample-IsSession = record {
  some_worker = omega arith;
  few_workers = omega arith;
  id_fits = omega arith;
  quiet = ((λ e. cc), tt);
  input_bytes = input_bytes;
  sized = (sizes.0, (sizes.1, tt));
  encoded = (sender_reached, sender-IsFinal);
  encoder_clean = refl;
  never_stopped = refl;
  losses = Drops-self _ (packet_1 ∷ packet_0 ∷ []);
  wire_quiet = ((λ e. cc), tt);
  wire_bytes = refl;
  short_tail = omega arith;
  decoded = (receiver_reached, receiver-IsFinal);
  decoder_clean = refl;
  decoder_never_stopped = refl;
}
