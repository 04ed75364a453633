-- ===== src/Transfer/EndToEnd/Sample.antt =====
-- What encoder, decoder and receiver read of the sample file.
use garuda_codec.Base.{◌≡◌, refl, arith, List, [], ◌∷◌, ◌++◌, none}
use garuda_codec.BlockDispatcher.Routing.{joined}
use garuda_codec.BlockEncoder.Encode.{IsUsable}
use garuda_codec.Io.{ReadEvent, chunk, not_found}
use garuda_codec.Io.Exact.{bytes_of}
use garuda_codec.Forward.{forward_blocks}
use garuda_codec.Forward.Written.{sink}
use garuda_codec.RaptorQ.Sample.{copies}
use garuda_codec.Transfer.Sample.{first, second, sent}

pub IsUsable_294 : IsUsable copies 294 1
IsUsable_294 = record {
  nonempty = omega arith;
  symbols = omega arith;
  multiple = refl;
  count = omega arith;
}

abbrev pub input : List ReadEvent
input = chunk (first ++ second) ∷ []

abbrev pub wire_input : List ReadEvent
wire_input = chunk ((1 ∷ 0 ∷ 0 ∷ 0 ∷ second) ++ (0 ∷ 0 ∷ 0 ∷ 0 ∷ first)) ∷ []

pub input_bytes : bytes_of input ≡ joined sent []
unfolding garuda_codec.Header.BigEndian.to_be_bytes garuda_codec.Utf8.encode
    garuda_codec.Header.without_whitespace garuda_codec.Header.is_whitespace
input_bytes = refl

abbrev pub stream : List ReadEvent
stream = chunk second ∷ chunk first ∷ []

pub stream_bytes :
    bytes_of stream ≡ (forward_blocks (second ∷ first ∷ []) (sink [] none not_found)).1.written
unfolding garuda_codec.Header.BigEndian.to_be_bytes garuda_codec.Utf8.encode
    garuda_codec.Header.without_whitespace garuda_codec.Header.is_whitespace
    garuda_codec.Forward.forward_blocks garuda_codec.Forward.write_all
stream_bytes = refl
