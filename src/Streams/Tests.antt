-- ===== src/Streams/Tests.antt =====
-- The address `unix://a` for output, and `udp://a`, which is none, for input.
use garuda_codec.Base.{ℕ, ◌≡◌, ◌≢◌, ◌⊎◌, refl, List, [], ◌∷◌, ◌++◌, some, replicate, ok, err}
use garuda_codec.Socket.{RawSocket}
use garuda_codec.Io.{ErrorKind, chunk, fail, interrupted, invalid_input}
use garuda_codec.Base.{false}
use garuda_codec.Socket.Sample.{listed}
use garuda_codec.Streams.{
  output_from_uri, get_random_u8, OutputStream, out_raw_socket, try_clone, write_stream,
  unix_socket_uri_prefix,
}
use garuda_codec.Streams.Addresses.{Address, uri_of, open_output, output_from_uri_lem}
use garuda_codec.Streams.Cloning.{broken_clone}
use garuda_codec.Streams.Sample.{quiet_net}

abbrev unix_uri : List ℕ
unix_uri = unix_socket_uri_prefix ++ (97 ∷ [])

abbrev udp_uri : List ℕ
udp_uri = 117 ∷ 100 ∷ 112 ∷ 58 ∷ 47 ∷ 47 ∷ 97 ∷ []

output_from_uri_lem_example :
    ((address : Address) × (unix_uri ≡ uri_of address)
      × (output_from_uri listed quiet_net unix_uri [] ≡ open_output listed quiet_net address []))
    ⊎ (((address : Address) → unix_uri ≢ uri_of address)
        × (output_from_uri listed quiet_net unix_uri [] ≡ (err invalid_input, [])))
output_from_uri_lem_example = output_from_uri_lem listed quiet_net unix_uri []

-- The first byte that is read, whatever interrupts the reading.
random_byte : get_random_u8 (ok (fail interrupted false ∷ chunk (7 ∷ 8 ∷ []) ∷ [])) ≡ ok 7
unfolding get_random_u8 garuda_codec.Stdio.read_to_fill
random_byte = refl

-- `dup` fails always.
abbrev some_socket : RawSocket
some_socket = record {
  socket_fd = some 5;
  sockaddr = record {
    sll_family = 17;
    sll_protocol = 768;
    sll_ifindex = 2;
    sll_hatype = 0;
    sll_pkttype = 0;
    sll_halen = 0;
    sll_addr = replicate 8 0;
  };
}

broken_clone_example :
    (stream : OutputStream listed quiet_net) × ((try_clone listed quiet_net
        (out_raw_socket some_socket)
        (5 ∷ [])).0
      ≡ ok stream)
    × ((buf : List ℕ) (now : List ℕ)
        → (kind : ErrorKind) × ((write_stream listed quiet_net stream buf now).0 ≡ err kind))
broken_clone_example =
    broken_clone listed quiet_net some_socket (5 ∷ []) refl (λ buf address now. refl)
