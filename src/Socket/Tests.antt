-- ===== src/Socket/Tests.antt =====
-- A socket is opened and dropped, and descriptors are left open.
use garuda_codec.Base.{
  ℕ, ◌==◌, ◌≡◌, refl, ◌||◌, ◌&&◌, not, true, false, inr, ◌⊎◌, [], ◌∷◌, some, replicate, ok, err,
}
use garuda_codec.Io.{ErrorKind}
use garuda_codec.Socket.{RawSocket, new, drop_socket, bind}
use garuda_codec.Socket.Descriptors.{new_descriptor, new_leaks, bind_descriptor}
use garuda_codec.Socket.Sample.{listed, listed-IsLibc}

-- The socket of the interface `lo`, while descriptor 4 is open.
abbrev opened_socket : RawSocket
opened_socket = record {
  socket_fd = some 5;
  sockaddr = record {
    sll_family = 17;
    sll_protocol = 768;
    sll_ifindex = 2;
    sll_hatype = 0;
    sll_pkttype = 0;
    sll_halen = 0;
    sll_addr = replicate 8 0;
  };
}

new_lo : (new listed (108 ∷ 111 ∷ []) (4 ∷ [])).0 ≡ ok opened_socket
unfolding new garuda_codec.Header.BigEndian.from_be_bytes garuda_codec.Header.BigEndian.to_be_bytes
new_lo = refl

new_descriptor_example :
    (fd : ℕ) × (opened_socket.socket_fd ≡ some fd)
    × (listed-IsLibc.is_open (4 ∷ []) fd ≡ false)
    × ((x : ℕ)
        → listed-IsLibc.is_open (new listed (108 ∷ 111 ∷ []) (4 ∷ [])).1 x
          ≡ (x == fd || listed-IsLibc.is_open (4 ∷ []) x))
    × ((x : ℕ)
        → listed-IsLibc.is_open
            (drop_socket listed opened_socket (new listed (108 ∷ 111 ∷ []) (4 ∷ [])).1)
            x
          ≡ listed-IsLibc.is_open (4 ∷ []) x)
new_descriptor_example =
    new_descriptor listed listed-IsLibc (108 ∷ 111 ∷ []) (4 ∷ []) opened_socket new_lo

-- An empty name has no index.
new_leaks_example :
    ((kind : ErrorKind) × ((new listed [] (4 ∷ [])).0 ≡ err kind))
    × (listed-IsLibc.is_open (4 ∷ []) 5 ≡ false)
    × (listed-IsLibc.is_open (new listed [] (4 ∷ [])).1 5 ≡ true)
new_leaks_example = new_leaks listed listed-IsLibc [] (4 ∷ []) 5 refl (inr refl)

bind_descriptor_example :
    (((bind listed opened_socket (5 ∷ 4 ∷ [])).0 ≡ ok (record { socket = opened_socket }))
      × ((x : ℕ)
          → listed-IsLibc.is_open (bind listed opened_socket (5 ∷ 4 ∷ [])).1 x
            ≡ listed-IsLibc.is_open (5 ∷ 4 ∷ []) x))
    ⊎ ((kind : ErrorKind) × ((bind listed opened_socket (5 ∷ 4 ∷ [])).0 ≡ err kind)
        × ((x : ℕ)
            → listed-IsLibc.is_open (bind listed opened_socket (5 ∷ 4 ∷ [])).1 x
              ≡ (not (x == 5) && listed-IsLibc.is_open (5 ∷ 4 ∷ []) x)))
bind_descriptor_example = bind_descriptor listed listed-IsLibc opened_socket 5 (5 ∷ 4 ∷ []) refl
