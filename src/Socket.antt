-- ===== src/Socket.antt =====
-- garuda-codec-core/src/socket.rs: packet sockets, with the calls of libc as parameters.
pub mod Descriptors
pub mod Sample
mod Tests
use garuda_codec.Base.{
  ℕ, zero, suc, ◌+◌, ◌==◌, ◌%◌, ◌^◌, if◌then◌else◌, Bool, true, false, List, [], ◌∷◌, reverse,
  replicate, Option, none, some, Outcome, ok, err, panic, out_of_fuel,
}
use garuda_codec.Header.BigEndian.{to_be_bytes, from_be_bytes}
use garuda_codec.Io.{ErrorKind, other}

-- `libc::sockaddr_ll`
pub record SockaddrLl : Type 0 where
  pub sll_family : ℕ
  pub sll_protocol : ℕ
  pub sll_ifindex : ℕ
  pub sll_hatype : ℕ
  pub sll_pkttype : ℕ
  pub sll_halen : ℕ
  pub sll_addr : List ℕ

-- The calls of libc, on a state of the operating system. A file descriptor is a number, and
-- `none` is -1, which the calls return for an error.
pub record Libc : Type 1 where
  pub Os : Type 0
  -- `io::Error::last_os_error`
  pub last_os_error : Os → ErrorKind
  -- The family, the type and the protocol.
  pub socket : ℕ → ℕ → ℕ → Os → Option ℕ × Os
  pub if_nametoindex : List ℕ → Os → ℕ × Os
  -- `false` is an error, as in the calls below.
  pub bind : Option ℕ → SockaddrLl → Os → Bool × Os
  -- `setsockopt` for `SO_RCVTIMEO`, of seconds and microseconds.
  pub set_rcvtimeo : Option ℕ → ℕ → ℕ → Os → Bool × Os
  pub sendto : Option ℕ → List ℕ → SockaddrLl → Os → Option ℕ × Os
  -- What is received, for a buffer of the given length.
  pub recvfrom : Option ℕ → ℕ → Os → Option (List ℕ) × Os
  pub close : Option ℕ → Os → Bool × Os
  pub dup : Option ℕ → Os → Option ℕ × Os

abbrev pub af_packet : ℕ
af_packet = 17

abbrev pub sock_raw : ℕ
sock_raw = 3

abbrev pub eth_p_all : ℕ
eth_p_all = 3

-- `to_be` of an integer of `w` bytes, on a little-endian machine.
abbrev pub to_be : ℕ → ℕ → ℕ
to_be w n = from_be_bytes (reverse (to_be_bytes w n))

-- `CString::new`, which refuses a NUL.
pub has_nul : List ℕ → Bool
has_nul [] = false
has_nul (c ∷ cs) = if c == 0 then true else has_nul cs

-- `io::Error::other`
abbrev pub other_error : ErrorKind
other_error = other 0

pub record RawSocket : Type 0 where
  pub socket_fd : Option ℕ
  pub sockaddr : SockaddrLl

-- `RawSocketReader`
pub record RawSocketReader : Type 0 where
  pub socket : RawSocket

module _ (L : Libc) where
  -- `RawSocket::new`.
  unfoldable pub new : List ℕ → L.Os → Outcome ErrorKind RawSocket × L.Os
  unfolding has_nul
  new interface_name os =
      let (socket_fd, os') = L.socket af_packet sock_raw (to_be 4 eth_p_all) os in
      let (if_index, os'') = L.if_nametoindex interface_name os' in
      elim socket_fd [
        | none ↦ (err (L.last_os_error os'), os')
        | some fd ↦
            if has_nul interface_name
            then (err other_error, os')
            else if if_index == 0
            then (err (L.last_os_error os''), os'')
            else (
              ok (record {
                socket_fd = some fd;
                sockaddr = record {
                  sll_family = af_packet;
                  sll_protocol = to_be 2 eth_p_all;
                  sll_ifindex = if_index;
                  sll_hatype = 0;
                  sll_pkttype = 0;
                  sll_halen = 0;
                  sll_addr = replicate 8 0;
                };
              }),
              os'',
            )
      ]

  -- `Drop::drop`; an error is only reported.
  unfoldable pub drop_socket : RawSocket → L.Os → L.Os
  drop_socket self os = (L.close self.socket_fd os).1

  unfoldable pub set_receive_timeout :
      RawSocket → ℕ → ℕ → L.Os → Outcome ErrorKind (Unit {0}) × L.Os
  set_receive_timeout self secs usecs os =
      let (result, os') = L.set_rcvtimeo self.socket_fd secs usecs os in
      if result then (ok tt, os') else (err (L.last_os_error os'), os')

  -- `RawSocket::bind`, which owns the socket and so drops it on an error.
  unfoldable pub bind : RawSocket → L.Os → Outcome ErrorKind RawSocketReader × L.Os
  unfolding set_receive_timeout drop_socket
  bind self os =
      let (timeout, os') = set_receive_timeout self 1 0 os in
      let (result, os'') = L.bind self.socket_fd self.sockaddr os' in
      elim timeout [
        | ok _ ↦
            if result
            then (ok (record { socket = self }), os'')
            else (err (L.last_os_error os''), drop_socket self os'')
        | err kind ↦ (err kind, drop_socket self os')
        | panic ↦ (panic, os')
        | out_of_fuel ↦ (out_of_fuel, os')
      ]

  -- `Write::write`
  unfoldable pub write : RawSocket → List ℕ → L.Os → Outcome ErrorKind ℕ × L.Os
  write self buf os =
      let (bytes_sent, os') = L.sendto self.socket_fd buf self.sockaddr os in
      elim bytes_sent [ none ↦ (err (L.last_os_error os'), os') | some n ↦ (ok n, os') ]

  -- `Clone::clone`
  unfoldable pub clone_socket : RawSocket → L.Os → RawSocket × L.Os
  clone_socket self os =
      let (new_fd, os') = L.dup self.socket_fd os in
      (record { socket_fd = new_fd; sockaddr = self.sockaddr }, os')

  -- `Read::read` of the reader, for a buffer of the given length.
  unfoldable pub read : RawSocketReader → ℕ → L.Os → Outcome ErrorKind (List ℕ) × L.Os
  read self room os =
      let (bytes_received, os') = L.recvfrom self.socket.socket_fd room os in
      elim bytes_received [ none ↦ (err (L.last_os_error os'), os') | some bytes ↦ (ok bytes, os') ]

  -- `Clone::clone` of the reader.
  unfoldable pub clone_reader : RawSocketReader → L.Os → RawSocketReader × L.Os
  unfolding clone_socket
  clone_reader self os =
      let (socket, os') = clone_socket self.socket os in (record { socket = socket }, os')
