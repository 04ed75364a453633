-- ===== src/Streams.antt =====
-- garuda-codec-core/src/io_stream.rs: streams and listeners by address, on the calls of the
-- standard library as parameters, and random.rs.
pub mod Addresses
pub mod Cloning
pub mod Sample
mod Tests
use garuda_codec.Base.{
  ℕ, zero, suc, ◌+◌, ◌==◌, if◌then◌else◌, Bool, true, false, List, [], ◌∷◌, length, get_elem?,
  Option, none, some, Outcome, ok, err, panic, out_of_fuel, map_err,
}
use garuda_codec.Files.{same}
use garuda_codec.Io.{ErrorKind, ReadEvent, not_found, invalid_input}
use garuda_codec.Socket as Socket
use garuda_codec.Socket.{Libc, RawSocket, RawSocketReader}
use garuda_codec.Stdio.{read_to_fill}

abbrev pub Call : Type 0 → Type 0 → Type 0
Call Os A = Os → Outcome ErrorKind A × Os

-- `std::net`, `std::os::unix::net`, `std::fs::remove_file` and the standard streams.
pub record Net (L : Libc) : Type 1 where
  pub TcpStream : Type 0
  pub UnixStream : Type 0
  pub TcpListener : Type 0
  pub UnixListener : Type 0
  pub tcp_connect : List ℕ → Call L.Os TcpStream
  pub unix_connect : List ℕ → Call L.Os UnixStream
  pub tcp_bind : List ℕ → Call L.Os TcpListener
  pub unix_bind : List ℕ → Call L.Os UnixListener
  pub remove_file : List ℕ → Call L.Os (Unit {0})
  pub tcp_accept : TcpListener → Call L.Os TcpStream
  pub unix_accept : UnixListener → Call L.Os UnixStream
  pub tcp_try_clone : TcpStream → Call L.Os TcpStream
  pub unix_try_clone : UnixStream → Call L.Os UnixStream
  pub stdout_write : List ℕ → Call L.Os ℕ
  pub tcp_write : TcpStream → List ℕ → Call L.Os ℕ
  pub unix_write : UnixStream → List ℕ → Call L.Os ℕ
  pub stdout_flush : Call L.Os (Unit {0})
  pub tcp_flush : TcpStream → Call L.Os (Unit {0})
  pub unix_flush : UnixStream → Call L.Os (Unit {0})
  pub stdin_read : ℕ → Call L.Os (List ℕ)
  pub tcp_read : TcpStream → ℕ → Call L.Os (List ℕ)
  pub unix_read : UnixStream → ℕ → Call L.Os (List ℕ)

-- An address is the list of its characters.
abbrev pub stdin : List ℕ
stdin = 45 ∷ []

abbrev pub stdout : List ℕ
stdout = 45 ∷ []

-- `tcp://`
abbrev pub tcp_uri_prefix : List ℕ
tcp_uri_prefix = 116 ∷ 99 ∷ 112 ∷ 58 ∷ 47 ∷ 47 ∷ []

-- `unix://`
abbrev pub unix_socket_uri_prefix : List ℕ
unix_socket_uri_prefix = 117 ∷ 110 ∷ 105 ∷ 120 ∷ 58 ∷ 47 ∷ 47 ∷ []

-- `af_packet://`
abbrev pub af_packet_socket_uri_prefix : List ℕ
af_packet_socket_uri_prefix = 97 ∷ 102 ∷ 95 ∷ 112 ∷ 97 ∷ 99 ∷ 107 ∷ 101 ∷ 116 ∷ 58 ∷ 47 ∷ 47 ∷ []

-- `str::strip_prefix`
abbrev pub strip_prefix : List ℕ → List ℕ → Option (List ℕ)
strip_prefix [] uri = some uri
strip_prefix (c ∷ cs) [] = none
strip_prefix (c ∷ cs) (d ∷ uri) = if c == d then strip_prefix cs uri else none

-- `?` and a constructor around the result.
abbrev pub wrap : {A B : Type 0} → (A → B) → Outcome ErrorKind A → Outcome ErrorKind B
wrap f (ok a) = ok (f a)
wrap f (err kind) = err kind
wrap f panic = panic
wrap f out_of_fuel = out_of_fuel

abbrev pub wrap_call :
    {Os A B : Type 0} → (A → B) → Outcome ErrorKind A × Os → Outcome ErrorKind B × Os
wrap_call f (result, os) = (wrap f result, os)

module _ (L : Libc) (N : Net L) where
  pub data OutputStream : Type 0 where
    out_stdout : OutputStream
    out_tcp : N.TcpStream → OutputStream
    out_unix : N.UnixStream → OutputStream
    out_raw_socket : RawSocket → OutputStream

  pub data InputStream : Type 0 where
    in_stdin : InputStream
    in_tcp : N.TcpStream → InputStream
    in_unix : N.UnixStream → InputStream
    in_raw_socket : RawSocketReader → InputStream

  -- Of `Stdin`, whether it is closed; of `RawSocket`, the name of the interface.
  pub data Listener : Type 0 where
    on_stdin : Bool → Listener
    on_tcp : N.TcpListener → Listener
    on_unix : N.UnixListener → Listener
    on_raw_socket : List ℕ → Listener

  -- `OutputStream::from_uri`
  unfoldable pub output_from_uri : List ℕ → Call L.Os OutputStream
  output_from_uri uri os =
      let other_uri : Outcome ErrorKind OutputStream × L.Os =
        elim (strip_prefix tcp_uri_prefix uri) [
          | some addr ↦ wrap_call out_tcp (N.tcp_connect addr os)
          | none ↦ elim (strip_prefix unix_socket_uri_prefix uri) [
            | some addr ↦ wrap_call out_unix (N.unix_connect addr os)
            | none ↦ elim (strip_prefix af_packet_socket_uri_prefix uri) [
              | some interface_name ↦ wrap_call out_raw_socket (Socket.new L interface_name os)
              | none ↦ (err invalid_input, os)
            ]
          ]
        ] in
      if same uri stdout then (ok out_stdout, os) else other_uri

  -- `OutputStream::try_clone`
  unfoldable pub try_clone : OutputStream → Call L.Os OutputStream
  try_clone out_stdout os = (ok out_stdout, os)
  try_clone (out_tcp stream) os = wrap_call out_tcp (N.tcp_try_clone stream os)
  try_clone (out_unix stream) os = wrap_call out_unix (N.unix_try_clone stream os)
  try_clone (out_raw_socket raw_socket) os =
      let (socket, os') = Socket.clone_socket L raw_socket os in (ok (out_raw_socket socket), os')

  -- `Write::write` and `Write::flush` of `OutputStream`.
  unfoldable pub write_stream : OutputStream → List ℕ → Call L.Os ℕ
  write_stream out_stdout buf os = N.stdout_write buf os
  write_stream (out_tcp stream) buf os = N.tcp_write stream buf os
  write_stream (out_unix stream) buf os = N.unix_write stream buf os
  write_stream (out_raw_socket raw_socket) buf os = Socket.write L raw_socket buf os

  unfoldable pub flush_stream : OutputStream → Call L.Os (Unit {0})
  flush_stream out_stdout os = N.stdout_flush os
  flush_stream (out_tcp stream) os = N.tcp_flush stream os
  flush_stream (out_unix stream) os = N.unix_flush stream os
  flush_stream (out_raw_socket raw_socket) os = (ok tt, os)

  -- `Read::read` of `InputStream`, for a buffer of the given length.
  unfoldable pub read_stream : InputStream → ℕ → Call L.Os (List ℕ)
  read_stream in_stdin room os = N.stdin_read room os
  read_stream (in_tcp stream) room os = N.tcp_read stream room os
  read_stream (in_unix stream) room os = N.unix_read stream room os
  read_stream (in_raw_socket raw_socket) room os = Socket.read L raw_socket room os

  -- A socket file that is left from an earlier run is removed; that there is none is no error.
  unfoldable pub bind_unix : List ℕ → Call L.Os N.UnixListener
  bind_unix path os =
      let (removed, os') = N.remove_file path os in
      let bound = N.unix_bind path os' in
      elim removed [
        | ok _ ↦ bound
        | err not_found ↦ bound
        | err kind ↦ (err kind, os')
        | panic ↦ (panic, os')
        | out_of_fuel ↦ (out_of_fuel, os')
      ]

  -- `Listener::from_uri`
  unfoldable pub listener_from_uri : List ℕ → Call L.Os Listener
  unfolding bind_unix
  listener_from_uri uri os =
      let other_uri : Outcome ErrorKind Listener × L.Os = elim (strip_prefix tcp_uri_prefix uri) [
        | some addr ↦ wrap_call on_tcp (N.tcp_bind addr os)
        | none ↦ elim (strip_prefix unix_socket_uri_prefix uri) [
          | some path ↦ wrap_call on_unix (bind_unix path os)
          | none ↦ elim (strip_prefix af_packet_socket_uri_prefix uri) [
            | some interface_name ↦ (ok (on_raw_socket interface_name), os)
            | none ↦ (err invalid_input, os)
          ]
        ]
      ] in
      if same uri stdin then (ok (on_stdin false), os) else other_uri

  -- `Incoming::next`; the second result is the listener as it is left.
  unfoldable pub next_stream :
      Listener → L.Os → (Option (Outcome ErrorKind InputStream) × Listener) × L.Os
  next_stream (on_stdin true) os = ((none, on_stdin true), os)
  next_stream (on_stdin false) os = ((some (ok in_stdin), on_stdin true), os)
  next_stream (on_tcp listener) os =
      let (accepted, os') = N.tcp_accept listener os in
      ((some (wrap in_tcp accepted), on_tcp listener), os')
  next_stream (on_unix listener) os =
      let (accepted, os') = N.unix_accept listener os in
      ((some (wrap in_unix accepted), on_unix listener), os')
  next_stream (on_raw_socket interface_name) os =
      let (created, os') = Socket.new L interface_name os in
      elim created [
        | ok socket ↦
            (let (bound, os'') = Socket.bind L socket os' in
              ((some (wrap in_raw_socket bound), on_raw_socket interface_name), os''))
        | err kind ↦ ((some (err kind), on_raw_socket interface_name), os')
        | panic ↦ ((some panic, on_raw_socket interface_name), os')
        | out_of_fuel ↦ ((some out_of_fuel, on_raw_socket interface_name), os')
      ]

-- `get_random_vec`. `opened` is what `File::open` of `/dev/urandom` returns, with its reads.
unfoldable pub get_random_vec : ℕ → Outcome ErrorKind (List ReadEvent) → Outcome ErrorKind (List ℕ)
get_random_vec size opened = elim opened [
  | ok file ↦ (read_to_fill file size).0
  | err kind ↦ err kind
  | panic ↦ panic
  | out_of_fuel ↦ out_of_fuel
]

-- `get_random_u8`; the index panics if there is no byte.
unfoldable pub get_random_u8 : Outcome ErrorKind (List ReadEvent) → Outcome ErrorKind ℕ
unfolding get_random_vec
get_random_u8 opened = elim (get_random_vec 1 opened) [
  | ok [] ↦ panic
  | ok (byte ∷ data_rest) ↦ ok byte
  | err kind ↦ err kind
  | panic ↦ panic
  | out_of_fuel ↦ out_of_fuel
]
