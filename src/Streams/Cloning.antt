-- ===== src/Streams/Cloning.antt =====
-- `try_clone` of a packet socket when `dup` fails.
use garuda_codec.Base.{ℕ, ◌≡◌, refl, List, none, ok, err}
use garuda_codec.Io.{ErrorKind}
use garuda_codec.Socket as Socket
use garuda_codec.Socket.{Libc, RawSocket, SockaddrLl, clone_socket}
use garuda_codec.Streams.{Net, OutputStream, out_raw_socket, try_clone, write_stream}

module _ (L : Libc) (N : Net L) where
  write_unsent :
      (socket : RawSocket) (buf : List ℕ) (os : L.Os)
      → (L.sendto socket.socket_fd buf socket.sockaddr os).0 ≡ none
      → (kind : ErrorKind) × ((Socket.write L socket buf os).0 ≡ err kind)
  unfolding Socket.write
  write_unsent socket buf os e = (
    L.last_os_error (L.sendto socket.socket_fd buf socket.sockaddr os).1,
    rw (Socket.write, e) refl,
  )

  -- If `dup` fails, `try_clone` of a packet socket returns a stream, not an error; and if nothing
  -- can be sent on the descriptor -1, every write to that stream is an error.
  pub broken_clone :
      (socket : RawSocket) (os : L.Os)
      → (L.dup socket.socket_fd os).0 ≡ none
      → ((buf : List ℕ) (address : SockaddrLl) (now : L.Os)
          → (L.sendto none buf address now).0 ≡ none)
      → (stream : OutputStream L N) × ((try_clone L N (out_raw_socket socket) os).0 ≡ ok stream)
        × ((buf : List ℕ) (now : L.Os)
            → (kind : ErrorKind) × ((write_stream L N stream buf now).0 ≡ err kind))
  unfolding try_clone clone_socket write_stream
  broken_clone socket os e unsent = (
    out_raw_socket (record { socket_fd = none; sockaddr = socket.sockaddr }),
    rw e refl,
    λ buf now.
        write_unsent (record { socket_fd = none; sockaddr = socket.sockaddr }) buf now
          (unsent buf socket.sockaddr now),
  )
