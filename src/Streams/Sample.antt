-- ===== src/Streams/Sample.antt =====
-- Streams on the listed descriptors: whatever is opened opens, and nothing comes in.
use garuda_codec.Base.{ℕ, List, [], length, ok, err}
use garuda_codec.Io.{not_found}
use garuda_codec.Socket.Sample.{listed}
use garuda_codec.Streams.{Net}

abbrev pub quiet_net : Net listed
quiet_net = record {
  TcpStream = List ℕ;
  UnixStream = List ℕ;
  TcpListener = List ℕ;
  UnixListener = List ℕ;
  tcp_connect = λ addr os. (ok addr, os);
  unix_connect = λ path os. (ok path, os);
  tcp_bind = λ addr os. (ok addr, os);
  unix_bind = λ path os. (ok path, os);
  remove_file = λ path os. (err not_found, os);
  tcp_accept = λ listener os. (ok listener, os);
  unix_accept = λ listener os. (ok listener, os);
  tcp_try_clone = λ stream os. (ok stream, os);
  unix_try_clone = λ stream os. (ok stream, os);
  stdout_write = λ buf os. (ok (length buf), os);
  tcp_write = λ stream buf os. (ok (length buf), os);
  unix_write = λ stream buf os. (ok (length buf), os);
  stdout_flush = λ os. (ok tt, os);
  tcp_flush = λ stream os. (ok tt, os);
  unix_flush = λ stream os. (ok tt, os);
  stdin_read = λ room os. (ok [], os);
  tcp_read = λ stream room os. (ok [], os);
  unix_read = λ stream room os. (ok [], os);
}
