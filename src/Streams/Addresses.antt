-- ===== src/Streams/Addresses.antt =====
-- The addresses that `from_uri` takes, and what it opens for each.
use garuda_codec.Base.{
  ℕ, false, Bool-cases, ==_iff, ◌≡◌, ◌≢◌, refl, ap, inl, inr, ◌⊎◌, arith, List, [], ◌∷◌, ◌++◌,
  Option-cases, none, some, ok, err,
}
use garuda_codec.Files.{same, same_iff}
use garuda_codec.Io.{invalid_input}
use garuda_codec.Socket as Socket
use garuda_codec.Socket.{Libc}
use garuda_codec.Streams.{
  Net, Call, OutputStream, Listener, strip_prefix, wrap_call, output_from_uri, listener_from_uri,
  bind_unix, stdin, stdout, tcp_uri_prefix, unix_socket_uri_prefix, af_packet_socket_uri_prefix,
  out_stdout, out_tcp, out_unix, out_raw_socket, on_stdin, on_tcp, on_unix, on_raw_socket,
}

-- `-`, `tcp://<host>:<port>`, `unix://<path>` and `af_packet://<interface>`
pub data Address : Type 0 where
  standard : Address
  tcp unix packet : List ℕ → Address

abbrev pub uri_of : Address → List ℕ
uri_of standard = 45 ∷ []
uri_of (tcp addr) = tcp_uri_prefix ++ addr
uri_of (unix path) = unix_socket_uri_prefix ++ path
uri_of (packet interface_name) = af_packet_socket_uri_prefix ++ interface_name

-- A string that begins with a prefix is the prefix and what `strip_prefix` leaves.
strip_prefix-some :
    (prefix uri rest : List ℕ) → strip_prefix prefix uri ≡ some rest → uri ≡ prefix ++ rest
strip_prefix-some [] uri rest e = cc
strip_prefix-some (c ∷ cs) [] rest e = cc
strip_prefix-some (c ∷ cs) (d ∷ uri) rest e = ground (arith, strip_prefix-some cs uri rest)

strip_prefix-append : (prefix rest : List ℕ) → strip_prefix prefix (prefix ++ rest) ≡ some rest
strip_prefix-append [] rest = refl
strip_prefix-append (c ∷ cs) rest = rw ((==_iff c c).1 refl) (strip_prefix-append cs rest)

strip_prefix-none :
    (prefix uri rest : List ℕ) → strip_prefix prefix uri ≡ none → uri ≢ prefix ++ rest
strip_prefix-none prefix uri rest e f =
    cc (ap (strip_prefix prefix) f, strip_prefix-append prefix rest, e)

-- A string that is none of the addresses.
no_address :
    (uri : List ℕ)
    → same uri (45 ∷ []) ≡ false
    → strip_prefix tcp_uri_prefix uri ≡ none
    → strip_prefix unix_socket_uri_prefix uri ≡ none
    → strip_prefix af_packet_socket_uri_prefix uri ≡ none
    → (address : Address) → uri ≢ uri_of address
no_address uri s t u p standard e = cc ((same_iff uri (45 ∷ [])).1 e, s)
no_address uri s t u p (tcp addr) e = strip_prefix-none tcp_uri_prefix uri addr t e
no_address uri s t u p (unix path) e = strip_prefix-none unix_socket_uri_prefix uri path u e
no_address uri s t u p (packet name) e = strip_prefix-none af_packet_socket_uri_prefix uri name p e

module _ (L : Libc) (N : Net L) where
  -- What is opened for output.
  abbrev pub open_output : Address → Call L.Os (OutputStream L N)
  open_output standard os = (ok out_stdout, os)
  open_output (tcp addr) os = wrap_call out_tcp (N.tcp_connect addr os)
  open_output (unix path) os = wrap_call out_unix (N.unix_connect path os)
  open_output (packet interface_name) os = wrap_call out_raw_socket (Socket.new L interface_name os)

  -- What is opened for input.
  abbrev pub open_listener : Address → Call L.Os (Listener L N)
  open_listener standard os = (ok (on_stdin false), os)
  open_listener (tcp addr) os = wrap_call on_tcp (N.tcp_bind addr os)
  open_listener (unix path) os = wrap_call on_unix (bind_unix L N path os)
  open_listener (packet interface_name) os = (ok (on_raw_socket interface_name), os)

  -- A string is the address of an `Address`, and what it names is opened; or it is none, and the
  -- result is an error of invalid input, with nothing touched.
  pub output_from_uri_lem :
      (uri : List ℕ) (os : L.Os)
      → ((address : Address) × (uri ≡ uri_of address)
          × (output_from_uri L N uri os ≡ open_output address os))
        ⊎ (((address : Address) → uri ≢ uri_of address)
            × (output_from_uri L N uri os ≡ (err invalid_input, os)))
  unfolding output_from_uri
  output_from_uri_lem uri os = elim (Bool-cases (same uri stdout)) [
    | inl s ↦ inl (standard, (same_iff uri stdout).0 s, rw (output_from_uri, s) refl)
    | inr s ↦ elim (Option-cases (strip_prefix tcp_uri_prefix uri)) [
      | inr (addr, t) ↦
          inl
            (tcp addr, strip_prefix-some tcp_uri_prefix uri addr t, rw (output_from_uri, s, t) refl)
      | inl t ↦ elim (Option-cases (strip_prefix unix_socket_uri_prefix uri)) [
        | inr (path, u) ↦ inl (
          unix path,
          strip_prefix-some unix_socket_uri_prefix uri path u,
          rw (output_from_uri, s, t, u) refl,
        )
        | inl u ↦ elim (Option-cases (strip_prefix af_packet_socket_uri_prefix uri)) [
          | inr (name, p) ↦ inl (
            packet name,
            strip_prefix-some af_packet_socket_uri_prefix uri name p,
            rw (output_from_uri, s, t, u, p) refl,
          )
          | inl p ↦ inr (no_address uri s t u p, rw (output_from_uri, s, t, u, p) refl)
        ]
      ]
    ]
  ]

  -- The same for input: a string is the address of an `Address`, for which a listener is made, or
  -- it is none, and the result is an error of invalid input, with nothing touched.
  pub listener_from_uri_lem :
      (uri : List ℕ) (os : L.Os)
      → ((address : Address) × (uri ≡ uri_of address)
          × (listener_from_uri L N uri os ≡ open_listener address os))
        ⊎ (((address : Address) → uri ≢ uri_of address)
            × (listener_from_uri L N uri os ≡ (err invalid_input, os)))
  unfolding listener_from_uri
  listener_from_uri_lem uri os = elim (Bool-cases (same uri stdin)) [
    | inl s ↦ inl (standard, (same_iff uri stdin).0 s, rw (listener_from_uri, s) refl)
    | inr s ↦ elim (Option-cases (strip_prefix tcp_uri_prefix uri)) [
      | inr (addr, t) ↦
          inl (
            tcp addr,
            strip_prefix-some tcp_uri_prefix uri addr t,
            rw (listener_from_uri, s, t) refl,
          )
      | inl t ↦ elim (Option-cases (strip_prefix unix_socket_uri_prefix uri)) [
        | inr (path, u) ↦ inl (
          unix path,
          strip_prefix-some unix_socket_uri_prefix uri path u,
          rw (listener_from_uri, s, t, u) refl,
        )
        | inl u ↦ elim (Option-cases (strip_prefix af_packet_socket_uri_prefix uri)) [
          | inr (name, p) ↦ inl (
            packet name,
            strip_prefix-some af_packet_socket_uri_prefix uri name p,
            rw (listener_from_uri, s, t, u, p) refl,
          )
          | inl p ↦ inr (no_address uri s t u p, rw (listener_from_uri, s, t, u, p) refl)
        ]
      ]
    ]
  ]
