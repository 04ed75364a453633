-- ===== src/Socket/Descriptors.antt =====
-- Which descriptors are open around the life of a packet socket.
use garuda_codec.Base.{
  ℕ, ◌==◌, ◌≡◌, refl, sym, ap, ◌∙◌, ◌||◌, ◌&&◌, not, Bool, true, false, Bool-cases, inl, inr, ◌⊎◌,
  ==_iff, List, Option, Option-cases, none, some, Outcome, ok, err,
}
use garuda_codec.Io.{ErrorKind}
use garuda_codec.Socket.{
  Libc, RawSocket, new, drop_socket, set_receive_timeout, bind, has_nul, af_packet, sock_raw, to_be,
  eth_p_all,
}

-- What the calls do to the descriptors of the process, as their manual pages have it.
pub record IsLibc (L : Libc) : Type 0 where
  pub is_open : L.Os → ℕ → Bool
  pub socket_fresh :
      (family kind protocol : ℕ) (os : L.Os) (fd : ℕ)
      → (L.socket family kind protocol os).0 ≡ some fd
      → is_open os fd ≡ false
  pub socket_opens :
      (family kind protocol : ℕ) (os : L.Os) (fd x : ℕ)
      → (L.socket family kind protocol os).0 ≡ some fd
      → is_open (L.socket family kind protocol os).1 x ≡ (x == fd || is_open os x)
  pub if_nametoindex_keeps :
      (name : List ℕ) (os : L.Os) (x : ℕ) → is_open (L.if_nametoindex name os).1 x ≡ is_open os x
  pub bind_keeps :
      (fd : Option ℕ) (address : _) (os : L.Os) (x : ℕ)
      → is_open (L.bind fd address os).1 x ≡ is_open os x
  pub set_rcvtimeo_keeps :
      (fd : Option ℕ) (secs usecs : ℕ) (os : L.Os) (x : ℕ)
      → is_open (L.set_rcvtimeo fd secs usecs os).1 x ≡ is_open os x
  pub close_closes :
      (fd : ℕ) (os : L.Os) (x : ℕ)
      → is_open (L.close (some fd) os).1 x ≡ (not (x == fd) && is_open os x)

module _ (L : Libc) (laws : IsLibc L) where
  abbrev opened : L.Os → Option ℕ × L.Os
  opened os = L.socket af_packet sock_raw (to_be 4 eth_p_all) os

  abbrev index_of : List ℕ → L.Os → ℕ × L.Os
  index_of name os = L.if_nametoindex name (opened os).1

  -- The descriptor of the socket in the result, if there is one.
  abbrev fd_of : Outcome ErrorKind RawSocket → Option ℕ
  fd_of (ok socket) = socket.socket_fd
  fd_of _ = none

  new_fd :
      (name : List ℕ) (os : L.Os) (socket : RawSocket)
      → (new L name os).0 ≡ ok socket
      → (fd : ℕ) × ((opened os).0 ≡ some fd)
        × (socket.socket_fd ≡ some fd)
        × ((x : ℕ) → laws.is_open (new L name os).1 x ≡ laws.is_open (opened os).1 x)
  unfolding new
  new_fd name os socket e = elim (Option-cases (opened os).0) [
    | inl f ↦ cc (rw (new, f) at e)
    | inr (fd, f) ↦ elim (Bool-cases (has_nul name)) [
      | inl g ↦ cc (rw (new, f, g) at e)
      | inr g ↦ elim (Bool-cases ((index_of name os).0 == 0)) [
        | inl i ↦ cc (rw (new, f, g, i) at e)
        | inr i ↦ (
          fd,
          f,
          sym (ap fd_of (rw (new, f, g, i) at e)),
          λ x. rw (new, f, g, i) (laws.if_nametoindex_keeps name (opened os).1 x),
        )
      ]
    ]
  ]

  same_bit :
      (x fd : ℕ) (bit : Bool) → (x ≡ fd → bit ≡ false) → (not (x == fd) && (x == fd || bit)) ≡ bit
  same_bit x fd bit h = elim (Bool-cases (x == fd)) [
    | inl e ↦ rw (e, h ((==_iff x fd).0 e)) refl
    | inr e ↦ rw e refl
  ]

  -- Under the laws of libc, if `RawSocket::new` succeeds, the descriptor of the socket was not
  -- open before, it is open then, and no other descriptor has changed; when the socket is dropped
  -- the same descriptors are open as before.
  pub new_descriptor :
      (name : List ℕ) (os : L.Os) (socket : RawSocket)
      → (new L name os).0 ≡ ok socket
      → (fd : ℕ) × (socket.socket_fd ≡ some fd)
        × (laws.is_open os fd ≡ false)
        × ((x : ℕ) → laws.is_open (new L name os).1 x ≡ (x == fd || laws.is_open os x))
        × ((x : ℕ) → laws.is_open (drop_socket L socket (new L name os).1) x ≡ laws.is_open os x)
  unfolding drop_socket
  new_descriptor name os socket e =
      let (fd, f, same, keeps) = new_fd name os socket e in
      let open_then : (x : ℕ) → laws.is_open (new L name os).1 x ≡ (x == fd || laws.is_open os x) =
        λ x. keeps x ∙ laws.socket_opens af_packet sock_raw (to_be 4 eth_p_all) os fd x f in
      let fresh = laws.socket_fresh af_packet sock_raw (to_be 4 eth_p_all) os fd f in
      (
        fd,
        same,
        fresh,
        open_then,
        λ x. rw same (
            laws.close_closes fd (new L name os).1 x
            ∙ ap (λ (bit : Bool). not (x == fd) && bit) (open_then x)
            ∙ same_bit x fd (laws.is_open os x) (λ y. rw y fresh)),
      )

  -- Under the laws of libc, when the interface name holds a NUL or has no index, `RawSocket::new`
  -- returns an error, and the descriptor that it has opened, which was not open before, is open
  -- still.
  pub new_leaks :
      (name : List ℕ) (os : L.Os) (fd : ℕ)
      → (opened os).0 ≡ some fd
      → (has_nul name ≡ true) ⊎ ((index_of name os).0 ≡ 0)
      → ((kind : ErrorKind) × ((new L name os).0 ≡ err kind))
        × (laws.is_open os fd ≡ false)
        × (laws.is_open (new L name os).1 fd ≡ true)
  unfolding new
  new_leaks name os fd f h =
      let fresh = laws.socket_fresh af_packet sock_raw (to_be 4 eth_p_all) os fd f in
      let now : laws.is_open (opened os).1 fd ≡ true =
        laws.socket_opens af_packet sock_raw (to_be 4 eth_p_all) os fd fd f
        ∙ rw ((==_iff fd fd).1 refl) refl in
      elim (Bool-cases (has_nul name)) [
        | inl g ↦ rw (new, f, g) ((_, refl), fresh, now)
        | inr g ↦ elim h [
          | inl bad ↦ cc
          | inr zero_index ↦
              rw (new, f, g, zero_index)
                ((_, refl), fresh, laws.if_nametoindex_keeps name (opened os).1 fd ∙ now)
        ]
      ]

  drop_socket-closes :
      (socket : RawSocket) (fd : ℕ) (before os : L.Os)
      → socket.socket_fd ≡ some fd
      → ((x : ℕ) → laws.is_open os x ≡ laws.is_open before x)
      → (x : ℕ)
      → laws.is_open (drop_socket L socket os) x ≡ (not (x == fd) && laws.is_open before x)
  unfolding drop_socket
  drop_socket-closes socket fd before os e kept x =
      rw e (laws.close_closes fd os x ∙ ap (λ (bit : Bool). not (x == fd) && bit) (kept x))

  set_receive_timeout_ok :
      (socket : RawSocket) (os : L.Os)
      → (L.set_rcvtimeo socket.socket_fd 1 0 os).0 ≡ true
      → set_receive_timeout L socket 1 0 os ≡ (ok tt, (L.set_rcvtimeo socket.socket_fd 1 0 os).1)
  unfolding set_receive_timeout
  set_receive_timeout_ok socket os f = rw (set_receive_timeout, f) refl

  set_receive_timeout_err :
      (socket : RawSocket) (os : L.Os)
      → (L.set_rcvtimeo socket.socket_fd 1 0 os).0 ≡ false
      → set_receive_timeout L socket 1 0 os ≡ (
        err (L.last_os_error (L.set_rcvtimeo socket.socket_fd 1 0 os).1),
        (L.set_rcvtimeo socket.socket_fd 1 0 os).1,
      )
  unfolding set_receive_timeout
  set_receive_timeout_err socket os f = rw (set_receive_timeout, f) refl

  -- Under the laws of libc, `bind` of a socket with a descriptor returns a reader that owns the
  -- socket, with the same descriptors open as before, or an error, with the descriptor of the
  -- socket closed and no other changed.
  pub bind_descriptor :
      (socket : RawSocket) (fd : ℕ) (os : L.Os)
      → socket.socket_fd ≡ some fd
      → (((bind L socket os).0 ≡ ok (record { socket = socket }))
          × ((x : ℕ) → laws.is_open (bind L socket os).1 x ≡ laws.is_open os x))
        ⊎ ((kind : ErrorKind) × ((bind L socket os).0 ≡ err kind)
            × ((x : ℕ)
                → laws.is_open (bind L socket os).1 x ≡ (not (x == fd) && laws.is_open os x)))
  unfolding bind
  bind_descriptor socket fd os e =
      let set = L.set_rcvtimeo socket.socket_fd 1 0 os in
      let bound = L.bind socket.socket_fd socket.sockaddr set.1 in
      let kept : (x : ℕ) → laws.is_open set.1 x ≡ laws.is_open os x =
        laws.set_rcvtimeo_keeps socket.socket_fd 1 0 os in
      let kept' : (x : ℕ) → laws.is_open bound.1 x ≡ laws.is_open os x =
        λ x. laws.bind_keeps socket.socket_fd socket.sockaddr set.1 x ∙ kept x in
      elim (Bool-cases set.0) [
        | inr f ↦
            (let set_err = set_receive_timeout_err socket os f in
              rw (bind, ap (λ r. r.0) set_err, ap (λ r. r.1) set_err)
                (inr (_, refl, drop_socket-closes socket fd os set.1 e kept)))
        | inl f ↦
            (let set_ok = set_receive_timeout_ok socket os f in
              elim (Bool-cases bound.0) [
                | inl g ↦
                    rw (bind, ap (λ r. r.0) set_ok, ap (λ r. r.1) set_ok, g) (inl (refl, kept'))
                | inr g ↦
                    rw (bind, ap (λ r. r.0) set_ok, ap (λ r. r.1) set_ok, g)
                      (inr (_, refl, drop_socket-closes socket fd os bound.1 e kept'))
              ])
      ]
