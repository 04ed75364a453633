-- ===== src/CommandLine/Serving.antt =====
-- When the encoder and the decoder come to an end.
use garuda_codec.Base.{
  subst, ℕ, zero, suc, ◌≡◌, ◌≢◌, refl, sym, ap, ◌∙◌, inl, inr, arith, false, List, some, Outcome,
  ok, err, panic, out_of_fuel,
}
use garuda_codec.Base.{outcome_cases}
use garuda_codec.BlockEncoder.{compute_repair_packets_per_block}
use garuda_codec.CommandLine.{
  CodecArgs, EncoderArgs, MainError, Outside, World, encoder_round, decoder_round, for_each_stream,
  listen, run_encoder, run_decoder,
}
use garuda_codec.Io.{ErrorKind}
use garuda_codec.RaptorQ.{RaptorQ}
use garuda_codec.Socket as Socket
use garuda_codec.Socket.{Libc}
use garuda_codec.Streams.{
  Net, InputStream, OutputStream, Listener, bind_unix, listener_from_uri, output_from_uri,
  next_stream, on_stdin, on_tcp, on_unix, on_raw_socket, in_stdin, stdin, wrap,
}
use garuda_codec.Streams.Addresses.{
  Address, standard, tcp, unix, packet, uri_of, open_listener, listener_from_uri_lem,
}

module _ (R : RaptorQ) (L : Libc) (N : Net L) where
  -- A listener other than that of the standard input.
  abbrev IsServer : Listener L N → Type 0
  IsServer (on_stdin closed) = ⊥
  IsServer _ = Unit

  -- Such a listener has a next stream always, and stays.
  next_stream-IsServer :
      (listener : Listener L N) (os : L.Os)
      → IsServer listener
      → (item : Outcome ErrorKind (InputStream L N)) × ((next_stream L N listener os).0.0
          ≡ some item)
        × IsServer (next_stream L N listener os).0.1
  unfolding next_stream
  next_stream-IsServer (on_stdin closed) os h = absurd h
  next_stream-IsServer (on_tcp listener) os h = (_, refl, tt)
  next_stream-IsServer (on_unix listener) os h = (_, refl, tt)
  next_stream-IsServer (on_raw_socket name) os h = elim (outcome_cases (Socket.new L name os).0) [
    | inl (socket, e) ↦ rw (next_stream, e) (_, refl, tt)
    | inr (inl (kind, e)) ↦ rw (next_stream, e) (_, refl, tt)
    | inr (inr (inl e)) ↦ rw (next_stream, e) (_, refl, tt)
    | inr (inr (inr e)) ↦ rw (next_stream, e) (_, refl, tt)
  ]

  listener_injective :
      {x y : Listener L N} → ◌≡◌ {A = Outcome ErrorKind (Listener L N)} (ok x) (ok y) → x ≡ y
  listener_injective e = cc

  abbrev Failed : Outcome (MainError R L N) (Unit {0}) → Type 0
  Failed (ok _) = ⊥
  Failed _ = Unit

  kept_result :
      (r : Outcome (MainError R L N) (Unit {0}) × World R L N)
      → ◌≡◌ {A = Outcome (MainError R L N) (Unit {0}) × World R L N}
          (elim r.0 [ ok _ ↦ (ok tt, r.1) | other ↦ (other, r.1) ])
          r
  kept_result (ok a, world) = refl
  kept_result (err e, world) = refl
  kept_result (panic, world) = refl
  kept_result (out_of_fuel, world) = refl

  module _
      (body : Outcome ErrorKind (InputStream L N)
        → World R L N
        → Outcome (MainError R L N) (Unit {0}) × World R L N) where
    for_each_stream-Failed :
        (fuel : ℕ) (listener : Listener L N) (world : World R L N)
        → IsServer listener
        → Failed (for_each_stream R L N body fuel listener world).0
    unfolding for_each_stream
    for_each_stream-Failed zero listener world h = tt
    for_each_stream-Failed (suc fuel) listener world h =
        let (item, e, server) = next_stream-IsServer listener world.1 h in
        let next = next_stream L N listener world.1 in
        let rest = for_each_stream-Failed fuel next.0.1 (body item (world.0, next.1)).1 server in
        rw (for_each_stream, e) (ground (arith, rest))

    for_each_stream-stdin :
        (fuel : ℕ) (world : World R L N)
        → for_each_stream R L N body (suc (suc fuel)) (on_stdin false) world
          ≡ body (ok in_stdin) world
    unfolding for_each_stream next_stream
    for_each_stream-stdin fuel world = kept_result (body (ok in_stdin) world)

  listener_from_uri-stdin :
      (uri : List ℕ) (os : L.Os)
      → uri ≡ stdin
      → listener_from_uri L N uri os ≡ (ok (on_stdin false), os)
  unfolding listener_from_uri
  listener_from_uri-stdin uri os e = rw e refl

  wrap-IsServer :
      {A : Type 0} (f : A → Listener L N)
      → ((a : A) → IsServer (f a))
      → (r : Outcome ErrorKind A) (listener : Listener L N) → wrap f r ≡ ok listener
      → IsServer listener
  wrap-IsServer f server (ok a) listener e = subst IsServer (listener_injective e) (server a)
  wrap-IsServer f server (err kind) listener e = cc
  wrap-IsServer f server panic listener e = cc
  wrap-IsServer f server out_of_fuel listener e = cc

  open_listener-IsServer :
      (address : Address) (os : L.Os) (listener : Listener L N)
      → address ≢ standard
      → (open_listener L N address os).0 ≡ ok listener
      → IsServer listener
  open_listener-IsServer standard os listener h e = absurd (h refl)
  open_listener-IsServer (tcp addr) os listener h e =
      wrap-IsServer on_tcp (λ a. tt) (N.tcp_bind addr os).0 listener e
  open_listener-IsServer (unix path) os listener h e =
      wrap-IsServer on_unix (λ a. tt) (bind_unix L N path os).0 listener e
  open_listener-IsServer (packet name) os listener h e = subst IsServer (listener_injective e) tt

  listener_from_uri-IsServer :
      (uri : List ℕ) (os : L.Os) (listener : Listener L N)
      → uri ≢ stdin
      → (listener_from_uri L N uri os).0 ≡ ok listener
      → IsServer listener
  listener_from_uri-IsServer uri os listener h e = elim (listener_from_uri_lem L N uri os) [
    | inl (address, named, opened) ↦
        open_listener-IsServer address os listener (λ f. h (named ∙ ap uri_of f))
          (sym (ap (λ r. r.0) opened) ∙ e)
    | inr (unnamed, failed) ↦ cc (ap (λ r. r.0) failed, e)
  ]

  module _
      (body : OutputStream L N
        → Outcome ErrorKind (InputStream L N)
        → World R L N
        → Outcome (MainError R L N) (Unit {0}) × World R L N)
      (fuel : ℕ) (args : CodecArgs) (world : World R L N) where
    listen-Failed : args.input ≢ stdin → Failed (listen R L N body fuel args world).0
    unfolding listen
    listen-Failed h =
        let (listener, os') = listener_from_uri L N args.input world.1 in
        let (output, os'') = output_from_uri L N args.output os' in
        elim (outcome_cases listener) [
          | inl (listener', e) ↦ elim (outcome_cases output) [
            | inl (output_stream, f) ↦
                rw (listen, e, f)
                  (for_each_stream-Failed (body output_stream) fuel listener' (world.0, os'')
                    (listener_from_uri-IsServer args.input world.1 listener' h e))
            | inr other_end ↦ ground (arith, e, other_end)
          ]
          | inr other_end ↦ ground (arith, other_end)
        ]

    -- On the standard input there is one round.
    listen_once :
        (output_stream : OutputStream L N) (os' : L.Os)
        → args.input ≡ stdin
        → output_from_uri L N args.output world.1 ≡ (ok output_stream, os')
        → listen R L N body (suc (suc fuel)) args world
          ≡ body output_stream (ok in_stdin) (world.0, os')
    unfolding listen
    listen_once output_stream os' e f =
        let opened = listener_from_uri-stdin args.input world.1 e in
        let output = ap (output_from_uri L N args.output) (ap (λ r. r.1) opened) ∙ f in
        rw (listen, ap (λ r. r.0) opened, ap (λ r. r.0) output, ap (λ r. r.1) output)
          (for_each_stream-stdin (body output_stream) fuel (world.0, os'))

  run_encoder-Failed :
      (W : Outside R L N) (fuel : ℕ) (args : EncoderArgs) (world : World R L N)
      → args.codec_args.input ≢ stdin
      → Failed (run_encoder R L N W fuel args world).0
  unfolding run_encoder
  run_encoder-Failed W fuel args world h =
      let a = args.codec_args in
      elim (outcome_cases
        (compute_repair_packets_per_block R a.block_size a.max_packet_size args.redundancy)) [
          | inl (repair_packets_per_block, e) ↦
              rw (run_encoder, e)
                (listen-Failed (encoder_round R L N W a repair_packets_per_block) fuel a world h)
          | inr other_end ↦ ground (arith, other_end)
        ]

  run_decoder-Failed :
      (W : Outside R L N) (fuel : ℕ) (args : CodecArgs) (world : World R L N)
      → args.input ≢ stdin
      → Failed (run_decoder R L N W fuel args world).0
  unfolding run_decoder
  run_decoder-Failed W fuel args world h =
      listen-Failed (decoder_round R L N W args) fuel args world h

  -- Unless the address of the input is `-`, neither the encoder nor the decoder ends in success,
  -- however many streams are looked at: they go on to the next stream, or end with an error or in
  -- a panic.
  pub serves_forever :
      (W : Outside R L N) (fuel : ℕ) (args : EncoderArgs) (world : World R L N)
      → args.codec_args.input ≢ stdin
      → ((run_encoder R L N W fuel args world).0 ≢ ok tt)
        × ((run_decoder R L N W fuel args.codec_args world).0 ≢ ok tt)
  serves_forever W fuel args world h = (
    λ e. subst Failed e (run_encoder-Failed W fuel args world h),
    λ e. subst Failed e (run_decoder-Failed W fuel args.codec_args world h),
  )

  -- With `-` as the address of the input, an output stream that opens and a computable number of
  -- repair packets, the encoder and the decoder each run one round, on the standard input, and end
  -- in what the round ends in.
  pub serves_stdin_once :
      (W : Outside R L N) (fuel : ℕ) (args : EncoderArgs) (world : World R L N) (repair : ℕ)
      (output_stream : OutputStream L N) (os' : L.Os)
      → args.codec_args.input ≡ stdin
      → output_from_uri L N args.codec_args.output world.1 ≡ (ok output_stream, os')
      → compute_repair_packets_per_block R args.codec_args.block_size
          args.codec_args.max_packet_size args.redundancy
        ≡ ok repair
      → (run_encoder R L N W (suc (suc fuel)) args world
          ≡ encoder_round R L N W args.codec_args repair output_stream (ok in_stdin) (world.0, os'))
        × (run_decoder R L N W (suc (suc fuel)) args.codec_args world
            ≡ decoder_round R L N W args.codec_args output_stream (ok in_stdin) (world.0, os'))
  unfolding run_encoder run_decoder
  serves_stdin_once W fuel args world repair output_stream os' e f g =
      let a = args.codec_args in
      (
        rw (run_encoder, g)
            (listen_once (encoder_round R L N W a repair) fuel a world output_stream os' e f),
        listen_once (decoder_round R L N W a) fuel a world output_stream os' e f,
      )
