-- ===== src/Encoder/Lifecycle.antt =====
-- Start, stop and wait of the encoder, one after the other.
use garuda_codec.Base.{
  ℕ, zero, suc, ◌<◌, ◌≡◌, refl, ◌≢◌, arith, Bool, true, false, [], ◌∷◌, ◌++◌, none, some, All,
  All-replicate, replicate, length, get_elem?, append-nil, length-append,
}
use garuda_codec.Base.{Outcome, ok, err}
use garuda_codec.RaptorQ.{RaptorQ}
use garuda_codec.BlockEncoder.{BlockEncoder, BlockEncoderError}
use garuda_codec.BlockEncoder as BlockEncoding
use garuda_codec.BlockDispatcher.{BlockDispatcher}
use garuda_codec.BlockDispatcher as BlockDispatching
use garuda_codec.Encoder.{
  Encoder, EncoderError, Job, new, start_encoding, start_block_encoders, start_block_dispatcher,
  stop, wait, forwarding, encoding, dispatching, block_encoder, invalid_state,
}
use garuda_codec.Io.{ErrorKind}
use garuda_codec.Threads.{
  Flags, raise_same, raise_other, replicate_snoc, get_elem?-allocate, join_all_ok,
}

module _ (R : RaptorQ) where
  start_block_encoders_ok :
      (n : ℕ) (self : Encoder R) (encoder : BlockEncoder R)
      → BlockEncoding.new R self.block_size self.max_packet_size self.repair_packets_per_block
        ≡ ok encoder
      → start_block_encoders R n self ≡ (
        ok tt,
        record self { block_encoders = self.block_encoders ++ replicate n (encoding encoder) },
      )
  unfolding start_block_encoders
  start_block_encoders_ok zero self encoder e = rw append-nil
  start_block_encoders_ok (suc n) self encoder e =
      let more : Encoder R = record self {
        block_encoders = self.block_encoders ++ (encoding encoder ∷ []);
      } in
      ground (
        arith,
        start_block_encoders_ok n more encoder e,
        replicate_snoc n (encoding encoder) self.block_encoders,
      )

  -- The dispatcher that a start with the random number `id` makes.
  abbrev pub dispatcher_at : Encoder R → ℕ → BlockDispatcher
  dispatcher_at self id = record { block_size = self.block_size; current_block_id = id }

  -- The encoder after its start.
  abbrev pub running : Encoder R → BlockEncoder R → ℕ → ℕ → Encoder R
  running self encoder id flag = record self {
    packet_forwarder = some forwarding;
    block_encoders = self.block_encoders ++ replicate self.num_block_encoders (encoding encoder);
    block_dispatcher_should_stop = flag;
    block_dispatcher = some (dispatching (dispatcher_at self id) flag);
  }

  -- If `BlockEncoder::new` accepts the sizes, `start_encoding` succeeds: it has started the
  -- forwarder, `num_block_encoders` block encoders for these sizes, and a dispatcher that numbers
  -- from the random number on and looks at a new flag, which is down and which the encoder holds.
  pub start_encoding_ok :
      (self : Encoder R) (encoder : BlockEncoder R) (id : ℕ) (flags : Flags)
      → BlockEncoding.new R self.block_size self.max_packet_size self.repair_packets_per_block
        ≡ ok encoder
      → start_encoding R (ok id) self flags
        ≡ (ok tt, running self encoder id (length flags), flags ++ (false ∷ []))
  unfolding start_encoding start_block_dispatcher BlockDispatching.new
  start_encoding_ok self encoder id flags e =
      let forwarded : Encoder R = record self { packet_forwarder = some forwarding } in
      ground (arith, start_block_encoders_ok self.num_block_encoders forwarded encoder e)

  -- After a start `stop` raises the flag that the dispatcher looks at, which was down, and no
  -- other; this holds whatever flags were raised before the start, so an earlier `stop` is lost.
  pub stop-start_encoding :
      (self : Encoder R) (encoder : BlockEncoder R) (id : ℕ) (flags : Flags) (j : ℕ)
      → BlockEncoding.new R self.block_size self.max_packet_size self.repair_packets_per_block
        ≡ ok encoder
      → j ≢ length flags
      → let started = start_encoding R (ok id) self flags in
        (started.1.block_dispatcher ≡ some (dispatching (dispatcher_at self id) (length flags)))
        × (get_elem? started.2 (length flags) ≡ some false)
        × (get_elem? (stop R started.1 started.2) (length flags) ≡ some true)
        × (get_elem? (stop R started.1 started.2) j ≡ get_elem? started.2 j)
  unfolding stop
  stop-start_encoding self encoder id flags j e other =
      rw (start_encoding_ok self encoder id flags e) (
        refl,
        get_elem?-allocate flags,
        raise_same _ (length flags) (omega (arith, length-append flags (false ∷ []))),
        raise_other _ (length flags) j (λ f. other (omega (arith, f))),
      )

  wait_ok :
      (self : Encoder R) (dispatcher forwarder : Job R) (ends : Job R → Bool)
      → self.block_dispatcher ≡ some dispatcher
      → self.packet_forwarder ≡ some forwarder
      → ends dispatcher ≡ true
      → All (λ j. ends j ≡ true) self.block_encoders
      → ends forwarder ≡ true
      → wait R ends self ≡ (
        ok tt,
        record self { block_dispatcher = none; packet_forwarder = none; block_encoders = [] },
      )
  unfolding wait
  wait_ok self dispatcher forwarder ends d f g h k =
      ground (arith, join_all_ok ends {E = EncoderError R} self.block_encoders h)

  -- If every thread of a fresh encoder returns, `wait` after the start returns `Ok` and keeps no
  -- handle; another `wait` is refused, and changes nothing.
  pub wait-start_encoding :
      (b m r n id : ℕ) (encoder : BlockEncoder R) (flags : Flags) (ends : Job R → Bool)
      → BlockEncoding.new R b m r ≡ ok encoder
      → ends forwarding ≡ true
      → ends (encoding encoder) ≡ true
      → ends (
          dispatching
            (record { block_size = b; current_block_id = id })
            (length (flags ++ (false ∷ []))))
        ≡ true
      → let created = new R b m r n flags in
        let started = start_encoding R (ok id) created.0 created.1 in
        let waited = wait R ends started.1 in
        (waited.0 ≡ ok tt)
        × (waited.1.block_encoders ≡ [])
        × (waited.1.packet_forwarder ≡ none)
        × (wait R ends waited.1
            ≡ (err (invalid_state "Block dispatcher not initialized"), waited.1))
  unfolding wait new
  wait-start_encoding b m r n id encoder flags ends e f g h =
      let created = new R b m r n flags in
      let jobs = All-replicate (λ j. ends j ≡ true) n (encoding encoder) g in
      rw
        (
          start_encoding_ok created.0 encoder id created.1 e,
          wait_ok (running created.0 encoder id (length created.1)) _ forwarding ends refl refl h
              jobs f,
        )
        (refl, refl, refl, refl)

  start_block_encoders_err :
      (n : ℕ) (self : Encoder R) (error : BlockEncoderError R)
      → 0 < n
      → BlockEncoding.new R self.block_size self.max_packet_size self.repair_packets_per_block
        ≡ err error
      → start_block_encoders R n self ≡ (err (block_encoder error), self)
  unfolding start_block_encoders
  start_block_encoders_err zero self error h e = absurd (omega arith)
  start_block_encoders_err (suc n) self error h e = ground arith

  -- If `BlockEncoder::new` refuses the sizes, `start_encoding` of an encoder with a worker returns
  -- its error. The forwarder runs, but `wait` is refused for want of a dispatcher and does not
  -- join it.
  pub wait-refused_start :
      (self : Encoder R) (error : BlockEncoderError R) (random : Outcome ErrorKind ℕ)
      (flags : Flags) (ends : Job R → Bool)
      → 0 < self.num_block_encoders
      → self.block_dispatcher ≡ none
      → BlockEncoding.new R self.block_size self.max_packet_size self.repair_packets_per_block
        ≡ err error
      → let started = start_encoding R random self flags in
        (started.0 ≡ err (block_encoder error))
        × (started.2 ≡ flags)
        × (wait R ends started.1 ≡ (
          err (invalid_state "Block dispatcher not initialized"),
          record self { packet_forwarder = some forwarding },
        ))
  unfolding start_encoding wait
  wait-refused_start self error random flags ends some_worker idle e =
      let forwarded : Encoder R = record self { packet_forwarder = some forwarding } in
      ground (arith, start_block_encoders_err self.num_block_encoders forwarded error some_worker e)
