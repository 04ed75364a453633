-- ===== src/Decoder/Lifecycle.antt =====
-- Start, stop and wait of the decoder, one after the other.
use garuda_codec.Base.{
  ℕ, zero, suc, ◌+◌, ◌≡◌, refl, ◌≢◌, arith, Bool, true, false, [], ◌∷◌, ◌++◌, none, some, All,
  All-replicate, replicate, length, get_elem?, append-nil, length-append,
}
use garuda_codec.Base.{ok, err}
use garuda_codec.RaptorQ.{RaptorQ, IsLawful, payload_id_len}
use garuda_codec.BlockEncoder.Configuration.{symbol_len}
use garuda_codec.BlockEncoder.Encode.{IsUsable}
use garuda_codec.BlockDecoder.{BlockDecoder, BlockDecoderError, infer_packet_size}
use garuda_codec.BlockDecoder as BlockDecoding
use garuda_codec.BlockDecoder.PacketSize.{infer_packet_size_lem}
use garuda_codec.BlockDecoder.Recovery.{decoder_for, decoder_new}
use garuda_codec.PacketDispatcher.{PacketDispatcher}
use garuda_codec.PacketDispatcher as PacketDispatching
use garuda_codec.Decoder.{
  Decoder, DecoderError, Job, new, start_decoding, start_block_decoders, start_packet_dispatcher,
  stop, wait, forwarding, decoding, dispatching, block_decoder, invalid_state,
}
use garuda_codec.Threads.{
  Flags, raise_same, raise_other, replicate_snoc, get_elem?-allocate, join_all_ok,
}

module _ (R : RaptorQ) where
  start_block_decoders_ok :
      (n : ℕ) (self : Decoder R) (decoder : BlockDecoder R)
      → BlockDecoding.new R self.block_size self.max_packet_size ≡ ok decoder
      → start_block_decoders R n self ≡ (
        ok tt,
        record self { block_decoders = self.block_decoders ++ replicate n (decoding decoder) },
      )
  unfolding start_block_decoders
  start_block_decoders_ok zero self decoder e = rw append-nil
  start_block_decoders_ok (suc n) self decoder e =
      let more : Decoder R = record self {
        block_decoders = self.block_decoders ++ (decoding decoder ∷ []);
      } in
      ground (
        arith,
        start_block_decoders_ok n more decoder e,
        replicate_snoc n (decoding decoder) self.block_decoders,
      )

  -- The decoder after its start.
  abbrev pub running : Decoder R → BlockDecoder R → ℕ → ℕ → Decoder R
  running self decoder packet_size flag = record self {
    block_forwarder = some forwarding;
    block_decoders = self.block_decoders ++ replicate self.num_block_decoders (decoding decoder);
    packet_dispatcher_should_stop = flag;
    packet_dispatcher = some (dispatching (record { packet_size = packet_size }) flag);
  }

  start_with :
      (self : Decoder R) (decoder : BlockDecoder R) (packet_size : ℕ) (flags : Flags)
      → BlockDecoding.new R self.block_size self.max_packet_size ≡ ok decoder
      → infer_packet_size R self.block_size self.max_packet_size ≡ ok packet_size
      → start_decoding R self flags
        ≡ (ok tt, running self decoder packet_size (length flags), flags ++ (false ∷ []))
  unfolding start_decoding start_packet_dispatcher PacketDispatching.new
  start_with self decoder packet_size flags e f =
      let forwarded : Decoder R = record self { block_forwarder = some forwarding } in
      ground (arith, start_block_decoders_ok self.num_block_decoders forwarded decoder e)

  -- For sizes under which the laws of `raptorq` hold, `start_decoding` succeeds: it has started
  -- the forwarder, `num_block_decoders` fresh block decoders for these sizes, and a dispatcher
  -- that reads packets of the payload id's and one symbol's length and looks at a new flag, which
  -- the decoder holds.
  pub start_decoding_ok :
      (laws : IsLawful R) (self : Decoder R) (flags : Flags)
      → IsUsable R self.block_size self.max_packet_size
      → start_decoding R self flags ≡ (
        ok tt,
        running self
            (decoder_for R self.block_size self.max_packet_size)
            (payload_id_len + symbol_len R self.block_size self.max_packet_size)
            (length flags),
        flags ++ (false ∷ []),
      )
  start_decoding_ok laws self flags u =
      start_with self _ _ flags (decoder_new R self.block_size self.max_packet_size u.multiple)
        (infer_packet_size_lem R laws self.block_size self.max_packet_size u)

  -- After a start `stop` raises the flag that the packet dispatcher looks at, which was down, and
  -- no other; this holds whatever flags were raised before the start, so an earlier `stop` is lost.
  pub stop-start_decoding :
      (self : Decoder R) (decoder : BlockDecoder R) (packet_size : ℕ) (flags : Flags) (j : ℕ)
      → BlockDecoding.new R self.block_size self.max_packet_size ≡ ok decoder
      → infer_packet_size R self.block_size self.max_packet_size ≡ ok packet_size
      → j ≢ length flags
      → let started = start_decoding R self flags in
        (started.1.packet_dispatcher
          ≡ some (dispatching (record { packet_size = packet_size }) (length flags)))
        × (get_elem? started.2 (length flags) ≡ some false)
        × (get_elem? (stop R started.1 started.2) (length flags) ≡ some true)
        × (get_elem? (stop R started.1 started.2) j ≡ get_elem? started.2 j)
  unfolding stop
  stop-start_decoding self decoder packet_size flags j e f other =
      rw (start_with self decoder packet_size flags e f) (
        refl,
        get_elem?-allocate flags,
        raise_same _ (length flags) (omega (arith, length-append flags (false ∷ []))),
        raise_other _ (length flags) j (λ g. other (omega (arith, g))),
      )

  wait_ok :
      (self : Decoder R) (dispatcher forwarder : Job R) (ends : Job R → Bool)
      → self.packet_dispatcher ≡ some dispatcher
      → self.block_forwarder ≡ some forwarder
      → ends dispatcher ≡ true
      → All (λ j. ends j ≡ true) self.block_decoders
      → ends forwarder ≡ true
      → wait R ends self ≡ (
        ok tt,
        record self { packet_dispatcher = none; block_forwarder = none; block_decoders = [] },
      )
  unfolding wait
  wait_ok self dispatcher forwarder ends d f g h k =
      ground (arith, join_all_ok ends {E = DecoderError} self.block_decoders h)

  -- If every thread of a fresh decoder returns, `wait` after the start returns `Ok` and keeps no
  -- handle; another `wait` is refused, and changes nothing.
  pub wait-start_decoding :
      (b m n packet_size : ℕ) (decoder : BlockDecoder R) (flags : Flags) (ends : Job R → Bool)
      → BlockDecoding.new R b m ≡ ok decoder
      → infer_packet_size R b m ≡ ok packet_size
      → ends forwarding ≡ true
      → ends (decoding decoder) ≡ true
      → ends (dispatching (record { packet_size = packet_size }) (length (flags ++ (false ∷ []))))
        ≡ true
      → let created = new R b n m flags in
        let started = start_decoding R created.0 created.1 in
        let waited = wait R ends started.1 in
        (waited.0 ≡ ok tt)
        × (waited.1.block_decoders ≡ [])
        × (waited.1.block_forwarder ≡ none)
        × (wait R ends waited.1
            ≡ (err (invalid_state "Packet dispatcher not initialized"), waited.1))
  unfolding wait new
  wait-start_decoding b m n packet_size decoder flags ends e e' f g h =
      let created = new R b n m flags in
      let jobs = All-replicate (λ j. ends j ≡ true) n (decoding decoder) g in
      rw
        (
          start_with created.0 decoder packet_size created.1 e e',
          wait_ok (running created.0 decoder packet_size (length created.1)) _ forwarding ends refl
              refl h jobs f,
        )
        (refl, refl, refl, refl)

  -- If the packet size cannot be inferred although `BlockDecoder::new` accepts the sizes,
  -- `start_decoding` returns the error after it has started the forwarder and all block decoders;
  -- `wait` is refused for want of a dispatcher and joins none of them.
  pub wait-unsized_start :
      (self : Decoder R) (decoder : BlockDecoder R) (error : BlockDecoderError) (flags : Flags)
      (ends : Job R → Bool)
      → self.packet_dispatcher ≡ none
      → BlockDecoding.new R self.block_size self.max_packet_size ≡ ok decoder
      → infer_packet_size R self.block_size self.max_packet_size ≡ err error
      → let started = start_decoding R self flags in
        (started.0 ≡ err (block_decoder error))
        × (started.2 ≡ flags)
        × (wait R ends started.1 ≡ (
          err (invalid_state "Packet dispatcher not initialized"),
          record self {
            block_forwarder = some forwarding;
            block_decoders =
                self.block_decoders ++ replicate self.num_block_decoders (decoding decoder);
          },
        ))
  unfolding start_decoding start_packet_dispatcher wait
  wait-unsized_start self decoder error flags ends idle e f =
      let forwarded : Decoder R = record self { block_forwarder = some forwarding } in
      ground (arith, start_block_decoders_ok self.num_block_decoders forwarded decoder e)
