-- ===== src/BlockDecoder/Runs.antt =====
-- The decoder on a stream in which the packets of a block come together.
use garuda_codec.Base.{ℕ, ==_iff, true, false, Option, none, some, List, [], ◌∷◌, ◌++◌}
use garuda_codec.Base.{
  ◌≡◌, refl, ◌≢◌, ◌∙◌, append_assoc, arith, All, Option-cases, inl, inr, map_err,
}
use garuda_codec.Channel.{Sender, send, send_all}
use garuda_codec.RaptorQ.{RaptorQ, first_decoded}
use garuda_codec.BlockDecoder.{BlockDecoder, decode, try_decode, decode_stream}
use garuda_codec.BlockDecoder.{from_send_error}

abbrev pub to_list {ℓ} : {A : Type ℓ} → Option A → List A
to_list none = []
to_list (some a) = a ∷ []

module _ (R : RaptorQ) where
  -- What `decode` returns for the packets, one by one, and the state after them.
  abbrev pub decoded_blocks : BlockDecoder R → List R.Packet → List (List ℕ)
  decoded_blocks self [] = []
  decoded_blocks self (p ∷ ps) =
      to_list (decode R self p).1 ++ decoded_blocks (decode R self p).0 ps

  abbrev pub state_after : BlockDecoder R → List R.Packet → BlockDecoder R
  state_after self [] = self
  state_after self (p ∷ ps) = state_after (decode R self p).0 ps

  -- `decode_stream` sends exactly what `decode` returns, in order, from any state of the decoder
  -- and of the queue; it fails if and only if a send fails, with that error.
  pub decode_stream-decoded_blocks :
      (self : BlockDecoder R) (ps : List R.Packet) (output : Sender (List ℕ))
      → decode_stream R self ps output ≡ (
        map_err from_send_error (send_all (decoded_blocks self ps) output).0,
        (send_all (decoded_blocks self ps) output).1,
      )
  unfolding decode_stream send_all
  decode_stream-decoded_blocks self [] output = refl
  decode_stream-decoded_blocks self (p ∷ ps) output = elim (Option-cases (decode R self p).1) [
    | inl e ↦ ground (arith, decode_stream-decoded_blocks (decode R self p).0 ps output)
    | inr (block, e) ↦
        ground (arith, decode_stream-decoded_blocks (decode R self p).0 ps (send block output).1)
  ]

  -- Every packet names the block `id`.
  abbrev pub IsRun : ℕ → List R.Packet → Type 0
  IsRun id ps = All (λ p. R.source_block_number p ≡ id) ps

  -- The state in which the block `id` is being decoded, by `d`.
  abbrev decoding : BlockDecoder R → ℕ → R.SourceDecoder → BlockDecoder R
  decoding self id d = record self {
    current_block_id = some id;
    current_decoder = d;
    current_block_is_decoded = false;
  }

  decode_done :
      (self : BlockDecoder R) (id : ℕ) (p : R.Packet)
      → self.current_block_id ≡ some id
      → self.current_block_is_decoded ≡ true
      → R.source_block_number p ≡ id
      → decode R self p ≡ (self, none)
  unfolding decode
  decode_done self id p e f h = ground (arith, ==_iff (R.source_block_number p) id)

  -- Once a block is decoded, further packets that name it are ignored: nothing is returned and
  -- the state stays as it is.
  pub decoded_blocks_done :
      (self : BlockDecoder R) (id : ℕ) (ps : List R.Packet)
      → self.current_block_id ≡ some id
      → self.current_block_is_decoded ≡ true
      → IsRun id ps
      → (decoded_blocks self ps ≡ []) × (state_after self ps ≡ self)
  decoded_blocks_done self id [] e f h = (refl, refl)
  decoded_blocks_done self id (p ∷ ps) e f h =
      rw (decode_done self id p e f h.0) (decoded_blocks_done self id ps e f h.1)

  -- What a run leaves behind.
  pub record IsAfter (old : BlockDecoder R) (id : ℕ) (out : Option (List ℕ)) (new : BlockDecoder R)
      : Type 0 where
    pub same_size : new.block_size ≡ old.block_size
    pub same_config : new.config ≡ old.config
    pub current : new.current_block_id ≡ some id
    pub decoded : out ≢ none → new.current_block_is_decoded ≡ true

  decode_current :
      (self : BlockDecoder R) (id : ℕ) (d : R.SourceDecoder) (p : R.Packet)
      → R.source_block_number p ≡ id
      → decode R (decoding self id d) p ≡ try_decode R (decoding self id d) p
  unfolding decode
  decode_current self id d p h = ground (arith, ==_iff (R.source_block_number p) id)

  decode_fresh :
      (self : BlockDecoder R) (id : ℕ) (p : R.Packet)
      → R.source_block_number p ≡ id
      → self.current_block_id ≢ some id
      → decode R self p
        ≡ decode R (decoding self id (R.new_decoder id self.config self.block_size)) p
  unfolding decode
  decode_fresh self id p h other = elim (Option-cases self.current_block_id) [
    | inl e ↦ ground (arith, ==_iff (R.source_block_number p) id)
    | inr (c, e) ↦ ground (arith, ==_iff (R.source_block_number p) id)
  ]

  -- One packet of the current block.
  step_none :
      (self : BlockDecoder R) (id : ℕ) (d : R.SourceDecoder) (p : R.Packet)
      → R.source_block_number p ≡ id
      → (R.decode_packets d (p ∷ [])).1 ≡ none
      → decode R (decoding self id d) p ≡ (decoding self id (R.decode_packets d (p ∷ [])).0, none)
  unfolding try_decode
  step_none self id d p h e = decode_current self id d p h ∙ rw (e, try_decode)

  -- The state in which the block is decoded.
  abbrev finished : BlockDecoder R → ℕ → R.SourceDecoder → BlockDecoder R
  finished self id d = record (decoding self id d) { current_block_is_decoded = true }

  step_some :
      (self : BlockDecoder R) (id : ℕ) (d : R.SourceDecoder) (p : R.Packet) (block : List ℕ)
      → R.source_block_number p ≡ id
      → (R.decode_packets d (p ∷ [])).1 ≡ some block
      → decode R (decoding self id d) p
        ≡ (finished self id (R.decode_packets d (p ∷ [])).0, some block)
  unfolding try_decode
  step_some self id d p block h e = decode_current self id d p h ∙ rw (e, try_decode)

  first_none :
      (d : R.SourceDecoder) (p : R.Packet) (ps : List R.Packet)
      → (R.decode_packets d (p ∷ [])).1 ≡ none
      → first_decoded R d (p ∷ ps) ≡ first_decoded R (R.decode_packets d (p ∷ [])).0 ps
  first_none d p ps e = ground arith

  first_some :
      (d : R.SourceDecoder) (p : R.Packet) (ps : List R.Packet) (block : List ℕ)
      → (R.decode_packets d (p ∷ [])).1 ≡ some block
      → first_decoded R d (p ∷ ps) ≡ some block
  first_some d p ps block e = ground arith

  run_current :
      (self : BlockDecoder R) (id : ℕ) (d : R.SourceDecoder) (ps : List R.Packet)
      → IsRun id ps
      → (decoded_blocks (decoding self id d) ps ≡ to_list (first_decoded R d ps))
        × IsAfter self id (first_decoded R d ps) (state_after (decoding self id d) ps)
  run_current self id d [] h = (
    refl,
    record { same_size = refl; same_config = refl; current = refl; decoded = λ h. absurd (h refl) },
  )
  run_current self id d (p ∷ ps) h = elim (Option-cases (R.decode_packets d (p ∷ [])).1) [
    | inl e ↦
        rw (step_none self id d p h.0 e, first_none d p ps e)
          (run_current self id (R.decode_packets d (p ∷ [])).0 ps h.1)
    | inr (block, e) ↦
        let s : BlockDecoder R = finished self id (R.decode_packets d (p ∷ [])).0 in
        let (out, same) = decoded_blocks_done s id ps refl refl h.1 in
        rw (step_some self id d p block h.0 e, first_some d p ps block e, out, same)
          (
            refl,
            record { same_size = refl; same_config = refl; current = refl; decoded = λ h. refl },
          )
  ]

  -- Packets of one block that were received in a row.
  pub record Run : Type 0 where
    pub id : ℕ
    pub packets : List R.Packet

  -- Runs of at least one packet, each of another block than the one before it.
  abbrev pub Alternates : Option ℕ → List Run → Type 0
  Alternates last [] = Unit
  Alternates last (r ∷ runs) =
      (r.packets ≢ []) × (last ≢ some r.id) × IsRun r.id r.packets × Alternates (some r.id) runs

  abbrev pub all_packets : List Run → List R.Packet
  all_packets [] = []
  all_packets (r ∷ runs) = r.packets ++ all_packets runs

  -- What a fresh `SourceBlockDecoder` makes of each run by itself.
  abbrev pub recovered : R.Config → ℕ → List Run → List (List ℕ)
  recovered config size [] = []
  recovered config size (r ∷ runs) =
      to_list (first_decoded R (R.new_decoder r.id config size) r.packets)
      ++ recovered config size runs

  decoded_blocks-append :
      (self : BlockDecoder R) (ps qs : List R.Packet)
      → decoded_blocks self (ps ++ qs)
        ≡ decoded_blocks self ps ++ decoded_blocks (state_after self ps) qs
  decoded_blocks-append self [] qs = refl
  decoded_blocks-append self (p ∷ ps) qs =
      rw (append_assoc, decoded_blocks-append (decode R self p).0 ps qs)

  run_fresh :
      (self : BlockDecoder R) (id : ℕ) (ps : List R.Packet)
      → ps ≢ []
      → self.current_block_id ≢ some id
      → IsRun id ps
      → let d = R.new_decoder id self.config self.block_size in
        (decoded_blocks self ps ≡ to_list (first_decoded R d ps))
        × IsAfter self id (first_decoded R d ps) (state_after self ps)
  run_fresh self id [] some_packet other h = absurd (some_packet refl)
  run_fresh self id (p ∷ ps) some_packet other h =
      rw (decode_fresh self id p h.0 other) (run_current self id _ (p ∷ ps) h)

  -- On a stream of such runs the decoder returns, in order, what a fresh `SourceBlockDecoder`
  -- makes of each run by itself: no run influences another, and each yields at most one block.
  pub decoded_blocks-recovered :
      (self : BlockDecoder R) (runs : List Run)
      → Alternates self.current_block_id runs
      → decoded_blocks self (all_packets runs) ≡ recovered self.config self.block_size runs
  decoded_blocks-recovered self [] h = refl
  decoded_blocks-recovered self (r ∷ runs) h =
      let (out, after) = run_fresh self r.id r.packets h.0 h.1 h.2 in
      let next = state_after self r.packets in
      let later = decoded_blocks-recovered next runs (rw after.current h.3) in
      rw (
        decoded_blocks-append self r.packets (all_packets runs),
        out,
        later,
        after.same_size,
        after.same_config,
      )
