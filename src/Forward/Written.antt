-- ===== src/Forward/Written.antt =====
-- What reaches the output stream.
use garuda_codec.Base.{
  ℕ, ◌+◌, ◌-◌, ◌<◌, ◌≡◌, refl, ◌∙◌, arith, List, [], ◌∷◌, ◌++◌, length, take, map, Option, none,
  some,
}
use garuda_codec.Base.{
  ok, err, append_assoc, append-nil, length-append, take-append_left, take-append_right, dec_lt,
}
use garuda_codec.BlockDispatcher.Routing.{joined}
use garuda_codec.Channel.{Fits, room_after, Fits-add, room_after-add, room_after-zero}
use garuda_codec.Forward.{Sink, write_all, forward_blocks, forward_packets}
use garuda_codec.Io.{ErrorKind}
use garuda_codec.PacketDispatcher.Routing.{wire}
use garuda_codec.RaptorQ.{RaptorQ}

abbrev pub sink : List ℕ → Option ℕ → ErrorKind → Sink
sink written room failure = record { written = written; room = room; failure = failure }

write_all_ok :
    (bytes w : List ℕ) (room : Option ℕ) (e : ErrorKind)
    → Fits room (length bytes)
    → write_all bytes (sink w room e)
      ≡ (ok tt, sink (w ++ bytes) (room_after room (length bytes)) e)
unfolding write_all
write_all_ok bytes w none e h = refl
write_all_ok bytes w (some k) e h = ground arith

write_all_full :
    (bytes w : List ℕ) (k : ℕ) (e : ErrorKind)
    → k < length bytes
    → write_all bytes (sink w (some k) e) ≡ (err e, sink (w ++ take k bytes) (some 0) e)
unfolding write_all
write_all_full bytes w k e h = ground arith

forward_blocks_step :
    (block : List ℕ) (blocks : List (List ℕ)) (w : List ℕ) (room : Option ℕ) (e : ErrorKind)
    → Fits room (length block)
    → forward_blocks (block ∷ blocks) (sink w room e)
      ≡ forward_blocks blocks (sink (w ++ block) (room_after room (length block)) e)
unfolding forward_blocks
forward_blocks_step block blocks w room e h = ground (arith, write_all_ok block w room e h)

-- A stream that takes all bytes of the blocks gets them, one block after the other.
pub forward_blocks_ok :
    (blocks : List (List ℕ)) (w : List ℕ) (room : Option ℕ) (e : ErrorKind)
    → Fits room (length (joined blocks []))
    → forward_blocks blocks (sink w room e)
      ≡ (ok tt, sink (w ++ joined blocks []) (room_after room (length (joined blocks []))) e)
unfolding forward_blocks
forward_blocks_ok [] w room e h = rw (append-nil, room_after-zero)
forward_blocks_ok (block ∷ blocks) w room e h =
    let len = length-append block (joined blocks []) in
    let (first, others) = Fits-add room (length block) (length (joined blocks [])) (rw len at h) in
    forward_blocks_step block blocks w room e first
    ∙ rw (
      forward_blocks_ok blocks (w ++ block) (room_after room (length block)) e others,
      append_assoc,
      room_after-add,
      len,
    )

-- A stream that fails after `k` bytes, fewer than the blocks have, gets the first `k` bytes of the
-- blocks, and `forward_blocks` returns its error.
pub forward_blocks_full :
    (blocks : List (List ℕ)) (w : List ℕ) (k : ℕ) (e : ErrorKind)
    → k < length (joined blocks [])
    → forward_blocks blocks (sink w (some k) e)
      ≡ (err e, sink (w ++ take k (joined blocks [])) (some 0) e)
unfolding forward_blocks
forward_blocks_full [] w k e h = absurd (omega arith)
forward_blocks_full (block ∷ blocks) w k e h = elim (dec_lt k (length block)) [
  | yes g ↦ ground (
    arith,
    write_all_full block w k e g,
    take-append_left block (joined blocks []) k (omega arith),
  )
  | no g ↦
      let len = length-append block (joined blocks []) in
      let j : ℕ = k - length block in
      let cut : k ≡ length block + j = omega arith in
      let left : j < length (joined blocks []) = omega (arith, len) in
      forward_blocks_step block blocks w (some k) e (omega arith)
      ∙ forward_blocks_full blocks (w ++ block) j e left
      ∙ rw (append_assoc, take-append_right block (joined blocks []) k j cut)
]

module _ (R : RaptorQ) where
  abbrev pub serialized : List R.Packet → List (List ℕ)
  serialized ps = map R.serialize ps

  -- `forward_packets` does with packets what `forward_blocks` does with their serialisations.
  pub forward_packets-eq-forward_blocks :
      (ps : List R.Packet) (s : Sink) → forward_packets R ps s ≡ forward_blocks (serialized ps) s
  unfolding forward_packets forward_blocks
  forward_packets-eq-forward_blocks [] s = refl
  forward_packets-eq-forward_blocks (p ∷ ps) s =
      ground (arith, forward_packets-eq-forward_blocks ps (write_all (R.serialize p) s).1)

  joined-wire : (ps : List R.Packet) → joined (serialized ps) [] ≡ wire R ps []
  joined-wire [] = refl
  joined-wire (p ∷ ps) = rw (joined-wire ps)

  -- A stream that takes all bytes gets what the packet dispatcher reads: the packets'
  -- serialisations, one after the other.
  pub forward_packets_ok :
      (ps : List R.Packet) (w : List ℕ) (room : Option ℕ) (e : ErrorKind)
      → Fits room (length (wire R ps []))
      → forward_packets R ps (sink w room e)
        ≡ (ok tt, sink (w ++ wire R ps []) (room_after room (length (wire R ps []))) e)
  forward_packets_ok ps w room e h =
      forward_packets-eq-forward_blocks ps (sink w room e)
      ∙ rw (← joined-wire ps) (forward_blocks_ok (serialized ps) w room e (rw (joined-wire ps) h))
