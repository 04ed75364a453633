-- ===== src/Forward.antt =====
-- garuda-codec-core/src/encoder.rs, `forward_packets`, and decoder.rs, `forward_blocks`.
pub mod Written
mod Tests
use garuda_codec.Base.{
  ℕ, ◌-◌, leb, if◌then◌else◌, List, [], ◌∷◌, ◌++◌, length, take, Option, none, some, Outcome, ok,
  err,
}
use garuda_codec.Io.{ErrorKind}
use garuda_codec.RaptorQ.{RaptorQ}

-- An output stream: the bytes written to it, how many more it takes before it fails (`none` if it
-- never does), and the error of the failure.
pub record Sink : Type 0 where
  pub written : List ℕ
  pub room : Option ℕ
  pub failure : ErrorKind

abbrev put : List ℕ → Option ℕ → Sink → Outcome ErrorKind (Unit {0}) × Sink
put bytes none sink = (ok tt, record sink { written = sink.written ++ bytes })
put bytes (some k) sink =
    if leb (length bytes) k
    then (ok tt, record sink { written = sink.written ++ bytes; room = some (k - length bytes) })
    else (err sink.failure, record sink { written = sink.written ++ take k bytes; room = some 0 })

-- `write_all`
unfoldable pub write_all : List ℕ → Sink → Outcome ErrorKind (Unit {0}) × Sink
write_all bytes sink = put bytes sink.room sink

-- `forward_blocks`
unfoldable pub forward_blocks : List (List ℕ) → Sink → Outcome ErrorKind (Unit {0}) × Sink
unfolding write_all
forward_blocks [] output_stream = (ok tt, output_stream)
forward_blocks (block ∷ block_queue) output_stream =
    let (written, output_stream') = write_all block output_stream in
    let rest = forward_blocks block_queue output_stream' in
    elim written [ ok _ ↦ rest | other ↦ (other, output_stream') ]

-- `forward_packets`
unfoldable pub forward_packets :
    (R : RaptorQ) → List R.Packet → Sink → Outcome ErrorKind (Unit {0}) × Sink
unfolding write_all
forward_packets R [] output_stream = (ok tt, output_stream)
forward_packets R (packet ∷ packet_queue) output_stream =
    let (written, output_stream') = write_all (R.serialize packet) output_stream in
    let rest = forward_packets R packet_queue output_stream' in
    elim written [ ok _ ↦ rest | other ↦ (other, output_stream') ]
