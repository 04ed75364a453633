-- ===== src/RaptorQ.antt =====
-- The `raptorq` crate, which the program calls and does not contain: its types and functions are
-- parameters, and what its documentation and RFC 6330 promise are named laws.
pub mod Sample
use garuda_codec.Base.{
  ℕ, ◌+◌, ◌*◌, ◌^◌, ◌<◌, ◌≤◌, ◌≡◌, ◌≢◌, ◌⊎◌, List, [], ◌∷◌, Option, none, some, length, All,
}
use mathlib.Core.List.{Memᴰ}

pub record RaptorQ : Type 1 where
  -- `ObjectTransmissionInformation`, `SourceBlockEncodingPlan`, `SourceBlockEncoder`,
  -- `SourceBlockDecoder` and `EncodingPacket`.
  pub Config : Type 0
  pub Plan : Type 0
  pub SourceEncoder : Type 0
  pub SourceDecoder : Type 0
  pub Packet : Type 0
  -- `ObjectTransmissionInformation::with_defaults(transfer_length, max_packet_size)`
  pub with_defaults : ℕ → ℕ → Config
  pub symbol_size : Config → ℕ
  -- `SourceBlockEncodingPlan::generate(symbol_count)`
  pub generate : ℕ → Plan
  -- `SourceBlockEncoder::with_encoding_plan(source_block_id, config, data, plan)`
  pub with_encoding_plan : ℕ → Config → List ℕ → Plan → SourceEncoder
  pub source_packets : SourceEncoder → List Packet
  -- `repair_packets(start_repair_symbol_id, packets)`
  pub repair_packets : SourceEncoder → ℕ → ℕ → List Packet
  -- `packet.payload_id().source_block_number()`
  pub source_block_number : Packet → ℕ
  pub serialize : Packet → List ℕ
  pub deserialize : List ℕ → Packet
  -- `SourceBlockDecoder::new(source_block_id, config, block_length)`
  pub new_decoder : ℕ → Config → ℕ → SourceDecoder
  -- `SourceBlockDecoder::decode(packets)`
  pub decode_packets : SourceDecoder → List Packet → SourceDecoder × Option (List ℕ)

-- RFC 6330, section 5.6: the largest number of source symbols in a block.
abbrev pub max_source_symbols : ℕ
max_source_symbols = 56403

-- RFC 6330, section 3.2: the length of the FEC payload id in front of each symbol.
abbrev pub payload_id_len : ℕ
payload_id_len = 4

-- RFC 6330, section 3.2: the bits of an encoding symbol id.
abbrev pub symbol_id_bits : ℕ
symbol_id_bits = 24

module _ (R : RaptorQ) where
  -- A block `id` whose content is `k` symbols, under the configuration made for its length.
  pub record IsBlock (id : ℕ) (config : R.Config) (content : List ℕ) (k : ℕ) : Type 0 where
    pub max_packet_size : ℕ
    pub configured : config ≡ R.with_defaults (length content) max_packet_size
    pub id_fits : id < 256
    pub some_symbol : 0 < k
    pub k_fits : k ≤ max_source_symbols
    pub whole : length content ≡ k * R.symbol_size config

  -- Its encoder, under the plan for `k` symbols.
  abbrev pub encoder_of : ℕ → R.Config → List ℕ → ℕ → R.SourceEncoder
  encoder_of id config content k = R.with_encoding_plan id config content (R.generate k)

  -- A packet that the encoder makes.
  abbrev pub IsPacketOf : R.SourceEncoder → R.Packet → Type 0
  IsPacketOf e p = Memᴰ p (R.source_packets e) ⊎ ((n : ℕ) × Memᴰ p (R.repair_packets e 0 n))

  -- The decoder after it was given the packets one by one.
  abbrev pub feed : R.SourceDecoder → List R.Packet → R.SourceDecoder
  feed d [] = d
  feed d (p ∷ ps) = feed (R.decode_packets d (p ∷ [])).0 ps

  -- The first block that the decoder returns when it is given the packets one by one.
  abbrev pub first_decoded : R.SourceDecoder → List R.Packet → Option (List ℕ)
  first_decoded d [] = none
  first_decoded d (p ∷ ps) = elim ((R.decode_packets d (p ∷ [])).1) [
    | some content ↦ some content
    | none ↦ first_decoded (R.decode_packets d (p ∷ [])).0 ps
  ]

  pub record IsLawful : Type 0 where
    -- Every packet names its block.
    pub block_number :
        (id k : ℕ) (config : R.Config) (content : List ℕ) (p : R.Packet)
        → IsBlock id config content k
        → IsPacketOf (encoder_of id config content k) p
        → R.source_block_number p ≡ id
    -- There is a source packet for each symbol, and as many repair packets as are asked for, as
    -- long as there is an encoding symbol id for each packet.
    pub length-source_packets :
        (id k : ℕ) (config : R.Config) (content : List ℕ)
        → IsBlock id config content k
        → length (R.source_packets (encoder_of id config content k)) ≡ k
    pub length-repair_packets :
        (id k : ℕ) (config : R.Config) (content : List ℕ) (n : ℕ)
        → IsBlock id config content k
        → k + n ≤ 2 ^ symbol_id_bits
        → length (R.repair_packets (encoder_of id config content k) 0 n) ≡ n
    -- A packet is its payload id and one symbol, and serialisation loses nothing.
    pub length-serialize :
        (id k : ℕ) (config : R.Config) (content : List ℕ) (p : R.Packet)
        → IsBlock id config content k
        → IsPacketOf (encoder_of id config content k) p
        → length (R.serialize p) ≡ payload_id_len + R.symbol_size config
    pub deserialize-serialize :
        (p : R.Packet) → R.source_block_number p < 256 → R.deserialize (R.serialize p) ≡ p
    -- What is decoded from packets of a block is the block.
    pub decode_sound :
        (id k : ℕ) (config : R.Config) (content : List ℕ) (ps : List R.Packet) (p : R.Packet)
        (out : List ℕ)
        → IsBlock id config content k
        → All (IsPacketOf (encoder_of id config content k)) ps
        → IsPacketOf (encoder_of id config content k) p
        → (R.decode_packets (feed (R.new_decoder id config (length content)) ps) (p ∷ [])).1
          ≡ some out
        → out ≡ content
    -- The code is systematic: all source packets, in any order and with any repair packets of the
    -- block between them, are enough.
    pub decode_complete :
        (id k : ℕ) (config : R.Config) (content : List ℕ) (ps : List R.Packet)
        → IsBlock id config content k
        → All (IsPacketOf (encoder_of id config content k)) ps
        → ((p : R.Packet) → Memᴰ p (R.source_packets (encoder_of id config content k)) → Memᴰ p ps)
        → first_decoded (R.new_decoder id config (length content)) ps ≢ none
