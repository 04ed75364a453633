-- ===== src/RaptorQ/Sample.antt =====
-- A concrete codec that obeys the laws: the block is one symbol, and every packet repeats it.
use garuda_codec.Base.{ℕ, ◌<◌, zero, suc, ◌+◌, ◌≡◌, refl, ap, List, [], ◌∷◌, Option, none, some}
use garuda_codec.Base.{length, replicate, length-replicate, inl, inr, arith, ◌≢◌}
use garuda_codec.RaptorQ.{
  RaptorQ, IsLawful, IsBlock, IsPacketOf, first_decoded, encoder_of, payload_id_len,
}
use mathlib.Core.List.{Memᴰ}

pub record Copy : Type 0 where
  pub block : ℕ
  pub symbol : List ℕ

pub record Copier : Type 0 where
  pub copy : Copy
  pub symbols : ℕ

abbrev parse : List ℕ → Copy
parse (id ∷ _ ∷ _ ∷ _ ∷ symbol) = record { block = id; symbol = symbol }
parse _ = record { block = 0; symbol = [] }

abbrev decode_copies : Unit {0} → List Copy → Unit {0} × Option (List ℕ)
decode_copies d [] = (d, none)
decode_copies d (p ∷ ps) = (d, some p.symbol)

abbrev pub copies : RaptorQ
copies = record {
  Config = ℕ;
  Plan = ℕ;
  SourceEncoder = Copier;
  SourceDecoder = Unit {0};
  Packet = Copy;
  with_defaults = λ len max_packet_size. len;
  symbol_size = λ config. config;
  generate = λ symbol_count. symbol_count;
  with_encoding_plan = λ id config content plan. record {
    copy = record { block = id; symbol = content };
    symbols = plan;
  };
  source_packets = λ e. replicate e.symbols e.copy;
  repair_packets = λ e start n. replicate n e.copy;
  source_block_number = λ p. p.block;
  serialize = λ p. p.block ∷ 0 ∷ 0 ∷ 0 ∷ p.symbol;
  deserialize = parse;
  new_decoder = λ id config len. tt;
  decode_packets = decode_copies;
}

copy_of_mem : {p q : Copy} (n : ℕ) → Memᴰ p (replicate n q) → p ≡ q
copy_of_mem zero (m) = elim m [ ]
copy_of_mem (suc n) (Memᴰ.head e) = e
copy_of_mem (suc n) (Memᴰ.tail m) = copy_of_mem n m

packet_of : {p : Copy} (e : Copier) → IsPacketOf copies e p → p ≡ e.copy
packet_of e (inl m) = copy_of_mem e.symbols m
packet_of e (inr (n, m)) = copy_of_mem n m

length-copy :
    (id k config : ℕ) (content : List ℕ) (p : Copy)
    → IsBlock copies id config content k
    → IsPacketOf copies (encoder_of copies id config content k) p
    → 4 + length content ≡ payload_id_len + config
    → length (copies.serialize p) ≡ payload_id_len + config
length-copy id k config content p b h e = rw (packet_of _ h) (omega arith)

copy_sound :
    (e : Copier) (p : Copy) (out : List ℕ)
    → IsPacketOf copies e p
    → some p.symbol ≡ some out
    → out ≡ e.copy.symbol
copy_sound e p out h f = cc (packet_of e h, f)

copy_complete :
    (k : ℕ) (c : Copy) (ps : List Copy)
    → 0 < k
    → ((p : Copy) → Memᴰ p (replicate k c) → Memᴰ p ps)
    → first_decoded copies tt ps ≢ none
copy_complete zero c ps h all = absurd (omega arith)
copy_complete (suc k) c [] h all = elim (all c (Memᴰ.head refl)) [ ]
copy_complete (suc k) c (p ∷ ps) h all = λ e. cc

pub copies-IsLawful : IsLawful copies
copies-IsLawful = record {
  block_number = λ id k config content p b h. ap (λ (c : Copy). c.block) (packet_of _ h);
  length-source_packets = λ id k config content b. length-replicate k _;
  length-repair_packets = λ id k config content n h fits. length-replicate n _;
  length-serialize = λ id k config content p b h.
      length-copy id k config content p b h (omega (arith, b.configured));
  deserialize-serialize = λ p h. refl;
  decode_sound = λ id k config content ps p out b hs h e. copy_sound _ p out h e;
  decode_complete = λ id k config content ps b hs all. copy_complete k _ ps b.some_symbol all;
}
