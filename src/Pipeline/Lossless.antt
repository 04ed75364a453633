-- ===== src/Pipeline/Lossless.antt =====
-- The codec on a wire that loses no source packet, from the bytes of its input to the blocks that
-- its decoders return.
use garuda_codec.Base.{
  ℕ, ◌+◌, ◌%◌, ◌<◌, ◌≤◌, ◌≡◌, refl, sym, ap, ◌∙◌, arith, inl, inr, Bool-cases, ==_iff, List, [],
  ◌∷◌, length, map, replicate, get_elem?, All, All-replicate, length-replicate, get_elem?-replicate,
  Option, none, some, ℕ_discrete, ◌==◌,
}
use garuda_codec.Base.{mem-map, All-map_intro, All-self}
use garuda_codec.BlockDecoder.{decode_stream}
use garuda_codec.BlockDecoder.Recovery.{
  Reception, IsReception, HasSource, arriving, decoder_for, delivered_complete,
}
use garuda_codec.BlockDispatcher as BlockDispatcher
use garuda_codec.BlockDispatcher.Routing.{joined, numbered, block_id, at_id, dispatch_blocks}
use garuda_codec.BlockEncoder.{Block}
use garuda_codec.BlockEncoder.Encode.{IsUsable}
use garuda_codec.Channel.{Sender}
use garuda_codec.Dispatch.Routes.{picked, get_elem?-delivered}
use garuda_codec.Io.{ReadEvent}
use garuda_codec.Io.Exact.{bytes_of, IsQuiet}
use garuda_codec.Merge.{Merge, done, next, All-Merge}
use garuda_codec.Merge.Growing.{Merge-cong}
use garuda_codec.PacketDispatcher as PacketDispatcher
use garuda_codec.PacketDispatcher.Routing.{wire}
use garuda_codec.Pipeline.{IsArrival, empty, packet_size, pipeline}
use garuda_codec.RaptorQ.{RaptorQ, IsLawful}
use mathlib.Core.List.{Memᴰ}
use mathlib.Core.List.Memᴰ as Memᴰ

mem-Merge :
    {A : Type 0} (n q : ℕ) (x : A) {streams : ℕ → List A} {zs : List A}
    → Merge n streams zs
    → q < n
    → Memᴰ x (streams q)
    → Memᴰ x zs
mem-Merge n q x (done none_left) h m = elim (rw (none_left q h) at m) [ ]
mem-Merge n q x (next {streams = streams} {later = later} j y k e same r) h m =
    elim (ℕ_discrete q j) [
      | yes f ↦ elim (Memᴰ.cases_cons (rw (f, e) at m)) [
        | inl here ↦ Memᴰ.head here
        | inr there ↦ Memᴰ.tail (mem-Merge n j x r k there)
      ]
      | no f ↦ Memᴰ.tail (mem-Merge n q x r h (rw (same q f) at m))
    ]

module _ {A : Type 0} (key : A → ℕ) (n : ℕ) where
  pub All-picked : (P : A → Type 0) (q : ℕ) (xs : List A) → All P xs → All P (picked key n q xs)
  All-picked P q [] h = tt
  All-picked P q (x ∷ xs) h = elim (Bool-cases (key x % n == q)) [
    | inl e ↦ rw e (h.0, All-picked P q xs h.1)
    | inr e ↦ rw e (All-picked P q xs h.1)
  ]

  mem-picked : (x : A) (xs : List A) → Memᴰ x xs → Memᴰ x (picked key n (key x % n) xs)
  mem-picked x [] m = elim m [ ]
  mem-picked x (y ∷ xs) (Memᴰ.head e) =
      rw ((==_iff (key y % n) (key x % n)).1 (ap (λ z. key z % n) (sym e))) (Memᴰ.head e)
  mem-picked x (y ∷ xs) (Memᴰ.tail m) = elim (Bool-cases (key y % n == key x % n)) [
    | inl e ↦ rw e (Memᴰ.tail (mem-picked x xs m))
    | inr e ↦ rw e (mem-picked x xs m)
  ]

pub All-numbered :
    (P : List ℕ → Type 0) (id : ℕ) (contents : List (List ℕ))
    → All P contents
    → All (λ (block : Block). P block.content) (numbered id contents)
All-numbered P id [] h = tt
All-numbered P id (content ∷ contents) h = (h.0, All-numbered P ((id + 1) % 256) contents h.1)

mem-numbered :
    (id : ℕ) (contents : List (List ℕ)) (content : List ℕ)
    → Memᴰ content contents
    → (block : Block) × Memᴰ block (numbered id contents) × (block.content ≡ content)
mem-numbered id [] content m = elim m [ ]
mem-numbered id (x ∷ contents) content (Memᴰ.head e) =
    (record { id = id; content = x }, Memᴰ.head refl, sym e)
mem-numbered id (x ∷ contents) content (Memᴰ.tail m) =
    let (block, there, e) = mem-numbered ((id + 1) % 256) contents content m in
    (block, Memᴰ.tail there, e)

-- What a queue holds.
abbrev pub queued {ℓ} : {A : Type ℓ} → Option (Sender A) → List A
queued none = []
queued (some s) = s.queued

queued_injective :
    {A : Type 0} (xs ys : List A) (room : Option ℕ)
    → ◌≡◌ {A = Option (Sender A)}
        (some (record { queued = xs; room = room }))
        (some (record { queued = ys; room = room }))
    → xs ≡ ys
queued_injective xs ys room e = ap queued e

-- The queues of the block dispatcher, for an input of whole blocks.
pub dispatched_blocks :
    (b n id : ℕ) (contents : List (List ℕ)) (input : List ReadEvent)
    → 0 < b
    → IsQuiet input
    → bytes_of input ≡ joined contents []
    → All (λ content. length content ≡ b) contents
    → (q : ℕ) → q < n
    → queued (get_elem? (BlockDispatcher.dispatch (at_id b id) input (replicate n empty)).queues q)
      ≡ picked block_id n q (numbered id contents)
dispatched_blocks b n id contents input pos quiet e sized q h =
    let len = length-replicate n (empty {A = Block}) in
    let sent =
      dispatch_blocks b id contents [] input (replicate n empty) pos quiet e sized pos (omega arith)
        (All-replicate _ n empty refl) in
    rw (sent, len)
      (ap queued (
        get_elem?-delivered block_id n (numbered id contents) 0 q q (replicate n empty) empty
          (get_elem?-replicate n q empty h) (omega arith)))

module _ (R : RaptorQ) (laws : IsLawful R) (b m : ℕ) (u : IsUsable R b m) where
  -- The blocks that decoder `q` of `n` returns, from what the packet dispatcher makes of `input`.
  abbrev pub decoded_by : ℕ → ℕ → List ReadEvent → List (List ℕ)
  decoded_by n q input =
      (decode_stream R (decoder_for R b m)
        (queued (
          get_elem?
            (PacketDispatcher.dispatch R (record { packet_size = packet_size R laws b m u }) input
              (replicate n empty)).queues
            q))
        empty).1.queued

  -- Workers `0` to `n - 1` on each side. `arrivals` has for each encoder its blocks, and of each
  -- the packets that arrive: all source packets at least. The packets of the encoders are
  -- interleaved as `zs`, and the blocks of the decoders as `out`.
  pub record IsTransmission (n id : ℕ) (input wire_input : List ReadEvent)
      (arrivals : ℕ → List (Reception R)) (zs : List R.Packet) (tail : List ℕ) (out : List (List ℕ))
      : Type 0 where
    pub some_worker : 0 < n
    pub few_workers : n ≤ 128
    pub id_fits : id < 256
    pub quiet : IsQuiet input
    pub blocks :
        (q : ℕ)
        → q < n
        → queued
            (get_elem? (BlockDispatcher.dispatch (at_id b id) input (replicate n empty)).queues q)
          ≡ map (λ r. r.block) (arrivals q)
    pub receptions : (q : ℕ) → q < n → All (IsReception R b m) (arrivals q)
    pub sources : (q : ℕ) → q < n → All (HasSource R laws b m u) (arrivals q)
    pub merged : Merge n (λ q. arriving R (arrivals q)) zs
    pub wire_quiet : IsQuiet wire_input
    pub wire_bytes : bytes_of wire_input ≡ wire R zs tail
    pub short_tail : length tail < packet_size R laws b m u
    pub returned : Merge n (λ q. decoded_by n q wire_input) out

  contents_of_blocks :
      (rs : List (Reception R))
      → map (λ (r : Reception R). r.block.content) rs
        ≡ map (λ (x : Block). x.content) (map (λ (r : Reception R). r.block) rs)
  contents_of_blocks [] = refl
  contents_of_blocks (r ∷ rs) =
      ap (λ (xs : List (List ℕ)). r.block.content ∷ xs) (contents_of_blocks rs)

  module _ (n id : ℕ) (contents : List (List ℕ)) (input wire_input : List ReadEvent)
      (arrivals : ℕ → List (Reception R)) (zs : List R.Packet) (tail : List ℕ) (out : List (List ℕ))
      (pos : 0 < b) (e : bytes_of input ≡ joined contents [])
      (sized : All (λ content. length content ≡ b) contents)
      (t : IsTransmission n id input wire_input arrivals zs tail out) where
    dispatched :
        (q : ℕ)
        → q < n
        → queued
            (get_elem? (BlockDispatcher.dispatch (at_id b id) input (replicate n empty)).queues q)
          ≡ picked block_id n q (numbered id contents)
    dispatched q h = dispatched_blocks b n id contents input pos t.quiet e sized q h

    returned_by :
        (q : ℕ)
        → q < n
        → decoded_by n q wire_input
          ≡ map (λ (x : Block). x.content) (picked block_id n q (numbered id contents))
    returned_by q h =
        let same = sym (t.blocks q h) ∙ dispatched q h in
        let arrival : IsArrival R laws b m u n id contents arrivals = record {
          blocks = λ j k. sym (t.blocks j k) ∙ dispatched j k;
          receptions = t.receptions;
        } in
        let (got, returned) =
          pipeline R laws b m u n id contents arrivals zs tail wire_input t.some_worker
            t.few_workers t.id_fits arrival t.merged t.wire_quiet t.wire_bytes t.short_tail q h in
        ap (λ (ps : List R.Packet). (decode_stream R (decoder_for R b m) ps empty).1.queued)
          (ap queued got)
        ∙ ap (λ r. r.1.queued) returned
        ∙ delivered_complete R laws b m u (arrivals q) (t.receptions q h) (t.sources q h)
        ∙ contents_of_blocks (arrivals q)
        ∙ ap (map (λ (x : Block). x.content)) same

    All-returned : All (λ content. Memᴰ content contents) out
    All-returned =
        All-Merge (λ content. Memᴰ content contents) n t.returned
          (λ q h. rw (returned_by q h) (
            All-map_intro (λ (x : Block). x.content) (λ content. Memᴰ content contents) _
              (All-picked block_id n (λ x. Memᴰ x.content contents) q (numbered id contents)
                (All-numbered (λ content. Memᴰ content contents) id contents (All-self contents)))))

    none_missing : (content : List ℕ) → Memᴰ content contents → Memᴰ content out
    none_missing content m =
        let (block, there, same) = mem-numbered id contents content m in
        let q = block.id % n in
        let h : q < n = omega (arith, t.some_worker) in
        mem-Merge n q content t.returned h (
          rw (returned_by q h, ← same)
            (mem-map (λ (x : Block). x.content) (picked block_id n q (numbered id contents)) block
              (mem-picked block_id n block (numbered id contents) there)))

  -- Under the laws of `raptorq`, for a block of a whole number of symbols, at most 56403: let the
  -- bytes of the input be whole blocks, numbered from an `id` below 256 on, let each side have
  -- `n` workers, 1 to 128, and let no read end the input or the wire before its end. Let the
  -- source packets of all blocks arrive, maybe with repair packets, in any interleaving with the
  -- packets of other encoders, and behind them less than a packet. Then what the decoders return,
  -- in any interleaving, is the blocks of the input: none that was not there, and each of them;
  -- it takes the blocks whose ids are equal modulo `n` in their order and each block of the input
  -- once.
  pub lossless :
      (n id : ℕ) (contents : List (List ℕ)) (input wire_input : List ReadEvent)
      (arrivals : ℕ → List (Reception R)) (zs : List R.Packet) (tail : List ℕ) (out : List (List ℕ))
      → 0 < b
      → bytes_of input ≡ joined contents []
      → All (λ content. length content ≡ b) contents
      → IsTransmission n id input wire_input arrivals zs tail out
      → All (λ content. Memᴰ content contents) out
        × ((content : List ℕ) → Memᴰ content contents → Memᴰ content out)
        × Merge n
            (λ q. map (λ (x : Block). x.content) (picked block_id n q (numbered id contents)))
            out
  lossless n id contents input wire_input arrivals zs tail out pos e sized t = (
    All-returned n id contents input wire_input arrivals zs tail out pos e sized t,
    none_missing n id contents input wire_input arrivals zs tail out pos e sized t,
    Merge-cong n t.returned
        (returned_by n id contents input wire_input arrivals zs tail out pos e sized t),
  )
