-- ===== src/Pipeline/Tests.antt =====
-- Two workers on each side, three blocks, and packets that overtake one another; and 256 workers,
-- which are too many.
use garuda_codec.Base.{
  ℕ, zero, suc, ◌<◌, ◌≡◌, refl, ◌≢◌, arith, ok, List, [], ◌∷◌, none, some, get_elem?, map,
  replicate, ◌++◌, All, inl, false,
}
use garuda_codec.BlockEncoder.Sample.{copies-IsUsable}
use garuda_codec.BlockDecoder.{decode_stream}
use garuda_codec.BlockDecoder.Recovery.{Reception, IsReception, decoder_for, arriving}
use garuda_codec.BlockDispatcher.Routing.{numbered, block_id}
use garuda_codec.Dispatch.Routes.{picked}
use garuda_codec.Io.{ReadEvent, chunk, fail, interrupted}
use garuda_codec.Merge.{Merge, done, next}
use garuda_codec.PacketDispatcher.{dispatch}
use garuda_codec.Pipeline.{IsArrival, pipeline, blocks_lost, empty}
use garuda_codec.RaptorQ.Sample.{copies, copies-IsLawful, Copy}
use mathlib.Core.List.{Memᴰ}

abbrev copy : ℕ → List ℕ → Copy
copy id symbol = record { block = id; symbol = symbol }

abbrev reception : ℕ → List ℕ → Reception copies
reception id content = record {
  block = record { id = id; content = content };
  packets = copy id content ∷ [];
}

reception-IsReception : (id x y : ℕ) → id < 256 → IsReception copies 2 1 (reception id (x ∷ y ∷ []))
reception-IsReception id x y h = record {
  id_fits = h;
  sized = refl;
  some_packet = λ e. cc;
  of_block = (inl (Memᴰ.head refl), tt);
}

abbrev contents : List (List ℕ)
contents = (1 ∷ 2 ∷ []) ∷ (3 ∷ 4 ∷ []) ∷ (5 ∷ 6 ∷ []) ∷ []

-- The blocks are numbered 255, 0 and 1.
abbrev arrivals : ℕ → List (Reception copies)
arrivals zero = reception 0 (3 ∷ 4 ∷ []) ∷ []
arrivals (suc zero) = reception 255 (1 ∷ 2 ∷ []) ∷ reception 1 (5 ∷ 6 ∷ []) ∷ []
arrivals (suc (suc q)) = []

arrivals_blocks :
    (q : ℕ) → q < 2 → map (λ r. r.block) (arrivals q) ≡ picked block_id 2 q (numbered 255 contents)
arrivals_blocks zero h = refl
arrivals_blocks (suc zero) h = refl
arrivals_blocks (suc (suc q)) h = absurd (omega arith)

arrivals_receptions : (q : ℕ) → q < 2 → All (IsReception copies 2 1) (arrivals q)
arrivals_receptions zero h = (reception-IsReception 0 3 4 (omega arith), tt)
arrivals_receptions (suc zero) h =
    (reception-IsReception 255 1 2 (omega arith), (reception-IsReception 1 5 6 (omega arith), tt))
arrivals_receptions (suc (suc q)) h = absurd (omega arith)

arrivals-IsArrival : IsArrival copies copies-IsLawful 2 1 copies-IsUsable 2 255 contents arrivals
arrivals-IsArrival = record { blocks = arrivals_blocks; receptions = arrivals_receptions }

-- What the workers have still to send: all, all but the packet of worker 0, and so on.
abbrev streams : ℕ → List Copy
streams q = arriving copies (arrivals q)

abbrev streams_1 : ℕ → List Copy
streams_1 (suc zero) = copy 255 (1 ∷ 2 ∷ []) ∷ copy 1 (5 ∷ 6 ∷ []) ∷ []
streams_1 _ = []

abbrev streams_2 : ℕ → List Copy
streams_2 (suc zero) = copy 1 (5 ∷ 6 ∷ []) ∷ []
streams_2 _ = []

abbrev nothing : ℕ → List Copy
nothing q = []

same_1 : (j : ℕ) → j ≢ 0 → streams j ≡ streams_1 j
same_1 zero h = absurd (h refl)
same_1 (suc zero) h = refl
same_1 (suc (suc j)) h = refl

same_2 : (j : ℕ) → j ≢ 1 → streams_1 j ≡ streams_2 j
same_2 zero h = refl
same_2 (suc zero) h = absurd (h refl)
same_2 (suc (suc j)) h = refl

same_3 : (j : ℕ) → j ≢ 1 → streams_2 j ≡ nothing j
same_3 zero h = refl
same_3 (suc zero) h = absurd (h refl)
same_3 (suc (suc j)) h = refl

-- The packet of block 0 overtakes that of block 255.
abbrev overtaken : List Copy
overtaken = copy 0 (3 ∷ 4 ∷ []) ∷ copy 255 (1 ∷ 2 ∷ []) ∷ copy 1 (5 ∷ 6 ∷ []) ∷ []

overtaken-Merge : Merge 2 streams overtaken
overtaken-Merge = next {later = streams_1} 0 (copy 0 (3 ∷ 4 ∷ [])) (omega arith) refl same_1 (
    next {later = streams_2} 1 (copy 255 (1 ∷ 2 ∷ [])) (omega arith) refl same_2 (
      next {later = nothing} 1 (copy 1 (5 ∷ 6 ∷ [])) (omega arith) refl same_3
        (done (λ q h. refl))))

abbrev input : List ReadEvent
input =
    chunk (0 ∷ 0 ∷ 0 ∷ 0 ∷ 3 ∷ 4 ∷ 255 ∷ 0 ∷ 0 ∷ [])
    ∷ fail interrupted false
    ∷ chunk (0 ∷ 1 ∷ 2 ∷ 1 ∷ 0 ∷ 0 ∷ 0 ∷ 5 ∷ 6 ∷ 9 ∷ [])
    ∷ []

pipeline_example :
    (get_elem? (dispatch copies (record { packet_size = 6 }) input (empty ∷ empty ∷ [])).queues 1
      ≡ some (record { queued = copy 255 (1 ∷ 2 ∷ []) ∷ copy 1 (5 ∷ 6 ∷ []) ∷ []; room = none }))
    × (decode_stream copies
          (decoder_for copies 2 1)
          (copy 255 (1 ∷ 2 ∷ []) ∷ copy 1 (5 ∷ 6 ∷ []) ∷ [])
          empty
        ≡ (ok tt, record { queued = (1 ∷ 2 ∷ []) ∷ (5 ∷ 6 ∷ []) ∷ []; room = none }))
pipeline_example =
    pipeline copies copies-IsLawful 2 1 copies-IsUsable 2 255 contents arrivals overtaken (9 ∷ [])
      input (omega arith) (omega arith) (omega arith) arrivals-IsArrival overtaken-Merge
      (λ e. cc, ((refl, refl), (λ e. cc, tt))) refl (omega arith) 1 (omega arith)

sole : (p c : Copy) → Memᴰ p (c ∷ []) → p ≡ c
sole p c (Memᴰ.head e) = e
sole p c (Memᴰ.tail m) = elim m [ ]

-- 257 blocks over 256 queues: queue 3 gets the first and the last of them.
abbrev many_contents : List (List ℕ)
many_contents = (1 ∷ 2 ∷ []) ∷ replicate 255 (0 ∷ 0 ∷ []) ++ ((3 ∷ 4 ∷ []) ∷ [])

blocks_lost_example :
    decode_stream copies
      (decoder_for copies 2 1)
      (copy 3 (1 ∷ 2 ∷ []) ∷ copy 3 (3 ∷ 4 ∷ []) ∷ [])
      empty
    ≡ (ok tt, record { queued = (1 ∷ 2 ∷ []) ∷ []; room = none })
blocks_lost_example =
    blocks_lost copies copies-IsLawful 2 1 copies-IsUsable 256 3 3 many_contents
      (reception 3 (1 ∷ 2 ∷ [])) (reception 3 (3 ∷ 4 ∷ []) ∷ []) (omega arith) (omega arith)
      (omega arith) refl
      (reception-IsReception 3 1 2 (omega arith), (reception-IsReception 3 3 4 (omega arith), tt))
      (λ p m. Memᴰ.head (sole p (copy 3 (1 ∷ 2 ∷ [])) m))
