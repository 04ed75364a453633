-- ===== src/Transfer/EndToEnd/Tests.antt =====
-- The sample file through two encoders and two decoders, which all overtake one another.
use garuda_codec.BlockEncoder.{Block}
use garuda_codec.Transfer.Sample.{sum_of}
use garuda_codec.Base.{
  ℕ, suc, zero, ◌<◌, ◌≡◌, ◌≢◌, refl, arith, inl, List, [], ◌∷◌, some, err, All, map, if◌then◌else◌,
  ◌==◌, ne→==_false, sym, ◌∙◌, get_elem?, replicate,
}
use garuda_codec.BlockDecoder.Recovery.{Reception, IsReception, HasSource}
use garuda_codec.Files.{join}
use garuda_codec.Header.RoundTrip.{received_name}
use garuda_codec.Header.Sample.{single}
use garuda_codec.Io.{ReadEvent, chunk, fail, interrupted, unexpected_eof, not_found}
use garuda_codec.Merge.{Merge, done, next}
use garuda_codec.Pipeline.Lossless.{IsTransmission, decoded_by, queued, lossless}
use garuda_codec.Pipeline.{empty}
use garuda_codec.BlockDispatcher as BlockDispatcher
use garuda_codec.BlockDispatcher.Routing.{at_id}
use garuda_codec.RaptorQ.Sample.{copies, copies-IsLawful, Copy}
use garuda_codec.Transfer.{process_stream}
use garuda_codec.Transfer.EndToEnd.{file_arrives}
use garuda_codec.Transfer.Sample.{
  file, first, second, sent, file_path, events, file-IsSendable, sent_lem, empty_disk, sizes,
}
use garuda_codec.BlockDecoder.Recovery.{delivered}
use garuda_codec.BlockDispatcher.Routing.{block_id, numbered}
use garuda_codec.Dispatch.Routes.{picked}
use garuda_codec.Pipeline.Recovering.{threads_recover}
use garuda_codec.Transfer.EndToEnd.Threaded.Receiving.{receiver, receiver_reached, receiver-IsFinal}
use garuda_codec.Transfer.EndToEnd.Sample.{
  IsUsable_294, input, wire_input, input_bytes, stream, stream_bytes,
}
use mathlib.Core.List.{Memᴰ}

abbrev copy : ℕ → List ℕ → Copy
copy id symbol = record { block = id; symbol = symbol }

abbrev reception : ℕ → List ℕ → Reception copies
reception id content = record {
  block = record { id = id; content = content };
  packets = copy id content ∷ [];
}

abbrev arrivals : ℕ → List (Reception copies)
arrivals zero = reception 0 first ∷ []
arrivals (suc zero) = reception 1 second ∷ []
arrivals (suc (suc q)) = []

abbrev zs : List Copy
zs = copy 1 second ∷ copy 0 first ∷ []

returned_0 : decoded_by copies copies-IsLawful 294 1 IsUsable_294 2 0 wire_input ≡ first ∷ []
unfolding garuda_codec.BlockDecoder.decode_stream garuda_codec.PacketDispatcher.dispatch
    garuda_codec.Io.read_exact garuda_codec.Header.BigEndian.to_be_bytes garuda_codec.Utf8.encode
    garuda_codec.Header.without_whitespace garuda_codec.Header.is_whitespace
    garuda_codec.Dispatch.dispatch_to garuda_codec.BlockDecoder.decode
returned_0 = refl

returned_1 : decoded_by copies copies-IsLawful 294 1 IsUsable_294 2 1 wire_input ≡ second ∷ []
unfolding garuda_codec.BlockDecoder.decode_stream garuda_codec.PacketDispatcher.dispatch
    garuda_codec.Io.read_exact garuda_codec.Header.BigEndian.to_be_bytes garuda_codec.Utf8.encode
    garuda_codec.Header.without_whitespace garuda_codec.Header.is_whitespace
    garuda_codec.Dispatch.dispatch_to garuda_codec.BlockDecoder.decode
returned_1 = refl

dispatched :
    (q : ℕ)
    → q < 2
    → queued (get_elem? (BlockDispatcher.dispatch (at_id 294 0) input (replicate 2 empty)).queues q)
      ≡ map (λ r. r.block) (arrivals q)
unfolding garuda_codec.BlockDispatcher.dispatch garuda_codec.Io.read_exact
    garuda_codec.Header.BigEndian.to_be_bytes garuda_codec.Utf8.encode
    garuda_codec.Header.without_whitespace garuda_codec.Header.is_whitespace
    garuda_codec.Dispatch.dispatch_to
dispatched zero h = refl
dispatched (suc zero) h = refl
dispatched (suc (suc q)) h = absurd (omega arith)

receptions : (q : ℕ) → q < 2 → All (IsReception copies 294 1) (arrivals q)
receptions zero h = (
  record {
    id_fits = omega arith;
    sized = sizes.0;
    some_packet = λ e. cc;
    of_block = (inl (Memᴰ.head refl), tt);
  },
  tt,
)
receptions (suc zero) h = (
  record {
    id_fits = omega arith;
    sized = sizes.1;
    some_packet = λ e. cc;
    of_block = (inl (Memᴰ.head refl), tt);
  },
  tt,
)
receptions (suc (suc q)) h = absurd (omega arith)

sources : (q : ℕ) → q < 2 → All (HasSource copies copies-IsLawful 294 1 IsUsable_294) (arrivals q)
sources zero h = ((λ p m. m), tt)
sources (suc zero) h = ((λ p m. m), tt)
sources (suc (suc q)) h = absurd (omega arith)

-- The streams once `x` was taken from the front of stream `q`.
abbrev after {ℓ} : {A : Type ℓ} → ℕ → List A → (ℕ → List A) → ℕ → List A
after q rest streams j = if j == q then rest else streams j

after_same {ℓ} :
    {A : Type ℓ} (q : ℕ) (rest : List A) (streams : ℕ → List A) (j : ℕ)
    → j ≢ q
    → streams j ≡ after q rest streams j
after_same q rest streams j h = rw (ne→==_false j q h) refl

two_streams :
    {A : Type 0} (streams : ℕ → List A) (x y : A)
    → streams 0 ≡ x ∷ []
    → streams 1 ≡ y ∷ []
    → Merge 2 streams (y ∷ x ∷ [])
two_streams streams x y e f =
    next {later = after 1 [] streams} 1 y (omega arith) f (after_same 1 [] streams) (
      next {later = after 0 [] (after 1 [] streams)} 0 x (omega arith) e
        (after_same 0 [] (after 1 [] streams)) (done none_left))
  where
    none_left : (q : ℕ) → q < 2 → after 0 [] (after 1 [] streams) q ≡ []
    none_left zero h = refl
    none_left (suc zero) h = refl
    none_left (suc (suc q)) h = absurd (omega arith)

sample-IsTransmission :
    IsTransmission copies copies-IsLawful 294 1 IsUsable_294 2 0 input wire_input arrivals zs []
      (second ∷ first ∷ [])
unfolding garuda_codec.Header.BigEndian.to_be_bytes garuda_codec.Utf8.encode
    garuda_codec.Header.without_whitespace garuda_codec.Header.is_whitespace
sample-IsTransmission = record {
  some_worker = omega arith;
  few_workers = omega arith;
  id_fits = omega arith;
  quiet = ((λ e. cc), tt);
  blocks = dispatched;
  receptions = receptions;
  sources = sources;
  merged = two_streams _ (copy 0 first) (copy 1 second) refl refl;
  wire_quiet = ((λ e. cc), tt);
  wire_bytes = refl;
  short_tail = omega arith;
  returned = two_streams _ first second returned_0 returned_1;
}

lossless_example :
    All (λ content. Memᴰ content sent) (second ∷ first ∷ [])
    × ((content : List ℕ) → Memᴰ content sent → Memᴰ content (second ∷ first ∷ []))
    × Merge 2
        (λ q. map (λ (x : Block). x.content) (picked block_id 2 q (numbered 0 sent)))
        (second ∷ first ∷ [])
lossless_example =
    lossless copies copies-IsLawful 294 1 IsUsable_294 2 0 sent input wire_input arrivals zs []
      (second ∷ first ∷ []) (omega arith) input_bytes (sizes.0, (sizes.1, tt)) sample-IsTransmission

file_arrives_example :
    ((process_stream single (111 ∷ []) stream 294 empty_disk).0 ≡ err unexpected_eof)
    × ((process_stream single (111 ∷ []) stream 294 empty_disk).1.contents
          (sum_of (join (111 ∷ []) (received_name (97 ∷ []) 1)))
        ≡ some (1 ∷ 2 ∷ 3 ∷ []))
file_arrives_example =
    file_arrives single copies copies-IsLawful 294 1 IsUsable_294 file 1 file_path (111 ∷ []) events
      not_found sent 2 0 input wire_input arrivals zs [] (second ∷ first ∷ []) stream empty_disk
      file-IsSendable sent_lem (sizes.0, (sizes.1, tt)) (input_bytes ∙ sym sent_lem)
      sample-IsTransmission stream_bytes ((λ e. cc), ((λ e. cc), tt))
      (λ offset payload h contents. (refl, refl, refl)) (omega arith)

arrival_blocks :
    (q : ℕ) → q < 2 → map (λ r. r.block) (arrivals q) ≡ picked block_id 2 q (numbered 0 sent)
arrival_blocks zero h = refl
arrival_blocks (suc zero) h = refl
arrival_blocks (suc (suc q)) h = absurd (omega arith)

threads_recover_example : Merge 2 (λ q. delivered copies 294 1 (arrivals q)) (second ∷ first ∷ [])
threads_recover_example =
    threads_recover copies copies-IsLawful 294 1 IsUsable_294 2 0 sent arrivals zs receiver
      (omega arith) (omega arith) (omega arith)
      (record { blocks = arrival_blocks; receptions = receptions })
      (two_streams _ (copy 0 first) (copy 1 second) refl refl) receiver_reached receiver-IsFinal
      refl refl
