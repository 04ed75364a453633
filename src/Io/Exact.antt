-- ===== src/Io/Exact.antt =====
-- `read_exact` against the bytes of the stream, however they are cut into chunks.
use mathlib.Core.Path.{ap₂}
use garuda_codec.Base.{
  ℕ, zero, suc, ◌+◌, ◌-◌, ◌≤◌, ◌<◌, ◌≡◌, refl, ◌≢◌, ap, sym, ◌∙◌, arith, Bool, true, false,
}
use garuda_codec.Base.{
  ◌⊎◌, inl, inr, Bool-cases, List, [], ◌∷◌, ◌++◌, length, take, drop, All, ok, err, leb, ◌==◌,
  if◌then◌else◌,
}
use garuda_codec.Base.{
  append_assoc, append-nil, length-append, take-append-drop, length-drop, length-take, length-pos,
  ne-nil_of_length, take-append_left, take-append_right, drop-append_left, drop-append_right,
  take-append, drop-append,
}
use garuda_codec.Io.{ErrorKind, ReadEvent, chunk, fail, is_retried, interrupted, unexpected_eof}
use garuda_codec.Io.{read_loop, read_exact}

-- All bytes that the stream delivers.
abbrev pub bytes_of : List ReadEvent → List ℕ
bytes_of [] = []
bytes_of (chunk bytes ∷ events) = bytes ++ bytes_of events
bytes_of (fail kind stop ∷ events) = bytes_of events

-- Nothing ends the reading early: data, or an error that is retried while nobody asks to stop.
abbrev pub IsQuietEvent : ReadEvent → Type 0
IsQuietEvent (chunk bytes) = bytes ≢ []
IsQuietEvent (fail kind stop) = (is_retried kind ≡ true) × (stop ≡ false)

abbrev pub IsQuiet : List ReadEvent → Type 0
IsQuiet = All IsQuietEvent

read_loop_ok :
    (events : List ReadEvent) (room : ℕ) (filled bytes : List ℕ) (rest : List ReadEvent)
    → read_loop events room filled ≡ (ok bytes, rest)
    → (length bytes ≡ length filled + room) × (bytes ++ bytes_of rest ≡ filled ++ bytes_of events)
unfolding read_loop
read_loop_ok [] zero filled bytes rest e = ground (arith, append-nil filled)
read_loop_ok (_ ∷ events) zero filled bytes rest e = ground (arith, append-nil filled)
read_loop_ok [] (suc room) filled bytes rest e = cc
read_loop_ok (chunk bs ∷ events) (suc room) filled bytes rest e = ground (
  arith,
  read_loop_ok events (suc room - length bs) (filled ++ bs) bytes rest,
  append_assoc filled bs (bytes_of events),
  length-append filled bs,
  length-append filled (take (suc room) bs),
  length-take (suc room) bs,
  append_assoc filled (take (suc room) bs) (drop (suc room) bs ++ bytes_of events),
  append_assoc (take (suc room) bs) (drop (suc room) bs) (bytes_of events),
  take-append-drop (suc room) bs,
)
read_loop_ok (fail kind stop ∷ events) (suc room) filled bytes rest e =
    ground (arith, read_loop_ok events (suc room) filled bytes rest)

-- A chunk that is longer than the room: what is taken and what stays.
module _ (bs : List ℕ) (events : List ReadEvent) (room : ℕ) where
  cut_chunk :
      room < length bs
      → (take room (bs ++ bytes_of events) ≡ take room bs)
        × (drop room (bs ++ bytes_of events) ≡ drop room bs ++ bytes_of events)
        × (drop room bs ≢ [])
  cut_chunk h = (
    take-append_left bs (bytes_of events) room (omega arith),
    drop-append_left bs (bytes_of events) room (omega arith),
    ne-nil_of_length (drop room bs) (omega (arith, length-drop room bs)),
  )

  whole_chunk :
      length bs ≤ room
      → (take room (bs ++ bytes_of events) ≡ bs ++ take (room - length bs) (bytes_of events))
        × (drop room (bs ++ bytes_of events) ≡ drop (room - length bs) (bytes_of events))
  whole_chunk h = (
    take-append_right bs (bytes_of events) room (room - length bs) (omega arith),
    drop-append_right bs (bytes_of events) room (room - length bs) (omega arith),
  )

read_loop-IsQuiet :
    (events : List ReadEvent) (room : ℕ) (filled : List ℕ)
    → IsQuiet events
    → room ≤ length (bytes_of events)
    → let (result, rest) = read_loop events room filled in
      (result ≡ ok (filled ++ take room (bytes_of events)))
      × (bytes_of rest ≡ drop room (bytes_of events))
      × IsQuiet rest
unfolding read_loop
read_loop-IsQuiet [] zero filled q h = (ap ok (sym (append-nil filled)), refl, tt)
read_loop-IsQuiet (_ ∷ events) zero filled q h = (ap ok (sym (append-nil filled)), refl, q)
read_loop-IsQuiet [] (suc room) filled q h = absurd (omega arith)
read_loop-IsQuiet (chunk bs ∷ events) (suc room) filled q h = ground (
  arith,
  length-pos bs q.0,
  cut_chunk bs events (suc room),
  whole_chunk bs events (suc room),
  length-append bs (bytes_of events),
  append_assoc filled bs (take (suc room - length bs) (bytes_of events)),
  read_loop-IsQuiet events (suc room - length bs) (filled ++ bs) q.1,
)
read_loop-IsQuiet (fail kind stop ∷ events) (suc room) filled q h =
    ground (arith, read_loop-IsQuiet events (suc room) filled q.1)

read_loop_short :
    (events : List ReadEvent) (room : ℕ) (filled : List ℕ)
    → IsQuiet events
    → length (bytes_of events) < room
    → (read_loop events room filled).0 ≡ err unexpected_eof
unfolding read_loop
read_loop_short events zero filled q h = absurd (omega arith)
read_loop_short [] (suc room) filled q h = refl
read_loop_short (chunk bs ∷ events) (suc room) filled q h = ground (
  arith,
  length-append bs (bytes_of events),
  read_loop_short events (suc room - length bs) (filled ++ bs) q.1,
)
read_loop_short (fail kind stop ∷ events) (suc room) filled q h =
    ground (arith, read_loop_short events (suc room) filled q.1)

-- An error that ends the reading.
abbrev pub Ends : ErrorKind → Bool → Type 0
Ends kind stop = (is_retried kind ≡ false) ⊎ (stop ≡ true)

read_loop_fail :
    (events after : List ReadEvent) (kind : ErrorKind) (stop : Bool) (room : ℕ) (filled : List ℕ)
    → IsQuiet events
    → Ends kind stop
    → length (bytes_of events) < room
    → read_loop (events ++ (fail kind stop ∷ after)) room filled
      ≡ (err (if is_retried kind then interrupted else kind), after)
unfolding read_loop
read_loop_fail events after kind stop zero filled q ends h = absurd (omega arith)
read_loop_fail [] after kind stop (suc room) filled q ends h = ground arith
read_loop_fail (chunk bs ∷ events) after kind stop (suc room) filled q ends h = ground (
  arith,
  length-pos bs q.0,
  length-append bs (bytes_of events),
  read_loop_fail events after kind stop (suc room - length bs) (filled ++ bs) q.1 ends,
)
read_loop_fail (fail k s ∷ events) after kind stop (suc room) filled q ends h =
    ground (arith, read_loop_fail events after kind stop (suc room) filled q.1 ends)

-- Whatever the stream does, a successful `read_exact` returns `n` bytes, and these with the bytes
-- still to come are the bytes of the stream: none is lost, repeated or moved.
pub read_exact_ok :
    (events rest : List ReadEvent) (n : ℕ) (bytes : List ℕ)
    → read_exact events n ≡ (ok bytes, rest)
    → (length bytes ≡ n) × (bytes ++ bytes_of rest ≡ bytes_of events)
unfolding read_exact
read_exact_ok events rest n bytes e =
    let (len, all) = read_loop_ok events n [] bytes rest e in (omega arith, all)

-- On a quiet stream that holds `n` bytes, in chunks of any sizes and with any errors that are
-- retried between them, it returns the first `n` bytes, and leaves a quiet stream of the others.
pub read_exact-IsQuiet :
    (events : List ReadEvent) (n : ℕ)
    → IsQuiet events
    → n ≤ length (bytes_of events)
    → ((read_exact events n).0 ≡ ok (take n (bytes_of events)))
      × (bytes_of (read_exact events n).1 ≡ drop n (bytes_of events))
      × IsQuiet (read_exact events n).1
unfolding read_exact
read_exact-IsQuiet events n q h = read_loop-IsQuiet events n [] q h

-- A quiet stream that ends before it gave `n` bytes is reported as `UnexpectedEof`.
pub read_exact_short :
    (events : List ReadEvent) (n : ℕ)
    → IsQuiet events
    → length (bytes_of events) < n
    → (read_exact events n).0 ≡ err unexpected_eof
unfolding read_exact
read_exact_short events n q h = read_loop_short events n [] q h

-- If after quiet events that gave fewer than `n` bytes there comes an error that is not retried, or
-- one that is while `stop_reading` is set, `read_exact` returns it, as `Interrupted` in the second
-- case, and reads no further.
pub read_exact_fail :
    (events after : List ReadEvent) (kind : ErrorKind) (stop : Bool) (n : ℕ)
    → IsQuiet events
    → length (bytes_of events) < n
    → Ends kind stop
    → read_exact (events ++ (fail kind stop ∷ after)) n
      ≡ (err (if is_retried kind then interrupted else kind), after)
unfolding read_exact
read_exact_fail events after kind stop n q h ends =
    read_loop_fail events after kind stop n [] q ends h

-- The same for a stream that is known to begin with `head`.
pub read_exact_head :
    (events : List ReadEvent) (head more : List ℕ) (n : ℕ)
    → IsQuiet events
    → bytes_of events ≡ head ++ more
    → length head ≡ n
    → ((read_exact events n).0 ≡ ok head)
      × (bytes_of (read_exact events n).1 ≡ more)
      × IsQuiet (read_exact events n).1
read_exact_head events head more n q e len =
    let fits : n ≤ length (bytes_of events) = rw e (omega (arith, length-append head more)) in
    let (got, rest, quiet) = read_exact-IsQuiet events n q fits in
    let front : take n (bytes_of events) ≡ head = rw (e, ← len) (take-append head more) in
    let back : drop n (bytes_of events) ≡ more = rw (e, ← len) (drop-append head more) in
    (got ∙ ap ok front, rest ∙ back, quiet)

read_loop_cases :
    (events : List ReadEvent) (room : ℕ) (filled : List ℕ)
    → ((bytes : List ℕ) × ((read_loop events room filled).0 ≡ ok bytes))
      ⊎ ((kind : ErrorKind) × ((read_loop events room filled).0 ≡ err kind))
unfolding read_loop
read_loop_cases [] zero filled = inl (filled, refl)
read_loop_cases (_ ∷ events) zero filled = inl (filled, refl)
read_loop_cases [] (suc room) filled = inr (unexpected_eof, refl)
read_loop_cases (chunk bs ∷ events) (suc room) filled = elim (Bool-cases (length bs == 0)) [
  | inl e ↦ inr (unexpected_eof, rw e)
  | inr e ↦ elim (Bool-cases (leb (length bs) (suc room))) [
    | inl f ↦ rw (e, f) (read_loop_cases events (suc room - length bs) (filled ++ bs))
    | inr f ↦ inl (filled ++ take (suc room) bs, rw (e, f))
  ]
]
read_loop_cases (fail kind true ∷ events) (suc room) filled = elim (Bool-cases (is_retried kind)) [
  | inl e ↦ inr (interrupted, rw e)
  | inr e ↦ inr (kind, rw e)
]
read_loop_cases (fail kind false ∷ events) (suc room) filled = elim (Bool-cases (is_retried kind)) [
  | inl e ↦ rw e (read_loop_cases events (suc room) filled)
  | inr e ↦ inr (kind, rw e)
]

-- `read_exact` always returns: bytes, or an error.
pub read_exact_cases :
    (events : List ReadEvent) (n : ℕ)
    → ((bytes : List ℕ) × ((read_exact events n).0 ≡ ok bytes))
      ⊎ ((kind : ErrorKind) × ((read_exact events n).0 ≡ err kind))
unfolding read_exact
read_exact_cases events n = read_loop_cases events n []

-- A successful read of at least one byte leaves less of the stream.
pub read_exact_shorter :
    (input : List ReadEvent) (b fuel : ℕ) (bytes : List ℕ)
    → 0 < b
    → length (bytes_of input) < suc fuel
    → (read_exact input b).0 ≡ ok bytes
    → length (bytes_of (read_exact input b).1) < fuel
read_exact_shorter input b fuel bytes p h e =
    let (len, all) =
      read_exact_ok input (read_exact input b).1 b bytes (ap₂ (λ r s. (r, s)) e refl) in
    omega (arith, len, ap length all, length-append bytes (bytes_of (read_exact input b).1))
