-- ===== src/Stdio.antt =====
-- `Read::read` and the `Read::read_exact` of the standard library, on the streams of Io.
pub mod Reads
mod Tests
use garuda_codec.Base.{
  ◌⊎◌, inl, inr, ◌+◌, length-append, Bool-cases, dec_lt, ==_iff, le→leb, lt→leb_false, ne→==_false,
  ℕ, zero, suc, ◌-◌, leb, ◌==◌, if◌then◌else◌, Bool, true, false, ◌≡◌, ◌≢◌, refl, ◌<◌, ◌≤◌, List,
  [], ◌∷◌, ◌++◌, length, take, drop, All, ne-nil_of_length, length-drop, Outcome, ok, err, arith,
}
use garuda_codec.Io.{
  ErrorKind, ReadEvent, chunk, fail, interrupted, unexpected_eof, read_exact, read_loop,
}
use garuda_codec.Io.Exact.{bytes_of, IsQuiet, read_exact_head, read_exact_short}

-- `read`, for a buffer of the given length. A read into an empty buffer gives 0 bytes.
unfoldable pub read : List ReadEvent → ℕ → Outcome ErrorKind (List ℕ) × List ReadEvent
read events zero = (ok [], events)
read [] (suc room) = (ok [], [])
read (chunk bytes ∷ events) (suc room) =
    if leb (length bytes) (suc room)
    then (ok bytes, events)
    else (ok (take (suc room) bytes), chunk (drop (suc room) bytes) ∷ events)
read (fail kind stop ∷ events) (suc room) = (err kind, events)

-- `read_exact`, the provided method: it tries again after `Interrupted`, whatever `stop_reading`.
fill : List ReadEvent → ℕ → List ℕ → Outcome ErrorKind (List ℕ) × List ReadEvent
fill events zero filled = (ok filled, events)
fill [] (suc room) filled = (err unexpected_eof, [])
fill (chunk bytes ∷ events) (suc room) filled =
    let n = length bytes in
    let rest = fill events (suc room - n) (filled ++ bytes) in
    if n == 0
    then (err unexpected_eof, events)
    else if leb n (suc room)
    then rest
    else (ok (filled ++ take (suc room) bytes), chunk (drop (suc room) bytes) ∷ events)
fill (fail interrupted stop ∷ events) (suc room) filled = fill events (suc room) filled
fill (fail kind stop ∷ events) (suc room) filled = (err kind, events)

unfoldable pub read_to_fill : List ReadEvent → ℕ → Outcome ErrorKind (List ℕ) × List ReadEvent
unfolding fill
read_to_fill reader buf_len = fill reader buf_len []

-- Data, or a read that was interrupted.
abbrev pub IsSteadyEvent : ReadEvent → Type 0
IsSteadyEvent (chunk bytes) = bytes ≢ []
IsSteadyEvent (fail kind stop) = (kind ≡ interrupted) × (stop ≡ false)

abbrev pub IsSteady : List ReadEvent → Type 0
IsSteady = All IsSteadyEvent

IsSteady-IsQuiet : (events : List ReadEvent) → IsSteady events → IsQuiet events
IsSteady-IsQuiet [] h = tt
IsSteady-IsQuiet (chunk bytes ∷ events) h = (h.0, IsSteady-IsQuiet events h.1)
IsSteady-IsQuiet (fail kind stop ∷ events) h = ((rw h.0.0 refl, h.0.1), IsSteady-IsQuiet events h.1)

-- On such a stream it does what the `read_exact` of io.rs does.
fill-eq-read_loop :
    (events : List ReadEvent) (room : ℕ) (filled : List ℕ)
    → IsSteady events
    → fill events room filled ≡ read_loop events room filled
unfolding fill read_loop
fill-eq-read_loop [] zero filled h = refl
fill-eq-read_loop (_ ∷ events) zero filled h = refl
fill-eq-read_loop [] (suc room) filled h = refl
fill-eq-read_loop (chunk bytes ∷ events) (suc room) filled h =
    ground (arith, fill-eq-read_loop events (suc room - length bytes) (filled ++ bytes) h.1)
fill-eq-read_loop (fail interrupted stop ∷ events) (suc room) filled h =
    ground (arith, fill-eq-read_loop events (suc room) filled h.1)
fill-eq-read_loop (fail kind stop ∷ events) (suc room) filled h = cc

fill-IsSteady :
    (events : List ReadEvent) (room : ℕ) (filled : List ℕ)
    → IsSteady events
    → IsSteady (fill events room filled).1
unfolding fill
fill-IsSteady [] zero filled h = tt
fill-IsSteady (_ ∷ events) zero filled h = h
fill-IsSteady [] (suc room) filled h = tt
fill-IsSteady (chunk bytes ∷ events) (suc room) filled h = ground (
  arith,
  fill-IsSteady events (suc room - length bytes) (filled ++ bytes) h.1,
  ne-nil_of_length (drop (suc room) bytes),
  length-drop (suc room) bytes,
)
fill-IsSteady (fail interrupted stop ∷ events) (suc room) filled h =
    fill-IsSteady events (suc room) filled h.1
fill-IsSteady (fail kind stop ∷ events) (suc room) filled h = h.1

read_to_fill-eq-read_exact :
    (events : List ReadEvent) (n : ℕ)
    → IsSteady events
    → read_to_fill events n ≡ read_exact events n
unfolding read_to_fill read_exact
read_to_fill-eq-read_exact events n h = fill-eq-read_loop events n [] h

-- The first bytes of the stream, however they are cut into chunks.
pub read_to_fill_head :
    (events : List ReadEvent) (head more : List ℕ) (n : ℕ)
    → IsSteady events
    → bytes_of events ≡ head ++ more
    → length head ≡ n
    → ((read_to_fill events n).0 ≡ ok head)
      × (bytes_of (read_to_fill events n).1 ≡ more)
      × IsSteady (read_to_fill events n).1
unfolding read_to_fill
read_to_fill_head events head more n h e len =
    let same = read_to_fill-eq-read_exact events n h in
    let (got, rest, quiet) = read_exact_head events head more n (IsSteady-IsQuiet events h) e len in
    (rw (← same) at got, rw (← same) at rest, fill-IsSteady events n [] h)

-- A stream that is too short ends in `UnexpectedEof`.
pub read_to_fill_short :
    (events : List ReadEvent) (n : ℕ)
    → IsSteady events
    → length (bytes_of events) < n
    → (read_to_fill events n).0 ≡ err unexpected_eof
read_to_fill_short events n h k =
    rw (read_to_fill-eq-read_exact events n h)
      (read_exact_short events n (IsSteady-IsQuiet events h) k)

fill_used :
    (events : List ReadEvent) (room : ℕ) (filled bytes : List ℕ)
    → (fill events room filled).0 ≡ ok bytes
    → length (bytes_of (fill events room filled).1) + room ≡ length (bytes_of events)
unfolding fill
fill_used [] zero filled bytes e = omega arith
fill_used (_ ∷ events) zero filled bytes e = omega arith
fill_used [] (suc room) filled bytes e = cc
fill_used (chunk bs ∷ events) (suc room) filled bytes e = ground (
  arith,
  fill_used events (suc room - length bs) (filled ++ bs) bytes,
  length-append bs (bytes_of events),
  length-append (drop (suc room) bs) (bytes_of events),
  length-drop (suc room) bs,
)
fill_used (fail interrupted stop ∷ events) (suc room) filled bytes e =
    fill_used events (suc room) filled bytes e
fill_used (fail kind stop ∷ events) (suc room) filled bytes e = cc

fill_cases :
    (events : List ReadEvent) (room : ℕ) (filled : List ℕ)
    → ((bytes : List ℕ) × ((fill events room filled).0 ≡ ok bytes))
      ⊎ ((kind : ErrorKind) × ((fill events room filled).0 ≡ err kind))
unfolding fill
fill_cases [] zero filled = inl (filled, refl)
fill_cases (_ ∷ events) zero filled = inl (filled, refl)
fill_cases [] (suc room) filled = inr (unexpected_eof, refl)
fill_cases (chunk bs ∷ events) (suc room) filled = elim (Bool-cases (length bs == 0)) [
  | inl e ↦ rw e (inr (unexpected_eof, refl))
  | inr e ↦ elim (Bool-cases (leb (length bs) (suc room))) [
    | inl f ↦ rw (e, f) (fill_cases events (suc room - length bs) (filled ++ bs))
    | inr f ↦ rw (e, f) (inl (filled ++ take (suc room) bs, refl))
  ]
]
fill_cases (fail interrupted stop ∷ events) (suc room) filled = fill_cases events (suc room) filled
fill_cases (fail kind stop ∷ events) (suc room) filled = inr (kind, refl)

-- A buffer that is filled was taken from the stream.
pub read_to_fill_used :
    (events : List ReadEvent) (n : ℕ) (bytes : List ℕ)
    → (read_to_fill events n).0 ≡ ok bytes
    → length (bytes_of (read_to_fill events n).1) + n ≡ length (bytes_of events)
unfolding read_to_fill
read_to_fill_used events n bytes e = fill_used events n [] bytes e

-- It ends.
pub read_to_fill_cases :
    (events : List ReadEvent) (n : ℕ)
    → ((bytes : List ℕ) × ((read_to_fill events n).0 ≡ ok bytes))
      ⊎ ((kind : ErrorKind) × ((read_to_fill events n).0 ≡ err kind))
unfolding read_to_fill
read_to_fill_cases events n = fill_cases events n []
