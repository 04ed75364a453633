-- ===== src/Io.antt =====
-- garuda-codec-core/src/io.rs: reading exactly as many bytes as a block or a packet has.
pub mod Exact
pub mod Prefix
mod Tests
use garuda_codec.Base.{
  ℕ, zero, suc, ◌-◌, leb, ◌==◌, if◌then◌else◌, Bool, true, false, List, [], ◌∷◌, ◌++◌,
}
use garuda_codec.Base.{length, take, drop, Outcome, ok, err}

-- `io::ErrorKind`; `other` stands for the kinds that the program does not name.
pub data ErrorKind : Type 0 where
  interrupted would_block timed_out unexpected_eof not_found invalid_input : ErrorKind
  other : ℕ → ErrorKind

-- What a stream does when it is read. `chunk` is data that is at hand: a read takes what its
-- buffer can hold of it, and an empty chunk is a read of 0 bytes. `fail` is an error of `read`,
-- with the value that `stop_reading` has right after it. Past the last event a read gives 0 bytes.
pub data ReadEvent : Type 0 where
  chunk : List ℕ → ReadEvent
  fail : ErrorKind → Bool → ReadEvent

-- The kinds after which `read_exact` looks at `stop_reading`.
abbrev pub is_retried : ErrorKind → Bool
is_retried interrupted = true
is_retried would_block = true
is_retried timed_out = true
is_retried _ = false

-- The `while` loop. `room` is the length of what is left of `buf`, and `filled` is what stands in
-- front of it. The second result is what the stream still has.
unfoldable pub read_loop : List ReadEvent → ℕ → List ℕ → Outcome ErrorKind (List ℕ) × List ReadEvent
read_loop events zero filled = (ok filled, events)
read_loop [] (suc room) filled = (err unexpected_eof, [])
read_loop (chunk bytes ∷ events) (suc room) filled =
    let n = length bytes in
    let rest = read_loop events (suc room - n) (filled ++ bytes) in
    if n == 0
    then (err unexpected_eof, events)
    else if leb n (suc room)
    then rest
    else (ok (filled ++ take (suc room) bytes), chunk (drop (suc room) bytes) ∷ events)
read_loop (fail kind stop ∷ events) (suc room) filled =
    let rest = read_loop events (suc room) filled in
    if is_retried kind
    then (if stop then (err interrupted, events) else rest)
    else (err kind, events)

-- `read_exact`, for a buffer of the given length; `ok` carries the filled buffer.
unfoldable pub read_exact : List ReadEvent → ℕ → Outcome ErrorKind (List ℕ) × List ReadEvent
unfolding read_loop
read_exact reader buf_len = read_loop reader buf_len []
