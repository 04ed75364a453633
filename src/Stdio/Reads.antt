-- ===== src/Stdio/Reads.antt =====
-- Single reads: of a file, and of any stream.
use garuda_codec.Base.{
  ℕ, zero, suc, ◌+◌, ◌<◌, ◌≤◌, ◌≡◌, refl, ap, ◌≢◌, arith, inl, inr, ◌⊎◌, Bool-cases, List, [], ◌∷◌,
  ◌++◌, length, take, drop, All, ok, err, length-append, false, length-take, length-drop, leb,
  ne-nil_of_length,
}
use garuda_codec.Io.{ErrorKind, ReadEvent, chunk, fail}
use garuda_codec.Io.Exact.{bytes_of}
use garuda_codec.Stdio.{read}

-- Reads of a file give data.
abbrev pub IsData : ReadEvent → Type 0
IsData (chunk bytes) = bytes ≢ []
IsData (fail kind stop) = ⊥

abbrev pub IsFile : List ReadEvent → Type 0
IsFile = All IsData

-- What a read takes is the beginning of what is left, and nothing only at the end.
pub record IsRead (events : List ReadEvent) (room : ℕ) (bytes : List ℕ) : Type 0 where
  pub got : (read events room).0 ≡ ok bytes
  pub taken : bytes_of events ≡ bytes ++ bytes_of (read events room).1
  pub short : length bytes ≤ room
  pub any : (0 < length bytes) ⊎ ((bytes ≡ []) × (bytes_of events ≡ []))
  pub rest : IsFile (read events room).1

length_of_ne_nil : (bytes : List ℕ) → bytes ≢ [] → 0 < length bytes
length_of_ne_nil [] h = absurd (h refl)
length_of_ne_nil (b ∷ bs) h = omega arith

split_at : (n : ℕ) (bytes more : List ℕ) → bytes ++ more ≡ take n bytes ++ (drop n bytes ++ more)
split_at zero bytes more = refl
split_at (suc n) [] more = refl
split_at (suc n) (b ∷ bs) more = ap (λ (xs : List ℕ). b ∷ xs) (split_at n bs more)

not_all : (bytes : List ℕ) (room : ℕ) → leb (length bytes) room ≡ false → room < length bytes
not_all bytes room e = ground (arith, e)

pub IsRead-IsFile :
    (events : List ReadEvent) (room : ℕ)
    → 0 < room
    → IsFile events
    → (bytes : List ℕ) × IsRead events room bytes
unfolding read
IsRead-IsFile events zero p h = absurd (omega arith)
IsRead-IsFile [] (suc room) p h = (
  [],
  record { got = refl; taken = refl; short = omega arith; any = inr (refl, refl); rest = tt },
)
IsRead-IsFile (chunk bytes ∷ events) (suc room) p h =
    elim (Bool-cases (leb (length bytes) (suc room))) [
      | inl e ↦ (
        bytes,
        record {
          got = rw e refl;
          taken = rw e refl;
          short = ground (arith, e);
          any = inl (length_of_ne_nil bytes h.0);
          rest = rw e h.1;
        },
      )
      | inr e ↦ (
        take (suc room) bytes,
        record {
          got = rw e refl;
          taken = rw e (split_at (suc room) bytes (bytes_of events));
          short = omega (arith, length-take (suc room) bytes);
          any = inl (omega (arith, length-take (suc room) bytes, not_all bytes (suc room) e));
          rest = rw e (
            ne-nil_of_length (drop (suc room) bytes)
                (omega (arith, length-drop (suc room) bytes, not_all bytes (suc room) e)),
            h.1,
          );
        },
      )
    ]
IsRead-IsFile (fail kind stop ∷ events) (suc room) p h = absurd h.0

-- A read takes the bytes that it gives from the stream, or fails.
pub read_cases :
    (events : List ReadEvent) (room : ℕ)
    → ((bytes : List ℕ) × ((read events room).0 ≡ ok bytes)
        × (length bytes + length (bytes_of (read events room).1) ≡ length (bytes_of events)))
      ⊎ ((kind : ErrorKind) × ((read events room).0 ≡ err kind))
unfolding read
read_cases [] zero = inl ([], refl, omega arith)
read_cases (_ ∷ events) zero = inl ([], refl, omega arith)
read_cases [] (suc room) = inl ([], refl, omega arith)
read_cases (chunk bytes ∷ events) (suc room) = elim (Bool-cases (leb (length bytes) (suc room))) [
  | inl e ↦ inl (bytes, rw e refl, rw e (omega (arith, length-append bytes (bytes_of events))))
  | inr e ↦ inl (
    take (suc room) bytes,
    rw e refl,
    rw e (
        omega (
          arith,
          length-append bytes (bytes_of events),
          length-append (drop (suc room) bytes) (bytes_of events),
          length-drop (suc room) bytes,
          length-take (suc room) bytes,
        )),
  )
]
read_cases (fail kind stop ∷ events) (suc room) = inr (kind, refl)
