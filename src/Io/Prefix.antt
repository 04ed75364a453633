-- ===== src/Io/Prefix.antt =====
-- `read_exact` on a stream that begins with quiet events: what comes behind them is not looked at.
use garuda_codec.Base.{
  ℕ, zero, suc, ◌-◌, ◌≤◌, ◌≡◌, refl, ap, sym, ◌∙◌, arith, List, [], ◌∷◌, ◌++◌, length, ok,
  append_assoc, length-append, length-pos,
}
use garuda_codec.Io.{ReadEvent, chunk, fail, read_loop, read_exact}
use garuda_codec.Io.Exact.{bytes_of, IsQuiet, read_exact_head}

pub bytes_of-append : (xs ys : List ReadEvent) → bytes_of (xs ++ ys) ≡ bytes_of xs ++ bytes_of ys
bytes_of-append [] ys = refl
bytes_of-append (chunk bs ∷ xs) ys =
    ap (λ t. bs ++ t) (bytes_of-append xs ys) ∙ sym (append_assoc bs (bytes_of xs) (bytes_of ys))
bytes_of-append (fail kind stop ∷ xs) ys = bytes_of-append xs ys

read_loop_prefix :
    (events after : List ReadEvent) (room : ℕ) (filled : List ℕ)
    → IsQuiet events
    → room ≤ length (bytes_of events)
    → read_loop (events ++ after) room filled
      ≡ ((read_loop events room filled).0, (read_loop events room filled).1 ++ after)
unfolding read_loop
read_loop_prefix [] [] zero filled q h = refl
read_loop_prefix [] (x ∷ after) zero filled q h = refl
read_loop_prefix (x ∷ events) after zero filled q h = refl
read_loop_prefix [] after (suc room) filled q h = absurd (omega arith)
read_loop_prefix (chunk bs ∷ events) after (suc room) filled q h = ground (
  arith,
  length-pos bs q.0,
  length-append bs (bytes_of events),
  read_loop_prefix events after (suc room - length bs) (filled ++ bs) q.1,
)
read_loop_prefix (fail kind stop ∷ events) after (suc room) filled q h =
    ground (arith, read_loop_prefix events after (suc room) filled q.1)

-- A quiet stream that begins with `head`, and anything behind it.
pub read_exact_prefix :
    (events after : List ReadEvent) (head more : List ℕ) (n : ℕ)
    → IsQuiet events
    → bytes_of events ≡ head ++ more
    → length head ≡ n
    → (rest : List ReadEvent) × (read_exact (events ++ after) n ≡ (ok head, rest ++ after))
      × (bytes_of rest ≡ more)
      × IsQuiet rest
unfolding read_exact
read_exact_prefix events after head more n q e len =
    let (got, rest, quiet) = read_exact_head events head more n q e len in
    let fits : n ≤ length (bytes_of events) = rw e (omega (arith, length-append head more)) in
    (
      (read_exact events n).1,
      read_loop_prefix events after n [] q fits
          ∙ ap (λ r. (r, (read_exact events n).1 ++ after)) got,
      rest,
      quiet,
    )
