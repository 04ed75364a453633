-- ===== src/Merge/Growing.antt =====
-- A merged queue grows at its end when one of the streams does.
use garuda_codec.Base.{ℕ, ◌<◌, ◌≡◌, sym, ap, ◌∙◌, List, [], ◌∷◌, ◌++◌, ℕ_discrete}
use garuda_codec.Merge.{Merge, done, next}
use garuda_codec.Workers.{update, update_same, update_other}

module _ {A : Type 0} (n : ℕ) where
  -- `Merge` looks at the streams below `n` only.
  pub Merge-cong :
      {streams others : ℕ → List A} {zs : List A}
      → Merge n streams zs
      → ((q : ℕ) → q < n → streams q ≡ others q)
      → Merge n others zs
  Merge-cong (done empty) same = done (λ q h. sym (same q h) ∙ empty q h)
  Merge-cong {others = others} (next {streams = streams} {later = later} q x h e rest r) same =
      next {later = update q (later q) others} q x h
        (sym (same q h) ∙ e ∙ ap (λ (t : List A). x ∷ t) (sym (update_same q (later q) others)))
        (λ j i. sym (update_other q j (later q) others i))
        (Merge-cong r (λ j k. elim (ℕ_discrete j q) [
          | yes f ↦ rw (f, update_same q (later q) others)
          | no f ↦ sym (rest j f) ∙ same j k ∙ sym (update_other q j (later q) others f)
        ]))

  -- The stream `q` gets another element, and the merged queue gets it too.
  pub Merge-snoc :
      {streams : ℕ → List A} {zs : List A} (q : ℕ) (y : A)
      → q < n
      → Merge n streams zs
      → Merge n (update q (streams q ++ (y ∷ [])) streams) (zs ++ (y ∷ []))
  Merge-snoc {streams = streams} q y h (done empty) =
      next {later = update q [] streams} q y h
        (update_same q (streams q ++ (y ∷ [])) streams
          ∙ ap (λ t. t ++ (y ∷ [])) (empty q h)
          ∙ ap (λ (t : List A). y ∷ t) (sym (update_same q [] streams)))
        (λ j i.
          update_other q j (streams q ++ (y ∷ [])) streams i ∙ sym (update_other q j [] streams i))
        (done {streams = update q [] streams} (λ j k. elim (ℕ_discrete j q) [
          | yes f ↦ rw (f, update_same q [] streams)
          | no f ↦ update_other q j [] streams f ∙ empty j k
        ]))
  Merge-snoc q y h (next {streams = streams} {later = later} p x k e rest r) =
      let grown = update q (later q ++ (y ∷ [])) later in
      next {streams = update q (streams q ++ (y ∷ [])) streams} {later = grown} p x k
        (elim (ℕ_discrete p q) [
          | yes f ↦
              rw
                (
                  f,
                  update_same q (streams q ++ (y ∷ [])) streams,
                  update_same q (later q ++ (y ∷ [])) later,
                )
                (ap (λ t. t ++ (y ∷ [])) (rw f at e))
          | no f ↦
              update_other q p (streams q ++ (y ∷ [])) streams f
              ∙ e
              ∙ ap (λ (t : List A). x ∷ t) (sym (update_other q p (later q ++ (y ∷ [])) later f))
        ])
        (λ j i. elim (ℕ_discrete j q) [
          | yes f ↦
              rw
                (
                  f,
                  update_same q (streams q ++ (y ∷ [])) streams,
                  update_same q (later q ++ (y ∷ [])) later,
                )
                (ap (λ t. t ++ (y ∷ [])) (rw f at (rest j i)))
          | no f ↦
              update_other q j (streams q ++ (y ∷ [])) streams f
              ∙ rest j i
              ∙ sym (update_other q j (later q ++ (y ∷ [])) later f)
        ])
        (Merge-snoc q y h r)
