-- ===== src/Stdin/Ring.antt =====
-- The characters in the ring buffer of dev_stdin.c.
use os_experiment.Prelude.{
  ℕ, zero, suc, ◌+◌, ◌-◌, ◌%◌, ◌≡◌, ◌≤◌, ◌<◌, ◌≢◌, refl, List, [], ◌∷◌, ◌++◌, ltb, take, drop,
  update, arith, Bool-cases, inl, inr, ap,
}
use os_experiment.Stdin.{Stdin, stdin_bufsize, read_available}

-- `n` characters from the position `pos` on.
abbrev pub chars_from : (ℕ → ℕ) → ℕ → ℕ → List ℕ
chars_from buffer pos zero = []
chars_from buffer pos (suc n) = buffer (pos % stdin_bufsize) ∷ chars_from buffer (pos + 1) n

-- What is not read yet.
abbrev pub unread : Stdin → List ℕ
unread t = chars_from t.stdin_buffer t.p_rpos (t.p_wpos - t.p_rpos)

-- The unread characters fit into the buffer.
pub record IsRing (t : Stdin) : Type 0 where
  pub ordered : t.p_rpos ≤ t.p_wpos
  pub fits : t.p_wpos - t.p_rpos ≤ stdin_bufsize

-- A store that the characters do not reach.
chars_from-same :
    (buffer : ℕ → ℕ) (pos n w c : ℕ)
    → pos + n ≤ w
    → w < pos + stdin_bufsize
    → chars_from (update buffer (w % stdin_bufsize) c) pos n ≡ chars_from buffer pos n
chars_from-same buffer pos zero w c low high = refl
chars_from-same buffer pos (suc n) w c low high =
    let other : pos % stdin_bufsize ≢ w % stdin_bufsize = omega arith in
    ground (arith, chars_from-same buffer (pos + 1) n w c (omega arith) (omega arith))

-- A store right behind them.
pub chars_from-append :
    (buffer : ℕ → ℕ) (pos n w c : ℕ)
    → w ≡ pos + n
    → n < stdin_bufsize
    → chars_from (update buffer (w % stdin_bufsize) c) pos (suc n)
      ≡ chars_from buffer pos n ++ c ∷ []
chars_from-append buffer pos zero w c e small = ground arith
chars_from-append buffer pos (suc n) w c e small =
    let other : pos % stdin_bufsize ≢ w % stdin_bufsize = omega arith in
    ground (arith, chars_from-append buffer (pos + 1) n w c (omega arith) (omega arith))

-- A store into the full buffer.
pub chars_from-full :
    (buffer : ℕ → ℕ) (pos n w c : ℕ)
    → w ≡ pos + suc n
    → suc n ≡ stdin_bufsize
    → chars_from (update buffer (w % stdin_bufsize) c) pos (suc n)
      ≡ c ∷ drop 1 (chars_from buffer pos (suc n))
chars_from-full buffer pos n w c e full =
    let same : pos % stdin_bufsize ≡ w % stdin_bufsize = omega arith in
    let later = chars_from-same buffer (pos + 1) n w c (omega arith) (omega arith) in
    ground (arith, later, same)

-- Reading takes the oldest characters, as many as there are and are asked for.
pub read_available-takes :
    (len : ℕ) (t : Stdin)
    → IsRing t
    → ((read_available len t).0 ≡ take len (unread t))
      × (unread (read_available len t).1 ≡ drop len (unread t))
      × IsRing (read_available len t).1
      × ((read_available len t).1.sync ≡ t.sync)
unfolding read_available
read_available-takes zero t v = (refl, refl, v, refl)
read_available-takes (suc len) t v = elim (Bool-cases (ltb t.p_rpos t.p_wpos)) [
  | inl e ↦
      let n = t.p_wpos - (t.p_rpos + 1) in
      let more : t.p_wpos - t.p_rpos ≡ suc n = ground arith in
      let (chars, left, w, same) =
        read_available-takes len (record t { p_rpos = t.p_rpos + 1 })
          (record { ordered = ground arith; fits = omega (arith, v.fits) }) in
      rw (e, more) (ap (λ l. t.stdin_buffer (t.p_rpos % stdin_bufsize) ∷ l) chars, left, w, same)
  | inr e ↦
      let empty : t.p_wpos - t.p_rpos ≡ 0 = ground arith in rw (e, empty) (refl, refl, v, refl)
]
