-- ===== src/Text/Buffer.antt =====
-- `vsnprintf` of lab8/libs/printfmt.c, once the characters are known.
use os_experiment.Prelude.{
  ℕ, zero, suc, ◌+◌, ◌-◌, ◌%◌, ◌^◌, ◌≡◌, ◌≤◌, ◌<◌, ◌≢◌, refl, true, false, ◌||◌, ◌==◌, some, List,
  [], ◌∷◌, length, take, length-take, ltb, update, u32, arith, ap, ◌∙◌, ◌⊎◌,
}
use os_experiment.Text.{Memory, SprintBuf, sprintputch, put_all, vsnprintf}
use os_experiment.Text.Strings.{IsString}

-- None of the characters is the terminator once it is stored as a byte.
abbrev pub AllNonzero : List ℕ → Type 0
AllNonzero [] = Unit
AllNonzero (c ∷ cs) = (c % 256 ≢ 0) × AllNonzero cs

-- The characters as bytes.
abbrev pub as_bytes : List ℕ → List ℕ
as_bytes [] = []
as_bytes (c ∷ cs) = c % 256 ∷ as_bytes cs

-- The characters `cs` stand from `s` on, as bytes.
abbrev Holds : Memory → ℕ → List ℕ → Type 0
Holds m s [] = Unit
Holds m s (c ∷ cs) = (m s ≡ c % 256) × Holds m (s + 1) cs

record Put (room : ℕ) (l : List ℕ) (b b' : SprintBuf) : Type 0 where
  buf : b'.buf ≡ b.buf + length (take room l)
  cnt : b'.cnt ≡ u32 (b.cnt + length l)
  holds : Holds b'.memory b.buf (take room l)
  others : (x : ℕ) → (x < b.buf) ⊎ (b.buf + room ≤ x) → b'.memory x ≡ b.memory x

put_all-Put :
    (l : List ℕ) (room : ℕ) (b : SprintBuf)
    → b.ebuf ≡ b.buf + room
    → b.cnt < 2 ^ 32
    → Put room l b (put_all l b)
unfolding put_all sprintputch
put_all-Put [] zero b e small = record {
  buf = omega arith;
  cnt = ground arith;
  holds = tt;
  others = λ x o. refl;
}
put_all-Put [] (suc room) b e small = record {
  buf = omega arith;
  cnt = ground arith;
  holds = tt;
  others = λ x o. refl;
}
put_all-Put (c ∷ cs) zero b e small =
    let full : ltb b.buf b.ebuf ≡ false = ground arith in
    let p = put_all-Put cs zero (record b { cnt = u32 (b.cnt + 1) }) e (omega arith) in
    rw full (record {
      buf = ground (arith, p.buf);
      cnt = p.cnt ∙ omega arith;
      holds = tt;
      others = p.others;
    })
put_all-Put (c ∷ cs) (suc room) b e small =
    let free : ltb b.buf b.ebuf ≡ true = ground arith in
    let b1 = record b {
      cnt = u32 (b.cnt + 1);
      buf = b.buf + 1;
      memory = update b.memory b.buf (c % 256);
    } in
    let p = put_all-Put cs room b1 (omega arith) (omega arith) in
    rw free (record {
      buf = p.buf ∙ omega arith;
      cnt = p.cnt ∙ omega arith;
      holds = (p.others b.buf (ground arith) ∙ ground arith, p.holds);
      others = λ x o. p.others x (ground arith) ∙ ground arith;
    })

-- With a terminator behind them the bytes are a string.
Holds-IsString :
    (m : Memory) (s e : ℕ) (l : List ℕ)
    → e ≡ s + length l
    → AllNonzero l
    → Holds m s l
    → IsString (update m e 0) s (as_bytes l)
Holds-IsString m s e [] at n h = ground arith
Holds-IsString m s e (c ∷ cs) at (nz, n) (a, h) =
    (ground arith, nz, Holds-IsString m (s + 1) e cs (omega arith) n h)

AllNonzero-take : (n : ℕ) (l : List ℕ) → AllNonzero l → AllNonzero (take n l)
AllNonzero-take zero l h = tt
AllNonzero-take (suc n) [] h = tt
AllNonzero-take (suc n) (c ∷ cs) (a, h) = (a, AllNonzero-take n cs h)

-- `vsnprintf` into a buffer of at least one byte that is not at NULL: it returns how many
-- characters there are, as a 32-bit word, the buffer holds as many of them as it has room for, each
-- modulo 256, as a string, and no byte outside the buffer changes. None of the characters is 0
-- modulo 256.
pub vsnprintf-IsString :
    (str size : ℕ) (l : List ℕ) (m : Memory)
    → str ≢ 0
    → 0 < size
    → AllNonzero l
    → (m' : Memory) × (vsnprintf str size l m ≡ (some (u32 (length l)), m'))
      × IsString m' str (as_bytes (take (size - 1) l))
      × ((x : ℕ) → (x < str) ⊎ (str + size ≤ x) → m' x ≡ m x)
unfolding vsnprintf
vsnprintf-IsString str size l m nn pos n =
    let b : SprintBuf = record { buf = str; ebuf = str + size - 1; cnt = 0; memory = m } in
    let p = put_all-Put l (size - 1) b (omega arith) (omega arith) in
    let usable : (str == 0 || ltb (str + size - 1) str) ≡ false = ground arith in
    (
      update (put_all l b).memory (put_all l b).buf 0,
      rw usable (
          ap (λ c. (some c, update (put_all l b).memory (put_all l b).buf 0))
            (p.cnt ∙ omega arith)),
      Holds-IsString (put_all l b).memory str (put_all l b).buf (take (size - 1) l) p.buf
          (AllNonzero-take (size - 1) l n) p.holds,
      λ x o.
          let apart : x ≢ (put_all l b).buf = omega (arith, p.buf, length-take (size - 1) l) in
          ground (arith, p.others x (ground arith)),
    )
