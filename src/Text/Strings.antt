-- ===== src/Text/Strings.antt =====
-- `strlen`, `strcpy` and `strcmp` of lab8/libs/string.c.
use os_experiment.Prelude.{
  ℕ, zero, suc, ◌+◌, ◌-◌, ◌≡◌, ◌≤◌, ◌<◌, ◌≢◌, refl, false, ◌==◌, some, List, [], ◌∷◌, length,
  if◌then◌else◌, update, arith, Bool-cases, inl, inr, ap, sym, ◌∙◌, ◌⊎◌, ◌↔◌,
}
use os_experiment.Text.{Memory, byte_diff, strlen, strcpy, strcmp, memcpy}
use os_experiment.Text.Move.{memcpy-copied}

-- The bytes `cs` and a terminator stand from `s` on.
abbrev pub IsString : Memory → ℕ → List ℕ → Type 0
IsString m s [] = m s ≡ 0
IsString m s (c ∷ cs) = (m s ≡ c) × (c ≢ 0) × IsString m (s + 1) cs

-- A string is where its bytes are.
IsString-moved :
    (m m' : Memory) (s d : ℕ) (cs : List ℕ)
    → ((j : ℕ) → j ≤ length cs → m' (d + j) ≡ m (s + j))
    → IsString m s cs
    → IsString m' d cs
IsString-moved m m' s d [] same h = ground (arith, same 0)
IsString-moved m m' s d (c ∷ cs) same (a, b, h) =
    (ground (arith, same 0), b, IsString-moved m m' (s + 1) (d + 1) cs (λ j l. moved j l) h)
  where
    moved : (j : ℕ) → j ≤ length cs → m' (d + 1 + j) ≡ m (s + 1 + j)
    moved j l =
        let far : d + 1 + j ≡ d + (j + 1) = omega arith in
        let near : s + 1 + j ≡ s + (j + 1) = omega arith in
        ap m' far ∙ same (j + 1) (omega arith) ∙ ap m (sym near)

strlen-IsString :
    (fuel s : ℕ) (m : Memory) (cs : List ℕ)
    → IsString m s cs
    → length cs < fuel
    → strlen fuel s m ≡ some (length cs)
unfolding strlen
strlen-IsString zero s m cs h room = absurd (omega arith)
strlen-IsString (suc fuel) s m [] h room = ground arith
strlen-IsString (suc fuel) s m (c ∷ cs) (a, b, h) room =
    ground (arith, strlen-IsString fuel (s + 1) m cs h)

-- The loop is that of `memcpy`, for the bytes and the terminator.
strcpy-memcpy :
    (fuel dst src : ℕ) (m : Memory) (cs : List ℕ)
    → IsString m src cs
    → length cs < fuel
    → (dst ≤ src) ⊎ (src + length cs < dst)
    → strcpy fuel dst src m ≡ some (memcpy dst src (suc (length cs)) m)
unfolding strcpy memcpy
strcpy-memcpy zero dst src m cs h room apart = absurd (omega arith)
strcpy-memcpy (suc fuel) dst src m [] h room apart = ground arith
strcpy-memcpy (suc fuel) dst src m (c ∷ cs) (a, b, h) room apart =
    let kept : IsString (update m dst (m src)) (src + 1) cs =
      IsString-moved m (update m dst (m src)) (src + 1) (src + 1) cs
        (λ j l. let other : src + 1 + j ≢ dst = ground arith in ground arith) h in
    let next =
      strcpy-memcpy fuel (dst + 1) (src + 1) (update m dst (m src)) cs kept (omega arith)
        (ground arith) in
    let more : (m src == 0) ≡ false = ground arith in rw (more, next) refl

-- `strcpy` of a string to where it does not overlap returns, with fuel above the length, and the
-- string stands at both addresses, as `strlen` confirms; no other byte changes.
pub strcpy-IsString :
    (fuel dst src : ℕ) (m : Memory) (cs : List ℕ)
    → IsString m src cs
    → length cs < fuel
    → (dst + length cs < src) ⊎ (src + length cs < dst)
    → (m' : Memory) × (strcpy fuel dst src m ≡ some m')
      × IsString m' dst cs
      × IsString m' src cs
      × (strlen fuel dst m' ≡ some (length cs))
      × ((x : ℕ) → (x < dst) ⊎ (dst + length cs < x) → m' x ≡ m x)
strcpy-IsString fuel dst src m cs h room apart =
    let after = memcpy dst src (suc (length cs)) m in
    let at = λ (x : ℕ). memcpy-copied (suc (length cs)) dst src m x (ground arith) in
    let there : IsString after dst cs =
      IsString-moved m after src dst cs
        (λ j l.
          at (dst + j)
          ∙ (let here : src + (dst + j - dst) ≡ src + j = omega arith in ground (arith, ap m here)))
        h in
    (
      after,
      strcpy-memcpy fuel dst src m cs h room (ground arith),
      there,
      IsString-moved m after src src cs (λ j l. at (src + j) ∙ ground arith) h,
      strlen-IsString fuel dst after cs there room,
      λ x o. at x ∙ ground arith,
    )

-- What `strcmp` returns for two strings.
abbrev pub compared : List ℕ → List ℕ → ℕ
compared [] [] = 0
compared [] (d ∷ ds) = byte_diff 0 d
compared (c ∷ cs) [] = byte_diff c 0
compared (c ∷ cs) (d ∷ ds) = if c == d then compared cs ds else byte_diff c d

strcmp-compared :
    (fuel a b : ℕ) (m : Memory) (cs ds : List ℕ)
    → IsString m a cs
    → IsString m b ds
    → length cs < fuel
    → strcmp fuel a b m ≡ some (compared cs ds)
unfolding strcmp
strcmp-compared zero a b m cs ds f g room = absurd (omega arith)
strcmp-compared (suc fuel) a b m [] [] f g room = ground arith
strcmp-compared (suc fuel) a b m [] (d ∷ ds) f g room = ground arith
strcmp-compared (suc fuel) a b m (c ∷ cs) [] f g room = ground arith
strcmp-compared (suc fuel) a b m (c ∷ cs) (d ∷ ds) (f, p, f') (g, q, g') room =
    ground (arith, strcmp-compared fuel (a + 1) (b + 1) m cs ds f' g')

byte_diff_zero : (a b : ℕ) → a < 256 → b < 256 → byte_diff a b ≡ 0 → a ≡ b
byte_diff_zero a b f g e = ground arith

-- Equal strings, and only those, compare as 0.
compared_zero :
    (m : Memory) (a b : ℕ) (cs ds : List ℕ)
    → ((x : ℕ) → m x < 256)
    → IsString m a cs
    → IsString m b ds
    → compared cs ds ≡ 0
    → cs ≡ ds
compared_zero m a b [] [] small f g e = refl
compared_zero m a b [] (d ∷ ds) small f (g, q, g') e =
    absurd (q (sym (byte_diff_zero 0 d (omega arith) (ground (arith, small b)) e)))
compared_zero m a b (c ∷ cs) [] small (f, p, f') g e =
    absurd (p (byte_diff_zero c 0 (ground (arith, small a)) (omega arith) e))
compared_zero m a b (c ∷ cs) (d ∷ ds) small (f, p, f') (g, q, g') e = elim (Bool-cases (c == d)) [
  | inl k ↦
      let same : c ≡ d = ground arith in
      let rest = compared_zero m (a + 1) (b + 1) cs ds small f' g' (ground arith) in
      ap (λ x. x ∷ cs) same ∙ ap (λ l. d ∷ l) rest
  | inr k ↦
      let same =
        byte_diff_zero c d (ground (arith, small a)) (ground (arith, small b)) (ground arith) in
      absurd (ground arith)
]

compared_refl : (cs : List ℕ) → compared cs cs ≡ 0
compared_refl [] = refl
compared_refl (c ∷ cs) = ground (arith, compared_refl cs)

-- `strcmp` of two strings returns, with fuel above the length of the first, and its result is 0 for
-- equal strings and for no others.
pub strcmp-IsString :
    (fuel a b : ℕ) (m : Memory) (cs ds : List ℕ)
    → ((x : ℕ) → m x < 256)
    → IsString m a cs
    → IsString m b ds
    → length cs < fuel
    → (n : ℕ) × (strcmp fuel a b m ≡ some n) × ((n ≡ 0) ↔ (cs ≡ ds))
strcmp-IsString fuel a b m cs ds small f g room = (
  compared cs ds,
  strcmp-compared fuel a b m cs ds f g room,
  (compared_zero m a b cs ds small f g, λ e. ap (λ l. compared cs l) (sym e) ∙ compared_refl cs),
)
