-- ===== src/Process/Pid/Unique.antt =====
-- The walks of `get_pid` end with a number that is not in the list.
use os_experiment.Prelude.{
  ℕ, zero, suc, ◌+◌, ◌-◌, ◌≤◌, ◌<◌, ◌≡◌, refl, Bool, true, false, ◌&&◌, Option, some, List, [], ◌∷◌,
  ltb, leb, ◌==◌, if◌then◌else◌, arith, Bool-cases, inl, inr, ◌⊎◌,
}
use os_experiment.Process.Pid.{max_pid, PidState, Walk, finished, repeated, walk, search_pid}

abbrev pub used : ℕ → List ℕ → Bool
used p [] = false
used p (x ∷ xs) = if x == p then true else used p xs

-- Every number of the list is below `last`, or `next` at least.
abbrev pub AllApart : ℕ → ℕ → List ℕ → Type 0
AllApart last next [] = Unit
AllApart last next (x ∷ xs) = ((x < last) ⊎ (next ≤ x)) × AllApart last next xs

-- The numbers from `low` up to `high` are all used.
abbrev UsedFrom : ℕ → ℕ → List ℕ → Type 0
UsedFrom low high pids = (q : ℕ) → low ≤ q → q < high → used q pids ≡ true

-- How a walk from `s` ends.
abbrev WalkEnds : List ℕ → PidState → Walk → Type 0
WalkEnds pids s (finished t) =
    (s.last_pid ≤ t.last_pid)
    × (t.last_pid < t.next_safe)
    × (t.next_safe ≤ s.next_safe)
    × AllApart t.last_pid t.next_safe pids
    × UsedFrom s.last_pid t.last_pid pids
WalkEnds pids s (repeated t) =
    (l : ℕ) × (s.last_pid < l)
    × (l ≤ max_pid)
    × (t ≡ record { last_pid = if leb max_pid l then 1 else l; next_safe = max_pid })
    × UsedFrom s.last_pid l pids

-- An ending of the walk over the rest, from `t`, is one of the whole walk.
WalkEnds-cons :
    (pid : ℕ) (pids : List ℕ) (s t : PidState) (w : Walk)
    → s.last_pid ≤ t.last_pid
    → t.next_safe ≤ s.next_safe
    → (pid < t.last_pid) ⊎ (t.next_safe ≤ pid)
    → ((q : ℕ) → s.last_pid ≤ q → q < t.last_pid → pid ≡ q)
    → WalkEnds pids t w
    → WalkEnds (pid ∷ pids) s w
WalkEnds-cons pid pids s t (finished u) below above apart passed (a, b, c, d, e) = (
  omega arith,
  b,
  omega arith,
  (ground arith, d),
  λ q low high. elim (Bool-cases (ltb q t.last_pid)) [
    | inl f ↦ ground (arith, passed q low)
    | inr f ↦ ground (arith, e q)
  ],
)
WalkEnds-cons pid pids s t (repeated u) below above apart passed (l, a, b, c, e) = (
  l,
  omega arith,
  b,
  c,
  λ q low high. elim (Bool-cases (ltb q t.last_pid)) [
    | inl f ↦ ground (arith, passed q low)
    | inr f ↦ ground (arith, e q)
  ],
)

walk-WalkEnds :
    (pids : List ℕ) (s : PidState)
    → s.last_pid < s.next_safe
    → s.next_safe ≤ max_pid
    → WalkEnds pids s (walk pids s)
unfolding walk
walk-WalkEnds [] s o m = (omega arith, o, omega arith, tt, λ q a b. absurd (omega arith))
walk-WalkEnds (pid ∷ pids) s o m = elim (Bool-cases (pid == s.last_pid)) [
  | inl e ↦ elim (Bool-cases (leb s.next_safe (s.last_pid + 1))) [
    | inl f ↦
        rw (e, f) ((s.last_pid + 1), omega arith, omega arith, refl, λ q low high. ground arith)
    | inr f ↦
        let t = record s { last_pid = s.last_pid + 1 } in
        rw (e, f)
          (WalkEnds-cons pid pids s t (walk pids t) (omega arith) (omega arith) (inl (ground arith))
            (λ q low high. ground arith) (walk-WalkEnds pids t (ground arith) m))
  ]
  | inr e ↦ elim (Bool-cases (ltb s.last_pid pid && ltb pid s.next_safe)) [
    | inl f ↦
        let t = record s { next_safe = pid } in
        rw (e, f)
          (WalkEnds-cons pid pids s t (walk pids t) (omega arith) (ground arith) (inr (omega arith))
            (λ q low high. absurd (omega arith))
            (walk-WalkEnds pids t (ground arith) (ground arith)))
    | inr f ↦
        rw (e, f)
          (WalkEnds-cons pid pids s s (walk pids s) (omega arith) (omega arith) (ground arith)
            (λ q low high. absurd (omega arith)) (walk-WalkEnds pids s o m))
  ]
]

-- How far the search may go on before it meets the unused number `f`, over the end if need be.
abbrev pub distance : ℕ → ℕ → ℕ
distance last f = if leb last f then f - last else max_pid - last + f

-- A walk that starts over has come nearer to an unused number.
distance-repeated :
    (pids : List ℕ) (s t : PidState) (f : ℕ)
    → used f pids ≡ false
    → 0 < f
    → f < max_pid
    → s.last_pid < max_pid
    → WalkEnds pids s (repeated t)
    → (distance t.last_pid f < distance s.last_pid f)
      × (0 < t.last_pid)
      × (t.last_pid < t.next_safe)
      × (t.next_safe ≡ max_pid)
distance-repeated pids s t f free low high o (l, a, b, c, e) =
    let above : (s.last_pid ≤ f) → l ≤ f = λ h. elim (Bool-cases (ltb f l)) [
      | inl g ↦ absurd (ground (arith, e f h))
      | inr g ↦ ground arith
    ] in
    rw c (ground (arith, above), ground arith, ground arith, refl)

pub search_pid-AllApart :
    (fuel f : ℕ) (pids : List ℕ) (s : PidState)
    → used f pids ≡ false
    → 0 < f
    → f < max_pid
    → 0 < s.last_pid
    → s.last_pid < s.next_safe
    → s.next_safe ≡ max_pid
    → distance s.last_pid f < fuel
    → (t : PidState) × (search_pid fuel pids s ≡ some t)
      × (0 < t.last_pid)
      × (t.last_pid < t.next_safe)
      × (t.next_safe ≤ max_pid)
      × AllApart t.last_pid t.next_safe pids
unfolding search_pid
search_pid-AllApart zero f pids s free low high pos o m d = absurd (omega arith)
search_pid-AllApart (suc fuel) f pids s free low high pos o m d =
    by_end (walk pids s) (walk-WalkEnds pids s o (omega arith))
      (λ t. search_pid-AllApart fuel f pids t free low high)
  where
    Goal : Option PidState → Type 0
    Goal r =
        (t : PidState) × (r ≡ some t)
        × (0 < t.last_pid)
        × (t.last_pid < t.next_safe)
        × (t.next_safe ≤ max_pid)
        × AllApart t.last_pid t.next_safe pids

    by_end :
        (w : Walk)
        → WalkEnds pids s w
        → ((t : PidState)
            → 0 < t.last_pid
            → t.last_pid < t.next_safe
            → t.next_safe ≡ max_pid
            → distance t.last_pid f < fuel
            → Goal (search_pid fuel pids t))
        → Goal (elim w [ finished t ↦ some t | repeated t ↦ search_pid fuel pids t ])
    by_end (finished t) (a, b, c, g, e) again = (t, refl, omega arith, b, omega arith, g)
    by_end (repeated t) ends again =
        let (near, p, q, r) = distance-repeated pids s t f free low high (omega arith) ends in
        again t p q r (omega arith)

pub AllApart-unused :
    (last next : ℕ) (pids : List ℕ) → last < next → AllApart last next pids → used last pids ≡ false
AllApart-unused last next [] o a = refl
AllApart-unused last next (x ∷ xs) o (here, a) = ground (arith, AllApart-unused last next xs o a)

-- No number of the list lies strictly between `last` and `next`.
abbrev pub NoneBetween : ℕ → ℕ → List ℕ → Type 0
NoneBetween last next [] = Unit
NoneBetween last next (x ∷ xs) = ((x ≤ last) ⊎ (next ≤ x)) × NoneBetween last next xs

pub AllApart-NoneBetween :
    (last next : ℕ) (pids : List ℕ) → AllApart last next pids → NoneBetween last next pids
AllApart-NoneBetween last next [] a = tt
AllApart-NoneBetween last next (x ∷ xs) (here, a) =
    (ground arith, AllApart-NoneBetween last next xs a)

pub NoneBetween-AllApart :
    (last next : ℕ) (pids : List ℕ) → NoneBetween last next pids → AllApart (last + 1) next pids
NoneBetween-AllApart last next [] a = tt
NoneBetween-AllApart last next (x ∷ xs) (here, a) =
    (ground arith, NoneBetween-AllApart last next xs a)
