-- ===== src/Process/Hash.antt =====
-- The hash list of proc.c, with `hash32` of lab8/libs/hash.c.
use os_experiment.Prelude.{
  ℕ, ◌-◌, ◌*◌, ◌/◌, ◌^◌, ◌<◌, ◌≡◌, ◌≢◌, true, ◌&&◌, List, [], ◌∷◌, ltb, ◌==◌, if◌then◌else◌, update,
  u32, Bool-cases, inl, inr, arith, ap, sym, ◌∙◌, ==_iff,
}
use os_experiment.Sched.RoundRobin.{unlink}
use os_experiment.Sched.State.{queued}
use os_experiment.Process.Pid.{max_pid}

-- `hash32`, for 32 bits at most.
unfoldable pub hash32 : ℕ → ℕ → ℕ
hash32 val bits = u32 (val * 0x9e370001) / 2 ^ (32 - bits)

-- `pid_hashfn`: HASH_SHIFT is 10.
unfoldable pub pid_hashfn : ℕ → ℕ
unfolding hash32
pid_hashfn pid = hash32 pid 10

-- `hash_list`, each list as its processes, with the numbers of the processes.
pub record PidTable : Type 0 where
  pub hash_list : ℕ → List ℕ
  pub pid : ℕ → ℕ

unfoldable pub hash_proc : ℕ → PidTable → PidTable
unfolding pid_hashfn
hash_proc p t =
    let bucket = pid_hashfn (t.pid p) in
    record t { hash_list = update t.hash_list bucket (p ∷ t.hash_list bucket) }

-- `list_del` of the entry, in the list that holds it.
unfoldable pub unhash_proc : ℕ → PidTable → PidTable
unfolding pid_hashfn unlink
unhash_proc p t =
    let bucket = pid_hashfn (t.pid p) in
    record t { hash_list = update t.hash_list bucket (unlink p (t.hash_list bucket)) }

-- The loop of `find_proc`.
unfoldable pub find_in : (ℕ → ℕ) → ℕ → List ℕ → ℕ
find_in pid_of pid [] = 0
find_in pid_of pid (p ∷ ps) = if pid_of p == pid then p else find_in pid_of pid ps

unfoldable pub find_proc : ℕ → PidTable → ℕ
unfolding find_in pid_hashfn
find_proc pid t =
    if ltb 0 pid && ltb pid max_pid then find_in t.pid pid (t.hash_list (pid_hashfn pid)) else 0

-- A process stands at most once in the list of its number, and shares that with no other there.
abbrev pub AllDistinct : (ℕ → ℕ) → List ℕ → Type 0
AllDistinct pid_of [] = Unit
AllDistinct pid_of (p ∷ ps) = (find_in pid_of (pid_of p) ps ≡ 0) × (p ≢ 0) × AllDistinct pid_of ps

pub record IsPidTable (t : PidTable) : Type 0 where
  pub distinct : (b : ℕ) → AllDistinct t.pid (t.hash_list b)

-- A process with a valid number that is not found yet is found by that number once it is hashed,
-- and every other lookup is as before.
pub find_proc-hash_proc :
    (p pid : ℕ) (t : PidTable)
    → 0 < t.pid p
    → t.pid p < max_pid
    → find_proc pid (hash_proc p t) ≡ (if t.pid p == pid then p else find_proc pid t)
unfolding find_proc hash_proc find_in
find_proc-hash_proc p pid t low high = elim (Bool-cases (t.pid p == pid)) [
  | inl e ↦ let same : t.pid p ≡ pid = ground arith in ground (arith, ap pid_hashfn same)
  | inr e ↦ elim (Bool-cases (pid_hashfn pid == pid_hashfn (t.pid p))) [
    | inl f ↦
        let same : pid_hashfn pid ≡ pid_hashfn (t.pid p) = ground arith in
        ground (arith, ap t.hash_list same)
    | inr f ↦ ground arith
  ]
]

find_in-queued :
    (pid_of : ℕ → ℕ) (p : ℕ) (l : List ℕ)
    → AllDistinct pid_of l
    → queued p l ≡ true
    → find_in pid_of (pid_of p) l ≡ p
unfolding find_in
find_in-queued pid_of p [] d q = absurd (ground arith)
find_in-queued pid_of p (x ∷ xs) (none_else, nn, d) q = elim (Bool-cases (x == p)) [
  | inl e ↦ let same : x ≡ p = ground arith in ground (arith, ap pid_of same)
  | inr e ↦
      let later = find_in-queued pid_of p xs d (ground arith) in
      let member = AllDistinct-queued pid_of p xs d (ground arith) in
      elim (Bool-cases (pid_of x == pid_of p)) [
        | inl f ↦
            let same : pid_of x ≡ pid_of p = ground arith in
            absurd (ground (arith, ap (λ n. find_in pid_of n xs) same))
        | inr f ↦ ground arith
      ]
]
  where
    AllDistinct-queued :
        (pid_of : ℕ → ℕ) (p : ℕ) (l : List ℕ) → AllDistinct pid_of l → queued p l ≡ true → p ≢ 0
    AllDistinct-queued pid_of p [] d q = absurd (ground arith)
    AllDistinct-queued pid_of p (x ∷ xs) (a, nn, d) q = elim (Bool-cases (x == p)) [
      | inl e ↦ ground arith
      | inr e ↦ AllDistinct-queued pid_of p xs d (ground arith)
    ]

find_in-unlink :
    (pid_of : ℕ → ℕ) (p pid : ℕ) (l : List ℕ)
    → AllDistinct pid_of l
    → queued p l ≡ true
    → find_in pid_of pid (unlink p l) ≡ (if pid_of p == pid then 0 else find_in pid_of pid l)
unfolding find_in unlink
find_in-unlink pid_of p pid [] d q = absurd (ground arith)
find_in-unlink pid_of p pid (x ∷ xs) (none_else, nn, d) q = elim (Bool-cases (x == p)) [
  | inl e ↦ elim (Bool-cases (pid_of p == pid)) [
    | inl f ↦
        let same : x ≡ p = ground arith in
        let number : pid_of x ≡ pid = ap pid_of same ∙ (==_iff (pid_of p) pid).0 f in
        rw (e, f) (ap (λ n. find_in pid_of n xs) (sym number) ∙ none_else)
    | inr f ↦ let same : x ≡ p = ground arith in ground (arith, ap pid_of same)
  ]
  | inr e ↦ elim (Bool-cases (pid_of x == pid)) [
    | inl f ↦ elim (Bool-cases (pid_of p == pid)) [
      | inl g ↦
          let found = find_in-queued pid_of p (x ∷ xs) (none_else, nn, d) q in
          let same : pid_of p ≡ pid_of x = ground arith in absurd (ground arith)
      | inr g ↦ ground arith
    ]
    | inr f ↦ ground (arith, find_in-unlink pid_of p pid xs d)
  ]
]

-- A process that leaves the hash list is not found by its number any more, and every other lookup
-- is as before.
pub find_proc-unhash_proc :
    (p pid : ℕ) (t : PidTable)
    → IsPidTable t
    → queued p (t.hash_list (pid_hashfn (t.pid p))) ≡ true
    → find_proc pid (unhash_proc p t) ≡ (if t.pid p == pid then 0 else find_proc pid t)
unfolding find_proc unhash_proc
find_proc-unhash_proc p pid t v q =
    let b = pid_hashfn (t.pid p) in
    let taken = find_in-unlink t.pid p pid (t.hash_list b) (v.distinct b) q in
    elim (Bool-cases (pid_hashfn pid == b)) [
      | inl f ↦ let same : pid_hashfn pid ≡ b = ground arith in ground (arith, ap t.hash_list same)
      | inr f ↦ elim (Bool-cases (t.pid p == pid)) [
        | inl g ↦
            let same : t.pid p ≡ pid = ground arith in absurd (ground (arith, ap pid_hashfn same))
        | inr g ↦ ground arith
      ]
    ]
