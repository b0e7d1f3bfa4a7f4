-- ===== src/Stride/Least.antt =====
-- The 32-bit comparison of strides, and the process that `stride_pick_next` picks.
use os_experiment.Prelude.{
  ℕ, ◌+◌, ◌/◌, ◌≤◌, ◌<◌, ◌≡◌, ltb, u32, update, arith, Bool-cases, inl, inr,
}
use os_experiment.SkewHeap.Merge.{IsHeapFrom}
use os_experiment.Stride.{StrideQueue, big_stride, stride_first}

-- Two strides that have not drifted apart by more than BIG_STRIDE compare in 32 bits as the numbers
-- that they would be without wrapping around.
pub stride_first-u32 :
    (a b : ℕ) → a ≤ b + big_stride → b ≤ a + big_stride → stride_first (u32 a) (u32 b) ≡ ltb a b
unfolding stride_first
stride_first-u32 a b near far = elim (Bool-cases (ltb a b)) [
  | inl e ↦ ground arith
  | inr e ↦ ground arith
]

-- The strides are the 32-bit words of `pass`, the pool is a heap by `pass`, and no priority is 0.
pub record IsPool (q : StrideQueue) (pass : ℕ → ℕ) : Type 0 where
  pub strides : (p : ℕ) → (q.procs p).lab6_stride ≡ u32 (pass p)
  pub heap : IsHeapFrom pass 0 q.lab6_run_pool
  pub priorities : (p : ℕ) → 0 < (q.procs p).lab6_priority

-- `pass` once the process `p` is picked.
abbrev pub moved_on : StrideQueue → (ℕ → ℕ) → ℕ → ℕ → ℕ
moved_on q pass p = update pass p (pass p + big_stride / (q.procs p).lab6_priority)
