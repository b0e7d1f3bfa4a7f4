-- ===== src/Tests/Heaps.antt =====
-- Skew heaps and the stride class on small inputs.
use os_experiment.Prelude.{ℕ, ◌+◌, ◌<◌, ◌≡◌, refl, Bool, true, false, some, ltb, u32, arith}
use os_experiment.SkewHeap.{Heap, nil, node, size, count, skew_heap_merge}
use os_experiment.SkewHeap.Merge.{IsMerge, skew_heap_merge-IsMerge}
use os_experiment.Stride.{StrideQueue, stride_first}
use os_experiment.Stride.Least.{stride_first-u32}

abbrev less : ℕ → ℕ → Bool
less x y = ltb x y

abbrev same : ℕ → ℕ
same x = x

abbrev three_five : Heap
three_five = node (node nil 5 nil) 3 nil

abbrev four : Heap
four = node nil 4 nil

-- The merge puts 4 on the left of 3, and what stood there on its right.
merged : skew_heap_merge less 4 three_five four ≡ some (node four 3 (node nil 5 nil))
unfolding skew_heap_merge
merged = refl

enough_fuel : size three_five + size four < 4
unfolding size
enough_fuel = omega arith

enough_alone : size three_five < 4
unfolding size
enough_alone = omega arith

five_once : count 5 three_five ≡ 1
unfolding count
five_once = refl

skew_heap_merge-IsMerge_example :
    (h : Heap) × (skew_heap_merge less 4 three_five four ≡ some h)
    × IsMerge same 0 three_five four h
skew_heap_merge-IsMerge_example =
    skew_heap_merge-IsMerge less same (λ x y. refl) 4 0 three_five four
      ((omega arith), ((omega arith), tt, tt), tt) ((omega arith), tt, tt) enough_fuel

-- 2 ^ 32 + 5 and 2 ^ 32 - 3 as words: the second is first.
stride_first-u32_example : stride_first (u32 4294967293) (u32 4294967301) ≡ true
stride_first-u32_example = stride_first-u32 4294967293 4294967301 (omega arith) (omega arith)

abbrev pass_of : ℕ → ℕ
pass_of x = 10 + x

abbrev ready_queue : StrideQueue
ready_queue = record {
  procs = λ p. record {
    lab6_stride = u32 (pass_of p);
    lab6_priority = 2;
    time_slice = 5;
    need_resched = false;
    has_rq = true;
  };
  lab6_run_pool = three_five;
  proc_num = 2;
  max_time_slice = 5;
}
