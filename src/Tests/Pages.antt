-- ===== src/Tests/Pages.antt =====
-- default_pmm.c on a free list of two blocks: pages 3 and 4, and pages 10 and 11.
use os_experiment.Prelude.{
  ℕ, ◌+◌, ◌≡◌, refl, ◌||◌, true, false, Option, some, [], ◌∷◌, ◌==◌, if◌then◌else◌, arith, ◌>>=◌,
  u32, update,
}
use os_experiment.LinkedList.{link_between, unlink_between, list_del}
use os_experiment.LinkedList.Chain.{IsRing}
use os_experiment.FirstFit.{
  Area, free_list, default_alloc_pages, default_free_pages, clear_pages, insert_block, merge_before,
  merge_after, take_block, find_fit,
}
use os_experiment.FirstFit.Free.{InUse, free_pages-inside}
use os_experiment.FirstFit.Append.{SelfLinked, free_pages-end, alloc_pages-twice}
use os_experiment.FirstFit.Alloc.{alloc_pages-takes}

abbrev two_blocks : Area
two_blocks = record {
  links = record {
    next = λ k. if k == 0 then 3 else if k == 3 then 10 else 0;
    prev = λ k. if k == 0 then 10 else if k == 3 then 0 else 3;
  };
  nr_free = 4;
  property = λ k. if k == 3 then 2 else if k == 10 then 2 else 0;
  reserved = λ k. false;
  heads = λ k. k == 3 || k == 10;
  ref = λ k. 0;
}

two_blocks-IsRing : IsRing two_blocks.links free_list (3 ∷ 10 ∷ [])
two_blocks-IsRing = ground arith

middle_InUse : InUse two_blocks 5 2
middle_InUse k l m = (refl, ground arith)

end_InUse : InUse two_blocks 20 8
end_InUse k l m = (refl, ground arith)

-- pages 5 and 6 join the block of page 3
free_pages-inside_example :
    (b : Area) × (default_free_pages 9 5 2 two_blocks ≡ some b)
    × IsRing b.links free_list (3 ∷ 10 ∷ [])
    × (b.property 3 ≡ 4)
    × (b.nr_free ≡ 6)
free_pages-inside_example =
    free_pages-inside 9 5 2 two_blocks (3 ∷ []) 10 [] two_blocks-IsRing (omega arith) (omega arith)
      (omega arith) (omega arith) middle_InUse (omega arith) (omega arith) (omega arith)
      (omega arith)

-- pages 20 to 27 lie behind all blocks
free_pages-end_example :
    (b : Area) × (default_free_pages 9 20 8 two_blocks ≡ some b)
    × SelfLinked b (3 ∷ 10 ∷ []) 20
    × ((k : ℕ) → b.property k ≡ update two_blocks.property 20 8 k)
    × (b.nr_free ≡ u32 12)
    × ((list_del b.links 20).next 10 ≡ 20)
free_pages-end_example =
    free_pages-end 9 20 8 two_blocks 3 (10 ∷ []) two_blocks-IsRing (omega arith) end_InUse
      (omega arith) (omega arith) (omega arith)

-- the area after that call
abbrev appended_block : Area
appended_block = record two_blocks {
  links = record {
    next = λ k. if k == 0 then 3 else if k == 3 then 10 else if k == 10 then 20 else 0;
    prev = λ k. if k == 0 then 20 else if k == 3 then 0 else if k == 10 then 3 else 20;
  };
  nr_free = 12;
  property = λ k. if k == 3 then 2 else if k == 10 then 2 else if k == 20 then 8 else 0;
}

appended_block-SelfLinked : SelfLinked appended_block (3 ∷ 10 ∷ []) 20
appended_block-SelfLinked = ground arith

-- both requests for four pages get page 20
alloc_pages-twice_example :
    (c d : Area) × (default_alloc_pages 9 4 appended_block ≡ some (20, c))
    × (default_alloc_pages 9 4 c ≡ some (20, d))
    × (c.nr_free + 4 ≡ 12)
alloc_pages-twice_example =
    alloc_pages-twice 9 20 8 4 appended_block 3 (10 ∷ []) appended_block-SelfLinked (omega arith)
      (omega arith) (omega arith) refl (omega arith) (omega arith) (omega arith) (omega arith)
      (omega arith)

abbrev page_of : Option (ℕ × Area) → Option ℕ
page_of r = r >>= λ x. some (x.0)

-- the calls in a row: free pages 20 to 27, then allocate four pages twice
same_pages_twice :
    page_of (
      default_free_pages 9 20 8 two_blocks >>= λ b.
      default_alloc_pages 9 4 b >>= λ x. default_alloc_pages 9 4 (x.1))
    ≡ some 20
unfolding default_free_pages default_alloc_pages clear_pages merge_before merge_after take_block
    link_between unlink_between find_fit insert_block
same_pages_twice = refl

-- one page of the block of page 3: the block of page 4 stands in its place
alloc_pages-takes_example :
    (b : Area) × (default_alloc_pages 9 1 two_blocks ≡ some (3, b))
    × IsRing b.links free_list (4 ∷ 10 ∷ [])
    × (b.nr_free + 1 ≡ 4)
    × (b.heads 3 ≡ false)
    × (b.property 4 ≡ 1)
    × (b.heads 4 ≡ true)
alloc_pages-takes_example =
    alloc_pages-takes 9 1 two_blocks [] 3 (10 ∷ []) two_blocks-IsRing tt (omega arith) (omega arith)
      (omega arith) (omega arith) (omega arith) (λ lt. omega arith) (omega arith)
