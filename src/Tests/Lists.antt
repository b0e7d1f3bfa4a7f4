-- ===== src/Tests/Lists.antt =====
-- list.h on a ring of two nodes, 3 and 5, behind the head 0.
use os_experiment.Prelude.{◌≡◌, refl, [], ◌∷◌, ◌==◌, if◌then◌else◌, arith}
use os_experiment.LinkedList.{Links, link_between, list_init, list_add_before}
use os_experiment.LinkedList.Chain.{IsRing}

abbrev two_nodes : Links
two_nodes = record {
  next = λ k. if k == 0 then 3 else if k == 3 then 5 else 0;
  prev = λ k. if k == 0 then 5 else if k == 3 then 0 else 3;
}

two_nodes-IsRing : IsRing two_nodes 0 (3 ∷ 5 ∷ [])
two_nodes-IsRing = ground arith

-- The list built by the calls themselves.
built : (list_add_before (list_add_before (list_init two_nodes 0) 0 3) 0 5).prev 0 ≡ 5
unfolding list_add_before link_between list_init
built = refl
