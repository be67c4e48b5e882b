-- ===== src/Container/Tests.antt =====
-- The theorems on lists at small lists: the head 1, and the nodes 2, 3 and 4.
use coding_demo.Base.{◌≡◌, ◌==◌, refl, arith, some, [], ◌∷◌, Returns}
use coding_demo.Container.{
  Memory, null, update, list_del, list_swap, list_for_each, list_for_each_safe,
}
use coding_demo.Container.Ring.{IsRing, SameOutside}
use coding_demo.Container.Ring.Remove.{list_del_lem}
use coding_demo.Container.Ring.Swap.{list_swap_lem}
use coding_demo.Container.Ring.Sweep.{delete_if, kept, list_for_each_safe_lem}
use coding_demo.Container.Ring.Visit.{list_for_each_lem}

-- The nodes 2 and 3 at the head 1, and 5 an empty list.
abbrev two_nodes : Memory
two_nodes = record {
  next = update (update (update (λ p. p) 1 2) 2 3) 3 1;
  prev = update (update (update (λ p. p) 2 1) 3 2) 1 3;
}

two_nodes-IsRing : IsRing two_nodes 1 (2 ∷ 3 ∷ [])
two_nodes-IsRing = ground arith

no_nodes-IsRing : IsRing two_nodes 5 []
no_nodes-IsRing = ground arith

list_del_lem_example : Returns (list_del 2 two_nodes) λ m'.
    IsRing m' 1 (3 ∷ [])
    × SameOutside (1 ∷ 2 ∷ 3 ∷ []) two_nodes m'
    × (m'.next 2 ≡ null)
    × (m'.prev 2 ≡ null)
list_del_lem_example = list_del_lem two_nodes 1 2 [] (3 ∷ []) two_nodes-IsRing

list_swap_lem_example :
    Returns (list_swap 5 1 two_nodes) λ m'.
      IsRing m' 5 (2 ∷ 3 ∷ []) × IsRing m' 1 [] × SameOutside (5 ∷ 1 ∷ 2 ∷ 3 ∷ []) two_nodes m'
list_swap_lem_example = list_swap_lem two_nodes 5 1 2 (3 ∷ []) two_nodes-IsRing (omega arith) refl

list_for_each_lem_example : list_for_each 3 1 two_nodes ≡ some (2 ∷ 3 ∷ [])
list_for_each_lem_example =
    list_for_each_lem 3 two_nodes 1 (2 ∷ 3 ∷ []) two_nodes-IsRing (omega arith)

-- The loop deletes the node 2.
list_for_each_safe_lem_example :
    Returns (list_for_each_safe 3 (delete_if (λ p. p == 2)) 1 two_nodes) λ out.
      (out.0 ≡ 2 ∷ 3 ∷ [])
      × IsRing out.1 1 (kept (λ p. p == 2) (2 ∷ 3 ∷ []))
      × SameOutside (1 ∷ 2 ∷ 3 ∷ []) two_nodes out.1
list_for_each_safe_lem_example =
    list_for_each_safe_lem (λ p. p == 2) 3 two_nodes 1 (2 ∷ 3 ∷ []) two_nodes-IsRing (omega arith)
