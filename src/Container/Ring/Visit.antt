-- ===== src/Container/Ring/Visit.antt =====
-- `list_empty` and `list_for_each` against the sequence of nodes.
use coding_demo.Base.{ℕ, zero, suc, ◌<◌, ◌≡◌, Bool, true, false, some, List, [], ◌∷◌, arith, length}
use coding_demo.Container.{Ptr, null, Memory, list_empty, visit_from, list_for_each}
use coding_demo.Container.Ring.{◌∉◌, Linked, IsRing}

abbrev is_nil : List Ptr → Bool
is_nil [] = true
is_nil (_ ∷ _) = false

-- `list_empty` tells whether the list has no node.
pub list_empty_lem :
    (m : Memory) (head : Ptr) (xs : List Ptr)
    → IsRing m head xs
    → list_empty head m ≡ some (is_nil xs)
unfolding list_empty
list_empty_lem m head [] r = ground (arith, r.links, r.no_null)
list_empty_lem m head (x ∷ xs) r = ground (arith, r.links.0, r.distinct, r.no_null)

visit_from_lem :
    (fuel : ℕ) (m : Memory) (a head : Ptr) (xs : List Ptr)
    → length xs < fuel
    → Linked m a xs head
    → head ∉ xs
    → null ∉ xs
    → visit_from fuel (m.next a) head m ≡ some xs
unfolding visit_from
visit_from_lem zero m a head xs f l d n = absurd (omega arith)
visit_from_lem (suc fuel) m a head [] f l d n = rw l.0 (ground arith)
visit_from_lem (suc fuel) m a head (x ∷ xs) f l d n = rw l.0 (
    ground (arith, visit_from_lem fuel m x head xs (omega arith) l.2 (ground arith) (ground arith)))

-- With more fuel than nodes `list_for_each` visits the nodes of the list, each once and in order,
-- and stops.
pub list_for_each_lem :
    (fuel : ℕ) (m : Memory) (head : Ptr) (xs : List Ptr)
    → IsRing m head xs
    → length xs < fuel
    → list_for_each fuel head m ≡ some xs
unfolding list_for_each
list_for_each_lem fuel m head xs r f =
    ground (arith, r.no_null, visit_from_lem fuel m head head xs f r.links r.distinct.0)
