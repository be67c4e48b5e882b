-- ===== src/Dpdk/Ids/Tests.antt =====
-- get_ids at the texts of its `main`.
use coding_demo.Base.{
  All, none, ℕ, ◌≡◌, ◌≤◌, refl, some, List, [], ◌∷◌, ◌++◌, replicate, ℤ, pos, negsuc, arith,
  Returns, length, drop, ◌⊎◌,
}
use coding_demo.Libc.Buffer.{codes}
use coding_demo.Dpdk.Ids.{get_ids, scan_range}
use coding_demo.Libc.Scan.{tokens}
use coding_demo.Dpdk.Ids.Bounds.{EndsBelow, get_ids-InBounds}
use coding_demo.Dpdk.Ids.RoundTrip.{Item, one, range, text, ids, get_ids-text}

abbrev arr : List ℤ
arr = replicate 4 (negsuc 6)

abbrev over : ℕ → ℕ
over n = 0

trailing_comma :
    get_ids over (codes "2,5-6,") arr 4 ≡ some (pos 0, 3, pos 2 ∷ pos 5 ∷ pos 6 ∷ negsuc 6 ∷ [])
unfolding get_ids
trailing_comma = refl

no_first : get_ids over (codes "-8") arr 4 ≡ some (negsuc 0, 0, arr)
unfolding get_ids
no_first = refl

too_many :
    get_ids over (codes "2-8,9") arr 4 ≡ some (negsuc 0, 0, pos 2 ∷ pos 3 ∷ pos 4 ∷ pos 5 ∷ [])
unfolding get_ids
too_many = refl

no_last : get_ids over (codes "3-,9") arr 4 ≡ some (negsuc 0, 0, arr)
unfolding get_ids
no_last = refl

-- What follows a number is not looked at.
junk :
    get_ids over (codes "2x") arr 4 ≡ some (pos 0, 1, pos 2 ∷ negsuc 6 ∷ negsuc 6 ∷ negsuc 6 ∷ [])
unfolding get_ids
junk = refl

-- The loop of a range goes past its end, which the greatest `int` does not allow.
greatest : get_ids over (codes "2147483646-2147483647") arr 4 ≡ none
unfolding get_ids
greatest = refl

ends : All (λ c. EndsBelow (scan_range over c)) (tokens [] (codes "2-8,10"))
unfolding tokens scan_range
ends = (refl, (tt, tt))

get_ids-InBounds_example : Returns (get_ids over (codes "2-8,10") arr 3) λ out.
    (length out.2 ≡ length arr)
    × (drop 3 out.2 ≡ drop 3 arr)
    × (out.1 ≤ 3)
    × ((out.0 ≡ pos 0) ⊎ ((out.0 ≡ negsuc 0) × (out.1 ≡ 0)))
get_ids-InBounds_example = get_ids-InBounds arr 3 (omega arith) over (codes "2-8,10") ends

abbrev items : List Item
items = one 2 ∷ range 5 6 ∷ one 9 ∷ []

get_ids-text_example :
    get_ids over (text items) arr 4
    ≡ some (pos 0, length (ids items), ids items ++ drop (length (ids items)) arr)
get_ids-text_example = get_ids-text arr 4 (omega arith) over items (omega arith) (omega arith)
