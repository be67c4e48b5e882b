-- ===== src/Container/Ring/Insert.antt =====
-- `list_init`, `list_push_front` and `list_push_back` against the sequence of nodes.
use coding_demo.Base.{◌≢◌, List, [], ◌∷◌, ◌++◌, arith, Returns}
use coding_demo.Container.{Ptr, null, Memory, update, list_init, list_push_front, list_push_back}
use coding_demo.Container.Ring.{
  ◌∉◌, SameOutside, Linked, AreDistinct, IsRing, Linked-frame, append-Linked, Linked-retarget,
  last_of, first_of, prev-last_of, next-first_of, has-last_of, has-append, has-first_of,
  first_of-ne-null, last_of-ne-null,
}

-- `list_init` makes the head an empty list, and changes no other node.
pub list_init-IsRing :
    (m : Memory) (head : Ptr)
    → head ≢ null
    → Returns (list_init head m) λ m'. IsRing m' head [] × SameOutside (head ∷ []) m m'
unfolding list_init
list_init-IsRing m head ne = (
  record { next = update m.next head head; prev = update m.prev head head },
  ground arith,
  (
    record { links = ground arith; distinct = ground arith; no_null = ground arith },
    λ p other. ground arith,
  ),
)

-- The memory after `elem` has been linked in before `first`.
abbrev front : Memory → Ptr → Ptr → Ptr → Memory
front m head elem first = record {
  next = update (update m.next elem first) head elem;
  prev = update (update m.prev first elem) elem head;
}

front-Linked :
    (m : Memory) (head elem : Ptr) (xs : List Ptr)
    → AreDistinct (head ∷ xs)
    → elem ∉ (head ∷ xs)
    → Linked m head xs head
    → Linked (front m head elem (first_of xs head)) elem xs head
front-Linked m head elem [] d new l = ground arith
front-Linked m head elem (x ∷ xs) d new l = (
  ground arith,
  ground arith,
  Linked-frame m _ x head xs (λ p h. ground arith)
      (λ p h. ground (arith, has-append p xs (head ∷ []))) l.2,
)

-- `list_push_front` on a list that does not hold `elem` puts it first.
pub list_push_front-cons :
    (m : Memory) (head elem : Ptr) (xs : List Ptr)
    → IsRing m head xs
    → elem ≢ null
    → elem ∉ (head ∷ xs)
    → Returns
        (list_push_front head elem m)
        λ m'. IsRing m' head (elem ∷ xs) × SameOutside (elem ∷ head ∷ xs) m m'
unfolding list_push_front
list_push_front-cons m head elem xs r ne new =
    let first = next-first_of m head head xs r.links in
    let ok = first_of-ne-null head xs r.no_null in
    (
      front m head elem (first_of xs head),
      rw (← first) (ground (arith, first)),
      (
        record {
          links = (ground arith, ground arith, front-Linked m head elem xs r.distinct new r.links);
          distinct = ground arith;
          no_null = ground arith;
        },
        λ p out. ground (arith, has-first_of head xs),
      ),
    )

-- The memory after `elem` has been linked in behind `last`.
abbrev back : Memory → Ptr → Ptr → Ptr → Memory
back m head elem last = record {
  next = update (update m.next last elem) elem head;
  prev = update (update m.prev elem last) head elem;
}

back-Linked :
    (m : Memory) (head elem : Ptr) (xs : List Ptr)
    → AreDistinct (head ∷ xs)
    → elem ∉ (head ∷ xs)
    → Linked m head xs head
    → Linked (back m head elem (last_of head xs)) head (xs ++ elem ∷ []) head
back-Linked m head elem xs d new l =
    append-Linked _ head elem head xs []
      (Linked-retarget m _ head head elem xs d (ground (arith, has-last_of head xs)) (ground arith)
        (λ p h ne. ground arith) (λ p h. ground arith) l)
      (ground arith)

AreDistinct-snoc :
    (elem : Ptr) (xs : List Ptr) → AreDistinct xs → elem ∉ xs → AreDistinct (xs ++ elem ∷ [])
AreDistinct-snoc elem [] d new = ground arith
AreDistinct-snoc elem (x ∷ xs) d new =
    (ground (arith, has-append x xs (elem ∷ [])), AreDistinct-snoc elem xs d.1 (ground arith))

-- `list_push_back` on a list that does not hold `elem` puts it last.
pub list_push_back-append :
    (m : Memory) (head elem : Ptr) (xs : List Ptr)
    → IsRing m head xs
    → elem ≢ null
    → elem ∉ (head ∷ xs)
    → Returns
        (list_push_back head elem m)
        λ m'. IsRing m' head (xs ++ elem ∷ []) × SameOutside (elem ∷ head ∷ xs) m m'
unfolding list_push_back
list_push_back-append m head elem xs r ne new =
    let last = prev-last_of m head head xs r.links in
    let ok = last_of-ne-null head xs r.no_null in
    (
      back m head elem (last_of head xs),
      rw (← last) (ground (arith, last)),
      (
        record {
          links = back-Linked m head elem xs r.distinct new r.links;
          distinct = AreDistinct-snoc elem (head ∷ xs) r.distinct new;
          no_null = ground (arith, has-append null xs (elem ∷ []));
        },
        λ p out. ground (arith, has-last_of head xs),
      ),
    )
