-- ===== src/Container/Ring/Remove.antt =====
-- `list_del` and `list_del_init` against the sequence of nodes.
use coding_demo.Base.{◌≡◌, ◌≢◌, List, [], ◌∷◌, ◌++◌, arith, Returns}
use mathlib.Core.List.{append-nil}
use coding_demo.Container.{Ptr, null, Memory, update, list_del, list_del_init}
use coding_demo.Container.Ring.{
  SameOutside, Linked, AreDistinct, IsRing, Linked-frame, Linked-append, append-Linked,
  Linked-retarget, last_of, first_of, prev-last_of, next-first_of, has-last_of, has-append,
  AreDistinct-append, has-first_of, last_of-ne-null, first_of-ne-null,
}

-- The memory with the neighbours of `elem` led past it, and its own links set to `v`.
abbrev pub without : Memory → Ptr → Ptr → Ptr → Ptr → Memory
without m before after elem v = record {
  next = update (update m.next before after) elem v;
  prev = update (update m.prev after before) elem v;
}

without-Linked :
    (m : Memory) (head elem v : Ptr) (xs ys : List Ptr)
    → AreDistinct (head ∷ xs ++ elem ∷ ys)
    → Linked m head xs elem
    → Linked m elem ys head
    → Linked (without m (last_of head xs) (first_of ys head) elem v) head (xs ++ ys) head
without-Linked m head elem v xs [] d l r =
    let parts = AreDistinct-append xs (elem ∷ []) d.1 in
    rw append-nil (
      Linked-retarget m _ head elem head xs (ground (arith, has-append head xs (elem ∷ [])))
        (ground
          (arith, has-last_of head xs, parts.2 (last_of head xs), has-append head xs (elem ∷ [])))
        (ground (arith, has-append head xs (elem ∷ [])))
        (λ p h ne. ground (arith, parts.2 p, has-append head xs (elem ∷ [])))
        (λ p h. ground (arith, parts.2 p, has-append head xs (elem ∷ []))) l)
without-Linked m head elem v xs (y ∷ ys) d l r =
    let parts = AreDistinct-append xs (elem ∷ y ∷ ys) d.1 in
    append-Linked _ head y head xs ys
      (Linked-retarget m _ head elem y xs (ground (arith, has-append head xs (elem ∷ y ∷ ys)))
        (ground (
          arith,
          has-last_of head xs,
          parts.2 (last_of head xs),
          has-append head xs (elem ∷ y ∷ ys),
        ))
        (ground (arith, parts.1))
        (λ p h ne. ground (arith, parts.2 p, has-append head xs (elem ∷ y ∷ ys)))
        (λ p h. ground (arith, parts.2 p)) l)
      (Linked-frame m _ y head ys
        (λ p h. ground (
          arith,
          parts.1,
          parts.2 p,
          has-append head xs (elem ∷ y ∷ ys),
          has-last_of head xs,
          parts.2 (last_of head xs),
        ))
        (λ p h.
          ground (arith, parts.1, has-append p ys (head ∷ []), has-append head xs (elem ∷ y ∷ ys)))
        r.2)

AreDistinct-without :
    (elem : Ptr) (xs ys : List Ptr) → AreDistinct (xs ++ elem ∷ ys) → AreDistinct (xs ++ ys)
AreDistinct-without elem [] ys d = d.1
AreDistinct-without elem (x ∷ xs) ys d = (
  ground (arith, has-append x xs ys, has-append x xs (elem ∷ ys)),
  AreDistinct-without elem xs ys d.1,
)

module _ (m : Memory) (head elem : Ptr) (xs ys : List Ptr)
    (r : IsRing m head (xs ++ elem ∷ ys)) where
  links : Linked m head xs elem × Linked m elem ys head
  links = Linked-append m head elem head xs ys r.links

  facts :
      (elem ≢ null)
      × (last_of head xs ≢ null)
      × (first_of ys head ≢ null)
      × (m.prev elem ≡ last_of head xs)
      × (m.next elem ≡ first_of ys head)
  facts = (
    ground (arith, r.no_null, has-append null xs (elem ∷ ys)),
    last_of-ne-null head xs (ground (arith, r.no_null, has-append null xs (elem ∷ ys))),
    first_of-ne-null head ys (ground (arith, r.no_null, has-append null xs (elem ∷ ys))),
    prev-last_of m head elem xs links.0,
    next-first_of m elem head ys links.1,
  )

  -- What removing leaves, whatever the links of the removed node are set to.
  without-IsRing :
      (v : Ptr) → IsRing (without m (last_of head xs) (first_of ys head) elem v) head (xs ++ ys)
  without-IsRing v = record {
    links = without-Linked m head elem v xs ys r.distinct links.0 links.1;
    distinct = AreDistinct-without elem (head ∷ xs) ys r.distinct;
    no_null = ground (arith, r.no_null, has-append null xs (elem ∷ ys), has-append null xs ys);
  }

  without-SameOutside :
      (v : Ptr)
      → SameOutside
          (head ∷ xs ++ elem ∷ ys)
          m
          (without m (last_of head xs) (first_of ys head) elem v)
  without-SameOutside v p out =
      ground (arith, has-last_of head xs, has-first_of head ys, has-append p xs (elem ∷ ys))

  -- `list_del` takes the node out of the list, keeps the others in order, and leaves it with NULL
  -- links; nodes outside the list are not touched.
  pub list_del_lem : Returns (list_del elem m) λ m'.
      IsRing m' head (xs ++ ys)
      × SameOutside (head ∷ xs ++ elem ∷ ys) m m'
      × (m'.next elem ≡ null)
      × (m'.prev elem ≡ null)
  unfolding list_del
  list_del_lem = (
    without m (last_of head xs) (first_of ys head) elem null,
    rw (← facts.3, ← facts.4) (ground (arith, facts)),
    (without-IsRing null, without-SameOutside null, ground arith, ground arith),
  )

  -- `list_del_init` takes the node out in the same way, and leaves it an empty list of its own.
  pub list_del_init_lem : Returns (list_del_init elem m) λ m'.
      IsRing m' head (xs ++ ys) × IsRing m' elem [] × SameOutside (head ∷ xs ++ elem ∷ ys) m m'
  unfolding list_del_init
  list_del_init_lem = (
    without m (last_of head xs) (first_of ys head) elem elem,
    rw (← facts.3, ← facts.4) (ground (arith, facts)),
    (
      without-IsRing elem,
      record { links = ground arith; distinct = ground arith; no_null = ground (arith, facts) },
      without-SameOutside elem,
    ),
  )
