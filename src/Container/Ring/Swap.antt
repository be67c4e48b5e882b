-- ===== src/Container/Ring/Swap.antt =====
-- `list_swap` against the sequence of nodes.
use coding_demo.Base.{◌≡◌, ◌≢◌, List, [], ◌∷◌, arith, Returns}
use coding_demo.Container.{Ptr, null, Memory, update, list_swap}
use coding_demo.Container.Ring.{
  ◌∉◌, SameOutside, IsRing, Linked-retarget, last_of, prev-last_of, has-last_of,
}

-- The memory after the nodes from `first` to `last` have moved from `old` to `new`.
abbrev moved : Memory → Ptr → Ptr → Ptr → Ptr → Memory
moved m new old first last = record {
  next = update (update (update m.next new first) last new) old old;
  prev = update (update (update m.prev new last) first new) old old;
}

-- `list_swap` from a list with a node moves all its nodes, in order, to `new`, whatever `new` held,
-- and leaves `old` empty.
pub list_swap_lem :
    (m : Memory) (new old x : Ptr) (xs : List Ptr)
    → IsRing m old (x ∷ xs)
    → new ≢ null
    → new ∉ (old ∷ x ∷ xs)
    → Returns
        (list_swap new old m)
        λ m'. IsRing m' new (x ∷ xs) × IsRing m' old [] × SameOutside (new ∷ old ∷ x ∷ xs) m m'
unfolding list_swap
list_swap_lem m new old x xs r ne out =
    let last = prev-last_of m old old (x ∷ xs) r.links in
    let first = r.links.0 in
    let in_list = has-last_of x xs in
    (
      moved m new old x (last_of x xs),
      rw (← last, ← first) (ground (arith, last, first, in_list, r.no_null, r.distinct)),
      (
        record {
          links = (
            ground (arith, r.distinct, in_list),
            ground (arith, r.distinct),
            Linked-retarget m _ x old new xs r.distinct.1 (ground (arith, in_list, r.distinct))
                (ground (arith, r.distinct)) (λ p h other. ground (arith, r.distinct))
                (λ p h. ground (arith, r.distinct)) r.links.2,
          );
          distinct = ground (arith, r.distinct);
          no_null = ground (arith, r.no_null);
        },
        record {
          links = ground arith;
          distinct = ground arith;
          no_null = ground (arith, r.no_null);
        },
        λ p other. ground (arith, in_list),
      ),
    )

-- `list_swap` from an empty list does not make `new` an empty list: its `prev` still leads to
-- `old`.
pub list_swap-empty :
    (m : Memory) (new old : Ptr)
    → IsRing m old []
    → new ≢ null
    → new ≢ old
    → Returns
        (list_swap new old m)
        λ m'. (m'.next new ≡ new) × (m'.prev new ≡ old) × (¬ IsRing m' new []) × IsRing m' old []
unfolding list_swap
list_swap-empty m new old r ne other = (
  record {
    next = update (update (update m.next new old) new new) old old;
    prev = update (update (update m.prev new old) old new) old old;
  },
  ground (arith, r.links, r.no_null),
  (
    ground arith,
    ground arith,
    λ bad. ground (arith, bad.links),
    record { links = ground arith; distinct = ground arith; no_null = ground (arith, r.no_null) },
  ),
)
