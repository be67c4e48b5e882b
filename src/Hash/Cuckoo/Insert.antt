-- ===== src/Hash/Cuckoo/Insert.antt =====
-- `insertHashTable` and `findValueByKey` against a map from keys to entries.
use coding_demo.Base.{
  ℕ, zero, suc, ◌<◌, ◌≡◌, refl, ap, sym, ◌∙◌, ◌≢◌, ◌⊎◌, inl, inr, Bool, Bool-cases, true, false,
  some, arith, if◌then◌else◌, pos, ◌=ℤ◌, =ℤ_iff, Returns,
}
use mathlib.Core.Path.{subst}
use coding_demo.Hash.Cuckoo.{
  Entry, Table, Side, one, two, place, re_hash, hash_func1, hash_func2, read, max_loop, evict,
  insert_entry,
}
use coding_demo.Hash.Cuckoo.Slots.{
  Slot, at, home, home-lt, read-at, HasKey, IsValid, Holds, Slot-cases, place-IsSized,
  n_count-place, at-place_self, at-place_ne, table_of,
}
use coding_demo.Hash.Cuckoo.Evict.{Rank, Freed, empty-Freed, pos-injective}
use coding_demo.Hash.Cuckoo.Chain.{Moved, re_hash_lem, hash_func1-pos, hash_func2-pos}

-- The entry `e` is in the table.
abbrev pub HasEntry : Table → Entry → Type 0
HasEntry t e = (s : Slot) × (at t s ≡ e)

-- `t'` is `t` with the entry `e` of the key `k` added.
pub record Inserted (t : Table) (k : ℕ) (e : Entry) (t' : Table) : Type 0 where
  pub valid : IsValid t'
  pub count : t'.n_count ≡ t.n_count
  pub added : HasEntry t' e
  pub kept : (s : Slot) (j : ℕ) → HasKey t s j → HasEntry t' (at t s)
  pub only : (j : ℕ) → Holds t' j → (j ≡ k) ⊎ Holds t j

-- The slot that a function gives a key.
abbrev pub slot : Table → Side → ℕ → Slot
slot t side k = (side, home t.n_count side k)

-- Every chain of moves that would free a slot for `k` is longer than MAX_LOOP.
abbrev pub IsStuck : Table → ℕ → Type 0
IsStuck t k = (side : Side) (m : ℕ) → Rank t (slot t side k) m → max_loop < m

module _ (t t0 : Table) (k : ℕ) (e : Entry) (s : Slot) (m : ℕ) (v : IsValid t) (fresh : ¬ Holds t k)
    (nonzero : k ≢ 0) (named : e.key ≡ pos k) (mine : s.1 ≡ home t.n_count s.0 k)
    (f : Freed t s m t0) where
  abbrev filled : Table
  filled = place s.0 (pos s.1) e t0

  in_range : s.1 < t0.n_count
  in_range = rw (mine, f.count) (home-lt t.n_count k s.0 v.sized.positive)

  at-filled_self : at filled s ≡ e
  at-filled_self = at-place_self s.0 s.1 e t0 f.sized in_range

  at-filled_ne : (q : Slot) → q ≢ s → at filled q ≡ at t0 q
  at-filled_ne q ne = at-place_ne s.0 s.1 e t0 q ne

  HasKey-filled :
      (q : Slot) (j : ℕ) → HasKey filled q j → ((q ≡ s) × (j ≡ k)) ⊎ ((q ≢ s) × HasKey t0 q j)
  HasKey-filled q j g = elim (Slot-cases q s) [
    | inl same ↦ inl (
      same,
      pos-injective
          (sym g.0 ∙ ap (λ p. (at filled p).key) same ∙ ap (λ x. x.key) at-filled_self ∙ named),
    )
    | inr ne ↦ inr (ne, (ap (λ x. x.key) (sym (at-filled_ne q ne)) ∙ g.0, g.1))
  ]

  only_filled : (j : ℕ) → Holds filled j → (j ≡ k) ⊎ Holds t j
  only_filled j (q, g) = elim (HasKey-filled q j g) [
    | inl x ↦ inl x.1
    | inr y ↦ inr (f.old q j y.1)
  ]

  old_key : (q : Slot) (j : ℕ) → HasKey t0 q j → j ≢ k
  old_key q j g same = fresh (subst (Holds t) same (f.old q j g))

  unique_filled : (p q : Slot) (j : ℕ) → HasKey filled p j → HasKey filled q j → p ≡ q
  unique_filled p q j gp gq = cases (HasKey-filled p j gp) (HasKey-filled q j gq)
    where
      cases :
          ((p ≡ s) × (j ≡ k)) ⊎ ((p ≢ s) × HasKey t0 p j)
          → ((q ≡ s) × (j ≡ k)) ⊎ ((q ≢ s) × HasKey t0 q j)
          → p ≡ q
      cases (inl x) (inl y) = x.0 ∙ sym y.0
      cases (inl x) (inr y) = absurd (old_key q j y.1 x.1)
      cases (inr x) (inl y) = absurd (old_key p j x.1 y.1)
      cases (inr x) (inr y) = f.unique p q j x.0 y.0 x.1 y.1

  placed_filled : (q : Slot) (j : ℕ) → HasKey filled q j → q.1 ≡ home filled.n_count q.0 j
  placed_filled q j g =
      rw (n_count-place s.0 s.1 e t0, f.count)
        (elim (HasKey-filled q j g) [
          | inl x ↦
              subst (λ (p : Slot). p.1 ≡ home t.n_count p.0 j) (sym x.0)
                (mine ∙ ap (home t.n_count s.0) (sym x.1))
          | inr y ↦ f.placed q j y.1
        ])

  natural_filled : (q : Slot) → (j : ℕ) × ((at filled q).key ≡ pos j)
  natural_filled q = elim (Slot-cases q s) [
    | inl same ↦ (k, ap (λ p. (at filled p).key) same ∙ ap (λ x. x.key) at-filled_self ∙ named)
    | inr ne ↦ let (j, g) = f.natural q in (j, ap (λ x. x.key) (at-filled_ne q ne) ∙ g)
  ]

  filled-Inserted : Inserted t k e filled
  filled-Inserted = record {
    valid = record {
      sized = place-IsSized s.0 s.1 e t0 f.sized;
      placed = placed_filled;
      unique = unique_filled;
      natural = natural_filled;
    };
    count = n_count-place s.0 s.1 e t0 ∙ f.count;
    added = (s, at-filled_self);
    kept = λ p j g. let (q, ne, _, eq) = f.kept p j g in (q, at-filled_ne q ne ∙ eq);
    only = only_filled;
  }

insert_entry-first :
    (t : Table) (e first : Entry)
    → read t.table1 (hash_func1 t e.key) ≡ some first
    → first.key ≡ pos 0
    → insert_entry e t ≡ some (true, place one (hash_func1 t e.key) e t)
unfolding insert_entry
insert_entry-first t e first f free = rw (f, free)

insert_entry-second :
    (t : Table) (e first second : Entry)
    → read t.table1 (hash_func1 t e.key) ≡ some first
    → (first.key =ℤ pos 0) ≡ false
    → read t.table2 (hash_func2 t e.key) ≡ some second
    → second.key ≡ pos 0
    → insert_entry e t ≡ some (true, place two (hash_func2 t e.key) e t)
unfolding insert_entry
insert_entry-second t e first second f full s free = rw (f, full, s, free)

insert_entry-evict :
    (t : Table) (e first second : Entry)
    → read t.table1 (hash_func1 t e.key) ≡ some first
    → (first.key =ℤ pos 0) ≡ false
    → read t.table2 (hash_func2 t e.key) ≡ some second
    → (second.key =ℤ pos 0) ≡ false
    → insert_entry e t ≡ evict (hash_func1 t e.key) (hash_func2 t e.key) first e t
unfolding insert_entry
insert_entry-evict t e first second f full1 s full2 = rw (f, full1, s, full2)

full : (t : Table) (s : Slot) (j : ℕ) → HasKey t s j → ((at t s).key =ℤ pos 0) ≡ false
full t s j g = elim (Bool-cases ((at t s).key =ℤ pos 0)) [
  | inl eq ↦ absurd (g.1 (pos-injective (sym g.0 ∙ (=ℤ_iff _ _).0 eq)))
  | inr ne ↦ ne
]

abbrev pub Outcome : Table → ℕ → Entry → Bool × Table → Type 0
Outcome t k e r = ((r.0 ≡ true) × Inserted t k e r.1) ⊎ ((r ≡ (false, t)) × IsStuck t k)

module _ (t : Table) (k : ℕ) (e : Entry) (v : IsValid t) (fresh : ¬ Holds t k) (nonzero : k ≢ 0)
    (named : e.key ≡ pos k) where
  read-slot :
      (side : Side)
      → read (table_of t side) (pos (home t.n_count side k)) ≡ some (at t (slot t side k))
  read-slot side =
      read-at t side (home t.n_count side k) v.sized (home-lt t.n_count k side v.sized.positive)

  -- A slot is empty or holds a key.
  occupied : (s : Slot) → ((at t s).key ≡ pos 0) ⊎ ((j : ℕ) × HasKey t s j)
  occupied s = let (j, g) = v.natural s in cases j g
    where
      cases : (j : ℕ) → (at t s).key ≡ pos j → ((at t s).key ≡ pos 0) ⊎ ((j : ℕ) × HasKey t s j)
      cases zero g = inl g
      cases (suc j) g = inr (suc j, (g, (λ h. omega arith)))

  put :
      (s : Slot) (m : ℕ) (t0 : Table)
      → s.1 ≡ home t.n_count s.0 k
      → Freed t s m t0
      → Inserted t k e (place s.0 (pos s.1) e t0)
  put s m t0 mine f = filled-Inserted t t0 k e s m v fresh nonzero named mine f

  evict_second :
      (q : Bool × Table)
      → Moved max_loop t (slot t two k) q
      → ((m : ℕ) → Rank t (slot t one k) m → max_loop < m)
      → Outcome t k e
          (if q.0 then (true, place two (pos (home t.n_count two k)) e q.1) else (false, q.1))
  evict_second q (inl (yes_q, (m, r, f))) stuck =
      rw (yes_q) (inl (refl, put (slot t two k) m q.1 refl f))
  evict_second q (inr (same, long)) stuck = rw (same) (inr (refl, both))
    where
      both : IsStuck t k
      both one m r = stuck m r
      both two m r = long m r

  evict_first :
      (i : ℕ) (h : HasKey t (slot t two k) i) (r : Bool × Table)
      → re_hash max_loop t (at t (slot t one k)) ≡ some r
      → Moved max_loop t (slot t one k) r
      → Returns
          (evict (hash_func1 t e.key) (hash_func2 t e.key) (at t (slot t one k)) e t)
          (Outcome t k e)
  unfolding evict
  evict_first i h r run (inl (yes_r, (m, rank, f))) = (
    _,
    rw (named, hash_func1-pos t k, hash_func2-pos t k, run, yes_r),
    inl (refl, put (slot t one k) m r.1 refl f),
  )
  evict_first i h r run (inr (same, long)) =
      let (q, again, done) = re_hash_lem max_loop t v (slot t two k) i h in
      (
        _,
        rw (named, hash_func1-pos t k, hash_func2-pos t k, run, same, read-slot two, again),
        evict_second q done long,
      )

  pub insert_entry_lem : Returns (insert_entry e t) (Outcome t k e)
  insert_entry_lem =
      let h1 = ap (hash_func1 t) named ∙ hash_func1-pos t k in
      let h2 = ap (hash_func2 t) named ∙ hash_func2-pos t k in
      let fst : read t.table1 (hash_func1 t e.key) ≡ some (at t (slot t one k)) =
        rw h1 (read-slot one) in
      let snd : read t.table2 (hash_func2 t e.key) ≡ some (at t (slot t two k)) =
        rw h2 (read-slot two) in
      elim (occupied (slot t one k)) [
        | inl free ↦ (
          _,
          insert_entry-first t e _ fst free ∙ ap (λ i. some (true, place one i e t)) h1,
          inl (refl, put (slot t one k) 0 t refl (empty-Freed t (slot t one k) v free)),
        )
        | inr (j, g) ↦ elim (occupied (slot t two k)) [
          | inl free ↦ (
            _,
            insert_entry-second t e _ _ fst (full t _ j g) snd free
                ∙ ap (λ i. some (true, place two i e t)) h2,
            inl (refl, put (slot t two k) 0 t refl (empty-Freed t (slot t two k) v free)),
          )
          | inr (i, h) ↦
              let (r, run, done) = re_hash_lem max_loop t v (slot t one k) j g in
              let (q, ends, ok) = evict_first i h r run done in
              (q, insert_entry-evict t e _ _ fst (full t _ j g) snd (full t _ i h) ∙ ends, ok)
        ]
      ]
