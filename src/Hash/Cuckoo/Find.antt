-- ===== src/Hash/Cuckoo/Find.antt =====
-- `findValueByKey`: which keys it reports, and which it should not.
use coding_demo.Base.{
  ℕ, zero, suc, ◌%◌, ◌≡◌, refl, ap, sym, ◌∙◌, ◌≢◌, inl, inr, Bool-cases, true, false, none, some,
  List, arith, ℤ, pos, negsuc, neg, ◌=ℤ◌, =ℤ_iff, Returns, ◌↔◌,
}
use coding_demo.Hash.Cuckoo.{
  Entry, Table, one, two, hash_func1, hash_func2, read, find_value_by_key,
}
use coding_demo.Hash.Cuckoo.Slots.{Slot, at, home, home-lt, read-at, HasKey, IsValid, Holds}
use coding_demo.Hash.Cuckoo.Chain.{hash_func1-pos, hash_func2-pos}

find-first :
    (t : Table) (x : ℤ) (first : Entry)
    → read t.table1 (hash_func1 t x) ≡ some first
    → (first.key =ℤ x) ≡ true
    → find_value_by_key t x ≡ some true
unfolding find_value_by_key
find-first t x first f eq = rw (f, eq)

find-second :
    (t : Table) (x : ℤ) (first second : Entry)
    → read t.table1 (hash_func1 t x) ≡ some first
    → (first.key =ℤ x) ≡ false
    → read t.table2 (hash_func2 t x) ≡ some second
    → find_value_by_key t x ≡ some (second.key =ℤ x)
unfolding find_value_by_key
find-second t x first second f ne s = rw (f, ne, s)

-- In a valid table, the search for a positive key returns, and reports it exactly if it is there.
pub find_value_by_key_lem :
    (t : Table) (k : ℕ)
    → IsValid t
    → k ≢ 0
    → Returns (find_value_by_key t (pos k)) (λ b. (b ≡ true) ↔ Holds t k)
find_value_by_key_lem t k v nonzero =
    let first : Slot = (one, home t.n_count one k) in
    let second : Slot = (two, home t.n_count two k) in
    let fst : read t.table1 (hash_func1 t (pos k)) ≡ some (at t first) =
      rw (hash_func1-pos t k)
        (read-at t one first.1 v.sized (home-lt t.n_count k one v.sized.positive)) in
    let snd : read t.table2 (hash_func2 t (pos k)) ≡ some (at t second) =
      rw (hash_func2-pos t k)
        (read-at t two second.1 v.sized (home-lt t.n_count k two v.sized.positive)) in
    elim (Bool-cases ((at t first).key =ℤ pos k)) [
      | inl eq ↦ (
        _,
        find-first t (pos k) _ fst eq,
        ((λ _. (first, ((=ℤ_iff _ _).0 eq, nonzero))), (λ _. refl)),
      )
      | inr ne ↦ (
        _,
        find-second t (pos k) _ _ fst ne snd,
        ((λ h. (second, ((=ℤ_iff _ _).0 h, nonzero))), (λ (q, g). where_else q g ne)),
      )
    ]
  where
    where_else :
        (q : Slot)
        → HasKey t q k
        → ((at t (one, home t.n_count one k)).key =ℤ pos k) ≡ false
        → ((at t (two, home t.n_count two k)).key =ℤ pos k) ≡ true
    where_else (one, i) g ne =
        let test =
          (=ℤ_iff _ (pos k)).1
            (ap (λ j. (at t (one, j)).key) (sym (v.placed (one, i) k g)) ∙ g.0) in
        absurd (clash (sym test ∙ ne))
      where
        clash : ¬ (true ≡ false)
        clash h = cc
    where_else (two, i) g ne =
        (=ℤ_iff _ (pos k)).1 (ap (λ j. (at t (two, j)).key) (sym (v.placed (two, i) k g)) ∙ g.0)

-- The key 0 is reported as long as the slot 0 of the first table is empty.
pub find_value_by_key-zero :
    (t : Table) → IsValid t → (at t (one, 0)).key ≡ pos 0 → find_value_by_key t (pos 0) ≡ some true
find_value_by_key-zero t v empty =
    let n_pos = v.sized.positive in
    let here : 0 % t.n_count ≡ 0 = omega arith in
    let fst : read t.table1 (hash_func1 t (pos 0)) ≡ some (at t (one, 0)) =
      rw (hash_func1-pos t 0, here) (read-at t one 0 v.sized n_pos) in
    find-first t (pos 0) _ fst (rw empty refl)

neg-positive : (r : ℕ) → r ≢ 0 → (i : ℕ) × (neg r ≡ negsuc i)
neg-positive zero h = absurd (h refl)
neg-positive (suc r) h = (r, refl)

read-negative : (table : List Entry) (i : ℕ) → read table (negsuc i) ≡ none
unfolding read
read-negative table i = refl

find-none :
    (t : Table) (x : ℤ) → read t.table1 (hash_func1 t x) ≡ none → find_value_by_key t x ≡ none
unfolding find_value_by_key
find-none t x h = rw h

hash_func1-negsuc : (t : Table) (m : ℕ) → hash_func1 t (negsuc m) ≡ neg (suc m % t.n_count)
unfolding hash_func1
hash_func1-negsuc t m = refl

-- A negative key that the table's size does not divide is looked up in front of the table.
pub find_value_by_key-negative :
    (t : Table) (m : ℕ) → suc m % t.n_count ≢ 0 → find_value_by_key t (negsuc m) ≡ none
find_value_by_key-negative t m h =
    let (i, eq) = neg-positive (suc m % t.n_count) h in
    find-none t (negsuc m) (rw (hash_func1-negsuc t m, eq) (read-negative t.table1 i))
