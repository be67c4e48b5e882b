-- ===== src/Hash/Cuckoo/Tests.antt =====
-- The theorems on the hash table at a table of three slots a side, with the keys 1 and 4 in it.
use coding_demo.Base.{
  ◌≡◌, ◌≢◌, refl, sym, ◌∙◌, arith, true, [], ◌∷◌, Returns, pos, ◌↔◌, suc, ℕ, zero, ◌⊎◌, inl, inr,
}
use coding_demo.Hash.Cuckoo.{
  Table, Entry, empty_entry, one, two, re_hash, insert_entry, find_value_by_key,
}
use coding_demo.Hash.Cuckoo.Slots.{Slot, at, HasKey, IsValid, Holds, home}
use mathlib.Core.Path.{subst}
use coding_demo.Hash.Cuckoo.Evict.{pos-injective}
use coding_demo.Hash.Cuckoo.Chain.{Moved, re_hash_lem}
use coding_demo.Hash.Cuckoo.Insert.{Outcome, insert_entry_lem}
use coding_demo.Hash.Cuckoo.Find.{find_value_by_key_lem}

-- The key 1 stands in the first table, and 4, whose slot there it takes, in the second.
abbrev small : Table
small = record {
  n_count = 3;
  table1 = empty_entry ∷ record { key = pos 1; value = pos 10 } ∷ empty_entry ∷ [];
  table2 = empty_entry ∷ record { key = pos 4; value = pos 40 } ∷ empty_entry ∷ [];
}

where_small :
    (s : Slot) (k : ℕ) → HasKey small s k → ((s ≡ (one, 1)) × (k ≡ 1)) ⊎ ((s ≡ (two, 1)) × (k ≡ 4))
unfolding at
where_small (one, zero) k h = absurd (h.1 (pos-injective (sym h.0)))
where_small (one, suc zero) k h = inl (refl, pos-injective (sym h.0))
where_small (one, suc (suc zero)) k h = absurd (h.1 (pos-injective (sym h.0)))
where_small (one, suc (suc (suc i))) k h = absurd (h.1 (pos-injective (sym h.0)))
where_small (two, zero) k h = absurd (h.1 (pos-injective (sym h.0)))
where_small (two, suc zero) k h = inr (refl, pos-injective (sym h.0))
where_small (two, suc (suc zero)) k h = absurd (h.1 (pos-injective (sym h.0)))
where_small (two, suc (suc (suc i))) k h = absurd (h.1 (pos-injective (sym h.0)))

unique_small : (s q : Slot) (k : ℕ) → HasKey small s k → HasKey small q k → s ≡ q
unique_small s q k h g = both (where_small s k h) (where_small q k g)
  where
    both :
        ((s ≡ (one, 1)) × (k ≡ 1)) ⊎ ((s ≡ (two, 1)) × (k ≡ 4))
        → ((q ≡ (one, 1)) × (k ≡ 1)) ⊎ ((q ≡ (two, 1)) × (k ≡ 4))
        → s ≡ q
    both (inl x) (inl y) = x.0 ∙ sym y.0
    both (inl x) (inr y) = absurd (omega arith)
    both (inr x) (inl y) = absurd (omega arith)
    both (inr x) (inr y) = x.0 ∙ sym y.0

placed_small : (s : Slot) (k : ℕ) → HasKey small s k → s.1 ≡ home 3 s.0 k
placed_small s k h = elim (where_small s k h) [
  | inl x ↦ subst (λ (p : Slot). p.1 ≡ home 3 p.0 k) (sym x.0) (rw x.1 refl)
  | inr y ↦ subst (λ (p : Slot). p.1 ≡ home 3 p.0 k) (sym y.0) (rw y.1 refl)
]

natural_small : (s : Slot) → (k : ℕ) × ((at small s).key ≡ pos k)
unfolding at
natural_small (one, zero) = (0, refl)
natural_small (one, suc zero) = (1, refl)
natural_small (one, suc (suc zero)) = (0, refl)
natural_small (one, suc (suc (suc i))) = (0, refl)
natural_small (two, zero) = (0, refl)
natural_small (two, suc zero) = (4, refl)
natural_small (two, suc (suc zero)) = (0, refl)
natural_small (two, suc (suc (suc i))) = (0, refl)

small-IsValid : IsValid small
small-IsValid = record {
  sized = record { positive = omega arith; size1 = refl; size2 = refl };
  placed = placed_small;
  unique = unique_small;
  natural = natural_small;
}

-- Both slots of 13 are taken; 1 can move on, and 4 cannot.
abbrev thirteen : Entry
thirteen = record { key = pos 13; value = pos 130 }

fresh_small : (k : ℕ) → k ≢ 1 → k ≢ 4 → ¬ Holds small k
fresh_small k one_ne four_ne (s, h) = elim (where_small s k h) [
  | inl x ↦ one_ne x.1
  | inr y ↦ four_ne y.1
]

insert_entry_lem_example : Returns (insert_entry thirteen small) (Outcome small 13 thirteen)
insert_entry_lem_example =
    insert_entry_lem small 13 thirteen small-IsValid (fresh_small 13 (omega arith) (omega arith))
      (omega arith) refl

re_hash_lem_example : Returns (re_hash 5 small (at small (one, 1))) (Moved 5 small (one, 1))
unfolding at
re_hash_lem_example = re_hash_lem 5 small small-IsValid (one, 1) 1 one_there
  where
    one_there : HasKey small (one, 1) 1
    one_there = (refl, (λ h. omega arith))

find_value_by_key_lem_example :
    Returns (find_value_by_key small (pos 4)) (λ b. (b ≡ true) ↔ Holds small 4)
find_value_by_key_lem_example = find_value_by_key_lem small 4 small-IsValid (omega arith)

first_empty : (at small (one, 0)).key ≡ pos 0
unfolding at
first_empty = refl
