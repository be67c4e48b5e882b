-- ===== src/Hash/Simple/Tests.antt =====
-- The table with linear probing at the keys 3 and 14, which hash to the same slot.
use coding_demo.Base.{ℕ, ◌≡◌, ◌≢◌, refl, some, [], ◌∷◌, arith, Returns, pos, ◌>>=◌, replicate}
use coding_demo.Hash.Simple.{
  HashEntry, HashTable, Rows, init_hash_table, insert_hash_table, place_from, no_entry,
}
use coding_demo.Hash.Simple.Probe.{IsFree, IsValid, HasRow, inserted, insert_hash_table_lem}

-- The table with the key 3.
abbrev three : HashEntry
three = record { key = pos 3; value = some 3; flag = 1 }

abbrev with_three : HashTable
with_three = record {
  count = 1;
  cap = 11;
  table = no_entry ∷ no_entry ∷ no_entry ∷ three ∷ replicate 7 no_entry;
}

abbrev rows : Rows
rows = replicate 11 (replicate 10 0)

insert-three :
    (insert_hash_table (some init_hash_table.0) (pos 3) [] 0 init_hash_table.1 >>= λ out.
    some out.1)
    ≡ some (some with_three)
unfolding insert_hash_table init_hash_table place_from
insert-three = refl

-- The key 0 is taken for one that is there, since an empty slot has it.
insert-zero :
    insert_hash_table (some init_hash_table.0) (pos 0) [] 0 init_hash_table.1
    ≡ some (0, some init_hash_table.0, init_hash_table.1)
unfolding insert_hash_table init_hash_table place_from
insert-zero = refl

insert_hash_table_lem_example :
    Returns (insert_hash_table (some with_three) (pos 14) (b'a' ∷ b'b' ∷ []) 2 rows) λ out.
      (i : ℕ) × IsFree with_three.table i
      × (out.0 ≡ 1)
      × (out.1 ≡ some (inserted i (pos 14) with_three))
      × IsValid (inserted i (pos 14) with_three)
      × HasRow i (b'a' ∷ b'b' ∷ []) 2 rows out.2
insert_hash_table_lem_example =
    insert_hash_table_lem with_three 14 three (b'a' ∷ b'b' ∷ []) 2 rows
      (record { slots = refl; counts = refl }) (omega arith) refl (ground arith) refl other
      (omega arith) (omega arith)
  where
    other : three.key ≢ pos 14
    other e = ground arith
