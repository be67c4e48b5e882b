-- ===== src/Hash/Simple.antt =====
-- C/hash/simplehash: one table of eleven slots with linear probing. An index outside an array is a
-- fault; what is printed is not modelled.
pub mod Probe
mod Tests
use coding_demo.Base.{
  ℕ, zero, suc, ◌+◌, ◌%◌, Bool, true, false, Option, none, some, List, [], ◌∷◌, leb, ◌==◌,
  if◌then◌else◌, get_elem?, set, replicate, ◌>>=◌, ℤ, pos, negsuc, ◌=ℤ◌, rem,
}

abbrev pub max_entry_nums : ℕ
max_entry_nums = 11

abbrev pub max_str_len : ℕ
max_str_len = 10

-- `value` is NULL, or the index of a row of `data_table`.
pub record HashEntry : Type 0 where
  pub key : ℤ
  pub value : Option ℕ
  pub flag : ℕ

pub record HashTable : Type 0 where
  pub count : ℕ
  pub cap : ℕ
  pub table : List HashEntry

-- The rows of the global `data_table`.
abbrev pub Rows : Type 0
Rows = List (List ℕ)

-- What `malloc` and `memset` leave.
abbrev pub no_entry : HashEntry
no_entry = record { key = pos 0; value = none; flag = 0 }

unfoldable pub init_hash_table : HashTable × Rows
init_hash_table = (
  record { count = 0; cap = max_entry_nums; table = replicate max_entry_nums no_entry },
  replicate max_entry_nums (replicate max_str_len 0),
)

unfoldable pub hash_key : ℤ → ℤ
hash_key key = rem key max_entry_nums

unfoldable pub entry_at : List HashEntry → ℤ → Option HashEntry
entry_at table (pos i) = get_elem? table i
entry_at table (negsuc i) = none

-- `memcpy(row, value, len)`; it neither reads nor writes past an array.
unfoldable pub memcpy : List ℕ → List ℕ → ℕ → Option (List ℕ)
memcpy row value zero = some row
memcpy (r ∷ row) (c ∷ value) (suc len) = memcpy row value len >>= λ rest. some (c ∷ rest)
memcpy _ _ (suc len) = none

-- `while (t->table[pos].flag == 1)`, on fuel.
unfoldable pub probe : ℕ → List HashEntry → ℕ → Option ℕ
probe zero table i = none
probe (suc fuel) table i =
    let more = probe fuel table ((i + 1) % max_entry_nums) in
    get_elem? table i >>= λ e. if e.flag == 1 then more else some i

-- After the search: the entry and its row are written.
unfoldable pub put_entry : ℕ → ℤ → List ℕ → ℕ → HashTable → Rows → Option (ℕ × HashTable × Rows)
unfolding memcpy
put_entry i key value len t data_table = do
  row ← get_elem? data_table i
  row ← memcpy row value len
  some (
    1,
    record t {
      table = set t.table i (record { key = key; value = some i; flag = 1 });
      count = t.count + 1;
    },
    set data_table i row,
  )

-- `index` as a place in the table; the loop starts from it.
unfoldable pub place_from : ℤ → ℤ → List ℕ → ℕ → HashTable → Rows → Option (ℕ × HashTable × Rows)
unfolding probe put_entry
place_from (pos i) key value len t data_table =
    probe max_entry_nums t.table i >>= λ i. put_entry i key value len t data_table
place_from (negsuc i) key value len t data_table = none

unfoldable pub insert_hash_table :
    Option HashTable → ℤ → List ℕ → ℕ → Rows → Option (ℕ × Option HashTable × Rows)
unfolding hash_key entry_at
insert_hash_table none key value len data_table = some (0, none, data_table)
insert_hash_table (some t) key value len data_table =
    if leb max_entry_nums t.count
    then some (0, some t, data_table)
    else (entry_at t.table (hash_key key) >>= λ home.
        if home.key =ℤ key
        then some (0, some t, data_table)
        else (place_from (hash_key key) key value len t data_table >>= λ out.
            some (out.0, some out.1, out.2)))
