-- ===== src/Hash/Cuckoo.antt =====
-- C/hash/cuckoohash: two tables, two hash functions, and eviction along a chain. A key of 0 marks
-- an empty slot. An index outside a table is a fault.
pub mod Slots
mod Tests
pub mod Evict
pub mod Chain
pub mod Find
pub mod Init
pub mod Insert
use coding_demo.Base.{
  ℕ, zero, suc, ◌+◌, ◌-◌, ◌*◌, ◌/◌, ◌%◌, Bool, true, false, Option, none, some, List, [], ◌∷◌, ltb,
  leb, ◌==◌, if◌then◌else◌, length, get_elem?, set, replicate, ◌>>=◌, ℤ, pos, negsuc, ◌=ℤ◌, quot,
  rem,
}

pub record Entry : Type 0 where
  pub key : ℤ
  pub value : ℤ

-- `nCount` is kept positive by `getMinPrime`.
pub record Table : Type 0 where
  pub n_count : ℕ
  pub table1 : List Entry
  pub table2 : List Entry

abbrev pub max_loop : ℕ
max_loop = 1000

abbrev pub empty_entry : Entry
empty_entry = record { key = pos 0; value = pos 0 }

-- `for (i = 2; i <= sqrt(value); i++)`, on fuel: a divisor up to the root is found.
unfoldable pub has_divisor : ℕ → ℕ → ℕ → Bool
has_divisor zero i value = false
has_divisor (suc fuel) i value =
    let more = has_divisor fuel (i + 1) value in
    if leb (i * i) value then (if value % i == 0 then true else more) else false

unfoldable pub is_prime : ℕ → Bool
unfolding has_divisor
is_prime value = if value == 0 then false else (if has_divisor value 2 value then false else true)

-- `while (isPrime(value) == 0) value++`, on fuel.
unfoldable pub get_min_prime : ℕ → ℕ → Option ℕ
unfolding is_prime
get_min_prime zero value = none
get_min_prime (suc fuel) value =
    let more = get_min_prime fuel (value + 1) in if is_prime value then some value else more

unfoldable pub hash_func1 : Table → ℤ → ℤ
hash_func1 t key = rem key t.n_count

unfoldable pub hash_func2 : Table → ℤ → ℤ
hash_func2 t key = rem (quot key t.n_count) t.n_count

unfoldable pub init_hash_table : ℕ → ℕ → Option Table
init_hash_table fuel size = get_min_prime fuel size >>= λ n.
    some
      (record { n_count = n; table1 = replicate n empty_entry; table2 = replicate n empty_entry })

-- `table[i]`
unfoldable pub read : List Entry → ℤ → Option Entry
read table (pos i) = get_elem? table i
read table (negsuc i) = none

-- `table[i].key = e.key; table[i].value = e.value`, after a read at `i`.
unfoldable pub write : List Entry → ℤ → Entry → List Entry
write table (pos i) e = set table i e
write table (negsuc i) e = table

-- The two tables by name.
pub data Side : Type 0 where
  one : Side
  two : Side

unfoldable pub place : Side → ℤ → Entry → Table → Table
unfolding write
place one i e t = record t { table1 = write t.table1 i e }
place two i e t = record t { table2 = write t.table2 i e }

-- The two branches of `reHash`: put `e` at the slot `i` of a table, whose occupant is moved first
-- if there is one. `move` is `reHash` with one less to go.
unfoldable pub relocate :
    (Table → Entry → Option (Bool × Table))
    → Side
    → ℤ
    → Entry
    → Entry
    → Table
    → Option (Bool × Table)
relocate move side i occupant e t =
    if occupant.key =ℤ pos 0
    then some (true, place side i e t)
    else move t occupant >>= λ r. some (if r.0 then (true, place side i e r.1) else (false, r.1))

unfoldable pub re_hash : ℕ → Table → Entry → Option (Bool × Table)
unfolding relocate place read hash_func1 hash_func2
re_hash zero t e = some (false, t)
re_hash (suc deeps) t e = do
  let h1 = hash_func1 t e.key
  let h2 = hash_func2 t e.key
  first ← read t.table1 h1
  second ← read t.table2 h2
  if e.key =ℤ first.key
      then relocate (re_hash deeps) two h2 second e t
      else if e.key =ℤ second.key
      then relocate (re_hash deeps) one h1 first e t
      else some (false, t)

-- What `insertHashTable` does once both slots are taken: it moves the occupant of the first, or
-- else that of the second. The second is read after the first attempt.
unfoldable pub evict : ℤ → ℤ → Entry → Entry → Table → Option (Bool × Table)
evict h1 h2 first e t = re_hash max_loop t first >>= λ r.
    if r.0
    then some (true, place one h1 e r.1)
    else read r.1.table2 h2 >>= λ second. re_hash max_loop r.1 second >>= λ q.
        some (if q.0 then (true, place two h2 e q.1) else (false, q.1))

-- On a table that is not NULL.
unfoldable pub insert_entry : Entry → Table → Option (Bool × Table)
insert_entry e t = do
  let h1 = hash_func1 t e.key
  let h2 = hash_func2 t e.key
  first ← read t.table1 h1
  if first.key =ℤ pos 0
      then some (true, place one h1 e t)
      else read t.table2 h2 >>= λ second.
          if second.key =ℤ pos 0 then some (true, place two h2 e t) else evict h1 h2 first e t

-- `insertHashTable`: -1 for NULL, 1 for success, 0 for a chain that does not end.
unfoldable pub insert_hash_table : Option Table → Entry → Option (ℤ × Option Table)
insert_hash_table none e = some (negsuc 0, none)
insert_hash_table (some t) e =
    insert_entry e t >>= λ r. some (if r.0 then pos 1 else pos 0, some r.1)

unfoldable pub find_value_by_key : Table → ℤ → Option Bool
find_value_by_key t key = do
  first ← read t.table1 (hash_func1 t key)
  if first.key =ℤ key
      then some true
      else read t.table2 (hash_func2 t key) >>= λ second. some (second.key =ℤ key)
