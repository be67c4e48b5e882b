-- ===== src/Hash/Cuckoo/Slots.antt =====
-- The slots of the two tables, reads and writes by slot, and the invariant of the table.
use coding_demo.Base.{
  ℕ, ◌/◌, ◌%◌, ◌<◌, ◌≡◌, refl, ap, sym, ◌≢◌, ◌⊎◌, inl, inr, none, some, Option, List, arith, length,
  get_elem?, length-set, get_elem?-set_self, get_elem?-set_ne, get_elem?-lt, pos,
}
use native.Mathlib.Decide.{ℕ_discrete}
use coding_demo.Hash.Cuckoo.{Entry, Table, empty_entry, read, write, Side, one, two, place}

abbrev pub Slot : Type 0
Slot = Side × ℕ

abbrev pub entry_or : Option Entry → Entry
entry_or none = empty_entry
entry_or (some e) = e

abbrev pub table_of : Table → Side → List Entry
table_of t one = t.table1
table_of t two = t.table2

-- The entry in a slot; outside the table there is none.
unfoldable pub at : Table → Slot → Entry
at t s = entry_or (get_elem? (table_of t s.0) s.1)

-- `hashFunc1` and `hashFunc2` of a key that is not negative.
abbrev pub home : ℕ → Side → ℕ → ℕ
home n one k = k % n
home n two k = k / n % n

abbrev pub flip : Side → Side
flip one = two
flip two = one

pub record IsSized (t : Table) : Type 0 where
  pub positive : 0 < t.n_count
  pub size1 : length t.table1 ≡ t.n_count
  pub size2 : length t.table2 ≡ t.n_count

size-table_of : (t : Table) (side : Side) → IsSized t → length (table_of t side) ≡ t.n_count
size-table_of t one v = v.size1
size-table_of t two v = v.size2

pub home-lt : (n k : ℕ) (side : Side) → 0 < n → home n side k < n
home-lt n k one h = omega arith
home-lt n k two h = omega arith

pub read-at :
    (t : Table) (side : Side) (i : ℕ)
    → IsSized t
    → i < t.n_count
    → read (table_of t side) (pos i) ≡ some (at t (side, i))
unfolding read at
read-at t side i v h =
    let (e, found) = get_elem?-lt (table_of t side) i (rw (size-table_of t side v) h) in rw found

pub place-IsSized :
    (side : Side) (i : ℕ) (e : Entry) (t : Table) → IsSized t → IsSized (place side (pos i) e t)
unfolding place write
place-IsSized one i e t v = ground (arith, length-set t.table1 i e)
place-IsSized two i e t v = ground (arith, length-set t.table2 i e)

pub n_count-place :
    (side : Side) (i : ℕ) (e : Entry) (t : Table) → (place side (pos i) e t).n_count ≡ t.n_count
unfolding place
n_count-place one i e t = refl
n_count-place two i e t = refl

pub at-place_self :
    (side : Side) (i : ℕ) (e : Entry) (t : Table)
    → IsSized t
    → i < t.n_count
    → at (place side (pos i) e t) (side, i) ≡ e
unfolding at place write
at-place_self one i e t v h = rw (get_elem?-set_self t.table1 i e (rw v.size1 h))
at-place_self two i e t v h = rw (get_elem?-set_self t.table2 i e (rw v.size2 h))

pub at-place_ne :
    (side : Side) (i : ℕ) (e : Entry) (t : Table) (q : Slot)
    → q ≢ (side, i)
    → at (place side (pos i) e t) q ≡ at t q
unfolding at place write
at-place_ne one i e t (one, j) ne =
    ap entry_or (get_elem?-set_ne t.table1 e (λ h. ne (ap (λ k. (one, k)) (sym h))))
at-place_ne one i e t (two, j) ne = refl
at-place_ne two i e t (one, j) ne = refl
at-place_ne two i e t (two, j) ne =
    ap entry_or (get_elem?-set_ne t.table2 e (λ h. ne (ap (λ k. (two, k)) (sym h))))

pub Slot-cases : (s q : Slot) → (s ≡ q) ⊎ (s ≢ q)
Slot-cases (one, i) (two, j) = inr (λ e. side_ne (ap (λ s. s.0) e))
  where
    side_ne : ¬ (one ≡ two)
    side_ne e = cc
Slot-cases (two, i) (one, j) = inr (λ e. side_ne (ap (λ s. s.0) e))
  where
    side_ne : ¬ (two ≡ one)
    side_ne e = cc
Slot-cases (one, i) (one, j) = elim (ℕ_discrete i j) [
  | yes e ↦ inl (ap (λ k. (one, k)) e)
  | no ne ↦ inr (λ e. ne (ap (λ s. s.1) e))
]
Slot-cases (two, i) (two, j) = elim (ℕ_discrete i j) [
  | yes e ↦ inl (ap (λ k. (two, k)) e)
  | no ne ↦ inr (λ e. ne (ap (λ s. s.1) e))
]

pub flip-ne : (side : Side) (i j : ℕ) → ¬ (◌≡◌ {A = Slot} (side, i) (flip side, j))
flip-ne one i j e = cc
flip-ne two i j e = cc

-- A slot holds the key `k`, which is not the mark of an empty slot.
abbrev pub HasKey : Table → Slot → ℕ → Type 0
HasKey t s k = ((at t s).key ≡ pos k) × (k ≢ 0)

-- Every entry stands where its key belongs, no key stands twice, and no key is negative.
pub record IsValid (t : Table) : Type 0 where
  pub sized : IsSized t
  pub placed : (s : Slot) (k : ℕ) → HasKey t s k → s.1 ≡ home t.n_count s.0 k
  pub unique : (s q : Slot) (k : ℕ) → HasKey t s k → HasKey t q k → s ≡ q
  pub natural : (s : Slot) → (k : ℕ) × ((at t s).key ≡ pos k)

-- The table holds the key.
abbrev pub Holds : Table → ℕ → Type 0
Holds t k = (s : Slot) × HasKey t s k
