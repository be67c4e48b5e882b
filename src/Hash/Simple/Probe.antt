-- ===== src/Hash/Simple/Probe.antt =====
-- Insertion into the table with linear probing.
use coding_demo.Base.{
  ℕ, zero, suc, ◌+◌, ◌-◌, ◌%◌, ◌≤◌, ◌<◌, ◌≡◌, ◌≢◌, refl, ap, sym, ◌∙◌, Bool-cases, inl, inr, true,
  false, some, List, [], ◌∷◌, leb, ◌==◌, if◌then◌else◌, length, length-set, set, get_elem?,
  get_elem?-lt, ◌>>=◌, arith, ℤ, pos, ◌=ℤ◌, =ℤ_iff, Returns, All, drop, ◌++◌,
}
use coding_demo.Libc.Buffer.{take}
use mathlib.Core.Path.{subst}
use coding_demo.Hash.Simple.{
  HashEntry, HashTable, Rows, max_entry_nums, hash_key, entry_at, memcpy, probe, put_entry,
  place_from, insert_hash_table,
}

-- How many slots are taken.
abbrev pub used : List HashEntry → ℕ
used [] = 0
used (e ∷ es) = (if e.flag == 1 then 1 else 0) + used es

-- The table has its slots, and counts those that are taken.
pub record IsValid (t : HashTable) : Type 0 where
  pub slots : length t.table ≡ 11
  pub counts : t.count ≡ used t.table

-- A slot that is not taken.
abbrev pub IsFree : List HashEntry → ℕ → Type 0
IsFree es i = (e : HashEntry) × (get_elem? es i ≡ some e) × ((e.flag == 1) ≡ false)

used-IsFree : (es : List HashEntry) → used es < length es → (i : ℕ) × (i < length es) × IsFree es i
used-IsFree [] h = absurd (omega arith)
used-IsFree (e ∷ es) h = elim (Bool-cases (e.flag == 1)) [
  | inl taken ↦ let (i, lt, free) = used-IsFree es (rest taken h) in (suc i, omega arith, free)
  | inr free ↦ (zero, omega arith, (e, refl, free))
]
  where
    rest :
        (e.flag == 1) ≡ true
        → (if e.flag == 1 then 1 else 0) + used es < suc (length es)
        → used es < length es
    rest taken h = ground arith

used-set :
    (es : List HashEntry) (i : ℕ) (e : HashEntry)
    → IsFree es i
    → (e.flag == 1) ≡ true
    → used (set es i e) ≡ used es + 1
used-set [] i e (x, found, free) taken = absurd cc
used-set (y ∷ es) zero e (x, found, free) taken = ground arith
used-set (y ∷ es) (suc i) e (x, found, free) taken =
    omega (arith, used-set es i e (x, found, free) taken)

-- The search finds a free slot, within as many steps as the first one is away.
probe-Returns :
    (fuel j i : ℕ) (es : List HashEntry)
    → length es ≡ 11
    → i < 11
    → j < fuel
    → IsFree es ((i + j) % 11)
    → Returns (probe fuel es i) (λ p. (p < 11) × IsFree es p)
unfolding probe
probe-Returns zero j i es size lt near free = absurd (omega arith)
probe-Returns (suc fuel) j i es size lt near free =
    let (e, found) = get_elem?-lt es i (omega arith) in
    elim (Bool-cases (e.flag == 1)) [
      | inl taken ↦
          rw (found, taken)
            (further e found taken j near free
              (λ j'. probe-Returns fuel j' ((i + 1) % 11) es size (omega arith)))
      | inr here ↦ rw (found, here) (i, refl, (lt, (e, found, here)))
    ]
  where
    further :
        (e : HashEntry)
        → get_elem? es i ≡ some e
        → (e.flag == 1) ≡ true
        → (j : ℕ) → j < suc fuel
        → IsFree es ((i + j) % 11)
        → ((j' : ℕ)
            → j' < fuel
            → IsFree es (((i + 1) % 11 + j') % 11)
            → Returns (probe fuel es ((i + 1) % 11)) (λ p. (p < 11) × IsFree es p))
        → Returns (probe fuel es ((i + 1) % 11)) (λ p. (p < 11) × IsFree es p)
    further e found taken zero near (x, at, free) later =
        let same : (i + 0) % 11 ≡ i = omega arith in
        absurd (clash (sym found ∙ ap (get_elem? es) (sym same) ∙ at))
      where
        clash : some e ≡ some x → ⊥
        clash q = cc
    further e found taken (suc j) near free later =
        let same : (i + suc j) % 11 ≡ ((i + 1) % 11 + j) % 11 = omega arith in
        later j (omega arith) (subst (IsFree es) same free)

memcpy_lem :
    (row value : List ℕ) (len : ℕ)
    → len ≤ length row
    → len ≤ length value
    → memcpy row value len ≡ some (take len value ++ drop len row)
unfolding memcpy
memcpy_lem row value zero h k = refl
memcpy_lem [] value (suc len) h k = absurd (omega arith)
memcpy_lem (r ∷ row) [] (suc len) h k = absurd (omega arith)
memcpy_lem (r ∷ row) (c ∷ value) (suc len) h k =
    let run = memcpy_lem row value len (omega arith) (omega arith) in rw run refl

-- The table with a new entry at a slot, whose value is the row of this slot.
abbrev pub inserted : ℕ → ℤ → HashTable → HashTable
inserted i key t = record t {
  table = set t.table i (record { key = key; value = some i; flag = 1 });
  count = t.count + 1;
}

inserted-IsValid :
    (i : ℕ) (key : ℤ) (t : HashTable) → IsValid t → IsFree t.table i → IsValid (inserted i key t)
inserted-IsValid i key t v free = record {
  slots = length-set t.table i _ ∙ v.slots;
  counts = omega (
    arith,
    used-set t.table i (record { key = key; value = some i; flag = 1 }) free refl,
    v.counts,
  );
}

-- The rows after a text has been copied to the row of a slot.
abbrev pub HasRow : ℕ → List ℕ → ℕ → Rows → Rows → Type 0
HasRow i value len rows rows' =
    (row : List ℕ) × (get_elem? rows i ≡ some row)
    × (rows' ≡ set rows i (take len value ++ drop len row))

put_entry-Returns :
    (i : ℕ) (key : ℤ) (value : List ℕ) (len : ℕ) (t : HashTable) (rows : Rows)
    → length rows ≡ 11
    → All (λ row. length row ≡ 10) rows
    → i < 11
    → len ≤ 10
    → len ≤ length value
    → Returns
        (put_entry i key value len t rows)
        λ out. (out.0 ≡ 1) × (out.1 ≡ inserted i key t) × HasRow i value len rows out.2
unfolding put_entry
put_entry-Returns i key value len t rows size wide lt short enough =
    let (row, found) = get_elem?-lt rows i (omega arith) in
    let run =
      memcpy_lem row value len (omega (arith, All-get_elem? rows i row wide found)) enough in
    (_, rw (found, run) refl, (refl, refl, (row, found, refl)))
  where
    All-get_elem? :
        (rows : Rows) (i : ℕ) (row : List ℕ)
        → All (λ row. length row ≡ 10) rows
        → get_elem? rows i ≡ some row
        → length row ≡ 10
    All-get_elem? [] i row a e = absurd cc
    All-get_elem? (x ∷ xs) zero row a e = let same : x ≡ row = cc in ap length (sym same) ∙ a.0
    All-get_elem? (x ∷ xs) (suc i) row a e = All-get_elem? xs i row a.1 e

place_from-Returns :
    (i : ℕ) (key : ℤ) (value : List ℕ) (len : ℕ) (t : HashTable) (rows : Rows)
    → IsValid t
    → t.count < 11
    → length rows ≡ 11
    → All (λ row. length row ≡ 10) rows
    → i < 11
    → len ≤ 10
    → len ≤ length value
    → Returns (place_from (pos i) key value len t rows) λ out.
      (i : ℕ) × IsFree t.table i
      × (out.0 ≡ 1)
      × (out.1 ≡ inserted i key t)
      × IsValid (inserted i key t)
      × HasRow i value len rows out.2
unfolding place_from
place_from-Returns start key value len t rows v room size wide lt short enough =
    let (j, near, free) = used-IsFree t.table (omega (arith, v.counts, v.slots)) in
    let (i, run, (lt, at)) =
      probe-Returns 11 ((j + 11 - start) % 11) start t.table v.slots lt (omega arith)
        (subst (IsFree t.table) (omega (arith, v.slots)) free) in
    let (out, put, (one, table, row)) =
      put_entry-Returns i key value len t rows size wide lt short enough in
    (
      out,
      ap (λ x. x >>= λ p. put_entry p key value len t rows) run ∙ put,
      (i, at, one, table, inserted-IsValid i key t v at, row),
    )

-- Into a valid table with a slot left, with rows of ten bytes, a key that is not negative and not
-- that of the slot it hashes to is inserted, if its value has the announced bytes, at most ten of
-- them: the search ends, the key and the row of the slot stand in a slot that was free, nothing
-- else in the table changes, the row begins with the value, and the table stays valid.
pub insert_hash_table_lem :
    (t : HashTable) (k : ℕ) (home : HashEntry) (value : List ℕ) (len : ℕ) (rows : Rows)
    → IsValid t
    → t.count < max_entry_nums
    → length rows ≡ 11
    → All (λ row. length row ≡ 10) rows
    → get_elem? t.table (k % max_entry_nums) ≡ some home
    → home.key ≢ pos k
    → len ≤ 10
    → len ≤ length value
    → Returns (insert_hash_table (some t) (pos k) value len rows) λ out.
      (i : ℕ) × IsFree t.table i
      × (out.0 ≡ 1)
      × (out.1 ≡ some (inserted i (pos k) t))
      × IsValid (inserted i (pos k) t)
      × HasRow i value len rows out.2
unfolding insert_hash_table hash_key entry_at
insert_hash_table_lem t k home value len rows v room size wide found other short enough =
    let has_room : leb 11 t.count ≡ false = ground arith in
    let (out, put, (i, at, one, table, w, row)) =
      place_from-Returns (k % 11) (pos k) value len t rows v room size wide (omega arith) short
        enough in
    let last = ap (λ x. x >>= λ out. some (out.0, some out.1, out.2)) put in
    (
      (out.0, some out.1, out.2),
      rw (has_room, found, differs) last,
      (i, at, one, ap some table, w, row),
    )
  where
    differs : (home.key =ℤ pos k) ≡ false
    differs = elim (Bool-cases (home.key =ℤ pos k)) [
      | inl same ↦ absurd (other ((=ℤ_iff home.key (pos k)).0 same))
      | inr apart ↦ apart
    ]
