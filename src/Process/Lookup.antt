-- ===== src/Process/Lookup.antt =====
-- The ids of the threads, and the process with a name.
use coding_demo.Base.{
  ℕ, zero, suc, ◌+◌, ◌-◌, ◌/◌, ◌%◌, ◌^◌, ◌≤◌, ◌<◌, ◌≡◌, refl, ◌∙◌, ◌⊎◌, inl, inr, Bool, ◌&&◌, not,
  true, false, none, some, List, [], ◌∷◌, ◌++◌, arith, leb, ◌==◌, if◌then◌else◌, length, ℤ, pos,
  ◌=ℤ◌, Bool-cases, All,
}
use coding_demo.Libc.Buffer.{c_string}
use coding_demo.Libc.Decimal.{decimal, digits, width}
use coding_demo.Libc.Scan.{strtol_end, long_value, long_value-decimal, to_int, to_int-small}
use coding_demo.Process.{
  Machine, max_thread_support, prefix_proc_path, task_comm_len, comm_path, find_in, thread_ids,
  lookup_thread_id, same, all_digits, find_name, lookup_pid_by_name,
}

-- The name is a number whose `int` is not 0, and nothing else.
abbrev pub is_id : List ℕ → Bool
is_id name = not (to_int (strtol_end name).0 =ℤ pos 0) && length (strtol_end name).1 == 0

-- The numbers among the names as they are converted to `int`, in order.
abbrev pub numbers : List (List ℕ) → List ℤ
numbers [] = []
numbers (name ∷ names) =
    if is_id name then to_int (strtol_end name).0 ∷ numbers names else numbers names

thread_ids-fits :
    (room i : ℕ) (names : List (List ℕ))
    → i + length names ≤ 256
    → length names < room
    → thread_ids room i names ≡ some (some (numbers names))
unfolding thread_ids
thread_ids-fits room i [] h k = ground arith
thread_ids-fits room i (name ∷ names) h k =
    let skip = thread_ids-fits room (i + 1) names (omega arith) (omega arith) in
    let keep = thread_ids-fits (room - 1) (i + 1) names (omega arith) (omega arith) in
    let below : leb 256 i ≡ false = ground arith in
    let some_room : (room == 0) ≡ false = ground arith in
    elim (Bool-cases (is_id name)) [
      | inl yes_id ↦ rw (below, yes_id, some_room, keep)
      | inr no_id ↦ rw (below, no_id, skip)
    ]

thread_ids-full :
    (room i : ℕ) (names : List (List ℕ))
    → i ≤ 256
    → 256 < i + length names
    → 256 < room + i
    → thread_ids room i names ≡ some none
unfolding thread_ids
thread_ids-full room i [] le h k = absurd (omega arith)
thread_ids-full room i (name ∷ names) le h k = elim (Bool-cases (leb 256 i)) [
  | inl at_end ↦ rw at_end refl
  | inr below ↦
      let small : i < 256 = ground arith in
      let skip = thread_ids-full room (i + 1) names (omega arith) (omega arith) (omega arith) in
      let keep =
        thread_ids-full (room - 1) (i + 1) names (omega arith) (omega arith) (omega arith) in
      let some_room : (room == 0) ≡ false = ground arith in
      elim (Bool-cases (is_id name)) [
        | inl yes_id ↦ rw (below, yes_id, some_room, keep)
        | inr no_id ↦ rw (below, no_id, skip)
      ]
]

-- Where the directory can be read, lookup_thread_id never writes past the array of ids: with at
-- most MAX_THREAD_SUPPORT names it returns, as they are converted to `int`, the numbers among them
-- whose `int` is not 0, in order, and with more it fails.
pub lookup_thread_id_lem :
    (m : Machine) (path : List ℕ) (names : List (List ℕ))
    → m.entries (c_string path) ≡ some names
    → lookup_thread_id m path
      ≡ some (if leb (length names) max_thread_support then some (numbers names) else none)
unfolding lookup_thread_id
lookup_thread_id_lem m path names e = elim (Bool-cases (leb (length names) 256)) [
  | inl fits ↦ rw (e, fits) (thread_ids-fits 257 0 names (ground arith) (ground arith))
  | inr over ↦ rw (e, over) (thread_ids-full 257 0 names (omega arith) (ground arith) (omega arith))
]

same_refl : (s : List ℕ) → same s s ≡ true
same_refl [] = refl
same_refl (c ∷ s) = ground (arith, same_refl s)

-- The directory entry is not the process's: no number, no file, or another name.
abbrev pub IsOther : Machine → List ℕ → List ℕ → Type 0
IsOther m name d =
    (all_digits d ≡ false)
    ⊎ ((m.comm (comm_path d) ≡ none)
        ⊎ ((word : List ℕ) × (m.comm (comm_path d) ≡ some word)
            × (length word < task_comm_len)
            × (same name word ≡ false)))

find_name-skip :
    (m : Machine) (name d : List ℕ) (ds : List (List ℕ))
    → IsOther m name d
    → find_name m name (d ∷ ds) ≡ find_name m name ds
unfolding find_name
find_name-skip m name d ds (inl no_number) = rw no_number refl
find_name-skip m name d ds (inr (inl no_file)) = elim (Bool-cases (all_digits d)) [
  | inl digits ↦ rw (digits, no_file) refl
  | inr no_digits ↦ rw no_digits refl
]
find_name-skip m name d ds (inr (inr (word, e, short, other))) =
    let fits : leb 18 (length word) ≡ false = ground arith in
    elim (Bool-cases (all_digits d)) [
      | inl digits ↦ rw (digits, e, fits, other) refl
      | inr no_digits ↦ rw no_digits refl
    ]

find_name-here :
    (m : Machine) (name d : List ℕ) (ds : List (List ℕ))
    → all_digits d ≡ true
    → m.comm (comm_path d) ≡ some name
    → length name < task_comm_len
    → find_name m name (d ∷ ds) ≡ some (to_int (long_value d))
unfolding find_name
find_name-here m name d ds digits e short =
    let fits : leb 18 (length name) ≡ false = ground arith in rw (digits, e, fits, same_refl name)

find_name_lem :
    (m : Machine) (name d : List ℕ) (before after : List (List ℕ))
    → All (IsOther m name) before
    → all_digits d ≡ true
    → m.comm (comm_path d) ≡ some name
    → length name < task_comm_len
    → find_name m name (before ++ d ∷ after) ≡ some (to_int (long_value d))
find_name_lem m name d [] after others digits e short = find_name-here m name d after digits e short
find_name_lem m name d (x ∷ before) after others digits e short =
    find_name-skip m name x (before ++ d ∷ after) others.0
    ∙ find_name_lem m name d before after others.1 digits e short

all_digits-append :
    (xs ys : List ℕ) → all_digits xs ≡ true → all_digits ys ≡ true → all_digits (xs ++ ys) ≡ true
all_digits-append [] ys h k = k
all_digits-append (x ∷ xs) ys h k = ground (arith, all_digits-append xs ys)

all_digits-digits : (w n : ℕ) → all_digits (digits w n) ≡ true
unfolding digits
all_digits-digits zero n = refl
all_digits-digits (suc w) n =
    all_digits-append (digits w (n / 10)) ((b'0' + n % 10) ∷ []) (all_digits-digits w (n / 10))
      (ground arith)

all_digits-decimal : (n : ℕ) → all_digits (decimal n) ≡ true
unfolding decimal
all_digits-decimal n = all_digits-digits (width 20 n) n

-- If the first directory of /proc whose process has the name, in a file that can be read and a word
-- that fits, is that of the process n, below 2 ^ 31, and those before it are no numbers, have no
-- file or have another name that fits, lookup_pid_by_name returns n.
pub lookup_pid_by_name_lem :
    (m : Machine) (name : List ℕ) (n : ℕ) (before after : List (List ℕ))
    → m.entries prefix_proc_path ≡ some (before ++ decimal n ∷ after)
    → All (IsOther m name) before
    → m.comm (comm_path (decimal n)) ≡ some name
    → length name < task_comm_len
    → n < 2 ^ 31
    → lookup_pid_by_name m name ≡ some (pos n)
unfolding lookup_pid_by_name find_in
lookup_pid_by_name_lem m name n before after e others here short small = rw (
  e,
  find_name_lem m name (decimal n) before after others (all_digits-decimal n) here short,
  long_value-decimal n (omega arith),
  to_int-small n small,
)
