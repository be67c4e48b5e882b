-- ===== src/Process.antt =====
-- C/process: the data that lps reads from /proc, and how it finds and reads the files.
pub mod Path
pub mod Collect
pub mod Usage
pub mod Lookup
mod Tests
pub mod Report
pub mod Options
use coding_demo.Base.{
  ℕ, zero, suc, ◌+◌, ◌-◌, ◌*◌, ◌/◌, ◌%◌, ◌^◌, Bool, true, false, ◌&&◌, not, Option, none, some,
  List, [], ◌∷◌, ◌++◌, ltb, leb, ◌==◌, if◌then◌else◌, length, get_elem?, set, replicate, ◌>>=◌,
  ◌>>?◌, ℤ, pos, negsuc, ◌=ℤ◌,
}
use coding_demo.Libc.Buffer.{codes, take, c_string, print_at, write_at}
use coding_demo.Libc.Concat.{strncat, snprintf_at}
use coding_demo.Libc.Number.{int_text, is_digit}
use coding_demo.Libc.Scan.{long_value, strtol_end, to_int}

abbrev pub max_path_len : ℕ
max_path_len = 256

-- The Makefile's value.
abbrev pub max_thread_support : ℕ
max_thread_support = 256

abbrev pub prefix_proc_path : List ℕ
prefix_proc_path = codes "/proc/"

abbrev pub prefix_task_path : List ℕ
prefix_task_path = codes "/task/"

abbrev pub prefix_stat_file : List ℕ
prefix_stat_file = codes "/stat"

abbrev pub prefix_comm_file : List ℕ
prefix_comm_file = codes "/comm"

abbrev pub task_comm_len : ℕ
task_comm_len = 18

-- `struct process_state_t`: the fields that the program reads again. A `long` that is added to an
-- unsigned one is its 64 bits.
pub record ProcessState : Type 0 where
  pub pid : ℤ
  pub comm : List ℕ
  pub state : ℕ
  pub ppid : ℤ
  pub utime : ℕ
  pub stime : ℕ
  pub cutime : ℕ
  pub cstime : ℕ
  pub num_threads : ℕ
  pub vsize : ℕ
  pub rss : ℤ
  pub startcode : ℕ
  pub endcode : ℕ
  pub startstack : ℕ
  pub signal : ℕ
  pub blocked : ℕ
  pub sigignore : ℕ
  pub sigcatch : ℕ
  pub start_data : ℕ
  pub end_data : ℕ
  pub start_brk : ℕ

pub record CpuUsage : Type 0 where
  pub user : ℕ
  pub nice : ℕ
  pub system : ℕ
  pub idle : ℕ
  pub iowait : ℕ
  pub irq : ℕ
  pub softirq : ℕ
  pub steal : ℕ
  pub guest : ℕ
  pub guest_nice : ℕ

-- What the file system answers: the names in a directory, the word in a `comm` file, and what
-- `fscanf` reads from a `stat` file, at the n-th such read. `none` is a file that cannot be opened
-- or read.
pub record Machine : Type 0 where
  pub entries : List ℕ → Option (List (List ℕ))
  pub comm : List ℕ → Option (List ℕ)
  pub stat : ℕ → List ℕ → Option ProcessState
  pub usage : ℕ → Option CpuUsage

unfoldable pub get_proc_process_path : ℤ → List ℕ → Option (List ℕ × ℕ)
get_proc_process_path pid buf = print_at (prefix_proc_path ++ int_text pid) buf 0

-- The size that is left leaves out one byte more than the NUL.
unfoldable pub get_proc_thread_path : ℤ → ℤ → List ℕ → Option (Option (List ℕ × ℕ))
unfolding get_proc_process_path snprintf_at
get_proc_thread_path pid tid buf = do
  (b, cur_len) ← get_proc_process_path pid buf
  let remain_size = (length buf + 2 ^ 64 - cur_len - 1) % 2 ^ 64
  let text = prefix_task_path ++ int_text tid
  if leb remain_size (length prefix_task_path)
      then some none
      else snprintf_at b cur_len remain_size text >>= λ b. some (some (b, cur_len + length text))

-- The name is read by a "%s" without a width: one that is longer than its array is a fault.
abbrev pub fits_comm : Option ProcessState → Option (Option ProcessState)
fits_comm none = some none
fits_comm (some p) = if ltb (length p.comm) task_comm_len then some (some p) else none

-- `read_process_state_fields`
unfoldable pub read_process_state_fields : Machine → ℕ → List ℕ → Option (Option ProcessState)
read_process_state_fields m clock path = fits_comm (m.stat clock (c_string path))

unfoldable pub collect_single_process_info : Machine → ℕ → ℤ → Option (Option ProcessState)
unfolding get_proc_process_path strncat read_process_state_fields
collect_single_process_info m clock pid = do
  (b, cur_len) ← get_proc_process_path pid (replicate max_path_len 0)
  b ← strncat b prefix_stat_file (max_path_len - cur_len)
  read_process_state_fields m clock b

unfoldable pub collect_thread_info : Machine → ℕ → ℤ → ℤ → Option (Option ProcessState)
unfolding get_proc_thread_path strncat read_process_state_fields
collect_thread_info m clock pid tid =
    get_proc_thread_path pid tid (replicate max_path_len 0) >>? λ r.
    strncat r.0 prefix_stat_file (max_path_len - r.1) >>= λ b. read_process_state_fields m clock b

-- `read_sys_prof`
unfoldable pub read_sys_prof : Machine → ℕ → Option (Option CpuUsage)
read_sys_prof m clock = some (m.usage clock)

-- `ps[i] = x`
unfoldable pub store : List ProcessState → ℕ → ProcessState → Option (List ProcessState)
store ps i x = if ltb i (length ps) then some (set ps i x) else none

-- The loop over `id_rec`, which stores from `i` on.
unfoldable pub collect_threads :
    Machine → ℕ → ℤ → List ℤ → ℕ → List ProcessState → Option (Option (List ProcessState))
unfolding collect_thread_info store
collect_threads m clock pid [] i ps = some (some ps)
collect_threads m clock pid (tid ∷ ids) i ps = collect_thread_info m clock pid tid >>? λ x.
    store ps i x >>= λ ps. collect_threads m (clock + 1) pid ids (i + 1) ps

-- All the first readings, then all the second ones.
unfoldable pub collect_cpu_time :
    Machine
    → ℤ
    → List ℤ
    → List ProcessState
    → Option (Option (CpuUsage × CpuUsage × List ProcessState))
unfolding read_sys_prof collect_single_process_info collect_threads store
collect_cpu_time m pid id_rec ps =
    let n = length id_rec in
    read_sys_prof m 0 >>? λ cu0. collect_single_process_info m 1 pid >>? λ p0.
    store ps 0 p0 >>= λ ps. collect_threads m 2 pid id_rec 2 ps >>? λ ps.
    read_sys_prof m (2 + n) >>? λ cu1. collect_single_process_info m (3 + n) pid >>? λ p1.
    store ps 1 p1 >>= λ ps.
    collect_threads m (4 + n) pid id_rec (n + 2) ps >>? λ ps. some (some (cu0, cu1, ps))

-- The loop of `lookup_thread_id` after `i` names; the array of ids has room for `room` more. A
-- store past its end is a fault.
unfoldable pub thread_ids : ℕ → ℕ → List (List ℕ) → Option (Option (List ℤ))
unfolding strtol_end
thread_ids room i [] = if room == 0 then none else some (some [])
thread_ids room i (name ∷ names) =
    let (digit, rest) = strtol_end name in
    let tid = to_int digit in
    let skip = thread_ids room (i + 1) names in
    let keep = thread_ids (room - 1) (i + 1) names >>? λ ids. some (some (tid ∷ ids)) in
    if leb max_thread_support i
    then some none
    else if not (tid =ℤ pos 0) && length rest == 0
    then (if room == 0 then none else keep)
    else skip

unfoldable pub lookup_thread_id : Machine → List ℕ → Option (Option (List ℤ))
unfolding thread_ids
lookup_thread_id m path =
    some (m.entries (c_string path)) >>? λ names. thread_ids (max_thread_support + 1) 0 names

abbrev pub same : List ℕ → List ℕ → Bool
same [] [] = true
same [] (y ∷ ys) = false
same (x ∷ xs) [] = false
same (x ∷ xs) (y ∷ ys) = x == y && same xs ys

abbrev pub all_digits : List ℕ → Bool
all_digits [] = true
all_digits (c ∷ s) = is_digit c && all_digits s

-- The file with a process's name.
abbrev pub comm_path : List ℕ → List ℕ
comm_path d = take (max_path_len - 1) (prefix_proc_path ++ d ++ prefix_comm_file)

-- What comes of the word in such a file: the id of the process, or what the rest of the loop gives.
-- A word that is longer than its array is a fault.
unfoldable pub check_word : List ℕ → List ℕ → Option ℤ → Option (List ℕ) → Option ℤ
unfolding long_value
check_word name d rest none = rest
check_word name d rest (some word) =
    if leb task_comm_len (length word)
    then none
    else if same name word
    then some (to_int (long_value d))
    else rest

-- The loop of `lookup_pid_by_name`.
unfoldable pub find_name : Machine → List ℕ → List (List ℕ) → Option ℤ
unfolding check_word
find_name m name [] = some (negsuc 0)
find_name m name (d ∷ ds) =
    let rest = find_name m name ds in
    if all_digits d then check_word name d rest (m.comm (comm_path d)) else rest

unfoldable pub find_in : Machine → List ℕ → Option (List (List ℕ)) → Option ℤ
unfolding find_name
find_in m name none = some (negsuc 0)
find_in m name (some names) = find_name m name names

unfoldable pub lookup_pid_by_name : Machine → List ℕ → Option ℤ
unfolding find_in
lookup_pid_by_name m name = find_in m name (m.entries prefix_proc_path)
