-- ===== src/Process/Path.antt =====
-- The paths under /proc, and the files that are read.
use coding_demo.Base.{
  ℕ, zero, suc, ◌+◌, ◌-◌, ◌/◌, ◌%◌, ◌^◌, ◌≤◌, ◌<◌, ◌≡◌, refl, some, List, ◌++◌, arith, leb, false,
  length, replicate, length-append, All-append, Returns, ℤ, pos, negsuc,
}
use coding_demo.Libc.Buffer.{Holds, IsText, c_string-Holds, print_at-start}
use coding_demo.Libc.Decimal.{decimal, width, length-digits, decimal-IsText}
use coding_demo.Libc.Concat.{snprintf_at, snprintf_at-Holds, strncat-Holds}
use coding_demo.Libc.Number.{int_text}
use coding_demo.Process.{
  Machine, prefix_proc_path, prefix_task_path, prefix_stat_file, max_path_len,
  get_proc_process_path, get_proc_thread_path, collect_single_process_info, collect_thread_info,
  read_process_state_fields, fits_comm,
}

width-small : (fuel n : ℕ) → width fuel n ≤ suc fuel
unfolding width
width-small zero n = omega arith
width-small (suc fuel) n = ground (arith, width-small fuel (n / 10))

length-int_text : (z : ℤ) → length (int_text z) ≤ 22
unfolding int_text decimal
length-int_text (pos n) = omega (arith, length-digits (width 20 n) n, width-small 20 n)
length-int_text (negsuc n) =
    omega (arith, length-digits (width 20 (suc n)) (suc n), width-small 20 (suc n))

int_text-IsText : (z : ℤ) → IsText (int_text z)
unfolding int_text
int_text-IsText (pos n) = decimal-IsText n
int_text-IsText (negsuc n) = (omega arith, decimal-IsText (suc n))

-- /proc/<pid>
abbrev pub process_path : ℤ → List ℕ
process_path pid = prefix_proc_path ++ int_text pid

process_path-IsText : (pid : ℤ) → IsText (process_path pid)
process_path-IsText pid =
    All-append (λ c. 0 < c) prefix_proc_path (int_text pid) (ground arith) (int_text-IsText pid)

length-process_path : (pid : ℤ) → length (process_path pid) ≤ 28
length-process_path pid =
    omega (arith, length-append prefix_proc_path (int_text pid), length-int_text pid)

-- /proc/<pid>/task/<tid>
abbrev pub thread_path : ℤ → ℤ → List ℕ
thread_path pid tid = process_path pid ++ (prefix_task_path ++ int_text tid)

-- The statistics of a process are read from /proc/<pid>/stat.
pub collect_single_process_info_lem :
    (m : Machine) (clock : ℕ) (pid : ℤ)
    → collect_single_process_info m clock pid
      ≡ fits_comm (m.stat clock (process_path pid ++ prefix_stat_file))
unfolding collect_single_process_info get_proc_process_path read_process_state_fields
collect_single_process_info_lem m clock pid =
    let small = length-process_path pid in
    let (r, run1, h) =
      print_at-start 256 (process_path pid) (replicate max_path_len 0) refl (omega arith) in
    let (b, run2, g) =
      strncat-Holds 256 (process_path pid) prefix_stat_file r.0 r.1 (max_path_len - r.1) h
        (process_path-IsText pid) (omega arith) (omega (arith, h.at_end)) in
    let path = c_string-Holds 256 _ b _ g (
      All-append (λ c. 0 < c) (process_path pid) prefix_stat_file (process_path-IsText pid)
        (ground arith)) in
    rw (run1, run2, path)

length-task : (tid : ℤ) → length (prefix_task_path ++ int_text tid) ≤ 28
length-task tid = omega (arith, length-append prefix_task_path (int_text tid), length-int_text tid)

thread_path-IsText : (pid tid : ℤ) → IsText (thread_path pid tid)
thread_path-IsText pid tid =
    All-append (λ c. 0 < c) (process_path pid) (prefix_task_path ++ int_text tid)
      (process_path-IsText pid)
      (All-append (λ c. 0 < c) prefix_task_path (int_text tid) (ground arith) (int_text-IsText tid))

-- What is left of the array once `cur` bytes of it are used.
remain_lem : (cur : ℕ) → cur ≤ 28 → (256 + 2 ^ 64 - cur - 1) % 2 ^ 64 ≡ 255 - cur
remain_lem cur h = omega arith

get_proc_thread_path-eq :
    (pid tid : ℤ) (buf b b2 : List ℕ) (cur left : ℕ)
    → get_proc_process_path pid buf ≡ some (b, cur)
    → (length buf + 2 ^ 64 - cur - 1) % 2 ^ 64 ≡ left
    → leb left 6 ≡ false
    → snprintf_at b cur left (prefix_task_path ++ int_text tid) ≡ some b2
    → get_proc_thread_path pid tid buf
      ≡ some (some (b2, cur + length (prefix_task_path ++ int_text tid)))
unfolding get_proc_thread_path
get_proc_thread_path-eq pid tid buf b b2 cur left path size room print =
    rw (path, size, room, print)

-- A thread's path always fits in the array.
pub get_proc_thread_path_lem :
    (pid tid : ℤ)
    → Returns
        (get_proc_thread_path pid tid (replicate max_path_len 0))
        λ r. Returns r λ b. Holds 256 (thread_path pid tid) b.0 b.1
unfolding get_proc_process_path
get_proc_thread_path_lem pid tid =
    let small = length-process_path pid in
    let more = length-task tid in
    let (r, run1, h) =
      print_at-start 256 (process_path pid) (replicate max_path_len 0) refl (omega arith) in
    let left : (length (replicate {A = ℕ} max_path_len 0) + 2 ^ 64 - r.1 - 1) % 2 ^ 64 ≡ 255 - r.1 =
      remain_lem r.1 (omega (arith, h.at_end)) in
    let (b, run2, g) =
      snprintf_at-Holds 256 (process_path pid) (prefix_task_path ++ int_text tid) r.0 r.1
        (255 - r.1) h (omega arith) (omega (arith, h.at_end)) in
    let room : leb (255 - r.1) 6 ≡ false = ground (arith, h.at_end) in
    (
      some (b, r.1 + length (prefix_task_path ++ int_text tid)),
      get_proc_thread_path-eq pid tid (replicate max_path_len 0) r.0 b r.1 (255 - r.1) run1 left
          room run2,
      ((b, r.1 + length (prefix_task_path ++ int_text tid)), refl, g),
    )

-- The statistics of a thread are read from /proc/<pid>/task/<tid>/stat.
pub collect_thread_info_lem :
    (m : Machine) (clock : ℕ) (pid tid : ℤ)
    → collect_thread_info m clock pid tid
      ≡ fits_comm (m.stat clock (thread_path pid tid ++ prefix_stat_file))
unfolding collect_thread_info read_process_state_fields
collect_thread_info_lem m clock pid tid =
    let small = length-process_path pid in
    let more = length-task tid in
    let both = length-append (process_path pid) (prefix_task_path ++ int_text tid) in
    let (o, run1, (r, same, h)) = get_proc_thread_path_lem pid tid in
    let (b, run2, g) =
      strncat-Holds 256 (thread_path pid tid) prefix_stat_file r.0 r.1 (max_path_len - r.1) h
        (thread_path-IsText pid tid) (omega arith) (omega (arith, h.at_end)) in
    let path = c_string-Holds 256 _ b _ g (
      All-append (λ c. 0 < c) (thread_path pid tid) prefix_stat_file (thread_path-IsText pid tid)
        (ground arith)) in
    rw (run1, same, run2, path)
