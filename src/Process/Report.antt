-- ===== src/Process/Report.antt =====
-- What lps reports: processor time as parts of a total, and the whole of `collect_process_info`.
use coding_demo.Base.{
  ℕ, zero, suc, ◌+◌, ◌-◌, ◌/◌, ◌%◌, ◌^◌, Bool, ◌&&◌, ◌||◌, not, Option, none, some, List, [], ◌∷◌,
  ◌++◌, ltb, ◌==◌, if◌then◌else◌, length, get_elem?, drop, replicate, ◌>>=◌, ◌>>?◌, ℤ, pos, negsuc,
  ◌=ℤ◌,
}
use coding_demo.Libc.Buffer.{codes, c_string}
use coding_demo.Process.{
  Machine, ProcessState, CpuUsage, max_path_len, prefix_task_path, get_proc_process_path,
  lookup_thread_id, lookup_pid_by_name, collect_cpu_time,
}
use coding_demo.Libc.Concat.{strncat}

-- A difference of unsigned longs.
abbrev pub sub64 : ℕ → ℕ → ℕ
sub64 a b = (a + 2 ^ 64 - b) % 2 ^ 64

abbrev pub usage_total : CpuUsage → ℕ
usage_total u =
    (u.user + u.nice + u.system + u.idle + u.iowait + u.irq + u.softirq + u.steal + u.guest
      + u.guest_nice)
    % 2 ^ 64

-- A printed line: each of the numbers is divided by the report's total.
pub record Share : Type 0 where
  pub pid : ℤ
  pub comm : List ℕ
  pub user : ℕ
  pub system : ℕ

pub record CpuReport : Type 0 where
  pub total : ℕ
  pub user : ℕ
  pub system : ℕ
  pub idle : ℕ
  pub process : Share
  pub thread_num : ℕ
  pub threads : List Share

abbrev pub thread_share : ProcessState → ProcessState → Share
thread_share before after = record {
  pid = before.pid;
  comm = before.comm;
  user = sub64 after.utime before.utime;
  system = sub64 after.stime before.stime;
}

-- The loop over the threads: `count` lines from the `i`-th on. A read past the array is a fault.
unfoldable pub thread_shares : ℕ → ℕ → ℕ → List ProcessState → Option (List Share)
thread_shares zero thread_num i ps = some []
thread_shares (suc count) thread_num i ps = do
  before ← get_elem? ps (i + 2)
  after ← get_elem? ps (thread_num + i + 2)
  rest ← thread_shares count thread_num (i + 1) ps
  some (thread_share before after ∷ rest)

-- Nothing is printed where the total is 0.
unfoldable pub print_cpu_usage : CpuUsage → CpuUsage → List ProcessState → Option (Option CpuReport)
unfolding thread_shares
print_cpu_usage cu0 cu1 ps =
    let total = sub64 (usage_total cu1) (usage_total cu0) in
    if total == 0 then some none else (do
      p0 ← get_elem? ps 0
      p1 ← get_elem? ps 1
      p2 ← get_elem? ps 2
      threads ← thread_shares p2.num_threads p2.num_threads 0 ps
      some (
          some (record {
            total = total;
            user = sub64 cu1.user cu0.user;
            system = sub64 cu1.system cu0.system;
            idle = sub64 cu1.idle cu0.idle;
            process = record {
              pid = p1.pid;
              comm = [];
              user = sub64 ((p1.utime + p1.cutime) % 2 ^ 64) ((p0.utime + p0.cutime) % 2 ^ 64);
              system = sub64 ((p1.stime + p1.cstime) % 2 ^ 64) ((p0.stime + p0.cstime) % 2 ^ 64);
            };
            thread_num = p2.num_threads;
            threads = threads;
          })))

-- Times in clock ticks.
unfoldable pub thread_times : ℕ → ℕ → List ProcessState → Option (List Share)
thread_times zero i ps = some []
thread_times (suc count) i ps = do
  p ← get_elem? ps i
  rest ← thread_times count (i + 1) ps
  some (record { pid = p.pid; comm = p.comm; user = p.utime; system = p.stime } ∷ rest)

-- `print_process_time(ps)`, with the array from `ps` on.
unfoldable pub print_process_time : List ProcessState → Option (List Share)
unfolding thread_times
print_process_time ps = do p ← get_elem? ps 0; thread_times p.num_threads 0 ps

unfoldable pub print_process_state : ℕ → List ℕ
print_process_state state =
    if state == b'R'
    then codes "Running"
    else if state == b'S'
    then codes "Sleeping"
    else if state == b'D'
    then codes "Running"
    else if state == b'Z'
    then codes "Zombie"
    else if state == b'T'
    then codes "Stopped"
    else if state == b't'
    then codes "Tracing stop"
    else if state == b'W'
    then codes "Waking"
    else if state == b'X' || state == b'x'
    then codes "Dead"
    else if state == b'K'
    then codes "Wakekill"
    else if state == b'P'
    then codes "Parked"
    else codes "Unknow option: " ++ state ∷ []

-- `print_process` and the functions that it calls, without the labels of the lines.
pub record Summary : Type 0 where
  pub pid : ℤ
  pub ppid : ℤ
  pub status : List ℕ
  pub rss : ℤ
  pub vsize : ℕ
  pub stack : ℕ
  pub addresses : List ℕ
  pub signals : List ℕ

unfoldable pub print_process : ProcessState → Summary
unfolding print_process_state
print_process p = record {
  pid = p.pid;
  ppid = p.ppid;
  status = print_process_state p.state;
  rss = p.rss;
  vsize = p.vsize / 1024;
  stack = p.startstack;
  addresses = p.start_brk ∷ p.startcode ∷ p.endcode ∷ p.start_data ∷ p.end_data ∷ [];
  signals = p.signal ∷ p.blocked ∷ p.sigignore ∷ p.sigcatch ∷ [];
}

-- `struct arg_param`
pub record ArgParam : Type 0 where
  pub interval : ℤ
  pub pid : ℤ
  pub sort : Bool
  pub pname : List ℕ

pub data Output : Type 0 where
  usage_lines : Option CpuReport → Output
  time_lines : List Share → Output
  summary : Summary → Output

abbrev pub e_cpu_usage : ℕ → Bool
e_cpu_usage type = type % 2 == 1

abbrev pub e_process_time : ℕ → Bool
e_process_time type = type / 2 % 2 == 1

unfoldable pub reports : ℕ → CpuUsage → CpuUsage → List ProcessState → Option (List Output)
unfolding print_cpu_usage print_process_time print_process
reports type cu0 cu1 ps = do
  usage ←
      (if e_cpu_usage type
        then print_cpu_usage cu0 cu1 ps >>= (λ r. some (usage_lines r ∷ []))
        else some [])
  times ←
      (if e_process_time type
        then print_process_time (drop 2 ps) >>= (λ r. some (time_lines r ∷ []))
        else some [])
  if e_cpu_usage type || e_process_time type
      then some (usage ++ times)
      else get_elem? ps 0 >>= λ p. some (summary (print_process p) ∷ [])

-- The process that is asked for, by its id or its name.
unfoldable pub wanted_pid : Machine → ArgParam → Option (Option ℤ)
wanted_pid m param =
    if not (param.pid =ℤ pos 0)
    then some (some param.pid)
    else if length (c_string param.pname) == 0
    then some none
    else lookup_pid_by_name m (c_string param.pname) >>= λ pid. elim pid [
      | pos n ↦ some (some (pos n))
      | negsuc n ↦ some none
    ]

-- The seconds that collect_cpu_time sleeps between its readings: the interval, which is 1 where
-- none is given, as an `unsigned`, and only where the processor time is asked for.
abbrev pub sleep_time : ℕ → ℤ → ℕ
sleep_time type interval = if e_cpu_usage type then seconds interval else 0
  where
    seconds : ℤ → ℕ
    seconds (pos zero) = 1
    seconds (pos (suc n)) = suc n
    seconds (negsuc n) = 2 ^ 32 - suc n

-- `m secs` is the machine where the second readings come after a sleep of so many seconds. `qsort`
-- is given the array of ids up to the 0; `ps` is the array as it stands on the stack.
unfoldable pub collect_process_info :
    (List ℤ → List ℤ)
    → (ℕ → Machine)
    → ArgParam
    → ℕ
    → List ProcessState
    → Option (Option (List Output))
unfolding wanted_pid reports
collect_process_info qsort after param type ps =
    let m = after (sleep_time type param.interval) in
    wanted_pid m param >>? λ pid. get_proc_process_path pid (replicate max_path_len 0) >>= λ r.
    strncat r.0 prefix_task_path (max_path_len - r.1) >>= λ path.
    lookup_thread_id m path >>? λ id_rec.
    let ids = if param.sort && ltb 1 (length id_rec) then qsort id_rec else id_rec in
    collect_cpu_time m pid ids ps >>? λ r. reports type r.0 r.1 r.2 >>= λ out. some (some out)
