-- ===== src/Process/Tests.antt =====
-- The theorems on lps at a process 41 with the threads 41 and 42.
use coding_demo.Base.{
  ℕ, ◌*◌, ◌≡◌, refl, inl, some, List, [], ◌∷◌, arith, replicate, pos, none, true,
}
use coding_demo.Libc.Buffer.{codes}
use coding_demo.Libc.Decimal.{decimal}
use coding_demo.Process.{Machine, ProcessState, CpuUsage, lookup_thread_id, lookup_pid_by_name}
use coding_demo.Process.Lookup.{numbers, lookup_thread_id_lem, lookup_pid_by_name_lem}
use coding_demo.Libc.Scan.{long_value}
use coding_demo.Process.Options.{Opt, help, interval, pid, sort, time, put_pname}
use coding_demo.Process.Options.Choice.{first_stop, given}

-- The reading at time `n`: the process has run for n ticks, and has two threads.
abbrev reading : ℕ → List ℕ → ProcessState
reading n path = record {
  pid = pos 41;
  comm = codes "(sh)";
  state = b'S';
  ppid = pos 1;
  utime = 10 * n;
  stime = n;
  cutime = 0;
  cstime = 0;
  num_threads = 2;
  vsize = 4096;
  rss = pos 1;
  startcode = 0;
  endcode = 0;
  startstack = 0;
  signal = 0;
  blocked = 0;
  sigignore = 0;
  sigcatch = 0;
  start_data = 0;
  end_data = 0;
  start_brk = 0;
}

abbrev ticks : ℕ → CpuUsage
ticks n = record {
  user = 10 * n;
  nice = 0;
  system = n;
  idle = n;
  iowait = 0;
  irq = 0;
  softirq = 0;
  steal = 0;
  guest = 0;
  guest_nice = 0;
}

abbrev names : List (List ℕ)
names = codes "." ∷ codes "self" ∷ decimal 41 ∷ codes "42" ∷ []

abbrev machine : Machine
machine = record {
  entries = λ _. some names;
  comm = λ _. some (codes "sh");
  stat = λ n path. some (reading n path);
  usage = λ n. some (ticks n);
}

abbrev room : List ProcessState
room = replicate 7 (reading 0 [])

lookup_thread_id_lem_example :
    lookup_thread_id machine (codes "/proc/41/task/") ≡ some (some (numbers names))
lookup_thread_id_lem_example = lookup_thread_id_lem machine (codes "/proc/41/task/") names refl

lookup_pid_by_name_lem_example : lookup_pid_by_name machine (codes "sh") ≡ some (pos 41)
lookup_pid_by_name_lem_example =
    lookup_pid_by_name_lem machine (codes "sh") 41 (codes "." ∷ codes "self" ∷ []) (codes "42" ∷ [])
      refl (inl refl, (inl refl, tt)) refl (omega arith) (omega arith)

-- The same readings, however long the sleep.
abbrev after : ℕ → Machine
after secs = machine

-- lps -t -p 41 -i 3 -s
abbrev opts : List Opt
opts = time ∷ pid (codes "41") ∷ interval (codes "3") ∷ sort ∷ []

-- The parameters of this call.
what_is_given :
    given opts none ≡ record { interval = pos 3; pid = pos 41; sort = true; pname = replicate 32 0 }
unfolding put_pname long_value
what_is_given = refl

-- lps -i 0 -h
stops_first : first_stop (interval (codes "0") ∷ help ∷ []) ≡ some 1
unfolding long_value
stops_first = refl
