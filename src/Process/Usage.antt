-- ===== src/Process/Usage.antt =====
-- The report on processor time, from the readings that it is made of.
use coding_demo.Base.{ℕ, ◌+◌, ◌%◌, ◌^◌, List, [], ◌∷◌, ℤ}
use coding_demo.Process.{ProcessState, CpuUsage}
use coding_demo.Process.Collect.{thread_file}
use coding_demo.Process.Report.{Share, thread_share, CpuReport, sub64, usage_total}

-- One line for each thread: the difference between its two readings.
abbrev pub shares_of : (ℕ → List ℕ → ProcessState) → ℕ → ℕ → ℤ → List ℤ → List Share
shares_of read first second pid [] = []
shares_of read first second pid (tid ∷ ids) =
    thread_share (read first (thread_file pid tid)) (read second (thread_file pid tid))
    ∷ shares_of read (first + 1) (second + 1) pid ids

-- The time of a process with that of its children that have ended.
abbrev pub user_ticks : ProcessState → ℕ
user_ticks p = (p.utime + p.cutime) % 2 ^ 64

abbrev pub system_ticks : ProcessState → ℕ
system_ticks p = (p.stime + p.cstime) % 2 ^ 64

-- The report from two readings of the system and of the process.
abbrev report_of : CpuUsage → CpuUsage → ProcessState → ProcessState → ℕ → List Share → CpuReport
report_of cu0 cu1 q0 q1 n threads = record {
  total = sub64 (usage_total cu1) (usage_total cu0);
  user = sub64 cu1.user cu0.user;
  system = sub64 cu1.system cu0.system;
  idle = sub64 cu1.idle cu0.idle;
  process = record {
    pid = q1.pid;
    comm = [];
    user = sub64 ((q1.utime + q1.cutime) % 2 ^ 64) ((q0.utime + q0.cutime) % 2 ^ 64);
    system = sub64 ((q1.stime + q1.cstime) % 2 ^ 64) ((q0.stime + q0.cstime) % 2 ^ 64);
  };
  thread_num = n;
  threads = threads;
}
