-- ===== src/Logging/Record/Tests.antt =====
-- The theorems on the line of a call at a call of a new thread.
use coding_demo.Base.{◌≡◌, refl, arith, ℕ, true, false, ◌++◌, Returns, length, replicate}
use coding_demo.Libc.Buffer.{codes, c_string}
use coding_demo.Libc.Decimal.{decimal, digits, width, padded}
use coding_demo.Libc.Time.{line_stamp, gmtime}
use coding_demo.Logging.Record.{new_thread, Call, Env, record_log_time, escape}
use coding_demo.Logging.Record.Clock.{IsCached, tail_text, record_log_time_lem}
use coding_demo.Logging.Record.Line.{before_message}

abbrev second : ℕ
second = 1_000_000_000

stamp_length : length (line_stamp second) ≡ 17
unfolding line_stamp decimal digits width gmtime padded
stamp_length = refl

new_thread-IsCached : IsCached new_thread
new_thread-IsCached = record { size = refl; stamp = λ ne. absurd (ne refl) }

record_log_time_lem_example : Returns (record_log_time second 25 new_thread) λ t'.
    (c_string t'.t_time ≡ line_stamp second ++ tail_text 25)
    × IsCached t'
    × (t'.t_seconds ≡ second)
    × (t'.t_cachetid ≡ 0)
    × (t'.t_saved_errno ≡ 0)
record_log_time_lem_example =
    record_log_time_lem second 25 new_thread new_thread-IsCached (omega arith) stamp_length
      (omega arith)

-- A failed system call, logged at level ERROR.
abbrev call : Call
call = record {
  level = 4;
  srcfile = codes "a.c";
  func = codes "open";
  line = 7;
  sysflag = true;
  msg = codes "failed";
}

abbrev env : Env
env = record {
  seconds = second;
  microseconds = 25;
  tid = 42;
  errno = 2;
  strerror = λ _. codes "none";
}

-- A message of 500 bytes.
abbrev long_call : Call
long_call = record call { sysflag = false; msg = replicate 500 b'm' }

long_call_fits :
    length (before_message long_call new_thread (escape ++ codes "[0;35m") (codes "ERROR ")) ≡ 36
unfolding c_string decimal digits width padded
long_call_fits = refl
