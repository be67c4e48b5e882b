-- ===== src/Logging/Record.antt =====
-- C/logging/log.c: the logger's settings, the thread's cached time, and how a line is put together.
pub mod Clock
mod Tests
pub mod Line
use coding_demo.Base.{
  ℕ, zero, suc, ◌+◌, ◌-◌, ◌%◌, Bool, true, false, ◌&&◌, not, Option, none, some, List, [], ◌∷◌,
  ◌++◌, ltb, leb, ◌==◌, if◌then◌else◌, length, get_elem?, replicate, ◌>>=◌,
}
use coding_demo.Libc.Buffer.{codes, c_string, print_at, write_at}
use coding_demo.Libc.Decimal.{decimal, padded}
use coding_demo.Libc.Time.{line_stamp}

-- `OutputFunc`: standard output, `log_async_get_log`, or a function of the user's.
pub data Sink : Type 0 where
  standard : Sink
  async : Sink
  custom : ℕ → Sink

pub record Logger : Type 0 where
  pub level : ℕ
  pub output : Sink
  pub flush : Sink
  pub async_enabled : Bool

abbrev pub default_logger : Logger
default_logger = record { level = 0; output = standard; flush = standard; async_enabled = false }

abbrev pub set_log_output_func : Sink → Logger → Logger
set_log_output_func out logger = record logger { output = out }

abbrev pub set_log_flush_func : Sink → Logger → Logger
set_log_flush_func flush logger = record logger { flush = flush }

-- The level is kept in a `uint8_t`.
abbrev pub set_log_level : ℕ → Logger → Logger
set_log_level level logger = record logger { level = level % 256 }

abbrev pub set_log_async_enabled : Logger → Logger
set_log_async_enabled logger = record logger { async_enabled = true }

-- `log_init`: the settings after it, and whether it starts the back end.
unfoldable pub log_init : Logger → Logger × Bool
log_init logger =
    if logger.async_enabled then (set_log_output_func async logger, true) else (logger, false)

-- `log_exit`: whether it stops the back end.
unfoldable pub log_exit : Logger → Bool
log_exit logger = logger.async_enabled

-- The thread's variables. `t_time` has 32 bytes.
pub record ThreadState : Type 0 where
  pub t_time : List ℕ
  pub t_seconds : ℕ
  pub t_cachetid : ℕ
  pub t_saved_errno : ℕ

abbrev pub new_thread : ThreadState
new_thread = record { t_time = replicate 32 0; t_seconds = 0; t_cachetid = 0; t_saved_errno = 0 }

-- `gettid`, with what the system call returns.
unfoldable pub gettid : ℕ → ThreadState → ℕ × ThreadState
gettid tid t = if t.t_cachetid == 0 then (tid, record t { t_cachetid = tid }) else (t.t_cachetid, t)

-- `sprintf(t_time + 17, …)` is not bounded: what passes the end is a fault.
unfoldable pub print_tail : List ℕ → List ℕ → Option (List ℕ)
print_tail text buf =
    if ltb (length buf) (17 + length text + 1)
    then none
    else some (write_at buf 17 (text ++ 0 ∷ []))

-- A second that is not the cached one is formatted anew; a stamp of another length fails the
-- assertion.
unfoldable pub refresh : ℕ → ThreadState → Option ThreadState
refresh seconds t =
    if t.t_seconds == seconds
    then some t
    else print_at (line_stamp seconds) t.t_time 0 >>= λ r.
        if r.1 == 17 then some (record t { t_time = r.0; t_seconds = seconds }) else none

-- `record_log_time`, with what `gettimeofday` gives.
unfoldable pub record_log_time : ℕ → ℕ → ThreadState → Option ThreadState
record_log_time seconds microseconds t = do
  t ← refresh seconds t
  stamp ← print_tail (b'.' ∷ padded 6 microseconds ++ b'Z' ∷ []) t.t_time
  some (record t { t_time = stamp })

abbrev pub escape : List ℕ
escape = 27 ∷ []

abbrev pub level_names : List (List ℕ)
level_names =
    codes "TRACE "
    ∷ codes "DEBUG "
    ∷ codes "INFO  "
    ∷ codes "WARN  "
    ∷ codes "ERROR "
    ∷ codes "FATAL "
    ∷ []

abbrev pub log_level_color : List (List ℕ)
log_level_color =
    (escape ++ codes "[1;37m")
    ∷ (escape ++ codes "[0;36m")
    ∷ (escape ++ codes "[0;32;32m")
    ∷ (escape ++ codes "[1;33m")
    ∷ (escape ++ codes "[0;35m")
    ∷ (escape ++ codes "[0;32;31m")
    ∷ []

abbrev pub end_color : List ℕ
end_color = escape ++ codes "[m"

abbrev pub level_error : ℕ
level_error = 4

abbrev pub level_fatal : ℕ
level_fatal = 5

abbrev pub buf_size : ℕ
buf_size = 512

-- A call: the arguments of `log_log`, with `msg` the message that the format expands to.
pub record Call : Type 0 where
  pub level : ℕ
  pub srcfile : List ℕ
  pub func : List ℕ
  pub line : ℕ
  pub sysflag : Bool
  pub msg : List ℕ

-- What the system answers: the time, the thread's id, `errno`, and its text.
pub record Env : Type 0 where
  pub seconds : ℕ
  pub microseconds : ℕ
  pub tid : ℕ
  pub errno : ℕ
  pub strerror : ℕ → List ℕ

-- What a call does: nothing, an output of the first `len` bytes of the buffer, or an output that is
-- followed by a flush and `abort`.
pub data Effect : Type 0 where
  skipped : Effect
  output : Sink → List ℕ → ℕ → Effect
  aborted : Sink → List ℕ → ℕ → Sink → Effect

-- "%s%s%s%s/%s:%d - "
abbrev pub position : List ℕ → List ℕ → Call → List ℕ
position color name c =
    (((((color ++ name) ++ end_color) ++ c.srcfile) ++ (b'/' ∷ c.func)) ++ (b':' ∷ decimal c.line))
    ++ codes " - "

-- "(errno=%d) %s"
abbrev pub errno_text : ℕ → Env → List ℕ
errno_text saved env = (codes "(errno=" ++ decimal saved) ++ codes ") " ++ env.strerror saved

abbrev pub is_system : Call → Bool
is_system c = c.sysflag && leb level_error c.level

-- Steps 1 to 5: the text in the buffer and its length.
unfoldable pub compose : Call → Env → ThreadState → List ℕ → List ℕ → List ℕ → Option (List ℕ × ℕ)
compose c env t color name buf = do
  (b, n) ← print_at (c_string t.t_time ++ b' ' ∷ []) buf 0
  (b, n) ← print_at (padded 5 t.t_cachetid ++ b' ' ∷ []) b n
  (b, n) ← print_at (position color name c) b n
  (b, n) ← print_at c.msg b n
  if is_system c && not (t.t_saved_errno == 0)
      then print_at (errno_text t.t_saved_errno env) b n
      else some (b, n)

-- Step 6: the newline, and the NUL.
unfoldable pub finish : List ℕ → ℕ → List ℕ × ℕ
finish b n =
    if ltb n buf_size
    then (let b' = write_at b n (10 ∷ []) in
        (if ltb (n + 1) buf_size then write_at b' (n + 1) (0 ∷ []) else b', n + 1))
    else (b, n)

unfoldable pub emit : Logger → ℕ → List ℕ × ℕ → Effect
emit logger level (b, n) =
    if level == level_fatal
    then aborted logger.output b n logger.flush
    else output logger.output b n

-- `log_log`, with the thread's buffer. A level without a name is a read out of bounds.
unfoldable pub log_log : Logger → Call → Env → ThreadState → List ℕ → Option (ThreadState × Effect)
log_log logger c env t buf = if ltb c.level logger.level then some (t, skipped) else (do
  t ←
      record_log_time env.seconds env.microseconds
        (if is_system c then record t { t_saved_errno = env.errno } else t)
  color ← get_elem? log_level_color c.level
  name ← get_elem? level_names c.level
  let t' = (gettid env.tid t).1
  (b, n) ← compose c env t' color name buf
  some (t', emit logger c.level (finish b n)))
