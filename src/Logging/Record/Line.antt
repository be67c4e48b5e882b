-- ===== src/Logging/Record/Line.antt =====
-- The line that `log_log` hands to the output function.
use coding_demo.Base.{
  ℕ, ◌+◌, ◌<◌, ◌≡◌, ◌≢◌, false, not, ◌&&◌, some, List, [], ◌∷◌, ◌++◌, ◌==◌, arith, if◌then◌else◌,
  length, length-append, Returns,
}
use coding_demo.Libc.Buffer.{take, c_string, print_at-start, print_at-Holds, print_at-size}
use coding_demo.Libc.Decimal.{padded}
use coding_demo.Libc.Time.{line_stamp}
use coding_demo.Logging.Record.{
  ThreadState, Logger, Call, Env, Effect, skipped, output, aborted, buf_size, compose, finish,
  log_log, position, errno_text, is_system, level_fatal,
}
use coding_demo.Logging.Record.Clock.{tail_text}

-- The parts of a line before `errno`: time, thread, position, message.
abbrev pub line_text : Call → List ℕ → ℕ → List ℕ → List ℕ → List ℕ
line_text c time tid color name =
    (((time ++ b' ' ∷ []) ++ (padded 5 tid ++ b' ' ∷ [])) ++ position color name c) ++ c.msg

-- The text about `errno`, for a system call at level ERROR or above whose error is not 0.
abbrev pub errno_part : Call → Env → ℕ → List ℕ
errno_part c env saved = if is_system c && not (saved == 0) then errno_text saved env else []

abbrev pub whole_line : Call → Env → ThreadState → List ℕ → List ℕ → List ℕ
whole_line c env t color name =
    line_text c (c_string t.t_time) t.t_cachetid color name ++ errno_part c env t.t_saved_errno

-- What the caller sees of an effect: where the bytes went, and which bytes.
abbrev pub Emits : Logger → ℕ → List ℕ → Effect → Type 0
Emits logger level text skipped = ⊥
Emits logger level text (output sink b n) =
    (level ≢ level_fatal) × (sink ≡ logger.output) × (take n b ≡ text) × (n ≡ length text)
Emits logger level text (aborted sink b n flush) =
    (level ≡ level_fatal)
    × (sink ≡ logger.output)
    × (flush ≡ logger.flush)
    × (take n b ≡ text)
    × (n ≡ length text)

-- A level below the logger's does nothing at all.
pub log_log_below :
    (logger : Logger) (c : Call) (env : Env) (t : ThreadState) (buf : List ℕ)
    → c.level < logger.level
    → log_log logger c env t buf ≡ some (t, skipped)
unfolding log_log
log_log_below logger c env t buf h = ground arith

-- The thread's id is asked for once.
abbrev pub cached_tid : Env → ThreadState → ℕ
cached_tid env t = if t.t_cachetid == 0 then env.tid else t.t_cachetid

abbrev pub saved_errno : Call → Env → ThreadState → ℕ
saved_errno c env t = if is_system c then env.errno else t.t_saved_errno

-- The state before the time is taken.
abbrev with_errno : Call → Env → ThreadState → ThreadState
with_errno c env t = if is_system c then record t { t_saved_errno = env.errno } else t

-- The line of a call.
abbrev pub line_of : Call → Env → ThreadState → List ℕ → List ℕ → List ℕ
line_of c env t color name =
    line_text c (line_stamp env.seconds ++ tail_text env.microseconds) (cached_tid env t) color name
    ++ errno_part c env (saved_errno c env t)

past_end :
    (b : List ℕ) (n : ℕ)
    → length b ≡ buf_size
    → buf_size < n
    → (length (finish b n).0 ≡ buf_size) × (buf_size < (finish b n).1)
unfolding finish
past_end b n h over = ground arith

-- The text before the message.
abbrev pub before_message : Call → ThreadState → List ℕ → List ℕ → List ℕ
before_message c t color name =
    ((c_string t.t_time ++ b' ' ∷ []) ++ (padded 5 t.t_cachetid ++ b' ' ∷ []))
    ++ position color name c

-- A call with no text of `errno`, whose text before the message fits in the buffer and whose line
-- with the message is longer than the buffer: the output function is told to take more bytes than
-- the buffer has.
pub compose-too_long :
    (c : Call) (env : Env) (t : ThreadState) (color name buf : List ℕ)
    → length buf ≡ buf_size
    → length (before_message c t color name) < buf_size
    → buf_size < length (before_message c t color name) + length c.msg
    → is_system c ≡ false
    → Returns
        (compose c env t color name buf)
        λ r. (length (finish r.0 r.1).0 ≡ buf_size) × (buf_size < (finish r.0 r.1).1)
unfolding compose
compose-too_long c env t color name buf size fits over quiet =
    let time = c_string t.t_time ++ b' ' ∷ [] in
    let tid = padded 5 t.t_cachetid ++ b' ' ∷ [] in
    let pos = position color name c in
    let n1 = length-append time tid in
    let n2 = length-append (time ++ tid) pos in
    let (r1, run1, h1) = print_at-start buf_size time buf size (omega arith) in
    let (r2, run2, h2) = print_at-Holds buf_size _ tid r1.0 r1.1 h1 (omega arith) in
    let (r3, run3, h3) = print_at-Holds buf_size _ pos r2.0 r2.1 h2 (omega arith) in
    let (r4, run4, q) = print_at-size buf_size _ c.msg r3.0 r3.1 h3 fits in
    (r4, rw (run1, run2, run3, run4, quiet), past_end r4.0 r4.1 q.0 (omega arith))
