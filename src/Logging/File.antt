-- ===== src/Logging/File.antt =====
-- C/logging/log_file.c: the static variables as one state, and what the file system answers as
-- arguments. Times are seconds since 1970, and the flush interval is not negative.
pub mod Name
mod Tests
pub mod Append
use coding_demo.Base.{
  ℕ, zero, suc, ◌+◌, ◌-◌, ◌*◌, ◌/◌, ◌%◌, ◌^◌, Bool, true, false, Option, none, some, List, [], ◌∷◌,
  ◌++◌, ltb, ◌==◌, if◌then◌else◌, length, drop, replicate, ◌>>=◌,
}
use coding_demo.Libc.Buffer.{take, c_string, print_at}
use coding_demo.Libc.Decimal.{decimal}
use coding_demo.Libc.Time.{file_stamp}

-- What happens to the file, in order.
pub data Event : Type 0 where
  wrote : List ℕ → Event
  flushed : Event
  closed : Event
  opened : List ℕ → Event

-- The static variables; `is_open` is `fp != NULL`.
pub record LogFile : Type 0 where
  pub is_open : Bool
  pub written_bytes : ℕ
  pub start_day : ℕ
  pub last_flush_time : ℕ
  pub flush_interval : ℕ
  pub roll_size : ℕ
  pub filename : List ℕ
  pub basename : List ℕ
  pub events : List Event

abbrev pub seconds_per_day : ℕ
seconds_per_day = 60 * 60 * 24

-- What `log_file_roll` asks the system for: the time, the host's name, the process id, and whether
-- `fopen` succeeds.
pub record RollEnv : Type 0 where
  pub now : ℕ
  pub hostname : List ℕ
  pub pid : ℕ
  pub opens : Bool

-- The file name is built in an array of 128 bytes.
unfoldable pub get_log_file_name : List ℕ → RollEnv → Option (List ℕ)
get_log_file_name basename env = do
  (f, pos) ← print_at (c_string basename) (replicate 128 0) 0
  (f, pos) ← print_at (file_stamp env.now) f pos
  (f, pos) ← print_at env.hostname f pos
  (f, pos) ← print_at (b'.' ∷ decimal env.pid) f pos
  (f, _) ← print_at (b'.' ∷ b'l' ∷ b'o' ∷ b'g' ∷ []) f pos
  some f

-- `setbuffer` on the NULL of a failed `fopen` is a fault.
unfoldable pub log_file_roll : RollEnv → LogFile → Option LogFile
log_file_roll env s = do
  name ← get_log_file_name s.basename env
  if env.opens
      then some (record s {
        is_open = true;
        start_day = env.now / seconds_per_day;
        last_flush_time = env.now;
        written_bytes = 0;
        filename = name;
        events =
            s.events ++ ((if s.is_open then closed ∷ [] else []) ++ opened (c_string name) ∷ []);
      })
      else none

-- What the calls of `fwrite` return, one after the other; 0 from the end of the list on.
abbrev pub Results : Type 0
Results = List ℕ

-- The `while (remain > 0)` of `file_append`: the bytes that it writes. `mem` is the memory behind
-- `msg`; a request for bytes past its end is a fault. `remain -= x` wraps.
unfoldable pub append_loop : Results → List ℕ → ℕ → ℕ → ℕ → Option (List ℕ)
append_loop [] mem len n remain =
    if remain == 0 then some [] else if ltb (length mem) (n + len) then none else some []
append_loop (x ∷ xs) mem len n remain =
    let more =
      append_loop xs mem len (n + x) ((remain + 2 ^ 64 - x) % 2 ^ 64)
      >>= (λ out. some (take x (drop n mem) ++ out)) in
    if remain == 0
    then some []
    else if ltb (length mem) (n + len)
    then none
    else if x == 0
    then some []
    else more

unfoldable pub file_bytes : Results → List ℕ → ℕ → Option (List ℕ)
unfolding append_loop
file_bytes [] mem len = if ltb (length mem) len then none else append_loop [] mem len 0 len
file_bytes (x ∷ xs) mem len =
    if ltb (length mem) len
    then none
    else append_loop xs mem len x ((len + 2 ^ 64 - x) % 2 ^ 64)
      >>= (λ out. some (take x mem ++ out))

-- `fwrite` on a NULL stream is a fault. The count grows by `len`, whatever was written.
unfoldable pub file_append : Results → List ℕ → ℕ → LogFile → Option LogFile
file_append results mem len s =
    if s.is_open
    then file_bytes results mem len >>= (λ out. some (record s {
      written_bytes = (s.written_bytes + len) % 2 ^ 64;
      events = s.events ++ wrote out ∷ [];
    }))
    else none

-- `fflush`
unfoldable pub log_file_flush : LogFile → LogFile
log_file_flush s = record s { events = s.events ++ flushed ∷ [] }

-- `fclose` leaves `fp` as it is.
unfoldable pub log_file_close : LogFile → Option LogFile
log_file_close s = if s.is_open then some (record s { events = s.events ++ closed ∷ [] }) else none

-- The tests after an append: roll by size, roll by day, or flush.
unfoldable pub after_append : ℕ → RollEnv → LogFile → Option LogFile
after_append now env s =
    if ltb s.roll_size s.written_bytes
    then log_file_roll env s
    else if now / seconds_per_day == s.start_day
    then (if ltb (s.last_flush_time + s.flush_interval) now
        then some (log_file_flush (record s { last_flush_time = now }))
        else some s)
    else log_file_roll env s

unfoldable pub log_file_append : Results → ℕ → RollEnv → List ℕ → ℕ → LogFile → Option LogFile
log_file_append results now env mem len s = do
  s ← file_append results mem len s
  after_append now env s

-- `var_file_params`: a name that does not fit puts the last `*(basename+n) = '\0'` out of bounds.
unfoldable pub var_file_params : List ℕ → ℕ → ℕ → LogFile → Option LogFile
var_file_params name size interval s = do
  (b, n) ← print_at name s.basename 0
  if ltb n (length s.basename)
      then some (record s { basename = b; flush_interval = interval; roll_size = size })
      else none
