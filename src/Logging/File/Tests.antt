-- ===== src/Logging/File/Tests.antt =====
-- The theorems on the log file at a file with room for ten bytes.
use coding_demo.Base.{
  ◌≡◌, refl, arith, ℕ, ◌<◌, some, true, List, [], ◌∷◌, Returns, ◌⊎◌, length, replicate,
}
use coding_demo.Libc.Buffer.{c_string, IsText}
use coding_demo.Libc.Decimal.{decimal, digits, width, padded}
use coding_demo.Libc.Time.{file_stamp, gmtime}
use coding_demo.Logging.File.{
  LogFile, RollEnv, wrote, opened, closed, get_log_file_name, log_file_append,
}
use coding_demo.Logging.File.Name.{full_name, get_log_file_name-fits}
use coding_demo.Logging.File.Append.{IsCurrent, SameSettings, log_file_append_lem}

-- 2001-09-09, on the host `h`, as process 7.
abbrev env : RollEnv
env = record { now = 1_000_000_000; hostname = b'h' ∷ []; pid = 7; opens = true }

abbrev base : List ℕ
base = b'a' ∷ b'p' ∷ b'p' ∷ 0 ∷ []

abbrev file : LogFile
file = record {
  is_open = true;
  written_bytes = 8;
  start_day = 0;
  last_flush_time = 0;
  flush_interval = 3;
  roll_size = 10;
  filename = [];
  basename = base;
  events = [];
}

-- The name of the file: app.20010909-014640.h.7.log
abbrev name : List ℕ
name =
    b'a' ∷ b'p' ∷ b'p' ∷ b'.' ∷ b'2' ∷ b'0' ∷ b'0' ∷ b'1' ∷ b'0' ∷ b'9' ∷ b'0' ∷ b'9' ∷ b'-' ∷ b'0'
    ∷ b'1' ∷ b'4' ∷ b'6' ∷ b'4' ∷ b'0' ∷ b'.' ∷ b'h' ∷ b'.' ∷ b'7' ∷ b'.' ∷ b'l' ∷ b'o' ∷ b'g' ∷ []

name_built : full_name (c_string base) env ≡ name
unfolding file_stamp decimal c_string digits width gmtime padded
name_built = refl

stamp_length : length (file_stamp 1_000_000_000) ≡ 17
unfolding file_stamp decimal digits width gmtime padded
stamp_length = refl

long_length : length (c_string (replicate 120 b'x')) ≡ 120
unfolding c_string
long_length = refl

name_short : length (full_name (c_string base) env) < 128
name_short = rw name_built (omega arith)

name-IsText : IsText (full_name (c_string base) env)
name-IsText = rw name_built (ground arith)

abbrev built : List ℕ
built = (get_log_file_name-fits base env name_short name-IsText).0

builds : get_log_file_name base env ≡ some built
builds = (get_log_file_name-fits base env name_short name-IsText).1

-- The file is at its size after three bytes more, so a new one is opened.
log_file_append_lem_example :
    Returns (log_file_append (3 ∷ []) 5 env (b'a' ∷ b'b' ∷ b'c' ∷ []) 3 file) λ s'.
      (s'.events ≡ wrote (b'a' ∷ b'b' ∷ b'c' ∷ []) ∷ closed ∷ opened (c_string built) ∷ [])
      × (IsCurrent 5 s' ⊎ IsCurrent 1_000_000_000 s')
      × SameSettings file s'
log_file_append_lem_example =
    log_file_append_lem file (b'a' ∷ b'b' ∷ b'c' ∷ []) 3 [] 5 env built refl (omega arith)
      (omega arith) refl builds
