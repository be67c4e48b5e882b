-- ===== src/Logging/Async/Tests.antt =====
-- The theorems on the asynchronous back end at buffers of eight bytes.
use coding_demo.Base.{
  ◌≡◌, refl, arith, ℕ, ◌<◌, some, none, Option, true, List, [], ◌∷◌, ◌++◌, Returns, length,
  replicate, ◌>>=◌,
}
use coding_demo.Libc.Buffer.{take, write_at, c_string, IsText}
use coding_demo.Libc.Decimal.{decimal, digits, width, padded}
use coding_demo.Libc.Time.{file_stamp, gmtime}
use coding_demo.Logging.File.Name.{full_name, get_log_file_name-fits}
use coding_demo.Logging.File.{
  Results, get_log_file_name, LogFile, RollEnv, Event, flushed, log_file_append, file_append,
  file_bytes, append_loop, after_append, log_file_close, log_file_flush,
}
use coding_demo.Logging.Async.{
  Buffer, Async, Backend, append, buf_alloc, log_async_get_log, next_and_append, collect, write_out,
  write_buffers, System, Action, log, turn, exit, run, start, act, phase_turn, backend_turn,
  async_init, backend_init,
}
use coding_demo.Logging.Async.Invariant.{
  pending, IsSound, in_front, log_async_get_log-IsSound, IsReady, collect-IsSound, IsSafe,
  start-IsSafe, run-IsSafe,
}
use coding_demo.Logging.Async.Content.{fresh-append-append}
use coding_demo.Logging.Async.Drain.{payload, IsOpen, write_out-payload}

abbrev env : RollEnv
env = record { now = 0; hostname = b'h' ∷ []; pid = 7; opens = true }

abbrev file : LogFile
file = record {
  is_open = true;
  written_bytes = 0;
  start_day = 0;
  last_flush_time = 0;
  flush_interval = 3;
  roll_size = 100;
  filename = [];
  basename = b'a' ∷ 0 ∷ [];
  events = [];
}

abbrev hello : List ℕ
hello = b'h' ∷ b'e' ∷ b'l' ∷ b'l' ∷ b'o' ∷ []

-- Three of eight bytes are left.
abbrev part : Buffer
part = record { buf = hello ++ replicate 3 0; avail = 3; len = 5 }

abbrev busy : Async
busy = record {
  current_buffer = some part;
  next_buffer = some (buf_alloc 8);
  buffers = [];
  buffers_len = 0;
  signalled = 0;
}

busy-IsSound : IsSound 8 busy
busy-IsSound = record {
  current = (part, refl, (refl, refl));
  next = (buf_alloc 8, refl);
  queued = tt;
  counted = refl;
}

-- The second message does not fit: a new buffer takes it.
log_async_get_log-IsSound_example :
    Returns (log_async_get_log 8 hello 5 busy) λ s'. IsSound 8 s' × (in_front 8 s' ≡ 10)
log_async_get_log-IsSound_example =
    log_async_get_log-IsSound 8 busy hello 5 busy-IsSound (omega arith)

idle-IsReady : IsReady 8 (backend_init 8)
unfolding backend_init buf_alloc
idle-IsReady = (buf_alloc 8, refl, (omega arith, refl), refl)

collect-IsSound_example : Returns (collect 8 busy (backend_init 8)) λ r.
    IsSound 8 r.0
    × (in_front 8 r.0 ≡ 0)
    × (pending r.1.buffers_to_write ≡ 5)
    × ((b : Buffer) × (some part ≡ some b) × (r.1.buffers_to_write ≡ b ∷ []))
collect-IsSound_example = collect-IsSound 8 busy (backend_init 8) busy-IsSound idle-IsReady

-- Two messages, a round of the back end, and the end.
abbrev actions : List Action
actions =
    log hello 5
    ∷ log hello 5
    ∷ turn []
    ∷ log hello 5
    ∷ turn (
        record { results = 5 ∷ []; now = 1; roll = env }
        ∷ record { results = 5 ∷ []; now = 1; roll = env }
        ∷ [])
    ∷ exit
    ∷ turn []
    ∷ []

abbrev final : Option System → System
final none = start 8 file
final (some s) = s

ends : run 8 actions (start 8 file) ≡ some (final (run 8 actions (start 8 file)))
unfolding run act backend_turn phase_turn start async_init backend_init log_async_get_log
    next_and_append append collect write_out write_buffers buf_alloc log_file_append file_append
    file_bytes append_loop after_append log_file_close log_file_flush write_at
ends = refl

run-IsSafe_example : IsSafe 8 (final (run 8 actions (start 8 file)))
run-IsSafe_example =
    run-IsSafe 8 actions (start 8 file) (final (run 8 actions (start 8 file))) (ground arith) ends
      (start-IsSafe 8 file)

abbrev full_back : Backend
full_back = record {
  new_buffer1 = some (buf_alloc 8);
  new_buffer2 = none;
  buffers_to_write = part ∷ part ∷ [];
}

whole : (later : Results) × ((5 ∷ []) ≡ (5 ∷ later))
whole = ([], refl)

-- a.19700101-000000.h.7.log
name_short : length (full_name (c_string file.basename) env) < 128
unfolding c_string file_stamp decimal digits width gmtime padded
name_short = omega arith

name-IsText : IsText (full_name (c_string file.basename) env)
unfolding c_string file_stamp decimal digits width gmtime padded
name-IsText = ground arith

named : (x : List ℕ) × (get_log_file_name file.basename env ≡ some x)
named =
    let (f, run, _) = get_log_file_name-fits file.basename env name_short name-IsText in (f, run)

write_out-payload_example :
    Returns
      (write_out 8
        (record { results = 5 ∷ []; now = 1; roll = env }
          ∷ record { results = 5 ∷ []; now = 9; roll = env }
          ∷ [])
        full_back
        file)
      λ r.
        (payload r.1.events ≡ hello ++ hello)
        × IsOpen r.1
        × (r.0.buffers_to_write ≡ [])
        × (r.0.new_buffer1 ≡ some (buf_alloc 8))
        × (r.0.new_buffer2 ≡ some (buf_alloc 8))
        × ((es : List Event) × (r.1.events ≡ es ++ flushed ∷ []))
write_out-payload_example =
    write_out-payload 8
      (record { results = 5 ∷ []; now = 1; roll = env }
        ∷ record { results = 5 ∷ []; now = 9; roll = env }
        ∷ [])
      full_back file (record { is_open = refl; bounded = omega arith })
      (whole, refl, named, omega arith, (whole, refl, named, omega arith, tt)) (ground arith)

-- "ab" and then "hello" in a buffer with room for both.
abbrev roomy : Buffer
roomy = record { buf = replicate 8 0; avail = 8; len = 0 }

fresh-append-append_example :
    Returns
      (append (buf_alloc 8) (b'a' ∷ b'b' ∷ []) 2 >>= (λ b'. append b' hello 5))
      λ b. take b.len b.buf ≡ hello ++ 0 ∷ 0 ∷ []
fresh-append-append_example =
    fresh-append-append 8 (b'a' ∷ b'b' ∷ []) hello (omega arith) (omega arith)
