-- ===== src/Logging/Async.antt =====
-- C/logging/log_async.c: the buffers that the front end fills under the lock, and the rounds of the
-- back end. A pointer to a buffer is `none` for NULL; the intrusive list `buffers` is the list of
-- its buffers (Container.Ring shows that the links stand for it); `malloc` succeeds.
pub mod Invariant
pub mod Content
mod Tests
pub mod Drain
pub mod Startup
use coding_demo.Base.{
  ◌||◌, ℕ, suc, ◌+◌, ◌-◌, ◌*◌, ◌≤◌, ◌<◌, Bool, true, false, not, Option, none, some, List, [], ◌∷◌,
  ◌++◌, ltb, ◌==◌, if◌then◌else◌, length, replicate, ◌>>=◌,
}
use coding_demo.Libc.Buffer.{take, write_at}
use coding_demo.Logging.File.{
  LogFile, RollEnv, Results, log_file_append, log_file_flush, log_file_close,
}

-- `Buffer`, without its list node.
pub record Buffer : Type 0 where
  pub buf : List ℕ
  pub avail : ℕ
  pub len : ℕ

-- The static variables of the front end; `signalled` counts the wake-ups of the back end.
pub record Async : Type 0 where
  pub current_buffer : Option Buffer
  pub next_buffer : Option Buffer
  pub buffers : List Buffer
  pub buffers_len : ℕ
  pub signalled : ℕ

-- The local variables of the back end between two of its steps.
pub record Backend : Type 0 where
  pub new_buffer1 : Option Buffer
  pub new_buffer2 : Option Buffer
  pub buffers_to_write : List Buffer

-- `append`: the text goes to the start of the array, whatever stands there. Where `msg` has fewer
-- than `len` bytes the copy reads out of bounds, and where the array has fewer it writes out of
-- bounds.
unfoldable pub append : Buffer → List ℕ → ℕ → Option Buffer
append b msg len =
    if ltb len b.avail
    then (if ltb (length msg) len || ltb (length b.buf) len
        then none
        else some (record b {
          buf = write_at b.buf 0 (take len msg);
          len = b.len + len;
          avail = b.avail - len;
        }))
    else some b

-- `ptr_move` returns its argument; the caller's variable is not cleared.
abbrev pub ptr_move : Option Buffer → Option Buffer
ptr_move obj = obj

-- What the file system answers while one buffer is written.
pub record WriteEnv : Type 0 where
  pub results : Results
  pub now : ℕ
  pub roll : RollEnv

-- Where the back end stands: at the head of its loop, between lock and write, or at its end.
pub data Phase : Type 0 where
  collecting : Phase
  writing : Phase
  stopped : Phase

pub record System : Type 0 where
  pub front : Async
  pub back : Backend
  pub file : LogFile
  pub running : Bool
  pub phase : Phase

-- What can happen next: a thread logs, the back end takes a step, or `log_async_exit` clears
-- `log_async_running`.
pub data Action : Type 0 where
  log : List ℕ → ℕ → Action
  turn : List WriteEnv → Action
  exit : Action

-- AYSNC_BUF_SIZE, 4000 * 1000 in the source.
module _ (async_buf_size : ℕ) where
  unfoldable pub buf_alloc : Buffer
  buf_alloc = record { buf = replicate async_buf_size 0; avail = async_buf_size; len = 0 }

  -- The branch of `log_async_get_log` for a full buffer. An append through NULL is a fault.
  unfoldable pub next_and_append : Buffer → List ℕ → ℕ → Async → Option Async
  next_and_append full msg len s =
      let current : Option Buffer = elim s.next_buffer [
        | none ↦ ptr_move s.next_buffer
        | some _ ↦ some buf_alloc
      ] in
      current >>= λ b. append b msg len >>= λ b. some (record s {
        current_buffer = some b;
        buffers = s.buffers ++ full ∷ [];
        buffers_len = s.buffers_len + 1;
        signalled = s.signalled + 1;
      })

  unfoldable pub log_async_get_log : List ℕ → ℕ → Async → Option Async
  log_async_get_log msg len s = s.current_buffer >>= λ b.
      if ltb len b.avail
      then append b msg len >>= (λ b. some (record s { current_buffer = some b }))
      else next_and_append b msg len s

  -- `log_async_init`, and the start of the back end.
  unfoldable pub async_init : Async
  async_init = record {
    current_buffer = some buf_alloc;
    next_buffer = some buf_alloc;
    buffers = [];
    buffers_len = 0;
    signalled = 0;
  }

  unfoldable pub backend_init : Backend
  backend_init = record {
    new_buffer1 = some buf_alloc;
    new_buffer2 = some buf_alloc;
    buffers_to_write = [];
  }

  -- A round under the lock: the current buffer joins the list, fresh ones take its place, and the
  -- list changes hands. `&currentBuffer->node` of NULL is a fault.
  unfoldable pub collect : Async → Backend → Option (Async × Backend)
  collect s k = s.current_buffer >>= λ b. some (
    record {
      current_buffer = ptr_move k.new_buffer1;
      next_buffer = elim s.next_buffer [ none ↦ ptr_move k.new_buffer2 | some n ↦ some n ];
      buffers = [];
      buffers_len = 0;
      signalled = s.signalled;
    },
    record k { buffers_to_write = s.buffers ++ b ∷ [] },
  )

  -- `list_for_each`: one `log_file_append` for each buffer, in order.
  unfoldable pub write_buffers : List WriteEnv → List Buffer → LogFile → Option LogFile
  write_buffers envs [] f = some f
  write_buffers [] (b ∷ bs) f = none
  write_buffers (e ∷ envs) (b ∷ bs) f =
      log_file_append e.results e.now e.roll b.buf b.len f >>= write_buffers envs bs

  -- A round outside the lock: write, free, allocate, flush.
  unfoldable pub write_out : List WriteEnv → Backend → LogFile → Option (Backend × LogFile)
  write_out envs k f = write_buffers envs k.buffers_to_write f >>= λ f. some (
    record { new_buffer1 = some buf_alloc; new_buffer2 = some buf_alloc; buffers_to_write = [] },
    log_file_flush f,
  )

  -- The back end's next step: `log_async_output` between two points where others may run.
  unfoldable pub phase_turn : Phase → List WriteEnv → System → Option System
  phase_turn collecting envs s =
      if s.running
      then collect s.front s.back
        >>= (λ r. some (record s { front = r.0; back = r.1; phase = writing }))
      else log_file_close (log_file_flush s.file)
        >>= (λ f. some (record s { file = f; phase = stopped }))
  phase_turn writing envs s =
      write_out envs s.back s.file
      >>= (λ r. some (record s { back = r.0; file = r.1; phase = collecting }))
  phase_turn stopped envs s = some s

  unfoldable pub backend_turn : List WriteEnv → System → Option System
  backend_turn envs s = phase_turn s.phase envs s

  unfoldable pub act : Action → System → Option System
  act (log msg len) s = log_async_get_log msg len s.front >>= (λ f. some (record s { front = f }))
  act (turn envs) s = backend_turn envs s
  act exit s = some (record s { running = false })

  unfoldable pub run : List Action → System → Option System
  run [] s = some s
  run (a ∷ actions) s = act a s >>= run actions

  -- The system once the back end has rolled its first file.
  unfoldable pub start : LogFile → System
  start f = record {
    front = async_init;
    back = backend_init;
    file = f;
    running = true;
    phase = collecting;
  }
