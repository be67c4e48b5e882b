-- ===== src/Logging/Async/Startup.antt =====
-- C/logging/log_async.c: the handshake by which log_async_init waits for the back end. A step is
-- what a thread does between two points where the other one can run; a thread that waits for the
-- mutex or the condition has none.
pub mod Stages
pub mod Handshake
mod Tests
use coding_demo.Base.{
  ℕ, zero, suc, Bool, true, false, Option, none, some, List, [], ◌∷◌, if◌then◌else◌, ◌>>=◌, ℤ, pos,
  negsuc,
}

-- Where log_async_init stands: before the lock, at the test, in the wait, woken without the mutex,
-- at its end.
pub data MainAt : Type 0 where
  locking checking waiting woken returned : MainAt

-- Where log_async_output stands: before the lock, before `--count`, before the unlock, in its loop.
pub data BackAt : Type 0 where
  starting counting unlocking running : BackAt

-- `count`, `backend_running_mutex`, and the two threads.
pub record Startup : Type 0 where
  pub count : ℤ
  pub locked : Bool
  pub main : MainAt
  pub back : BackAt

abbrev pub startup : Startup
startup = record { count = pos 1; locked = false; main = locking; back = starting }

abbrev pub minus_one : ℤ → ℤ
minus_one (pos zero) = negsuc 0
minus_one (pos (suc n)) = pos n
minus_one (negsuc n) = negsuc (suc n)

-- `count > 0`, and `count == 0`
abbrev pub above_zero : ℤ → Bool
above_zero (pos zero) = false
above_zero (pos (suc n)) = true
above_zero (negsuc n) = false

abbrev pub is_zero : ℤ → Bool
is_zero (pos zero) = true
is_zero (pos (suc n)) = false
is_zero (negsuc n) = false

-- `pthread_cond_broadcast`: who waits has to take the mutex again.
abbrev pub broadcast : MainAt → MainAt
broadcast waiting = woken
broadcast m = m

abbrev pub take_lock : Startup → Option Startup
take_lock s = if s.locked then none else some (record s { locked = true })

-- log_async_init from its lock on.
unfoldable pub main_move : MainAt → Startup → Option Startup
main_move locking s = take_lock s >>= λ s. some (record s { main = checking })
main_move checking s =
    some (record s { locked = false; main = if above_zero s.count then waiting else returned })
main_move waiting s = none
main_move woken s = take_lock s >>= λ s. some (record s { main = checking })
main_move returned s = none

-- log_async_output up to its loop.
unfoldable pub back_move : BackAt → Startup → Option Startup
back_move starting s = take_lock s >>= λ s. some (record s { back = counting })
back_move counting s =
    let count = minus_one s.count in
    some (record s {
      count = count;
      main = if is_zero count then broadcast s.main else s.main;
      back = unlocking;
    })
back_move unlocking s = some (record s { locked = false; back = running })
back_move running s = none

-- A wait may end without a broadcast.
abbrev pub wake : MainAt → Startup → Option Startup
wake waiting s = some (record s { main = woken })
wake m s = none

pub data Thread : Type 0 where
  main_thread back_thread : Thread

pub data Event : Type 0 where
  scheduled : Thread → Event
  spurious : Event

unfoldable pub move : Thread → Startup → Option Startup
unfolding main_move back_move
move main_thread s = main_move s.main s
move back_thread s = back_move s.back s

unfoldable pub happen : Event → Startup → Option Startup
unfolding move
happen (scheduled t) s = move t s
happen spurious s = wake s.main s

unfoldable pub startup_run : List Event → Startup → Option Startup
unfolding happen
startup_run [] s = some s
startup_run (e ∷ es) s = happen e s >>= startup_run es
