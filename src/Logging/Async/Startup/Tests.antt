-- ===== src/Logging/Async/Startup/Tests.antt =====
-- The handshake where log_async_init comes first, waits, and wakes for no reason once.
use coding_demo.Base.{◌≡◌, refl, some, List, [], ◌∷◌, pos, true}
use coding_demo.Logging.Async.Startup.{
  Startup, startup, woken, counting, main_move, back_move, Event, scheduled, spurious, main_thread,
  back_thread, move, happen, startup_run,
}
use coding_demo.Logging.Async.Startup.Handshake.{Inevitable, InOrder, startup_run-Inevitable}

abbrev early : List Event
early = scheduled main_thread ∷ scheduled main_thread ∷ scheduled back_thread ∷ spurious ∷ []

abbrev woken_early : Startup
woken_early = record { count = pos 1; locked = true; main = woken; back = counting }

wakes_early : startup_run early startup ≡ some woken_early
unfolding startup_run happen move main_move back_move
wakes_early = refl

startup_run-Inevitable_example : InOrder woken counting × Inevitable woken_early
startup_run-Inevitable_example = startup_run-Inevitable early woken_early wakes_early
