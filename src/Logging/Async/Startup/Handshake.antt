-- ===== src/Logging/Async/Startup/Handshake.antt =====
-- The end of log_async_init, and where the back end is then.
use coding_demo.Base.{◌≡◌, refl, sym, some, List}
use mathlib.Core.Path.{subst}
use coding_demo.Logging.Async.Startup.{
  MainAt, locking, checking, waiting, woken, returned, BackAt, starting, counting, unlocking,
  running, Startup, startup, main_move, back_move, Thread, main_thread, back_thread, Event, move,
  startup_run,
}
use coding_demo.Logging.Async.Startup.Stages.{
  stage, IsStage, IfSome, if_some, staged, startup_run-IsReachable,
}

-- log_async_init has returned, or some thread can go on, and whichever does, the same holds again,
-- until log_async_init has returned.
pub data Inevitable : Startup → Type 0 where
  done : (s : Startup) → s.main ≡ returned → Inevitable s
  later :
      (s : Startup) (t : Thread) (s1 : Startup)
      → move t s ≡ some s1
      → ((t : Thread) (s' : Startup) → move t s ≡ some s' → Inevitable s')
      → Inevitable s

later_both :
    (s : Startup) (t : Thread) (s1 : Startup)
    → move t s ≡ some s1
    → IfSome (move main_thread s) Inevitable
    → IfSome (move back_thread s) Inevitable
    → Inevitable s
later_both s t s1 can main back = later s t s1 can each
  where
    each : (t : Thread) (s' : Startup) → move t s ≡ some s' → Inevitable s'
    each main_thread s' e = if_some (move main_thread s) Inevitable s' main e
    each back_thread s' e = if_some (move back_thread s) Inevitable s' back e

returned_running : Inevitable (stage returned running)
returned_running = done (stage returned running) refl

checking_running : Inevitable (stage checking running)
unfolding move main_move back_move
checking_running =
    later_both (stage checking running) main_thread (stage returned running) refl returned_running
      tt

woken_running : Inevitable (stage woken running)
unfolding move main_move back_move
woken_running =
    later_both (stage woken running) main_thread (stage checking running) refl checking_running tt

locking_running : Inevitable (stage locking running)
unfolding move main_move back_move
locking_running =
    later_both (stage locking running) main_thread (stage checking running) refl checking_running tt

woken_unlocking : Inevitable (stage woken unlocking)
unfolding move main_move back_move
woken_unlocking =
    later_both (stage woken unlocking) back_thread (stage woken running) refl tt woken_running

locking_unlocking : Inevitable (stage locking unlocking)
unfolding move main_move back_move
locking_unlocking =
    later_both (stage locking unlocking) back_thread (stage locking running) refl tt locking_running

woken_counting : Inevitable (stage woken counting)
unfolding move main_move back_move
woken_counting =
    later_both (stage woken counting) back_thread (stage woken unlocking) refl tt woken_unlocking

locking_counting : Inevitable (stage locking counting)
unfolding move main_move back_move
locking_counting =
    later_both (stage locking counting) back_thread (stage locking unlocking) refl tt
      locking_unlocking

waiting_counting : Inevitable (stage waiting counting)
unfolding move main_move back_move
waiting_counting =
    later_both (stage waiting counting) back_thread (stage woken unlocking) refl tt woken_unlocking

waiting_starting : Inevitable (stage waiting starting)
unfolding move main_move back_move
waiting_starting =
    later_both (stage waiting starting) back_thread (stage waiting counting) refl tt
      waiting_counting

checking_starting : Inevitable (stage checking starting)
unfolding move main_move back_move
checking_starting =
    later_both (stage checking starting) main_thread (stage waiting starting) refl waiting_starting
      tt

woken_starting : Inevitable (stage woken starting)
unfolding move main_move back_move
woken_starting =
    later_both (stage woken starting) main_thread (stage checking starting) refl checking_starting
      woken_counting

locking_starting : Inevitable (stage locking starting)
unfolding move main_move back_move
locking_starting =
    later_both (stage locking starting) main_thread (stage checking starting) refl checking_starting
      locking_counting

stage-Inevitable : (m : MainAt) (b : BackAt) → IsStage m b → Inevitable (stage m b)
stage-Inevitable locking starting h = locking_starting
stage-Inevitable locking counting h = locking_counting
stage-Inevitable locking unlocking h = locking_unlocking
stage-Inevitable locking running h = locking_running
stage-Inevitable checking starting h = checking_starting
stage-Inevitable checking counting h = absurd h
stage-Inevitable checking unlocking h = absurd h
stage-Inevitable checking running h = checking_running
stage-Inevitable waiting starting h = waiting_starting
stage-Inevitable waiting counting h = waiting_counting
stage-Inevitable waiting unlocking h = absurd h
stage-Inevitable waiting running h = absurd h
stage-Inevitable woken starting h = woken_starting
stage-Inevitable woken counting h = woken_counting
stage-Inevitable woken unlocking h = woken_unlocking
stage-Inevitable woken running h = woken_running
stage-Inevitable returned starting h = absurd h
stage-Inevitable returned counting h = absurd h
stage-Inevitable returned unlocking h = absurd h
stage-Inevitable returned running h = returned_running

-- When log_async_init has returned, the back end is in its loop.
abbrev pub InOrder : MainAt → BackAt → Type 0
InOrder returned b = b ≡ running
InOrder m b = Unit

stage-InOrder : (m : MainAt) (b : BackAt) → IsStage m b → InOrder m b
stage-InOrder returned starting h = absurd h
stage-InOrder returned counting h = absurd h
stage-InOrder returned unlocking h = absurd h
stage-InOrder returned running h = refl
stage-InOrder locking b h = tt
stage-InOrder checking b h = tt
stage-InOrder waiting b h = tt
stage-InOrder woken b h = tt

-- After any steps of log_async_init and of the back end, waits that end for no reason among them:
-- if log_async_init has returned, the back end has left the lock and runs; and from there on, as
-- long as log_async_init has not returned, some thread can go on, and every way for the threads to
-- go on ends with its return, without a wait that ends for no reason.
pub startup_run-Inevitable :
    (es : List Event) (s : Startup)
    → startup_run es startup ≡ some s
    → InOrder s.main s.back × Inevitable s
startup_run-Inevitable es s run =
    let r = startup_run-IsReachable es startup s run (staged locking starting tt) in
    (
      subst (λ (s : Startup). InOrder s.main s.back) (sym r.state)
          (stage-InOrder r.at_main r.at_back r.places),
      subst Inevitable (sym r.state) (stage-Inevitable r.at_main r.at_back r.places),
    )
