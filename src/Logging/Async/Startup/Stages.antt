-- ===== src/Logging/Async/Startup/Stages.antt =====
-- The states that the two threads can come to.
use coding_demo.Base.{
  ◌≡◌, refl, sym, ap, ◌∙◌, Bool, true, false, Option, none, some, List, [], ◌∷◌, ℤ, pos, bind_inv,
  eq_of_some,
}
use mathlib.Core.Path.{subst}
use coding_demo.Logging.Async.Startup.{
  MainAt, locking, checking, waiting, woken, returned, BackAt, starting, counting, unlocking,
  running, Startup, main_move, back_move, wake, main_thread, back_thread, Event, scheduled,
  spurious, move, happen, startup_run,
}

-- The places of the two threads give the state.
abbrev count_at : BackAt → ℤ
count_at starting = pos 1
count_at counting = pos 1
count_at unlocking = pos 0
count_at running = pos 0

abbrev is_inside : BackAt → Bool
is_inside starting = false
is_inside counting = true
is_inside unlocking = true
is_inside running = false

abbrev locked_at : MainAt → BackAt → Bool
locked_at checking b = true
locked_at locking b = is_inside b
locked_at waiting b = is_inside b
locked_at woken b = is_inside b
locked_at returned b = is_inside b

abbrev pub stage : MainAt → BackAt → Startup
stage m b = record { count = count_at b; locked = locked_at m b; main = m; back = b }

-- The places that go together: one thread at a time is inside the lock, nobody waits for a
-- broadcast that is over, and log_async_init ends after the back end has left the lock.
abbrev pub IsStage : MainAt → BackAt → Type 0
IsStage checking counting = ⊥
IsStage checking unlocking = ⊥
IsStage waiting unlocking = ⊥
IsStage waiting running = ⊥
IsStage returned starting = ⊥
IsStage returned counting = ⊥
IsStage returned unlocking = ⊥
IsStage m b = Unit

pub record IsReachable (s : Startup) : Type 0 where
  pub at_main : MainAt
  pub at_back : BackAt
  pub places : IsStage at_main at_back
  pub state : s ≡ stage at_main at_back

-- If there is a next state, it has the property.
abbrev pub IfSome : Option Startup → (Startup → Type 0) → Type 0
IfSome none P = Unit
IfSome (some s) P = P s

pub if_some :
    (x : Option Startup) (P : Startup → Type 0) (s : Startup) → IfSome x P → x ≡ some s → P s
if_some none P s h e = cc
if_some (some s1) P s h e = subst P (eq_of_some e) h

pub staged : (m : MainAt) (b : BackAt) → IsStage m b → IsReachable (stage m b)
staged m b h = record { at_main = m; at_back = b; places = h; state = refl }

main_move-IsReachable :
    (m : MainAt) (b : BackAt) → IsStage m b → IfSome (main_move m (stage m b)) IsReachable
unfolding main_move
main_move-IsReachable locking starting h = staged checking starting tt
main_move-IsReachable locking counting h = tt
main_move-IsReachable locking unlocking h = tt
main_move-IsReachable locking running h = staged checking running tt
main_move-IsReachable checking starting h = staged waiting starting tt
main_move-IsReachable checking counting h = absurd h
main_move-IsReachable checking unlocking h = absurd h
main_move-IsReachable checking running h = staged returned running tt
main_move-IsReachable waiting b h = tt
main_move-IsReachable woken starting h = staged checking starting tt
main_move-IsReachable woken counting h = tt
main_move-IsReachable woken unlocking h = tt
main_move-IsReachable woken running h = staged checking running tt
main_move-IsReachable returned b h = tt

back_move-IsReachable :
    (m : MainAt) (b : BackAt) → IsStage m b → IfSome (back_move b (stage m b)) IsReachable
unfolding back_move
back_move-IsReachable locking starting h = staged locking counting tt
back_move-IsReachable checking starting h = tt
back_move-IsReachable waiting starting h = staged waiting counting tt
back_move-IsReachable woken starting h = staged woken counting tt
back_move-IsReachable returned starting h = absurd h
back_move-IsReachable locking counting h = staged locking unlocking tt
back_move-IsReachable checking counting h = absurd h
back_move-IsReachable waiting counting h = staged woken unlocking tt
back_move-IsReachable woken counting h = staged woken unlocking tt
back_move-IsReachable returned counting h = absurd h
back_move-IsReachable locking unlocking h = staged locking running tt
back_move-IsReachable checking unlocking h = absurd h
back_move-IsReachable waiting unlocking h = absurd h
back_move-IsReachable woken unlocking h = staged woken running tt
back_move-IsReachable returned unlocking h = absurd h
back_move-IsReachable m running h = tt

wake-IsReachable : (m : MainAt) (b : BackAt) → IsStage m b → IfSome (wake m (stage m b)) IsReachable
wake-IsReachable waiting starting h = staged woken starting tt
wake-IsReachable waiting counting h = staged woken counting tt
wake-IsReachable waiting unlocking h = absurd h
wake-IsReachable waiting running h = absurd h
wake-IsReachable locking b h = tt
wake-IsReachable checking b h = tt
wake-IsReachable woken b h = tt
wake-IsReachable returned b h = tt

happen-IsReachable :
    (e : Event) (s s' : Startup) → happen e s ≡ some s' → IsReachable s → IsReachable s'
unfolding happen move
happen-IsReachable e s s' run r =
    if_some (happen e (stage r.at_main r.at_back)) IsReachable s' (next e)
      (ap (happen e) (sym r.state) ∙ run)
  where
    next : (e : Event) → IfSome (happen e (stage r.at_main r.at_back)) IsReachable
    next (scheduled main_thread) = main_move-IsReachable r.at_main r.at_back r.places
    next (scheduled back_thread) = back_move-IsReachable r.at_main r.at_back r.places
    next spurious = wake-IsReachable r.at_main r.at_back r.places

pub startup_run-IsReachable :
    (es : List Event) (s s' : Startup) → startup_run es s ≡ some s' → IsReachable s → IsReachable s'
unfolding startup_run
startup_run-IsReachable [] s s' run r = subst IsReachable (eq_of_some run) r
startup_run-IsReachable (e ∷ es) s s' run r =
    let (s1, first, rest) = bind_inv (happen e s) _ run in
    startup_run-IsReachable es s1 s' rest (happen-IsReachable e s s1 first r)
