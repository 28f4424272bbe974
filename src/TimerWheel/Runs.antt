-- ===== src/TimerWheel/Runs.antt =====
-- Concrete ticks of the timer wheel, and its theorems at concrete inputs.
use smartdns_ui.Prelude.{
  ℕ, ◌*◌, ◌%◌, ◌^◌, ◌≤◌, ◌<◌, ◌≡◌, refl, inl, arith, Bool, true, List, [], ◌∷◌, All, ok,
}
use smartdns_ui.TimerWheel.Wheel.{
  Timer, tv1, tv2, same_head, Base, pick_vec, unlink, find_timer, tw_mod_timer,
}
use smartdns_ui.TimerWheel.Wheel.Slots.{InBlock, OnTime}
use smartdns_ui.TimerWheel.Run.{
  timers_on, links_off, add_timers, begin_tick, Call, add, make_call, make_calls, call_function,
  run_work, run_timers,
}
use smartdns_ui.TimerWheel.Run.Lists.{Fits}
use smartdns_ui.TimerWheel.Run.Due.{Begun, count, begin_tick-Begun}
use smartdns_ui.TimerWheel.Run.Calls.{HasFunction}
use smartdns_ui.TimerWheel.Run.Functions.{run_timers-OnTime}

abbrev timer : ℕ → ℕ → Timer
timer id expires = record { id = id; expires = expires; function = true }

-- Tick 1024 cascades: timer 1 is in a slot of the second wheel that starts now, timer 2 is in a
-- later one, and timer 3 is in the slot of the tick.
abbrev wheel : Base
wheel = record {
  jiffies = 1024;
  links =
      record { head = tv2 1; timer = timer 1 1030 }
      ∷ record { head = tv2 2; timer = timer 2 2050 }
      ∷ record { head = tv1 0; timer = timer 3 1024 }
      ∷ [];
}

-- Each timer starts itself again, for five ticks on.
abbrev again : Base → Timer → ℕ → List Call
again base t call_time = add (timer t.id 5) ∷ []

starts_at :
    (b e : ℕ) → 1024 ≤ b * 2 ^ 10 → b < 65 → b * 2 ^ 10 ≤ e → InBlock (2 ^ 10) 1024 (b % 64) e
starts_at b e lo hi early = record {
  b = b;
  slot = refl;
  ahead = lo;
  turn = omega arith;
  early = early;
}

wheel-OnTime : All (Fits (OnTime wheel.jiffies)) wheel.links
wheel-OnTime = (
  (starts_at 1 1030 (omega arith) (omega arith) (omega arith), omega arith),
  (
    (starts_at 2 2050 (omega arith) (omega arith) (omega arith), omega arith),
    ((inl (omega arith, omega arith, refl), omega arith), tt),
  ),
)

tick_1024 :
    run_timers again wheel
    ≡ ok (
      timer 3 1024 ∷ [],
      record {
        jiffies = 1025;
        links =
            record { head = tv2 2; timer = timer 2 2050 }
            ∷ record { head = tv1 6; timer = timer 1 1030 }
            ∷ record { head = tv1 5; timer = timer 3 1029 }
            ∷ [];
      },
    )
unfolding run_timers run_work begin_tick timers_on links_off add_timers same_head pick_vec unlink
    make_call make_calls call_function find_timer
tick_1024 = refl

-- A pending timer whose deadline is moved leaves its slot.
modify_timer :
    (tw_mod_timer wheel (timer 3 1024) 2000).1.1.links
    ≡ record { head = tv2 1; timer = timer 1 1030 }
      ∷ record { head = tv2 2; timer = timer 2 2050 }
      ∷ record { head = tv2 2; timer = timer 3 3023 }
      ∷ []
unfolding find_timer unlink pick_vec
modify_timer = refl

begin_tick-Begun_example :
    ((begin_tick wheel).jiffies ≡ 1025)
    × All (Fits (Begun 1024)) (begin_tick wheel).links
    × ((p : Timer → Bool) → count p (begin_tick wheel).links ≡ count p wheel.links)
begin_tick-Begun_example = begin_tick-Begun wheel (omega arith) wheel-OnTime

run_timers-OnTime_example :
    (fired : List Timer) × (after : Base) × (run_timers again wheel ≡ ok (fired, after))
    × (after.jiffies ≡ 1025)
    × All (Fits (OnTime 1025)) after.links
    × All HasFunction after.links
    × All (λ t. t.expires ≤ 1024) fired
run_timers-OnTime_example =
    run_timers-OnTime again wheel (λ b t n f p. (omega arith, (λ q. p), λ after e. tt))
      (omega arith) wheel-OnTime (refl, (refl, (refl, tt)))
