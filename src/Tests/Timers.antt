-- ===== src/Tests/Timers.antt =====
-- Runs of the wheel of TimeWheel.antt.
use didactic_pancake_server.Prelude.{◌-◌, some, List, [], ◌∷◌, ltb, ◌≡◌, refl, arith, if◌then◌else◌}
use didactic_pancake_server.Prelude.Int.{pos}
use didactic_pancake_server.TimeWheel.{
  Timer, TimeWheel, time_wheel, set_slot, call, ticks_of, add_timer, tick, Call, adds, deletes,
  ticks, calls,
}
use didactic_pancake_server.TimeWheel.Picks.{pick}
use didactic_pancake_server.TimeWheel.Armed.{armed, armed_timer, armed_timer_fires}

-- The wheel starts at second 100. A timer of another connection is in it before.
abbrev before : List Call
before = adds (pos 5) ∷ []

abbrev wheel : TimeWheel
wheel = (add_timer (pos 5) (time_wheel 100)).1

wheel_reached : calls before (time_wheel 100) ≡ some ([], wheel)
unfolding calls call
wheel_reached = refl

-- The other timer is deleted, and a tick comes at second 103.
abbrev later : List Call
later = deletes (some (record { id = 0; time_slot = 5 })) ∷ ticks 103 ∷ []

abbrev turned : TimeWheel
turned = (tick 103 (record (armed 2 7 wheel) { slots = set_slot 5 [] (armed 2 7 wheel).slots })).1

abbrev shot : List Timer
shot = record { id = 1; rotation = 0; time_slot = 2; user = some 7 } ∷ []

turned_reached : calls later (armed 2 7 wheel) ≡ some (shot, turned)
unfolding calls call time_wheel
turned_reached = refl

armed_timer_fires_example : pick wheel.made shot ≡ (
    if ltb (ticks_of 2) (turned.time_have_run - wheel.time_have_run)
    then record (armed_timer 2 7 wheel) { rotation = 0 } ∷ []
    else [])
unfolding time_wheel add_timer
armed_timer_fires_example =
    armed_timer_fires 100 before later 2 7 wheel turned [] shot wheel_reached
      ((λ e. absurd (omega (arith, e))), (tt, tt)) turned_reached
