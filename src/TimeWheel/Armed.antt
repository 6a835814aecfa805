-- ===== src/TimeWheel/Armed.antt =====
-- A timer that the main loop has set up on the wheel of TimeWheel.antt, and the end of `tick`.
use didactic_pancake_server.Prelude.{
  ℕ, zero, suc, ◌+◌, ◌-◌, ◌/◌, ◌≤◌, ◌<◌, true, false, some, List, [], ◌∷◌, ltb, ◌==◌, ◌≡◌, refl,
  arith, ap, sym, ◌∙◌, if◌then◌else◌, Bool-cases, inl, inr,
}
use didactic_pancake_server.Prelude.Int.{pos}
use didactic_pancake_server.TimeWheel.{
  slot_count, Timer, TimerRef, TimeWheel, time_wheel, set_slot, ticks_of, new_timer, add_timer,
  set_user, bind_timer, turn, goes_on, tick_loop, tick, Call, calls,
}
use didactic_pancake_server.TimeWheel.Picks.{pick, pick-set_slot, pick_first}
use didactic_pancake_server.TimeWheel.Turns.{only, only-here, only-elsewhere, Pends}
use didactic_pancake_server.TimeWheel.Schedule.{AllSpare, calls-fire}
use didactic_pancake_server.TimeWheel.Timing.{IsWheel, calls-IsWheel}

abbrev pub ref_of : Timer → TimerRef
ref_of t = record { id = t.id; time_slot = t.time_slot }

-- add_timer(timeout), and then the callback and the user data of the timer.
abbrev pub armed : ℕ → ℕ → TimeWheel → TimeWheel
armed timeout user w =
    bind_timer (ref_of (new_timer (ticks_of timeout) w)) user (add_timer (pos timeout) w).1

abbrev pub armed_timer : ℕ → ℕ → TimeWheel → Timer
armed_timer timeout user w = record (new_timer (ticks_of timeout) w) { user = some user }

pub set_user-first :
    (t : Timer) (user : ℕ) (l : List Timer)
    → set_user t.id user (t ∷ l) ≡ record t { user = some user } ∷ l
unfolding set_user
set_user-first t user l = let e : (t.id == t.id) ≡ true = ground arith in rw e

pub armed-Pends :
    (timeout user : ℕ) (w : TimeWheel)
    → IsWheel w
    → Pends (ticks_of timeout) (armed_timer timeout user w) (armed timeout user w)
unfolding add_timer bind_timer
armed-Pends timeout user w h =
    let n = ticks_of timeout in
    let new = new_timer n w in
    let t = armed_timer timeout user w in
    let slots' : ℕ → List Timer = set_slot new.time_slot (new ∷ w.slots new.time_slot) w.slots in
    let self : (new.time_slot == new.time_slot) ≡ true = ground arith in
    let at_slot : slots' new.time_slot ≡ new ∷ w.slots new.time_slot = rw self in
    let one : pick w.made (set_user w.made user (slots' new.time_slot)) ≡ t ∷ [] =
      ap (λ l. pick w.made (set_user w.made user l)) at_slot
      ∙ ap (pick w.made) (set_user-first new user (w.slots new.time_slot))
      ∙ pick_first t (w.slots new.time_slot) (h.unused w.made new.time_slot (omega arith)) in
    record {
      rotation = n / slot_count;
      held =
          pick-set_slot w.made new.time_slot _ slots' (only new.time_slot t)
            (one ∙ sym (only-here new.time_slot new.time_slot t refl))
            (λ s apart.
              let off : (new.time_slot == s) ≡ false = ground arith in
              rw off (h.unused w.made s (omega arith))
              ∙ sym (only-elsewhere new.time_slot s t (λ e. apart (sym e))));
      in_slot = omega arith;
      in_wheel = h.in_wheel;
      old = omega arith;
      due = omega (arith, h.in_wheel);
    }

-- After any calls on a new wheel, and with any calls on other timers after it, a timer that is set up
-- for `timeout` seconds fires once, for its user, if the wheel has made more turns than its ticks,
-- and not before.
pub armed_timer_fires :
    (start : ℕ) (before cs : List Call) (timeout user : ℕ) (w w' : TimeWheel)
    (early fired : List Timer)
    → calls before (time_wheel start) ≡ some (early, w)
    → AllSpare w.made cs
    → calls cs (armed timeout user w) ≡ some (fired, w')
    → pick w.made fired ≡ (
        if ltb (ticks_of timeout) (w'.time_have_run - w.time_have_run)
        then record (armed_timer timeout user w) { rotation = 0 } ∷ []
        else [])
unfolding add_timer bind_timer
armed_timer_fires start before cs timeout user w w' early fired e spares e' =
    calls-fire cs (ticks_of timeout) (armed_timer timeout user w) (armed timeout user w) w' fired
      (armed-Pends timeout user w (calls-IsWheel before start w early e)) spares e'

tick_loop_end :
    (fuel now : ℕ) (w : TimeWheel)
    → now < fuel + (w.time_have_run + w.start_time)
    → w.time_have_run + w.start_time ≤ now + 1
    → (tick_loop fuel now w).1.time_have_run + (tick_loop fuel now w).1.start_time ≡ now + 1
unfolding tick_loop turn
tick_loop_end zero now w h k = omega arith
tick_loop_end (suc fuel) now w h k = elim (Bool-cases (goes_on now w)) [
  | inl e ↦
      let more : w.time_have_run + w.start_time ≤ now = ground arith in
      rw (e, tick_loop) (tick_loop_end fuel now (turn w).1 (omega arith) (omega arith))
  | inr e ↦
      let no_more : now < w.time_have_run + w.start_time = ground arith in
      rw (e, tick_loop) (omega arith)
]

-- A tick at second `now` ends with the wheel one turn ahead of the seconds that have passed since its
-- start, unless it was ahead of that already; the time of the start stays.
tick_catches_up :
    (now : ℕ) (w : TimeWheel)
    → w.time_have_run + w.start_time ≤ now + 1
    → (tick now w).1.time_have_run + (tick now w).1.start_time ≡ now + 1
unfolding tick
tick_catches_up now w h = tick_loop_end (now + 1) now w (omega arith) h
