-- ===== src/TimeWheel/Schedule.antt =====
-- A timer of TimeWheel.antt under the calls of the main loop.
use didactic_pancake_server.Prelude.{
  ℕ, suc, ◌+◌, ◌-◌, ◌≤◌, ◌<◌, false, Option, none, some, List, [], ◌∷◌, ltb, ◌==◌, ◌≡◌, ◌≢◌, refl,
  arith, ◌∙◌, if◌then◌else◌, Option-cases, inl, inr,
}
use didactic_pancake_server.Prelude.Int.{ℤ, pos, negsuc}
use didactic_pancake_server.TimeWheel.{
  Timer, TimerRef, TimeWheel, set_slot, ticks_of, new_timer, add_timer, set_user, bind_timer,
  unlink, del_timer, tick, Call, adds, binds, deletes, ticks, call, calls,
}
use didactic_pancake_server.TimeWheel.Picks.{pick, pick-set_user, pick-unlink, pick-set_slot}
use didactic_pancake_server.TimeWheel.Turns.{only, Pends, Stage}
use didactic_pancake_server.TimeWheel.Firing.{
  Moved, Moved-still, Moved-trans, tick_loop-Moved, shots_due, steps,
}

-- The call is about other timers.
abbrev pub Spares : ℕ → Call → Type 0
Spares id (adds timeout) = Unit {0}
Spares id (binds r user) = r.id ≢ id
Spares id (deletes none) = Unit {0}
Spares id (deletes (some r)) = r.id ≢ id
Spares id (ticks now) = Unit {0}

abbrev pub AllSpare : ℕ → List Call → Type 0
AllSpare id [] = Unit {0}
AllSpare id (c ∷ cs) = Spares id c × AllSpare id cs

-- A change of the slots that leaves the timers at the address as they are.
Stage-slots :
    (o : Option ℕ) (t : Timer) (w : TimeWheel) (s made : ℕ) (l : List Timer)
    → pick t.id l ≡ pick t.id (w.slots s)
    → w.made ≤ made
    → Stage o t w
    → Stage o t (record w { slots = set_slot s l w.slots; made = made })
Stage-slots none t w s made l same more h = record {
  held = pick-set_slot t.id s l w.slots (λ j. []) (same ∙ h.held s) (λ j apart. h.held j);
  old = omega (arith, h.old);
}
Stage-slots (some d) t w s made l same more h =
    let shape : ℕ → List Timer = only t.time_slot (record t { rotation = h.rotation }) in
    record {
      rotation = h.rotation;
      held = pick-set_slot t.id s l w.slots shape (same ∙ h.held s) (λ j apart. h.held j);
      in_slot = h.in_slot;
      in_wheel = h.in_wheel;
      old = omega (arith, h.old);
      due = h.due;
    }

Stage-old : (o : Option ℕ) (t : Timer) (w : TimeWheel) → Stage o t w → t.id < w.made
Stage-old none t w h = h.old
Stage-old (some d) t w h = h.old

add_timer-Stage :
    (timeout : ℤ) (o : Option ℕ) (t : Timer) (w : TimeWheel)
    → Stage o t w
    → Moved o t w [] (add_timer timeout w).1
unfolding add_timer pick
add_timer-Stage (negsuc n) o t w h = Moved-still o t w w refl h
add_timer-Stage (pos n) o t w h =
    let new = new_timer (ticks_of n) w in
    let apart : (w.made == t.id) ≡ false = ground (arith, Stage-old o t w h) in
    Moved-still o t w _ refl (
      Stage-slots o t w new.time_slot (suc w.made) (new ∷ w.slots new.time_slot) (rw apart)
        (omega arith) h)

-- A call that spares a timer moves it by the turns that the wheel makes.
abbrev pub CallMoved : Option ℕ → Timer → TimeWheel → Option (List Timer × TimeWheel) → Type 0
CallMoved o t w none = Unit {0}
CallMoved o t w (some (fired, w')) = Moved o t w fired w'

del_timer-Moved :
    (r : TimerRef) (o : Option ℕ) (t : Timer) (w : TimeWheel)
    → r.id ≢ t.id
    → Stage o t w
    → CallMoved o t w (call (deletes (some r)) w)
unfolding call del_timer
del_timer-Moved r o t w apart h = elim (Option-cases (unlink r.id (w.slots r.time_slot))) [
  | inl e ↦ rw (e, call, del_timer) tt
  | inr (rest, e) ↦
      rw (e, call, del_timer)
        (Moved-still o t w _ refl (
          Stage-slots o t w r.time_slot w.made rest
            (pick-unlink t.id r.id (w.slots r.time_slot) rest apart e) (omega arith) h))
]

pub call-Moved :
    (c : Call) (o : Option ℕ) (t : Timer) (w : TimeWheel)
    → Spares t.id c
    → Stage o t w
    → CallMoved o t w (call c w)
unfolding call tick bind_timer del_timer
call-Moved (adds timeout) o t w spares h = add_timer-Stage timeout o t w h
call-Moved (binds r user) o t w spares h = Moved-still o t w _ refl (
    Stage-slots o t w r.time_slot w.made (set_user r.id user (w.slots r.time_slot))
      (pick-set_user t.id r.id user (w.slots r.time_slot) spares) (omega arith) h)
call-Moved (deletes none) o t w spares h = Moved-still o t w w refl h
call-Moved (deletes (some r)) o t w spares h = del_timer-Moved r o t w spares h
call-Moved (ticks now) o t w spares h = tick_loop-Moved (now + 1) now o t w h

calls-after :
    (c : Call) (cs : List Call) (o : Option ℕ) (t : Timer) (w w' : TimeWheel) (fired : List Timer)
    → call c w ≡ some (fired, w')
    → (moved : Moved o t w fired w') → CallMoved (steps moved.rounds o) t w' (calls cs w')
    → CallMoved o t w (calls (c ∷ cs) w)
unfolding calls
calls-after c cs o t w w' fired e moved later = elim (Option-cases (calls cs w')) [
  | inl e1 ↦ rw (e, calls, e1) tt
  | inr ((more, w''), e1) ↦
      let last : Moved (steps moved.rounds o) t w' more w'' = rw e1 at later in
      rw (e, calls, e1) (Moved-trans o t w w' w'' fired more moved last)
]

calls-Moved :
    (cs : List Call) (o : Option ℕ) (t : Timer) (w : TimeWheel)
    → AllSpare t.id cs
    → Stage o t w
    → CallMoved o t w (calls cs w)
unfolding calls
calls-Moved [] o t w spares h = Moved-still o t w w refl h
calls-Moved (c ∷ cs) o t w (spare, spares) h =
    let first : CallMoved o t w (call c w) = call-Moved c o t w spare h in
    elim (Option-cases (call c w)) [
      | inl e ↦ rw (e, calls) tt
      | inr ((fired, w'), e) ↦
          let moved : Moved o t w fired w' = rw e at first in
          calls-after c cs o t w w' fired e moved
            (calls-Moved cs (steps moved.rounds o) t w' spares moved.stage)
    ]

-- A timer that is due in `d` turns fires when the wheel has turned more often than that, once.
pub calls-fire :
    (cs : List Call) (d : ℕ) (t : Timer) (w w' : TimeWheel) (fired : List Timer)
    → Pends d t w
    → AllSpare t.id cs
    → calls cs w ≡ some (fired, w')
    → pick t.id fired
      ≡ (if ltb d (w'.time_have_run - w.time_have_run) then record t { rotation = 0 } ∷ [] else [])
calls-fire cs d t w w' fired h spares e =
    let moved : CallMoved (some d) t w (calls cs w) = calls-Moved cs (some d) t w spares h in
    let done : Moved (some d) t w fired w' = rw e at moved in
    let turned : w'.time_have_run - w.time_have_run ≡ done.rounds = omega (arith, done.ran) in
    done.picked ∙ shots_due done.rounds d t ∙ rw turned
