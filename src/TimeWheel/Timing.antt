-- ===== src/TimeWheel/Timing.antt =====
-- A timer that the main loop has set up on the wheel of TimeWheel.antt, and the end of `tick`.
use didactic_pancake_server.Prelude.{
  ℕ, zero, suc, ◌+◌, ◌≤◌, ◌<◌, false, Option, none, some, List, [], ◌∷◌, ◌==◌, ◌≡◌, refl, arith,
  ◌∙◌, Bool-cases, Option-cases, inl, inr,
}
use didactic_pancake_server.Prelude.Int.{ℤ, pos, negsuc}
use didactic_pancake_server.TimeWheel.{
  slot_count, Timer, TimeWheel, time_wheel, set_slot, ticks_of, new_timer, add_timer, set_user,
  bind_timer, unlink, del_timer, remaining, turn, goes_on, tick_loop, tick, Call, adds, binds,
  deletes, ticks, call, calls,
}
use didactic_pancake_server.TimeWheel.Picks.{
  pick, pick-remaining, pick-set_slot, pick-set_user_none, pick-unlink-none,
}

-- The current slot is one of the wheel, and no timer stands at an address that is yet to come.
pub record IsWheel (w : TimeWheel) : Type 0 where
  pub in_wheel : w.cur_slot < slot_count
  pub unused : (id s : ℕ) → w.made ≤ id → pick id (w.slots s) ≡ []

abbrev pub Leaves : Option (List Timer × TimeWheel) → Type 0
Leaves none = Unit {0}
Leaves (some (fired, w)) = IsWheel w

IsWheel-slots :
    (w : TimeWheel) (s made : ℕ) (l : List Timer)
    → IsWheel w
    → w.made ≤ made
    → ((id : ℕ) → made ≤ id → pick id l ≡ [])
    → IsWheel (record w { slots = set_slot s l w.slots; made = made })
IsWheel-slots w s made l h more fresh = record {
  in_wheel = h.in_wheel;
  unused = λ id j k.
      pick-set_slot id s l w.slots (λ i. []) (fresh id k) (λ i apart. h.unused id i (omega arith))
        j;
}

turn-IsWheel : (w : TimeWheel) → IsWheel w → IsWheel (turn w).1
unfolding turn
turn-IsWheel w h = record {
  in_wheel = omega arith;
  unused = λ id s k.
      pick-set_slot id w.cur_slot (remaining (w.slots w.cur_slot)) w.slots (λ i. [])
        (pick-remaining id (w.slots w.cur_slot) ∙ rw (h.unused id w.cur_slot k, remaining) refl)
        (λ i apart. h.unused id i k) s;
}

tick_loop-IsWheel : (fuel now : ℕ) (w : TimeWheel) → IsWheel w → IsWheel (tick_loop fuel now w).1
unfolding tick_loop
tick_loop-IsWheel zero now w h = h
tick_loop-IsWheel (suc fuel) now w h = elim (Bool-cases (goes_on now w)) [
  | inl e ↦ rw (e, tick_loop) (tick_loop-IsWheel fuel now (turn w).1 (turn-IsWheel w h))
  | inr e ↦ rw (e, tick_loop) h
]

add_timer-IsWheel : (timeout : ℤ) (w : TimeWheel) → IsWheel w → IsWheel (add_timer timeout w).1
unfolding add_timer pick
add_timer-IsWheel (negsuc n) w h = h
add_timer-IsWheel (pos n) w h =
    let new = new_timer (ticks_of n) w in
    IsWheel-slots w new.time_slot (suc w.made) (new ∷ w.slots new.time_slot) h (omega arith)
      (λ id k.
        let apart : (w.made == id) ≡ false = ground arith in
        rw apart (h.unused id new.time_slot (omega arith)))

pub call-IsWheel : (c : Call) (w : TimeWheel) → IsWheel w → Leaves (call c w)
unfolding call del_timer bind_timer tick
call-IsWheel (adds timeout) w h = add_timer-IsWheel timeout w h
call-IsWheel (binds r user) w h =
    IsWheel-slots w r.time_slot w.made (set_user r.id user (w.slots r.time_slot)) h (omega arith)
      (λ id k. pick-set_user_none id r.id user (w.slots r.time_slot) (h.unused id r.time_slot k))
call-IsWheel (deletes none) w h = h
call-IsWheel (deletes (some r)) w h = elim (Option-cases (unlink r.id (w.slots r.time_slot))) [
  | inl e ↦ rw (e, call, del_timer) tt
  | inr (rest, e) ↦
      rw (e, call, del_timer)
        (IsWheel-slots w r.time_slot w.made rest h (omega arith) (λ id k.
          pick-unlink-none id r.id (w.slots r.time_slot) rest (h.unused id r.time_slot k) e))
]
call-IsWheel (ticks now) w h = tick_loop-IsWheel (now + 1) now w h

calls-Leaves : (cs : List Call) (w : TimeWheel) → IsWheel w → Leaves (calls cs w)
unfolding calls
calls-Leaves [] w h = h
calls-Leaves (c ∷ cs) w h =
    let first : Leaves (call c w) = call-IsWheel c w h in
    elim (Option-cases (call c w)) [
      | inl e ↦ rw (e, calls) tt
      | inr ((fired, w'), e) ↦
          let h' : IsWheel w' = rw e at first in
          let rest : Leaves (calls cs w') = calls-Leaves cs w' h' in
          elim (Option-cases (calls cs w')) [
            | inl e1 ↦ rw (e, calls, e1) tt
            | inr ((more, w''), e1) ↦ rw (e, calls, e1) (rw e1 at rest)
          ]
    ]

pub time_wheel-IsWheel : (now : ℕ) → IsWheel (time_wheel now)
unfolding time_wheel pick
time_wheel-IsWheel now = record { in_wheel = omega arith; unused = λ id s k. refl }

pub calls-IsWheel :
    (cs : List Call) (now : ℕ) (w : TimeWheel) (fired : List Timer)
    → calls cs (time_wheel now) ≡ some (fired, w)
    → IsWheel w
calls-IsWheel cs now w fired e =
    let h : Leaves (calls cs (time_wheel now)) =
      calls-Leaves cs (time_wheel now) (time_wheel-IsWheel now) in
    rw e at h
