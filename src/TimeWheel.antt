-- ===== src/TimeWheel.antt =====
-- timer/time_wheel_timer.h and timer/time_wheel_timer.cpp: the wheel of 60 slots that a tick turns by
-- the seconds that have passed. The linked list of a slot is the list of its timers, head first.
pub mod Picks
pub mod Turns
pub mod Armed
pub mod Firing
pub mod Schedule
pub mod Timing
use didactic_pancake_server.Prelude.{
  ℕ, zero, suc, ◌+◌, ◌-◌, ◌*◌, ◌/◌, ◌%◌, Bool, true, false, Option, none, some, List, [], ◌∷◌, ◌++◌,
  ltb, leb, ◌==◌, if◌then◌else◌,
}
use didactic_pancake_server.Prelude.Int.{ℤ, pos, negsuc}

-- time_wheel::N and time_wheel::SI
abbrev pub slot_count : ℕ
slot_count = 60

abbrev pub interval : ℕ
interval = 1

-- tw_timer. `id` stands for its address; `user` is user_data, the slot of `users_timer` that it
-- points to, once it is set together with cb_func.
pub record Timer : Type 0 where
  pub id : ℕ
  pub rotation : ℕ
  pub time_slot : ℕ
  pub user : Option ℕ

-- A tw_timer *: the address, with the time_slot that stands there as long as the timer lives.
pub record TimerRef : Type 0 where
  pub id : ℕ
  pub time_slot : ℕ

-- `made` is the number of timers allocated so far: addresses are not used twice.
pub record TimeWheel : Type 0 where
  pub start_time : ℕ
  pub time_have_run : ℕ
  pub slots : ℕ → List Timer
  pub cur_slot : ℕ
  pub made : ℕ

-- The constructor, at time `now`.
unfoldable pub time_wheel : ℕ → TimeWheel
time_wheel now = record {
  start_time = now;
  time_have_run = 0;
  slots = λ s. [];
  cur_slot = 0;
  made = 0;
}

-- slots[s] = l
abbrev pub set_slot : ℕ → List Timer → (ℕ → List Timer) → ℕ → List Timer
set_slot s l slots j = if s == j then l else slots j

-- The ticks of a timeout that is not negative.
abbrev pub ticks_of : ℕ → ℕ
ticks_of timeout = if ltb timeout interval then 1 else timeout / interval

abbrev pub slot_of : ℕ → ℕ → ℕ
slot_of cur ticks = (cur + ticks % slot_count) % slot_count

abbrev pub new_timer : ℕ → TimeWheel → Timer
new_timer ticks w = record {
  id = w.made;
  rotation = ticks / slot_count;
  time_slot = slot_of w.cur_slot ticks;
  user = none;
}

-- add_timer: `none` for NULL.
unfoldable pub add_timer : ℤ → TimeWheel → Option TimerRef × TimeWheel
add_timer (negsuc n) w = (none, w)
add_timer (pos timeout) w =
    let t = new_timer (ticks_of timeout) w in
    (
      some (record { id = t.id; time_slot = t.time_slot }),
      record w {
        slots = set_slot t.time_slot (t ∷ w.slots t.time_slot) w.slots;
        made = suc w.made;
      },
    )

-- timer->cb_func = cb_func; timer->user_data = &users_timer[user]
unfoldable pub set_user : ℕ → ℕ → List Timer → List Timer
set_user id user [] = []
set_user id user (t ∷ ts) =
    let rest = t ∷ set_user id user ts in
    if t.id == id then record t { user = some user } ∷ ts else rest

unfoldable pub bind_timer : TimerRef → ℕ → TimeWheel → TimeWheel
unfolding set_user
bind_timer r user w = record w {
  slots = set_slot r.time_slot (set_user r.id user (w.slots r.time_slot)) w.slots;
}

-- The list without the timer at an address; `none` if it is not there.
unfoldable pub unlink : ℕ → List Timer → Option (List Timer)
unlink id [] = none
unlink id (t ∷ ts) = elim (t.id == id) [
  | true ↦ some ts
  | false ↦ elim (unlink id ts) [ none ↦ none | some rest ↦ some (t ∷ rest) ]
]

-- del_timer: `none` for a pointer to a timer that is freed already, which it reads and frees again.
unfoldable pub del_timer : Option TimerRef → TimeWheel → Option TimeWheel
unfolding unlink
del_timer none w = some w
del_timer (some r) w = elim (unlink r.id (w.slots r.time_slot)) [
  | none ↦ none
  | some rest ↦ some (record w { slots = set_slot r.time_slot rest w.slots })
]

-- The walk over the list of the current slot: the timers whose callbacks run, and those that stay.
unfoldable pub expired : List Timer → List Timer
expired [] = []
expired (t ∷ ts) = let rest = expired ts in if ltb 0 t.rotation then rest else t ∷ rest

unfoldable pub remaining : List Timer → List Timer
remaining [] = []
remaining (t ∷ ts) =
    let rest = remaining ts in
    if ltb 0 t.rotation then record t { rotation = t.rotation - 1 } ∷ rest else rest

-- One round of the loop of `tick`.
unfoldable pub turn : TimeWheel → List Timer × TimeWheel
unfolding expired remaining
turn w = (
  expired (w.slots w.cur_slot),
  record w {
    slots = set_slot w.cur_slot (remaining (w.slots w.cur_slot)) w.slots;
    cur_slot = (w.cur_slot + 1) % slot_count;
    time_have_run = w.time_have_run + interval;
  },
)

-- while (time_have_run <= cur - start_time)
abbrev pub goes_on : ℕ → TimeWheel → Bool
goes_on now w = leb (w.time_have_run + w.start_time) now

-- The loop of `tick`; the callbacks run in the order of the list.
unfoldable pub tick_loop : ℕ → ℕ → TimeWheel → List Timer × TimeWheel
unfolding turn
tick_loop zero now w = ([], w)
tick_loop (suc fuel) now w = elim (goes_on now w) [
  | true ↦
      let (fired, w') = turn w in let (later, w'') = tick_loop fuel now w' in (fired ++ later, w'')
  | false ↦ ([], w)
]

-- `tick` at time `now`. A round adds a second to time_have_run, so `now + 1` rounds are enough.
unfoldable pub tick : ℕ → TimeWheel → List Timer × TimeWheel
unfolding tick_loop
tick now w = tick_loop (now + 1) now w

-- What the main loop does with the wheel.
pub data Call : Type 0 where
  adds : ℤ → Call
  binds : TimerRef → ℕ → Call
  deletes : Option TimerRef → Call
  ticks : ℕ → Call

-- The timers that fire in a call, and the wheel; `none` after a use of a freed timer.
unfoldable pub call : Call → TimeWheel → Option (List Timer × TimeWheel)
unfolding add_timer bind_timer del_timer tick
call (adds timeout) w = some ([], (add_timer timeout w).1)
call (binds r user) w = some ([], bind_timer r user w)
call (deletes r) w = elim (del_timer r w) [ none ↦ none | some w' ↦ some ([], w') ]
call (ticks now) w = some (tick now w)

unfoldable pub calls : List Call → TimeWheel → Option (List Timer × TimeWheel)
calls [] w = some ([], w)
calls (c ∷ cs) w = elim (call c w) [
  | none ↦ none
  | some (fired, w') ↦ elim (calls cs w') [
    | none ↦ none
    | some (later, w'') ↦ some (fired ++ later, w'')
  ]
]
