-- ===== src/MainLoop/Bound.antt =====
-- The timers of TimeWheel.antt that have a callback, under the operations of the wheel.
use didactic_pancake_server.Prelude.{
  if_rule, ℕ, zero, suc, true, some, List, [], ◌∷◌, ◌++◌, ltb, ◌==◌, ◌≡◌, refl, arith, ap, ◌∙◌,
  Bool-cases, inl, inr,
}
use didactic_pancake_server.TimeWheel.{
  Timer, TimeWheel, set_slot, unlink, expired, remaining, turn, goes_on, tick_loop, add_timer,
  bind_timer, new_timer, ticks_of, set_user,
}
use didactic_pancake_server.TimeWheel.Picks.{pick}
use didactic_pancake_server.TimeWheel.Armed.{armed, set_user-first}
use didactic_pancake_server.MainLoop.Closing.{AllBound}

expired-AllBound : (ts : List Timer) → AllBound ts → AllBound (expired ts)
unfolding expired
expired-AllBound [] h = tt
expired-AllBound (t ∷ ts) (b, h) =
    if_rule AllBound (ltb 0 t.rotation) (λ e. expired-AllBound ts h)
      (λ e. (b, expired-AllBound ts h))

remaining-AllBound : (ts : List Timer) → AllBound ts → AllBound (remaining ts)
unfolding remaining
remaining-AllBound [] h = tt
remaining-AllBound (t ∷ ts) (b, h) =
    if_rule AllBound (ltb 0 t.rotation) (λ e. (b, remaining-AllBound ts h))
      (λ e. remaining-AllBound ts h)

AllBound-append : (a b : List Timer) → AllBound a → AllBound b → AllBound (a ++ b)
AllBound-append [] b h k = k
AllBound-append (t ∷ a) b (x, h) k = (x, AllBound-append a b h k)

-- A timer that is in the list is unlinked, and those that are left have their callbacks.
pub record Unlinked (id : ℕ) (ts : List Timer) : Type 0 where
  pub rest : List Timer
  pub runs : unlink id ts ≡ some rest
  pub bound : AllBound ts → AllBound rest

pub pick-Unlinked :
    (t : Timer) (id : ℕ) (ts more : List Timer) → pick id ts ≡ t ∷ more → Unlinked id ts
unfolding pick unlink
pick-Unlinked t id [] more e = absurd (cc e)
pick-Unlinked t id (x ∷ ts) more e = elim (Bool-cases (x.id == id)) [
  | inl here ↦ record { rest = ts; runs = rw (here, unlink) refl; bound = λ h. h.1 }
  | inr on ↦
      let later : pick id ts ≡ t ∷ more = rw on at e in
      let h = pick-Unlinked t id ts more later in
      record {
        rest = x ∷ h.rest;
        runs = rw (on, unlink, h.runs) refl;
        bound = λ k. (k.0, h.bound k.1);
      }
]

abbrev pub Bound : TimeWheel → Type 0
Bound w = (s : ℕ) → AllBound (w.slots s)

pub set_slot-Bound :
    (s : ℕ) (l : List Timer) (slots : ℕ → List Timer)
    → AllBound l
    → ((j : ℕ) → AllBound (slots j))
    → (j : ℕ) → AllBound (set_slot s l slots j)
set_slot-Bound s l slots h k j = if_rule AllBound (s == j) (λ e. h) (λ e. k j)

turn-Bound : (w : TimeWheel) → Bound w → AllBound (turn w).0 × Bound (turn w).1
unfolding turn
turn-Bound w h = (
  expired-AllBound (w.slots w.cur_slot) (h w.cur_slot),
  set_slot-Bound w.cur_slot (remaining (w.slots w.cur_slot)) w.slots
      (remaining-AllBound (w.slots w.cur_slot) (h w.cur_slot)) h,
)

pub tick_loop-Bound :
    (fuel now : ℕ) (w : TimeWheel)
    → Bound w
    → AllBound (tick_loop fuel now w).0 × Bound (tick_loop fuel now w).1
unfolding tick_loop
tick_loop-Bound zero now w h = (tt, h)
tick_loop-Bound (suc fuel) now w h = elim (Bool-cases (goes_on now w)) [
  | inl e ↦
      let (fired, kept) = turn-Bound w h in
      let (later, rest) = tick_loop-Bound fuel now (turn w).1 kept in
      rw (e, tick_loop) (AllBound-append (turn w).0 _ fired later, rest)
  | inr e ↦ rw (e, tick_loop) (tt, h)
]

pub armed-Bound : (timeout user : ℕ) (w : TimeWheel) → Bound w → Bound (armed timeout user w)
unfolding add_timer bind_timer
armed-Bound timeout user w h =
    let new = new_timer (ticks_of timeout) w in
    let slots' : ℕ → List Timer = set_slot new.time_slot (new ∷ w.slots new.time_slot) w.slots in
    let old = h new.time_slot in
    let self : (new.time_slot == new.time_slot) ≡ true = ground arith in
    let at_slot : slots' new.time_slot ≡ new ∷ w.slots new.time_slot = rw self in
    let one : set_user w.made user (slots' new.time_slot)
        ≡ record new { user = some user } ∷ w.slots new.time_slot =
      ap (set_user w.made user) at_slot ∙ set_user-first new user (w.slots new.time_slot) in
    λ j. if_rule AllBound (new.time_slot == j) (λ e. rw one (tt, old)) (λ apart. rw apart (h j))
