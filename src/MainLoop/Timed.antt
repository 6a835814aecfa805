-- ===== src/MainLoop/Timed.antt =====
-- The timer of one connection of MainLoop.antt under the operations on the wheel.
use mathlib.Core.Path.{subst}
use didactic_pancake_server.Prelude.{
  if_rule, ℕ, zero, suc, ◌+◌, ◌-◌, ◌≤◌, Option, some, List, [], ◌∷◌, ltb, ◌==◌, ◌≡◌, ◌≢◌, refl,
  arith, ap, sym, ◌∙◌, ◌⊎◌, Bool-cases, inl, inr,
}
use didactic_pancake_server.Prelude.Int.{pos}
use didactic_pancake_server.TimeWheel.{
  Timer, TimerRef, TimeWheel, add_timer, bind_timer, del_timer, new_timer, ticks_of, tick, adds,
  binds, deletes, ticks, call,
}
use didactic_pancake_server.TimeWheel.Picks.{pick}
use didactic_pancake_server.TimeWheel.Turns.{only, only-here, Pends, Stage}
use didactic_pancake_server.TimeWheel.Firing.{Moved, steps, shots_due}
use didactic_pancake_server.TimeWheel.Schedule.{CallMoved, call-Moved}
use didactic_pancake_server.TimeWheel.Timing.{IsWheel}
use didactic_pancake_server.TimeWheel.Armed.{ref_of, armed, armed_timer, armed-Pends}
use didactic_pancake_server.MainLoop.{time_limit}

-- The pointer `r` is to a timer of the wheel that will call back for `fd`, before time_have_run
-- is more than `limit`.
pub record Timed (fd limit : ℕ) (w : TimeWheel) (r : Option TimerRef) : Type 0 where
  pub timer : Timer
  pub turns : ℕ
  pub points : r ≡ some (ref_of timer)
  pub calls_back : timer.user ≡ some fd
  pub pends : Pends turns timer w
  pub soon : turns + w.time_have_run ≤ limit

-- Timers of different connections have different addresses.
pub Timed-apart :
    {fd fd' limit limit' : ℕ} {w : TimeWheel} {r r' : Option TimerRef}
    → fd ≢ fd'
    → (h : Timed fd limit w r) (h' : Timed fd' limit' w r') → h.timer.id ≢ h'.timer.id
Timed-apart {fd} {fd'} {w = w} apart h h' same =
    let t = h.timer in
    let t' = h'.timer in
    let s = t.time_slot in
    let now : Timer = record t { rotation = h.pends.rotation } in
    let now' : Timer = record t' { rotation = h'.pends.rotation } in
    let here : pick t.id (w.slots s) ≡ now ∷ [] = h.pends.held s ∙ only-here s s now refl in
    let there : pick t.id (w.slots s) ≡ only t'.time_slot now' s =
      ap (λ i. pick i (w.slots s)) same ∙ h'.pends.held s in
    if_rule (λ l. pick t.id (w.slots s) ≡ l → ⊥) (s == t'.time_slot)
      (λ e k.
        let one : now ≡ now' = cc in
        let users : t.user ≡ t'.user = ap (λ x. x.user) one in
        let both : some fd ≡ some fd' = sym h.calls_back ∙ users ∙ h'.calls_back in apart (cc))
      (λ e k. cc) there

-- A call of the wheel that does not turn it keeps the timers at other addresses.
quiet-Pends :
    (d : ℕ) (t : Timer) (w w' : TimeWheel) (fired : List Timer)
    → w'.time_have_run ≡ w.time_have_run
    → Moved (some d) t w fired w'
    → Pends d t w'
quiet-Pends d t w w' fired still h =
    let none_made : h.rounds ≡ 0 = omega (arith, h.ran, still) in
    subst (λ n. Stage (steps n (some d)) t w') none_made h.stage

pub armed-Timed :
    (fd limit : ℕ) (w : TimeWheel)
    → IsWheel w
    → time_limit + w.time_have_run ≤ limit
    → Timed fd limit (armed time_limit fd w) (some (ref_of (new_timer (ticks_of time_limit) w)))
unfolding add_timer bind_timer
armed-Timed fd limit w h soon = record {
  timer = armed_timer time_limit fd w;
  turns = time_limit;
  points = refl;
  calls_back = refl;
  pends = armed-Pends time_limit fd w h;
  soon = soon;
}

pub armed-Timed_other :
    (fd fd' limit : ℕ) (w : TimeWheel) (r : Option TimerRef)
    → Timed fd limit w r
    → Timed fd limit (armed time_limit fd' w) r
unfolding call add_timer bind_timer
armed-Timed_other fd fd' limit w r h =
    let t = h.timer in
    let new = ref_of (new_timer (ticks_of time_limit) w) in
    let w1 : TimeWheel = (add_timer (pos time_limit) w).1 in
    let added : Moved (some h.turns) t w [] w1 =
      call-Moved (adds (pos time_limit)) (some h.turns) t w tt h.pends in
    let first : Pends h.turns t w1 = quiet-Pends h.turns t w w1 [] refl added in
    let bound : Moved (some h.turns) t w1 [] (bind_timer new fd' w1) =
      call-Moved (binds new fd') (some h.turns) t w1 (omega (arith, h.pends.old)) first in
    record {
      timer = t;
      turns = h.turns;
      points = h.points;
      calls_back = h.calls_back;
      pends = quiet-Pends h.turns t w1 (bind_timer new fd' w1) [] refl bound;
      soon = h.soon;
    }

pub del_timer-Timed :
    (fd limit : ℕ) (w w' : TimeWheel) (r : Option TimerRef) (other : TimerRef)
    → (h : Timed fd limit w r) → other.id ≢ h.timer.id
    → del_timer (some other) w ≡ some w'
    → w'.time_have_run ≡ w.time_have_run
    → Timed fd limit w' r
unfolding call
del_timer-Timed fd limit w w' r other h apart e still =
    let t = h.timer in
    let moved : CallMoved (some h.turns) t w (call (deletes (some other)) w) =
      call-Moved (deletes (some other)) (some h.turns) t w apart h.pends in
    let run : call (deletes (some other)) w ≡ some ([], w') = rw (call, e) refl in
    let done : Moved (some h.turns) t w [] w' = rw run at moved in
    record {
      timer = t;
      turns = h.turns;
      points = h.points;
      calls_back = h.calls_back;
      pends = quiet-Pends h.turns t w w' [] still done;
      soon = omega (arith, h.soon, still);
    }

steps_due : (n d : ℕ) → n ≤ d → steps n (some d) ≡ some (d - n)
steps_due zero d h = ap some (omega arith)
steps_due (suc n) zero h = absurd (omega arith)
steps_due (suc n) (suc d) h = steps_due n d (omega arith) ∙ ap some (omega arith)

-- A tick fires the timer, with its callback, or keeps it.
pub tick-Timed :
    (fd limit now : ℕ) (w : TimeWheel) (r : Option TimerRef)
    → Timed fd limit w r
    → ((t : Timer) × (pick t.id (tick now w).0 ≡ t ∷ []) × (t.user ≡ some fd))
      ⊎ Timed fd limit (tick now w).1 r
unfolding call
tick-Timed fd limit now w r h =
    let t = h.timer in
    let done : Moved (some h.turns) t w (tick now w).0 (tick now w).1 =
      call-Moved (ticks now) (some h.turns) t w tt h.pends in
    elim (Bool-cases (ltb h.turns done.rounds)) [
      | inl e ↦
          let shot : Timer = record t { rotation = 0 } in
          inl (shot, done.picked ∙ shots_due done.rounds h.turns t ∙ rw e refl, h.calls_back)
      | inr e ↦
          let later : done.rounds ≤ h.turns = ground arith in
          inr (record {
            timer = t;
            turns = h.turns - done.rounds;
            points = h.points;
            calls_back = h.calls_back;
            pends =
                subst (λ o. Stage o t (tick now w).1) (steps_due done.rounds h.turns later)
                  done.stage;
            soon = omega (arith, h.soon, done.ran, later);
          })
    ]
