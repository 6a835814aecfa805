-- ===== src/TimeWheel/Firing.antt =====
-- When a timer of TimeWheel.antt fires, over all that the main loop does with the wheel.
use didactic_pancake_server.Prelude.{
  ℕ, zero, suc, ◌+◌, true, Option, none, some, List, [], ◌∷◌, ◌++◌, ltb, ◌≡◌, refl, arith, ap, sym,
  ◌∙◌, if◌then◌else◌, Bool-cases, inl, inr,
}
use mathlib.Core.List.{append_assoc, append-nil}
use didactic_pancake_server.TimeWheel.{Timer, TimeWheel, turn, goes_on, tick_loop}
use didactic_pancake_server.TimeWheel.Picks.{pick, pick-append}
use didactic_pancake_server.TimeWheel.Turns.{Stage, sooner, shot, turn-Stage}

abbrev pub steps : ℕ → Option ℕ → Option ℕ
steps zero o = o
steps (suc n) o = steps n (sooner o)

abbrev pub shots : ℕ → Option ℕ → Timer → List Timer
shots zero o t = []
shots (suc n) o t = shot o t ++ shots n (sooner o) t

shots-none : (n : ℕ) (t : Timer) → shots n none t ≡ []
shots-none zero t = refl
shots-none (suc n) t = shots-none n t

-- A timer that is due in `d` turns fires once in more than `d`.
pub shots_due :
    (n d : ℕ) (t : Timer)
    → shots n (some d) t ≡ (if ltb d n then record t { rotation = 0 } ∷ [] else [])
shots_due zero d t = ground arith
shots_due (suc n) zero t =
    let e : ltb 0 (suc n) ≡ true = ground arith in
    rw e (ap (λ l. record t { rotation = 0 } ∷ l) (shots-none n t))
shots_due (suc n) (suc d) t =
    let e : ltb (suc d) (suc n) ≡ ltb d n = ground arith in rw e (shots_due n d t)

steps_add : (m n : ℕ) (o : Option ℕ) → steps (m + n) o ≡ steps n (steps m o)
steps_add zero n o = let e : 0 + n ≡ n = omega arith in rw e
steps_add (suc m) n o =
    let e : suc m + n ≡ suc (m + n) = omega arith in rw e (steps_add m n (sooner o))

shots_add :
    (m n : ℕ) (o : Option ℕ) (t : Timer) → shots (m + n) o t ≡ shots m o t ++ shots n (steps m o) t
shots_add zero n o t = let e : 0 + n ≡ n = omega arith in rw e
shots_add (suc m) n o t =
    let e : suc m + n ≡ suc (m + n) = omega arith in
    rw (e, shots_add m n (sooner o) t) (sym (append_assoc (shot o t) _ _))

-- The wheel turned some times between `w` and `w'`, and of the timer `t` those shots were fired.
pub record Moved (o : Option ℕ) (t : Timer) (w : TimeWheel) (fired : List Timer) (w' : TimeWheel)
    : Type 0 where
  pub rounds : ℕ
  pub ran : w'.time_have_run ≡ w.time_have_run + rounds
  pub picked : pick t.id fired ≡ shots rounds o t
  pub stage : Stage (steps rounds o) t w'

pub Moved-still :
    (o : Option ℕ) (t : Timer) (w w' : TimeWheel)
    → w'.time_have_run ≡ w.time_have_run
    → Stage o t w'
    → Moved o t w [] w'
unfolding pick
Moved-still o t w w' e h = record { rounds = 0; ran = omega arith; picked = refl; stage = h }

pub Moved-trans :
    (o : Option ℕ) (t : Timer) (w w' w'' : TimeWheel) (a b : List Timer)
    → (h : Moved o t w a w') → Moved (steps h.rounds o) t w' b w''
    → Moved o t w (a ++ b) w''
Moved-trans o t w w' w'' a b h k = record {
  rounds = h.rounds + k.rounds;
  ran = omega (arith, h.ran, k.ran);
  picked = pick-append t.id a b ∙ rw (h.picked, k.picked) (sym (shots_add h.rounds k.rounds o t));
  stage = rw (steps_add h.rounds k.rounds o) k.stage;
}

turn-Moved :
    (o : Option ℕ) (t : Timer) (w : TimeWheel) → Stage o t w → Moved o t w (turn w).0 (turn w).1
unfolding turn
turn-Moved o t w h =
    let (picked, stage) = turn-Stage o t w h in
    record { rounds = 1; ran = refl; picked = picked ∙ sym (append-nil (shot o t)); stage = stage }

pub tick_loop-Moved :
    (fuel now : ℕ) (o : Option ℕ) (t : Timer) (w : TimeWheel)
    → Stage o t w
    → Moved o t w (tick_loop fuel now w).0 (tick_loop fuel now w).1
unfolding tick_loop
tick_loop-Moved zero now o t w h = Moved-still o t w w refl h
tick_loop-Moved (suc fuel) now o t w h = elim (Bool-cases (goes_on now w)) [
  | inl e ↦
      let first : Moved o t w (turn w).0 (turn w).1 = turn-Moved o t w h in
      rw (e, tick_loop)
        (Moved-trans o t w (turn w).1 _ (turn w).0 _ first
          (tick_loop-Moved fuel now (steps first.rounds o) t (turn w).1 first.stage))
  | inr e ↦ rw (e, tick_loop) (Moved-still o t w w refl h)
]
