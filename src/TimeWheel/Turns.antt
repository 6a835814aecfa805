-- ===== src/TimeWheel/Turns.antt =====
-- A timer under the turns of the wheel of TimeWheel.antt.
use native.Mathlib.Decide.{ℕ_discrete}
use didactic_pancake_server.Prelude.{
  ℕ, zero, suc, ◌+◌, ◌-◌, ◌*◌, ◌%◌, ◌<◌, true, false, Option, none, some, List, [], ◌∷◌, ltb, ◌==◌,
  ◌≡◌, ◌≢◌, refl, arith, ap, sym, ◌∙◌, if◌then◌else◌,
}
use didactic_pancake_server.TimeWheel.{slot_count, Timer, TimeWheel, expired, remaining, turn}
use didactic_pancake_server.TimeWheel.Picks.{pick, pick-expired, pick-remaining, pick-set_slot}

abbrev pub only : ℕ → Timer → ℕ → List Timer
only ts t s = if s == ts then t ∷ [] else []

pub only-elsewhere : (ts s : ℕ) (t : Timer) → s ≢ ts → only ts t s ≡ []
only-elsewhere ts s t apart = let e : (s == ts) ≡ false = ground arith in rw e

pub only-here : (ts s : ℕ) (t : Timer) → s ≡ ts → only ts t s ≡ t ∷ []
only-here ts s t same = let e : (s == ts) ≡ true = ground arith in rw e

-- The timer `t`, whatever its rotation, is in its slot and nowhere else, and fires in the turn
-- after `d` more.
pub record Pends (d : ℕ) (t : Timer) (w : TimeWheel) : Type 0 where
  pub rotation : ℕ
  pub held : (s : ℕ) → pick t.id (w.slots s) ≡ only t.time_slot (record t { rotation = rotation }) s
  pub in_slot : t.time_slot < slot_count
  pub in_wheel : w.cur_slot < slot_count
  pub old : t.id < w.made
  pub due : d ≡ (t.time_slot + 60 - w.cur_slot) % 60 + 60 * rotation

-- No timer has the address, and none will have it again.
pub record Gone (t : Timer) (w : TimeWheel) : Type 0 where
  pub held : (s : ℕ) → pick t.id (w.slots s) ≡ []
  pub old : t.id < w.made

-- A timer that is due, or is gone.
abbrev pub Stage : Option ℕ → Timer → TimeWheel → Type 0
Stage none t w = Gone t w
Stage (some d) t w = Pends d t w

abbrev pub sooner : Option ℕ → Option ℕ
sooner none = none
sooner (some zero) = none
sooner (some (suc d)) = some d

abbrev pub shot : Option ℕ → Timer → List Timer
shot none t = []
shot (some zero) t = record t { rotation = 0 } ∷ []
shot (some (suc d)) t = []

turn-Gone : (t : Timer) (w : TimeWheel) → Gone t w → (pick t.id (turn w).0 ≡ []) × Gone t (turn w).1
unfolding turn
turn-Gone t w h = (
  pick-expired t.id (w.slots w.cur_slot) ∙ rw (h.held w.cur_slot, expired) refl,
  record {
    held =
        pick-set_slot t.id w.cur_slot _ w.slots (λ s. [])
          (pick-remaining t.id (w.slots w.cur_slot) ∙ rw (h.held w.cur_slot, remaining) refl)
          (λ s apart. h.held s);
    old = h.old;
  },
)

-- In the slot of the timer, on its last round.
turn_last :
    (d : ℕ) (t : Timer) (w : TimeWheel)
    → (h : Pends d t w) → w.cur_slot ≡ t.time_slot
    → h.rotation ≡ 0
    → (pick t.id (turn w).0 ≡ record t { rotation = 0 } ∷ []) × Gone t (turn w).1
unfolding turn
turn_last d t w h here last =
    let one_here : pick t.id (w.slots w.cur_slot) ≡ record t { rotation = 0 } ∷ [] =
      h.held w.cur_slot
      ∙ only-here t.time_slot w.cur_slot _ here
      ∙ ap (λ r. record t { rotation = r } ∷ []) last in
    (
      pick-expired t.id (w.slots w.cur_slot) ∙ rw (one_here, expired) refl,
      record {
        held =
            pick-set_slot t.id w.cur_slot _ w.slots (λ s. [])
              (pick-remaining t.id (w.slots w.cur_slot) ∙ rw (one_here, remaining) refl)
              (λ s apart.
                h.held s ∙ only-elsewhere t.time_slot s _ (λ same. apart (here ∙ sym same)));
        old = h.old;
      },
    )

expired_more : (t : Timer) (r : ℕ) → expired (record t { rotation = suc r } ∷ []) ≡ []
unfolding expired
expired_more t r = let e : ltb 0 (suc r) ≡ true = ground arith in rw e refl

remaining_more :
    (t : Timer) (r : ℕ)
    → remaining (record t { rotation = suc r } ∷ []) ≡ record t { rotation = r } ∷ []
unfolding remaining
remaining_more t r =
    let e : ltb 0 (suc r) ≡ true = ground arith in
    let less : suc r - 1 ≡ r = omega arith in rw (e, less) refl

-- In the slot of the timer, with rounds to go.
turn_round :
    (d d' r : ℕ) (t : Timer) (w : TimeWheel)
    → (h : Pends d t w) → d ≡ suc d'
    → w.cur_slot ≡ t.time_slot
    → h.rotation ≡ suc r
    → (pick t.id (turn w).0 ≡ []) × Pends d' t (turn w).1
unfolding turn
turn_round d d' r t w h step here more =
    let one_here : pick t.id (w.slots w.cur_slot) ≡ record t { rotation = suc r } ∷ [] =
      h.held w.cur_slot
      ∙ only-here t.time_slot w.cur_slot _ here
      ∙ ap (λ r. record t { rotation = r } ∷ []) more in
    (
      pick-expired t.id (w.slots w.cur_slot) ∙ ap expired one_here ∙ expired_more t r,
      record {
        rotation = r;
        held =
            pick-set_slot t.id w.cur_slot _ w.slots (only t.time_slot (record t { rotation = r }))
              (pick-remaining t.id (w.slots w.cur_slot)
                ∙ ap remaining one_here
                ∙ remaining_more t r
                ∙ sym (only-here t.time_slot w.cur_slot _ here))
              (λ s apart.
                h.held s
                ∙ only-elsewhere t.time_slot s _ (λ same. apart (here ∙ sym same))
                ∙ sym (only-elsewhere t.time_slot s _ (λ same. apart (here ∙ sym same))));
        in_slot = h.in_slot;
        in_wheel = omega arith;
        old = h.old;
        due = omega (arith, h.due, h.in_slot, h.in_wheel);
      },
    )

turn-here :
    (d : ℕ) (t : Timer) (w : TimeWheel)
    → (h : Pends d t w) → w.cur_slot ≡ t.time_slot
    → (r : ℕ) → h.rotation ≡ r
    → (pick t.id (turn w).0 ≡ shot (some d) t) × Stage (sooner (some d)) t (turn w).1
turn-here zero t w h here zero e = turn_last zero t w h here e
turn-here zero t w h here (suc r) e = absurd (omega (arith, h.due, e))
turn-here (suc d) t w h here zero e = absurd (omega (arith, h.due, h.in_slot, h.in_wheel, e))
turn-here (suc d) t w h here (suc r) e = turn_round (suc d) d r t w h refl here e

-- In another slot, the timer waits.
turn-elsewhere :
    (d : ℕ) (t : Timer) (w : TimeWheel)
    → Pends d t w
    → w.cur_slot ≢ t.time_slot
    → (pick t.id (turn w).0 ≡ shot (some d) t) × Stage (sooner (some d)) t (turn w).1
unfolding turn
turn-elsewhere zero t w h apart = absurd (apart (omega (arith, h.due, h.in_slot, h.in_wheel)))
turn-elsewhere (suc d) t w h apart =
    let none_here : pick t.id (w.slots w.cur_slot) ≡ [] =
      h.held w.cur_slot ∙ only-elsewhere t.time_slot w.cur_slot _ apart in
    (
      pick-expired t.id (w.slots w.cur_slot) ∙ rw (none_here, expired) refl,
      record {
        rotation = h.rotation;
        held =
            pick-set_slot t.id w.cur_slot _ w.slots
              (only t.time_slot (record t { rotation = h.rotation }))
              (pick-remaining t.id (w.slots w.cur_slot)
                ∙ rw (none_here, remaining)
                    (sym (
                      only-elsewhere t.time_slot w.cur_slot (record t { rotation = h.rotation })
                        apart)))
              (λ s other. h.held s);
        in_slot = h.in_slot;
        in_wheel = omega arith;
        old = h.old;
        due = omega (arith, h.due, h.in_slot, h.in_wheel);
      },
    )

turn-Pends :
    (d : ℕ) (t : Timer) (w : TimeWheel)
    → Pends d t w
    → (pick t.id (turn w).0 ≡ shot (some d) t) × Stage (sooner (some d)) t (turn w).1
turn-Pends d t w h = elim (ℕ_discrete w.cur_slot t.time_slot) [
  | yes here ↦ turn-here d t w h here h.rotation refl
  | no apart ↦ turn-elsewhere d t w h apart
]

pub turn-Stage :
    (o : Option ℕ) (t : Timer) (w : TimeWheel)
    → Stage o t w
    → (pick t.id (turn w).0 ≡ shot o t) × Stage (sooner o) t (turn w).1
turn-Stage none t w h = turn-Gone t w h
turn-Stage (some d) t w h = turn-Pends d t w h
