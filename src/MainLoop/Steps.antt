-- ===== src/MainLoop/Steps.antt =====
-- The operations of MainLoop.antt on the connections and their timers.
use mathlib.Core.Path.{subst}
use didactic_pancake_server.Prelude.{
  ℕ, ◌+◌, true, false, Option, some, [], ◌∷◌, ◌==◌, ◌≡◌, ◌≢◌, refl, arith, ◌∙◌, ◌⊎◌, inl, inr,
}
use didactic_pancake_server.Prelude.Int.{pos}
use didactic_pancake_server.Request.Server.{Server}
use didactic_pancake_server.TimeWheel.{
  TimerRef, TimeWheel, set_slot, add_timer, bind_timer, del_timer, new_timer, ticks_of, adds, binds,
  deletes, call,
}
use didactic_pancake_server.TimeWheel.Picks.{pick}
use didactic_pancake_server.TimeWheel.Turns.{only-here}
use didactic_pancake_server.TimeWheel.Timing.{IsWheel, Leaves, call-IsWheel}
use didactic_pancake_server.TimeWheel.Armed.{ref_of, armed}
use didactic_pancake_server.MainLoop.{
  MainLoop, time_limit, set_timer, arm_timer, cb_func, close_client, delay_timer,
}
use didactic_pancake_server.MainLoop.Closing.{
  IsClosed, OpensNone, cb_func-IsClosed, cb_func-OpensNone,
}
use didactic_pancake_server.MainLoop.Bound.{
  Bound, Unlinked, pick-Unlinked, set_slot-Bound, armed-Bound,
}
use didactic_pancake_server.MainLoop.Timed.{
  Timed, Timed-apart, armed-Timed, armed-Timed_other, del_timer-Timed,
}

-- A wheel in order, whose timers have their callbacks.
pub record Ready (w : TimeWheel) : Type 0 where
  pub wheel : IsWheel w
  pub bound : Bound w

-- The connection is closed, or its timer fires in time.
abbrev pub Stays : ℕ → ℕ → MainLoop → Type 0
Stays fd limit m = IsClosed fd m.server ⊎ Timed fd limit m.wheel (m.users_timer fd)

-- The wheel is ready and was turned forward, and of the connections but `fd` none is worse off.
pub record Kept (fd : ℕ) (m m' : MainLoop) : Type 0 where
  pub ready : Ready m'.wheel
  pub same_run : m'.wheel.time_have_run ≡ m.wheel.time_have_run
  pub others : (k limit : ℕ) → fd ≢ k → Stays k limit m → Stays k limit m'

pub Kept-trans : {fd : ℕ} {m m' m'' : MainLoop} → Kept fd m m' → Kept fd m' m'' → Kept fd m m''
Kept-trans h k = record {
  ready = k.ready;
  same_run = k.same_run ∙ h.same_run;
  others = λ j limit apart s. k.others j limit apart (h.others j limit apart s);
}

-- A change of the server that opens no connection.
pub server-Kept :
    (fd : ℕ) (m : MainLoop) (s : Server)
    → Ready m.wheel
    → OpensNone m.server s
    → Kept fd m (record m { server = s })
server-Kept fd m s h quiet = record {
  ready = h;
  same_run = refl;
  others =
      λ k limit apart stays. elim stays [ inl shut ↦ inl (quiet k shut) | inr timed ↦ inr timed ];
}

-- What arm_timer makes of the main loop.
pub record Armed (fd : ℕ) (m : MainLoop) : Type 0 where
  pub result : MainLoop
  pub runs : arm_timer fd m ≡ some result
  pub kept : Kept fd m result
  pub same_server : result.server ≡ m.server
  pub timed : Timed fd (time_limit + m.wheel.time_have_run) result.wheel (result.users_timer fd)

armed-IsWheel : (fd : ℕ) (w : TimeWheel) → IsWheel w → IsWheel (armed time_limit fd w)
unfolding call
armed-IsWheel fd w h =
    call-IsWheel (binds (ref_of (new_timer (ticks_of time_limit) w)) fd)
      (add_timer (pos time_limit) w).1 (call-IsWheel (adds (pos time_limit)) w h)

pub arm_timer-Armed : (fd : ℕ) (m : MainLoop) → Ready m.wheel → Armed fd m
unfolding arm_timer add_timer bind_timer
arm_timer-Armed fd m h =
    let w = m.wheel in
    let r : Option TimerRef = some (ref_of (new_timer (ticks_of time_limit) w)) in
    let self : (fd == fd) ≡ true = ground arith in
    record {
      result = record m {
        users_timer = set_timer fd r m.users_timer;
        wheel = armed time_limit fd w;
      };
      runs = refl;
      kept = record {
        ready = record {
          wheel = armed-IsWheel fd w h.wheel;
          bound = armed-Bound time_limit fd w h.bound;
        };
        same_run = refl;
        others = λ k limit apart stays. elim stays [
          | inl shut ↦ inl shut
          | inr timed ↦
              let off : (fd == k) ≡ false = ground arith in
              inr (rw off (armed-Timed_other k fd limit w (m.users_timer k) timed))
        ];
      };
      same_server = refl;
      timed = rw self (armed-Timed fd (time_limit + w.time_have_run) w h.wheel (omega arith));
    }

-- What del_timer makes of a wheel that has the timer of `fd`.
pub record Deleted (fd : ℕ) (m : MainLoop) : Type 0 where
  pub ref : TimerRef
  pub points : m.users_timer fd ≡ some ref
  pub wheel : TimeWheel
  pub runs : del_timer (some ref) m.wheel ≡ some wheel
  pub kept : Kept fd m (record m { wheel = wheel })

pub del_timer-Deleted :
    (fd limit : ℕ) (m : MainLoop)
    → Ready m.wheel
    → Timed fd limit m.wheel (m.users_timer fd)
    → Deleted fd m
unfolding del_timer call
del_timer-Deleted fd limit m ready h =
    let w = m.wheel in
    let t = h.timer in
    let here : pick t.id (w.slots t.time_slot) ≡ record t { rotation = h.pends.rotation } ∷ [] =
      h.pends.held t.time_slot ∙ only-here t.time_slot t.time_slot _ refl in
    let u : Unlinked t.id (w.slots t.time_slot) =
      pick-Unlinked _ t.id (w.slots t.time_slot) [] here in
    let w' : TimeWheel = record w { slots = set_slot t.time_slot u.rest w.slots } in
    let runs : del_timer (some (ref_of t)) w ≡ some w' = rw (u.runs, del_timer) refl in
    let called : call (deletes (some (ref_of t))) w ≡ some ([], w') = rw (call, runs) refl in
    let order : Leaves (call (deletes (some (ref_of t))) w) =
      call-IsWheel (deletes (some (ref_of t))) w ready.wheel in
    record {
      ref = ref_of t;
      points = h.points;
      wheel = w';
      runs = runs;
      kept = record {
        ready = record {
          wheel = rw called at order;
          bound =
              set_slot-Bound t.time_slot u.rest w.slots (u.bound (ready.bound t.time_slot))
                ready.bound;
        };
        same_run = refl;
        others = λ k lim apart stays. elim stays [
          | inl shut ↦ inl shut
          | inr timed ↦ inr (
              del_timer-Timed k lim w w' (m.users_timer k) (ref_of t) timed
                (Timed-apart apart h timed) runs refl)
        ];
      };
    }

-- The connection is closed and its timer deleted.
pub record Closed (fd : ℕ) (m : MainLoop) : Type 0 where
  pub result : MainLoop
  pub runs : close_client fd m ≡ some result
  pub kept : Kept fd m result
  pub shut : IsClosed fd result.server

pub close_client-Closed :
    (fd limit : ℕ) (m : MainLoop)
    → Ready m.wheel
    → Timed fd limit m.wheel (m.users_timer fd)
    → Closed fd m
unfolding close_client
close_client-Closed fd limit m ready h =
    let d = del_timer-Deleted fd limit m ready h in
    let m1 : MainLoop = record m { wheel = d.wheel } in
    record {
      result = record m { server = cb_func fd m.server; wheel = d.wheel };
      runs = rw (d.points, close_client, d.runs) refl;
      kept =
          Kept-trans d.kept
            (server-Kept fd m1 (cb_func fd m.server) d.kept.ready (cb_func-OpensNone fd m.server));
      shut = cb_func-IsClosed fd m.server;
    }

-- The timer of the connection is deleted, and a new one is set.
pub record Delayed (fd : ℕ) (m : MainLoop) : Type 0 where
  pub result : MainLoop
  pub runs : delay_timer fd m ≡ some result
  pub kept : Kept fd m result
  pub timed : Timed fd (time_limit + m.wheel.time_have_run) result.wheel (result.users_timer fd)

pub delay_timer-Delayed :
    (fd limit : ℕ) (m : MainLoop)
    → Ready m.wheel
    → Timed fd limit m.wheel (m.users_timer fd)
    → Delayed fd m
unfolding delay_timer
delay_timer-Delayed fd limit m ready h =
    let d = del_timer-Deleted fd limit m ready h in
    let a = arm_timer-Armed fd (record m { wheel = d.wheel }) d.kept.ready in
    record {
      result = a.result;
      runs = rw (d.points, delay_timer, d.runs) a.runs;
      kept = Kept-trans d.kept a.kept;
      timed =
          subst (λ n. Timed fd (time_limit + n) a.result.wheel (a.result.users_timer fd))
            d.kept.same_run a.timed;
    }
