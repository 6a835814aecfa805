-- ===== src/MainLoop/Timeouts.antt =====
-- Any event of MainLoop.antt, and the end of a round.
use mathlib.Core.Path.{subst}
use didactic_pancake_server.Prelude.{
  if_rule, ℕ, zero, suc, ◌+◌, ◌≤◌, Bool, true, false, none, some, List, [], ◌∷◌, ◌==◌, ◌≡◌, refl,
  arith, sym, inl, inr, Bool-cases,
}
use didactic_pancake_server.TimeWheel.{TimeWheel, tick, tick_loop, ticks, call, turn, goes_on}
use didactic_pancake_server.TimeWheel.Timing.{call-IsWheel}
use didactic_pancake_server.MainLoop.{
  MainLoop, time_limit, take_signals, udp_event, Event, accepts_one, accepts_all, hangs_up, signals,
  datagram, readable, writable, handle, fire_all, handle_timeout,
}
use didactic_pancake_server.MainLoop.Closing.{Fires, fire_all-Fires}
use didactic_pancake_server.MainLoop.Bound.{tick_loop-Bound}
use didactic_pancake_server.MainLoop.Timed.{tick-Timed}
use didactic_pancake_server.MainLoop.Steps.{Stays}
use didactic_pancake_server.MainLoop.Events.{IsTimed, Goes, still-Goes, server-Goes, close-Goes}
use didactic_pancake_server.MainLoop.Rounds.{
  Legal, Spares, accept_one-Goes, accept_all-Goes, read_event-Goes, write_event-Goes,
}

-- take_signals changes the flags only.
abbrev flagged : Bool → Bool → MainLoop → MainLoop
flagged timeout stop m = record m { timeout = timeout; stop_server = stop }

abbrev Flagged : MainLoop → MainLoop → Type 0
Flagged m m' = (a : Bool) × (b : Bool) × (m' ≡ flagged a b m)

take_signals-Flagged :
    (sigs : List ℕ) (a b : Bool) (m : MainLoop) → Flagged m (take_signals sigs (flagged a b m))
unfolding take_signals
take_signals-Flagged [] a b m = (a, b, refl)
take_signals-Flagged (sig ∷ sigs) a b m =
    if_rule (λ x. Flagged m (take_signals sigs x)) (sig == 14)
      (λ e. take_signals-Flagged sigs true b m)
      (λ e.
        if_rule (λ x. Flagged m (take_signals sigs x)) (sig == 15)
          (λ e1. take_signals-Flagged sigs a true m) (λ e1. take_signals-Flagged sigs a b m))

flagged-Goes :
    (P : ℕ → Type 0) (a b : Bool) (m : MainLoop) → IsTimed m → Goes P m (some (flagged a b m))
flagged-Goes P a b m h = record {
  result = flagged a b m;
  runs = refl;
  is_timed = record { ready = h.ready; timed = λ k. kept k _ (h.timed k) };
  forward = omega arith;
  keeps = λ k limit p stays. kept k limit stays;
}
  where
    kept : (k limit : ℕ) → Stays k limit m → Stays k limit (flagged a b m)
    kept k limit (inl shut) = inl shut
    kept k limit (inr timed) = inr timed

take_signals-Goes :
    (P : ℕ → Type 0) (sigs : List ℕ) (m : MainLoop)
    → IsTimed m
    → Goes P m (some (take_signals sigs m))
take_signals-Goes P sigs m h =
    let (a, b, e) = take_signals-Flagged sigs m.timeout m.stop_server m in
    subst (λ x. Goes P m (some x)) (sym e) (flagged-Goes P a b m h)

pub handle-Goes :
    (e : Event) (m : MainLoop) → IsTimed m → Legal e m → Goes (λ k. Spares k e) m (handle e m)
unfolding handle udp_event
handle-Goes (accepts_one connfd) m h legal = accept_one-Goes connfd m legal h
handle-Goes (accepts_all connfds) m h legal = accept_all-Goes connfds m legal h
handle-Goes (hangs_up fd) m h legal = close-Goes _ fd m h legal
handle-Goes (signals sigs) m h legal = take_signals-Goes _ sigs m h
handle-Goes (datagram chat_id from) m h legal =
    server-Goes _ m (udp_event chat_id from m).server h (λ k shut. shut)
handle-Goes (readable fd ok) m h legal = read_event-Goes fd ok m h legal
handle-Goes (writable fd outs) m h legal = write_event-Goes fd outs m h legal

-- Of the connections that were not timed out, each has its timer still.
fired-Stays :
    (k limit now : ℕ) (m : MainLoop) (f : Fires (tick now m.wheel).0 m.server)
    → Stays k limit m
    → Stays k limit (record m { server = f.server; wheel = (tick now m.wheel).1; timeout = false })
fired-Stays k limit now m f (inl shut) = inl (f.fired.opens_none k shut)
fired-Stays k limit now m f (inr timed) =
    elim (tick-Timed k limit now m.wheel (m.users_timer k) timed) [
      | inl (t, one, user) ↦ inl (f.fired.closes t k one user)
      | inr later ↦ inr later
    ]

tick_loop_forward :
    (fuel now : ℕ) (w : TimeWheel) → w.time_have_run ≤ (tick_loop fuel now w).1.time_have_run
unfolding tick_loop turn
tick_loop_forward zero now w = omega arith
tick_loop_forward (suc fuel) now w = elim (Bool-cases (goes_on now w)) [
  | inl e ↦
      let rest = tick_loop_forward fuel now (turn w).1 in rw (e, tick_loop) (omega (arith, rest))
  | inr e ↦ rw (e, tick_loop) (omega arith)
]

later-Stays :
    (k a b : ℕ) (m : MainLoop) → a ≤ b → Stays k (time_limit + a) m → Stays k (time_limit + b) m
later-Stays k a b m more (inl shut) = inl shut
later-Stays k a b m more (inr t) = inr (record {
  timer = t.timer;
  turns = t.turns;
  points = t.points;
  calls_back = t.calls_back;
  pends = t.pends;
  soon = omega (arith, t.soon, more);
})

timeout-Goes :
    (P : ℕ → Type 0) (now : ℕ) (m : MainLoop)
    → IsTimed m
    → Goes P m (elim (fire_all (tick now m.wheel).0 m.server) [
      | none ↦ none
      | some s ↦ some (record m { server = s; wheel = (tick now m.wheel).1; timeout = false })
    ])
unfolding tick call
timeout-Goes P now m h =
    let (callbacks, bound) = tick_loop-Bound (now + 1) now m.wheel h.ready.bound in
    let f : Fires (tick now m.wheel).0 m.server =
      fire_all-Fires (tick now m.wheel).0 m.server callbacks in
    let m' : MainLoop = record m {
      server = f.server;
      wheel = (tick now m.wheel).1;
      timeout = false;
    } in
    let forward : m.wheel.time_have_run ≤ (tick now m.wheel).1.time_have_run =
      tick_loop_forward (now + 1) now m.wheel in
    record {
      result = m';
      runs = rw f.runs refl;
      is_timed = record {
        ready = record { wheel = call-IsWheel (ticks now) m.wheel h.ready.wheel; bound = bound };
        timed = λ k.
            later-Stays k m.wheel.time_have_run (tick now m.wheel).1.time_have_run m' forward
              (fired-Stays k (time_limit + m.wheel.time_have_run) now m f (h.timed k));
      };
      forward = forward;
      keeps = λ k limit p stays. fired-Stays k limit now m f stays;
    }

pub handle_timeout-Goes :
    (P : ℕ → Type 0) (now : ℕ) (m : MainLoop) → IsTimed m → Goes P m (handle_timeout now m)
unfolding handle_timeout
handle_timeout-Goes P now m h =
    if_rule (Goes P m) m.timeout (λ e. timeout-Goes P now m h) (λ e. still-Goes P m h)
