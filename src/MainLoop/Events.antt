-- ===== src/MainLoop/Events.antt =====
-- The events of MainLoop.antt, on a main loop whose open connections have their timers.
use didactic_pancake_server.Prelude.{◌<◌, ltb, lt→ltb, true, [], ◌∷◌, ◌∙◌}
use didactic_pancake_server.Request.Server.{add_fd}
use didactic_pancake_server.MainLoop.{max_fd}
use didactic_pancake_server.MainLoop.Closing.{was_added-quiet}
use native.Mathlib.Decide.{ℕ_discrete}
use mathlib.Core.Path.{subst}
use didactic_pancake_server.Prelude.{
  ℕ, ◌+◌, ◌≤◌, Option, some, ◌≡◌, ◌≢◌, refl, arith, sym, inl, inr,
}
use didactic_pancake_server.Request.Server.{Server}
use didactic_pancake_server.Request.Account.{init_conn}
use didactic_pancake_server.MainLoop.{MainLoop, time_limit, start_conn, close_client, delay_timer}
use didactic_pancake_server.MainLoop.Closing.{IsClosed, OpensNone}
use didactic_pancake_server.MainLoop.Timed.{Timed}
use didactic_pancake_server.MainLoop.Steps.{
  Ready, Stays, Kept, Kept-trans, arm_timer-Armed, close_client-Closed, delay_timer-Delayed,
}

-- Every connection is closed, or its timer fires when the wheel has made time_limit turns more.
pub record IsTimed (m : MainLoop) : Type 0 where
  pub ready : Ready m.wheel
  pub timed : (k : ℕ) → Stays k (time_limit + m.wheel.time_have_run) m

-- The main loop goes on, and no connection of `P` is worse off.
pub record Goes (P : ℕ → Type 0) (m : MainLoop) (o : Option MainLoop) : Type 0 where
  pub result : MainLoop
  pub runs : o ≡ some result
  pub is_timed : IsTimed result
  pub forward : m.wheel.time_have_run ≤ result.wheel.time_have_run
  pub keeps : (k limit : ℕ) → P k → Stays k limit m → Stays k limit result

pub still-Goes : (P : ℕ → Type 0) (m : MainLoop) → IsTimed m → Goes P m (some m)
still-Goes P m h = record {
  result = m;
  runs = refl;
  is_timed = h;
  forward = omega arith;
  keeps = λ k limit p stays. stays;
}

-- A step about one connection, which is closed or timed at its end.
Kept-Goes :
    (P : ℕ → Type 0) (fd : ℕ) (m m' : MainLoop) (o : Option MainLoop)
    → IsTimed m
    → o ≡ some m'
    → Kept fd m m'
    → Stays fd (time_limit + m.wheel.time_have_run) m'
    → ((limit : ℕ) → P fd → Stays fd limit m → Stays fd limit m')
    → Goes P m o
Kept-Goes P fd m m' o h runs kept own mine =
    let same_limit : time_limit + m.wheel.time_have_run ≡ time_limit + m'.wheel.time_have_run =
      omega (arith, kept.same_run) in
    record {
      result = m';
      runs = runs;
      is_timed = record {
        ready = kept.ready;
        timed = λ k.
            subst (λ n. Stays k n m') same_limit
              (elim (ℕ_discrete fd k) [
                | yes same ↦ subst (λ j. Stays j (time_limit + m.wheel.time_have_run) m') same own
                | no apart ↦ kept.others k (time_limit + m.wheel.time_have_run) apart (h.timed k)
              ]);
      };
      forward = omega (arith, kept.same_run);
      keeps = λ k limit p stays. elim (ℕ_discrete fd k) [
        | yes same ↦
            let back : k ≡ fd = sym same in
            subst (λ j. Stays j limit m') same
              (mine limit (subst P back p) (subst (λ j. Stays j limit m) back stays))
        | no apart ↦ kept.others k limit apart stays
      ];
    }

-- A change of the server only.
pub server-Goes :
    (P : ℕ → Type 0) (m : MainLoop) (s : Server)
    → IsTimed m
    → OpensNone m.server s
    → Goes P m (some (record m { server = s }))
server-Goes P m s h quiet = record {
  result = record m { server = s };
  runs = refl;
  is_timed = record {
    ready = h.ready;
    timed = λ k. kept k (time_limit + m.wheel.time_have_run) (h.timed k);
  };
  forward = omega arith;
  keeps = λ k limit p stays. kept k limit stays;
}
  where
    kept : (k limit : ℕ) → Stays k limit m → Stays k limit (record m { server = s })
    kept k limit (inl shut) = inl (quiet k shut)
    kept k limit (inr timed) = inr timed

-- The timer of a connection that is open.
open-Timed :
    (fd : ℕ) (m : MainLoop)
    → IsTimed m
    → ¬ IsClosed fd m.server
    → Timed fd (time_limit + m.wheel.time_have_run) m.wheel (m.users_timer fd)
open-Timed fd m h opened = elim (h.timed fd) [ inl shut ↦ absurd (opened shut) | inr timed ↦ timed ]

pub close-Goes :
    (P : ℕ → Type 0) (fd : ℕ) (m : MainLoop)
    → IsTimed m
    → ¬ IsClosed fd m.server
    → Goes P m (close_client fd m)
close-Goes P fd m h opened =
    let c =
      close_client-Closed fd (time_limit + m.wheel.time_have_run) m h.ready
        (open-Timed fd m h opened) in
    Kept-Goes P fd m c.result (close_client fd m) h c.runs c.kept (inl c.shut)
      (λ limit p stays. inl c.shut)

pub delay-Goes :
    (fd : ℕ) (m : MainLoop)
    → IsTimed m
    → ¬ IsClosed fd m.server
    → Goes (λ k. fd ≢ k) m (delay_timer fd m)
delay-Goes fd m h opened =
    let d =
      delay_timer-Delayed fd (time_limit + m.wheel.time_have_run) m h.ready
        (open-Timed fd m h opened) in
    Kept-Goes (λ k. fd ≢ k) fd m d.result (delay_timer fd m) h d.runs d.kept (inr d.timed)
      (λ limit p stays. absurd (p refl))

init_conn-IsClosed :
    (fd k : ℕ) (s : Server) → fd ≢ k → IsClosed k s → IsClosed k (init_conn fd fd s)
unfolding init_conn
init_conn-IsClosed fd k s apart (inl shut) = inl (ground (arith, shut))
init_conn-IsClosed fd k s apart (inr never) =
    inr (was_added-quiet k s.kernel (add_fd (some fd) ∷ []) (ground arith) ∙ never)

pub start-Goes :
    (fd : ℕ) (m : MainLoop) → fd < max_fd → IsTimed m → Goes (λ k. fd ≢ k) m (start_conn fd m)
unfolding start_conn
start-Goes fd m below h =
    let inside : ltb fd max_fd ≡ true = lt→ltb fd max_fd below in
    let m1 : MainLoop = record m { server = init_conn fd fd m.server } in
    let a = arm_timer-Armed fd m1 h.ready in
    let begun : Kept fd m m1 = record {
      ready = h.ready;
      same_run = refl;
      others = λ k limit apart stays. elim stays [
        | inl shut ↦ inl (init_conn-IsClosed fd k m.server apart shut)
        | inr timed ↦ inr timed
      ];
    } in
    Kept-Goes (λ k. fd ≢ k) fd m a.result (start_conn fd m) h (rw (inside, start_conn) a.runs)
      (Kept-trans begun a.kept) (inr a.timed) (λ limit p stays. absurd (p refl))
