-- ===== src/MainLoop/Alive.antt =====
-- Runs of the loop of MainLoop.antt, with worker threads beside it.
use didactic_pancake_server.Prelude.{[], ap, none, true}
use didactic_pancake_server.MainLoop.Closing.{was_added}
use mathlib.Core.Path.{subst}
use mathlib.Core.Option.{some-injective}
use didactic_pancake_server.Prelude.{
  ℕ, ◌+◌, ◌<◌, Option, some, ◌≡◌, refl, arith, sym, ◌∙◌, inl, inr,
}
use didactic_pancake_server.Request.Server.{Server}
use didactic_pancake_server.TimeWheel.{time_wheel}
use didactic_pancake_server.TimeWheel.Timing.{time_wheel-IsWheel}
use didactic_pancake_server.MainLoop.{
  MainLoop, main_loop, time_limit, Event, handle, handle_timeout,
}
use didactic_pancake_server.MainLoop.Closing.{OpensNone}
use didactic_pancake_server.MainLoop.Steps.{Stays}
use didactic_pancake_server.MainLoop.Events.{IsTimed, Goes, server-Goes}
use didactic_pancake_server.MainLoop.Timeouts.{handle-Goes, handle_timeout-Goes}
use didactic_pancake_server.MainLoop.Rounds.{Legal, Spares}

-- What happens from `m` on: the events that the kernel reports, of those in `P`; the ends of rounds;
-- and what worker threads do to the server, where they open no connection.
pub data Run (P : Event → Type 0) (m : MainLoop) : MainLoop → Type 0 where
  starts : Run P m m
  handles :
      {m' m'' : MainLoop} (e : Event)
      → Run P m m'
      → P e
      → Legal e m'
      → handle e m' ≡ some m''
      → Run P m m''
  ends_round :
      {m' m'' : MainLoop} (now : ℕ) → Run P m m' → handle_timeout now m' ≡ some m'' → Run P m m''
  works :
      {m' : MainLoop} (s : Server)
      → Run P m m'
      → OpensNone m'.server s
      → Run P m (record m' { server = s })

abbrev pub AnyEvent : Event → Type 0
AnyEvent e = Unit {0}

-- The step that was made, for the connections of `P`.
went :
    {P : ℕ → Type 0} {m m' : MainLoop} {o : Option MainLoop}
    → Goes P m o
    → o ≡ some m'
    → IsTimed m' × ((k limit : ℕ) → P k → Stays k limit m → Stays k limit m')
went {P} {m} {m'} {o} g e =
    let same : g.result ≡ m' = some-injective g.result m' (sym g.runs ∙ e) in
    (
      subst IsTimed same g.is_timed,
      λ k limit p stays. subst (λ x. Stays k limit x) same (g.keeps k limit p stays),
    )

Run-IsTimed : {P : Event → Type 0} {m m' : MainLoop} → IsTimed m → Run P m m' → IsTimed m'
Run-IsTimed h starts = h
Run-IsTimed h (handles {m' = m'} e r p legal run) =
    (went (handle-Goes e m' (Run-IsTimed h r) legal) run).0
Run-IsTimed h (ends_round {m' = m'} now r run) =
    (went (handle_timeout-Goes (λ k. Unit {0}) now m' (Run-IsTimed h r)) run).0
Run-IsTimed h (works {m' = m'} s r quiet) =
    (went (server-Goes (λ k. Unit {0}) m' s (Run-IsTimed h r) quiet) refl).0

started-IsTimed : (now : ℕ) (s : Server) → s.kernel ≡ [] → IsTimed (main_loop now s)
unfolding time_wheel
started-IsTimed now s fresh = record {
  ready = record { wheel = time_wheel-IsWheel now; bound = λ j. tt };
  timed = λ k. inl (inr (ap (was_added k) fresh));
}

-- In every state that the main loop reaches from a server that has registered no descriptor with
-- epoll, every event that the kernel may report, and the end of every round, is handled to its end: no
-- timer is used that is null or freed, no callback is called that is not set, and no index is behind
-- the end of an array. The kernel reports descriptors below MAX_FD, and input, output and hang-ups for
-- connections that are open when the event is handled.
pub Run-goes_on :
    (now : ℕ) (s : Server) {m : MainLoop}
    → s.kernel ≡ []
    → Run AnyEvent (main_loop now s) m
    → ((e : Event) → Legal e m → (m' : MainLoop) × (handle e m ≡ some m'))
      × ((second : ℕ) → (m' : MainLoop) × (handle_timeout second m ≡ some m'))
Run-goes_on now s {m} fresh r =
    let h : IsTimed m = Run-IsTimed (started-IsTimed now s fresh) r in
    (
      λ e legal. let g = handle-Goes e m h legal in (g.result, g.runs),
      λ second. let g = handle_timeout-Goes (λ k. Unit {0}) second m h in (g.result, g.runs),
    )

-- A run that spares a connection does not put its timer off.
idle-Stays :
    {m : MainLoop} (k limit : ℕ) {m' : MainLoop}
    → IsTimed m
    → Stays k limit m
    → Run (Spares k) m m'
    → Stays k limit m'
idle-Stays k limit h stays starts = stays
idle-Stays k limit h stays (handles {m' = m'} e r p legal run) =
    (went (handle-Goes e m' (Run-IsTimed h r) legal) run).1 k limit p (idle-Stays k limit h stays r)
idle-Stays k limit h stays (ends_round {m' = m'} now r run) =
    (went (handle_timeout-Goes (λ j. Unit {0}) now m' (Run-IsTimed h r)) run).1 k limit tt
      (idle-Stays k limit h stays r)
idle-Stays k limit h stays (works {m' = m'} s r quiet) =
    (went (server-Goes (λ j. Unit {0}) m' s (Run-IsTimed h r) quiet) refl).1 k limit tt
      (idle-Stays k limit h stays r)

-- A connection that was accepted and is then idle, with no input, no output and no new connection in
-- its place, while the wheel makes more than time_limit turns, is closed, from a server that has
-- registered no descriptor with epoll.
pub idle_closes :
    (now k : ℕ) (s : Server) {m m' : MainLoop}
    → s.kernel ≡ []
    → Run AnyEvent (main_loop now s) m
    → Run (Spares k) m m'
    → m.wheel.time_have_run + time_limit < m'.wheel.time_have_run
    → was_added k m'.server.kernel ≡ true
    → (m'.server.conns k).sockfd ≡ none
idle_closes now k s {m} {m'} fresh before idle long accepted =
    let h : IsTimed m = Run-IsTimed (started-IsTimed now s fresh) before in
    elim (idle-Stays k (time_limit + m.wheel.time_have_run) h (h.timed k) idle) [
      | inl (inl done) ↦ done
      | inl (inr never) ↦ absurd (cc (sym accepted ∙ never))
      | inr t ↦ absurd (omega (arith, t.soon, long))
    ]
