-- ===== src/Tests/Loop.antt =====
-- A run of the main loop of MainLoop.antt.
use didactic_pancake_server.Prelude.{same, ℕ, ◌+◌, ◌<◌, true, some, none, [], ◌∷◌, ◌≡◌, refl, arith}
use didactic_pancake_server.Prelude.Int.{pos}
use didactic_pancake_server.Request.Server.{Server}
use didactic_pancake_server.Request.Account.{init_conn, close_conn, close_slot, logout}
use didactic_pancake_server.TimeWheel.{time_wheel, add_timer, bind_timer, tick, tick_loop, turn}
use didactic_pancake_server.MainLoop.{
  MainLoop, main_loop, time_limit, Event, accepts_one, signals, handle, handle_timeout, start_conn,
  arm_timer, cb_func, set_timer, accept_one, take_signals, fire_all,
}
use didactic_pancake_server.MainLoop.Rounds.{Legal, Spares}
use didactic_pancake_server.MainLoop.Alive.{
  Run, starts, handles, ends_round, AnyEvent, Run-goes_on, idle_closes,
}
use didactic_pancake_server.Tests.Sample.{server, conn}

-- The server before any connection, whose elements of m_users have descriptor 0, as fresh memory
-- gives; the loop starts at second 100.
abbrev idle_server : Server
idle_server = record server {
  conns = λ k. record (conn k []) { sockfd = some 0 };
  user_count = pos 0;
}

abbrev begun : MainLoop
begun = main_loop 100 idle_server

-- Client 7 connects.
abbrev client_comes : Event
client_comes = accepts_one (some 7)

abbrev served : MainLoop
served = record begun {
  server = init_conn 7 7 idle_server;
  users_timer = set_timer 7 (some (record { id = 0; time_slot = 30 })) begun.users_timer;
  wheel = bind_timer (record { id = 0; time_slot = 30 }) 7 (add_timer (pos 30) (time_wheel 100)).1;
}

client_served : handle client_comes begun ≡ some served
unfolding handle accept_one start_conn arm_timer time_wheel add_timer init_conn
client_served = refl

begins : Run AnyEvent begun served
begins = handles client_comes starts tt (omega arith) client_served

Run-goes_on_example :
    ((e : Event) → Legal e served → (m : MainLoop) × (handle e served ≡ some m))
    × ((second : ℕ) → (m : MainLoop) × (handle_timeout second served ≡ some m))
Run-goes_on_example = Run-goes_on 100 idle_server refl begins

-- SIGALRM comes at second 131, and nothing else.
abbrev alarmed : MainLoop
alarmed = record served { timeout = true }

alarm_taken : handle (signals (14 ∷ [])) served ≡ some alarmed
unfolding handle take_signals
alarm_taken = refl

abbrev timed_out : MainLoop
timed_out = record served { server = cb_func 7 served.server; wheel = (tick 131 served.wheel).1 }

alarm_served : handle_timeout 131 alarmed ≡ some timed_out
unfolding handle_timeout fire_all tick tick_loop turn time_wheel add_timer bind_timer init_conn
alarm_served = refl

idles : Run (Spares 7) served timed_out
idles = ends_round 131 (handles (signals (14 ∷ [])) starts tt tt alarm_taken) alarm_served

many_turns : served.wheel.time_have_run + time_limit < timed_out.wheel.time_have_run
unfolding tick tick_loop turn time_wheel add_timer bind_timer
many_turns = omega arith

idle_closes_example : (timed_out.server.conns 7).sockfd ≡ none
unfolding cb_func close_conn close_slot logout init_conn same
idle_closes_example = idle_closes 100 7 idle_server refl begins idles many_turns refl
