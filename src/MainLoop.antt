-- ===== src/MainLoop.antt =====
-- main.cpp: the events of the main loop, the timers of the connections, and what they do to the
-- server of Request and to the wheel of TimeWheel.antt.
pub mod Closing
pub mod Bound
pub mod Timed
pub mod Steps
pub mod Events
pub mod Rounds
pub mod Timeouts
pub mod Alive
use didactic_pancake_server.Prelude.{
  ltb, ℕ, zero, suc, ◌+◌, Bool, true, false, Option, none, some, List, [], ◌∷◌, ◌++◌, leb, ◌==◌,
  if◌then◌else◌,
}
use didactic_pancake_server.Prelude.Int.{ℤ, pos, negsuc}
use didactic_pancake_server.Request.Server.{
  Server, Kernel, Sockaddr, rearm_read, rearm_write, update_conn, append_task,
}
use didactic_pancake_server.Request.Account.{close_conn, init_conn}
use didactic_pancake_server.Request.Voice.{handle_udp_pack}
use didactic_pancake_server.Request.Writer.{
  Send, Armed, Written, for_input, for_output, disarmed, write,
}
use didactic_pancake_server.TimeWheel.{
  Timer, TimerRef, TimeWheel, time_wheel, add_timer, bind_timer, del_timer, tick,
}

-- MAX_FD and TIMELIMIT
abbrev pub max_fd : ℕ
max_fd = 65536

abbrev pub time_limit : ℕ
time_limit = 30

-- `users_timer` has the timer of each client_data, `none` before there is one; its sockfd is its
-- index, as for the elements of `users` that have a connection.
pub record MainLoop : Type 0 where
  pub server : Server
  pub users_timer : ℕ → Option TimerRef
  pub wheel : TimeWheel
  pub timeout : Bool
  pub stop_server : Bool

-- The state in front of the loop.
abbrev pub main_loop : ℕ → Server → MainLoop
main_loop now s = record {
  server = s;
  users_timer = λ fd. none;
  wheel = time_wheel now;
  timeout = false;
  stop_server = false;
}

-- users_timer[fd].timer = timer
abbrev pub set_timer : ℕ → Option TimerRef → (ℕ → Option TimerRef) → ℕ → Option TimerRef
set_timer fd r timers k = if fd == k then r else timers k

-- timer->cb_func = cb_func and timer->user_data = &users_timer[fd]: `none` for a null pointer.
abbrev pub bind_user : ℕ → Option TimerRef × TimeWheel → MainLoop → Option MainLoop
bind_user fd (none, w) m = none
bind_user fd (some r, w) m =
    some (record m { users_timer = set_timer fd (some r) m.users_timer; wheel = bind_timer r fd w })

-- A new timer for the connection.
unfoldable pub arm_timer : ℕ → MainLoop → Option MainLoop
arm_timer fd m = bind_user fd (add_timer (pos time_limit) m.wheel) m

-- requestProcess::m_user_count >= MAX_FD
abbrev pub is_busy : ℤ → Bool
is_busy (pos n) = leb max_fd n
is_busy (negsuc n) = false

-- What follows an accept that returned `connfd`, when the server is not busy; `users` and
-- `users_timer` have MAX_FD elements, and an index behind them is undefined: `none`.
unfoldable pub start_conn : ℕ → MainLoop → Option MainLoop
unfolding arm_timer
start_conn connfd m =
    if ltb connfd max_fd
    then arm_timer connfd (record m { server = init_conn connfd connfd m.server })
    else none

-- The branch of listenfd when connfd_Trig_mode is 0; `none` is an accept that failed.
unfoldable pub accept_one : Option ℕ → MainLoop → Option MainLoop
unfolding start_conn
accept_one none m = some m
accept_one (some connfd) m = if is_busy m.server.user_count then some m else start_conn connfd m

-- The branch when it is not 0, over the results of accept up to the first that fails.
unfoldable pub accept_all : List ℕ → MainLoop → Option MainLoop
unfolding start_conn
accept_all [] m = some m
accept_all (connfd ∷ more) m =
    if is_busy m.server.user_count
    then some m
    else elim (start_conn connfd m) [ none ↦ none | some m' ↦ accept_all more m' ]

-- cb_func(&users_timer[fd])
unfoldable pub cb_func : ℕ → Server → Server
cb_func fd s = close_conn true fd s

-- timer->cb_func(&users_timer[fd]); if (timer) del_timer(timer): `none` for a timer that is null or
-- freed, whose cb_func is read.
abbrev pub after_del : Option TimeWheel → (TimeWheel → Option MainLoop) → Option MainLoop
after_del none go_on = none
after_del (some w) go_on = go_on w

abbrev pub close_by : Option TimerRef → ℕ → MainLoop → Option MainLoop
close_by none fd m = none
close_by (some r) fd m =
    after_del (del_timer (some r) m.wheel)
      (λ w. some (record m { server = cb_func fd m.server; wheel = w }))

unfoldable pub close_client : ℕ → MainLoop → Option MainLoop
close_client fd m = close_by (m.users_timer fd) fd m

-- if (timer): the timer is deleted, and a new one is set.
abbrev pub delay_by : Option TimerRef → ℕ → MainLoop → Option MainLoop
delay_by none fd m = some m
delay_by (some r) fd m =
    after_del (del_timer (some r) m.wheel) (λ w. arm_timer fd (record m { wheel = w }))

unfoldable pub delay_timer : ℕ → MainLoop → Option MainLoop
delay_timer fd m = delay_by (m.users_timer fd) fd m

-- The branch of EPOLLIN, by the result of `read`.
unfoldable pub read_event : ℕ → Bool → MainLoop → Option MainLoop
unfolding delay_timer close_client
read_event fd true m = delay_timer fd (record m { server = append_task fd 0 m.server })
read_event fd false m = close_client fd m

-- What `write` leaves in the server, and whether it returns true.
abbrev pub rearms : Armed → Option ℕ → List Kernel
rearms for_input fd = rearm_read fd ∷ []
rearms for_output fd = rearm_write fd ∷ []
rearms disarmed fd = []

unfoldable pub write_conn : ℕ → Written → Server → Server
unfolding update_conn
write_conn fd w s =
    let s1 = update_conn fd (λ c. record c { datas = w.datas }) s in
    record s1 { kernel = s.kernel ++ rearms w.armed (s.conns fd).sockfd }

abbrev pub returns : Armed → Bool
returns for_input = true
returns for_output = true
returns disarmed = false

-- The branch of EPOLLOUT, by the results of send.
abbrev pub after_write : Bool → ℕ → MainLoop → Option MainLoop
after_write true fd m = delay_timer fd m
after_write false fd m = close_client fd m

unfoldable pub write_event : ℕ → List Send → MainLoop → Option MainLoop
write_event fd outs m =
    let w = write outs (m.server.conns fd).datas in
    after_write (returns w.armed) fd (record m { server = write_conn fd w m.server })

-- The branch of pipefd[0]: SIGALRM is 14 and SIGTERM is 15.
unfoldable pub take_signals : List ℕ → MainLoop → MainLoop
take_signals [] m = m
take_signals (sig ∷ sigs) m = take_signals sigs (
    if sig == 14
    then record m { timeout = true }
    else if sig == 15
    then record m { stop_server = true }
    else m)

-- The branch of udpSocket, for a datagram with an id.
unfoldable pub udp_event : ℕ → Sockaddr → MainLoop → MainLoop
udp_event chat_id from m =
    let s = m.server in
    record m { server = record s { tables = (handle_udp_pack chat_id from s.tables).0 } }

-- An event of epoll_wait, with what the calls that it leads to return.
pub data Event : Type 0 where
  accepts_one : Option ℕ → Event
  accepts_all : List ℕ → Event
  hangs_up : ℕ → Event
  signals : List ℕ → Event
  datagram : ℕ → Sockaddr → Event
  readable : ℕ → Bool → Event
  writable : ℕ → List Send → Event

unfoldable pub handle : Event → MainLoop → Option MainLoop
unfolding accept_one accept_all close_client take_signals udp_event read_event write_event
handle (accepts_one connfd) m = accept_one connfd m
handle (accepts_all connfds) m = accept_all connfds m
handle (hangs_up fd) m = close_client fd m
handle (signals sigs) m = some (take_signals sigs m)
handle (datagram chat_id from) m = some (udp_event chat_id from m)
handle (readable fd ok) m = read_event fd ok m
handle (writable fd outs) m = write_event fd outs m

-- The callbacks of the timers that a tick fires: `none` for a timer with no callback.
abbrev pub fire : Option ℕ → Server → Option Server
fire none s = none
fire (some fd) s = some (cb_func fd s)

unfoldable pub fire_all : List Timer → Server → Option Server
fire_all [] s = some s
fire_all (t ∷ ts) s = elim (fire t.user s) [ none ↦ none | some s' ↦ fire_all ts s' ]

-- The end of a round: timer_handler, if there was a SIGALRM.
unfoldable pub handle_timeout : ℕ → MainLoop → Option MainLoop
unfolding fire_all
handle_timeout now m =
    if m.timeout
    then elim (fire_all (tick now m.wheel).0 m.server) [
      | none ↦ none
      | some s ↦ some (record m { server = s; wheel = (tick now m.wheel).1; timeout = false })
    ]
    else some m
