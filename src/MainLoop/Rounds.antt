-- ===== src/MainLoop/Rounds.antt =====
-- Connections, input and output in MainLoop.antt, by the events that the kernel may report.
use didactic_pancake_server.Prelude.{◌<◌, refl, sym, ◌∙◌, inl, inr}
use didactic_pancake_server.Request.Writer.{Armed, for_input, for_output, disarmed}
use didactic_pancake_server.MainLoop.{max_fd, rearms}
use didactic_pancake_server.MainLoop.Closing.{was_added, was_added-quiet}
use mathlib.Core.Path.{subst}
use didactic_pancake_server.Prelude.{
  if_rule, ℕ, ◌≤◌, Bool, true, false, Option, none, some, List, [], ◌∷◌, ◌≡◌, ◌≢◌, arith,
}
use didactic_pancake_server.Request.Server.{Server, append_task}
use didactic_pancake_server.Request.Writer.{Send, Written, write}
use didactic_pancake_server.MainLoop.{
  MainLoop, is_busy, accept_one, accept_all, read_event, write_conn, returns, after_write,
  write_event, Event, accepts_one, accepts_all, hangs_up, signals, datagram, readable, writable,
}
use didactic_pancake_server.MainLoop.Closing.{IsClosed, OpensNone}
use didactic_pancake_server.MainLoop.Steps.{Stays}
use didactic_pancake_server.MainLoop.Events.{
  IsTimed, Goes, still-Goes, server-Goes, close-Goes, delay-Goes, start-Goes,
}

abbrev pub AllBelow : List ℕ → Type 0
AllBelow [] = Unit {0}
AllBelow (fd ∷ fds) = (fd < max_fd) × AllBelow fds

-- The events that the kernel reports: accept gives descriptors below MAX_FD, the limit of a process;
-- input, output and hang-ups come for connections that were accepted and are open, no worker having
-- closed them since epoll_wait.
abbrev pub Legal : Event → MainLoop → Type 0
Legal (accepts_one none) m = Unit {0}
Legal (accepts_one (some connfd)) m = connfd < max_fd
Legal (accepts_all connfds) m = AllBelow connfds
Legal (hangs_up fd) m = ¬ IsClosed fd m.server
Legal (signals sigs) m = Unit {0}
Legal (datagram chat_id from) m = Unit {0}
Legal (readable fd ok) m = ¬ IsClosed fd m.server
Legal (writable fd outs) m = ¬ IsClosed fd m.server

abbrev pub Apart : ℕ → List ℕ → Type 0
Apart k [] = Unit {0}
Apart k (fd ∷ fds) = (fd ≢ k) × Apart k fds

-- The event is not a new connection, input or output of `k`.
abbrev pub Spares : ℕ → Event → Type 0
Spares k (accepts_one none) = Unit {0}
Spares k (accepts_one (some fd)) = fd ≢ k
Spares k (accepts_all fds) = Apart k fds
Spares k (hangs_up fd) = Unit {0}
Spares k (signals sigs) = Unit {0}
Spares k (datagram chat_id from) = Unit {0}
Spares k (readable fd ok) = fd ≢ k
Spares k (writable fd outs) = fd ≢ k

-- One step behind another, and for fewer connections.
Goes-after :
    {P Q R : ℕ → Type 0} {m m' : MainLoop} {o : Option MainLoop}
    → ((k : ℕ) → R k → P k × Q k)
    → (h : Goes P m (some m')) → (h.result ≡ m' → Goes Q m' o)
    → Goes R m o
Goes-after {P} {Q} {R} {m} {m'} split h next =
    let same : h.result ≡ m' = cc in
    let k = next same in
    record {
      result = k.result;
      runs = k.runs;
      is_timed = k.is_timed;
      forward =
          let first : m.wheel.time_have_run ≤ m'.wheel.time_have_run =
            subst (λ x. m.wheel.time_have_run ≤ x.wheel.time_have_run) same h.forward in
          omega (arith, first, k.forward);
      keeps = λ j limit p stays.
          let both = split j p in
          k.keeps j limit both.1 (subst (λ x. Stays j limit x) same (h.keeps j limit both.0 stays));
    }

pub accept_one-Goes :
    (connfd : Option ℕ) (m : MainLoop)
    → Legal (accepts_one connfd) m
    → IsTimed m
    → Goes (λ k. Spares k (accepts_one connfd)) m (accept_one connfd m)
unfolding accept_one
accept_one-Goes none m below h = still-Goes _ m h
accept_one-Goes (some fd) m below h =
    if_rule (Goes (λ k. fd ≢ k) m) (is_busy m.server.user_count) (λ e. still-Goes _ m h)
      (λ e. start-Goes fd m below h)

pub accept_all-Goes :
    (fds : List ℕ) (m : MainLoop)
    → AllBelow fds
    → IsTimed m
    → Goes (λ k. Apart k fds) m (accept_all fds m)
unfolding accept_all
accept_all-Goes [] m below h = still-Goes _ m h
accept_all-Goes (fd ∷ fds) m (first_below, below) h =
    if_rule (Goes (λ k. Apart k (fd ∷ fds)) m) (is_busy m.server.user_count) (λ e. still-Goes _ m h)
      (λ e.
        let s = start-Goes fd m first_below h in
        let rest = accept_all-Goes fds s.result below s.is_timed in
        let first : Goes (λ k. fd ≢ k) m (some s.result) = subst (Goes (λ k. fd ≢ k) m) s.runs s in
        rw s.runs (Goes-after (λ k p. p) first (λ same. rest)))

append_task-OpensNone : (k mode : ℕ) (s : Server) → OpensNone s (append_task k mode s)
unfolding append_task
append_task-OpensNone k mode s j shut = shut

-- The modfd of write adds nothing.
rearms-quiet : (k : ℕ) (a : Armed) (fd : Option ℕ) → was_added k (rearms a fd) ≡ false
rearms-quiet k for_input fd = refl
rearms-quiet k for_output fd = refl
rearms-quiet k disarmed fd = refl

was_added-write_conn :
    (k fd : ℕ) (w : Written) (s : Server)
    → was_added k (write_conn fd w s).kernel ≡ was_added k s.kernel
unfolding write_conn
was_added-write_conn k fd w s =
    was_added-quiet k s.kernel (rearms w.armed (s.conns fd).sockfd)
      (rearms-quiet k w.armed (s.conns fd).sockfd)

sockfd-write_conn :
    (k fd : ℕ) (w : Written) (s : Server)
    → ((write_conn fd w s).conns k).sockfd ≡ (s.conns k).sockfd
unfolding write_conn
sockfd-write_conn k fd w s = ground arith

write_conn-OpensNone : (fd : ℕ) (w : Written) (s : Server) → OpensNone s (write_conn fd w s)
write_conn-OpensNone fd w s j (inl shut) = inl (sockfd-write_conn j fd w s ∙ shut)
write_conn-OpensNone fd w s j (inr never) = inr (was_added-write_conn j fd w s ∙ never)

-- What read and write do to the server closes no connection.
append_task-keeps_open :
    (k mode fd : ℕ) (s : Server) → ¬ IsClosed fd s → ¬ IsClosed fd (append_task k mode s)
unfolding append_task
append_task-keeps_open k mode fd s opened shut = opened shut

write_conn-keeps_open :
    (k fd : ℕ) (w : Written) (s : Server) → ¬ IsClosed fd s → ¬ IsClosed fd (write_conn k w s)
write_conn-keeps_open k fd w s opened (inl shut) =
    opened (inl (sym (sockfd-write_conn fd k w s) ∙ shut))
write_conn-keeps_open k fd w s opened (inr never) =
    opened (inr (sym (was_added-write_conn fd k w s) ∙ never))

pub read_event-Goes :
    (fd : ℕ) (ok : Bool) (m : MainLoop)
    → IsTimed m
    → ¬ IsClosed fd m.server
    → Goes (λ k. fd ≢ k) m (read_event fd ok m)
unfolding read_event
read_event-Goes fd true m h opened =
    let s = append_task fd 0 m.server in
    let first = server-Goes (λ k. fd ≢ k) m s h (append_task-OpensNone fd 0 m.server) in
    Goes-after (λ k p. (p, p)) first
      (λ same.
        delay-Goes fd (record m { server = s }) (subst IsTimed same first.is_timed)
          (append_task-keeps_open fd 0 fd m.server opened))
read_event-Goes fd false m h opened = close-Goes _ fd m h opened

after_write-Goes :
    (ok : Bool) (fd : ℕ) (m : MainLoop)
    → IsTimed m
    → ¬ IsClosed fd m.server
    → Goes (λ k. fd ≢ k) m (after_write ok fd m)
after_write-Goes true fd m h opened = delay-Goes fd m h opened
after_write-Goes false fd m h opened = close-Goes _ fd m h opened

pub write_event-Goes :
    (fd : ℕ) (outs : List Send) (m : MainLoop)
    → IsTimed m
    → ¬ IsClosed fd m.server
    → Goes (λ k. fd ≢ k) m (write_event fd outs m)
unfolding write_event
write_event-Goes fd outs m h opened =
    let w = write outs (m.server.conns fd).datas in
    let s = write_conn fd w m.server in
    let first = server-Goes (λ k. fd ≢ k) m s h (write_conn-OpensNone fd w m.server) in
    Goes-after (λ k p. (p, p)) first
      (λ same.
        after_write-Goes (returns w.armed) fd (record m { server = s })
          (subst IsTimed same first.is_timed) (write_conn-keeps_open fd fd w m.server opened))
