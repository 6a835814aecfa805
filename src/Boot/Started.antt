-- ===== src/Boot/Started.antt =====
-- What Boot.antt needs to reach the loop of main, and what is there then.
use didactic_pancake_server.Request.Server.{Tables, add_fd}
use didactic_pancake_server.Request.Startup.{empty_tables, initmysql_result}
use didactic_pancake_server.Boot.{start_tables}
use didactic_pancake_server.Prelude.{
  Bytes, [], ◌∷◌, Option-cases, inl, inr, ℕ, suc, ◌<◌, lit, Bool, true, false, Option, none, some,
  List, map, ◌≡◌, ◌≢◌, refl, arith, ap, sym, ◌∙◌,
}
use didactic_pancake_server.Prelude.Int.{ℤ, pos, negsuc}
use didactic_pancake_server.Config.{Config}
use didactic_pancake_server.Config.Loader.{from_file}
use didactic_pancake_server.Log.{Log, LogTime, split_path}
use didactic_pancake_server.Log
use didactic_pancake_server.ConnectionPool.{ConnectionPool}
use didactic_pancake_server.ConnectionPool.Opened.{opened_pool, init_lem, init-opened}
use didactic_pancake_server.ThreadPool.{ThreadPool}
use didactic_pancake_server.ThreadPool.Construct.{
  fresh_pool, construct_lem, construct-IsConstructed,
}
use didactic_pancake_server.MainLoop.{main_loop}
use didactic_pancake_server.Boot.{
  System, Settings, read_settings, Program, Outcome, runs, returns, ends, after, check, start_log,
  results, database, start_connections, start_pool, first_server, boot_sockets, boot,
}

abbrev pub config_of : System → Option Config
config_of w = from_file (lit "=") (lit "#") (w.disk (lit "server.config"))

-- The threads that the settings ask for.
pub record HasThreads (w : System) (threadnum : ℤ) : Type 0 where
  pub fewer : ℕ
  pub threads : threadnum ≡ pos (suc fewer)
  pub created : (i : ℕ) → i < suc fewer → w.creates i ≡ true

-- What the calls for the sockets and the signals gave.
pub record HasSockets (w : System) (st : Settings) : Type 0 where
  pub listenfd : ℕ
  pub has_tcp : w.tcp_socket ≡ some listenfd
  pub udp_socket : ℕ
  pub has_udp : w.udp_socket ≡ some udp_socket
  pub tcp_bound : w.binds_tcp st.ip_address st.tcp_port ≡ true
  pub udp_bound : w.binds_udp st.ip_address st.udp_port ≡ true
  pub listening : w.listens ≡ true
  pub epollfd : ℕ
  pub has_epoll : w.epoll ≡ some epollfd
  pub pipefd : ℕ × ℕ
  pub has_pipe : w.pipe ≡ some pipefd
  pub sigalrm : w.catches_sigalrm ≡ true
  pub sigterm : w.catches_sigterm ≡ true

-- The file of settings is there and asks for at least one thread; the threads are created, the log and
-- the eight connections opened, the three SELECTs answered, and every system call succeeds.
pub record IsReady (w : System) : Type 0 where
  pub cf : Config
  pub loads : config_of w ≡ some cf
  pub threads : HasThreads w (read_settings w.string_as_int cf).threadnum
  pub opens_log : w.opens_log ≡ true
  pub users : List (Bytes × Bytes)
  pub has_users : w.users ≡ some users
  pub friends : List (Bytes × Bytes)
  pub has_friends : w.friends ≡ some friends
  pub sessions : List (Bytes × Bytes)
  pub has_sessions : w.sessions ≡ some sessions
  pub opened : List ℕ
  pub connected : results 0 8 w.connect ≡ map some opened
  pub sigpipe : w.ignores_sigpipe ≡ true
  pub sockets : HasSockets w (read_settings w.string_as_int cf)

pub started_log : (logmode : ℤ) (t : LogTime) → (log : Log) × (start_log logmode true t ≡ some log)
unfolding start_log Log.init split_path lit
started_log logmode t = (_, refl)

-- The program that stands in front of its loop then.
abbrev pub program : (w : System) → IsReady w → Program
program w r =
    let st = read_settings w.string_as_int r.cf in
    record {
      settings = st;
      log = (started_log st.logmode w.log_time).0;
      conn_pool = opened_pool database r.opened;
      listenfd = r.sockets.listenfd;
      udp_socket = r.sockets.udp_socket;
      epollfd = r.sockets.epollfd;
      pipefd = r.sockets.pipefd;
      watched =
          add_fd (some r.sockets.listenfd)
          ∷ add_fd (some r.sockets.udp_socket)
          ∷ add_fd (some r.sockets.pipefd.0)
          ∷ [];
      loop = main_loop w.start_time (
          first_server w (fresh_pool (suc r.threads.fewer) 10000)
            (initmysql_result r.users r.friends r.sessions empty_tables));
    }

pool_started :
    (w : System) (r : IsReady w)
    → start_pool w.creates (read_settings w.string_as_int r.cf).threadnum
      ≡ some (fresh_pool (suc r.threads.fewer) 10000)
unfolding start_pool
pool_started w r =
    ap (start_pool w.creates) r.threads.threads
    ∙ construct_lem w.creates r.threads.fewer 9999 r.threads.created

connections_started :
    (w : System) (r : IsReady w)
    → start_connections w.raw_max w.connect ≡ some (opened_pool database r.opened)
unfolding start_connections
connections_started w r = rw r.connected (init_lem w.raw_max database r.opened)

log_started :
    (w : System) (r : IsReady w) (logmode : ℤ)
    → start_log logmode w.opens_log w.log_time ≡ some (started_log logmode w.log_time).0
log_started w r logmode =
    ap (λ b. start_log logmode b w.log_time) r.opens_log ∙ (started_log logmode w.log_time).1

tables_started :
    (w : System) (r : IsReady w)
    → start_tables w ≡ some (initmysql_result r.users r.friends r.sessions empty_tables)
unfolding start_tables
tables_started w r = rw (r.has_users, r.has_friends, r.has_sessions) refl

boot_lem : (w : System) (r : IsReady w) → boot w ≡ runs (program w r)
unfolding boot boot_sockets
boot_lem w r =
    let st = read_settings w.string_as_int r.cf in
    rw
      (
        r.loads,
        log_started w r st.logmode,
        r.sigpipe,
        connections_started w r,
        pool_started w r,
        tables_started w r,
        r.sockets.has_tcp,
        r.sockets.has_udp,
        r.sockets.tcp_bound,
        r.sockets.udp_bound,
        r.sockets.listening,
        r.sockets.has_epoll,
        r.sockets.has_pipe,
        r.sockets.sigalrm,
        r.sockets.sigterm,
      )
      refl

after-runs {ℓ} :
    {A : Type ℓ} (stop : Outcome) (o : Option A) (go : A → Outcome) (p : Program)
    → stop ≢ runs p
    → after stop o go ≡ runs p
    → (a : A) × (o ≡ some a) × (go a ≡ runs p)
after-runs stop none go p ne e = absurd (ne e)
after-runs stop (some a) go p ne e = (a, refl, e)

check-runs :
    (b : Bool) (go : Outcome) (p : Program) → check b go ≡ runs p → (b ≡ true) × (go ≡ runs p)
check-runs true go p e = (refl, e)
check-runs false go p e = absurd (cc e)

ends≢runs : (p : Program) → ends ≢ runs p
ends≢runs p e = cc

returns≢runs : (n : ℕ) (p : Program) → returns n ≢ runs p
returns≢runs n p e = cc

start_pool-HasThreads :
    (w : System) (threadnum : ℤ) (pool : ThreadPool)
    → start_pool w.creates threadnum ≡ some pool
    → HasThreads w threadnum
unfolding start_pool
start_pool-HasThreads w (pos n) pool e =
    let h = construct-IsConstructed w.creates n 10000 pool e in
    record {
      fewer = h.fewer;
      threads = ap pos h.positive;
      created = λ i less. h.created i (omega (arith, h.positive));
    }
start_pool-HasThreads w (negsuc n) pool e = absurd (cc e)

boot_sockets-HasSockets :
    (w : System) (st : Settings) (log : Log) (c : ConnectionPool) (t : ThreadPool) (ts : Tables)
    (p : Program)
    → boot_sockets w st log c t ts ≡ runs p
    → HasSockets w st
unfolding boot_sockets
boot_sockets-HasSockets w st log c t ts p e =
    let (listenfd, has_tcp, e1) = after-runs ends w.tcp_socket _ p (ends≢runs p) e in
    let (udp, has_udp, e2) = after-runs ends w.udp_socket _ p (ends≢runs p) e1 in
    let (tcp_bound, e3) = check-runs (w.binds_tcp st.ip_address st.tcp_port) _ p e2 in
    let (udp_bound, e4) = check-runs (w.binds_udp st.ip_address st.udp_port) _ p e3 in
    let (listening, e5) = check-runs w.listens _ p e4 in
    let (epollfd, has_epoll, e6) = after-runs ends w.epoll _ p (ends≢runs p) e5 in
    let (pipefd, has_pipe, e7) = after-runs ends w.pipe _ p (ends≢runs p) e6 in
    let (sigalrm, e8) = check-runs w.catches_sigalrm _ p e7 in
    let (sigterm, e9) = check-runs w.catches_sigterm _ p e8 in
    record {
      listenfd = listenfd;
      has_tcp = has_tcp;
      udp_socket = udp;
      has_udp = has_udp;
      tcp_bound = tcp_bound;
      udp_bound = udp_bound;
      listening = listening;
      epollfd = epollfd;
      has_epoll = has_epoll;
      pipefd = pipefd;
      has_pipe = has_pipe;
      sigalrm = sigalrm;
      sigterm = sigterm;
    }

start_log-opens :
    (logmode : ℤ) (opens : Bool) (t : LogTime) (log : Log)
    → start_log logmode opens t ≡ some log
    → opens ≡ true
unfolding start_log Log.init
start_log-opens logmode true t log e = refl
start_log-opens logmode false t log e = absurd (cc e)

-- The rows of the three tables.
record HasRows (w : System) : Type 0 where
  users : List (Bytes × Bytes)
  has_users : w.users ≡ some users
  friends : List (Bytes × Bytes)
  has_friends : w.friends ≡ some friends
  sessions : List (Bytes × Bytes)
  has_sessions : w.sessions ≡ some sessions

start_tables-HasRows : (w : System) (ts : Tables) → start_tables w ≡ some ts → HasRows w
unfolding start_tables
start_tables-HasRows w ts e = elim (Option-cases w.users) [
  | inl e1 ↦ absurd (cc (rw (e1, start_tables) at e))
  | inr (us, e1) ↦ elim (Option-cases w.friends) [
    | inl e2 ↦ absurd (cc (rw (e1, e2, start_tables) at e))
    | inr (fs, e2) ↦ elim (Option-cases w.sessions) [
      | inl e3 ↦ absurd (cc (rw (e1, e2, e3, start_tables) at e))
      | inr (ss, e3) ↦ record {
        users = us;
        has_users = e1;
        friends = fs;
        has_friends = e2;
        sessions = ss;
        has_sessions = e3;
      }
    ]
  ]
]

boot-IsReady : (w : System) (p : Program) → boot w ≡ runs p → IsReady w
unfolding boot start_connections
boot-IsReady w p e =
    let (cf, loads, e1) = after-runs ends (config_of w) _ p (ends≢runs p) e in
    let st = read_settings w.string_as_int cf in
    let (log, logs, e2) =
      after-runs ends (start_log st.logmode w.opens_log w.log_time) _ p (ends≢runs p) e1 in
    let (sigpipe, e3) = check-runs w.ignores_sigpipe _ p e2 in
    let (c, connects, e4) =
      after-runs ends (start_connections w.raw_max w.connect) _ p (ends≢runs p) e3 in
    let (t, starts, e5) =
      after-runs (returns 1) (start_pool w.creates st.threadnum) _ p (returns≢runs 1 p) e4 in
    let (ts, made, e6) = after-runs ends (start_tables w) _ p (ends≢runs p) e5 in
    let rows = start_tables-HasRows w ts made in
    let (opened, connected) = init-opened w.raw_max database (results 0 8 w.connect) c connects in
    record {
      cf = cf;
      loads = loads;
      threads = start_pool-HasThreads w st.threadnum t starts;
      opens_log = start_log-opens st.logmode w.opens_log w.log_time log logs;
      users = rows.users;
      has_users = rows.has_users;
      friends = rows.friends;
      has_friends = rows.has_friends;
      sessions = rows.sessions;
      has_sessions = rows.has_sessions;
      opened = opened;
      connected = connected;
      sigpipe = sigpipe;
      sockets = boot_sockets-HasSockets w st log c t ts p e6;
    }

runs-injective : (p q : Program) → runs p ≡ runs q → p ≡ q
runs-injective p q e = cc

-- In the model main reaches its loop exactly when IsReady holds, and the program is then `program`.
pub boot-runs :
    (w : System)
    → ((r : IsReady w) → boot w ≡ runs (program w r))
      × ((p : Program) → boot w ≡ runs p → (r : IsReady w) × (p ≡ program w r))
boot-runs w = (
  λ r. boot_lem w r,
  λ p e. let r = boot-IsReady w p e in (r, runs-injective p (program w r) (sym e ∙ boot_lem w r)),
)
