-- ===== src/Boot.antt =====
-- main.cpp: what main does in front of its loop. The settings come from Config, and the loop that it
-- enters is that of MainLoop.antt.
pub mod Started
pub mod Running
use didactic_pancake_server.Prelude.{
  ℕ, zero, suc, Bytes, Map, lit, Bool, true, false, Option, none, some, List, [], ◌∷◌, ◌++◌, ◌==◌,
  if◌then◌else◌,
}
use didactic_pancake_server.Prelude.Int.{ℤ, pos, negsuc}
use didactic_pancake_server.Config.{Config, read_or}
use didactic_pancake_server.Config.Loader.{from_file}
use didactic_pancake_server.Log.{Log, LogTime}
use didactic_pancake_server.Log
use didactic_pancake_server.ConnectionPool.{ConnectionPool, Login, connection_pool}
use didactic_pancake_server.ConnectionPool
use didactic_pancake_server.ThreadPool.{ThreadPool}
use didactic_pancake_server.ThreadPool
use didactic_pancake_server.Request.Server.{Tables, Server, Conn, Kernel, add_fd}
use didactic_pancake_server.Request.Startup.{empty_tables, initmysql_result}
use didactic_pancake_server.MainLoop.{MainLoop, main_loop}

-- What main finds: the files, the conversion of a text to an int, the seconds at which time_whl was
-- made and the local time, the value of m_max_conn before init, what mysql_real_connect and the
-- creation of a thread give the i-th time, whether the file of the log can be opened, the rows of the
-- three tables, where the SELECT succeeds, what the memory of m_users
-- has for the two members that its constructor does not set, and what the system calls return: bind for an address and a port.
pub record System : Type 0 where
  pub disk : Map Bytes
  pub string_as_int : Bytes → ℤ
  pub start_time : ℕ
  pub log_time : LogTime
  pub opens_log : Bool
  pub raw_max : ℤ
  pub connect : ℕ → Option ℕ
  pub creates : ℕ → Bool
  pub users : Option (List (Bytes × Bytes))
  pub friends : Option (List (Bytes × Bytes))
  pub sessions : Option (List (Bytes × Bytes))
  pub raw_fd : ℕ → Option ℕ
  pub raw_flag : ℕ → Bool
  pub ignores_sigpipe : Bool
  pub tcp_socket : Option ℕ
  pub udp_socket : Option ℕ
  pub binds_tcp : Bytes → ℤ → Bool
  pub binds_udp : Bytes → ℤ → Bool
  pub listens : Bool
  pub epoll : Option ℕ
  pub pipe : Option (ℕ × ℕ)
  pub catches_sigalrm : Bool
  pub catches_sigterm : Bool

pub record Settings : Type 0 where
  pub ip_address : Bytes
  pub tcp_port : ℤ
  pub udp_port : ℤ
  pub connfd_trig_mode : ℤ
  pub listenfd_trig_mode : ℤ
  pub logmode : ℤ
  pub threadnum : ℤ

unfoldable pub read_settings : (Bytes → ℤ) → Config → Settings
unfolding read_or
read_settings string_as_int cf = record {
  ip_address = read_or (λ s. s) (lit "localhost") [] cf;
  tcp_port = read_or string_as_int (lit "tcp_port") (pos 0) cf;
  udp_port = read_or string_as_int (lit "udp_port") (pos 0) cf;
  connfd_trig_mode = read_or string_as_int (lit "connection_mode") (pos 0) cf;
  listenfd_trig_mode = read_or string_as_int (lit "listen_mode") (pos 0) cf;
  logmode = read_or string_as_int (lit "log_mode") (pos 0) cf;
  threadnum = read_or string_as_int (lit "threadnum") (pos 0) cf;
}

-- What main has in front of its loop; the log is as init leaves it, and `watched` are its own calls of
-- addfd.
pub record Program : Type 0 where
  pub settings : Settings
  pub log : Log
  pub conn_pool : ConnectionPool
  pub listenfd : ℕ
  pub udp_socket : ℕ
  pub epollfd : ℕ
  pub pipefd : ℕ × ℕ
  pub watched : List Kernel
  pub loop : MainLoop

-- main goes into its loop or returns, or an exception, exit or an assert ends the process.
pub data Outcome : Type 0 where
  runs : Program → Outcome
  returns : ℕ → Outcome
  ends : Outcome

-- The rest of main behind a call that gives nothing when it fails, and behind an assert.
abbrev pub after {ℓ} : {A : Type ℓ} → Outcome → Option A → (A → Outcome) → Outcome
after stop none go = stop
after stop (some a) go = go a

abbrev pub check : Bool → Outcome → Outcome
check false go = ends
check true go = go

-- Log::init, with a queue of 8 lines in asynchronous mode
abbrev pub queue_size : ℤ → ℕ
queue_size (pos zero) = 0
queue_size (pos (suc n)) = 8
queue_size (negsuc n) = 8

-- main does not look at what init returns, and writes to the log next, for which fopen must have
-- succeeded.
unfoldable pub start_log : ℤ → Bool → LogTime → Option Log
start_log logmode opens t =
    Log.init opens (lit "./logs/ServerLog.log") 2000 800000 (queue_size logmode) t

-- connPool->init("localhost", "root", "", "didactic_pancake", 3306, 8)
abbrev pub results : ℕ → ℕ → (ℕ → Option ℕ) → List (Option ℕ)
results i zero connect = []
results i (suc n) connect = connect i ∷ results (suc i) n connect

abbrev pub database : Login
database = record {
  url = lit "localhost";
  user = lit "root";
  password = [];
  database_name = lit "didactic_pancake";
  port = 3306;
}

unfoldable pub start_connections : ℤ → (ℕ → Option ℕ) → Option ConnectionPool
start_connections raw_max connect =
    ConnectionPool.init database (results 0 8 connect) (connection_pool raw_max)

-- new threadpool(threadnum)
unfoldable pub start_pool : (ℕ → Bool) → ℤ → Option ThreadPool
start_pool creates (pos n) = ThreadPool.construct creates n 10000
start_pool creates (negsuc n) = none

-- An element of m_users.
abbrev pub raw_conn : System → ℕ → Conn
raw_conn w k = record {
  sockfd = w.raw_fd k;
  session_id = [];
  datas = [];
  is_process_write = w.raw_flag k;
}

-- users->initmysql_result(connPool): a SELECT that fails leaves a null result, which is then read.
unfoldable pub start_tables : System → Option Tables
start_tables w = elim w.users [
  | none ↦ none
  | some users ↦ elim w.friends [
    | none ↦ none
    | some friends ↦ elim w.sessions [
      | none ↦ none
      | some sessions ↦ some (initmysql_result users friends sessions empty_tables)
    ]
  ]
]

abbrev pub first_server : System → ThreadPool → Tables → Server
first_server w pool tables = record {
  tables = tables;
  conns = raw_conn w;
  pool = pool;
  user_count = pos 0;
  sql = [];
  kernel = [];
  files = w.disk;
}

unfoldable pub boot_sockets :
    System → Settings → Log → ConnectionPool → ThreadPool → Tables → Outcome
boot_sockets w st log connections pool tables = after ends w.tcp_socket (λ listenfd.
    after ends w.udp_socket (λ udp. check (w.binds_tcp st.ip_address st.tcp_port) (
      check (w.binds_udp st.ip_address st.udp_port) (
        check w.listens (
          after ends w.epoll (λ epollfd. after ends w.pipe (λ pipefd. check w.catches_sigalrm (
            check w.catches_sigterm (
              runs (record {
                settings = st;
                log = log;
                conn_pool = connections;
                listenfd = listenfd;
                udp_socket = udp;
                epollfd = epollfd;
                pipefd = pipefd;
                watched = add_fd (some listenfd) ∷ add_fd (some udp) ∷ add_fd (some pipefd.0) ∷ [];
                loop = main_loop w.start_time (first_server w pool tables);
              }))))))))))

-- The settings, the log, the connections to the database, the threads and the tables, and then the
-- sockets.
unfoldable pub boot : System → Outcome
unfolding boot_sockets start_log start_connections start_pool start_tables read_settings from_file
boot w = after ends (from_file (lit "=") (lit "#") (w.disk (lit "server.config"))) (λ cf.
    let st = read_settings w.string_as_int cf in
    after ends (start_log st.logmode w.opens_log w.log_time) (λ log. check w.ignores_sigpipe (
      after ends (start_connections w.raw_max w.connect) (λ connections.
        after (returns 1) (start_pool w.creates st.threadnum) (λ pool.
          after ends (start_tables w) (λ tables. boot_sockets w st log connections pool tables))))))
