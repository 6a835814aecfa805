-- ===== src/Tests/Boots.antt =====
-- A start of main, with a file of settings that asks for eight threads.
use didactic_pancake_server.Prelude.{List}
use didactic_pancake_server.Tests.Sample.{amy, bob, env}
use didactic_pancake_server.Request.Packet.{hbt}
use didactic_pancake_server.Request.History.{Request}
use didactic_pancake_server.Prelude.{lit, same, precedes, true, some, [], ◌∷◌, ◌≡◌, refl}
use didactic_pancake_server.Prelude.Int.{pos}
use didactic_pancake_server.Config.{
  Config, find, read_or, store, trim, trim_start, trim_end, is_blank,
}
use didactic_pancake_server.Config.Loader.{
  from_file, load, load_lines, lines_of, split_at, strip, uncomment, finish, last_line, has_delim,
}
use didactic_pancake_server.MainLoop.{MainLoop}
use didactic_pancake_server.Boot.{System, read_settings}
use didactic_pancake_server.Boot.Started.{IsReady, config_of}

abbrev machine : System
machine = record {
  disk = λ path. some (lit "threadnum = 8");
  string_as_int = λ text. pos 8;
  start_time = 100;
  log_time = record { year = 122; mon = 4; mday = 1; hour = 9; min = 30; sec = 0; usec = 0 };
  opens_log = true;
  raw_max = pos 0;
  connect = λ i. some i;
  creates = λ i. true;
  users = some [];
  friends = some ((amy, bob) ∷ []);
  sessions = some [];
  raw_fd = λ k. some 0;
  raw_flag = λ k. true;
  ignores_sigpipe = true;
  tcp_socket = some 3;
  udp_socket = some 4;
  binds_tcp = λ ip port. true;
  binds_udp = λ ip port. true;
  listens = true;
  epoll = some 5;
  pipe = some (6, 7);
  catches_sigalrm = true;
  catches_sigterm = true;
}

-- The file, with one entry.
abbrev eight_threads : Config
eight_threads = record {
  delimiter = lit "=";
  comment = lit "#";
  contents = (lit "threadnum", lit "8") ∷ [];
}

loads_file : config_of machine ≡ some eight_threads
unfolding from_file load load_lines lines_of split_at strip uncomment finish last_line has_delim
    is_blank trim trim_start trim_end store same precedes lit
loads_file = refl

reads_eight : (read_settings machine.string_as_int eight_threads).threadnum ≡ pos 8
unfolding read_settings read_or find same lit
reads_eight = refl

abbrev ready : IsReady machine
ready = record {
  cf = eight_threads;
  loads = loads_file;
  threads = record { fewer = 7; threads = reads_eight; created = λ i less. refl };
  opens_log = refl;
  users = [];
  has_users = refl;
  friends = (amy, bob) ∷ [];
  has_friends = refl;
  sessions = [];
  has_sessions = refl;
  opened = 0 ∷ 1 ∷ 2 ∷ 3 ∷ 4 ∷ 5 ∷ 6 ∷ 7 ∷ [];
  connected = refl;
  sigpipe = refl;
  sockets = record {
    listenfd = 3;
    has_tcp = refl;
    udp_socket = 4;
    has_udp = refl;
    tcp_bound = refl;
    udp_bound = refl;
    listening = refl;
    epollfd = 5;
    has_epoll = refl;
    pipefd = (6, 7);
    has_pipe = refl;
    sigalrm = refl;
    sigterm = refl;
  };
}

-- A heartbeat, on slot 5.
abbrev beat : List Request
beat = record { env = env; me = 5; method = hbt; content = [] } ∷ []
