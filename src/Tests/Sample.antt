-- ===== src/Tests/Sample.antt =====
-- A small server: the accounts amy, bob and eve; amy on slot 4 and bob on slot 5 have sessions and
-- are friends, and slot 6 is a connection without a session.
use didactic_pancake_server.Prelude.{
  ℕ, Bytes, assign, assign_id, insert_at, false, none, some, [], ◌∷◌, ◌==◌, if◌then◌else◌,
}
use didactic_pancake_server.Prelude.Int.{pos}
use didactic_pancake_server.ThreadPool.{ThreadPool}
use didactic_pancake_server.Request.Server.{Server, Tables, Conn, Inputs}
use didactic_pancake_server.Request.Startup.{empty_tables}

abbrev pub amy : Bytes
amy = 97 ∷ 109 ∷ 121 ∷ []

abbrev pub bob : Bytes
bob = 98 ∷ 111 ∷ 98 ∷ []

abbrev pub eve : Bytes
eve = 101 ∷ 118 ∷ 101 ∷ []

abbrev pub zoe : Bytes
zoe = 122 ∷ 111 ∷ 101 ∷ []

abbrev pub secret : Bytes
secret = 115 ∷ 51 ∷ []

-- The session ids of amy and bob.
abbrev pub sid_amy : Bytes
sid_amy = 49 ∷ 49 ∷ []

abbrev pub sid_bob : Bytes
sid_bob = 50 ∷ 50 ∷ []

abbrev pub env : Inputs
env = record { cur_time = 1; timestamp = 7; rands = 3 ∷ (4 ∷ []); select = λ text. [] }

abbrev pub conn : ℕ → Bytes → Conn
conn fd sid = record { sockfd = some fd; session_id = sid; datas = []; is_process_write = false }

abbrev pub conns : ℕ → Conn
conns k = if k == 4 then conn 4 sid_amy else if k == 5 then conn 5 sid_bob else conn k []

abbrev pub pool : ThreadPool
pool = record { thread_number = 8; max_requests = 10000; workqueue = []; queuestat = 0 }

abbrev pub tables : Tables
tables = record empty_tables {
  user_mp = assign amy secret (assign bob secret (assign eve secret (λ k. none)));
  session_mp = assign sid_amy amy (assign sid_bob bob (λ k. none));
  userfd_mp = assign amy (some 4) (assign bob (some 5) (λ k. none));
  friend_mp = insert_at amy bob (insert_at bob amy (λ k. []));
}

abbrev pub serving : Tables → Server
serving t = record {
  tables = t;
  conns = conns;
  pool = pool;
  user_count = pos 3;
  sql = [];
  kernel = [];
  files = λ path. none;
}

abbrev pub server : Server
server = serving tables

-- amy and bob in a call, with the ids 3 and 4.
abbrev pub in_call : Tables
in_call = record tables {
  voice_chat_mp = assign amy bob (assign bob amy (λ k. none));
  voice_id_to_user_mp = assign_id 3 amy (assign_id 4 bob (λ k. none));
  user_to_voice_id_mp = assign amy 3 (assign bob 4 (λ k. none));
}
