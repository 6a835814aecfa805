-- ===== src/Request/Startup.antt =====
-- request/request_process.cpp: initmysql_result, which fills the tables from the rows of user_tb,
-- friend_tb and sessionID_tb. The rows are what the database returns.
use didactic_pancake_server.Prelude.{Bytes, Map, SetMap, assign, insert_at, none, List, [], ◌∷◌}
use didactic_pancake_server.Request.Server.{Tables}

abbrev pub empty_tables : Tables
empty_tables = record {
  user_mp = λ k. none;
  session_mp = λ k. none;
  userfd_mp = λ k. none;
  frireq_mp = λ k. [];
  friend_mp = λ k. [];
  voice_chat_mp = λ k. none;
  voice_id_to_user_mp = λ k. none;
  user_to_voice_id_mp = λ k. none;
  voice_id_sockaddr_mp = λ k. none;
}

-- user_mp[temp1] = temp2, sessionID_mp[temp1] = temp2
unfoldable pub load_map : List (Bytes × Bytes) → Map Bytes → Map Bytes
load_map [] m = m
load_map ((k, v) ∷ rows) m = load_map rows (assign k v m)

-- friend_mp[temp1].insert(temp2); friend_mp[temp2].insert(temp1)
unfoldable pub load_friends : List (Bytes × Bytes) → SetMap → SetMap
load_friends [] m = m
load_friends ((a, b) ∷ rows) m = load_friends rows (insert_at b a (insert_at a b m))

unfoldable pub initmysql_result :
    List (Bytes × Bytes) → List (Bytes × Bytes) → List (Bytes × Bytes) → Tables → Tables
unfolding load_map load_friends
initmysql_result users friends sessions t = record t {
  user_mp = load_map users t.user_mp;
  friend_mp = load_friends friends t.friend_mp;
  session_mp = load_map sessions t.session_mp;
}
