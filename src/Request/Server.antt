-- ===== src/Request/Server.antt =====
-- request/request_process.cpp: the global tables, the connections, and the operations on them that
-- the handlers share. A file descriptor of type `Option ℕ` is an int, with `none` for -1.
pub mod Frames
pub mod Conns
use didactic_pancake_server.Prelude.{
  c_string, Option, none, some, ℕ, zero, suc, ◌+◌, Bytes, same, Map, IdMap, SetMap, assign, erase,
  touch, some_or, Bool, true, false, Option, none, some, List, [], ◌∷◌, ◌++◌, length, ◌==◌,
  if◌then◌else◌, lit, crlf,
}
use didactic_pancake_server.Prelude.Int.{ℤ, pos, increment, decrement}
use didactic_pancake_server.ThreadPool
use didactic_pancake_server.ThreadPool.{ThreadPool}
use didactic_pancake_server.Request.Packet.{Packet, PacketType, rav, w_data_packet}

-- sockaddr_in: address and port
abbrev pub Sockaddr : Type 0
Sockaddr = ℕ × ℕ

-- The global maps, which `lock` protects.
pub record Tables : Type 0 where
  pub user_mp : Map Bytes
  pub session_mp : Map Bytes
  pub userfd_mp : Map (Option ℕ)
  pub frireq_mp : SetMap
  pub friend_mp : SetMap
  pub voice_chat_mp : Map Bytes
  pub voice_id_to_user_mp : IdMap Bytes
  pub user_to_voice_id_mp : Map ℕ
  pub voice_id_sockaddr_mp : IdMap Sockaddr

-- The members of a requestProcess that the handlers use.
pub record Conn : Type 0 where
  pub sockfd : Option ℕ
  pub session_id : Bytes
  pub datas : List Packet
  pub is_process_write : Bool

-- What the program asks of the kernel for a connection.
pub data Kernel : Type 0 where
  add_fd remove_fd rearm_read rearm_write : Option ℕ → Kernel

pub record Server : Type 0 where
  pub tables : Tables
  pub conns : ℕ → Conn
  pub pool : ThreadPool
  pub user_count : ℤ
  pub sql : List Bytes
  pub kernel : List Kernel
  pub files : Map Bytes

-- A row of data_not_send_tb: category, content_len, content.
pub record Row : Type 0 where
  pub category : PacketType
  pub content_len : ℕ
  pub content : Bytes

-- What a handler reads from outside: time(0), timestamp(), the values of rand() in order, and the
-- rows with which the database answers a SELECT.
pub record Inputs : Type 0 where
  pub cur_time : ℕ
  pub timestamp : ℕ
  pub rands : List ℕ
  pub select : Bytes → List Row

-- m_users[k]
unfoldable pub update_conn : ℕ → (Conn → Conn) → Server → Server
update_conn k f s = record s { conns = λ j. if k == j then f (s.conns k) else s.conns j }

-- m_users[k].append_back_data(p)
unfoldable pub append_back_data : ℕ → Packet → Server → Server
unfolding update_conn
append_back_data k p s = update_conn k (λ c. record c { datas = c.datas ++ (p ∷ []) }) s

-- m_users[k].append_front_data(p)
unfoldable pub append_front_data : ℕ → Packet → Server → Server
unfolding update_conn
append_front_data k p s = update_conn k (λ c. record c { datas = p ∷ c.datas }) s

-- m_threadpool->append(m_users + k, mode); the callers drop the result.
unfoldable pub append_task : ℕ → ℕ → Server → Server
append_task k mode s = record s { pool = (ThreadPool.append (some k, mode) s.pool).1 }

-- A packet for a connection, and the task that sends it.
unfoldable pub reply : ℕ → Packet → Server → Server
unfolding append_back_data append_task
reply k p s = append_task k 1 (append_back_data k p s)

-- m_users[fd]: the index -1 is outside of the array, where the program has no defined behaviour;
-- the model then leaves the server as it is.
unfoldable pub at_fd : Option ℕ → (ℕ → Server → Server) → Server → Server
at_fd none f s = s
at_fd (some k) f s = f k s

-- A packet for m_users[fd], and the task that sends it.
unfoldable pub reply_fd : Option ℕ → Packet → Server → Server
unfolding reply at_fd
reply_fd fd p s = at_fd fd (λ k. reply k p) s

-- mysql_query for a statement that changes the database; it takes a C string.
unfoldable pub query : Bytes → Server → Server
unfolding c_string
query text s = record s { sql = s.sql ++ (c_string text ∷ []) }

-- sessionID_mp[m_sessionID]: the user's name, and the entry that operator[] adds where there was none.
unfoldable pub username : ℕ → Server → Bytes
username k s = some_or [] (s.tables.session_mp (s.conns k).session_id)

unfoldable pub touch_session : ℕ → Server → Server
touch_session k s =
    let t = s.tables in
    record s { tables = record t { session_mp = touch (s.conns k).session_id [] t.session_mp } }

-- Whether m_sessionID is empty.
unfoldable pub no_session : ℕ → Server → Bool
no_session k s = same (s.conns k).session_id []

unfoldable pub avatar_path : Bytes → Bytes
avatar_path user = lit "datas/avatar/" ++ (user ++ lit ".png")

-- The avatar of `owner` goes to a connection, and then the task. Where there is no file, stat fails,
-- and an array of the size that is then found in memory is made, of which nothing can be said: `none`.
unfoldable pub send_avatar : ℕ → Bytes → Server → Option Server
unfolding append_back_data
send_avatar k owner s = elim (s.files (avatar_path owner)) [
  | none ↦ none
  | some image ↦ some (
      append_back_data k
        (w_data_packet rav (length owner + 2 + length image) (owner ++ (crlf ++ image))) s)
]

unfoldable pub send_avatar_task : ℕ → Bytes → Server → Option Server
unfolding send_avatar append_task
send_avatar_task k owner s = elim (send_avatar k owner s) [
  | none ↦ none
  | some s1 ↦ some (append_task k 1 s1)
]

-- m_users[fd], for what may not return.
unfoldable pub at_fd_or : Option ℕ → (ℕ → Server → Option Server) → Server → Option Server
at_fd_or none f s = some s
at_fd_or (some k) f s = f k s
