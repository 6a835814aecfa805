-- ===== src/Request/Account.antt =====
-- request/request_process.cpp: heartbeat, login, regis, logout, reconnect and close_conn.
pub mod Login
pub mod Sessions
use Prim.Native.String.{String}
use didactic_pancake_server.Prelude.{
  ◌==◌, ℕ, zero, suc, ◌+◌, ◌*◌, ◌%◌, Bytes, same, assign, erase, some_or, Bool, true, false, not,
  ◌||◌, ◌&&◌, Option, none, some, [], ◌∷◌, ◌++◌, length, get_or, ltb, if◌then◌else◌, lit, crlf,
  to_string, List,
}
use didactic_pancake_server.Prelude.Int.{increment, decrement}
use didactic_pancake_server.Request.Packet.{PacketType, hbt, lgn, rgt, rcn, Packet, w_data_packet}
use didactic_pancake_server.Request.Fields.{
  Credentials, scan_credentials, scan_all, is_nice, is_nice_session,
}
use didactic_pancake_server.Request.Server.{
  Server, Tables, Conn, Kernel, Inputs, update_conn, reply, query, at_fd, add_fd, remove_fd,
}

unfoldable pub heartbeat : ℕ → Bytes → Server → Server
heartbeat me content s = reply me (w_data_packet hbt (length content) content) s

-- to_string(cur_time * 1000000 + cur_time % rand() % 1000000); `none` where rand() is 0, by which the
-- program divides and ends.
unfoldable pub new_session_id : Inputs → Option Bytes
new_session_id env =
    let r = get_or env.rands 0 0 in
    if r == 0 then none else some (to_string (env.cur_time * 1000000 + env.cur_time % r % 1000000))

unfoldable pub insert_session_sql : Bytes → Bytes → Bytes
insert_session_sql sid user =
    lit "INSERT INTO sessionID_tb(sessionID, user_name) VALUES('"
    ++ (sid ++ (lit "', '" ++ (user ++ lit "')")))

-- The last branch of `login`: the user is known, the password right, and nobody logged in as them.
unfoldable pub open_session : Bytes → ℕ → Bytes → Server → Server
unfolding update_conn query
open_session sid me user s =
    let t = s.tables in
    let s1 = update_conn me (λ c. record c { session_id = sid }) s in
    let s2 = query (insert_session_sql sid user) s1 in
    reply me (w_data_packet lgn (length sid + 2) (sid ++ crlf)) (record s2 {
      tables = record t {
        session_mp = assign sid user t.session_mp;
        userfd_mp = assign user (s.conns me).sockfd t.userfd_mp;
      };
    })

-- What `login` does under the lock.
unfoldable pub login_locked : Option Bytes → ℕ → Bytes → Bytes → Server → Option Server
login_locked id me user password s = elim (s.tables.user_mp user) [
  | none ↦ some (reply me (w_data_packet lgn 3 (lit "0" ++ crlf)) s)
  | some stored ↦
      if not (same stored password)
      then some (reply me (w_data_packet lgn 3 (lit "0" ++ crlf)) s)
      else elim (s.tables.userfd_mp user) [
        | some fd ↦ some (reply me (w_data_packet lgn 4 (lit "-1" ++ crlf)) s)
        | none ↦ elim id [ none ↦ none | some sid ↦ some (open_session sid me user s) ]
      ]
]

unfoldable pub login : Inputs → ℕ → Bytes → Server → Option Server
login env me content s =
    let r = scan_credentials 0 content in
    if ltb 36 (length content)
    then some (reply me (w_data_packet lgn 4 (lit "-2" ++ crlf)) s)
    else if not (is_nice r.tar_user && is_nice r.password)
    then some (reply me (w_data_packet lgn 4 (lit "-2" ++ crlf)) s)
    else login_locked (new_session_id env) me r.tar_user r.password s

unfoldable pub insert_user_sql : Bytes → Bytes → Bytes
insert_user_sql user password =
    lit "INSERT INTO user_tb(user_name, user_password) VALUES('"
    ++ (user ++ (lit "', '" ++ (password ++ lit "')")))

-- What `regis` does under the lock.
unfoldable pub regis_locked : ℕ → Bytes → Bytes → Server → Server
unfolding query
regis_locked me user password s = elim (s.tables.user_mp user) [
  | some stored ↦ reply me (w_data_packet rgt 3 (lit "0" ++ crlf)) s
  | none ↦
      let t = s.tables in
      let s1 = query (insert_user_sql user password) s in
      reply me (w_data_packet rgt 3 (lit "1" ++ crlf))
        (record s1 { tables = record t { user_mp = assign user password t.user_mp } })
]

unfoldable pub regis : ℕ → Bytes → Server → Server
regis me content s =
    let r = scan_credentials 0 content in
    if ltb 36 (length content)
    then reply me (w_data_packet rgt 4 (lit "-2" ++ crlf)) s
    else if not (is_nice r.tar_user && is_nice r.password)
    then reply me (w_data_packet rgt 4 (lit "-2" ++ crlf)) s
    else regis_locked me r.tar_user r.password s

unfoldable pub delete_session_sql : Bytes → Bytes
delete_session_sql sid = lit "DELETE FROM sessionID_tb WHERE sessionID = '" ++ (sid ++ lit "'")

unfoldable pub logout : ℕ → Server → Server
unfolding query
logout me s =
    let sid = (s.conns me).session_id in
    let t = s.tables in
    if same sid [] then s else elim (t.session_mp sid) [
      | none ↦ s
      | some user ↦ query (delete_session_sql sid) (record s {
        tables = record t {
          userfd_mp = erase user t.userfd_mp;
          session_mp = erase sid t.session_mp;
        };
      })
    ]

-- removefd, then m_sockfd = -1 and m_user_count--.
unfoldable pub close_slot : ℕ → ℕ → Server → Server
unfolding update_conn
close_slot k fd s =
    let s1 = update_conn k (λ c. record c { sockfd = none }) s in
    record s1 {
      kernel = s.kernel ++ (remove_fd (some fd) ∷ []);
      user_count = decrement s.user_count;
    }

-- Nothing on a connection that is closed; else it is closed, with `logout` if that is wanted.
unfoldable pub close_conn : Bool → ℕ → Server → Server
close_conn want_logout k s = elim (s.conns k).sockfd [
  | none ↦ s
  | some fd ↦ if want_logout then logout k (close_slot k fd s) else close_slot k fd s
]

-- The two branches of `reconnect` under the lock, with the value of preUser.
unfoldable pub reconnect_locked : ℕ → Bytes → Server → Option ℕ × Server
unfolding update_conn
reconnect_locked me sid s = elim (s.tables.session_mp sid) [
  | none ↦ (none, reply me (w_data_packet rcn 3 (lit "0" ++ crlf)) s)
  | some user ↦
      let t = s.tables in
      let s1 = record s {
        tables = record t { userfd_mp = assign user (s.conns me).sockfd t.userfd_mp };
      } in
      (
        some_or (some 0) (t.userfd_mp user),
        reply me (w_data_packet rcn 3 (lit "1" ++ crlf))
            (update_conn me (λ c. record c { session_id = sid }) s1),
      )
]

unfoldable pub reconnect : ℕ → Bytes → Server → Server
reconnect me content s =
    let sid = scan_all content in
    if ltb 20 (length content)
    then reply me (w_data_packet rcn 4 (lit "-2" ++ crlf)) s
    else if not (is_nice_session sid)
    then reply me (w_data_packet rcn 4 (lit "-2" ++ crlf)) s
    else let r = reconnect_locked me sid s in at_fd r.0 (close_conn false) r.1

-- requestProcess::init(sockfd, …): the slot of a connection that has been accepted.
unfoldable pub init_conn : ℕ → ℕ → Server → Server
unfolding update_conn
init_conn k fd s =
    let s1 =
      update_conn k (λ c. record c { sockfd = some fd; session_id = []; is_process_write = false })
        s in
    record s1 { kernel = s.kernel ++ (add_fd (some fd) ∷ []); user_count = increment s.user_count }
