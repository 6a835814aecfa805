-- ===== src/Request/Friend.antt =====
-- request/request_process.cpp: search_user, add_friend, reply_friend_request, delete_friend and
-- get_friend_items.
pub mod Frames
pub mod Laws
use didactic_pancake_server.Prelude.{
  ℕ, ◌+◌, Bytes, same, insert_at, remove_at, contains, some_or, is_some, Bool, true, false, not,
  ◌||◌, Option, none, some, List, [], ◌∷◌, ◌++◌, length, ltb, ◌==◌, if◌then◌else◌, lit, crlf,
  to_string,
}
use didactic_pancake_server.Request.Packet.{
  PacketType, scu, adf, def, rfr, rcn, gfi, afi, dfi, rma, rav, code_of, w_data_packet,
}
use didactic_pancake_server.Request.Fields.{Answer, scan_line, scan_all, scan_answer, is_nice}
use didactic_pancake_server.Request.Server.{
  Server, Tables, Inputs, append_back_data, append_task, reply, query, at_fd, reply_fd, username,
  touch_session, no_session, send_avatar_task, at_fd_or,
}

-- "INSERT INTO data_not_send_tb…": a packet that waits for `user` to come online.
unfoldable pub store_packet_sql : Bytes → PacketType → ℕ → Bytes → Bytes
store_packet_sql user category content_len content =
    lit "INSERT INTO data_not_send_tb(user_name, category,content_len, content) VALUES('"
    ++ (user
        ++ (lit "', '"
            ++ (to_string (code_of category)
                ++ (lit "', '"
                    ++ (to_string content_len ++ (lit "', '" ++ (content ++ lit "')")))))))

unfoldable pub search_user : ℕ → Bytes → Server → Option Server
search_user me content s =
    let tar = scan_line content in
    if no_session me s
    then some (reply me (w_data_packet scu 4 (lit "-4" ++ crlf)) s)
    else if ltb 18 (length content)
    then some (reply me (w_data_packet scu 4 (lit "-2" ++ crlf)) s)
    else if not (is_nice tar)
    then some (reply me (w_data_packet scu 4 (lit "-2" ++ crlf)) s)
    else if is_some (s.tables.user_mp tar)
    then send_avatar_task me tar (append_back_data me (w_data_packet scu 3 (lit "1" ++ crlf)) s)
    else some (reply me (w_data_packet scu 3 (lit "0" ++ crlf)) s)

-- The application reaches `tar`: at once if they are online, else through the database.
unfoldable pub send_application : Bytes → Bytes → Server → Option Server
send_application user tar s = elim (s.tables.userfd_mp tar) [
  | some fd ↦
      at_fd_or fd
        (λ k s1.
          send_avatar_task k user
            (append_back_data k (w_data_packet rfr (length user + 2) (user ++ crlf)) s1))
        s
  | none ↦ some (
      query (store_packet_sql tar rav (length user) user)
        (query (store_packet_sql tar rfr (length user + 2) (user ++ crlf)) s))
]

-- What `add_friend` does under the lock.
unfoldable pub add_friend_locked : ℕ → Bytes → Bytes → Server → Option Server
add_friend_locked me user tar s =
    let t = s.tables in
    if not (is_some (t.user_mp tar))
    then some (reply me (w_data_packet adf 3 (lit "0" ++ crlf)) s)
    else if contains user (t.friend_mp tar)
    then some (reply me (w_data_packet adf 3 (lit "2" ++ crlf)) s)
    else if contains user (t.frireq_mp tar)
    then some (reply me (w_data_packet adf 4 (lit "-1" ++ crlf)) s)
    else if contains tar (t.frireq_mp user)
    then some (reply me (w_data_packet adf 3 (lit "3" ++ crlf)) s)
    else send_application user tar (
        reply me (w_data_packet adf 3 (lit "1" ++ crlf))
          (record s { tables = record t { frireq_mp = insert_at tar user t.frireq_mp } }))

unfoldable pub add_friend : ℕ → Bytes → Server → Option Server
add_friend me content s =
    let tar = scan_line content in
    if no_session me s
    then some (reply me (w_data_packet adf 4 (lit "-4" ++ crlf)) s)
    else if ltb 18 (length content)
    then some (reply me (w_data_packet adf 4 (lit "-2" ++ crlf)) s)
    else if not (is_nice tar)
    then some (reply me (w_data_packet adf 4 (lit "-2" ++ crlf)) s)
    else if same tar (username me s)
    then some (reply me (w_data_packet adf 4 (lit "-3" ++ crlf)) (touch_session me s))
    else add_friend_locked me (username me s) tar (touch_session me s)

unfoldable pub insert_friend_sql : Bytes → Bytes → Bytes
insert_friend_sql user tar =
    lit "INSERT INTO friend_tb(usera_name, userb_name) VALUES('"
    ++ (user ++ (lit "', '" ++ (tar ++ lit "')")))

-- The UTF-8 bytes of the greeting and a line end: 47 bytes.
abbrev pub greeting : Bytes
greeting =
    230 ∷ 136 ∷ 145 ∷ 228 ∷ 187 ∷ 172 ∷ 229 ∷ 183 ∷ 178 ∷ 231 ∷ 187 ∷ 143 ∷ 230 ∷ 152 ∷ 175 ∷ 229
    ∷ 165 ∷ 189 ∷ 229 ∷ 143 ∷ 139 ∷ 228 ∷ 186 ∷ 134 ∷ 239 ∷ 188 ∷ 140 ∷ 229 ∷ 191 ∷ 171 ∷ 229 ∷ 188
    ∷ 128 ∷ 229 ∷ 167 ∷ 139 ∷ 232 ∷ 129 ∷ 138 ∷ 229 ∷ 164 ∷ 169 ∷ 229 ∷ 144 ∷ 167 ∷ 13 ∷ 10 ∷ []

unfoldable pub greeting_from : Bytes → Bytes → Bytes
greeting_from user s_time = user ++ (crlf ++ (s_time ++ (crlf ++ greeting)))

-- The packets AFI and RMA, with which a connection learns of its new friend.
unfoldable pub welcome : ℕ → Bytes → Bytes → Server → Server
welcome k user s_time s = append_task k 1 (
    append_back_data k
      (w_data_packet rma (length user + 2 + length s_time + 2 + 47) (greeting_from user s_time))
      (append_back_data k (w_data_packet afi (length user + 2) (user ++ crlf)) s))

-- The same for the applicant: at once if they are online, else through the database.
unfoldable pub welcome_applicant : Bytes → Bytes → Bytes → Server → Server
welcome_applicant user tar s_time s = elim (s.tables.userfd_mp tar) [
  | some fd ↦ at_fd fd (λ k. welcome k user s_time) s
  | none ↦
      query
        (store_packet_sql tar rma (length user + 2 + length s_time + 2 + 47)
          (greeting_from user s_time))
        (query (lit "set names utf8") (
          query (store_packet_sql tar afi (length user + 2) (user ++ crlf))
            (query (lit "set names utf8") s)))
]

-- The branch of an application that is accepted.
unfoldable pub accept_friend : Bytes → ℕ → Bytes → Bytes → Server → Server
accept_friend s_time me user tar s =
    let t = s.tables in
    let s1 = query (insert_friend_sql user tar) s in
    if contains tar (t.friend_mp user)
    then s
    else welcome_applicant user tar s_time (
        welcome me tar s_time (record s1 {
          tables = record t { friend_mp = insert_at tar user (insert_at user tar t.friend_mp) };
        }))

-- frireq_mp[m_username].erase(tar_user)
unfoldable pub drop_application : Bytes → Bytes → Server → Server
drop_application user tar s =
    let t = s.tables in
    record s { tables = record t { frireq_mp = remove_at user tar t.frireq_mp } }

-- What `reply_friend_request` does under the lock.
unfoldable pub reply_friend_locked : Bytes → ℕ → Bytes → Bytes → ℕ → Server → Server
reply_friend_locked s_time me user tar choose s =
    if contains tar (s.tables.frireq_mp user)
    then drop_application user tar (if choose == 49 then accept_friend s_time me user tar s else s)
    else s

unfoldable pub reply_friend_request : Inputs → ℕ → Bytes → Server → Server
reply_friend_request env me content s =
    let r = scan_answer 0 0 content in
    if no_session me s
    then reply me (w_data_packet rfr 4 (lit "-4" ++ crlf)) s
    else if ltb 21 (length content)
    then s
    else if not (is_nice r.tar_user)
    then s
    else reply_friend_locked (to_string env.timestamp) me (username me s) r.tar_user r.choose
        (touch_session me s)

unfoldable pub delete_friend_sql : Bytes → Bytes → Bytes
delete_friend_sql user tar =
    lit "DELETE FROM friend_tb WHERE (usera_name = '"
    ++ (user
        ++ (lit "' && userb_name = '"
            ++ (tar
                ++ (lit "') || (usera_name = '"
                    ++ (tar ++ (lit "' && userb_name = '" ++ (user ++ lit "')")))))))

-- The former friend learns of it: at once if they are online, else through the database.
unfoldable pub send_removal : Bytes → Bytes → Server → Server
send_removal user tar s = elim (s.tables.userfd_mp tar) [
  | some fd ↦ reply_fd fd (w_data_packet dfi (length user + 2) (user ++ crlf)) s
  | none ↦
      query (store_packet_sql tar dfi (length user + 2) (user ++ crlf))
        (query (lit "set names utf8") s)
]

-- What `delete_friend` does under the lock.
unfoldable pub delete_friend_locked : ℕ → Bytes → Bytes → Server → Server
delete_friend_locked me user tar s =
    let t = s.tables in
    let s1 = query (delete_friend_sql user tar) s in
    if contains tar (t.friend_mp user)
    then send_removal user tar (
        reply me (w_data_packet dfi (length tar + 2) (tar ++ crlf)) (record s1 {
          tables = record t { friend_mp = remove_at tar user (remove_at user tar t.friend_mp) };
        }))
    else s

unfoldable pub delete_friend : ℕ → Bytes → Server → Server
delete_friend me content s =
    let tar = scan_all content in
    if no_session me s
    then reply me (w_data_packet def 4 (lit "-4" ++ crlf)) s
    else if ltb 18 (length content)
    then reply me (w_data_packet rcn 4 (lit "-2" ++ crlf)) s
    else if not (is_nice tar)
    then reply me (w_data_packet def 4 (lit "-2" ++ crlf)) s
    else delete_friend_locked me (username me s) tar (touch_session me s)

abbrev pub join_lines : List Bytes → Bytes
join_lines [] = []
join_lines (name ∷ names) = name ++ (crlf ++ join_lines names)

unfoldable pub get_friend_items : ℕ → Server → Server
get_friend_items me s =
    let content = join_lines (s.tables.friend_mp (username me s)) in
    if no_session me s
    then reply me (w_data_packet gfi 4 (lit "-4" ++ crlf)) s
    else reply me (w_data_packet gfi (length content) content) (touch_session me s)
