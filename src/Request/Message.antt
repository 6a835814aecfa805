-- ===== src/Request/Message.antt =====
-- request/request_process.cpp: send_message, client_ready and change_avatar.
pub mod Laws
pub mod Delivery
use didactic_pancake_server.Prelude.{
  ℕ, ◌+◌, Bytes, same, assign, contains, is_some, Bool, true, false, not, Option, none, some, List,
  [], ◌∷◌, ◌++◌, length, ◌==◌, if◌then◌else◌, lit, crlf, to_string,
}
use didactic_pancake_server.Request.Packet.{
  Packet, PacketType, rfr, sma, rma, rdy, sav, rav, code_of, w_data_packet,
}
use didactic_pancake_server.Request.Fields.{Message, scan_message, is_nice, escape}
use didactic_pancake_server.Request.Friend.{store_packet_sql}
use didactic_pancake_server.Request.Server.{
  Server, Tables, Inputs, Row, append_back_data, append_task, reply, query, reply_fd, username,
  touch_session, no_session, send_avatar, avatar_path,
}

-- m_username + "\r\n" + s_time + "\r\n" + content + "\r\n"
unfoldable pub message_text : Bytes → Bytes → Bytes → Bytes
message_text user s_time content = user ++ (crlf ++ (s_time ++ (crlf ++ (content ++ crlf))))

abbrev message_len : Bytes → Bytes → Bytes → ℕ
message_len user s_time content = length user + 2 + length s_time + 2 + length content + 2

-- The message reaches `tar`: at once if they are online, else through the database, escaped.
unfoldable pub deliver_message : Bytes → Bytes → Bytes → Bytes → Server → Server
deliver_message s_time user tar content s = elim (s.tables.userfd_mp tar) [
  | some fd ↦
      reply_fd fd
        (w_data_packet rma (message_len user s_time content) (message_text user s_time content)) s
  | none ↦
      query
        (store_packet_sql tar rma (message_len user s_time content)
          (message_text user s_time (escape content)))
        (query (lit "set names utf8") s)
]

-- What `send_message` does under the lock.
unfoldable pub send_message_locked : Bytes → ℕ → Bytes → Message → Server → Server
send_message_locked s_time me user m s =
    if not (is_some (s.tables.user_mp m.tar_user))
    then reply me (w_data_packet sma 4 (lit "-1" ++ crlf)) s
    else if contains user (s.tables.friend_mp m.tar_user)
    then deliver_message s_time user m.tar_user m.content (
        reply me
          (w_data_packet sma (length m.msg_id + 2 + length s_time + 2)
            (m.msg_id ++ (crlf ++ (s_time ++ crlf))))
          s)
    else reply me (w_data_packet sma 3 (lit "0" ++ crlf)) s

unfoldable pub send_parsed : Inputs → ℕ → Message → Server → Server
send_parsed env me m s =
    if not (is_nice m.tar_user)
    then reply me (w_data_packet sma 4 (lit "-2" ++ crlf)) s
    else if same m.tar_user (username me s)
    then reply me (w_data_packet sma 4 (lit "-3" ++ crlf)) (touch_session me s)
    else send_message_locked (to_string env.timestamp) me (username me s) m (touch_session me s)

-- `none` where the std::string constructor throws: nothing catches it, and the process ends.
unfoldable pub send_message : Inputs → ℕ → Bytes → Server → Option Server
send_message env me content s =
    if no_session me s
    then some (reply me (w_data_packet sma 4 (lit "-4" ++ crlf)) s)
    else elim (scan_message 0 content) [ none ↦ none | some m ↦ some (send_parsed env me m s) ]

-- One row of data_not_send_tb as a packet; an avatar is read from its file.
unfoldable pub send_row : ℕ → Row → Server → Option Server
send_row me r s =
    let stored = append_back_data me (w_data_packet r.category r.content_len r.content) s in
    if code_of r.category == code_of rav then send_avatar me r.content s else some stored

unfoldable pub send_rows : ℕ → List Row → Server → Option Server
send_rows me [] s = some s
send_rows me (r ∷ rows) s = elim (send_row me r s) [ none ↦ none | some s1 ↦ send_rows me rows s1 ]

unfoldable pub select_packets_sql : Bytes → Bytes
select_packets_sql user =
    lit "SELECT category,content_len,content FROM data_not_send_tb WHERE user_name = '"
    ++ (user ++ lit "'")

unfoldable pub delete_packets_sql : Bytes → Bytes
delete_packets_sql user =
    lit "DELETE FROM data_not_send_tb WHERE user_name = '" ++ (user ++ lit "'")

-- The statements of one call: the SELECT is answered by `select`.
unfoldable pub client_ready : Inputs → ℕ → Server → Option Server
client_ready env me s =
    let user = username me s in
    if no_session me s
    then some (reply me (w_data_packet rdy 4 (lit "-4" ++ crlf)) s)
    else elim (send_rows me (env.select (select_packets_sql user))
        (query (lit "set names utf8") (touch_session me s))) [
          | none ↦ none
          | some s1 ↦ some (query (delete_packets_sql user) (append_task me 1 s1))
        ]

-- The new avatar goes to one friend: at once if they are online, else through the database.
unfoldable pub send_new_avatar : Bytes → Packet → Bytes → Server → Server
send_new_avatar user pack tar s = elim (s.tables.userfd_mp tar) [
  | some fd ↦ reply_fd fd pack s
  | none ↦ query (store_packet_sql tar rav (length user) user) (query (lit "set names utf8") s)
]

unfoldable pub send_new_avatars : Bytes → Packet → List Bytes → Server → Server
send_new_avatars user pack [] s = s
send_new_avatars user pack (tar ∷ tars) s =
    send_new_avatars user pack tars (send_new_avatar user pack tar s)

unfoldable pub change_avatar : ℕ → Bytes → Server → Server
change_avatar me content s =
    let user = username me s in
    let s1 = touch_session me s in
    if no_session me s
    then reply me (w_data_packet sav 4 (lit "-4" ++ crlf)) s
    else send_new_avatars user
        (w_data_packet rav (length user + 2 + length content) (user ++ (crlf ++ content)))
        (s.tables.friend_mp user)
        (reply me (w_data_packet sav 4 (lit "1" ++ crlf))
          (record s1 { files = assign (avatar_path user) content s1.files }))
