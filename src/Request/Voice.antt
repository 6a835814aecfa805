-- ===== src/Request/Voice.antt =====
-- request/request_process.cpp: start_voice_chat, reply_voice_chat, end_voice_chat and handleUdpPack.
pub mod Laws
use didactic_pancake_server.Prelude.{
  ℕ, zero, suc, ◌+◌, ◌%◌, Bytes, same, IdMap, assign, erase, touch, assign_id, erase_id, contains,
  some_or, is_some, Bool, true, false, not, ◌||◌, ◌&&◌, Option, none, some, List, [], ◌∷◌, ◌++◌,
  length, ltb, ◌==◌, if◌then◌else◌, lit, crlf, to_string,
}
use didactic_pancake_server.Request.Packet.{PacketType, soc, roc, aoc, doc, eoc, w_data_packet}
use didactic_pancake_server.Request.Fields.{scan_line, is_nice}
use didactic_pancake_server.Request.Server.{
  Server, Tables, Inputs, Sockaddr, reply, reply_fd, username, touch_session, no_session,
}

-- Both free and the other online: the pair is entered in both directions.
unfoldable pub call_user : ℕ → Bytes → Bytes → Option ℕ → Server → Server
call_user me user tar fd s =
    let t = s.tables in
    reply_fd fd (w_data_packet roc (length user + 2) (user ++ crlf)) (
      reply me (w_data_packet soc 4 (lit "1" ++ crlf)) (record s {
        tables = record t { voice_chat_mp = assign tar user (assign user tar t.voice_chat_mp) };
      }))

-- What `start_voice_chat` does under the lock.
unfoldable pub start_voice_locked : ℕ → Bytes → Bytes → Server → Server
start_voice_locked me user tar s =
    let t = s.tables in
    if same tar user || not (contains tar (t.friend_mp user))
    then reply me (w_data_packet soc 4 (lit "-3" ++ crlf)) s
    else if is_some (t.voice_chat_mp user) || is_some (t.voice_chat_mp tar)
    then reply me (w_data_packet soc 3 (lit "0" ++ crlf)) s
    else elim (t.userfd_mp tar) [
      | some fd ↦ call_user me user tar fd s
      | none ↦ reply me (w_data_packet soc 4 (lit "-1" ++ crlf)) s
    ]

unfoldable pub start_voice_chat : ℕ → Bytes → Server → Server
start_voice_chat me content s =
    let tar = scan_line content in
    if no_session me s
    then reply me (w_data_packet soc 4 (lit "-4" ++ crlf)) s
    else if ltb 18 (length content)
    then reply me (w_data_packet soc 4 (lit "-2" ++ crlf)) s
    else if not (is_nice tar)
    then reply me (w_data_packet soc 4 (lit "-2" ++ crlf)) s
    else start_voice_locked me (username me s) tar (touch_session me s)

-- while (voice_id_to_user_mp.find(id = rand() % 1000000000) != end()): the id and the values of
-- rand() that are left, or `none` if all values given lead to an id in use.
unfoldable pub draw_id : IdMap Bytes → List ℕ → Option (ℕ × List ℕ)
draw_id m [] = none
draw_id m (r ∷ rands) =
    let id = r % 1000000000 in
    let again = draw_id m rands in if is_some (m id) then again else some (id, rands)

-- Both ids, drawn one after the other from the same map.
unfoldable pub draw_ids : IdMap Bytes → List ℕ → Option (ℕ × ℕ)
unfolding draw_id
draw_ids m rands = elim (draw_id m rands) [
  | none ↦ none
  | some (a, rest) ↦ elim (draw_id m rest) [ none ↦ none | some (b, rest') ↦ some (a, b) ]
]

-- choose == '1', with the ids that were drawn.
unfoldable pub accept_voice : ℕ → Bytes → Bytes → Option ℕ → ℕ × ℕ → Server → Server
accept_voice me user tar fd (a, b) s =
    let t = s.tables in
    reply_fd fd (w_data_packet aoc (length (to_string b) + 2) (to_string b ++ crlf)) (
      reply me (w_data_packet aoc (length (to_string a) + 2) (to_string a ++ crlf)) (record s {
        tables = record t {
          voice_id_to_user_mp = assign_id b tar (assign_id a user t.voice_id_to_user_mp);
          user_to_voice_id_mp = assign tar b (assign user a t.user_to_voice_id_mp);
        };
      }))

-- choose == '0'
unfoldable pub refuse_voice : Bytes → Bytes → Option ℕ → Server → Server
refuse_voice user tar fd s =
    let t = s.tables in
    reply_fd fd (w_data_packet doc 0 [])
      (record s { tables = record t { voice_chat_mp = erase tar (erase user t.voice_chat_mp) } })

-- voice_chat_mp[m_username], which enters "" where the user has no chat.
unfoldable pub touch_voice : Bytes → Server → Server
touch_voice user s =
    let t = s.tables in
    record s { tables = record t { voice_chat_mp = touch user [] t.voice_chat_mp } }

-- What `reply_voice_chat` does under the lock, behind voice_chat_mp[m_username].
unfoldable pub answer_voice : Inputs → ℕ → Bytes → Bytes → ℕ → Server → Option Server
answer_voice env me user tar choose s =
    if not (is_some (s.tables.voice_chat_mp user)) then some s else elim (s.tables.userfd_mp tar) [
      | none ↦ some s
      | some fd ↦
          if choose == 49
          then elim (draw_ids s.tables.voice_id_to_user_mp env.rands) [
            | none ↦ none
            | some ids ↦ some (accept_voice me user tar fd ids s)
          ]
          else some (refuse_voice user tar fd s)
    ]

unfoldable pub reply_voice_locked : Inputs → ℕ → Bytes → ℕ → Server → Option Server
reply_voice_locked env me user choose s =
    answer_voice env me user (some_or [] (s.tables.voice_chat_mp user)) choose (touch_voice user s)

-- `none` where m_content[0] is read through the null pointer of an empty content, or where the
-- loop of `draw_id` has not ended.
unfoldable pub reply_voice_chat : Inputs → ℕ → Bytes → Server → Option Server
reply_voice_chat env me content s =
    if no_session me s
    then some (reply me (w_data_packet roc 4 (lit "-4" ++ crlf)) s)
    else if ltb 3 (length content)
    then some s
    else elim content [
      | [] ↦ none
      | choose ∷ rest ↦
          if not (choose == 48) && not (choose == 49)
          then some s
          else reply_voice_locked env me (username me s) choose (touch_session me s)
    ]

-- The tables after a chat has ended.
unfoldable pub hang_up : Bytes → Bytes → Tables → Tables
hang_up user tar t =
    let a = some_or 0 (t.user_to_voice_id_mp user) in
    let b = some_or 0 (t.user_to_voice_id_mp tar) in
    record t {
      voice_chat_mp = erase tar (erase user t.voice_chat_mp);
      voice_id_sockaddr_mp = erase_id b (erase_id a t.voice_id_sockaddr_mp);
      voice_id_to_user_mp = erase_id b (erase_id a t.voice_id_to_user_mp);
      user_to_voice_id_mp = erase tar (erase user t.user_to_voice_id_mp);
    }

-- What `end_voice_chat` does under the lock.
unfoldable pub end_voice_locked : Bytes → Server → Server
unfolding hang_up
end_voice_locked user s = elim (s.tables.voice_chat_mp user) [
  | none ↦ s
  | some tar ↦
      let s1 = record s { tables = hang_up user tar s.tables } in
      elim (s.tables.userfd_mp tar) [
        | none ↦ s1
        | some fd ↦ reply_fd fd (w_data_packet doc 0 []) s1
      ]
]

unfoldable pub end_voice_chat : ℕ → Server → Server
end_voice_chat me s =
    if no_session me s
    then reply me (w_data_packet eoc 4 (lit "-4" ++ crlf)) s
    else reply me (w_data_packet eoc 3 (lit "1" ++ crlf))
        (end_voice_locked (username me s) (touch_session me s))

-- handleUdpPack: the sender's address is entered the first time.
unfoldable pub note_address : ℕ → Sockaddr → Tables → Tables
note_address chat_id from t =
    if is_some (t.voice_id_sockaddr_mp chat_id)
    then t
    else record t { voice_id_sockaddr_mp = assign_id chat_id from t.voice_id_sockaddr_mp }

-- The address to which a packet of this chat is sent on, if all four lookups succeed.
unfoldable pub peer_address : ℕ → Tables → Option Sockaddr
peer_address chat_id t = elim (t.voice_id_to_user_mp chat_id) [
  | none ↦ none
  | some user ↦ elim (t.voice_chat_mp user) [
    | none ↦ none
    | some tar ↦ elim (t.user_to_voice_id_mp tar) [
      | none ↦ none
      | some id ↦ t.voice_id_sockaddr_mp id
    ]
  ]
]

-- A datagram of the chat `chat_id` from `from`: the new tables, and where it is sent on to.
unfoldable pub handle_udp_pack : ℕ → Sockaddr → Tables → Tables × Option Sockaddr
unfolding note_address peer_address
handle_udp_pack chat_id from t =
    let t1 = note_address chat_id from t in (t1, peer_address chat_id t1)
