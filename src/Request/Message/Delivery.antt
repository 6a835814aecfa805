-- ===== src/Request/Message/Delivery.antt =====
-- Where a message goes: to the receiver's connection, to the database, or nowhere.
use didactic_pancake_server.Prelude.{
  c_string, ℕ, ◌+◌, ◌<◌, Bytes, contains, is_some, false, not, none, some, [], ◌∷◌, ◌++◌, length,
  if_rule, ◌≡◌, ◌≢◌, refl, ◌∙◌, ap, sym, lit, crlf, to_string,
}
use didactic_pancake_server.Request.Packet.{Packet, rma}
use didactic_pancake_server.Request.Fields.{Message, escape}
use didactic_pancake_server.Request.Fields.Laws.{NoCr}
use didactic_pancake_server.Request.Fields.Texts.{print_message, scan_message_throws}
use didactic_pancake_server.Request.Friend.{store_packet_sql}
use didactic_pancake_server.Request.Server.{
  Server, Inputs, reply, reply_fd, query, username, touch_session, no_session,
}
use didactic_pancake_server.Request.Server.Frames.{tables-reply}
use didactic_pancake_server.Request.Server.Conns.{
  queued, conns-reply_self, conns-reply_ne, sql-reply,
}
use didactic_pancake_server.Request.Message.{
  message_text, deliver_message, send_message_locked, send_message,
}
use didactic_pancake_server.Request.Message.Laws.{
  carrying, receipt, MaySend, rma_packet, acknowledged, send_message-print,
}

-- Delivered to the connection `k`: its queue has the message at its end, the sender's a receipt, no
-- other connection has anything new, and the database is not involved.
pub record Delivered (me k : ℕ) (ack message : Packet) (s s' : Server) : Type 0 where
  pub received : s'.conns k ≡ queued (s.conns k) message
  pub sent : s'.conns me ≡ queued (s.conns me) ack
  pub others : (j : ℕ) → me ≢ j → k ≢ j → s'.conns j ≡ s.conns j
  pub sql : s'.sql ≡ s.sql

conns-acknowledged_self :
    (s_time : Bytes) (me : ℕ) (msg_id : Bytes) (s : Server)
    → (acknowledged s_time me msg_id s).conns me ≡ queued (s.conns me) (receipt msg_id s_time)
unfolding acknowledged touch_session
conns-acknowledged_self s_time me msg_id s = rw conns-reply_self refl

conns-acknowledged_ne :
    (s_time : Bytes) (me j : ℕ) (msg_id : Bytes) (s : Server)
    → me ≢ j
    → (acknowledged s_time me msg_id s).conns j ≡ s.conns j
unfolding acknowledged touch_session
conns-acknowledged_ne s_time me j msg_id s ne = conns-reply_ne me j _ _ ne

sql-acknowledged :
    (s_time : Bytes) (me : ℕ) (msg_id : Bytes) (s : Server)
    → (acknowledged s_time me msg_id s).sql ≡ s.sql
unfolding acknowledged touch_session
sql-acknowledged s_time me msg_id s = sql-reply me _ _

userfd_mp-acknowledged :
    (s_time : Bytes) (me : ℕ) (msg_id tar : Bytes) (s : Server)
    → (acknowledged s_time me msg_id s).tables.userfd_mp tar ≡ s.tables.userfd_mp tar
unfolding acknowledged touch_session
userfd_mp-acknowledged s_time me msg_id tar s = rw tables-reply refl

deliver_online :
    (s_time user tar text : Bytes) (k : ℕ) (s : Server)
    → s.tables.userfd_mp tar ≡ some (some k)
    → deliver_message s_time user tar text s ≡ reply k (carrying (message_text user s_time text)) s
unfolding deliver_message reply_fd
deliver_online s_time user tar text k s online = rw (online, deliver_message) (rw rma_packet refl)

reply-Delivered :
    (s_time : Bytes) (me k : ℕ) (msg_id : Bytes) (message : Packet) (s : Server)
    → k ≢ me
    → Delivered me k
        (receipt msg_id s_time)
        message
        s
        (reply k message (acknowledged s_time me msg_id s))
reply-Delivered s_time me k msg_id message s ne = record {
  received = rw (conns-reply_self, conns-acknowledged_ne s_time me k msg_id s (λ e. ne (sym e)));
  sent = conns-reply_ne k me message _ ne ∙ conns-acknowledged_self s_time me msg_id s;
  others = λ j m n. conns-reply_ne k j message _ n ∙ conns-acknowledged_ne s_time me j msg_id s m;
  sql = sql-reply k message _ ∙ sql-acknowledged s_time me msg_id s;
}

-- A message, as a client prints it, to a friend who is online on another connection `k`: that
-- connection is sent the sender's name, the time and exactly the text, and the sender a receipt with
-- the message's id; no other connection is sent anything.
pub send_message-Delivered :
    (env : Inputs) (me k : ℕ) (msg_id tar text : Bytes) (s : Server)
    → NoCr msg_id
    → MaySend me tar s
    → s.tables.userfd_mp tar ≡ some (some k)
    → k ≢ me
    → let s_time = to_string env.timestamp in
      (s' : Server) × (send_message env me (print_message msg_id tar text) s ≡ some s')
      × Delivered me k
          (receipt msg_id s_time)
          (carrying (message_text (username me s) s_time text))
          s
          s'
send_message-Delivered env me k msg_id tar text s clean may online ne =
    let s_time = to_string env.timestamp in
    (
      reply k (carrying (message_text (username me s) s_time text))
          (acknowledged s_time me msg_id s),
      send_message-print env me msg_id tar text s clean may
          ∙ ap some (
              deliver_online s_time (username me s) tar text k (acknowledged s_time me msg_id s)
                (userfd_mp-acknowledged s_time me msg_id tar s ∙ online)),
      reply-Delivered s_time me k msg_id _ s ne,
    )

-- The statement that stores a message for `tar`.
abbrev pub stored_message : Bytes → Bytes → Bytes → Bytes → Bytes
stored_message s_time user tar text =
    store_packet_sql tar rma (length user + 2 + length s_time + 2 + length text + 2)
      (message_text user s_time (escape text))

deliver_offline :
    (s_time user tar text : Bytes) (s : Server)
    → s.tables.userfd_mp tar ≡ none
    → deliver_message s_time user tar text s
      ≡ query (stored_message s_time user tar text) (query (lit "set names utf8") s)
unfolding deliver_message
deliver_offline s_time user tar text s offline = rw (offline, deliver_message) refl

-- Stored: the two statements are issued, as C strings, the sender has a receipt, and no other
-- connection has anything new.
pub record Stored (me : ℕ) (ack : Packet) (statement : Bytes) (s s' : Server) : Type 0 where
  pub issued : s'.sql ≡ (s.sql ++ (lit "set names utf8" ∷ [])) ++ (c_string statement ∷ [])
  pub sent : s'.conns me ≡ queued (s.conns me) ack
  pub others : (j : ℕ) → me ≢ j → s'.conns j ≡ s.conns j

query-Stored :
    (s_time : Bytes) (me : ℕ) (msg_id statement : Bytes) (s : Server)
    → Stored me
        (receipt msg_id s_time)
        statement
        s
        (query statement (query (lit "set names utf8") (acknowledged s_time me msg_id s)))
unfolding query c_string lit
query-Stored s_time me msg_id statement s = record {
  issued =
      ap (λ r. (r ++ (lit "set names utf8" ∷ [])) ++ (c_string statement ∷ []))
        (sql-acknowledged s_time me msg_id s);
  sent = conns-acknowledged_self s_time me msg_id s;
  others = λ j ne. conns-acknowledged_ne s_time me j msg_id s ne;
}

-- A message to a friend who is not online: the handler returns, a statement that stores it, with its
-- text escaped, is issued up to its first byte 0, the sender gets a receipt, and no other connection is
-- sent anything.
pub send_message-Stored :
    (env : Inputs) (me : ℕ) (msg_id tar text : Bytes) (s : Server)
    → NoCr msg_id
    → MaySend me tar s
    → s.tables.userfd_mp tar ≡ none
    → let s_time = to_string env.timestamp in
      (s' : Server) × (send_message env me (print_message msg_id tar text) s ≡ some s')
      × Stored me (receipt msg_id s_time) (stored_message s_time (username me s) tar text) s s'
send_message-Stored env me msg_id tar text s clean may offline =
    let s_time = to_string env.timestamp in
    (
      query (stored_message s_time (username me s) tar text)
          (query (lit "set names utf8") (acknowledged s_time me msg_id s)),
      send_message-print env me msg_id tar text s clean may
          ∙ ap some (
              deliver_offline s_time (username me s) tar text (acknowledged s_time me msg_id s)
                (userfd_mp-acknowledged s_time me msg_id tar s ∙ offline)),
      query-Stored s_time me msg_id _ s,
    )

-- A message of any client with a session whose text and last line end are cut off throws out of the
-- handler, whoever it is for: nothing catches it.
send_message_throws :
    (env : Inputs) (me : ℕ) (msg_id tar rest : Bytes) (s : Server)
    → no_session me s ≡ false
    → NoCr msg_id
    → NoCr tar
    → length rest < 2
    → send_message env me (msg_id ++ (crlf ++ (tar ++ (crlf ++ rest)))) s ≡ none
unfolding send_message
send_message_throws env me msg_id tar rest s session clean clean' short =
    rw (session, scan_message_throws msg_id tar rest clean clean' short, send_message) refl

-- Only the sender's own connection is written to, and nothing in the database, when the receiver
-- does not have the sender as a friend.
send_message_strangers :
    (s_time : Bytes) (me : ℕ) (user : Bytes) (m : Message) (s : Server)
    → contains user (s.tables.friend_mp m.tar_user) ≡ false
    → ((j : ℕ) → me ≢ j → (send_message_locked s_time me user m s).conns j ≡ s.conns j)
      × ((send_message_locked s_time me user m s).sql ≡ s.sql)
unfolding send_message_locked
send_message_strangers s_time me user m s strangers =
    if_rule (λ (s' : Server). ((j : ℕ) → me ≢ j → s'.conns j ≡ s.conns j) × (s'.sql ≡ s.sql))
      (not (is_some (s.tables.user_mp m.tar_user)))
      (λ e. (λ j ne. conns-reply_ne me j _ s ne, sql-reply me _ s))
      (λ e. rw strangers (λ j ne. conns-reply_ne me j _ s ne, sql-reply me _ s))
