-- ===== src/Request/Dispatch/Guard.antt =====
-- Requests of a connection that has no session.
use didactic_pancake_server.Prelude.{ℕ, Bytes, Bool, true, false, some, ◌++◌, ◌≡◌, ◌≢◌, lit, crlf}
use didactic_pancake_server.Request.Packet.{
  PacketType, scu, adf, def, rfr, gfi, sma, rdy, sav, soc, roc, eoc, w_data_packet,
}
use didactic_pancake_server.Request.Server.{Server, Inputs, reply, no_session}
use didactic_pancake_server.Request.Server.Conns.{
  queued, conns-reply_self, conns-reply_ne, sql-reply, files-reply,
}
use didactic_pancake_server.Request.Server.Frames.{tables-reply}
use didactic_pancake_server.Request.Friend.{
  search_user, add_friend, delete_friend, reply_friend_request, get_friend_items,
}
use didactic_pancake_server.Request.Message.{send_message, client_ready, change_avatar}
use didactic_pancake_server.Request.Voice.{start_voice_chat, reply_voice_chat, end_voice_chat}
use didactic_pancake_server.Request.Dispatch.{do_request}

-- The requests that a handler serves, but for the heartbeat, for LGN, RGT and RCN, by which a client
-- gets a session, and for LGT, which has nothing to end.
abbrev pub needs_session : PacketType → Bool
needs_session scu = true
needs_session adf = true
needs_session def = true
needs_session rfr = true
needs_session gfi = true
needs_session sma = true
needs_session rdy = true
needs_session sav = true
needs_session soc = true
needs_session roc = true
needs_session eoc = true
needs_session _ = false

-- The answer "-4", and nothing else.
pub record Refused (me : ℕ) (p : PacketType) (s s' : Server) : Type 0 where
  pub tables : s'.tables ≡ s.tables
  pub sql : s'.sql ≡ s.sql
  pub files : s'.files ≡ s.files
  pub own : s'.conns me ≡ queued (s.conns me) (w_data_packet p 4 (lit "-4" ++ crlf))
  pub others : (j : ℕ) → me ≢ j → s'.conns j ≡ s.conns j

reply-Refused :
    (me : ℕ) (p : PacketType) (s : Server)
    → Refused me p s (reply me (w_data_packet p 4 (lit "-4" ++ crlf)) s)
reply-Refused me p s = record {
  tables = tables-reply me _ s;
  sql = sql-reply me _ s;
  files = files-reply me _ s;
  own = conns-reply_self me _ s;
  others = λ j ne. conns-reply_ne me j _ s ne;
}

-- Every handler that needs a session tests for it first.
refusal :
    (env : Inputs) (me : ℕ) (p : PacketType) (content : Bytes) (s : Server)
    → needs_session p ≡ true
    → no_session me s ≡ true
    → do_request env me p content s ≡ some (reply me (w_data_packet p 4 (lit "-4" ++ crlf)) s)
unfolding do_request search_user add_friend delete_friend reply_friend_request get_friend_items
    send_message client_ready change_avatar start_voice_chat reply_voice_chat end_voice_chat
refusal env me scu c s h e = rw e
refusal env me adf c s h e = rw e
refusal env me def c s h e = rw e
refusal env me rfr c s h e = rw e
refusal env me gfi c s h e = rw e
refusal env me sma c s h e = rw e
refusal env me rdy c s h e = rw e
refusal env me sav c s h e = rw e
refusal env me soc c s h e = rw e
refusal env me roc c s h e = rw e
refusal env me eoc c s h e = rw e
refusal env me _ c s h e = absurd (never h)
  where
    never : false ≡ true → ⊥
    never p = cc

-- On a connection without a session, each of the eleven requests that need one returns, answers
-- "-4", and changes no table, no file, no other connection, and nothing in the database.
pub do_request-Refused :
    (env : Inputs) (me : ℕ) (p : PacketType) (content : Bytes) (s : Server)
    → needs_session p ≡ true
    → no_session me s ≡ true
    → (s' : Server) × (do_request env me p content s ≡ some s') × Refused me p s s'
do_request-Refused env me p content s h e = (
  reply me (w_data_packet p 4 (lit "-4" ++ crlf)) s,
  refusal env me p content s h e,
  reply-Refused me p s,
)
