-- ===== src/Spec/Requests.antt =====
-- do_request as a whole, and every sequence of requests, makes steps of the specification.
use didactic_pancake_server.Prelude.{ℕ, Bytes, some, ◌≡◌}
use didactic_pancake_server.Request.Packet.{
  PacketType, hbt, lgn, rgt, lgt, scu, adf, def, rfr, rcn, gfi, afi, dfi, sma, rma, rdy, ign, sav,
  rav, soc, roc, aoc, doc, eoc,
}
use didactic_pancake_server.Request.Server.{Server, Inputs}
use didactic_pancake_server.Request.Dispatch.{do_request}
use didactic_pancake_server.Spec.{stay, Runs}
use didactic_pancake_server.Spec.Friends.{
  search_user-Runs, add_friend-Runs, delete_friend-Runs, reply_friend_request-Runs,
  get_friend_items-Runs,
}
use didactic_pancake_server.Spec.Accounts.{
  heartbeat-Runs, login-Runs, regis-Runs, logout-Runs, reconnect-Runs,
}
use didactic_pancake_server.Spec.Returns.{Returned, Returned-some}
use didactic_pancake_server.Spec.Messages.{send_message-Runs, client_ready-Runs, change_avatar-Runs}
use didactic_pancake_server.Spec.Voices.{
  start_voice_chat-Runs, reply_voice_chat-Runs, end_voice_chat-Runs,
}

do_request-Returned :
    (env : Inputs) (me : ℕ) (p : PacketType) (content : Bytes) (s : Server)
    → Returned s (do_request env me p content s)
unfolding do_request
do_request-Returned env me hbt c s = Returned-some s _ (heartbeat-Runs me c s)
do_request-Returned env me lgn c s = login-Runs env me c s
do_request-Returned env me rgt c s = Returned-some s _ (regis-Runs me c s)
do_request-Returned env me lgt c s = Returned-some s _ (logout-Runs me s)
do_request-Returned env me scu c s = search_user-Runs me c s
do_request-Returned env me adf c s = add_friend-Runs me c s
do_request-Returned env me def c s = Returned-some s _ (delete_friend-Runs me c s)
do_request-Returned env me rfr c s = Returned-some s _ (reply_friend_request-Runs env me c s)
do_request-Returned env me rcn c s = Returned-some s _ (reconnect-Runs me c s)
do_request-Returned env me gfi c s = Returned-some s _ (get_friend_items-Runs me s)
do_request-Returned env me afi c s = Returned-some s _ stay
do_request-Returned env me dfi c s = Returned-some s _ stay
do_request-Returned env me sma c s = send_message-Runs env me c s
do_request-Returned env me rma c s = Returned-some s _ stay
do_request-Returned env me rdy c s = client_ready-Runs env me s
do_request-Returned env me ign c s = Returned-some s _ stay
do_request-Returned env me sav c s = Returned-some s _ (change_avatar-Runs me c s)
do_request-Returned env me rav c s = Returned-some s _ stay
do_request-Returned env me soc c s = Returned-some s _ (start_voice_chat-Runs me c s)
do_request-Returned env me roc c s = reply_voice_chat-Runs env me c s
do_request-Returned env me aoc c s = Returned-some s _ stay
do_request-Returned env me doc c s = Returned-some s _ stay
do_request-Returned env me eoc c s = Returned-some s _ (end_voice_chat-Runs me s)

-- Whatever packet a connection sends, if its handler returns then the tables have gone through a
-- sequence of steps of the specification, each made under its condition.
pub do_request-Runs :
    (env : Inputs) (me : ℕ) (p : PacketType) (content : Bytes) (s s' : Server)
    → do_request env me p content s ≡ some s'
    → Runs s s'
do_request-Runs env me p content s s' e = do_request-Returned env me p content s s' e
