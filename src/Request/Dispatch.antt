-- ===== src/Request/Dispatch.antt =====
-- request/request_process.cpp: do_request, which calls the handler of a complete packet.
pub mod Guard
use didactic_pancake_server.Prelude.{ℕ, Bytes, Option, none, some}
use didactic_pancake_server.Request.Packet.{
  PacketType, hbt, lgn, rgt, lgt, scu, adf, def, rfr, rcn, gfi, afi, dfi, sma, rma, rdy, ign, sav,
  rav, soc, roc, aoc, doc, eoc,
}
use didactic_pancake_server.Request.Server.{Server, Inputs}
use didactic_pancake_server.Request.Account.{heartbeat, login, regis, logout, reconnect}
use didactic_pancake_server.Request.Friend.{
  search_user, add_friend, delete_friend, reply_friend_request, get_friend_items,
}
use didactic_pancake_server.Request.Message.{send_message, client_ready, change_avatar}
use didactic_pancake_server.Request.Voice.{start_voice_chat, reply_voice_chat, end_voice_chat}

-- `none` where the handler does not return (see login, send_avatar, send_message and reply_voice_chat).
unfoldable pub do_request : Inputs → ℕ → PacketType → Bytes → Server → Option Server
do_request env me hbt content s = some (heartbeat me content s)
do_request env me lgn content s = login env me content s
do_request env me rgt content s = some (regis me content s)
do_request env me lgt content s = some (logout me s)
do_request env me scu content s = search_user me content s
do_request env me adf content s = add_friend me content s
do_request env me def content s = some (delete_friend me content s)
do_request env me rfr content s = some (reply_friend_request env me content s)
do_request env me rcn content s = some (reconnect me content s)
do_request env me gfi content s = some (get_friend_items me s)
do_request env me afi content s = some s
do_request env me dfi content s = some s
do_request env me sma content s = send_message env me content s
do_request env me rma content s = some s
do_request env me rdy content s = client_ready env me s
do_request env me ign content s = some s
do_request env me sav content s = some (change_avatar me content s)
do_request env me rav content s = some s
do_request env me soc content s = some (start_voice_chat me content s)
do_request env me roc content s = reply_voice_chat env me content s
do_request env me aoc content s = some s
do_request env me doc content s = some s
do_request env me eoc content s = some (end_voice_chat me s)
