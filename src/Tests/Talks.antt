-- ===== src/Tests/Talks.antt =====
-- The theorems about messages and voice calls, at the sample server.
use didactic_pancake_server.Prelude.{
  Bytes, same, assign, insert_at, insert, contains, none, some, [], ◌∷◌, ◌≡◌, ◌≢◌, refl, arith,
  to_string,
}
use didactic_pancake_server.Request.Server.{Server, no_session, username}
use didactic_pancake_server.Request.Fields.{scan_message, is_nice, all_alnum, escape}
use didactic_pancake_server.Request.Fields.Texts.{
  print_message, scan_message-print, unescape, unescape-escape,
}
use didactic_pancake_server.Request.Message.{message_text, send_message}
use didactic_pancake_server.Request.Message.Laws.{MaySend, carrying, receipt}
use didactic_pancake_server.Request.Message.Delivery.{
  Delivered, Stored, stored_message, send_message-Delivered, send_message-Stored,
}
use didactic_pancake_server.Request.Voice.{accept_voice}
use didactic_pancake_server.Request.Voice.Laws.{IsConnected, accept_voice-IsConnected}
use didactic_pancake_server.Tests.Sample.{amy, bob, env, tables, server, serving}

-- "7", and "it's"
abbrev msg_id : Bytes
msg_id = 55 ∷ []

abbrev text : Bytes
text = 105 ∷ 116 ∷ 39 ∷ 115 ∷ []

MaySend-server : MaySend 4 bob server
unfolding no_session same is_nice all_alnum username assign insert_at insert contains
MaySend-server = record { session = refl; nice = refl; other = refl; known = refl; friends = refl }

-- The same server with bob offline.
abbrev bob_away : Server
bob_away = serving (record tables { userfd_mp = assign amy (some 4) (λ k. none) })

MaySend-bob_away : MaySend 4 bob bob_away
unfolding no_session same is_nice all_alnum username assign insert_at insert contains
MaySend-bob_away = record {
  session = refl;
  nice = refl;
  other = refl;
  known = refl;
  friends = refl;
}

send_message-Delivered_example :
    let s_time = to_string env.timestamp in
    (s' : Server) × (send_message env 4 (print_message msg_id bob text) server ≡ some s')
    × Delivered 4 5
        (receipt msg_id s_time)
        (carrying (message_text (username 4 server) s_time text))
        server
        s'
unfolding assign same
send_message-Delivered_example =
    send_message-Delivered env 4 5 msg_id bob text server (omega arith) MaySend-server refl
      (omega arith)

send_message-Stored_example :
    let s_time = to_string env.timestamp in
    (s' : Server) × (send_message env 4 (print_message msg_id bob text) bob_away ≡ some s')
    × Stored 4
        (receipt msg_id s_time)
        (stored_message s_time (username 4 bob_away) bob text)
        bob_away
        s'
unfolding assign same
send_message-Stored_example =
    send_message-Stored env 4 msg_id bob text bob_away (omega arith) MaySend-bob_away refl

scan_message-print_example :
    scan_message 0 (print_message msg_id bob text)
    ≡ some (record { msg_id = msg_id; tar_user = bob; content = text })
scan_message-print_example = scan_message-print msg_id bob text (omega arith) (omega arith)

unescape-escape_example : unescape (escape text) ≡ some text
unescape-escape_example = unescape-escape text

-- amy called bob, and bob accepts with the ids 4 for himself and 3 for amy.
abbrev ringing : Server
ringing = serving (record tables { voice_chat_mp = assign amy bob (assign bob amy (λ k. none)) })

bob≢amy : bob ≢ amy
bob≢amy e = ground arith

accept_voice-IsConnected_example :
    IsConnected bob amy 4 3 (accept_voice 5 bob amy (some 4) (4, 3) ringing).tables
unfolding assign same
accept_voice-IsConnected_example =
    accept_voice-IsConnected 5 bob amy (some 4) 4 3 ringing bob≢amy (omega arith) refl refl
