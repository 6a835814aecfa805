-- ===== src/Request/Message/Laws.antt =====
-- What becomes of a message: delivered, stored, refused, or the end of the process.
use didactic_pancake_server.Prelude.{
  ℕ, ◌+◌, Bytes, same, contains, is_some, true, false, some, ◌++◌, length, length-append, ◌≡◌, refl,
  arith, crlf, to_string,
}
use didactic_pancake_server.Request.Packet.{Packet, sma, rma, w_data_packet, w_data_packet_exact}
use didactic_pancake_server.Request.Fields.{is_nice}
use didactic_pancake_server.Request.Fields.Laws.{NoCr, NoCr-is_nice}
use didactic_pancake_server.Request.Fields.Texts.{print_message, scan_message-print}
use didactic_pancake_server.Request.Server.{
  Server, Inputs, reply, username, touch_session, no_session,
}
use didactic_pancake_server.Request.Message.{
  message_text, deliver_message, send_message_locked, send_parsed, send_message,
}

-- A packet that carries `text`.
abbrev pub carrying : Bytes → Packet
carrying text = record { category = rma; content = text; byte_have_write = 0 }

abbrev pub receipt : Bytes → Bytes → Packet
receipt msg_id s_time = record {
  category = sma;
  content = msg_id ++ (crlf ++ (s_time ++ crlf));
  byte_have_write = 0;
}

-- The conditions under which a message of the connection `me` goes out.
pub record MaySend (me : ℕ) (tar : Bytes) (s : Server) : Type 0 where
  pub session : no_session me s ≡ false
  pub nice : is_nice tar ≡ true
  pub other : same tar (username me s) ≡ false
  pub known : is_some (s.tables.user_mp tar) ≡ true
  pub friends : contains (username me s) (s.tables.friend_mp tar) ≡ true

length-message_text :
    (user s_time text : Bytes)
    → length user + 2 + length s_time + 2 + length text + 2 ≡ length (message_text user s_time text)
unfolding message_text
length-message_text user s_time text = omega (
  arith,
  length-append user (crlf ++ (s_time ++ (crlf ++ (text ++ crlf)))),
  length-append s_time (crlf ++ (text ++ crlf)),
  length-append text crlf,
)

pub rma_packet :
    (user s_time text : Bytes)
    → w_data_packet rma
        (length user + 2 + length s_time + 2 + length text + 2)
        (message_text user s_time text)
      ≡ carrying (message_text user s_time text)
rma_packet user s_time text =
    w_data_packet_exact rma _ (message_text user s_time text) (length-message_text user s_time text)

sma_packet :
    (msg_id s_time : Bytes)
    → w_data_packet sma
        (length msg_id + 2 + length s_time + 2)
        (msg_id ++ (crlf ++ (s_time ++ crlf)))
      ≡ receipt msg_id s_time
sma_packet msg_id s_time =
    w_data_packet_exact sma _ _
      (omega (arith, length-append msg_id (crlf ++ (s_time ++ crlf)), length-append s_time crlf))

-- The server after an authorised message, before the delivery.
unfoldable pub acknowledged : Bytes → ℕ → Bytes → Server → Server
acknowledged s_time me msg_id s = reply me (receipt msg_id s_time) (touch_session me s)

pub send_message-print :
    (env : Inputs) (me : ℕ) (msg_id tar text : Bytes) (s : Server)
    → NoCr msg_id
    → MaySend me tar s
    → send_message env me (print_message msg_id tar text) s
      ≡ some (
          deliver_message
            (to_string env.timestamp)
            (username me s)
            tar
            text
            (acknowledged (to_string env.timestamp) me msg_id s))
unfolding send_message send_parsed send_message_locked acknowledged touch_session
send_message-print env me msg_id tar text s clean may =
    rw
      (
        may.session,
        scan_message-print msg_id tar text clean (NoCr-is_nice tar may.nice),
        send_message,
      )
      (rw (may.nice, may.other, may.known, may.friends, sma_packet) refl)
