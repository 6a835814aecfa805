-- ===== src/Tests/Writing.antt =====
-- A run of write (Request/Writer.antt).
use didactic_pancake_server.Prelude.{[], ◌∷◌, ◌++◌, List, lit, ◌≡◌}
use didactic_pancake_server.Request.Packet.{Packet, hbt, dfi, w_data_packet}
use didactic_pancake_server.Request.Writer.{
  Send, sent, again, write, pending_all, write-pending_all,
}

abbrev queue : List Packet
queue = w_data_packet hbt 2 (lit "hi") ∷ (w_data_packet dfi 1 (lit "x") ∷ [])

-- The first packet goes out in two parts, and then the socket is full.
abbrev outcomes : List Send
outcomes = sent 10 ∷ (sent 100 ∷ (sent 3 ∷ (again ∷ [])))

write-pending_all_example :
    (write outcomes queue).stream ++ pending_all (write outcomes queue).datas ≡ pending_all queue
write-pending_all_example = write-pending_all outcomes queue
