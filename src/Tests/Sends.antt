-- ===== src/Tests/Sends.antt =====
-- A reply on a connection, by Request/Sending.antt.
use didactic_pancake_server.Prelude.{◌++◌, true, [], ◌∷◌, ◌≡◌}
use didactic_pancake_server.Request.Packet.{Packet, hbt}
use didactic_pancake_server.Request.Server.{Server, append_back_data}
use didactic_pancake_server.Request.Writer.{for_output, sent, again, write, pending_all}
use didactic_pancake_server.Request.Sending.{Sending, begun, Moves}
use didactic_pancake_server.Request.Account.{init_conn, close_conn}
use didactic_pancake_server.Request.Leftovers.{leftovers_go_on}
use didactic_pancake_server.Request.Sending.Stranded.{IsStranded, reply-IsStranded}
use didactic_pancake_server.Tests.Sample.{server}

abbrev beat : Packet
beat = record { category = hbt; content = 104 ∷ []; byte_have_write = 0 }

-- A packet that waits, with the socket armed for output.
abbrev armed : Sending
armed = record begun {
  datas = beat ∷ [];
  interest = for_output;
  looked = 1;
  is_process_write = true;
}

reply-IsStranded_example : (w : Sending) × Moves begun w × IsStranded (beat ∷ []) w
reply-IsStranded_example = reply-IsStranded beat

-- The slot 5 with a packet that waits.
abbrev busy : Server
busy = append_back_data 5 beat server

leftovers_go_on_example :
    (write (sent 7 ∷ again ∷ []) ((init_conn 5 9 (close_conn true 5 busy)).conns 5).datas).stream
      ++ pending_all
          (write
            (sent 7 ∷ again ∷ [])
            ((init_conn 5 9 (close_conn true 5 busy)).conns 5).datas).datas
    ≡ pending_all (busy.conns 5).datas
leftovers_go_on_example = leftovers_go_on true 5 9 (sent 7 ∷ again ∷ []) busy
