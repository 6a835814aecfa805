-- ===== src/Tests/Packets.antt =====
-- Heartbeats from recv to send, on a connection of Sample.antt.
use didactic_pancake_server.Prelude.{
  ◌<◌, ◌≢◌, Bytes, lit, to_string, true, List, [], ◌∷◌, ◌++◌, length, take, drop, ◌≡◌, refl, arith,
}
use didactic_pancake_server.Request.Packet.{hbt, ign, make_format, req_to_string}
use didactic_pancake_server.Request.Server.{Server}
use didactic_pancake_server.Request.Writer.{Send, again, sent, write, pending_all}
use didactic_pancake_server.Request.Reader.{init_read, no_request, get_request, read_buffer_size}
use didactic_pancake_server.Request.Reader.Process.{done, process}
use didactic_pancake_server.Request.Reader.Input.{read}
use didactic_pancake_server.Request.Reader.Pipeline.{print_all, AllSendable}
use didactic_pancake_server.Request.EndToEnd.{recv_of, joined, AllFull, read-process-serve}
use didactic_pancake_server.Request.Broken.{overwritten, process-overwritten}
use didactic_pancake_server.Request.Echo.{beats, beaten, beats_echo, serve-beats}
use didactic_pancake_server.Tests.Sample.{env, server}

abbrev hello : Bytes
hello = 104 ∷ 105 ∷ []

abbrev two_beats : List Bytes
two_beats = hello ∷ [] ∷ []

-- The two packets, in three pieces.
abbrev pieces : List Bytes
pieces =
    let bytes = print_all (beats two_beats) in
    take 4 bytes ∷ take 30 (drop 4 bytes) ∷ drop 30 (drop 4 bytes) ∷ []

pieces_joined : joined pieces ≡ print_all (beats two_beats)
unfolding make_format req_to_string lit to_string
pieces_joined = refl

pieces-AllFull : AllFull pieces
unfolding make_format req_to_string lit to_string
pieces-AllFull = omega arith

pieces_fit : length (joined pieces) < read_buffer_size
unfolding make_format req_to_string lit to_string
pieces_fit = omega arith

beats-AllSendable : AllSendable (beats two_beats)
beats-AllSendable = (hbt≢ign, omega arith, (hbt≢ign, omega arith, tt))
  where
    hbt≢ign : hbt ≢ ign
    hbt≢ign e = ground arith

read-process-serve_example :
    ((read true (recv_of pieces) init_read).0 ≡ true)
    × (process env 5 no_request (read true (recv_of pieces) init_read).1 server
        ≡ done get_request init_read (beaten 5 two_beats server))
read-process-serve_example =
    read-process-serve env 5 no_request pieces hbt hello (beats ([] ∷ [])) server
      (beaten 5 two_beats server) beats-AllSendable pieces-AllFull pieces_joined pieces_fit
      (serve-beats env 5 two_beats server)

-- send takes ten bytes, and has no room then.
abbrev sends : List Send
sends = sent 10 ∷ again ∷ []

beats_echo_example :
    (s' : Server) × (process env 5 no_request (read true (recv_of pieces) init_read).1 server
      ≡ done get_request init_read s')
    × ((write sends (s'.conns 5).datas).stream ++ pending_all (write sends (s'.conns 5).datas).datas
        ≡ joined pieces)
beats_echo_example =
    beats_echo env 5 no_request pieces hello ([] ∷ []) sends server pieces-AllFull pieces_joined
      pieces_fit refl

-- The start of a heartbeat, in two pieces.
abbrev start_of_beat : List Bytes
start_of_beat = (72 ∷ []) ∷ (66 ∷ 84 ∷ []) ∷ []

process-overwritten_example :
    process env 5 no_request (read true (recv_of start_of_beat) init_read).1 server
    ≡ done no_request (overwritten 3) server
process-overwritten_example =
    process-overwritten env 5 no_request start_of_beat server (omega arith)
      (refl, (refl, (refl, (refl, (refl, (refl, (refl, (refl, (refl, tt))))))))) (omega arith)
      (omega arith)
