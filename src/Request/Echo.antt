-- ===== src/Request/Echo.antt =====
-- request/request_process.cpp, heartbeats from recv to send: what read, process, heartbeat and write
-- make of them.
use didactic_pancake_server.Prelude.{
  ℕ, ◌<◌, ◌^◌, Bytes, true, some, List, [], ◌∷◌, ◌++◌, map, length, length-append, ◌≡◌, ◌≢◌, refl,
  arith, ap, sym, ◌∙◌, append_assoc, append-nil,
}
use didactic_pancake_server.Request.Packet.{
  PacketType, Packet, hbt, ign, make_format, w_data_packet, w_data_packet_exact,
}
use didactic_pancake_server.Request.Server.{Server, Inputs}
use didactic_pancake_server.Request.Server.Conns.{conns-reply_self}
use didactic_pancake_server.Request.Account.{heartbeat}
use didactic_pancake_server.Request.Dispatch.{do_request}
use didactic_pancake_server.Request.History.{serve}
use didactic_pancake_server.Request.Writer.{Send, write, pending_all, write-pending_all}
use didactic_pancake_server.Request.Reader.{ResultCode, get_request, init_read, read_buffer_size}
use didactic_pancake_server.Request.Reader.Process.{done, process}
use didactic_pancake_server.Request.Reader.Input.{read}
use didactic_pancake_server.Request.Reader.Headed.{length-make_format}
use didactic_pancake_server.Request.Reader.Pipeline.{print_all, AllSendable, request_of}
use didactic_pancake_server.Request.EndToEnd.{recv_of, joined, AllFull, read-process-serve}

abbrev pub beats : List Bytes → List (PacketType × Bytes)
beats ts = map (λ t. (hbt, t)) ts

abbrev packet_of : Bytes → Packet
packet_of t = record { category = hbt; content = t; byte_have_write = 0 }

-- The server behind heartbeats.
abbrev pub beaten : ℕ → List Bytes → Server → Server
beaten me [] s = s
beaten me (t ∷ ts) s = beaten me ts (heartbeat me t s)

pub serve-beats :
    (env : Inputs) (me : ℕ) (ts : List Bytes) (s : Server)
    → serve (map (request_of env me) (beats ts)) s ≡ some (beaten me ts s)
unfolding serve do_request
serve-beats env me [] s = refl
serve-beats env me (t ∷ ts) s = serve-beats env me ts (heartbeat me t s)

datas-heartbeat :
    (me : ℕ) (t : Bytes) (s : Server)
    → ((heartbeat me t s).conns me).datas ≡ (s.conns me).datas ++ (packet_of t ∷ [])
unfolding heartbeat
datas-heartbeat me t s =
    ap (λ c. c.datas) (conns-reply_self me (w_data_packet hbt (length t) t) s)
    ∙ ap (λ p. (s.conns me).datas ++ (p ∷ [])) (w_data_packet_exact hbt (length t) t refl)

datas-beaten :
    (me : ℕ) (ts : List Bytes) (s : Server)
    → ((beaten me ts s).conns me).datas ≡ (s.conns me).datas ++ map packet_of ts
datas-beaten me [] s = sym (append-nil (s.conns me).datas)
datas-beaten me (t ∷ ts) s =
    datas-beaten me ts (heartbeat me t s)
    ∙ ap (λ d. d ++ map packet_of ts) (datas-heartbeat me t s)
    ∙ append_assoc (s.conns me).datas (packet_of t ∷ []) (map packet_of ts)

pending_all-beats : (ts : List Bytes) → pending_all (map packet_of ts) ≡ print_all (beats ts)
pending_all-beats [] = refl
pending_all-beats (t ∷ ts) = ap (λ b. make_format hbt t ++ b) (pending_all-beats ts)

AllSendable-beats :
    (ts : List Bytes) → length (print_all (beats ts)) < 2 ^ 31 → AllSendable (beats ts)
AllSendable-beats [] h = tt
AllSendable-beats (t ∷ ts) h =
    let size = length-append (make_format hbt t) (print_all (beats ts)) in
    let own = length-make_format hbt t 0 in
    (hbt≢ign, omega (arith, size, own), AllSendable-beats ts (omega (arith, size)))
  where
    hbt≢ign : hbt ≢ ign
    hbt≢ign e = ground arith

-- The server echoes heartbeats: when a connection with nothing to send receives the bytes of
-- heartbeats, at least one and fewer bytes than the buffer has, in any pieces in one call of read
-- under edge triggering, then process returns with a server for which the bytes that write sends,
-- whatever send returns, and those that are then left to send are together the bytes received.
pub beats_echo :
    (env : Inputs) (me : ℕ) (code : ResultCode) (cs : List Bytes) (t : Bytes) (ts : List Bytes)
    (outs : List Send) (s : Server)
    → AllFull cs
    → joined cs ≡ print_all (beats (t ∷ ts))
    → length (joined cs) < read_buffer_size
    → (s.conns me).datas ≡ []
    → (s' : Server) × (process env me code (read true (recv_of cs) init_read).1 s
        ≡ done get_request init_read s')
      × ((write outs (s'.conns me).datas).stream
            ++ pending_all (write outs (s'.conns me).datas).datas
          ≡ joined cs)
beats_echo env me code cs t ts outs s full bytes fits idle =
    let s' = beaten me (t ∷ ts) s in
    let sendable : AllSendable (beats (t ∷ ts)) =
      AllSendable-beats (t ∷ ts) (omega (arith, ap length bytes)) in
    let queue : (s'.conns me).datas ≡ map packet_of (t ∷ ts) =
      datas-beaten me (t ∷ ts) s ∙ ap (λ d. d ++ map packet_of (t ∷ ts)) idle in
    (
      s',
      (read-process-serve env me code cs hbt t (beats ts) s s' sendable full bytes fits
          (serve-beats env me (t ∷ ts) s)).1,
      write-pending_all outs (s'.conns me).datas
          ∙ ap pending_all queue
          ∙ pending_all-beats (t ∷ ts)
          ∙ sym bytes,
    )
