-- ===== src/Request/Server/Conns.antt =====
-- What the shared operations do to the connections, the statements and the files.
use didactic_pancake_server.Prelude.{ℕ, ◌≡◌, ◌≢◌, refl, [], ◌∷◌, ◌++◌, arith}
use didactic_pancake_server.Request.Packet.{Packet}
use didactic_pancake_server.Request.Server.{Server, Conn, reply, update_conn}

-- A packet at the back of the queue of `k`.
abbrev pub queued : Conn → Packet → Conn
queued c p = record c { datas = c.datas ++ (p ∷ []) }

pub conns-reply_self :
    (k : ℕ) (p : Packet) (s : Server) → (reply k p s).conns k ≡ queued (s.conns k) p
unfolding reply
conns-reply_self k p s = ground arith

pub conns-reply_ne : (k j : ℕ) (p : Packet) (s : Server) → k ≢ j → (reply k p s).conns j ≡ s.conns j
unfolding reply
conns-reply_ne k j p s ne = ground arith

pub session_id-reply :
    (k j : ℕ) (p : Packet) (s : Server)
    → ((reply k p s).conns j).session_id ≡ (s.conns j).session_id
unfolding reply
session_id-reply k j p s = ground arith

pub sockfd-reply :
    (k j : ℕ) (p : Packet) (s : Server) → ((reply k p s).conns j).sockfd ≡ (s.conns j).sockfd
unfolding reply
sockfd-reply k j p s = ground arith

pub sql-reply : (k : ℕ) (p : Packet) (s : Server) → (reply k p s).sql ≡ s.sql
unfolding reply
sql-reply k p s = refl

pub files-reply : (k : ℕ) (p : Packet) (s : Server) → (reply k p s).files ≡ s.files
unfolding reply
files-reply k p s = refl

pub conns-update_conn_self :
    (k : ℕ) (f : Conn → Conn) (s : Server) → (update_conn k f s).conns k ≡ f (s.conns k)
unfolding update_conn
conns-update_conn_self k f s = ground arith
