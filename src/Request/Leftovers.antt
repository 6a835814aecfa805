-- ===== src/Request/Leftovers.antt =====
-- request/request_process.cpp: close_conn and init on one element of m_users, and its m_datas.
use didactic_pancake_server.Prelude.{
  ℕ, Bool, false, Bool-cases, none, some, inl, inr, Option-cases, List, [], ◌++◌, same, ◌≡◌, refl,
  ap, ◌∙◌,
}
use didactic_pancake_server.Request.Server.{Conn, Server, query}
use didactic_pancake_server.Request.Server.Conns.{conns-update_conn_self}
use didactic_pancake_server.Request.Account.{close_conn, close_slot, logout, init_conn}
use didactic_pancake_server.Request.Writer.{Send, write, pending_all, write-pending_all}

conns-logout : (me : ℕ) (s : Server) → (logout me s).conns ≡ s.conns
unfolding logout query
conns-logout me s = elim (Bool-cases (same (s.conns me).session_id [])) [
  | inl e ↦ rw (logout, e) refl
  | inr e ↦ elim (Option-cases (s.tables.session_mp (s.conns me).session_id)) [
    | inl unknown ↦ rw (logout, e, unknown) refl
    | inr (user, known) ↦ rw (logout, e, known) refl
  ]
]

abbrev closed : Conn → Conn
closed c = record c { sockfd = none }

abbrev accepted : ℕ → Conn → Conn
accepted fd c = record c { sockfd = some fd; session_id = []; is_process_write = false }

datas-close_slot : (k fd : ℕ) (s : Server) → ((close_slot k fd s).conns k).datas ≡ (s.conns k).datas
unfolding close_slot
datas-close_slot k fd s = ap (λ c. c.datas) (conns-update_conn_self k closed s)

datas-close_conn :
    (want : Bool) (k : ℕ) (s : Server) → ((close_conn want k s).conns k).datas ≡ (s.conns k).datas
unfolding close_conn
datas-close_conn want k s = elim (Option-cases (s.conns k).sockfd) [
  | inl e ↦ rw (close_conn, e) refl
  | inr (fd, e) ↦ elim (Bool-cases want) [
    | inl on ↦
        rw (close_conn, e, on)
          (ap (λ cs. (cs k).datas) (conns-logout k (close_slot k fd s)) ∙ datas-close_slot k fd s)
    | inr off ↦ rw (close_conn, e, off) (datas-close_slot k fd s)
  ]
]

datas-init_conn : (k fd : ℕ) (s : Server) → ((init_conn k fd s).conns k).datas ≡ (s.conns k).datas
unfolding init_conn
datas-init_conn k fd s = ap (λ c. c.datas) (conns-update_conn_self k (accepted fd) s)

-- The packets that a connection has not sent when it is closed go to the next client on its
-- descriptor: what write sends to that client, whatever send returns, and what is then left to send
-- are together the bytes that the closed connection had left to send.
pub leftovers_go_on :
    (want : Bool) (k fd : ℕ) (outs : List Send) (s : Server)
    → (write outs ((init_conn k fd (close_conn want k s)).conns k).datas).stream
        ++ pending_all (write outs ((init_conn k fd (close_conn want k s)).conns k).datas).datas
      ≡ pending_all (s.conns k).datas
leftovers_go_on want k fd outs s =
    write-pending_all outs ((init_conn k fd (close_conn want k s)).conns k).datas
    ∙ ap pending_all (datas-init_conn k fd (close_conn want k s) ∙ datas-close_conn want k s)
