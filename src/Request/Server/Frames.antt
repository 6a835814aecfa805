-- ===== src/Request/Server/Frames.antt =====
-- What the shared operations of the handlers leave alone.
use mathlib.Core.Option.{some-injective}
use didactic_pancake_server.Prelude.{
  Bytes, Option-cases, some, inl, inr, crlf, ◌++◌, ◌+◌, length, ap, sym, ◌∙◌,
}
use didactic_pancake_server.Request.Packet.{w_data_packet, rav}
use didactic_pancake_server.Prelude.{ℕ, Bytes, ◌≡◌, refl, Option, none, some}
use didactic_pancake_server.Request.Packet.{Packet}
use didactic_pancake_server.Request.Server.{
  Server, Conn, reply, reply_fd, append_back_data, append_task, query, at_fd, send_avatar,
  send_avatar_task, avatar_path, update_conn,
}

pub tables-reply : (k : ℕ) (p : Packet) (s : Server) → (reply k p s).tables ≡ s.tables
unfolding reply
tables-reply k p s = refl

pub tables-append_back_data :
    (k : ℕ) (p : Packet) (s : Server) → (append_back_data k p s).tables ≡ s.tables
unfolding append_back_data
tables-append_back_data k p s = refl

pub tables-append_task : (k mode : ℕ) (s : Server) → (append_task k mode s).tables ≡ s.tables
unfolding append_task
tables-append_task k mode s = refl

pub tables-query : (text : Bytes) (s : Server) → (query text s).tables ≡ s.tables
unfolding query
tables-query text s = refl

pub tables-update_conn :
    (k : ℕ) (f : Conn → Conn) (s : Server) → (update_conn k f s).tables ≡ s.tables
unfolding update_conn
tables-update_conn k f s = refl

pub tables-send_avatar :
    (k : ℕ) (owner : Bytes) (s s' : Server) → send_avatar k owner s ≡ some s' → s'.tables ≡ s.tables
unfolding send_avatar
tables-send_avatar k owner s s' e = elim (Option-cases (s.files (avatar_path owner))) [
  | inl missing ↦ absurd (cc (rw (missing, send_avatar) at e))
  | inr (image, found) ↦ sym (
      ap (λ x. x.tables)
        (some-injective
          (append_back_data k
            (w_data_packet rav (length owner + 2 + length image) (owner ++ (crlf ++ image))) s)
          s' (rw (found, send_avatar) at e)))
]

pub tables-send_avatar_task :
    (k : ℕ) (owner : Bytes) (s s' : Server)
    → send_avatar_task k owner s ≡ some s'
    → s'.tables ≡ s.tables
unfolding send_avatar_task
tables-send_avatar_task k owner s s' e = elim (Option-cases (send_avatar k owner s)) [
  | inl missing ↦ absurd (cc (rw (missing, send_avatar_task) at e))
  | inr (s1, found) ↦
      sym (
        ap (λ x. x.tables)
          (some-injective (append_task k 1 s1) s' (rw (found, send_avatar_task) at e)))
      ∙ tables-send_avatar k owner s s1 found
]

-- With its file, the avatar is sent.
pub avatar_sent :
    (k : ℕ) (owner image : Bytes) (s : Server)
    → s.files (avatar_path owner) ≡ some image
    → (s' : Server) × (send_avatar_task k owner s ≡ some s')
unfolding send_avatar_task send_avatar
avatar_sent k owner image s found =
    let s1 =
      append_back_data k
        (w_data_packet rav (length owner + 2 + length image) (owner ++ (crlf ++ image))) s in
    (append_task k 1 s1, rw (found, send_avatar_task, send_avatar) refl)

pub tables-at_fd :
    (fd : Option ℕ) (f : ℕ → Server → Server) (s : Server)
    → ((k : ℕ) → (f k s).tables ≡ s.tables)
    → (at_fd fd f s).tables ≡ s.tables
unfolding at_fd
tables-at_fd none f s h = refl
tables-at_fd (some k) f s h = h k

pub tables-reply_fd :
    (fd : Option ℕ) (p : Packet) (s : Server) → (reply_fd fd p s).tables ≡ s.tables
unfolding reply_fd
tables-reply_fd none p s = refl
tables-reply_fd (some k) p s = refl

-- The operations that leave the tables alone.
pub ruleset frames = (
  tables-reply, tables-append_back_data, tables-append_task, tables-query, tables-update_conn,
  tables-reply_fd,
)
