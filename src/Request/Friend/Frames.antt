-- ===== src/Request/Friend/Frames.antt =====
-- The tables after each handler of Request/Friend.antt.
use mathlib.Core.Option.{some-injective}
use didactic_pancake_server.Prelude.{
  Option, none, some, refl, sym, ap, ◌∙◌, ◌++◌, ◌+◌, length, crlf,
}
use didactic_pancake_server.Request.Packet.{w_data_packet, rfr, rav}
use didactic_pancake_server.Request.Server.{
  query, append_back_data, at_fd_or, send_avatar_task, avatar_path,
}
use didactic_pancake_server.Request.Server.Frames.{tables-send_avatar_task, avatar_sent}
use didactic_pancake_server.Prelude.{ℕ, Bytes, ◌≡◌, Option-cases, inl, inr}
use didactic_pancake_server.Request.Server.{Server}
use didactic_pancake_server.Request.Server.Frames.{frames, tables-at_fd}
use didactic_pancake_server.Request.Friend.{
  store_packet_sql, send_application, welcome, welcome_applicant, send_removal,
}

pub tables-send_application :
    (user tar : Bytes) (s s' : Server)
    → send_application user tar s ≡ some s'
    → s'.tables ≡ s.tables
unfolding send_application at_fd_or
tables-send_application user tar s s' h = elim (Option-cases (s.tables.userfd_mp tar)) [
  | inl e ↦
      sym (ap (λ x. x.tables) (some-injective _ s' (rw (e, send_application) at h))) ∙ simp frames
  | inr (fd, e) ↦ online fd (rw (e, send_application) at h)
]
  where
    online :
        (fd : Option ℕ)
        → at_fd_or fd
            (λ k s1.
              send_avatar_task k user
                (append_back_data k (w_data_packet rfr (length user + 2) (user ++ crlf)) s1))
            s
          ≡ some s'
        → s'.tables ≡ s.tables
    online none h = sym (ap (λ x. x.tables) (some-injective s s' h))
    online (some k) h =
        tables-send_avatar_task k user
          (append_back_data k (w_data_packet rfr (length user + 2) (user ++ crlf)) s) s' h
        ∙ simp frames

-- With the avatar of `user` in its file, the application is sent.
pub application_sent :
    (user tar image : Bytes) (s : Server)
    → s.files (avatar_path user) ≡ some image
    → (s' : Server) × (send_application user tar s ≡ some s')
unfolding send_application at_fd_or append_back_data
application_sent user tar image s found = elim (Option-cases (s.tables.userfd_mp tar)) [
  | inl e ↦ (
    query (store_packet_sql tar rav (length user) user)
        (query (store_packet_sql tar rfr (length user + 2) (user ++ crlf)) s),
    rw (e, send_application) refl,
  )
  | inr (none, e) ↦ (s, rw (e, send_application, at_fd_or) refl)
  | inr (some k, e) ↦
      let sent =
        avatar_sent k user image
          (append_back_data k (w_data_packet rfr (length user + 2) (user ++ crlf)) s) found in
      (sent.0, rw (e, send_application, at_fd_or) sent.1)
]

pub tables-welcome :
    (k : ℕ) (user s_time : Bytes) (s : Server) → (welcome k user s_time s).tables ≡ s.tables
unfolding welcome
tables-welcome k user s_time s = simp frames

pub tables-welcome_applicant :
    (user tar s_time : Bytes) (s : Server) → (welcome_applicant user tar s_time s).tables ≡ s.tables
unfolding welcome_applicant
tables-welcome_applicant user tar s_time s = elim (Option-cases (s.tables.userfd_mp tar)) [
  | inl e ↦ rw (e, welcome_applicant) (simp frames)
  | inr (fd, e) ↦
      rw (e, welcome_applicant) (tables-at_fd fd _ s (λ k. tables-welcome k user s_time s))
]

pub tables-send_removal :
    (user tar : Bytes) (s : Server) → (send_removal user tar s).tables ≡ s.tables
unfolding send_removal
tables-send_removal user tar s = elim (Option-cases (s.tables.userfd_mp tar)) [
  | inl e ↦ rw (e, send_removal) (simp frames)
  | inr (fd, e) ↦ rw (e, send_removal) (simp frames)
]
