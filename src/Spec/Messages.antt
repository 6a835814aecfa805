-- ===== src/Spec/Messages.antt =====
-- The handlers of Request/Message.antt make steps of the specification: they change no table but
-- for operator[] on sessionID_mp.
use mathlib.Core.Option.{some-injective}
use didactic_pancake_server.Prelude.{lit, sym, ap}
use didactic_pancake_server.Spec.Returns.{Returned, Returned-some, Returned-none}
use didactic_pancake_server.Request.Message.{select_packets_sql}
use didactic_pancake_server.Request.Packet.{w_data_packet}
use didactic_pancake_server.Request.Server.{query, touch_session, append_back_data}
use didactic_pancake_server.Request.Server.Frames.{tables-send_avatar}
use didactic_pancake_server.Prelude.{
  if_rule, ℕ, Bytes, same, contains, is_some, not, ◌==◌, Option, some, ◌≡◌, refl, ◌∙◌, Option-cases,
  inl, inr, List, [], ◌∷◌,
}
use didactic_pancake_server.Request.Packet.{Packet, rav, code_of}
use didactic_pancake_server.Request.Fields.{Message, scan_message, is_nice}
use didactic_pancake_server.Request.Server.{Server, Inputs, Row, username, no_session}
use didactic_pancake_server.Request.Server.Frames.{frames}
use didactic_pancake_server.Request.Message.{
  deliver_message, send_message_locked, send_parsed, send_message, send_row, send_rows,
  client_ready, send_new_avatar, send_new_avatars, change_avatar,
}
use didactic_pancake_server.Spec.{stay, Runs}
use didactic_pancake_server.Spec.Friends.{touch_session-Runs}

tables-deliver_message :
    (s_time user tar content : Bytes) (s : Server)
    → (deliver_message s_time user tar content s).tables ≡ s.tables
unfolding deliver_message
tables-deliver_message s_time user tar content s = elim (Option-cases (s.tables.userfd_mp tar)) [
  | inl e ↦ rw (e, deliver_message) (simp frames)
  | inr (fd, e) ↦ rw (e, deliver_message) (simp frames)
]

pub tables-send_message_locked :
    (s_time : Bytes) (me : ℕ) (user : Bytes) (m : Message) (s : Server)
    → (send_message_locked s_time me user m s).tables ≡ s.tables
unfolding send_message_locked
tables-send_message_locked s_time me user m s =
    let P : Server → Type 0 = λ s'. s'.tables ≡ s.tables in
    if_rule P (not (is_some (s.tables.user_mp m.tar_user))) (λ e. simp frames)
      λ e.
        if_rule P (contains user (s.tables.friend_mp m.tar_user))
          (λ e. simp (frames, tables-deliver_message)) (λ e. simp frames)

send_parsed-Runs :
    (env : Inputs) (me : ℕ) (m : Message) (s : Server) → Runs s (send_parsed env me m s)
unfolding send_parsed
send_parsed-Runs env me m s =
    let P : Server → Type 0 = Runs s in
    if_rule P (not (is_nice m.tar_user)) (λ e. simp frames stay)
      λ e.
        if_rule P (same m.tar_user (username me s)) (λ e. simp frames (touch_session-Runs me s))
          λ e. rw tables-send_message_locked (touch_session-Runs me s)

pub send_message-Runs :
    (env : Inputs) (me : ℕ) (content : Bytes) (s : Server)
    → Returned s (send_message env me content s)
unfolding send_message
send_message-Runs env me content s =
    let P : Option Server → Type 0 = Returned s in
    if_rule P (no_session me s) (λ e. Returned-some s _ (simp frames stay))
      λ e. elim (Option-cases (scan_message 0 content)) [
        | inl e' ↦ rw (e', send_message) (Returned-none s)
        | inr (m, e') ↦ rw (e', send_message) (Returned-some s _ (send_parsed-Runs env me m s))
      ]

tables-send_row :
    (me : ℕ) (r : Row) (s s' : Server) → send_row me r s ≡ some s' → s'.tables ≡ s.tables
unfolding send_row
tables-send_row me r s s' =
    let P : Option Server → Type 0 = λ o. o ≡ some s' → s'.tables ≡ s.tables in
    let stored = append_back_data me (w_data_packet r.category r.content_len r.content) s in
    if_rule P (code_of r.category == code_of rav) (λ e. tables-send_avatar me r.content s s')
      (λ e h. sym (ap (λ x. x.tables) (some-injective stored s' h)) ∙ simp frames)

tables-send_rows :
    (me : ℕ) (rows : List Row) (s s' : Server)
    → send_rows me rows s ≡ some s'
    → s'.tables ≡ s.tables
unfolding send_rows
tables-send_rows me [] s s' h = sym (ap (λ x. x.tables) (some-injective s s' h))
tables-send_rows me (r ∷ rows) s s' h = elim (Option-cases (send_row me r s)) [
  | inl e ↦ absurd (cc (rw (e, send_rows) at h))
  | inr (s1, e) ↦
      tables-send_rows me rows s1 s' (rw (e, send_rows) at h) ∙ tables-send_row me r s s1 e
]

pub client_ready-Runs : (env : Inputs) (me : ℕ) (s : Server) → Returned s (client_ready env me s)
unfolding client_ready
client_ready-Runs env me s =
    let P : Option Server → Type 0 = Returned s in
    let rows = env.select (select_packets_sql (username me s)) in
    let s0 = query (lit "set names utf8") (touch_session me s) in
    if_rule P (no_session me s) (λ e. Returned-some s _ (simp frames stay))
      (λ e. elim (Option-cases (send_rows me rows s0)) [
        | inl e1 ↦ rw (e1, client_ready) (Returned-none s)
        | inr (s1, e1) ↦
            rw (e1, client_ready)
              (Returned-some s _ (
                simp frames
                  (rw (tables-send_rows me rows s0 s1 e1) (simp frames (touch_session-Runs me s)))))
      ])

tables-send_new_avatar :
    (user : Bytes) (pack : Packet) (tar : Bytes) (s : Server)
    → (send_new_avatar user pack tar s).tables ≡ s.tables
unfolding send_new_avatar
tables-send_new_avatar user pack tar s = elim (Option-cases (s.tables.userfd_mp tar)) [
  | inl e ↦ rw (e, send_new_avatar) (simp frames)
  | inr (fd, e) ↦ rw (e, send_new_avatar) (simp frames)
]

tables-send_new_avatars :
    (user : Bytes) (pack : Packet) (tars : List Bytes) (s : Server)
    → (send_new_avatars user pack tars s).tables ≡ s.tables
unfolding send_new_avatars
tables-send_new_avatars user pack [] s = refl
tables-send_new_avatars user pack (tar ∷ tars) s =
    tables-send_new_avatars user pack tars (send_new_avatar user pack tar s)
    ∙ tables-send_new_avatar user pack tar s

pub change_avatar-Runs :
    (me : ℕ) (content : Bytes) (s : Server) → Runs s (change_avatar me content s)
unfolding change_avatar
change_avatar-Runs me content s =
    let P : Server → Type 0 = Runs s in
    if_rule P (no_session me s) (λ e. simp frames stay)
      (λ e. simp (frames, tables-send_new_avatars) (touch_session-Runs me s))
