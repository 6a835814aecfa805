-- ===== src/Spec/Accounts.antt =====
-- The handlers of Request/Account.antt make steps of the specification.
use didactic_pancake_server.Spec.Returns.{Returned, Returned-some, Returned-none}
use didactic_pancake_server.Prelude.{
  if_rule, ℕ, Bytes, same, not, length, ltb, Bool, true, false, Option, none, some, ◌≡◌, arith,
  Option-cases, inl, inr, ◌&&◌, [],
}
use didactic_pancake_server.Request.Server.{Server, Inputs, at_fd}
use didactic_pancake_server.Request.Server.Frames.{frames, tables-reply}
use didactic_pancake_server.Request.Fields.{scan_credentials, scan_all, is_nice, is_nice_session}
use didactic_pancake_server.Request.Account
use didactic_pancake_server.Request.Account.{
  heartbeat, login, login_locked, regis, regis_locked, logout, close_slot, close_conn, reconnect,
  reconnect_locked, new_session_id,
}
use didactic_pancake_server.Spec.{
  stay, one, Steps-trans, Runs, create_user, open_session, close_session, move_session,
}

pub heartbeat-Runs : (me : ℕ) (content : Bytes) (s : Server) → Runs s (heartbeat me content s)
unfolding heartbeat
heartbeat-Runs me content s = simp frames stay

and_left : (a b : Bool) → not (a && b) ≡ false → a ≡ true
and_left a b h = ground arith

and_right : (a b : Bool) → not (a && b) ≡ false → b ≡ true
and_right a b h = ground arith

open_session-Runs :
    (sid : Bytes) (me : ℕ) (user password : Bytes) (s : Server)
    → s.tables.user_mp user ≡ some password
    → s.tables.userfd_mp user ≡ none
    → Runs s (Account.open_session sid me user s)
unfolding Account.open_session
open_session-Runs sid me user password s known offline =
    rw tables-reply (one (open_session s.tables sid user password _ known offline))

pub login_locked-Runs :
    (id : Option Bytes) (me : ℕ) (user password : Bytes) (s : Server)
    → Returned s (login_locked id me user password s)
unfolding login_locked
login_locked-Runs id me user password s = elim (Option-cases (s.tables.user_mp user)) [
  | inl unknown ↦ rw (unknown, login_locked) (Returned-some s _ (simp frames stay))
  | inr (stored, known) ↦
      rw (known, login_locked)
        (let P : Option Server → Type 0 = Returned s in
          if_rule P (not (same stored password)) (λ e. Returned-some s _ (simp frames stay))
            λ right. elim (Option-cases (s.tables.userfd_mp user)) [
              | inl offline ↦ rw (offline, login_locked) (opened id stored known offline)
              | inr (fd, online) ↦ rw (online, login_locked) (Returned-some s _ (simp frames stay))
            ])
]
  where
    opened :
        (o : Option Bytes) (stored : Bytes)
        → s.tables.user_mp user ≡ some stored
        → s.tables.userfd_mp user ≡ none
        → Returned s (elim o [ none ↦ none | some sid ↦ some (Account.open_session sid me user s) ])
    opened none stored known offline = Returned-none s
    opened (some sid) stored known offline =
        Returned-some s _ (open_session-Runs sid me user stored s known offline)

pub login-Runs :
    (env : Inputs) (me : ℕ) (content : Bytes) (s : Server) → Returned s (login env me content s)
unfolding login
login-Runs env me content s =
    let P : Option Server → Type 0 = Returned s in
    let r = scan_credentials 0 content in
    if_rule P (ltb 36 (length content)) (λ e. Returned-some s _ (simp frames stay))
      λ e.
        if_rule P (not (is_nice r.tar_user && is_nice r.password))
          (λ e. Returned-some s _ (simp frames stay)) λ e. login_locked-Runs _ me _ _ s

pub regis_locked-Runs :
    (me : ℕ) (user password : Bytes) (s : Server)
    → is_nice user ≡ true
    → is_nice password ≡ true
    → Runs s (regis_locked me user password s)
unfolding regis_locked
regis_locked-Runs me user password s nice strong = elim (Option-cases (s.tables.user_mp user)) [
  | inl free ↦
      rw (free, regis_locked)
        (rw tables-reply (one (create_user s.tables user password nice strong free)))
  | inr (stored, taken) ↦ rw (taken, regis_locked) (simp frames stay)
]

pub regis-Runs : (me : ℕ) (content : Bytes) (s : Server) → Runs s (regis me content s)
unfolding regis
regis-Runs me content s =
    let P : Server → Type 0 = Runs s in
    let r = scan_credentials 0 content in
    if_rule P (ltb 36 (length content)) (λ e. simp frames stay)
      λ e.
        if_rule P (not (is_nice r.tar_user && is_nice r.password)) (λ e. simp frames stay)
          λ e. regis_locked-Runs me _ _ s (and_left _ _ e) (and_right _ _ e)

pub logout-Runs : (me : ℕ) (s : Server) → Runs s (logout me s)
unfolding logout
logout-Runs me s =
    let P : Server → Type 0 = Runs s in
    let sid = (s.conns me).session_id in
    if_rule P (same sid []) (λ e. stay)
      λ e. elim (Option-cases (s.tables.session_mp sid)) [
        | inl none_open ↦ rw (none_open, logout) stay
        | inr (user, e') ↦ rw (e', logout) (one (close_session s.tables sid user e'))
      ]

close_slot-Runs : (k fd : ℕ) (s : Server) → Runs s (close_slot k fd s)
unfolding close_slot
close_slot-Runs k fd s = stay

pub close_conn-Runs : (want : Bool) (k : ℕ) (s : Server) → Runs s (close_conn want k s)
unfolding close_conn
close_conn-Runs want k s = elim (Option-cases (s.conns k).sockfd) [
  | inl e ↦ rw (e, close_conn) stay
  | inr (fd, e) ↦
      rw (e, close_conn)
        (let P : Server → Type 0 = Runs s in
          if_rule P want
            (λ e'. Steps-trans (close_slot-Runs k fd s) (logout-Runs k (close_slot k fd s)))
            (λ e'. close_slot-Runs k fd s))
]

pub reconnect_locked-Runs :
    (me : ℕ) (sid : Bytes) (s : Server) → Runs s (reconnect_locked me sid s).1
unfolding reconnect_locked
reconnect_locked-Runs me sid s = elim (Option-cases (s.tables.session_mp sid)) [
  | inl e ↦ rw (e, reconnect_locked) (simp frames stay)
  | inr (user, e) ↦
      rw (e, reconnect_locked) (rw tables-reply (one (move_session s.tables sid user _ e)))
]

at_fd-Runs :
    (fd : Option ℕ) (f : ℕ → Server → Server) (s : Server)
    → ((k : ℕ) → Runs s (f k s))
    → Runs s (at_fd fd f s)
unfolding at_fd
at_fd-Runs none f s h = stay
at_fd-Runs (some k) f s h = h k

pub reconnect-Runs : (me : ℕ) (content : Bytes) (s : Server) → Runs s (reconnect me content s)
unfolding reconnect
reconnect-Runs me content s =
    let P : Server → Type 0 = Runs s in
    let sid = scan_all content in
    if_rule P (ltb 20 (length content)) (λ e. simp frames stay)
      λ e.
        if_rule P (not (is_nice_session sid)) (λ e. simp frames stay)
          λ e.
            Steps-trans (reconnect_locked-Runs me sid s)
              (at_fd-Runs _ _ _ (λ k. close_conn-Runs false k _))
