-- ===== src/Request/Account/Login.antt =====
-- Registration and login: what a client can rely on.
use didactic_pancake_server.Prelude.{Option, get_or, ◌<◌, ◌==◌, ◌+◌, ◌*◌, ◌%◌, to_string}
use didactic_pancake_server.Prelude.{
  ℕ, Bytes, same, same_iff, same_self, assign, true, false, not, none, some, ◌++◌, length-append,
  if_rule, ◌≡◌, ◌≢◌, refl, arith, crlf, ◌⊎◌, inl, inr, Option-cases,
}
use didactic_pancake_server.Request.Packet.{Packet}
use didactic_pancake_server.Request.Fields.{is_nice}
use didactic_pancake_server.Request.Fields.Laws.{
  print_credentials, scan_credentials-print, NoCr-is_nice, length-is_nice,
}
use didactic_pancake_server.Request.Server.{Server, Inputs, reply, update_conn, query}
use didactic_pancake_server.Request.Server.Conns.{session_id-reply}
use didactic_pancake_server.Request.Server.Frames.{tables-reply}
use didactic_pancake_server.Request.Account.{
  login, login_locked, open_session, regis, regis_locked, new_session_id,
}

-- A session of `user` under `sid` on the connection `me`.
pub record IsOpen (sid : Bytes) (me : ℕ) (user : Bytes) (s : Server) : Type 0 where
  pub own_id : (s.conns me).session_id ≡ sid
  pub named : s.tables.session_mp sid ≡ some user
  pub bound : s.tables.userfd_mp user ≡ some (s.conns me).sockfd

open_session-IsOpen :
    (sid : Bytes) (me : ℕ) (user : Bytes) (s : Server)
    → IsOpen sid me user (open_session sid me user s)
unfolding open_session update_conn reply assign query
open_session-IsOpen sid me user s = record {
  own_id = ground arith;
  named = ground (arith, same_self sid);
  bound = ground (arith, same_self user);
}

-- With the right password, and while nobody is logged in as the user, `login` opens the session; the
-- connection then acts as that user.
pub login_locked-IsOpen :
    (sid : Bytes) (me : ℕ) (user password : Bytes) (s : Server)
    → s.tables.user_mp user ≡ some password
    → s.tables.userfd_mp user ≡ none
    → (s' : Server) × (login_locked (some sid) me user password s ≡ some s') × IsOpen sid me user s'
unfolding login_locked
login_locked-IsOpen sid me user password s known offline =
    let right : not (same password password) ≡ false = rw same_self refl in
    (
      open_session sid me user s,
      rw (known, login_locked, right, offline) refl,
      open_session-IsOpen sid me user s,
    )

-- The session ids of all connections, and the tables, are as before.
pub record Unmoved (s s' : Server) : Type 0 where
  pub tables : s'.tables ≡ s.tables
  pub ids : (j : ℕ) → (s'.conns j).session_id ≡ (s.conns j).session_id

reply-Unmoved : (me : ℕ) (p : Packet) (s : Server) → Unmoved s (reply me p s)
reply-Unmoved me p s = record { tables = tables-reply me p s; ids = λ j. session_id-reply me j p s }

-- A handler that returns and moves nothing.
abbrev pub IsStill : Server → Option Server → Type 0
IsStill s o = (s' : Server) × (o ≡ some s') × Unmoved s s'

reply-IsStill : (me : ℕ) (p : Packet) (s : Server) → IsStill s (some (reply me p s))
reply-IsStill me p s = (reply me p s, refl, reply-Unmoved me p s)

-- With a name that is unknown, with a wrong password, or while somebody is logged in as the user,
-- `login` returns and opens no session.
pub login_locked-Unmoved :
    (id : Option Bytes) (me : ℕ) (user password : Bytes) (s : Server)
    → (s.tables.user_mp user ≢ some password) ⊎ (s.tables.userfd_mp user ≢ none)
    → (s' : Server) × (login_locked id me user password s ≡ some s') × Unmoved s s'
unfolding login_locked
login_locked-Unmoved id me user password s wrong = elim (Option-cases (s.tables.user_mp user)) [
  | inl e ↦ rw (e, login_locked) (reply-IsStill me _ s)
  | inr (stored, e) ↦
      rw (e, login_locked)
        (if_rule (IsStill s) (not (same stored password)) (λ e1. reply-IsStill me _ s)
          (λ e1. elim (Option-cases (s.tables.userfd_mp user)) [
            | inl e2 ↦ absurd (ground (arith, same_iff stored password))
            | inr (fd, e2) ↦ rw (e2, login_locked) (reply-IsStill me _ s)
          ]))
]

-- What the two handlers read from the two lines of a client.
login-print :
    (env : Inputs) (me : ℕ) (user password : Bytes) (s : Server)
    → is_nice user ≡ true
    → is_nice password ≡ true
    → login env me (print_credentials user password) s
      ≡ login_locked (new_session_id env) me user password s
unfolding login
login-print env me user password s n m =
    rw (scan_credentials-print user password (NoCr-is_nice user n) (NoCr-is_nice password m)) (
      ground (
        arith,
        length-append user (crlf ++ (password ++ crlf)),
        length-append password crlf,
        length-is_nice user n,
        length-is_nice password m,
      ))

regis-print :
    (me : ℕ) (user password : Bytes) (s : Server)
    → is_nice user ≡ true
    → is_nice password ≡ true
    → regis me (print_credentials user password) s ≡ regis_locked me user password s
unfolding regis
regis-print me user password s n m =
    rw (scan_credentials-print user password (NoCr-is_nice user n) (NoCr-is_nice password m)) (
      ground (
        arith,
        length-append user (crlf ++ (password ++ crlf)),
        length-append password crlf,
        length-is_nice user n,
        length-is_nice password m,
      ))

user_mp-regis_locked :
    (me : ℕ) (user password : Bytes) (s : Server)
    → s.tables.user_mp user ≡ none
    → (regis_locked me user password s).tables.user_mp user ≡ some password
unfolding regis_locked assign
user_mp-regis_locked me user password s free =
    rw (free, regis_locked) (rw (tables-reply, same_self) refl)

userfd_mp-regis_locked :
    (me : ℕ) (user password name : Bytes) (s : Server)
    → (regis_locked me user password s).tables.userfd_mp name ≡ s.tables.userfd_mp name
unfolding regis_locked
userfd_mp-regis_locked me user password name s = elim (Option-cases (s.tables.user_mp user)) [
  | inl e ↦ rw (e, regis_locked) (rw tables-reply refl)
  | inr (p, e) ↦ rw (e, regis_locked) (rw tables-reply refl)
]

new_session_id-some :
    (env : Inputs) → 0 < get_or env.rands 0 0 → (sid : Bytes) × (new_session_id env ≡ some sid)
unfolding new_session_id
new_session_id-some env positive =
    let r = get_or env.rands 0 0 in
    let off : (r == 0) ≡ false = ground arith in
    (to_string (env.cur_time * 1000000 + env.cur_time % r % 1000000), rw off refl)

-- A client that registers a free name with a password, both 1 to 16 digits and letters, and then
-- logs in with them, when the next value of rand() is not 0, gets a session of that name: from the
-- bytes of the two packets to the tables.
pub register_then_login :
    (env : Inputs) (me me' : ℕ) (user password : Bytes) (s : Server)
    → is_nice user ≡ true
    → is_nice password ≡ true
    → s.tables.user_mp user ≡ none
    → s.tables.userfd_mp user ≡ none
    → 0 < get_or env.rands 0 0
    → (sid : Bytes) × (s' : Server) × (login env me'
          (print_credentials user password)
          (regis me (print_credentials user password) s)
        ≡ some s')
      × IsOpen sid me' user s'
register_then_login env me me' user password s n m free offline positive =
    let (sid, drawn) = new_session_id-some env positive in
    let s1 = regis_locked me user password s in
    let (s', runs, is_open) =
      login_locked-IsOpen sid me' user password s1 (user_mp-regis_locked me user password s free)
        (rw userfd_mp-regis_locked offline) in
    (
      sid,
      s',
      rw (regis-print me user password s n m, login-print env me' user password s1 n m, drawn) runs,
      is_open,
    )
