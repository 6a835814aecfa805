-- ===== src/Request/Account/Sessions.antt =====
-- Logout, reconnection and closing: what happens to a session.
use didactic_pancake_server.Prelude.{
  ap, ℕ, Bytes, same, same_iff, same_self, assign, erase, touch, some_or, true, false, none, some,
  [], ◌++◌, length, length-append, ltb, if_rule, ◌≡◌, ◌≢◌, refl, ◌∙◌, arith, lit, crlf, inl, inr,
  Option-cases,
}
use didactic_pancake_server.Request.Packet.{rcn, w_data_packet}
use didactic_pancake_server.Request.Fields.{is_nice_session}
use didactic_pancake_server.Request.Fields.Laws.{
  scan_all-print, NoCr-is_nice_session, length-is_nice_session,
}
use didactic_pancake_server.Request.Server.{
  Server, reply, update_conn, query, touch_session, no_session, at_fd,
}
use didactic_pancake_server.Request.Server.Frames.{tables-reply}
use didactic_pancake_server.Request.Account.{
  logout, delete_session_sql, close_slot, close_conn, reconnect, reconnect_locked,
}
use didactic_pancake_server.Request.Account.Login.{IsOpen}
use didactic_pancake_server.Request.Friend.{get_friend_items}

-- What is left of a session after logout: neither its id nor its user is in the tables, and all
-- other entries are as before.
pub record IsEnded (sid user : Bytes) (s s' : Server) : Type 0 where
  pub no_id : s'.tables.session_mp sid ≡ none
  pub no_fd : s'.tables.userfd_mp user ≡ none
  pub other_ids : (k : Bytes) → k ≢ sid → s'.tables.session_mp k ≡ s.tables.session_mp k
  pub other_fds : (k : Bytes) → k ≢ user → s'.tables.userfd_mp k ≡ s.tables.userfd_mp k
  pub kept_id : (k : ℕ) → (s'.conns k).session_id ≡ (s.conns k).session_id

closed-IsEnded :
    (sid user : Bytes) (s : Server)
    → IsEnded sid user s (
        query (delete_session_sql sid) (record s {
          tables = record (s.tables) {
            userfd_mp = erase user s.tables.userfd_mp;
            session_mp = erase sid s.tables.session_mp;
          };
        }))
unfolding erase query
closed-IsEnded sid user s = record {
  no_id = rw same_self refl;
  no_fd = rw same_self refl;
  other_ids = λ k ne. ground (arith, same_iff sid k);
  other_fds = λ k ne. ground (arith, same_iff user k);
  kept_id = λ k. refl;
}

-- A connection whose session is in the tables ends it by `logout`: the id and the user's descriptor
-- are gone, and the other sessions go on. The connection itself keeps the id.
logout-IsEnded :
    (me : ℕ) (sid user : Bytes) (s : Server)
    → sid ≢ []
    → (s.conns me).session_id ≡ sid
    → s.tables.session_mp sid ≡ some user
    → IsEnded sid user s (logout me s)
unfolding logout
logout-IsEnded me sid user s open_id own named =
    rw (own, logout)
      (if_rule (IsEnded sid user s) (same sid []) (λ e. absurd (open_id ((same_iff sid []).0 e)))
        (λ e. rw (named, logout) (rw own (closed-IsEnded sid user s))))

sockfd-close_slot : (k fd : ℕ) (s : Server) → ((close_slot k fd s).conns k).sockfd ≡ none
unfolding close_slot update_conn
sockfd-close_slot k fd s = ground arith

-- `close_conn` without logout: the slot is closed, the tables and all session ids stay.
pub record IsShut (k : ℕ) (s s' : Server) : Type 0 where
  pub shut : (s'.conns k).sockfd ≡ none
  pub tables : s'.tables ≡ s.tables
  pub ids : (j : ℕ) → (s'.conns j).session_id ≡ (s.conns j).session_id
  pub others : (j : ℕ) → k ≢ j → s'.conns j ≡ s.conns j

close_slot-IsShut : (k fd : ℕ) (s : Server) → IsShut k s (close_slot k fd s)
unfolding close_slot update_conn
close_slot-IsShut k fd s = record {
  shut = ground arith;
  tables = refl;
  ids = λ j. ground arith;
  others = λ j ne. ground arith;
}

pub close_conn-IsShut : (k : ℕ) (s : Server) → IsShut k s (close_conn false k s)
unfolding close_conn
close_conn-IsShut k s = elim (Option-cases (s.conns k).sockfd) [
  | inl e ↦
      rw (e, close_conn)
        (record { shut = e; tables = refl; ids = λ j. refl; others = λ j ne. refl })
  | inr (fd, e) ↦ rw (e, close_conn) (close_slot-IsShut k fd s)
]

-- The server of `reconnect` before it closes the slot of the descriptor that was entered before.
bound : ℕ → Bytes → Bytes → Server → Server
bound me sid user s = reply me (w_data_packet rcn 3 (lit "1" ++ crlf)) (
    update_conn me (λ c. record c { session_id = sid })
      (record s {
        tables = record (s.tables) {
          userfd_mp = assign user (s.conns me).sockfd s.tables.userfd_mp;
        };
      }))

bound-IsOpen :
    (me : ℕ) (sid user : Bytes) (s : Server)
    → s.tables.session_mp sid ≡ some user
    → IsOpen sid me user (bound me sid user s)
unfolding bound reply update_conn assign
bound-IsOpen me sid user s named = record {
  own_id = ground arith;
  named = named;
  bound = ground (arith, same_self user);
}

reconnect-print :
    (me : ℕ) (sid user : Bytes) (k : ℕ) (s : Server)
    → is_nice_session sid ≡ true
    → s.tables.session_mp sid ≡ some user
    → some_or (some 0) (s.tables.userfd_mp user) ≡ some k
    → reconnect me (sid ++ crlf) s ≡ close_conn false k (bound me sid user s)
unfolding reconnect reconnect_locked at_fd bound
reconnect-print me sid user k s nice named before =
    rw (scan_all-print sid (NoCr-is_nice_session sid nice), nice)
      (if_rule (λ r. r ≡ close_conn false k (bound me sid user s)) (ltb 20 (length (sid ++ crlf)))
        (λ e. absurd (ground (arith, length-append sid crlf, length-is_nice_session sid nice)))
        (λ e. rw (named, reconnect_locked) (rw (before, at_fd) refl)))

-- A client that reconnects with the id of a session on another connection `k` takes it over: its
-- connection has the session, and `k` is closed.
pub reconnect_takes_over :
    (me : ℕ) (sid user : Bytes) (k : ℕ) (s : Server)
    → is_nice_session sid ≡ true
    → s.tables.session_mp sid ≡ some user
    → s.tables.userfd_mp user ≡ some (some k)
    → k ≢ me
    → IsOpen sid me user (reconnect me (sid ++ crlf) s)
      × (((reconnect me (sid ++ crlf) s).conns k).sockfd ≡ none)
reconnect_takes_over me sid user k s nice named held ne =
    let shut = close_conn-IsShut k (bound me sid user s) in
    let opened = bound-IsOpen me sid user s named in
    rw (reconnect-print me sid user k s nice named (rw held)) (
      record {
        own_id = shut.ids me ∙ opened.own_id;
        named = rw shut.tables opened.named;
        bound = rw (shut.tables, shut.others me ne) opened.bound;
      },
      shut.shut,
    )

-- A client that reconnects while its user has no descriptor in userfd_mp, as after a restart of the
-- server, closes the connection in slot 0, whoever has it.
reconnect_closes_slot_zero :
    (me : ℕ) (sid user : Bytes) (s : Server)
    → is_nice_session sid ≡ true
    → s.tables.session_mp sid ≡ some user
    → s.tables.userfd_mp user ≡ none
    → ((reconnect me (sid ++ crlf) s).conns 0).sockfd ≡ none
reconnect_closes_slot_zero me sid user s nice named offline =
    rw (reconnect-print me sid user 0 s nice named (rw offline))
      (close_conn-IsShut 0 (bound me sid user s)).shut

-- A client that reconnects on the connection that has its session already closes that connection.
reconnect_closes_itself :
    (me : ℕ) (sid user : Bytes) (s : Server)
    → is_nice_session sid ≡ true
    → s.tables.session_mp sid ≡ some user
    → s.tables.userfd_mp user ≡ some (some me)
    → ((reconnect me (sid ++ crlf) s).conns me).sockfd ≡ none
reconnect_closes_itself me sid user s nice named held =
    rw (reconnect-print me sid user me s nice named (rw held))
      (close_conn-IsShut me (bound me sid user s)).shut

session_mp-get_friend_items :
    (me : ℕ) (sid : Bytes) (s : Server)
    → sid ≢ []
    → (s.conns me).session_id ≡ sid
    → s.tables.session_mp sid ≡ none
    → (get_friend_items me s).tables.session_mp sid ≡ some []
unfolding get_friend_items no_session touch_session touch
session_mp-get_friend_items me sid s ne own gone =
    if_rule (λ (s' : Server). s'.tables.session_mp sid ≡ some []) (same (s.conns me).session_id [])
      (λ e. absurd (ne (ground (arith, same_iff (s.conns me).session_id []))))
      (λ e. rw (tables-reply, own, same_self, gone) refl)

-- Logout takes the id of the session out of the table. When the connection then asks for its friends,
-- that enters the id again, for the empty name; and any connection that reconnects with the id gets
-- it, and it stands for the empty name.
pub logout_leaves_session :
    (me other : ℕ) (sid user : Bytes) (k : ℕ) (s : Server)
    → is_nice_session sid ≡ true
    → sid ≢ []
    → (s.conns me).session_id ≡ sid
    → s.tables.session_mp sid ≡ some user
    → some_or (some 0) ((get_friend_items me (logout me s)).tables.userfd_mp []) ≡ some k
    → let s1 = logout me s in
      let s2 = get_friend_items me s1 in
      let s3 = reconnect other (sid ++ crlf) s2 in
      (s1.tables.session_mp sid ≡ none)
      × (s2.tables.session_mp sid ≡ some [])
      × ((s3.conns other).session_id ≡ sid)
      × (s3.tables.session_mp sid ≡ some [])
logout_leaves_session me other sid user k s nice ne own named before =
    let s1 = logout me s in
    let ended = logout-IsEnded me sid user s ne own named in
    let s2 = get_friend_items me s1 in
    let again = session_mp-get_friend_items me sid s1 ne (ended.kept_id me ∙ own) ended.no_id in
    let shut = close_conn-IsShut k (bound other sid [] s2) in
    let opened = bound-IsOpen other sid [] s2 again in
    (
      ended.no_id,
      again,
      rw (reconnect-print other sid [] k s2 nice again before) (shut.ids other ∙ opened.own_id),
      rw (reconnect-print other sid [] k s2 nice again before)
          (ap (λ t. t.session_mp sid) shut.tables ∙ opened.named),
    )
