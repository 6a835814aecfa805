-- ===== src/Request/Friend/Laws.antt =====
-- How two users become friends, and stop being friends.
use didactic_pancake_server.Prelude.{some, lit, crlf, ◌++◌}
use didactic_pancake_server.Request.Packet.{w_data_packet, adf}
use didactic_pancake_server.Request.Server.{reply, avatar_path}
use didactic_pancake_server.Request.Server.Conns.{files-reply}
use didactic_pancake_server.Request.Friend.Frames.{application_sent}
use didactic_pancake_server.Prelude.{
  ℕ, Bytes, same_self, contains, insert_at, remove_at, contains-insert_at, contains-remove_at,
  is_some, true, false, ◌≡◌, refl, ◌∙◌, arith, List,
}
use didactic_pancake_server.Request.Server.{Server, Tables}
use didactic_pancake_server.Request.Server.Frames.{tables-reply}
use didactic_pancake_server.Request.Friend.{
  add_friend_locked, reply_friend_locked, accept_friend, drop_application, delete_friend_locked,
}
use didactic_pancake_server.Request.Friend.Frames.{
  tables-send_application, tables-welcome, tables-welcome_applicant, tables-send_removal,
}

-- The tables after an application that is recorded, an acceptance, and a removal.
asked : Bytes → Bytes → Tables → Tables
asked user tar t = record t { frireq_mp = insert_at tar user t.frireq_mp }

-- With the avatar of `user` in its file, the application is recorded.
tables-add_friend_locked :
    (me : ℕ) (user tar image : Bytes) (s : Server)
    → s.files (avatar_path user) ≡ some image
    → is_some (s.tables.user_mp tar) ≡ true
    → contains user (s.tables.friend_mp tar) ≡ false
    → contains user (s.tables.frireq_mp tar) ≡ false
    → contains tar (s.tables.frireq_mp user) ≡ false
    → (s1 : Server) × (add_friend_locked me user tar s ≡ some s1)
      × (s1.tables ≡ asked user tar s.tables)
unfolding add_friend_locked asked
tables-add_friend_locked me user tar image s found known strangers fresh unasked =
    let t = s.tables in
    let recorded =
      reply me (w_data_packet adf 3 (lit "1" ++ crlf))
        (record s { tables = record t { frireq_mp = insert_at tar user t.frireq_mp } }) in
    let sent = application_sent user tar image recorded (rw files-reply found) in
    (
      sent.0,
      rw (known, strangers, fresh, unasked) sent.1,
      tables-send_application user tar recorded sent.0 sent.1 ∙ rw tables-reply refl,
    )

befriended : Bytes → Bytes → Tables → Tables
befriended user tar t = record t {
  friend_mp = insert_at tar user (insert_at user tar t.friend_mp);
  frireq_mp = remove_at user tar t.frireq_mp;
}

tables-reply_friend_locked :
    (s_time : Bytes) (me : ℕ) (user tar : Bytes) (s : Server)
    → contains tar (s.tables.frireq_mp user) ≡ true
    → contains tar (s.tables.friend_mp user) ≡ false
    → (reply_friend_locked s_time me user tar 49 s).tables ≡ befriended user tar s.tables
unfolding reply_friend_locked drop_application accept_friend befriended
tables-reply_friend_locked s_time me user tar s applied strangers =
    rw (applied, strangers) (rw (tables-welcome_applicant, tables-welcome) refl)

-- `user`, who has an avatar in its file, asks `tar`, an account that is no friend and with which no
-- application is open, and `tar` accepts: the first handler returns, and behind the second both are
-- friends of one another, and the application is gone.
pub ask_then_accept :
    (s_time : Bytes) (me me' : ℕ) (user tar image : Bytes) (s : Server)
    → s.files (avatar_path user) ≡ some image
    → is_some (s.tables.user_mp tar) ≡ true
    → contains user (s.tables.friend_mp tar) ≡ false
    → contains user (s.tables.frireq_mp tar) ≡ false
    → contains tar (s.tables.frireq_mp user) ≡ false
    → (s1 : Server) × (add_friend_locked me user tar s ≡ some s1)
      × (let t = (reply_friend_locked s_time me' tar user 49 s1).tables in
          (contains user (t.friend_mp tar) ≡ true)
          × (contains tar (t.friend_mp user) ≡ true)
          × (contains user (t.frireq_mp tar) ≡ false))
ask_then_accept s_time me me' user tar image s found known strangers fresh unasked =
    let (s1, runs, step1) =
      tables-add_friend_locked me user tar image s found known strangers fresh unasked in
    (s1, runs, accepted s1 step1)
  where
    t0 : Tables
    t0 = s.tables

    became :
        (contains user ((befriended tar user (asked user tar t0)).friend_mp tar) ≡ true)
        × (contains tar ((befriended tar user (asked user tar t0)).friend_mp user) ≡ true)
        × (contains user ((befriended tar user (asked user tar t0)).frireq_mp tar) ≡ false)
    became =
        unfold befriended asked in
        (
          rw contains-insert_at (rw contains-insert_at (rw (same_self, same_self) (ground arith))),
          rw contains-insert_at (rw (same_self, same_self) (ground arith)),
          rw contains-remove_at (rw (same_self, same_self) refl),
        )

    accepted :
        (s1 : Server)
        → s1.tables ≡ asked user tar t0
        → (contains user ((reply_friend_locked s_time me' tar user 49 s1).tables.friend_mp tar)
            ≡ true)
          × (contains tar ((reply_friend_locked s_time me' tar user 49 s1).tables.friend_mp user)
              ≡ true)
          × (contains user ((reply_friend_locked s_time me' tar user 49 s1).tables.frireq_mp tar)
              ≡ false)
    accepted s1 step1 =
        let applied : contains user (s1.tables.frireq_mp tar) ≡ true =
          rw step1 (unfold asked in rw contains-insert_at (rw (same_self, same_self) refl)) in
        let still : contains user (s1.tables.friend_mp tar) ≡ false =
          rw step1 (unfold asked in strangers) in
        let final : (reply_friend_locked s_time me' tar user 49 s1).tables
            ≡ befriended tar user (asked user tar t0) =
          tables-reply_friend_locked s_time me' tar user s1 applied still ∙ rw step1 in
        rw final (became.0, became.1, became.2)

-- After `delete_friend` neither is a friend of the other.
delete_friend_locked_lem :
    (me : ℕ) (user tar : Bytes) (s : Server)
    → contains tar (s.tables.friend_mp user) ≡ true
    → let t = (delete_friend_locked me user tar s).tables in
      (contains tar (t.friend_mp user) ≡ false) × (contains user (t.friend_mp tar) ≡ false)
unfolding delete_friend_locked
delete_friend_locked_lem me user tar s friends =
    rw friends (rw (tables-send_removal, tables-reply) (gone_0, gone_1))
  where
    m : Bytes → List Bytes
    m = remove_at tar user (remove_at user tar s.tables.friend_mp)

    gone_0 : contains tar (m user) ≡ false
    gone_0 =
        rw contains-remove_at (rw contains-remove_at (rw (same_self, same_self) (ground arith)))

    gone_1 : contains user (m tar) ≡ false
    gone_1 = rw contains-remove_at (rw (same_self, same_self) refl)
