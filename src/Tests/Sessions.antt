-- ===== src/Tests/Sessions.antt =====
-- The theorems about accounts, sessions and friends, at the sample server.
use didactic_pancake_server.Request.Server.{Server}
use didactic_pancake_server.Prelude.{
  Bytes, ◌∷◌, same, assign, erase, insert_at, contains, true, false, none, some, [], ◌++◌, ◌≡◌, ◌≢◌,
  refl, arith, crlf, inl,
}
use didactic_pancake_server.Request.Server.{Server, no_session, reply, touch_session}
use didactic_pancake_server.Request.Fields.{
  scan_credentials, is_nice, is_nice_session, all_alnum, all_digits,
}
use didactic_pancake_server.Request.Fields.Laws.{print_credentials, scan_credentials-print}
use didactic_pancake_server.Request.Account.{login, login_locked, regis, logout, reconnect}
use didactic_pancake_server.Request.Account.Login.{
  IsOpen, Unmoved, register_then_login, login_locked-Unmoved,
}
use didactic_pancake_server.Request.Account.Sessions.{reconnect_takes_over, logout_leaves_session}
use didactic_pancake_server.Request.Friend.{
  add_friend_locked, reply_friend_locked, get_friend_items,
}
use didactic_pancake_server.Request.Friend.Laws.{ask_then_accept}
use didactic_pancake_server.Tests.Sample.{
  amy, bob, eve, zoe, secret, sid_amy, env, tables, server, serving,
}

register_then_login_example :
    (sid : Bytes) × (s' : Server) × (login env 6
        (print_credentials zoe secret)
        (regis 6 (print_credentials zoe secret) server)
      ≡ some s')
    × IsOpen sid 6 zoe s'
unfolding is_nice all_alnum same assign
register_then_login_example =
    register_then_login env 6 6 zoe secret server refl refl refl refl (omega arith)

wrong_password : server.tables.user_mp amy ≢ some bob
unfolding assign same
wrong_password e = ground arith

login_locked-Unmoved_example :
    (s' : Server) × (login_locked (some sid_amy) 6 amy bob server ≡ some s') × Unmoved server s'
login_locked-Unmoved_example =
    login_locked-Unmoved (some sid_amy) 6 amy bob server (inl wrong_password)

scan_credentials-print_example :
    scan_credentials 0 (print_credentials amy secret) ≡ record { tar_user = amy; password = secret }
scan_credentials-print_example = scan_credentials-print amy secret (omega arith) (omega arith)

not_empty : sid_amy ≢ []
not_empty e = ground arith

reconnect_takes_over_example :
    IsOpen sid_amy 6 amy (reconnect 6 (sid_amy ++ crlf) server)
    × (((reconnect 6 (sid_amy ++ crlf) server).conns 4).sockfd ≡ none)
unfolding assign same is_nice_session all_digits
reconnect_takes_over_example =
    reconnect_takes_over 6 sid_amy amy 4 server refl refl refl (omega arith)

-- After a restart userfd_mp is empty.
abbrev restarted : Server
restarted = serving (record tables { userfd_mp = λ k. none })

logout_leaves_session_example :
    let s1 = logout 4 server in
    let s2 = get_friend_items 4 s1 in
    let s3 = reconnect 6 (sid_amy ++ crlf) s2 in
    (s1.tables.session_mp sid_amy ≡ none)
    × (s2.tables.session_mp sid_amy ≡ some [])
    × ((s3.conns 6).session_id ≡ sid_amy)
    × (s3.tables.session_mp sid_amy ≡ some [])
unfolding assign erase same is_nice_session all_digits logout get_friend_items no_session reply
    touch_session
logout_leaves_session_example =
    logout_leaves_session 4 6 sid_amy amy 0 server refl not_empty refl refl refl

-- amy has an avatar.
abbrev pictured : Server
pictured = record server { files = λ path. some (137 ∷ 80 ∷ []) }

ask_then_accept_example :
    (s1 : Server) × (add_friend_locked 4 amy eve pictured ≡ some s1)
    × (let t = (reply_friend_locked [] 6 eve amy 49 s1).tables in
        (contains amy (t.friend_mp eve) ≡ true)
        × (contains eve (t.friend_mp amy) ≡ true)
        × (contains amy (t.frireq_mp eve) ≡ false))
unfolding assign same insert_at contains
ask_then_accept_example =
    ask_then_accept [] 4 6 amy eve (137 ∷ 80 ∷ []) pictured refl refl refl refl refl
