-- ===== src/Tests/Requests.antt =====
-- The theorems about histories of requests, at a history of the sample server.
use didactic_pancake_server.Prelude.{
  Bytes, same, same_iff, assign, true, false, none, some, List, [], ◌∷◌, ◌++◌, ◌≡◌, ◌≢◌, refl,
  arith, crlf,
}
use didactic_pancake_server.Request.Packet.{rgt, def, eoc, soc}
use didactic_pancake_server.Request.Server.{Server, no_session}
use didactic_pancake_server.Request.Fields.Laws.{print_credentials}
use didactic_pancake_server.Request.Account.{regis}
use didactic_pancake_server.Request.Friend.{delete_friend}
use didactic_pancake_server.Request.Voice.{end_voice_chat, start_voice_chat}
use didactic_pancake_server.Request.Dispatch.{do_request}
use didactic_pancake_server.Request.Dispatch.Guard.{Refused, do_request-Refused}
use didactic_pancake_server.Request.Startup.{empty_tables, initmysql_result}
use didactic_pancake_server.Request.History.{Request, serve}
use didactic_pancake_server.Spec.{Runs}
use didactic_pancake_server.Spec.Social.{IsSocial}
use didactic_pancake_server.Spec.Users.{IsGrounded}
use didactic_pancake_server.Spec.Calls.{IsPaired}
use didactic_pancake_server.Spec.History.{
  serve-Runs, serve-IsSocial, serve-IsGrounded, serve-IsPaired, serve-keeps_password,
}
use didactic_pancake_server.Tests.Sample.{amy, bob, eve, zoe, secret, env, server, serving, in_call}

-- A registration on slot 6, and then amy removes bob on slot 4.
abbrev history : List Request
history =
    record { env = env; me = 6; method = rgt; content = print_credentials zoe secret }
    ∷ (record { env = env; me = 4; method = def; content = bob } ∷ [])

abbrev after : Server → Server
after s = delete_friend 4 bob (regis 6 (print_credentials zoe secret) s)

serve-history : (s : Server) → serve history s ≡ some (after s)
unfolding serve do_request
serve-history s = refl

serve-Runs_example : Runs server (after server)
serve-Runs_example = serve-Runs history server (after server) (serve-history server)

abbrev users : List (Bytes × Bytes)
users = (amy, secret) ∷ ((bob, secret) ∷ ((eve, secret) ∷ []))

abbrev friends : List (Bytes × Bytes)
friends = (amy, bob) ∷ []

abbrev started : Server
started = serving (initmysql_result users friends [] empty_tables)

amy≢bob : amy ≢ bob
amy≢bob e = ground arith

serve-IsSocial_example : IsSocial (after started).tables
serve-IsSocial_example =
    serve-IsSocial users friends [] history started (after started) (amy≢bob, tt) refl
      (serve-history started)

-- Of the sample's tables: every account is amy's, bob's or eve's.
tables-IsGrounded : IsGrounded empty_tables
tables-IsGrounded = record {
  nice = λ u p h. absurd (never h);
  owned = λ sid u h. absurd (never h);
  online = λ u h. absurd (never' h);
}
  where
    never : {x : Bytes} → none ≡ some x → ⊥
    never e = cc e

    never' : false ≡ true → ⊥
    never' e = cc e

serve-IsGrounded_example : IsGrounded (after (serving empty_tables)).tables
serve-IsGrounded_example =
    serve-IsGrounded history (serving empty_tables) (after (serving empty_tables))
      (serve-history (serving empty_tables)) tables-IsGrounded

-- amy hangs up, and calls bob again.
abbrev calls : List Request
calls =
    record { env = env; me = 4; method = eoc; content = [] }
    ∷ (record { env = env; me = 4; method = soc; content = bob ++ crlf } ∷ [])

abbrev called : Server → Server
called s = start_voice_chat 4 (bob ++ crlf) (end_voice_chat 4 s)

serve-calls : (s : Server) → serve calls s ≡ some (called s)
unfolding serve do_request
serve-calls s = refl

in_call-IsPaired : IsPaired in_call
unfolding assign
in_call-IsPaired a b h =
    ground (arith, same_iff amy a, same_iff bob a, same_iff amy b, same_iff bob b)

serve-IsPaired_example : IsPaired (called (serving in_call)).tables
serve-IsPaired_example =
    serve-IsPaired calls (serving in_call) (called (serving in_call))
      (serve-calls (serving in_call)) in_call-IsPaired

serve-keeps_password_example : (after server).tables.user_mp bob ≡ some secret
unfolding assign same
serve-keeps_password_example =
    serve-keeps_password history server (after server) bob secret (serve-history server) refl

do_request-Refused_example :
    (s' : Server) × (do_request env 6 soc (bob ++ crlf) server ≡ some s') × Refused 6 soc server s'
unfolding no_session same
do_request-Refused_example = do_request-Refused env 6 soc (bob ++ crlf) server refl refl
