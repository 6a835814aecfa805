-- ===== src/Spec/History.antt =====
-- The theorems about the tables, for every history of requests from a freshly started server.
use didactic_pancake_server.Prelude.{
  Bytes, same_iff, insert_at, contains, contains-insert_at, SetMap, false, none, some, List, [],
  ◌∷◌, ◌≡◌, ◌≢◌, refl, inl, inr, arith, Option-cases,
}
use didactic_pancake_server.Request.Server.{Server}
use didactic_pancake_server.Request.Dispatch.{do_request}
use didactic_pancake_server.Request.Startup.{empty_tables, load_friends, initmysql_result}
use didactic_pancake_server.Request.History.{Request, serve}
use didactic_pancake_server.Spec.{stay, Steps-trans, Runs}
use didactic_pancake_server.Spec.Requests.{do_request-Runs}
use didactic_pancake_server.Spec.Social.{IsSocial, Steps-IsSocial}
use didactic_pancake_server.Spec.Users.{IsGrounded, Steps-IsGrounded, Steps-keeps_password}
use didactic_pancake_server.Spec.Calls.{IsPaired, Steps-IsPaired}

-- Whatever packets the connections send, in whatever order, if all handlers return then the tables
-- have gone through a sequence of steps of the specification, each made under its condition.
pub serve-Runs : (rs : List Request) (s s' : Server) → serve rs s ≡ some s' → Runs s s'
unfolding serve
serve-Runs [] s s' e = rw (← same_server) stay
  where
    same_server : s ≡ s'
    same_server = cc e
serve-Runs (r ∷ rs) s s' e = elim (Option-cases (do_request r.env r.me r.method r.content s)) [
  | inl stuck ↦ absurd (never (rw (stuck, serve) at e))
  | inr (u, done) ↦
      Steps-trans (do_request-Runs r.env r.me r.method r.content s u done)
        (serve-Runs rs u s' (rw (done, serve) at e))
]
  where
    never : none ≡ some s' → ⊥
    never p = cc

-- The rows of friend_tb: nobody is paired with themselves.
abbrev pub NoSelfRows : List (Bytes × Bytes) → Type 0
NoSelfRows [] = Unit {0}
NoSelfRows ((a, b) ∷ rows) = (a ≢ b) × NoSelfRows rows

load_friends-both_ways :
    (rows : List (Bytes × Bytes)) (m : SetMap)
    → ((a b : Bytes) → contains b (m a) ≡ contains a (m b))
    → (a b : Bytes) → contains b (load_friends rows m a) ≡ contains a (load_friends rows m b)
unfolding load_friends
load_friends-both_ways [] m h = h
load_friends-both_ways ((x, y) ∷ rows) m h =
    load_friends-both_ways rows (insert_at y x (insert_at x y m)) λ a b. ground (
      arith,
      contains-insert_at y x a b (insert_at x y m),
      contains-insert_at x y a b m,
      contains-insert_at y x b a (insert_at x y m),
      contains-insert_at x y b a m,
      h a b,
      same_iff x a,
      same_iff y a,
      same_iff x b,
      same_iff y b,
    )

load_friends-not_self :
    (rows : List (Bytes × Bytes)) (m : SetMap)
    → NoSelfRows rows
    → ((a : Bytes) → contains a (m a) ≡ false)
    → (a : Bytes) → contains a (load_friends rows m a) ≡ false
unfolding load_friends
load_friends-not_self [] m ok h = h
load_friends-not_self ((x, y) ∷ rows) m ok h =
    load_friends-not_self rows (insert_at y x (insert_at x y m)) ok.1 λ a. ground (
      arith,
      contains-insert_at y x a a (insert_at x y m),
      contains-insert_at x y a a m,
      h a,
      same_iff x a,
      same_iff y a,
    )

pub initmysql_result-IsSocial :
    (users friends sessions : List (Bytes × Bytes))
    → NoSelfRows friends
    → IsSocial (initmysql_result users friends sessions empty_tables)
unfolding initmysql_result contains
initmysql_result-IsSocial users friends sessions ok = record {
  both_ways = load_friends-both_ways friends (λ k. []) (λ a b. refl);
  not_self = load_friends-not_self friends (λ k. []) ok (λ a. refl);
  not_own = λ a. refl;
  one_way = λ a b h. refl;
  settled = λ a b h. refl;
}

-- From the rows of the database, in which nobody is their own friend, and through any history of
-- requests whose handlers return: friendship is mutual, nobody is their own friend or applicant, of
-- two users at most one has an open application to the other, and friends have none.
pub serve-IsSocial :
    (users friends sessions : List (Bytes × Bytes)) (rs : List Request) (s s' : Server)
    → NoSelfRows friends
    → s.tables ≡ initmysql_result users friends sessions empty_tables
    → serve rs s ≡ some s'
    → IsSocial s'.tables
serve-IsSocial users friends sessions rs s s' ok start e =
    Steps-IsSocial (serve-Runs rs s s' e)
      (rw start (initmysql_result-IsSocial users friends sessions ok))

-- Through any history of requests whose handlers return, what holds of the accounts and sessions at
-- its start holds at its end: names and passwords are 1 to 16 digits and letters, and each session
-- and each entry of userfd_mp belongs to an account or to the empty name.
pub serve-IsGrounded :
    (rs : List Request) (s s' : Server)
    → serve rs s ≡ some s'
    → IsGrounded s.tables
    → IsGrounded s'.tables
serve-IsGrounded rs s s' e = Steps-IsGrounded (serve-Runs rs s s' e)

-- Through any history of requests whose handlers return, voice calls stay mutual: who has a call
-- with `b` is the one that `b` has a call with, unless `b` is the empty name.
pub serve-IsPaired :
    (rs : List Request) (s s' : Server)
    → serve rs s ≡ some s'
    → IsPaired s.tables
    → IsPaired s'.tables
serve-IsPaired rs s s' e = Steps-IsPaired (serve-Runs rs s s' e)

-- No history of requests whose handlers return removes an account or changes its password.
pub serve-keeps_password :
    (rs : List Request) (s s' : Server) (name password : Bytes)
    → serve rs s ≡ some s'
    → s.tables.user_mp name ≡ some password
    → s'.tables.user_mp name ≡ some password
serve-keeps_password rs s s' name password e =
    Steps-keeps_password name password (serve-Runs rs s s' e)
