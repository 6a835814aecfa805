-- ===== src/Spec/Users.antt =====
-- Accounts and sessions under every sequence of steps.
use didactic_pancake_server.Prelude.{
  ℕ, Bytes, same_iff, assign, erase, touch, is_some, true, Option, some, ◌≡◌, refl, arith, ◌⊎◌, [],
}
use didactic_pancake_server.Request.Server.{Tables}
use didactic_pancake_server.Request.Fields.{is_nice}
use didactic_pancake_server.Request.Voice.{hang_up}
use didactic_pancake_server.Spec.{
  Step, Steps, stay, next, index_session, index_voice, create_user, open_session, close_session,
  move_session, ask, befriend, drop, unfriend, call, connect, refuse, finish,
}

-- Every account has a name and a password of 1 to 16 digits and letters; every session, and every
-- entry of userfd_mp, is of an account or of the empty name.
pub record IsGrounded (t : Tables) : Type 0 where
  pub nice : (u p : Bytes) → t.user_mp u ≡ some p → (is_nice u ≡ true) × (is_nice p ≡ true)
  pub owned :
      (sid u : Bytes) → t.session_mp sid ≡ some u → (u ≡ []) ⊎ (is_some (t.user_mp u) ≡ true)
  pub online :
      (u : Bytes) → is_some (t.userfd_mp u) ≡ true → (u ≡ []) ⊎ (is_some (t.user_mp u) ≡ true)

create_user-IsGrounded :
    (t : Tables) (user password : Bytes)
    → is_nice user ≡ true
    → is_nice password ≡ true
    → IsGrounded t
    → IsGrounded (record t { user_mp = assign user password t.user_mp })
unfolding assign
create_user-IsGrounded t user password n m v = record {
  nice = λ u p h. ground (arith, same_iff user u, v.nice u p);
  owned = λ sid u h. ground (arith, v.owned sid u h);
  online = λ u h. ground (arith, v.online u h);
}

open_session-IsGrounded :
    (t : Tables) (sid user password : Bytes) (fd : Option ℕ)
    → t.user_mp user ≡ some password
    → IsGrounded t
    → IsGrounded (record t {
      session_mp = assign sid user t.session_mp;
      userfd_mp = assign user fd t.userfd_mp;
    })
unfolding assign
open_session-IsGrounded t sid user password fd known v = record {
  nice = v.nice;
  owned = λ sid' u h. ground (arith, v.owned sid' u);
  online = λ u h. ground (arith, v.online u, same_iff user u);
}

close_session-IsGrounded :
    (t : Tables) (sid user : Bytes)
    → IsGrounded t
    → IsGrounded
        (record t { userfd_mp = erase user t.userfd_mp; session_mp = erase sid t.session_mp })
unfolding erase
close_session-IsGrounded t sid user v = record {
  nice = v.nice;
  owned = λ sid' u h. ground (arith, v.owned sid' u);
  online = λ u h. ground (arith, v.online u);
}

move_session-IsGrounded :
    (t : Tables) (sid user : Bytes) (fd : Option ℕ)
    → t.session_mp sid ≡ some user
    → IsGrounded t
    → IsGrounded (record t { userfd_mp = assign user fd t.userfd_mp })
unfolding assign
move_session-IsGrounded t sid user fd held v = record {
  nice = v.nice;
  owned = v.owned;
  online = λ u h. ground (arith, v.online u, same_iff user u, v.owned sid user held);
}

index_session-IsGrounded :
    (t : Tables) (sid : Bytes)
    → IsGrounded t
    → IsGrounded (record t { session_mp = touch sid [] t.session_mp })
unfolding touch
index_session-IsGrounded t sid v = record {
  nice = v.nice;
  owned = λ sid' u h. ground (arith, v.owned sid' u, v.owned sid u, same_iff sid sid');
  online = v.online;
}

-- A step that leaves accounts and sessions alone.
frame-IsGrounded :
    (t u : Tables)
    → u.user_mp ≡ t.user_mp
    → u.session_mp ≡ t.session_mp
    → u.userfd_mp ≡ t.userfd_mp
    → IsGrounded t
    → IsGrounded u
frame-IsGrounded t u e f g v = record {
  nice = λ x p h. v.nice x p (ground arith);
  owned = λ sid x h. ground (arith, v.owned sid x);
  online = λ x h. ground (arith, v.online x);
}

pub Step-IsGrounded : {t u : Tables} → Step t u → IsGrounded t → IsGrounded u
unfolding hang_up
Step-IsGrounded (index_session t sid) v = index_session-IsGrounded t sid v
Step-IsGrounded (index_voice t user) v = frame-IsGrounded t _ refl refl refl v
Step-IsGrounded (create_user t user password n m h) v = create_user-IsGrounded t user password n m v
Step-IsGrounded (open_session t sid user password fd h k) v =
    open_session-IsGrounded t sid user password fd h v
Step-IsGrounded (close_session t sid user h) v = close_session-IsGrounded t sid user v
Step-IsGrounded (move_session t sid user fd h) v = move_session-IsGrounded t sid user fd h v
Step-IsGrounded (ask t user tar known ne strangers fresh unasked) v =
    frame-IsGrounded t _ refl refl refl v
Step-IsGrounded (befriend t user tar asked strangers) v = frame-IsGrounded t _ refl refl refl v
Step-IsGrounded (drop t user tar asked) v = frame-IsGrounded t _ refl refl refl v
Step-IsGrounded (unfriend t user tar friends) v = frame-IsGrounded t _ refl refl refl v
Step-IsGrounded (call t user tar ne friends free free') v = frame-IsGrounded t _ refl refl refl v
Step-IsGrounded (connect t user tar a b chat ha hb) v = frame-IsGrounded t _ refl refl refl v
Step-IsGrounded (refuse t user tar chat) v = frame-IsGrounded t _ refl refl refl v
Step-IsGrounded (finish t user tar chat) v = frame-IsGrounded t _ refl refl refl v

pub Steps-IsGrounded : {t u : Tables} → Steps t u → IsGrounded t → IsGrounded u
Steps-IsGrounded stay v = v
Steps-IsGrounded (next r st) v = Step-IsGrounded st (Steps-IsGrounded r v)

-- An account and its password last.
pub Step-keeps_password :
    {t u : Tables} (name password : Bytes)
    → Step t u
    → t.user_mp name ≡ some password
    → u.user_mp name ≡ some password
unfolding hang_up assign
Step-keeps_password name password (create_user t user p n m free) h =
    ground (arith, same_iff user name)
Step-keeps_password name password (index_session t sid) h = h
Step-keeps_password name password (index_voice t user) h = h
Step-keeps_password name password (open_session t sid user p fd h' k) h = h
Step-keeps_password name password (close_session t sid user h') h = h
Step-keeps_password name password (move_session t sid user fd h') h = h
Step-keeps_password name password (ask t user tar known ne strangers fresh unasked) h = h
Step-keeps_password name password (befriend t user tar asked strangers) h = h
Step-keeps_password name password (drop t user tar asked) h = h
Step-keeps_password name password (unfriend t user tar friends) h = h
Step-keeps_password name password (call t user tar ne friends free free') h = h
Step-keeps_password name password (connect t user tar a b chat ha hb) h = h
Step-keeps_password name password (refuse t user tar chat) h = h
Step-keeps_password name password (finish t user tar chat) h = h

pub Steps-keeps_password :
    {t u : Tables} (name password : Bytes)
    → Steps t u
    → t.user_mp name ≡ some password
    → u.user_mp name ≡ some password
Steps-keeps_password name password stay h = h
Steps-keeps_password name password (next r st) h =
    Step-keeps_password name password st (Steps-keeps_password name password r h)
