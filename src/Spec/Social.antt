-- ===== src/Spec/Social.antt =====
-- Friends and applications under every sequence of steps.
use didactic_pancake_server.Prelude.{
  Bytes, same, same_iff, contains, insert_at, remove_at, contains-insert_at, contains-remove_at,
  true, false, ◌≡◌, refl, arith,
}
use didactic_pancake_server.Request.Server.{Tables}
use didactic_pancake_server.Spec.{
  Step, Steps, stay, next, index_session, index_voice, create_user, open_session, close_session,
  move_session, ask, befriend, drop, unfriend, call, connect, refuse, finish,
}
use didactic_pancake_server.Request.Voice.{hang_up}

-- Friendship is mutual, nobody is their own friend or applicant, of two users at most one has asked
-- the other, and friends have nothing to settle.
pub record IsSocial (t : Tables) : Type 0 where
  pub both_ways : (a b : Bytes) → contains b (t.friend_mp a) ≡ contains a (t.friend_mp b)
  pub not_self : (a : Bytes) → contains a (t.friend_mp a) ≡ false
  pub not_own : (a : Bytes) → contains a (t.frireq_mp a) ≡ false
  pub one_way :
      (a b : Bytes) → contains b (t.frireq_mp a) ≡ true → contains a (t.frireq_mp b) ≡ false
  pub settled :
      (a b : Bytes) → contains b (t.friend_mp a) ≡ true → contains b (t.frireq_mp a) ≡ false

ask-IsSocial :
    (t : Tables) (user tar : Bytes)
    → same tar user ≡ false
    → contains user (t.friend_mp tar) ≡ false
    → contains tar (t.frireq_mp user) ≡ false
    → IsSocial t
    → IsSocial (record t { frireq_mp = insert_at tar user t.frireq_mp })
ask-IsSocial t user tar ne strangers unasked v = record {
  both_ways = v.both_ways;
  not_self = v.not_self;
  not_own = λ a. ground (
    arith,
    contains-insert_at tar user a a t.frireq_mp,
    v.not_own a,
    same_iff tar a,
    same_iff user a,
    same_iff tar user,
  );
  one_way = λ a b h. ground (
    arith,
    contains-insert_at tar user a b t.frireq_mp,
    contains-insert_at tar user b a t.frireq_mp,
    v.one_way a b,
    v.one_way b a,
    same_iff tar a,
    same_iff user b,
    same_iff tar b,
    same_iff user a,
    same_iff tar user,
  );
  settled = λ a b h. ground (
    arith,
    contains-insert_at tar user a b t.frireq_mp,
    v.settled a b h,
    same_iff tar a,
    same_iff user b,
  );
}

befriend-IsSocial :
    (t : Tables) (user tar : Bytes)
    → contains tar (t.frireq_mp user) ≡ true
    → IsSocial t
    → IsSocial (record t {
      friend_mp = insert_at tar user (insert_at user tar t.friend_mp);
      frireq_mp = remove_at user tar t.frireq_mp;
    })
befriend-IsSocial t user tar asked v = record {
  both_ways = λ a b. ground (
    arith,
    contains-insert_at tar user a b (insert_at user tar t.friend_mp),
    contains-insert_at user tar a b t.friend_mp,
    contains-insert_at tar user b a (insert_at user tar t.friend_mp),
    contains-insert_at user tar b a t.friend_mp,
    v.both_ways a b,
    same_iff tar a,
    same_iff user b,
    same_iff tar b,
    same_iff user a,
  );
  not_self = λ a. ground (
    arith,
    contains-insert_at tar user a a (insert_at user tar t.friend_mp),
    contains-insert_at user tar a a t.friend_mp,
    v.not_self a,
    v.not_own a,
    same_iff tar a,
    same_iff user a,
  );
  not_own = λ a. ground (arith, contains-remove_at user tar a a t.frireq_mp, v.not_own a);
  one_way = λ a b h. ground (
    arith,
    contains-remove_at user tar a b t.frireq_mp,
    contains-remove_at user tar b a t.frireq_mp,
    v.one_way a b,
  );
  settled = λ a b h. ground (
    arith,
    contains-insert_at tar user a b (insert_at user tar t.friend_mp),
    contains-insert_at user tar a b t.friend_mp,
    contains-remove_at user tar a b t.frireq_mp,
    v.settled a b,
    v.one_way user tar asked,
    same_iff tar a,
    same_iff user b,
    same_iff tar b,
    same_iff user a,
  );
}

drop-IsSocial :
    (t : Tables) (user tar : Bytes)
    → IsSocial t
    → IsSocial (record t { frireq_mp = remove_at user tar t.frireq_mp })
drop-IsSocial t user tar v = record {
  both_ways = v.both_ways;
  not_self = v.not_self;
  not_own = λ a. ground (arith, contains-remove_at user tar a a t.frireq_mp, v.not_own a);
  one_way = λ a b h. ground (
    arith,
    contains-remove_at user tar a b t.frireq_mp,
    contains-remove_at user tar b a t.frireq_mp,
    v.one_way a b,
  );
  settled = λ a b h. ground (arith, contains-remove_at user tar a b t.frireq_mp, v.settled a b h);
}

unfriend-IsSocial :
    (t : Tables) (user tar : Bytes)
    → IsSocial t
    → IsSocial (record t { friend_mp = remove_at tar user (remove_at user tar t.friend_mp) })
unfriend-IsSocial t user tar v = record {
  both_ways = λ a b. ground (
    arith,
    contains-remove_at tar user a b (remove_at user tar t.friend_mp),
    contains-remove_at user tar a b t.friend_mp,
    contains-remove_at tar user b a (remove_at user tar t.friend_mp),
    contains-remove_at user tar b a t.friend_mp,
    v.both_ways a b,
    same_iff tar a,
    same_iff user b,
    same_iff tar b,
    same_iff user a,
  );
  not_self = λ a. ground (
    arith,
    contains-remove_at tar user a a (remove_at user tar t.friend_mp),
    contains-remove_at user tar a a t.friend_mp,
    v.not_self a,
  );
  not_own = v.not_own;
  one_way = v.one_way;
  settled = λ a b h. ground (
    arith,
    contains-remove_at tar user a b (remove_at user tar t.friend_mp),
    contains-remove_at user tar a b t.friend_mp,
    v.settled a b,
  );
}

-- A step that leaves friends and applications alone.
frame-IsSocial :
    (t u : Tables) → u.friend_mp ≡ t.friend_mp → u.frireq_mp ≡ t.frireq_mp → IsSocial t → IsSocial u
frame-IsSocial t u e f v = record {
  both_ways = λ a b. cc (v.both_ways a b);
  not_self = λ a. cc (v.not_self a);
  not_own = λ a. cc (v.not_own a);
  one_way = λ a b h. ground (arith, v.one_way a b);
  settled = λ a b h. ground (arith, v.settled a b);
}

pub Step-IsSocial : {t u : Tables} → Step t u → IsSocial t → IsSocial u
unfolding hang_up
Step-IsSocial (index_session t sid) v = frame-IsSocial t _ refl refl v
Step-IsSocial (index_voice t user) v = frame-IsSocial t _ refl refl v
Step-IsSocial (create_user t user password n m h) v = frame-IsSocial t _ refl refl v
Step-IsSocial (open_session t sid user password fd h k) v = frame-IsSocial t _ refl refl v
Step-IsSocial (close_session t sid user h) v = frame-IsSocial t _ refl refl v
Step-IsSocial (move_session t sid user fd h) v = frame-IsSocial t _ refl refl v
Step-IsSocial (ask t user tar known ne strangers fresh unasked) v =
    ask-IsSocial t user tar ne strangers unasked v
Step-IsSocial (befriend t user tar asked strangers) v = befriend-IsSocial t user tar asked v
Step-IsSocial (drop t user tar asked) v = drop-IsSocial t user tar v
Step-IsSocial (unfriend t user tar friends) v = unfriend-IsSocial t user tar v
Step-IsSocial (call t user tar ne friends free free') v = frame-IsSocial t _ refl refl v
Step-IsSocial (connect t user tar a b chat ha hb) v = frame-IsSocial t _ refl refl v
Step-IsSocial (refuse t user tar chat) v = frame-IsSocial t _ refl refl v
Step-IsSocial (finish t user tar chat) v = frame-IsSocial t _ refl refl v

pub Steps-IsSocial : {t u : Tables} → Steps t u → IsSocial t → IsSocial u
Steps-IsSocial stay v = v
Steps-IsSocial (next r st) v = Step-IsSocial st (Steps-IsSocial r v)
