-- ===== src/Spec/Calls.antt =====
-- Voice calls under every sequence of steps.
use didactic_pancake_server.Prelude.{
  Bytes, Map, same, same_iff, assign, erase, touch, false, none, some, ◌≡◌, arith, ◌⊎◌, [],
}
use didactic_pancake_server.Request.Server.{Tables}
use didactic_pancake_server.Request.Voice.{hang_up}
use didactic_pancake_server.Spec.{
  Step, Steps, stay, next, index_session, index_voice, create_user, open_session, close_session,
  move_session, ask, befriend, drop, unfriend, call, connect, refuse, finish,
}

-- The partner of a call has the call too; the empty name, which operator[] enters, is no partner.
abbrev pub ArePaired : Map Bytes → Type 0
ArePaired m = (a b : Bytes) → m a ≡ some b → (b ≡ []) ⊎ (m b ≡ some a)

abbrev pub IsPaired : Tables → Type 0
IsPaired t = ArePaired t.voice_chat_mp

call-IsPaired :
    (t : Tables) (user tar : Bytes)
    → same tar user ≡ false
    → t.voice_chat_mp user ≡ none
    → t.voice_chat_mp tar ≡ none
    → IsPaired t
    → IsPaired (record t { voice_chat_mp = assign tar user (assign user tar t.voice_chat_mp) })
unfolding assign
call-IsPaired t user tar ne free free' v a b h = ground (
  arith,
  v a b,
  same_iff tar a,
  same_iff user a,
  same_iff tar b,
  same_iff user b,
  same_iff tar user,
)

erase-IsPaired :
    (t : Tables) (user tar : Bytes)
    → t.voice_chat_mp user ≡ some tar
    → IsPaired t
    → ArePaired (erase tar (erase user t.voice_chat_mp))
unfolding erase
erase-IsPaired t user tar chat v a b h = ground (
  arith,
  v a b,
  v user tar chat,
  same_iff tar a,
  same_iff user a,
  same_iff tar b,
  same_iff user b,
)

index_voice-IsPaired :
    (t : Tables) (user : Bytes)
    → IsPaired t
    → IsPaired (record t { voice_chat_mp = touch user [] t.voice_chat_mp })
unfolding touch
index_voice-IsPaired t user v a b h =
    ground (arith, v a b, v user b, same_iff user a, same_iff user b)

pub Step-IsPaired : {t u : Tables} → Step t u → IsPaired t → IsPaired u
unfolding hang_up
Step-IsPaired (index_session t sid) v = v
Step-IsPaired (index_voice t user) v = index_voice-IsPaired t user v
Step-IsPaired (create_user t user password n m h) v = v
Step-IsPaired (open_session t sid user password fd h k) v = v
Step-IsPaired (close_session t sid user h) v = v
Step-IsPaired (move_session t sid user fd h) v = v
Step-IsPaired (ask t user tar known ne strangers fresh unasked) v = v
Step-IsPaired (befriend t user tar asked strangers) v = v
Step-IsPaired (drop t user tar asked) v = v
Step-IsPaired (unfriend t user tar friends) v = v
Step-IsPaired (call t user tar ne friends free free') v = call-IsPaired t user tar ne free free' v
Step-IsPaired (connect t user tar a b chat ha hb) v = v
Step-IsPaired (refuse t user tar chat) v = erase-IsPaired t user tar chat v
Step-IsPaired (finish t user tar chat) v = erase-IsPaired t user tar chat v

pub Steps-IsPaired : {t u : Tables} → Steps t u → IsPaired t → IsPaired u
Steps-IsPaired stay v = v
Steps-IsPaired (next r st) v = Step-IsPaired st (Steps-IsPaired r v)
