-- ===== src/Spec.antt =====
-- What the requests may do to the tables of request/request_process.cpp, as a step relation: each
-- constructor is one change that the program means to make, with the condition under which it is
-- made. The children prove what every sequence of such steps keeps.
pub mod Friends
pub mod Accounts
pub mod Messages
pub mod Returns
pub mod Voices
pub mod Requests
pub mod Social
pub mod Users
pub mod Calls
pub mod History
use didactic_pancake_server.Prelude.{
  ℕ, Bytes, same, Map, assign, erase, touch, assign_id, erase_id, insert_at, remove_at, contains,
  is_some, Bool, true, false, Option, none, some, [], ◌≡◌, ◌<◌,
}
use didactic_pancake_server.Request.Server.{Tables, Server}
use didactic_pancake_server.Request.Fields.{is_nice}
use didactic_pancake_server.Request.Voice.{hang_up}

pub data Step : Tables → Tables → Type 0 where
  -- operator[] on sessionID_mp, and on voice_chat_mp
  index_session :
      (t : Tables) (sid : Bytes) → Step t (record t { session_mp = touch sid [] t.session_mp })
  index_voice :
      (t : Tables) (user : Bytes)
      → Step t (record t { voice_chat_mp = touch user [] t.voice_chat_mp })
  -- a new account, under a name that is free
  create_user :
      (t : Tables) (user password : Bytes)
      → is_nice user ≡ true
      → is_nice password ≡ true
      → t.user_mp user ≡ none
      → Step t (record t { user_mp = assign user password t.user_mp })
  -- a session of a user who has none, by the user's password
  open_session :
      (t : Tables) (sid user password : Bytes) (fd : Option ℕ)
      → t.user_mp user ≡ some password
      → t.userfd_mp user ≡ none
      → Step t (record t {
        session_mp = assign sid user t.session_mp;
        userfd_mp = assign user fd t.userfd_mp;
      })
  close_session :
      (t : Tables) (sid user : Bytes)
      → t.session_mp sid ≡ some user
      → Step t
          (record t { userfd_mp = erase user t.userfd_mp; session_mp = erase sid t.session_mp })
  -- another connection takes a session over
  move_session :
      (t : Tables) (sid user : Bytes) (fd : Option ℕ)
      → t.session_mp sid ≡ some user
      → Step t (record t { userfd_mp = assign user fd t.userfd_mp })
  -- `user` asks `tar` to be friends
  ask :
      (t : Tables) (user tar : Bytes)
      → is_some (t.user_mp tar) ≡ true
      → same tar user ≡ false
      → contains user (t.friend_mp tar) ≡ false
      → contains user (t.frireq_mp tar) ≡ false
      → contains tar (t.frireq_mp user) ≡ false
      → Step t (record t { frireq_mp = insert_at tar user t.frireq_mp })
  -- `user` accepts what `tar` asked
  befriend :
      (t : Tables) (user tar : Bytes)
      → contains tar (t.frireq_mp user) ≡ true
      → contains tar (t.friend_mp user) ≡ false
      → Step t (record t {
        friend_mp = insert_at tar user (insert_at user tar t.friend_mp);
        frireq_mp = remove_at user tar t.frireq_mp;
      })
  -- what `tar` asked `user` is refused, or was settled before
  drop :
      (t : Tables) (user tar : Bytes)
      → contains tar (t.frireq_mp user) ≡ true
      → Step t (record t { frireq_mp = remove_at user tar t.frireq_mp })
  unfriend :
      (t : Tables) (user tar : Bytes)
      → contains tar (t.friend_mp user) ≡ true
      → Step t (record t { friend_mp = remove_at tar user (remove_at user tar t.friend_mp) })
  -- `user` calls the friend `tar`, both free
  call :
      (t : Tables) (user tar : Bytes)
      → same tar user ≡ false
      → contains tar (t.friend_mp user) ≡ true
      → t.voice_chat_mp user ≡ none
      → t.voice_chat_mp tar ≡ none
      → Step t (record t { voice_chat_mp = assign tar user (assign user tar t.voice_chat_mp) })
  -- the ids of both ends of a call, which no call used before
  connect :
      (t : Tables) (user tar : Bytes) (a b : ℕ)
      → t.voice_chat_mp user ≡ some tar
      → (a < 1000000000) × (t.voice_id_to_user_mp a ≡ none)
      → (b < 1000000000) × (t.voice_id_to_user_mp b ≡ none)
      → Step t (record t {
        voice_id_to_user_mp = assign_id b tar (assign_id a user t.voice_id_to_user_mp);
        user_to_voice_id_mp = assign tar b (assign user a t.user_to_voice_id_mp);
      })
  refuse :
      (t : Tables) (user tar : Bytes)
      → t.voice_chat_mp user ≡ some tar
      → Step t (record t { voice_chat_mp = erase tar (erase user t.voice_chat_mp) })
  finish :
      (t : Tables) (user tar : Bytes)
      → t.voice_chat_mp user ≡ some tar
      → Step t (hang_up user tar t)

-- Any number of steps.
pub data Steps (t : Tables) : Tables → Type 0 where
  stay : Steps t t
  next : {u v : Tables} → Steps t u → Step u v → Steps t v

abbrev pub one : {t u : Tables} → Step t u → Steps t u
one st = next stay st

pub Steps-trans : {t u v : Tables} → Steps t u → Steps u v → Steps t v
Steps-trans r stay = r
Steps-trans r (next q st) = next (Steps-trans r q) st

-- The steps of a request, between the servers before and after it.
abbrev pub Runs : Server → Server → Type 0
Runs s s' = Steps s.tables s'.tables
