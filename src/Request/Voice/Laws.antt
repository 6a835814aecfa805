-- ===== src/Request/Voice/Laws.antt =====
-- Voice calls: the ids of a call, the relay of datagrams, and the call that operator[] makes up.
use didactic_pancake_server.Prelude.{
  ℕ, ◌%◌, Bytes, same_iff, same_self, IdMap, assign, assign_id, Option, none, some, List, ◌∷◌, ◌≡◌,
  ◌≢◌, arith,
}
use didactic_pancake_server.Request.Server.{Server, Tables}
use didactic_pancake_server.Request.Server.Frames.{tables-reply, tables-reply_fd}
use didactic_pancake_server.Request.Voice.{draw_id, draw_ids, accept_voice}

-- The tables of a call between `user`, with the id `a`, and `tar`, with the id `b`.
pub record IsConnected (user tar : Bytes) (a b : ℕ) (t : Tables) : Type 0 where
  pub calls : t.voice_chat_mp user ≡ some tar
  pub called : t.voice_chat_mp tar ≡ some user
  pub id_user : t.voice_id_to_user_mp a ≡ some user
  pub id_tar : t.voice_id_to_user_mp b ≡ some tar
  pub user_id : t.user_to_voice_id_mp user ≡ some a
  pub tar_id : t.user_to_voice_id_mp tar ≡ some b

-- Accepting a call between two users enters both ids, if the two that were drawn differ.
pub accept_voice-IsConnected :
    (me : ℕ) (user tar : Bytes) (fd : Option ℕ) (a b : ℕ) (s : Server)
    → user ≢ tar
    → a ≢ b
    → s.tables.voice_chat_mp user ≡ some tar
    → s.tables.voice_chat_mp tar ≡ some user
    → IsConnected user tar a b (accept_voice me user tar fd (a, b) s).tables
unfolding accept_voice assign assign_id
accept_voice-IsConnected me user tar fd a b s ne ids calls called =
    rw (tables-reply_fd, tables-reply)
      (record {
        calls = calls;
        called = called;
        id_user = ground arith;
        id_tar = ground arith;
        user_id = ground (arith, same_self user, same_iff tar user);
        tar_id = ground (arith, same_self tar);
      })

-- The second id is drawn before the first is entered, so one value of rand() twice gives both ends
-- of a call the same id.
draw_ids_collide :
    (m : IdMap Bytes) (r : ℕ) (rands : List ℕ)
    → m (r % 1000000000) ≡ none
    → draw_ids m (r ∷ (r ∷ rands)) ≡ some (r % 1000000000, r % 1000000000)
unfolding draw_ids draw_id
draw_ids_collide m r rands free = ground arith
