-- ===== src/Spec/Voices.antt =====
-- The handlers of Request/Voice.antt make steps of the specification.
use didactic_pancake_server.Prelude.{
  if_rule, ℕ, Bytes, same, touch, contains, is_some, some_or, not, length, ltb, ◌==◌, ◌<◌, Bool,
  true, false, Option, none, some, ◌≡◌, arith, Option-cases, inl, inr, List, [], ◌∷◌, ◌||◌, ◌&&◌,
  IdMap, same_self,
}
use didactic_pancake_server.Request.Fields.{scan_line, is_nice}
use didactic_pancake_server.Request.Server.{Server, Inputs, touch_session, no_session}
use didactic_pancake_server.Request.Server.Frames.{frames, tables-reply, tables-reply_fd}
use didactic_pancake_server.Request.Voice.{
  call_user, start_voice_locked, start_voice_chat, draw_id, draw_ids, accept_voice, refuse_voice,
  touch_voice, answer_voice, reply_voice_locked, reply_voice_chat, end_voice_locked, end_voice_chat,
}
use didactic_pancake_server.Spec.{
  stay, one, Steps-trans, Runs, index_voice, call, connect, refuse, finish,
}
use didactic_pancake_server.Spec.Friends.{touch_session-Runs}
use didactic_pancake_server.Spec.Returns.{Returned, Returned-some, Returned-none}

or_left : (a b : Bool) → a || b ≡ false → a ≡ false
or_left a b h = ground arith

or_right : (a b : Bool) → a || b ≡ false → b ≡ false
or_right a b h = ground arith

true_of_not : (b : Bool) → not b ≡ false → b ≡ true
true_of_not b h = ground arith

none_of : (o : Option Bytes) → is_some o ≡ false → o ≡ none
none_of o h = ground arith

call_user-Runs :
    (me : ℕ) (user tar : Bytes) (fd : Option ℕ) (s : Server)
    → same tar user ≡ false
    → contains tar (s.tables.friend_mp user) ≡ true
    → s.tables.voice_chat_mp user ≡ none
    → s.tables.voice_chat_mp tar ≡ none
    → Runs s (call_user me user tar fd s)
unfolding call_user
call_user-Runs me user tar fd s ne friends free free' =
    rw (tables-reply_fd, tables-reply) (one (call s.tables user tar ne friends free free'))

pub start_voice_locked-Runs :
    (me : ℕ) (user tar : Bytes) (s : Server) → Runs s (start_voice_locked me user tar s)
unfolding start_voice_locked
start_voice_locked-Runs me user tar s =
    let P : Server → Type 0 = Runs s in
    let t = s.tables in
    if_rule P (same tar user || not (contains tar (t.friend_mp user))) (λ e. simp frames stay)
      λ ok.
        if_rule P (is_some (t.voice_chat_mp user) || is_some (t.voice_chat_mp tar))
          (λ e. simp frames stay)
          λ free. elim (Option-cases (t.userfd_mp tar)) [
            | inl e ↦ rw (e, start_voice_locked) (simp frames stay)
            | inr (fd, e) ↦
                rw (e, start_voice_locked)
                  (call_user-Runs me user tar fd s (or_left _ _ ok)
                    (true_of_not _ (or_right _ _ ok)) (none_of _ (or_left _ _ free))
                    (none_of _ (or_right _ _ free)))
          ]

pub start_voice_chat-Runs :
    (me : ℕ) (content : Bytes) (s : Server) → Runs s (start_voice_chat me content s)
unfolding start_voice_chat
start_voice_chat-Runs me content s =
    let P : Server → Type 0 = Runs s in
    if_rule P (no_session me s) (λ e. simp frames stay)
      λ e.
        if_rule P (ltb 18 (length content)) (λ e. simp frames stay)
          λ e.
            if_rule P (not (is_nice (scan_line content))) (λ e. simp frames stay)
              λ e.
                Steps-trans (touch_session-Runs me s)
                  (start_voice_locked-Runs me _ _ (touch_session me s))

-- An id that is drawn is below 1000000000 and in no use.
pub draw_id-fresh :
    (m : IdMap Bytes) (rands : List ℕ) (id : ℕ) (rest : List ℕ)
    → draw_id m rands ≡ some (id, rest)
    → (id < 1000000000) × (m id ≡ none)
unfolding draw_id
draw_id-fresh m [] id rest e = absurd (cc e)
draw_id-fresh m (r ∷ rands) id rest e = ground (arith, draw_id-fresh m rands id rest)

pub draw_ids-fresh :
    (m : IdMap Bytes) (rands : List ℕ) (a b : ℕ)
    → draw_ids m rands ≡ some (a, b)
    → ((a < 1000000000) × (m a ≡ none)) × ((b < 1000000000) × (m b ≡ none))
unfolding draw_ids
draw_ids-fresh m rands a b e = elim (Option-cases (draw_id m rands)) [
  | inl e1 ↦ ground arith
  | inr ((x, rest), e1) ↦ elim (Option-cases (draw_id m rest)) [
    | inl e2 ↦ ground arith
    | inr ((y, rest'), e2) ↦
        ground (arith, draw_id-fresh m rands x rest e1, draw_id-fresh m rest y rest' e2)
  ]
]

accept_voice-Runs :
    (me : ℕ) (user tar : Bytes) (fd : Option ℕ) (a b : ℕ) (s : Server)
    → s.tables.voice_chat_mp user ≡ some tar
    → (a < 1000000000) × (s.tables.voice_id_to_user_mp a ≡ none)
    → (b < 1000000000) × (s.tables.voice_id_to_user_mp b ≡ none)
    → Runs s (accept_voice me user tar fd (a, b) s)
unfolding accept_voice
accept_voice-Runs me user tar fd a b s chat ha hb =
    rw (tables-reply_fd, tables-reply) (one (connect s.tables user tar a b chat ha hb))

refuse_voice-Runs :
    (user tar : Bytes) (fd : Option ℕ) (s : Server)
    → s.tables.voice_chat_mp user ≡ some tar
    → Runs s (refuse_voice user tar fd s)
unfolding refuse_voice
refuse_voice-Runs user tar fd s chat = rw (tables-reply_fd) (one (refuse s.tables user tar chat))

answer_voice-Runs :
    (env : Inputs) (me : ℕ) (user tar : Bytes) (choose : ℕ) (s : Server)
    → s.tables.voice_chat_mp user ≡ some tar
    → Returned s (answer_voice env me user tar choose s)
unfolding answer_voice
answer_voice-Runs env me user tar choose s chat =
    let P : Option Server → Type 0 = Returned s in
    if_rule P (not (is_some (s.tables.voice_chat_mp user))) (λ e. Returned-some s s stay)
      λ e. elim (Option-cases (s.tables.userfd_mp tar)) [
        | inl e ↦ rw (e, answer_voice) (Returned-some s s stay)
        | inr (fd, e) ↦
            rw (e, answer_voice)
              (if_rule P (choose == 49)
                (λ e'. elim (Option-cases (draw_ids s.tables.voice_id_to_user_mp env.rands)) [
                  | inl none_left ↦ rw (none_left, answer_voice) (Returned-none s)
                  | inr ((a, b), drawn) ↦
                      rw (drawn, answer_voice)
                        (Returned-some s _ (
                          accept_voice-Runs me user tar fd a b s chat
                            (draw_ids-fresh _ _ a b drawn).0 (draw_ids-fresh _ _ a b drawn).1))
                ])
                (λ e'. Returned-some s _ (refuse_voice-Runs user tar fd s chat)))
      ]

touch_voice-chat :
    (user : Bytes) (s : Server)
    → (touch_voice user s).tables.voice_chat_mp user
      ≡ some (some_or [] (s.tables.voice_chat_mp user))
unfolding touch_voice touch
touch_voice-chat user s = rw same_self (ground arith)

touch_voice-Runs : (user : Bytes) (s : Server) → Runs s (touch_voice user s)
unfolding touch_voice
touch_voice-Runs user s = one (index_voice s.tables user)

pub reply_voice_locked-Runs :
    (env : Inputs) (me : ℕ) (user : Bytes) (choose : ℕ) (s : Server)
    → Returned s (reply_voice_locked env me user choose s)
unfolding reply_voice_locked
reply_voice_locked-Runs env me user choose s s' e =
    Steps-trans (touch_voice-Runs user s)
      (answer_voice-Runs env me user _ choose (touch_voice user s) (touch_voice-chat user s) s' e)

pub reply_voice_chat-Runs :
    (env : Inputs) (me : ℕ) (content : Bytes) (s : Server)
    → Returned s (reply_voice_chat env me content s)
unfolding reply_voice_chat
reply_voice_chat-Runs env me [] s =
    let P : Option Server → Type 0 = Returned s in
    if_rule P (no_session me s) (λ e. Returned-some s _ (simp frames stay)) λ e. Returned-none s
reply_voice_chat-Runs env me (choose ∷ rest) s =
    let P : Option Server → Type 0 = Returned s in
    if_rule P (no_session me s) (λ e. Returned-some s _ (simp frames stay))
      λ e.
        if_rule P (ltb 3 (length (choose ∷ rest))) (λ e. Returned-some s s stay)
          λ e.
            if_rule P (not (choose == 48) && not (choose == 49)) (λ e. Returned-some s s stay)
              λ e s' e'.
                Steps-trans (touch_session-Runs me s)
                  (reply_voice_locked-Runs env me _ choose (touch_session me s) s' e')

end_voice_locked-Runs : (user : Bytes) (s : Server) → Runs s (end_voice_locked user s)
unfolding end_voice_locked
end_voice_locked-Runs user s = elim (Option-cases (s.tables.voice_chat_mp user)) [
  | inl e ↦ rw (e, end_voice_locked) stay
  | inr (tar, e) ↦
      rw (e, end_voice_locked)
        (elim (Option-cases (s.tables.userfd_mp tar)) [
          | inl e' ↦ rw (e', end_voice_locked) (one (finish s.tables user tar e))
          | inr (fd, e') ↦
              rw (e', end_voice_locked) (rw tables-reply_fd (one (finish s.tables user tar e)))
        ])
]

pub end_voice_chat-Runs : (me : ℕ) (s : Server) → Runs s (end_voice_chat me s)
unfolding end_voice_chat
end_voice_chat-Runs me s =
    let P : Server → Type 0 = Runs s in
    if_rule P (no_session me s) (λ e. simp frames stay)
      (λ e.
        simp frames
          (Steps-trans (touch_session-Runs me s) (end_voice_locked-Runs _ (touch_session me s))))
