-- ===== src/Spec/Friends.antt =====
-- The handlers of Request/Friend.antt make steps of the specification.
use didactic_pancake_server.Prelude.{Option, lit, crlf, ◌++◌, insert_at}
use didactic_pancake_server.Request.Packet.{w_data_packet, scu, adf}
use didactic_pancake_server.Request.Server.{append_back_data, reply}
use didactic_pancake_server.Request.Server.Frames.{tables-send_avatar_task}
use didactic_pancake_server.Spec.Returns.{Returned, Returned-some}
use didactic_pancake_server.Prelude.{
  if_rule, ℕ, Bytes, same, contains, is_some, not, length, ltb, ◌==◌, Bool, true, false, ◌≡◌, arith,
}
use didactic_pancake_server.Request.Server.{Server, Inputs, username, touch_session, no_session}
use didactic_pancake_server.Request.Server.Frames.{frames, tables-reply}
use didactic_pancake_server.Request.Fields.{scan_line, scan_all, scan_answer, is_nice}
use didactic_pancake_server.Request.Friend.{
  search_user, add_friend, add_friend_locked, reply_friend_request, reply_friend_locked,
  accept_friend, drop_application, delete_friend, delete_friend_locked, get_friend_items,
}
use didactic_pancake_server.Request.Friend.Frames.{
  tables-send_application, tables-welcome, tables-welcome_applicant, tables-send_removal,
}
use didactic_pancake_server.Spec.{
  stay, one, Steps-trans, Runs, index_session, ask, befriend, drop, unfriend,
}

pub touch_session-Runs : (me : ℕ) (s : Server) → Runs s (touch_session me s)
unfolding touch_session
touch_session-Runs me s = one (index_session s.tables _)

pub search_user-Runs :
    (me : ℕ) (content : Bytes) (s : Server) → Returned s (search_user me content s)
unfolding search_user
search_user-Runs me content s =
    let P : Option Server → Type 0 = Returned s in
    let told = append_back_data me (w_data_packet scu 3 (lit "1" ++ crlf)) s in
    if_rule P (no_session me s) (λ e. Returned-some s _ (simp frames stay))
      λ e.
        if_rule P (ltb 18 (length content)) (λ e. Returned-some s _ (simp frames stay))
          λ e.
            if_rule P (not (is_nice (scan_line content)))
              (λ e. Returned-some s _ (simp frames stay))
              λ e.
                if_rule P (is_some (s.tables.user_mp (scan_line content)))
                  (λ e s' h.
                    rw (tables-send_avatar_task me (scan_line content) told s' h)
                      (simp frames stay))
                  (λ e. Returned-some s _ (simp frames stay))

true_of_not : (b : Bool) → not b ≡ false → b ≡ true
true_of_not b h = ground arith

pub add_friend_locked-Runs :
    (me : ℕ) (user tar : Bytes) (s : Server)
    → same tar user ≡ false
    → Returned s (add_friend_locked me user tar s)
unfolding add_friend_locked
add_friend_locked-Runs me user tar s ne =
    let P : Option Server → Type 0 = Returned s in
    let t = s.tables in
    let recorded =
      reply me (w_data_packet adf 3 (lit "1" ++ crlf))
        (record s { tables = record t { frireq_mp = insert_at tar user t.frireq_mp } }) in
    if_rule P (not (is_some (t.user_mp tar))) (λ e. Returned-some s _ (simp frames stay))
      λ known.
        if_rule P (contains user (t.friend_mp tar)) (λ e. Returned-some s _ (simp frames stay))
          λ strangers.
            if_rule P (contains user (t.frireq_mp tar)) (λ e. Returned-some s _ (simp frames stay))
              λ fresh.
                if_rule P (contains tar (t.frireq_mp user))
                  (λ e. Returned-some s _ (simp frames stay))
                  λ unasked s' h.
                    rw (tables-send_application user tar recorded s' h, tables-reply)
                      (one (ask t user tar (true_of_not _ known) ne strangers fresh unasked))

pub add_friend-Runs : (me : ℕ) (content : Bytes) (s : Server) → Returned s (add_friend me content s)
unfolding add_friend
add_friend-Runs me content s =
    let P : Option Server → Type 0 = Returned s in
    if_rule P (no_session me s) (λ e. Returned-some s _ (simp frames stay))
      λ e.
        if_rule P (ltb 18 (length content)) (λ e. Returned-some s _ (simp frames stay))
          λ e.
            if_rule P (not (is_nice (scan_line content)))
              (λ e. Returned-some s _ (simp frames stay))
              λ e.
                if_rule P (same (scan_line content) (username me s))
                  (λ e. Returned-some s _ (simp frames (touch_session-Runs me s)))
                  (λ ne s' h.
                    Steps-trans (touch_session-Runs me s)
                      (add_friend_locked-Runs me _ _ (touch_session me s) ne s' h))

drop_application-Runs :
    (user tar : Bytes) (s : Server)
    → contains tar (s.tables.frireq_mp user) ≡ true
    → Runs s (drop_application user tar s)
unfolding drop_application
drop_application-Runs user tar s asked = one (drop s.tables user tar asked)

accept_friend-Runs :
    (s_time : Bytes) (me : ℕ) (user tar : Bytes) (s : Server)
    → contains tar (s.tables.frireq_mp user) ≡ true
    → Runs s (drop_application user tar (accept_friend s_time me user tar s))
unfolding accept_friend drop_application
accept_friend-Runs s_time me user tar s asked =
    if_rule (λ s'. Runs s (drop_application user tar s')) (contains tar (s.tables.friend_mp user))
      (λ e. drop_application-Runs user tar s asked)
      (λ strangers.
        rw (tables-welcome_applicant, tables-welcome)
          (one (befriend s.tables user tar asked strangers)))

pub reply_friend_locked-Runs :
    (s_time : Bytes) (me : ℕ) (user tar : Bytes) (choose : ℕ) (s : Server)
    → Runs s (reply_friend_locked s_time me user tar choose s)
unfolding reply_friend_locked
reply_friend_locked-Runs s_time me user tar choose s =
    let P : Server → Type 0 = Runs s in
    if_rule P (contains tar (s.tables.frireq_mp user))
      (λ asked.
        if_rule (λ s'. P (drop_application user tar s')) (choose == 49)
          (λ e. accept_friend-Runs s_time me user tar s asked)
          (λ e. drop_application-Runs user tar s asked))
      (λ e. stay)

pub reply_friend_request-Runs :
    (env : Inputs) (me : ℕ) (content : Bytes) (s : Server)
    → Runs s (reply_friend_request env me content s)
unfolding reply_friend_request
reply_friend_request-Runs env me content s =
    let P : Server → Type 0 = Runs s in
    if_rule P (no_session me s) (λ e. simp frames stay)
      λ e.
        if_rule P (ltb 21 (length content)) (λ e. stay)
          λ e.
            if_rule P (not (is_nice (scan_answer 0 0 content).tar_user)) (λ e. stay)
              λ e.
                Steps-trans (touch_session-Runs me s)
                  (reply_friend_locked-Runs _ me _ _ _ (touch_session me s))

pub delete_friend_locked-Runs :
    (me : ℕ) (user tar : Bytes) (s : Server) → Runs s (delete_friend_locked me user tar s)
unfolding delete_friend_locked
delete_friend_locked-Runs me user tar s =
    let P : Server → Type 0 = Runs s in
    if_rule P (contains tar (s.tables.friend_mp user))
      (λ friends. rw (tables-send_removal, tables-reply) (one (unfriend s.tables user tar friends)))
      (λ e. stay)

pub delete_friend-Runs :
    (me : ℕ) (content : Bytes) (s : Server) → Runs s (delete_friend me content s)
unfolding delete_friend
delete_friend-Runs me content s =
    let P : Server → Type 0 = Runs s in
    if_rule P (no_session me s) (λ e. simp frames stay)
      λ e.
        if_rule P (ltb 18 (length content)) (λ e. simp frames stay)
          λ e.
            if_rule P (not (is_nice (scan_all content))) (λ e. simp frames stay)
              λ e.
                Steps-trans (touch_session-Runs me s)
                  (delete_friend_locked-Runs me _ _ (touch_session me s))

pub get_friend_items-Runs : (me : ℕ) (s : Server) → Runs s (get_friend_items me s)
unfolding get_friend_items
get_friend_items-Runs me s =
    let P : Server → Type 0 = Runs s in
    if_rule P (no_session me s) (λ e. simp frames stay) (λ e. simp frames (touch_session-Runs me s))
