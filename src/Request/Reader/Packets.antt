-- ===== src/Request/Reader/Packets.antt =====
-- A packet that make_format printed (Request/Packet.antt), under process_read
-- (Request/Reader/Process.antt).
use didactic_pancake_server.Prelude.{
  c_string, ℕ, suc, ◌+◌, ◌^◌, ◌≤◌, ◌<◌, Bytes, lit, to_string, Bool, true, not, ◌&&◌, some, [], ◌∷◌,
  ◌++◌, length, drop, same, ◌==◌, ◌≡◌, ◌≢◌, refl, arith, ◌∙◌,
}
use didactic_pancake_server.Prelude.Int.{pos}
use didactic_pancake_server.Request.Packet.{
  PacketType, hbt, lgn, rgt, lgt, scu, adf, def, rfr, rcn, gfi, afi, dfi, sma, rma, rdy, ign, sav,
  rav, soc, roc, aoc, doc, eoc, req_to_string,
}
use didactic_pancake_server.Request.Server.{Server, Inputs}
use didactic_pancake_server.Request.Reader.{
  Reader, typeline, header, content, line_ok, no_request, cut, parse_line, same_case, find_type,
  known_types, parse_type_line, parse_headers, is_zero,
}
use didactic_pancake_server.Request.Reader.Process.{
  read_round, next_line, serve_complete, after_round, after_line, read_loop,
}
use didactic_pancake_server.Request.Reader.Lines.{
  Clean, past_line, parse_line-line, c_string-past_line,
}
use didactic_pancake_server.Request.Reader.Digits.{atol-to_string}

unfoldable pub is_clean : Bytes → Bool
is_clean [] = true
is_clean (c ∷ s) = not (c == 13) && (not (c == 10) && (not (c == 0) && is_clean s))

pub Clean-is_clean : (s : Bytes) → is_clean s ≡ true → Clean s
unfolding is_clean
Clean-is_clean [] h = tt
Clean-is_clean (c ∷ s) h =
    (ground arith, (ground arith, (ground arith, Clean-is_clean s (ground arith))))

-- The text of a type is one that parse_type_line knows, and a clean one.
Known : PacketType → Type 0
Known p = (find_type (req_to_string p) known_types ≡ some p) × (is_clean (req_to_string p) ≡ true)

known : (p : PacketType) → p ≢ ign → Known p
unfolding Known find_type req_to_string same_case same lit is_clean
known hbt h = (refl, refl)
known lgn h = (refl, refl)
known rgt h = (refl, refl)
known lgt h = (refl, refl)
known scu h = (refl, refl)
known adf h = (refl, refl)
known def h = (refl, refl)
known rfr h = (refl, refl)
known rcn h = (refl, refl)
known gfi h = (refl, refl)
known afi h = (refl, refl)
known dfi h = (refl, refl)
known sma h = (refl, refl)
known rma h = (refl, refl)
known rdy h = (refl, refl)
known ign h = absurd (h refl)
known sav h = (refl, refl)
known rav h = (refl, refl)
known soc h = (refl, refl)
known roc h = (refl, refl)
known aoc h = (refl, refl)
known doc h = (refl, refl)
known eoc h = (refl, refl)

find_type-req_to_string :
    (p : PacketType) → p ≢ ign → find_type (req_to_string p) known_types ≡ some p
unfolding Known
find_type-req_to_string p h = (known p h).0

pub Clean-req_to_string : (p : PacketType) → p ≢ ign → Clean (req_to_string p)
unfolding Known
Clean-req_to_string p h = Clean-is_clean (req_to_string p) (known p h).1

-- A whole line is at the front of the bytes that are left, and ends at `end`.
pub record AtLine (line post : Bytes) (end : ℕ) (r : Reader) : Type 0 where
  pub starts : r.start_line ≡ r.checked_idx
  pub bytes : drop r.checked_idx r.read_buf ≡ line ++ (13 ∷ (10 ∷ post))
  pub clean : Clean line
  pub ends : r.checked_idx + length line ≡ end
  pub room : end + 2 ≤ r.read_idx

-- One round of the loop on a whole line.
line_round :
    (env : Inputs) (me fuel end : ℕ) (line post : Bytes) (r : Reader) (s : Server)
    → AtLine line post end r
    → next_line r.check_state line_ok r ≡ parse_line r
    → read_loop env me (suc fuel) line_ok r s
      ≡ after_round env me s
          (λ st r'. read_loop env me fuel st r' s)
          (read_round r.check_state (past_line end r))
unfolding read_loop after_line
line_round env me fuel end line post r s at next =
    rw (next, parse_line-line line post end r at.bytes at.clean at.ends at.room) refl

line_text :
    (line post : Bytes) (end : ℕ) (r : Reader)
    → AtLine line post end r
    → c_string (drop r.start_line (cut end r.read_buf)) ≡ line
line_text line post end r at =
    rw at.starts (c_string-past_line line post end r at.bytes at.clean at.ends)

-- The reader behind a type line.
abbrev pub typed : PacketType → ℕ → Reader → Reader
typed p end r = record (past_line end r) { start_line = end + 2; method = p; check_state = header }

pub typeline_turn :
    (env : Inputs) (me fuel end : ℕ) (p : PacketType) (post : Bytes) (r : Reader) (s : Server)
    → p ≢ ign
    → r.check_state ≡ typeline
    → AtLine (req_to_string p) post end r
    → read_loop env me (suc fuel) line_ok r s ≡ read_loop env me fuel line_ok (typed p end r) s
unfolding next_line after_round read_round parse_type_line
typeline_turn env me fuel end p post r s ne state at =
    line_round env me fuel end (req_to_string p) post r s at (rw state refl)
    ∙ rw
        (
          state,
          line_text (req_to_string p) post end r at,
          parse_type_line,
          find_type-req_to_string p ne,
        )
        refl

-- The line of the length.
abbrev pub length_line : ℕ → Bytes
length_line n = lit "Content-Length:" ++ (32 ∷ to_string n)

parse_headers-length_line :
    (n : ℕ) (r : Reader)
    → n < 2 ^ 31
    → parse_headers (length_line n) r ≡ (no_request, record r { content_length = pos n })
unfolding parse_headers same_case same lit
parse_headers-length_line n r h = rw (atol-to_string n h) refl

pub length_turn :
    (env : Inputs) (me fuel end n : ℕ) (post : Bytes) (r : Reader) (s : Server)
    → n < 2 ^ 31
    → r.check_state ≡ header
    → AtLine (length_line n) post end r
    → read_loop env me (suc fuel) line_ok r s
      ≡ read_loop env me fuel line_ok
          (record (past_line end r) { start_line = end + 2; content_length = pos n })
          s
unfolding next_line after_round read_round
length_turn env me fuel end n post r s small state at =
    line_round env me fuel end (length_line n) post r s at (rw state refl)
    ∙ rw (state, line_text (length_line n) post end r at, parse_headers-length_line n _ small) refl

-- The empty line, before a body.
pub blank_turn :
    (env : Inputs) (me fuel end n : ℕ) (post : Bytes) (r : Reader) (s : Server)
    → r.check_state ≡ header
    → r.content_length ≡ pos (suc n)
    → AtLine [] post end r
    → read_loop env me (suc fuel) line_ok r s
      ≡ read_loop env me fuel line_ok
          (record (past_line end r) { start_line = end + 2; check_state = content })
          s
unfolding next_line after_round read_round parse_headers same is_zero
blank_turn env me fuel end n post r s state size at =
    line_round env me fuel end [] post r s at (rw state refl)
    ∙ rw (state, line_text [] post end r at, size) refl

-- The empty line, where there is no body.
pub blank_turn_last :
    (env : Inputs) (me fuel end : ℕ) (post : Bytes) (r : Reader) (s : Server)
    → r.check_state ≡ header
    → r.content_length ≡ pos 0
    → AtLine [] post end r
    → read_loop env me (suc fuel) line_ok r s
      ≡ serve_complete env me (record (past_line end r) { start_line = end + 2 }) s
unfolding next_line after_round read_round parse_headers same is_zero
blank_turn_last env me fuel end post r s state size at =
    line_round env me fuel end [] post r s at (rw state refl)
    ∙ rw (state, line_text [] post end r at, size) refl
