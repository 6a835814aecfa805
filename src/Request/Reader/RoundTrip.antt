-- ===== src/Request/Reader/RoundTrip.antt =====
-- process_read (Request/Reader/Process.antt) on a packet as make_format prints it.
use didactic_pancake_server.Prelude.{
  ℕ, suc, ◌+◌, ◌-◌, ◌^◌, ◌≤◌, ◌<◌, Bytes, true, false, none, some, [], ◌∷◌, ◌++◌, length,
  take-append, drop, drop-append, leb, ◌≡◌, ◌≢◌, refl, arith, ap, sym, ◌∙◌,
}
use didactic_pancake_server.Prelude.Int.{pos}
use didactic_pancake_server.Request.Packet.{PacketType, ign, req_to_string, make_format}
use didactic_pancake_server.Request.Server.{Server, Inputs}
use didactic_pancake_server.Request.Dispatch.{do_request}
use didactic_pancake_server.Request.Reader.{
  Reader, header, content, line_ok, get_request, parse_content_of, copy_body, body_bytes, cut,
}
use didactic_pancake_server.Request.Reader.Process.{
  ReadResult, done, int_overflows, parse_content, read_round, next_line, serve_complete,
  after_round, after_line, read_loop, process_read,
}
use didactic_pancake_server.Request.Reader.Lines.{past_line, drop-past_line, drop-drop}
use didactic_pancake_server.Request.Reader.Packets.{AtLine, blank_turn, blank_turn_last}
use didactic_pancake_server.Request.Reader.Headed.{
  after_type, length_end, headed, IsFresh, make_format-lines, length-make_format, headed-AtLine,
  two_turns,
}

-- The reader behind a body.
abbrev past_body : Bytes → Reader → Reader
past_body text r = record r {
  body = some text;
  checked_idx = r.checked_idx + length text;
  start_line = r.checked_idx + length text;
  content_len_have_read = length text;
}

minus_zero : (n : ℕ) → n - 0 ≡ n
minus_zero n = omega arith

parse_content_of-whole :
    (text rest : Bytes) (r : Reader)
    → r.content_len_have_read ≡ 0
    → drop r.checked_idx r.read_buf ≡ text ++ rest
    → r.checked_idx + length text ≤ r.read_idx
    → parse_content_of (length text) r.checked_idx r ≡ (get_request, past_body text r)
unfolding parse_content_of copy_body
parse_content_of-whole text rest r fresh bytes room =
    let whole : leb (length text + r.checked_idx) r.read_idx ≡ true = ground arith in
    rw (fresh, minus_zero (length text), whole, bytes, take-append) refl

int_overflows_not :
    (text : Bytes) (r : Reader)
    → r.body ≡ none
    → r.content_len_have_read ≡ 0
    → length text + 1 < 2 ^ 31
    → r.checked_idx + length text < 2 ^ 31
    → int_overflows (length text) r ≡ false
unfolding int_overflows
int_overflows_not text r empty fresh small near =
    let a : leb (2 ^ 31) (length text + 1) ≡ false = ground arith in
    let b : leb (2 ^ 31) (length text - 0 + r.checked_idx) ≡ false = ground arith in
    rw (empty, fresh, a, b) refl

content_turn :
    (env : Inputs) (me fuel : ℕ) (text rest : Bytes) (r : Reader) (s : Server)
    → r.check_state ≡ content
    → r.content_length ≡ pos (length text)
    → r.start_line ≡ r.checked_idx
    → r.content_len_have_read ≡ 0
    → drop r.checked_idx r.read_buf ≡ text ++ rest
    → r.checked_idx + length text ≤ r.read_idx
    → r.body ≡ none
    → 0 < r.checked_idx
    → r.read_idx < 2 ^ 31
    → read_loop env me (suc fuel) line_ok r s ≡ serve_complete env me (past_body text r) s
unfolding read_loop next_line after_line after_round read_round parse_content
content_turn env me fuel text rest r s state size starts fresh bytes room empty moved near =
    rw
      (
        state,
        size,
        starts,
        int_overflows_not text
            (record r {
              start_line = r.checked_idx;
              check_state = content;
              content_length = pos (length text);
            })
            empty fresh (omega arith) (omega arith),
        parse_content_of-whole text rest
            (record r {
              start_line = r.checked_idx;
              check_state = content;
              content_length = pos (length text);
            })
            fresh bytes room,
      )
      refl

-- The loop ends by serving a request of the type and the text, and the bytes behind it are `rest`.
record Serves (env : Inputs) (me : ℕ) (p : PacketType) (text rest : Bytes) (end : ℕ) (s : Server)
    (res : ReadResult) : Type 0 where
  reader : Reader
  serves : res ≡ serve_complete env me reader s
  same_method : reader.method ≡ p
  same_text : body_bytes reader.body ≡ text
  at_end : reader.checked_idx ≡ end
  left : drop reader.checked_idx reader.read_buf ≡ rest

last_turns :
    (env : Inputs) (me fuel end : ℕ) (text rest : Bytes) (r : Reader) (s : Server)
    → r.check_state ≡ header
    → r.content_length ≡ pos (length text)
    → AtLine [] (text ++ rest) end r
    → r.content_len_have_read ≡ 0
    → r.body ≡ none
    → end + 2 + length text ≤ r.read_idx
    → r.read_idx < 2 ^ 31
    → Serves env me r.method text rest
        (end + 2 + length text)
        s
        (read_loop env me (suc (suc fuel)) line_ok r s)
unfolding body_bytes
last_turns env me fuel end [] rest r s state size at unread empty room near = record {
  reader = record (past_line end r) { start_line = end + 2 };
  serves = blank_turn_last env me (suc fuel) end rest r s state size at;
  same_method = refl;
  same_text = rw empty refl;
  at_end = omega arith;
  left = drop-past_line [] rest end r at.bytes at.ends;
}
last_turns env me fuel end (c ∷ cs) rest r s state size at unread empty room near =
    let text = c ∷ cs in
    let r1 = record (past_line end r) { start_line = end + 2; check_state = content } in
    let bytes : drop (end + 2) (cut end r.read_buf) ≡ text ++ rest =
      drop-past_line [] (text ++ rest) end r at.bytes at.ends in
    record {
      reader = past_body text r1;
      serves =
          blank_turn env me (suc fuel) end (length cs) (text ++ rest) r s state size at
          ∙ content_turn env me fuel text rest r1 s refl size refl unread bytes room empty
              (omega arith) near;
      same_method = refl;
      same_text = refl;
      at_end = refl;
      left =
          drop-drop (cut end r.read_buf) (end + 2) (length text)
          ∙ ap (drop (length text)) bytes
          ∙ drop-append text rest;
    }

-- The loop returns GET_REQUEST with the server `s'`, has read up to `end`, and left `rest`.
pub record Reads (rest : Bytes) (end : ℕ) (s' : Server) (res : ReadResult) : Type 0 where
  pub reader : Reader
  pub reads : res ≡ done get_request reader s'
  pub at_end : reader.checked_idx ≡ end
  pub left : drop reader.checked_idx reader.read_buf ≡ rest

Reads-Serves :
    (env : Inputs) (me : ℕ) (p : PacketType) (text rest : Bytes) (end : ℕ) (s s' : Server)
    (res : ReadResult)
    → do_request env me p text s ≡ some s'
    → Serves env me p text rest end s res
    → Reads rest end s' res
unfolding serve_complete
Reads-Serves env me p text rest end s s' res returns h =
    let served : do_request env me h.reader.method (body_bytes h.reader.body) s ≡ some s' =
      rw (h.same_method, h.same_text) returns in
    record {
      reader = h.reader;
      reads = h.serves ∙ rw (served, serve_complete) refl;
      at_end = h.at_end;
      left = h.left;
    }

-- When a packet of a type that the server knows lies whole in the buffer, as make_format prints it
-- and the index m_read_idx is one that an int can be, process_read hands its type and its content to
-- do_request. If the handler returns, process_read returns GET_REQUEST with the handler's server, has
-- read exactly the bytes of the packet, and left those behind it as they were.
pub process_read-make_format :
    (env : Inputs) (me : ℕ) (p : PacketType) (text rest : Bytes) (r : Reader) (s s' : Server)
    → p ≢ ign
    → r.read_idx < 2 ^ 31
    → IsFresh r
    → drop r.checked_idx r.read_buf ≡ make_format p text ++ rest
    → r.checked_idx + length (make_format p text) ≤ r.read_idx
    → do_request env me p text s ≡ some s'
    → Reads rest (r.checked_idx + length (make_format p text)) s' (process_read env me r s)
unfolding process_read
process_read-make_format env me p text rest r s s' ne small fresh bytes room returns =
    let i = r.checked_idx in
    let lines : drop i r.read_buf ≡ req_to_string p ++ (13 ∷ (10 ∷ after_type text rest)) =
      bytes ∙ make_format-lines p text rest in
    let size : i + length (make_format p text) ≡ length_end p (length text) i + 4 + length text =
      length-make_format p text i in
    let inside : length_end p (length text) i + 4 + length text ≤ r.read_idx = omega arith in
    let fuel = r.read_idx - i - 2 in
    let enough : r.read_idx - i + 2 ≡ suc (suc (suc (suc fuel))) = omega arith in
    let last : length_end p (length text) i + 2 + 2 + length text
        ≡ i + length (make_format p text) =
      omega arith in
    rw
      (
        enough,
        two_turns p text rest r ne fresh lines inside env me (suc (suc fuel)) s (omega arith),
        sym last,
      )
      (Reads-Serves env me p text rest (length_end p (length text) i + 2 + 2 + length text) s s'
        (read_loop env me (suc (suc fuel)) line_ok (headed p (length text) r) s) returns
        (last_turns env me fuel (length_end p (length text) i + 2) text rest
          (headed p (length text) r) s refl refl (headed-AtLine p text rest r ne fresh lines inside)
          fresh.unread fresh.empty (omega arith) small))
