-- ===== src/Request/Reader/Headed.antt =====
-- The two lines of a packet as make_format prints it (Request/Packet.antt), under the loop of
-- process_read (Request/Reader/Process.antt).
use mathlib.Core.List.{append_assoc}
use didactic_pancake_server.Prelude.{
  ℕ, suc, ◌+◌, ◌^◌, ◌≤◌, ◌<◌, Bytes, lit, crlf, to_string, none, [], ◌∷◌, ◌++◌, length,
  length-append, drop, ◌≡◌, ◌≢◌, refl, arith, ap, ◌∙◌,
}
use didactic_pancake_server.Prelude.Int.{pos}
use didactic_pancake_server.Request.Packet.{PacketType, ign, req_to_string, make_format}
use didactic_pancake_server.Request.Server.{Server, Inputs}
use didactic_pancake_server.Request.Reader.{Reader, typeline, line_ok}
use didactic_pancake_server.Request.Reader.Process.{read_loop}
use didactic_pancake_server.Request.Reader.Lines.{Clean, past_line, drop-past_line}
use didactic_pancake_server.Request.Reader.Digits.{Clean-to_string}
use didactic_pancake_server.Request.Reader.Packets.{
  AtLine, length_line, typed, typeline_turn, length_turn, Clean-req_to_string, is_clean,
  Clean-is_clean,
}

-- The lines and the body of a packet, and what follows it.
abbrev pub after_header : Bytes → Bytes → Bytes
after_header text rest = 13 ∷ (10 ∷ (text ++ rest))

abbrev pub after_type : Bytes → Bytes → Bytes
after_type text rest = length_line (length text) ++ (13 ∷ (10 ∷ after_header text rest))

pub make_format-lines :
    (p : PacketType) (text rest : Bytes)
    → make_format p text ++ rest ≡ req_to_string p ++ (13 ∷ (10 ∷ after_type text rest))
unfolding make_format lit
make_format-lines p text rest =
    append_assoc (req_to_string p) _ rest
    ∙ ap (λ t. req_to_string p ++ (13 ∷ (10 ∷ (lit "Content-Length: " ++ t))))
        (append_assoc (to_string (length text)) (crlf ++ (crlf ++ text)) rest)

-- The indices of the ends of the two lines.
abbrev pub type_end : PacketType → ℕ → ℕ
type_end p i = i + length (req_to_string p)

abbrev pub length_end : PacketType → ℕ → ℕ → ℕ
length_end p n i = type_end p i + 2 + length (length_line n)

pub length-make_format :
    (p : PacketType) (text : Bytes) (i : ℕ)
    → i + length (make_format p text) ≡ length_end p (length text) i + 4 + length text
unfolding make_format lit
length-make_format p text i =
    rw (length-append (req_to_string p), length-append (to_string (length text))) (omega arith)

-- The reader behind the two lines.
abbrev pub headed : PacketType → ℕ → Reader → Reader
headed p n r =
    let e = length_end p n r.checked_idx in
    record (past_line e (typed p (type_end p r.checked_idx) r)) {
      start_line = e + 2;
      content_length = pos n;
    }

-- A reader that waits for a packet.
pub record IsFresh (r : Reader) : Type 0 where
  pub waits : r.check_state ≡ typeline
  pub starts : r.start_line ≡ r.checked_idx
  pub unread : r.content_len_have_read ≡ 0
  pub empty : r.body ≡ none

Clean-append : (a b : Bytes) → Clean a → Clean b → Clean (a ++ b)
Clean-append [] b h k = k
Clean-append (c ∷ a) b (h13, (h10, (h0, h))) k = (h13, (h10, (h0, Clean-append a b h k)))

Clean-length_line : (n : ℕ) → Clean (length_line n)
unfolding lit is_clean
Clean-length_line n =
    Clean-append (lit "Content-Length: ") (to_string n)
      (Clean-is_clean (lit "Content-Length: ") refl) (Clean-to_string n)

module _ (p : PacketType) (text rest : Bytes) (r : Reader) (ne : p ≢ ign) (fresh : IsFresh r)
    (bytes : drop r.checked_idx r.read_buf ≡ req_to_string p ++ (13 ∷ (10 ∷ after_type text rest)))
    (room : length_end p (length text) r.checked_idx + 4 + length text ≤ r.read_idx) where
  req_to_string-AtLine :
      AtLine (req_to_string p) (after_type text rest) (type_end p r.checked_idx) r
  req_to_string-AtLine = record {
    starts = fresh.starts;
    bytes = bytes;
    clean = Clean-req_to_string p ne;
    ends = refl;
    room = omega arith;
  }

  length_line-AtLine :
      AtLine
        (length_line (length text))
        (after_header text rest)
        (length_end p (length text) r.checked_idx)
        (typed p (type_end p r.checked_idx) r)
  length_line-AtLine = record {
    starts = refl;
    bytes =
        drop-past_line (req_to_string p) (after_type text rest) (type_end p r.checked_idx) r bytes
          refl;
    clean = Clean-length_line (length text);
    ends = refl;
    room = omega arith;
  }

  pub headed-AtLine :
      AtLine []
        (text ++ rest)
        (length_end p (length text) r.checked_idx + 2)
        (headed p (length text) r)
  headed-AtLine = record {
    starts = refl;
    bytes =
        drop-past_line (length_line (length text)) (after_header text rest)
          (length_end p (length text) r.checked_idx) (typed p (type_end p r.checked_idx) r)
          length_line-AtLine.bytes refl;
    clean = tt;
    ends = omega arith;
    room = omega arith;
  }

  pub two_turns :
      (env : Inputs) (me fuel : ℕ) (s : Server)
      → length text < 2 ^ 31
      → read_loop env me (suc (suc fuel)) line_ok r s
        ≡ read_loop env me fuel line_ok (headed p (length text) r) s
  two_turns env me fuel s small =
      typeline_turn env me (suc fuel) (type_end p r.checked_idx) p (after_type text rest) r s ne
        fresh.waits req_to_string-AtLine
      ∙ length_turn env me fuel (length_end p (length text) r.checked_idx) (length text)
          (after_header text rest) (typed p (type_end p r.checked_idx) r) s small refl
          length_line-AtLine
