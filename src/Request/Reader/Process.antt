-- ===== src/Request/Reader/Process.antt =====
-- request/request_process.cpp: process_read and the read branch of process, over the reader of
-- Request/Reader.antt.
use didactic_pancake_server.Prelude.{
  c_string, ℕ, zero, suc, ◌+◌, ◌-◌, ◌%◌, ◌^◌, Bool, false, ◌||◌, Bytes, none, some, [], ◌∷◌, ◌++◌,
  drop, replicate, ltb, leb, if◌then◌else◌,
}
use didactic_pancake_server.Prelude.Int.{ℤ, pos, negsuc}
use didactic_pancake_server.Request.Server.{Server, Inputs}
use didactic_pancake_server.Request.Dispatch.{do_request}
use didactic_pancake_server.Request.Reader.{
  body_bytes, init_read, parse_content_of, parse_headers, parse_line, parse_type_line,
  read_buffer_size, Reader, CheckState, LineStatus, ResultCode, typeline, header, content, line_ok,
  line_bad, line_open, no_request, get_request, bad_request,
}

-- What one round of the loop of process_read comes to. A length that is negative, or so large that
-- the sums with it overflow, makes `new char[]` or `memcpy` end the process (`stopped`).
pub data Round : Type 0 where
  stopped : Round
  returned : ResultCode → Reader → Round
  complete : Reader → Round
  further : LineStatus → Reader → Round

abbrev pub typeline_round : ResultCode × Reader → Round
typeline_round (bad_request, r) = returned bad_request r
typeline_round (code, r) = further line_ok r

abbrev pub header_round : ResultCode × Reader → Round
header_round (bad_request, r) = returned bad_request r
header_round (get_request, r) = complete r
header_round (no_request, r) = further line_ok r

abbrev pub content_round : ResultCode × Reader → Round
content_round (get_request, r) = complete r
content_round (code, r) = further line_open r

-- m_content_length + 1 for a body that is not there yet, and the sum that parse_content compares
-- m_read_idx with: an int holds them below 2 ^ 31.
unfoldable pub int_overflows : ℕ → Reader → Bool
int_overflows total r =
    elim r.body [ none ↦ leb (2 ^ 31) (total + 1) | some body ↦ false ]
    || leb (2 ^ 31) (total - r.content_len_have_read + r.checked_idx)

unfoldable pub parse_content : ℤ → ℕ → Reader → Round
unfolding int_overflows
parse_content (pos total) from r =
    if int_overflows total r then stopped else content_round (parse_content_of total from r)
parse_content (negsuc n) from r = stopped

-- The body of the loop: get_line, m_start_line = m_checked_idx, and the switch.
unfoldable pub read_round : CheckState → Reader → Round
read_round typeline r = typeline_round (
    parse_type_line (c_string (drop r.start_line r.read_buf))
      (record r { start_line = r.checked_idx }))
read_round header r = header_round (
    parse_headers (c_string (drop r.start_line r.read_buf))
      (record r { start_line = r.checked_idx }))
read_round content r =
    parse_content r.content_length r.start_line (record r { start_line = r.checked_idx })

-- The condition of the loop: the status, and the reader after parse_line if that was called.
unfoldable pub next_line : CheckState → LineStatus → Reader → LineStatus × Reader
next_line content line_ok r = (line_ok, r)
next_line content line_bad r = parse_line r
next_line content line_open r = parse_line r
next_line typeline status r = parse_line r
next_line header status r = parse_line r

-- The result of process_read: `dead` if a handler throws or the process is stopped, `exhausted` if
-- the model has no fuel left.
pub data ReadResult : Type 0 where
  dead exhausted : ReadResult
  done : ResultCode → Reader → Server → ReadResult

-- do_request(), GET_REQUEST
unfoldable pub serve_complete : Inputs → ℕ → Reader → Server → ReadResult
serve_complete env me r s = elim (do_request env me r.method (body_bytes r.body) s) [
  | none ↦ dead
  | some s' ↦ done get_request r s'
]

-- The rest of a round, where `again` is the loop.
unfoldable pub after_round :
    Inputs → ℕ → Server → (LineStatus → Reader → ReadResult) → Round → ReadResult
after_round env me s again stopped = dead
after_round env me s again (returned code r) = done code r s
after_round env me s again (complete r) = serve_complete env me r s
after_round env me s again (further status r) = again status r

unfoldable pub after_line :
    Inputs → ℕ → Server → (LineStatus → Reader → ReadResult) → LineStatus × Reader → ReadResult
unfolding after_round read_round
after_line env me s again (line_ok, r) = after_round env me s again (read_round r.check_state r)
after_line env me s again (line_bad, r) = done no_request r s
after_line env me s again (line_open, r) = done no_request r s

-- The loop of process_read. Each round but the last two consumes a byte, so the bytes that are left
-- and two rounds more are enough fuel.
unfoldable pub read_loop : Inputs → ℕ → ℕ → LineStatus → Reader → Server → ReadResult
unfolding after_line next_line
read_loop env me zero status r s = exhausted
read_loop env me (suc fuel) status r s =
    after_line env me s (λ status' r'. read_loop env me fuel status' r' s)
      (next_line r.check_state status r)

unfoldable pub process_read : Inputs → ℕ → Reader → Server → ReadResult
unfolding read_loop
process_read env me r s = read_loop env me (r.read_idx - r.checked_idx + 2) line_ok r s

-- m_read_buf[p1] = p2, for `n` indices from p2
unfoldable pub indices_from : ℕ → ℕ → Bytes
indices_from zero p = []
indices_from (suc n) p = p % 256 ∷ indices_from n (suc p)

-- What `process` does with NO_REQUEST.
unfoldable pub keep_broken : Reader → Reader
unfolding indices_from
keep_broken r =
    let len = r.read_idx - r.start_line in
    record r {
      read_buf = indices_from len r.start_line ++ replicate (read_buffer_size - len) 0;
      read_idx = len;
      checked_idx = len;
      start_line = 0;
    }

-- What `process` does between two packets.
unfoldable pub next_packet : Reader → Reader
next_packet r = record r {
  check_state = typeline;
  start_line = r.checked_idx;
  content_len_have_read = 0;
  body = none;
}

-- if (read_ret != NO_REQUEST) init_read()
unfoldable pub finish_reading : ResultCode → Reader → Server → ReadResult
finish_reading no_request r s = done no_request r s
finish_reading code r s = done code init_read s

-- The body of the loop of `process` after process_read, where `again` is the loop.
unfoldable pub after_packet : (ResultCode → Reader → Server → ReadResult) → ReadResult → ReadResult
after_packet again dead = dead
after_packet again exhausted = exhausted
after_packet again (done no_request r s) = finish_reading no_request (keep_broken r) s
after_packet again (done get_request r s) = again get_request (next_packet r) s
after_packet again (done bad_request r s) = again bad_request (next_packet r) s

-- The loop of `process` in mode 0. `code` is read_ret, whose first value the source leaves open.
unfoldable pub process_loop : Inputs → ℕ → ℕ → ResultCode → Reader → Server → ReadResult
unfolding after_packet
process_loop env me zero code r s = exhausted
process_loop env me (suc fuel) code r s =
    let more =
      after_packet (λ code' r' s'. process_loop env me fuel code' r' s')
        (process_read env me r s) in
    if ltb r.checked_idx r.read_idx then more else finish_reading code r s

-- Mode 0 of `process`, less the modfd at its end.
unfoldable pub process : Inputs → ℕ → ResultCode → Reader → Server → ReadResult
unfolding process_loop
process env me code r s = process_loop env me (r.read_idx - r.checked_idx + 2) code r s
