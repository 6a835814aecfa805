-- ===== src/Request/Reader/Rounds.antt =====
-- The rounds of the loop of process_read (Request/Reader/Process.antt).
use didactic_pancake_server.Prelude.{
  if_rule, Option-cases, ℕ, zero, suc, ◌+◌, ◌-◌, ◌≤◌, Bytes, inl, inr, leb, ◌≡◌, refl, arith, lit,
  take, same, [],
}
use didactic_pancake_server.Prelude.Int.{ℤ, pos, negsuc}
use didactic_pancake_server.Request.Server.{Server, Inputs}
use didactic_pancake_server.Request.Dispatch.{do_request}
use didactic_pancake_server.Request.Reader.{
  Reader, CheckState, LineStatus, ResultCode, typeline, header, content, line_ok, line_bad,
  line_open, no_request, get_request, bad_request, parse_line, find_type, known_types,
  parse_type_line, parse_headers, parse_content_of, is_zero, same_case, body_bytes,
}
use didactic_pancake_server.Request.Reader.Process.{
  Round, ReadResult, stopped, returned, complete, further, dead, exhausted, done, parse_content,
  int_overflows, read_round, next_line, serve_complete, after_round, after_line, read_loop,
  process_read, typeline_round, header_round, content_round,
}
use didactic_pancake_server.Request.Reader.Bounds.{Scanned, IsScanned, parse_line-Scanned}

-- The bytes that a line takes at least, where the state waits for a line.
abbrev pub step : CheckState → ℕ
step typeline = 1
step header = 1
step content = 0

-- The indices are in order, and `read` bytes have been read.
pub record Held (read : ℕ) (r : Reader) : Type 0 where
  pub all_read : r.read_idx ≡ read
  pub started : r.start_line ≤ r.checked_idx
  pub checked : r.checked_idx ≤ read

-- What one round leaves, from the index `low` on.
abbrev RoundSound : ℕ → ℕ → CheckState → Round → Type 0
RoundSound low read state stopped = Unit {0}
RoundSound low read state (returned code r) = Held read r × (low ≤ r.checked_idx)
RoundSound low read state (complete r) = Held read r × (low ≤ r.checked_idx)
RoundSound low read state (further line_ok r) =
    Held read r × ((low ≤ r.checked_idx) × (step state ≡ 1))
RoundSound low read state (further line_bad r) = ⊥
RoundSound low read state (further line_open r) = Held read r × (r.checked_idx ≡ read)

type_line-Sound :
    (read : ℕ) (text : Bytes) (r : Reader)
    → Held read r
    → RoundSound r.checked_idx read typeline (typeline_round (parse_type_line text r))
unfolding parse_type_line
type_line-Sound read text r h = elim (Option-cases (find_type text known_types)) [
  | inl e ↦ rw (e, parse_type_line) (h, omega arith)
  | inr (p, e) ↦
      rw (e, parse_type_line)
        (
          record { all_read = h.all_read; started = h.started; checked = h.checked },
          (omega arith, refl),
        )
]

headers-Sound :
    (read : ℕ) (text : Bytes) (r : Reader)
    → Held read r
    → RoundSound r.checked_idx read header (header_round (parse_headers text r))
unfolding parse_headers
headers-Sound read text r h =
    let P : ResultCode × Reader → Type 0 =
      λ out. RoundSound r.checked_idx read header (header_round out) in
    if_rule P (same text [])
      (λ e.
        if_rule P (is_zero r.content_length) (λ e1. (h, omega arith))
          (λ e1. (
            record { all_read = h.all_read; started = h.started; checked = h.checked },
            (omega arith, refl),
          )))
      (λ e.
        if_rule P (same_case (take 15 text) (lit "Content-Length:"))
          (λ e1. (
            record { all_read = h.all_read; started = h.started; checked = h.checked },
            (omega arith, refl),
          ))
          (λ e1. (h, (omega arith, refl))))

content-Sound :
    (read total from : ℕ) (r : Reader)
    → Held read r
    → RoundSound r.checked_idx read content (content_round (parse_content_of total from r))
unfolding parse_content_of
content-Sound read total from r h =
    let P : ResultCode × Reader → Type 0 =
      λ out. RoundSound r.checked_idx read content (content_round out) in
    let left = total - r.content_len_have_read in
    if_rule P (leb (left + r.checked_idx) r.read_idx)
      (λ e. (
        record {
          all_read = h.all_read;
          started = omega arith;
          checked = ground (arith, h.all_read);
        },
        omega arith,
      ))
      (λ e. (
        record {
          all_read = h.all_read;
          started = omega arith;
          checked = omega (arith, h.all_read);
        },
        h.all_read,
      ))

content_length-Sound :
    (read : ℕ) (size : ℤ) (from : ℕ) (r : Reader)
    → Held read r
    → RoundSound r.checked_idx read content (parse_content size from r)
unfolding parse_content
content_length-Sound read (pos total) from r h =
    if_rule (RoundSound r.checked_idx read content) (int_overflows total r) (λ e. tt)
      (λ e. content-Sound read total from r h)
content_length-Sound read (negsuc n) from r h = tt

Held-started :
    (read : ℕ) (r : Reader) → Held read r → Held read (record r { start_line = r.checked_idx })
Held-started read r h = record { all_read = h.all_read; started = omega arith; checked = h.checked }

read_round-Sound :
    (read : ℕ) (state : CheckState) (r : Reader)
    → Held read r
    → RoundSound r.checked_idx read state (read_round state r)
unfolding read_round
read_round-Sound read typeline r h = type_line-Sound read _ _ (Held-started read r h)
read_round-Sound read header r h = headers-Sound read _ _ (Held-started read r h)
read_round-Sound read content r h =
    content_length-Sound read r.content_length r.start_line _ (Held-started read r h)

-- The least index of a result: only a packet that is complete or bad moves past `low`.
abbrev pub floor : ResultCode → ℕ → ℕ
floor no_request low = 0
floor get_request low = low
floor bad_request low = low

-- The model had enough fuel, and the indices of the reader that is left are in order.
abbrev pub Lands : ℕ → ℕ → ReadResult → Type 0
Lands low read dead = Unit {0}
Lands low read exhausted = ⊥
Lands low read (done code r s) = Held read r × (floor code low ≤ r.checked_idx)

-- What the loop wants to start a round.
abbrev Ready : ℕ → ℕ → ℕ → LineStatus → Reader → Type 0
Ready fuel low read line_ok r =
    Held read r × ((read + 2 ≤ r.checked_idx + fuel) × (low ≤ r.checked_idx + step r.check_state))
Ready fuel low read line_bad r = ⊥
Ready fuel low read line_open r = Held read r × ((1 ≤ fuel) × (r.checked_idx ≡ read))

floor_le : (code : ResultCode) (low i : ℕ) → low ≤ i → floor code low ≤ i
floor_le no_request low i h = omega arith
floor_le get_request low i h = h
floor_le bad_request low i h = h

serve_complete-Lands :
    (env : Inputs) (me low read : ℕ) (r : Reader) (s : Server)
    → Held read r
    → low ≤ r.checked_idx
    → Lands low read (serve_complete env me r s)
unfolding serve_complete
serve_complete-Lands env me low read r s h k =
    elim (Option-cases (do_request env me r.method (body_bytes r.body) s)) [
      | inl e ↦ rw (e, serve_complete) tt
      | inr (s', e) ↦ rw (e, serve_complete) (h, k)
    ]

after_round-Lands :
    (env : Inputs) (me low read i fuel : ℕ) (state : CheckState) (s : Server)
    (again : LineStatus → Reader → ReadResult)
    → ((st : LineStatus) (r : Reader) → Ready fuel low read st r → Lands low read (again st r))
    → low ≤ i
    → i ≤ read
    → read + 2 + step state ≤ i + suc fuel
    → (round : Round) → RoundSound i read state round
    → Lands low read (after_round env me s again round)
unfolding after_round
after_round-Lands env me low read i fuel state s again ih l b e stopped h = tt
after_round-Lands env me low read i fuel state s again ih l b e (returned code r) (h, k) =
    (h, floor_le code low r.checked_idx (omega arith))
after_round-Lands env me low read i fuel state s again ih l b e (complete r) (h, k) =
    serve_complete-Lands env me low read r s h (omega arith)
after_round-Lands env me low read i fuel state s again ih l b e (further line_ok r) (h, (k, one)) =
    ih line_ok r (h, (omega arith, omega arith))
after_round-Lands env me low read i fuel state s again ih l b e (further line_bad r) h = absurd h
after_round-Lands env me low read i fuel state s again ih l b e (further line_open r) (h, k) =
    ih line_open r (h, (omega arith, k))

-- What the condition of the loop leaves.
abbrev LineSound : ℕ → ℕ → ℕ → LineStatus × Reader → Type 0
LineSound fuel low read (line_ok, r) =
    Held read r
    × ((low ≤ r.checked_idx) × (read + 2 + step r.check_state ≤ r.checked_idx + suc fuel))
LineSound fuel low read (line_bad, r) = Held read r
LineSound fuel low read (line_open, r) = Held read r

after_line-Lands :
    (env : Inputs) (me low read fuel : ℕ) (s : Server) (again : LineStatus → Reader → ReadResult)
    → ((st : LineStatus) (r : Reader) → Ready fuel low read st r → Lands low read (again st r))
    → (out : LineStatus × Reader) → LineSound fuel low read out
    → Lands low read (after_line env me s again out)
unfolding after_line
after_line-Lands env me low read fuel s again ih (line_ok, r) (h, (l, e)) =
    after_round-Lands env me low read r.checked_idx fuel r.check_state s again ih l h.checked e
      (read_round r.check_state r) (read_round-Sound read r.check_state r h)
after_line-Lands env me low read fuel s again ih (line_bad, r) h = (h, omega arith)
after_line-Lands env me low read fuel s again ih (line_open, r) h = (h, omega arith)

Scanned-Held :
    (read : ℕ) (r : Reader) (st : LineStatus) (r' : Reader)
    → Held read r
    → Scanned r st r'
    → Held read r'
Scanned-Held read r st r' h c = record {
  all_read = omega (arith, c.same_read, h.all_read);
  started = omega (arith, c.same_start, h.started, c.ahead);
  checked = omega (arith, c.within, h.all_read);
}

-- The results of parse_line, where a line that is found meets what the next round wants.
LineSound-Scanned :
    (fuel low read : ℕ) (r : Reader)
    → Held read r
    → ((r' : Reader)
        → r'.check_state ≡ r.check_state
        → r.checked_idx + 1 ≤ r'.checked_idx
        → r'.checked_idx ≤ read
        → (low ≤ r'.checked_idx) × (read + 2 + step r'.check_state ≤ r'.checked_idx + suc fuel))
    → (out : LineStatus × Reader) → IsScanned r out
    → LineSound fuel low read out
LineSound-Scanned fuel low read r h found (line_ok, r') c = (
  Scanned-Held read r line_ok r' h c,
  found r' c.same_state c.ahead (omega (arith, c.within, h.all_read)),
)
LineSound-Scanned fuel low read r h found (line_bad, r') c = Scanned-Held read r line_bad r' h c
LineSound-Scanned fuel low read r h found (line_open, r') c = Scanned-Held read r line_open r' h c

-- A line that parse_line looks for, in a state that waits for a line.
parse_line-LineSound :
    (fuel low read : ℕ) (r : Reader)
    → Held read r
    → ((r' : Reader)
        → r'.check_state ≡ r.check_state
        → r.checked_idx + 1 ≤ r'.checked_idx
        → r'.checked_idx ≤ read
        → (low ≤ r'.checked_idx) × (read + 2 + step r'.check_state ≤ r'.checked_idx + suc fuel))
    → LineSound fuel low read (parse_line r)
parse_line-LineSound fuel low read r h found =
    LineSound-Scanned fuel low read r h found (parse_line r)
      (parse_line-Scanned r (omega (arith, h.checked, h.all_read)))

next_line-LineSound :
    (fuel low read : ℕ) (status : LineStatus) (state : CheckState) (r : Reader)
    → r.check_state ≡ state
    → Ready (suc fuel) low read status r
    → LineSound fuel low read (next_line state status r)
unfolding next_line
next_line-LineSound fuel low read line_ok typeline r e (h, (enough, l)) =
    parse_line-LineSound fuel low read r h (λ r' same ahead within.
      let w : step r.check_state ≡ 1 = rw e refl in
      let w' : step r'.check_state ≡ 1 = rw (same, e) refl in (omega arith, omega arith))
next_line-LineSound fuel low read line_ok header r e (h, (enough, l)) =
    parse_line-LineSound fuel low read r h (λ r' same ahead within.
      let w : step r.check_state ≡ 1 = rw e refl in
      let w' : step r'.check_state ≡ 1 = rw (same, e) refl in (omega arith, omega arith))
next_line-LineSound fuel low read line_ok content r e (h, (enough, l)) =
    let w : step r.check_state ≡ 0 = rw e refl in (h, (omega arith, omega arith))
next_line-LineSound fuel low read line_bad state r e h = absurd h
next_line-LineSound fuel low read line_open typeline r e (h, (enough, all)) =
    parse_line-LineSound fuel low read r h (λ r' same ahead within. absurd (omega arith))
next_line-LineSound fuel low read line_open header r e (h, (enough, all)) =
    parse_line-LineSound fuel low read r h (λ r' same ahead within. absurd (omega arith))
next_line-LineSound fuel low read line_open content r e (h, (enough, all)) =
    parse_line-LineSound fuel low read r h (λ r' same ahead within. absurd (omega arith))

read_loop-Lands :
    (env : Inputs) (me low read fuel : ℕ) (status : LineStatus) (r : Reader) (s : Server)
    → Ready fuel low read status r
    → Lands low read (read_loop env me fuel status r s)
unfolding read_loop
read_loop-Lands env me low read zero line_ok r s (h, (enough, l)) =
    absurd (omega (arith, h.checked))
read_loop-Lands env me low read zero line_bad r s h = absurd h
read_loop-Lands env me low read zero line_open r s (h, (enough, all)) = absurd (omega arith)
read_loop-Lands env me low read (suc fuel) status r s h =
    after_line-Lands env me low read fuel s (λ st r'. read_loop env me fuel st r' s)
      (λ st r'. read_loop-Lands env me low read fuel st r' s) (next_line r.check_state status r)
      (next_line-LineSound fuel low read status r.check_state r refl h)

-- process_read always ends. The indices of the reader that it leaves are in order, and a packet
-- that is complete or bad has taken at least one byte, unless its body was being read already.
pub process_read-Lands :
    (env : Inputs) (me read : ℕ) (r : Reader) (s : Server)
    → Held read r
    → Lands (r.checked_idx + step r.check_state) read (process_read env me r s)
unfolding process_read
process_read-Lands env me read r s h =
    read_loop-Lands env me _ read (r.read_idx - r.checked_idx + 2) line_ok r s
      (h, (omega (arith, h.all_read, h.checked), omega arith))
