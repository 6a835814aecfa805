-- ===== src/Request/Reader/Bounds.antt =====
-- The indices of the reader under parse_line (Request/Reader.antt).
use didactic_pancake_server.Prelude.{
  if_rule, Option-cases, ℕ, zero, suc, ◌+◌, ◌-◌, ◌≤◌, ◌<◌, Option, none, some, inl, inr, get_or,
  ltb, ◌==◌, ◌&&◌, ◌≡◌, refl, arith,
}
use didactic_pancake_server.Request.Reader.{
  Reader, LineStatus, line_ok, line_bad, line_open, check_byte, scan_bytes, parse_line,
}

abbrev pub least : LineStatus → ℕ
least line_ok = 1
least line_bad = 0
least line_open = 0

-- What parse_line leaves: it moves m_checked_idx, past at least one byte if it found a line, and
-- never past m_read_idx.
pub record Scanned (r : Reader) (st : LineStatus) (r' : Reader) : Type 0 where
  pub same_read : r'.read_idx ≡ r.read_idx
  pub same_start : r'.start_line ≡ r.start_line
  pub same_state : r'.check_state ≡ r.check_state
  pub ahead : r.checked_idx + least st ≤ r'.checked_idx
  pub within : r'.checked_idx ≤ r.read_idx

abbrev ScannedByte : Reader → Option (LineStatus × Reader) → Type 0
ScannedByte r none = Unit
ScannedByte r (some (st, r')) = Scanned r st r'

check_byte-Scanned : (r : Reader) → r.checked_idx < r.read_idx → ScannedByte r (check_byte r)
unfolding check_byte
check_byte-Scanned r h =
    let P : Option (LineStatus × Reader) → Type 0 = ScannedByte r in
    let i = r.checked_idx in
    let c = get_or r.read_buf i 0 in
    let stays : (st : LineStatus) → least st ≡ 0 → Scanned r st r = λ st e. record {
      same_read = refl;
      same_start = refl;
      same_state = refl;
      ahead = omega arith;
      within = omega arith;
    } in
    if_rule P (c == 13)
      (λ e.
        if_rule P ((i + 1) == r.read_idx) (λ e1. stays line_open refl)
          (λ e1.
            if_rule P (get_or r.read_buf (i + 1) 0 == 10)
              (λ e2. record {
                same_read = refl;
                same_start = refl;
                same_state = refl;
                ahead = omega arith;
                within = ground arith;
              })
              (λ e2. stays line_bad refl)))
      (λ e.
        if_rule P (c == 10)
          (λ e1.
            if_rule P (ltb 1 i && (get_or r.read_buf (i - 1) 0 == 13))
              (λ e2. record {
                same_read = refl;
                same_start = refl;
                same_state = refl;
                ahead = omega arith;
                within = omega arith;
              })
              (λ e2. stays line_bad refl))
          (λ e1. tt))

abbrev pub IsScanned : Reader → LineStatus × Reader → Type 0
IsScanned r (st, r') = Scanned r st r'

scan_bytes-Scanned :
    (left : ℕ) (r : Reader) → r.checked_idx + left ≡ r.read_idx → IsScanned r (scan_bytes left r)
unfolding scan_bytes
scan_bytes-Scanned zero r h = record {
  same_read = refl;
  same_start = refl;
  same_state = refl;
  ahead = omega arith;
  within = omega arith;
}
scan_bytes-Scanned (suc left) r h =
    let here : ScannedByte r (check_byte r) = check_byte-Scanned r (omega arith) in
    elim (Option-cases (check_byte r)) [
      | inl e ↦
          let next = record r { checked_idx = suc r.checked_idx } in
          let there : IsScanned next (scan_bytes left next) =
            scan_bytes-Scanned left next (omega arith) in
          rw (e, scan_bytes)
            (record {
              same_read = there.same_read;
              same_start = there.same_start;
              same_state = there.same_state;
              ahead = omega (arith, there.ahead);
              within = there.within;
            })
      | inr (out, e) ↦ rw (e, scan_bytes) (rw e at here)
    ]

-- parse_line moves m_checked_idx only, never past m_read_idx, and past a byte if it finds a line.
pub parse_line-Scanned : (r : Reader) → r.checked_idx ≤ r.read_idx → IsScanned r (parse_line r)
unfolding parse_line
parse_line-Scanned r h = scan_bytes-Scanned (r.read_idx - r.checked_idx) r (omega arith)
