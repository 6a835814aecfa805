-- ===== src/Request/Reader/Lines.antt =====
-- A whole line of the read buffer under parse_line and get_line (Request/Reader.antt).
use native.Mathlib.Numerals.{unary_clauses}
use didactic_pancake_server.Prelude.{
  c_string, ℕ, zero, suc, ◌+◌, ◌-◌, ◌≤◌, ◌<◌, Bytes, false, none, some, [], ◌∷◌, ◌++◌, length,
  get_or, set, drop, ◌==◌, ◌≡◌, refl, arith, ap, sym,
}
use didactic_pancake_server.Request.Reader.{
  Reader, line_ok, cut, check_byte, scan_bytes, parse_line,
}

-- A text that parse_line does not cut: no '\r', '\n' or '\0'.
abbrev pub Clean : Bytes → Type 0
Clean [] = Unit {0}
Clean (c ∷ s) = ((c == 13) ≡ false) × (((c == 10) ≡ false) × (((c == 0) ≡ false) × Clean s))

get_or-drop : (buf : Bytes) (i c : ℕ) (s : Bytes) → drop i buf ≡ c ∷ s → get_or buf i 0 ≡ c
get_or-drop [] zero c s e = cc
get_or-drop [] (suc i) c s e = cc
get_or-drop (x ∷ xs) zero c s e = cc
get_or-drop (x ∷ xs) (suc i) c s e = get_or-drop xs i c s e

pub drop-suc : (buf : Bytes) (i c : ℕ) (s : Bytes) → drop i buf ≡ c ∷ s → drop (suc i) buf ≡ s
drop-suc [] zero c s e = cc
drop-suc [] (suc i) c s e = cc
drop-suc (x ∷ xs) zero c s e = cc
drop-suc (x ∷ xs) (suc i) c s e = drop-suc xs i c s e

zero_plus : (n : ℕ) → 0 + n ≡ n
zero_plus n = omega arith

plus_suc : (i : ℕ) → i + 1 ≡ suc i
plus_suc i = omega arith

suc_plus : (i n : ℕ) → suc i + n ≡ suc (i + n)
suc_plus i n = omega arith

-- A write behind the bytes that are dropped.
drop-set : (buf : Bytes) (i n v : ℕ) → drop i (set buf (i + n) v) ≡ set (drop i buf) n v
drop-set buf zero n v = rw (zero_plus n) refl
drop-set [] (suc i) zero v = refl
drop-set [] (suc i) (suc n) v = refl
drop-set (x ∷ xs) (suc i) n v = rw (suc_plus i n) (drop-set xs i n v)

pub drop-drop : (buf : Bytes) (i n : ℕ) → drop (i + n) buf ≡ drop n (drop i buf)
drop-drop buf zero n = rw (zero_plus n) refl
drop-drop [] (suc i) zero = simp unary_clauses refl
drop-drop [] (suc i) (suc n) = simp unary_clauses refl
drop-drop (x ∷ xs) (suc i) n = rw (suc_plus i n) (drop-drop xs i n)

plus_one : (i n : ℕ) → i + n + 1 ≡ i + (n + 1)
plus_one i n = omega arith

drop-cut : (buf : Bytes) (i n : ℕ) → drop i (cut (i + n) buf) ≡ cut n (drop i buf)
drop-cut buf i n =
    rw (plus_one i n, drop-set (set buf (i + n) 0) i (n + 1) 0, drop-set buf i n 0) refl

cut-append :
    (line post : Bytes) → cut (length line) (line ++ (13 ∷ (10 ∷ post))) ≡ line ++ (0 ∷ (0 ∷ post))
cut-append [] post = refl
cut-append (c ∷ line) post =
    simp unary_clauses (ap (λ s. c ∷ s) (simp unary_clauses at (cut-append line post)))

drop-append :
    (line : Bytes) (a b : ℕ) (post : Bytes)
    → drop (length line + 2) (line ++ (a ∷ (b ∷ post))) ≡ post
drop-append [] a b post = refl
drop-append (c ∷ line) a b post =
    simp unary_clauses (simp unary_clauses at (drop-append line a b post))

pub c_string-append : (line post : Bytes) → Clean line → c_string (line ++ (0 ∷ post)) ≡ line
unfolding c_string
c_string-append [] post h = refl
c_string-append (c ∷ line) post (h13, (h10, (h0, h))) = rw (h0, c_string-append line post h) refl

pub check_byte-clean :
    (r : Reader) (c : ℕ) (s : Bytes)
    → drop r.checked_idx r.read_buf ≡ c ∷ s
    → (c == 13) ≡ false
    → (c == 10) ≡ false
    → check_byte r ≡ none
unfolding check_byte
check_byte-clean r c s e h13 h10 = rw (get_or-drop r.read_buf r.checked_idx c s e, h13, h10) refl

-- The reader behind a line that ends at index `end`, as parse_line leaves it.
abbrev pub past_line : ℕ → Reader → Reader
past_line end r = record r { read_buf = cut end r.read_buf; checked_idx = end + 2 }

check_byte-end :
    (r : Reader) (post : Bytes)
    → drop r.checked_idx r.read_buf ≡ 13 ∷ (10 ∷ post)
    → r.checked_idx + 2 ≤ r.read_idx
    → check_byte r ≡ some (line_ok, past_line r.checked_idx r)
unfolding check_byte
check_byte-end r post e h =
    let first : get_or r.read_buf r.checked_idx 0 ≡ 13 =
      get_or-drop r.read_buf r.checked_idx 13 (10 ∷ post) e in
    let second : get_or r.read_buf (r.checked_idx + 1) 0 ≡ 10 =
      get_or-drop r.read_buf (r.checked_idx + 1) 10 post
        (rw (plus_suc r.checked_idx) (drop-suc r.read_buf r.checked_idx 13 (10 ∷ post) e)) in
    let room : (r.checked_idx + 1 == r.read_idx) ≡ false = ground arith in
    rw (first, room, second) refl

-- parse_line steps over the bytes of a line to its end.
scan_bytes-line :
    (line post : Bytes) (left end : ℕ) (r : Reader)
    → drop r.checked_idx r.read_buf ≡ line ++ (13 ∷ (10 ∷ post))
    → Clean line
    → r.checked_idx + length line ≡ end
    → length line < left
    → end + 2 ≤ r.read_idx
    → scan_bytes left r ≡ (line_ok, past_line end r)
unfolding scan_bytes
scan_bytes-line line post zero end r e c at_end h k = absurd (omega arith)
scan_bytes-line [] post (suc left) end r e c at_end h k =
    let here : r.checked_idx ≡ end = omega arith in
    rw (check_byte-end r post e (omega arith), scan_bytes) (ap (λ i. (line_ok, past_line i r)) here)
scan_bytes-line (x ∷ line) post (suc left) end r e (c13, (c10, (c0, c))) at_end h k =
    rw (check_byte-clean r x (line ++ (13 ∷ (10 ∷ post))) e c13 c10, scan_bytes)
      (scan_bytes-line line post left end (record r { checked_idx = suc r.checked_idx })
        (drop-suc r.read_buf r.checked_idx x (line ++ (13 ∷ (10 ∷ post))) e) c (omega arith)
        (omega arith) k)

pub parse_line-line :
    (line post : Bytes) (end : ℕ) (r : Reader)
    → drop r.checked_idx r.read_buf ≡ line ++ (13 ∷ (10 ∷ post))
    → Clean line
    → r.checked_idx + length line ≡ end
    → end + 2 ≤ r.read_idx
    → parse_line r ≡ (line_ok, past_line end r)
unfolding parse_line
parse_line-line line post end r e c at_end k =
    scan_bytes-line line post (r.read_idx - r.checked_idx) end r e c at_end (omega arith) k

-- get_line finds the line, and the bytes behind it are as they were.
pub c_string-past_line :
    (line post : Bytes) (end : ℕ) (r : Reader)
    → drop r.checked_idx r.read_buf ≡ line ++ (13 ∷ (10 ∷ post))
    → Clean line
    → r.checked_idx + length line ≡ end
    → c_string (drop r.checked_idx (cut end r.read_buf)) ≡ line
c_string-past_line line post end r e c at_end =
    rw (sym at_end, drop-cut r.read_buf r.checked_idx (length line), e, cut-append line post)
      (c_string-append line (0 ∷ post) c)

pub drop-past_line :
    (line post : Bytes) (end : ℕ) (r : Reader)
    → drop r.checked_idx r.read_buf ≡ line ++ (13 ∷ (10 ∷ post))
    → r.checked_idx + length line ≡ end
    → drop (end + 2) (cut end r.read_buf) ≡ post
drop-past_line line post end r e at_end =
    let assoc : end + 2 ≡ r.checked_idx + (length line + 2) = omega arith in
    rw
      (
        assoc,
        drop-drop (cut end r.read_buf) r.checked_idx (length line + 2),
        sym at_end,
        drop-cut r.read_buf r.checked_idx (length line),
        e,
        cut-append line post,
      )
      (drop-append line 0 0 post)
