-- ===== src/Request/Reader.antt =====
-- request/request_process.cpp: the read buffer of a connection, and the state machine that takes
-- packets out of it: parse_line, parse_type_line, parse_headers, parse_content and
-- init_read. Request/Reader/Process has process_read and process, Request/Reader/Input has read.
pub mod Bounds
pub mod Digits
pub mod Headed
pub mod Input
pub mod Lines
pub mod Packets
pub mod Passes
pub mod Pipeline
pub mod RoundTrip
pub mod Process
pub mod Rounds
use Prim.Native.String.{String}
use didactic_pancake_server.Prelude.{
  ℕ, zero, suc, ◌+◌, ◌-◌, ◌*◌, ◌/◌, ◌%◌, ◌^◌, ◌≤◌, ◌<◌, Bytes, lit, same, is_digit, Bool, true,
  false, not, ◌&&◌, ◌||◌, Option, none, some, List, [], ◌∷◌, ◌++◌, map, length, get_or, set, take,
  drop, replicate, ltb, leb, ◌==◌, if◌then◌else◌,
}
use didactic_pancake_server.Prelude.Int.{ℤ, pos, negsuc}
use didactic_pancake_server.Request.Packet.{
  PacketType, hbt, lgn, rgt, lgt, scu, adf, def, rfr, rcn, gfi, afi, dfi, sma, rma, rdy, sav, rav,
  soc, roc, aoc, doc, eoc, req_to_string,
}
use didactic_pancake_server.Request.Server.{Server, Inputs}
use didactic_pancake_server.Request.Dispatch.{do_request}

abbrev pub read_buffer_size : ℕ
read_buffer_size = 1024

-- enum CHECK_STATE, LINE_STATUS, RESULT_CODE
pub data CheckState : Type 0 where
  typeline header content : CheckState

pub data LineStatus : Type 0 where
  line_ok line_bad line_open : LineStatus

pub data ResultCode : Type 0 where
  no_request get_request bad_request : ResultCode

-- The members of a requestProcess that describe the packet being read. `body` is m_content with the
-- bytes copied so far, and none for nullptr.
pub record Reader : Type 0 where
  pub read_buf : Bytes
  pub read_idx : ℕ
  pub checked_idx : ℕ
  pub start_line : ℕ
  pub check_state : CheckState
  pub method : PacketType
  pub content_length : ℤ
  pub content_len_have_read : ℕ
  pub body : Option Bytes

-- init_read
abbrev pub init_read : Reader
init_read = record {
  read_buf = replicate read_buffer_size 0;
  read_idx = 0;
  checked_idx = 0;
  start_line = 0;
  check_state = typeline;
  method = hbt;
  content_length = pos 0;
  content_len_have_read = 0;
  body = none;
}

-- m_read_buf[i] = '\0'; m_read_buf[i + 1] = '\0'
abbrev pub cut : ℕ → Bytes → Bytes
cut i buf = set (set buf i 0) (i + 1) 0

-- One byte of `parse_line`, at m_checked_idx: the status with which the function returns, or none if
-- the loop goes on.
unfoldable pub check_byte : Reader → Option (LineStatus × Reader)
check_byte r =
    let i = r.checked_idx in
    let c = get_or r.read_buf i 0 in
    if c == 13
    then (if (i + 1) == r.read_idx
        then some (line_open, r)
        else if get_or r.read_buf (i + 1) 0 == 10
        then some (line_ok, record r { read_buf = cut i r.read_buf; checked_idx = i + 2 })
        else some (line_bad, r))
    else if c == 10
    then (if ltb 1 i && (get_or r.read_buf (i - 1) 0 == 13)
        then some (line_ok, record r { read_buf = cut (i - 1) r.read_buf; checked_idx = i + 1 })
        else some (line_bad, r))
    else none

-- The loop of `parse_line`, with the bytes that are left as fuel.
unfoldable pub scan_bytes : ℕ → Reader → LineStatus × Reader
scan_bytes zero r = (line_open, r)
scan_bytes (suc left) r = elim (check_byte r) [
  | some out ↦ out
  | none ↦ scan_bytes left (record r { checked_idx = suc r.checked_idx })
]

unfoldable pub parse_line : Reader → LineStatus × Reader
unfolding scan_bytes
parse_line r = scan_bytes (r.read_idx - r.checked_idx) r

-- tolower in the C locale, as strcasecmp compares
abbrev pub to_lower : ℕ → ℕ
to_lower c = if leb 65 c && leb c 90 then c + 32 else c

-- strcasecmp(a, b) == 0
unfoldable pub same_case : Bytes → Bytes → Bool
same_case a b = same (map to_lower a) (map to_lower b)

-- The types that parse_type_line knows, in its order.
abbrev pub known_types : List PacketType
known_types =
    hbt ∷ lgn ∷ rgt ∷ lgt ∷ scu ∷ adf ∷ def ∷ rfr ∷ rcn ∷ gfi ∷ afi ∷ dfi ∷ sma ∷ rma ∷ rdy ∷ sav
    ∷ rav ∷ soc ∷ roc ∷ aoc ∷ doc ∷ eoc ∷ []

unfoldable pub find_type : Bytes → List PacketType → Option PacketType
find_type text [] = none
find_type text (p ∷ ps) =
    let rest = find_type text ps in if same_case text (req_to_string p) then some p else rest

unfoldable pub parse_type_line : Bytes → Reader → ResultCode × Reader
parse_type_line text r = elim (find_type text known_types) [
  | none ↦ (bad_request, r)
  | some p ↦ (no_request, record r { method = p; check_state = header })
]

-- The value of the digits at the front.
unfoldable pub digits_value : ℕ → Bytes → ℕ
digits_value n [] = n
digits_value n (c ∷ s) =
    let more = digits_value (n * 10 + (c - 48)) s in if is_digit c then more else n

-- A long as an int: the low 32 bits.
unfoldable pub int_of : ℕ → ℤ
int_of n = let low = n % 2 ^ 32 in if ltb low (2 ^ 31) then pos low else negsuc (2 ^ 32 - low - 1)

-- isspace
abbrev pub is_space : ℕ → Bool
is_space c = (c == 32) || (leb 9 c && leb c 13)

-- atol, and the conversion to int: space, a sign, digits; a value outside of a long is clamped.
unfoldable pub clamp_long : ℕ → ℕ → ℕ
clamp_long bound n = if ltb bound n then bound else n

unfoldable pub atol_signed : Bytes → ℤ
unfolding int_of clamp_long
atol_signed [] = pos 0
atol_signed (c ∷ s) =
    if c == 45
    then int_of (2 ^ 64 - clamp_long (2 ^ 63) (digits_value 0 s))
    else if c == 43
    then int_of (clamp_long (2 ^ 63 - 1) (digits_value 0 s))
    else int_of (clamp_long (2 ^ 63 - 1) (digits_value 0 (c ∷ s)))

unfoldable pub atol : Bytes → ℤ
unfolding atol_signed
atol [] = pos 0
atol (c ∷ s) = let skip = atol s in if is_space c then skip else atol_signed (c ∷ s)

-- text += strspn(text, " \t")
unfoldable pub skip_blanks : Bytes → Bytes
skip_blanks [] = []
skip_blanks (c ∷ s) = let rest = skip_blanks s in if (c == 32) || (c == 9) then rest else c ∷ s

unfoldable pub is_zero : ℤ → Bool
is_zero (pos zero) = true
is_zero (pos (suc n)) = false
is_zero (negsuc n) = false

unfoldable pub parse_headers : Bytes → Reader → ResultCode × Reader
parse_headers text r =
    if same text []
    then (if is_zero r.content_length
        then (get_request, r)
        else (no_request, record r { check_state = content }))
    else if same_case (take 15 text) (lit "Content-Length:")
    then (no_request, record r { content_length = atol (skip_blanks (drop 15 text)) })
    else (no_request, r)

unfoldable pub body_bytes : Option Bytes → Bytes
body_bytes none = []
body_bytes (some b) = b

-- memcpy to m_content + have, of `n` bytes from m_read_buf + from
unfoldable pub copy_body : ℕ → ℕ → ℕ → Reader → Bytes
copy_body have from n r = take have (body_bytes r.body) ++ take n (drop from r.read_buf)

-- parse_content with the length `total`, for the text at m_read_buf + from.
unfoldable pub parse_content_of : ℕ → ℕ → Reader → ResultCode × Reader
unfolding copy_body
parse_content_of total from r =
    let left = total - r.content_len_have_read in
    let here = r.read_idx - r.checked_idx in
    if leb (left + r.checked_idx) r.read_idx
    then (
      get_request,
      record r {
        body = some (copy_body r.content_len_have_read from left r);
        checked_idx = r.checked_idx + left;
        start_line = r.checked_idx + left;
        content_len_have_read = total;
      },
    )
    else (
      no_request,
      record r {
        body = some (copy_body r.content_len_have_read from here r);
        content_len_have_read = r.content_len_have_read + here;
        start_line = r.read_idx;
        checked_idx = r.read_idx;
      },
    )
