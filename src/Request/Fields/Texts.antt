-- ===== src/Request/Fields/Texts.antt =====
-- The text of a message: what send_message reads, when it throws, and the escaping for SQL.
use didactic_pancake_server.Prelude.{
  ℕ, ◌-◌, ◌<◌, Bytes, ◌||◌, Option, none, some, [], ◌∷◌, ◌++◌, length, length-append, take,
  take-append, ◌==◌, if◌then◌else◌, crlf, ◌≡◌, refl, ap, arith,
}
use didactic_pancake_server.Request.Fields.{scan_message, text_range, escape}
use didactic_pancake_server.Request.Fields.Laws.{NoCr}

-- A client's message: id, receiver, text, each with a line end.
abbrev pub print_message : Bytes → Bytes → Bytes → Bytes
print_message msg_id tar text = msg_id ++ (crlf ++ (tar ++ (crlf ++ (text ++ crlf))))

text_range-print : (text : Bytes) → text_range (text ++ crlf) ≡ some text
unfolding text_range
text_range-print text = ground (
  arith,
  length-append text crlf,
  ap (λ n. take n (text ++ crlf)) (count text),
  take-append text crlf,
)
  where
    count : (t : Bytes) → length (t ++ crlf) - 2 ≡ length t
    count t = omega (arith, length-append t crlf)

scan_receiver :
    (tar text : Bytes)
    → NoCr tar
    → scan_message 1 (tar ++ (crlf ++ (text ++ crlf)))
      ≡ some (record { msg_id = []; tar_user = tar; content = text })
unfolding scan_message
scan_receiver [] text h = ground (arith, text_range-print text)
scan_receiver (c ∷ []) text h = ground (arith, text_range-print text)
scan_receiver (c ∷ (d ∷ rest)) text h = ground (arith, scan_receiver (d ∷ rest) text h.1)

-- send_message reads back id, receiver and text; the text may hold any bytes.
pub scan_message-print :
    (msg_id tar text : Bytes)
    → NoCr msg_id
    → NoCr tar
    → scan_message 0 (print_message msg_id tar text)
      ≡ some (record { msg_id = msg_id; tar_user = tar; content = text })
unfolding scan_message
scan_message-print [] tar text h k = ground (arith, scan_receiver tar text k)
scan_message-print (c ∷ []) tar text h k = ground (arith, scan_receiver tar text k)
scan_message-print (c ∷ (d ∷ rest)) tar text h k =
    ground (arith, scan_message-print (d ∷ rest) tar text h.1 k)

scan_receiver_throws :
    (tar rest : Bytes) → NoCr tar → length rest < 2 → scan_message 1 (tar ++ (crlf ++ rest)) ≡ none
unfolding scan_message text_range
scan_receiver_throws [] rest h short = ground arith
scan_receiver_throws (c ∷ []) rest h short = ground arith
scan_receiver_throws (c ∷ (d ∷ more)) rest h short =
    ground (arith, scan_receiver_throws (d ∷ more) rest h.1 short)

-- Where fewer than two bytes follow the second line end, the std::string constructor throws.
pub scan_message_throws :
    (msg_id tar rest : Bytes)
    → NoCr msg_id
    → NoCr tar
    → length rest < 2
    → scan_message 0 (msg_id ++ (crlf ++ (tar ++ (crlf ++ rest)))) ≡ none
unfolding scan_message
scan_message_throws [] tar rest h k short = ground (arith, scan_receiver_throws tar rest k short)
scan_message_throws (c ∷ []) tar rest h k short =
    ground (arith, scan_receiver_throws tar rest k short)
scan_message_throws (c ∷ (d ∷ more)) tar rest h k short =
    ground (arith, scan_message_throws (d ∷ more) tar rest h.1 k short)

abbrev pub prepend : ℕ → Option Bytes → Option Bytes
prepend x none = none
prepend x (some r) = some (x ∷ r)

-- A reader for the inside of a quoted literal, by the rules that MySQL documents for \' and \\:
-- a \ before one of the two bytes stands for that byte, and a bare ' ends the literal. `none` where
-- the literal ends early, and at the other escape sequences.
abbrev pub unescape : Bytes → Option Bytes
unescape [] = some []
unescape (c ∷ []) = if (c == 39) || (c == 92) then none else some (c ∷ [])
unescape (c ∷ (d ∷ s)) =
    let escaped = prepend d (unescape s) in
    let plain = prepend c (unescape (d ∷ s)) in
    if c == 92
    then (if (d == 39) || (d == 92) then escaped else none)
    else if c == 39
    then none
    else plain

-- The escaped text stays inside of its literal, and the literal stands for the text.
pub unescape-escape : (text : Bytes) → unescape (escape text) ≡ some text
unfolding escape
unescape-escape [] = refl
unescape-escape (c ∷ []) = ground arith
unescape-escape (c ∷ (d ∷ s)) = ground (arith, unescape-escape (d ∷ s))
