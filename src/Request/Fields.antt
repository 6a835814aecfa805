-- ===== src/Request/Fields.antt =====
-- request/request_process.cpp: how the handlers take a packet's content apart. The argument is
-- m_content[0 .. l); each loop runs over i < l - 1, so it stops at the last byte.
pub mod Laws
pub mod Texts
use didactic_pancake_server.Prelude.{
  ℕ, zero, suc, ◌+◌, ◌-◌, Bytes, Bool, true, false, not, ◌&&◌, ◌||◌, Option, none, some, List, [],
  ◌∷◌, length, take, ltb, ◌==◌, if◌then◌else◌, same, is_digit, is_alpha,
}

-- login, regis: line 0 is the user's name, line 1 the password, further lines are dropped.
pub record Credentials : Type 0 where
  pub tar_user : Bytes
  pub password : Bytes

-- tar_user += c, password += c, or nothing, by the number of the line
abbrev pub add_byte : ℕ → ℕ → Credentials → Credentials
add_byte zero c r = record r { tar_user = c ∷ r.tar_user }
add_byte (suc zero) c r = record r { password = c ∷ r.password }
add_byte (suc (suc n)) c r = r

unfoldable pub scan_credentials : ℕ → Bytes → Credentials
scan_credentials line [] = record { tar_user = []; password = [] }
scan_credentials line (a ∷ []) = record { tar_user = []; password = [] }
scan_credentials line (a ∷ (b ∷ rest)) =
    let skip = scan_credentials (suc line) rest in
    let more = add_byte line a (scan_credentials line (b ∷ rest)) in
    if (a == 13) && (b == 10) then skip else more

-- search_user, add_friend, start_voice_chat: the first line.
unfoldable pub scan_line : Bytes → Bytes
scan_line [] = []
scan_line (a ∷ []) = []
scan_line (a ∷ (b ∷ rest)) =
    let more = a ∷ scan_line (b ∷ rest) in if (a == 13) && (b == 10) then [] else more

-- reconnect, delete_friend: every byte but the line ends.
unfoldable pub scan_all : Bytes → Bytes
scan_all [] = []
scan_all (a ∷ []) = []
scan_all (a ∷ (b ∷ rest)) =
    let skip = scan_all rest in
    let more = a ∷ scan_all (b ∷ rest) in if (a == 13) && (b == 10) then skip else more

-- reply_friend_request: the name, and the last byte of line 1 (`choose` starts as '\0').
pub record Answer : Type 0 where
  pub tar_user : Bytes
  pub choose : ℕ

abbrev pub answer_byte : ℕ → ℕ → Answer → Answer
answer_byte zero c r = record r { tar_user = c ∷ r.tar_user }
answer_byte (suc zero) c r = r
answer_byte (suc (suc n)) c r = r

-- choose = c on line 1
abbrev pub chosen : ℕ → ℕ → ℕ → ℕ
chosen (suc zero) c choose = c
chosen _ c choose = choose

unfoldable pub scan_answer : ℕ → ℕ → Bytes → Answer
scan_answer line choose [] = record { tar_user = []; choose = choose }
scan_answer line choose (a ∷ []) = record { tar_user = []; choose = choose }
scan_answer line choose (a ∷ (b ∷ rest)) =
    let skip = scan_answer (suc line) choose rest in
    let more = answer_byte line a (scan_answer line (chosen line a choose) (b ∷ rest)) in
    if (a == 13) && (b == 10) then skip else more

-- send_message: the message's id, the receiver, and the text between the second line end and the
-- last two bytes.
pub record Message : Type 0 where
  pub msg_id : Bytes
  pub tar_user : Bytes
  pub content : Bytes

-- string(m_content + i + 2, m_content + l - 2): the constructor throws (`none`) where the range
-- runs backwards, which is where fewer than two bytes follow.
unfoldable pub text_range : Bytes → Option Bytes
text_range rest = if ltb (length rest) 2 then none else some (take (length rest - 2) rest)

abbrev pub message_of : Option Bytes → Option Message
message_of none = none
message_of (some text) = some (record { msg_id = []; tar_user = []; content = text })

abbrev pub message_byte : ℕ → ℕ → Option Message → Option Message
message_byte line c none = none
message_byte zero c (some m) = some (record m { msg_id = c ∷ m.msg_id })
message_byte (suc line) c (some m) = some (record m { tar_user = c ∷ m.tar_user })

-- `line` is 0 or 1: the second line end stops the loop.
unfoldable pub scan_message : ℕ → Bytes → Option Message
scan_message line [] = some (record { msg_id = []; tar_user = []; content = [] })
scan_message line (a ∷ []) = some (record { msg_id = []; tar_user = []; content = [] })
scan_message line (a ∷ (b ∷ rest)) =
    let skip = scan_message (suc line) rest in
    let more = message_byte line a (scan_message line (b ∷ rest)) in
    if (a == 13) && (b == 10)
    then (if ltb (suc line) 2 then skip else message_of (text_range rest))
    else more

-- The loop that sets isNice to false at a byte that is no digit and no letter.
unfoldable pub all_alnum : Bytes → Bool
all_alnum [] = true
all_alnum (c ∷ s) = (is_digit c || is_alpha c) && all_alnum s

unfoldable pub all_digits : Bytes → Bool
all_digits [] = true
all_digits (c ∷ s) = is_digit c && all_digits s

-- isNice for a name or a password: 1 to 16 bytes, digits and letters.
unfoldable pub is_nice : Bytes → Bool
is_nice s = if ltb 16 (length s) || same s [] then false else all_alnum s

-- isNice for a session id: 1 to 18 digits.
unfoldable pub is_nice_session : Bytes → Bool
is_nice_session s = if ltb 18 (length s) || same s [] then false else all_digits s

-- send_message: a '\' before each ' and each \, by content.insert.
unfoldable pub escape : Bytes → Bytes
escape [] = []
escape (c ∷ s) = let rest = escape s in if (c == 39) || (c == 92) then 92 ∷ c ∷ rest else c ∷ rest
