-- ===== src/Request/Fields/Laws.antt =====
-- What the handlers' scanners read from content that a client has printed.
use didactic_pancake_server.Prelude.{
  ℕ, ◌≤◌, Bytes, true, ◌&&◌, [], ◌∷◌, ◌++◌, length, ◌==◌, crlf, ◌≡◌, refl, ap, ◌∙◌, ◌≢◌, arith,
  if_rule,
}
use didactic_pancake_server.Request.Fields.{
  scan_credentials, scan_line, scan_all, scan_answer, all_alnum, all_digits, is_nice,
  is_nice_session,
}

-- No carriage return among the bytes.
abbrev pub NoCr : Bytes → Type 0
NoCr [] = Unit {0}
NoCr (c ∷ s) = (c ≢ 13) × NoCr s

pub NoCr-all_alnum : (s : Bytes) → all_alnum s ≡ true → NoCr s
unfolding all_alnum
NoCr-all_alnum [] h = tt
NoCr-all_alnum (c ∷ s) h = (ground arith, NoCr-all_alnum s (ground arith))

NoCr-all_digits : (s : Bytes) → all_digits s ≡ true → NoCr s
unfolding all_digits
NoCr-all_digits [] h = tt
NoCr-all_digits (c ∷ s) h = (ground arith, NoCr-all_digits s (ground arith))

pub all_alnum-is_nice : (s : Bytes) → is_nice s ≡ true → all_alnum s ≡ true
unfolding is_nice
all_alnum-is_nice s h = ground arith

pub length-is_nice : (s : Bytes) → is_nice s ≡ true → length s ≤ 16
unfolding is_nice
length-is_nice s h = ground arith

pub NoCr-is_nice : (s : Bytes) → is_nice s ≡ true → NoCr s
NoCr-is_nice s h = NoCr-all_alnum s (all_alnum-is_nice s h)

-- A client's credentials: two lines.
abbrev pub print_credentials : Bytes → Bytes → Bytes
print_credentials user password = user ++ (crlf ++ (password ++ crlf))

scan_password :
    (password : Bytes)
    → NoCr password
    → scan_credentials 1 (password ++ crlf) ≡ record { tar_user = []; password = password }
unfolding scan_credentials
scan_password [] h = refl
scan_password (c ∷ []) h = ground arith
scan_password (c ∷ (d ∷ rest)) h = ground (arith, scan_password (d ∷ rest) h.1)

-- `login` and `regis` read back the two lines.
pub scan_credentials-print :
    (user password : Bytes)
    → NoCr user
    → NoCr password
    → scan_credentials 0 (print_credentials user password)
      ≡ record { tar_user = user; password = password }
unfolding scan_credentials
scan_credentials-print [] password h k = ground (arith, scan_password password k)
scan_credentials-print (c ∷ []) password h k = ground (arith, scan_password password k)
scan_credentials-print (c ∷ (d ∷ rest)) password h k =
    ground (arith, scan_credentials-print (d ∷ rest) password h.1 k)

-- The handlers that take one name read back a line.
pub scan_line-print : (name : Bytes) → NoCr name → scan_line (name ++ crlf) ≡ name
unfolding scan_line
scan_line-print [] h = refl
scan_line-print (c ∷ []) h = ground arith
scan_line-print (c ∷ (d ∷ rest)) h = ground (arith, scan_line-print (d ∷ rest) h.1)

scan_all-cons :
    (c d : ℕ) (rest : Bytes) → c ≢ 13 → scan_all (c ∷ (d ∷ rest)) ≡ c ∷ scan_all (d ∷ rest)
unfolding scan_all
scan_all-cons c d rest h =
    if_rule (λ r. r ≡ c ∷ scan_all (d ∷ rest)) ((c == 13) && (d == 10))
      (λ e. absurd (h (ground arith))) (λ e. refl)

scan_all-crlf : (c : ℕ) → c ≢ 13 → scan_all (c ∷ crlf) ≡ c ∷ []
scan_all-crlf c h = scan_all-cons c 13 (10 ∷ []) h ∙ ap (λ r. c ∷ r) end
  where
    end : scan_all crlf ≡ []
    end = unfold scan_all in refl

pub scan_all-print : (name : Bytes) → NoCr name → scan_all (name ++ crlf) ≡ name
scan_all-print [] h = unfold scan_all in refl
scan_all-print (c ∷ []) h = scan_all-crlf c h.0
scan_all-print (c ∷ (d ∷ rest)) h =
    scan_all-cons c d (rest ++ crlf) h.0 ∙ ap (λ r. c ∷ r) (scan_all-print (d ∷ rest) h.1)

-- An answer: a name and one byte.
pub scan_answer-print :
    (name : Bytes) (choose old : ℕ)
    → NoCr name
    → choose ≢ 13
    → scan_answer 0 old (name ++ (crlf ++ (choose ∷ crlf)))
      ≡ record { tar_user = name; choose = choose }
unfolding scan_answer
scan_answer-print [] choose old h k = ground arith
scan_answer-print (c ∷ []) choose old h k = ground arith
scan_answer-print (c ∷ (d ∷ rest)) choose old h k =
    ground (arith, scan_answer-print (d ∷ rest) choose old h.1 k)

pub length-is_nice_session : (s : Bytes) → is_nice_session s ≡ true → length s ≤ 18
unfolding is_nice_session
length-is_nice_session s h = ground arith

pub NoCr-is_nice_session : (s : Bytes) → is_nice_session s ≡ true → NoCr s
unfolding is_nice_session
NoCr-is_nice_session s h = NoCr-all_digits s (ground arith)
