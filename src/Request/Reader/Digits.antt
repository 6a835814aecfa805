-- ===== src/Request/Reader/Digits.antt =====
-- The number that parse_headers reads with atol (Request/Reader.antt) from the digits of
-- std::to_string.
use didactic_pancake_server.Prelude.{
  ℕ, zero, suc, ◌+◌, ◌-◌, ◌*◌, ◌/◌, ◌%◌, ◌^◌, ◌≤◌, ◌<◌, Bytes, true, false, [], ◌∷◌, ◌++◌, is_digit,
  digits_from, to_string, ltb, ◌==◌, ◌≡◌, refl, arith, if_rule,
}
use didactic_pancake_server.Prelude.Int.{pos}
use didactic_pancake_server.Request.Reader.{
  digits_value, int_of, clamp_long, atol_signed, atol, is_space, skip_blanks,
}
use didactic_pancake_server.Request.Reader.Lines.{Clean}

abbrev pub Digits : Bytes → Type 0
Digits [] = Unit {0}
Digits (c ∷ s) = ((48 ≤ c) × (c ≤ 57)) × Digits s

digit : (c : ℕ) → 48 ≤ c → c ≤ 57 → is_digit c ≡ true
digit c h k = ground arith

Digits-append : (s : Bytes) (d : ℕ) → Digits s → 48 ≤ d → d ≤ 57 → Digits (s ++ (d ∷ []))
Digits-append [] d h a b = ((a, b), tt)
Digits-append (c ∷ s) d (hc, h) a b = (hc, Digits-append s d h a b)

pub digits_from-Digits : (f n : ℕ) → Digits (digits_from f n)
unfolding digits_from
digits_from-Digits zero n = tt
digits_from-Digits (suc f) n =
    if_rule Digits (ltb n 10) (λ e. ((omega arith, ground arith), tt))
      (λ e.
        Digits-append (digits_from f (n / 10)) (48 + n % 10) (digits_from-Digits f (n / 10))
          (omega arith) (omega arith))

digits_value-append :
    (s : Bytes) (a d : ℕ)
    → Digits s
    → 48 ≤ d
    → d ≤ 57
    → digits_value a (s ++ (d ∷ [])) ≡ digits_value a s * 10 + (d - 48)
unfolding digits_value
digits_value-append [] a d h k l = rw (digit d k l) refl
digits_value-append (c ∷ s) a d ((hc, kc), h) k l =
    rw (digit c hc kc) (digits_value-append s (a * 10 + (c - 48)) d h k l)

digits_value-one : (n : ℕ) → n < 10 → digits_value 0 ((48 + n) ∷ []) ≡ n
unfolding digits_value
digits_value-one n h = rw (digit (48 + n) (omega arith) (omega arith)) (omega arith)

digits_value-digits_from : (f n : ℕ) → n < f → digits_value 0 (digits_from f n) ≡ n
unfolding digits_from
digits_value-digits_from zero n h = absurd (omega arith)
digits_value-digits_from (suc f) n h =
    if_rule (λ s. digits_value 0 s ≡ n) (ltb n 10) (λ e. digits_value-one n (ground arith))
      (λ e.
        let rest : digits_value 0 (digits_from f (n / 10)) ≡ n / 10 =
          digits_value-digits_from f (n / 10) (ground arith) in
        rw
          (
            digits_value-append (digits_from f (n / 10)) 0 (48 + n % 10)
                (digits_from-Digits f (n / 10)) (omega arith) (omega arith),
            rest,
          )
          (omega arith))

-- A text that starts with a digit has no sign and no space in front.
atol-digits :
    (c : ℕ) (s : Bytes)
    → 48 ≤ c
    → c ≤ 57
    → atol (c ∷ s) ≡ int_of (clamp_long (2 ^ 63 - 1) (digits_value 0 (c ∷ s)))
unfolding atol atol_signed
atol-digits c s h k =
    let space : is_space c ≡ false = ground arith in
    let minus : (c == 45) ≡ false = ground arith in
    let plus : (c == 43) ≡ false = ground arith in rw (space, minus, plus) refl

int_of-small : (n : ℕ) → n < 2 ^ 31 → int_of (clamp_long (2 ^ 63 - 1) n) ≡ pos n
unfolding int_of clamp_long
int_of-small n h =
    let fits : ltb (2 ^ 63 - 1) n ≡ false = ground arith in
    let low : n % 2 ^ 32 ≡ n = omega arith in
    let positive : ltb n (2 ^ 31) ≡ true = ground arith in rw (fits, low, positive) refl

abbrev HasDigits : Bytes → Type 0
HasDigits [] = ⊥
HasDigits (c ∷ s) = Digits (c ∷ s)

HasDigits-append : (s : Bytes) (d : ℕ) → Digits (s ++ (d ∷ [])) → HasDigits (s ++ (d ∷ []))
HasDigits-append [] d h = h
HasDigits-append (c ∷ s) d h = h

to_string-HasDigits : (n : ℕ) → HasDigits (to_string n)
unfolding to_string digits_from
to_string-HasDigits n =
    if_rule HasDigits (ltb n 10) (λ e. ((omega arith, ground arith), tt))
      (λ e. HasDigits-append (digits_from n (n / 10)) (48 + n % 10) (
        Digits-append (digits_from n (n / 10)) (48 + n % 10) (digits_from-Digits n (n / 10))
          (omega arith) (omega arith)))

digits_value-to_string : (n : ℕ) → digits_value 0 (to_string n) ≡ n
unfolding to_string
digits_value-to_string n = digits_value-digits_from (suc n) n (omega arith)

atol-HasDigits :
    (s : Bytes) → HasDigits s → atol s ≡ int_of (clamp_long (2 ^ 63 - 1) (digits_value 0 s))
atol-HasDigits [] h = absurd h
atol-HasDigits (c ∷ s) ((h, k), rest) = atol-digits c s h k

skip_blanks-HasDigits : (s : Bytes) → HasDigits s → skip_blanks (32 ∷ s) ≡ s
unfolding skip_blanks
skip_blanks-HasDigits [] h = absurd h
skip_blanks-HasDigits (c ∷ s) ((h, k), rest) =
    let space : (c == 32) ≡ false = ground arith in
    let tab : (c == 9) ≡ false = ground arith in rw (space, tab) refl

-- What parse_headers reads behind "Content-Length:".
pub atol-to_string : (n : ℕ) → n < 2 ^ 31 → atol (skip_blanks (32 ∷ to_string n)) ≡ pos n
atol-to_string n h =
    rw
      (
        skip_blanks-HasDigits (to_string n) (to_string-HasDigits n),
        atol-HasDigits (to_string n) (to_string-HasDigits n),
        digits_value-to_string n,
      )
      (int_of-small n h)

Clean-Digits : (s : Bytes) → Digits s → Clean s
Clean-Digits [] h = tt
Clean-Digits (c ∷ s) ((h, k), rest) =
    (ground arith, (ground arith, (ground arith, Clean-Digits s rest)))

pub Clean-to_string : (n : ℕ) → Clean (to_string n)
unfolding to_string
Clean-to_string n = Clean-Digits (to_string n) (digits_from-Digits (suc n) n)
