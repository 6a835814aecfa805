-- ===== src/Config/Loader/Printed.antt =====
-- The file that print_entries of Config.antt writes, as Loader.antt reads it.
use mathlib.Core.List.{map, append_assoc}
use didactic_pancake_server.Prelude.{
  if_rule, ℕ, Bytes, lit, true, false, none, some, List, [], ◌∷◌, ◌++◌, ◌==◌, ◌≡◌, ◌≢◌, refl, arith,
  ap, sym, ◌∙◌,
}
use didactic_pancake_server.Config.{
  Config, empty_config, is_white, trim_start, join_end, trim_end, trim, print_entries, is_nil,
  is_blank,
}
use didactic_pancake_server.Config.Loader.{split_at, uncomment, lines_of, Reading, entry, start}

-- The byte does not occur.
abbrev pub Lacks : ℕ → Bytes → Type 0
Lacks c [] = Unit {0}
Lacks c (d ∷ s) = (d ≢ c) × Lacks c s

-- A key or a value that stands for itself in a file: no '=', no '#', no line end inside, and no
-- white space at its ends.
pub record IsPlain (s : Bytes) : Type 0 where
  pub no_delim : Lacks 61 s
  pub no_comment : Lacks 35 s
  pub one_line : Lacks 10 s
  pub trimmed : trim s ≡ s

Lacks-append : (c : ℕ) (a b : Bytes) → Lacks c a → Lacks c b → Lacks c (a ++ b)
Lacks-append c [] b h k = k
Lacks-append c (d ∷ a) b (x, h) k = (x, Lacks-append c a b h k)

-- A byte that does not occur is not found, and one that does is found where it is first.
split_at-none : (c : ℕ) (s : Bytes) → Lacks c s → split_at (c ∷ []) s ≡ none
unfolding split_at
split_at-none c [] h = refl
split_at-none c (d ∷ s) (apart, h) =
    let off : (c == d) ≡ false = ground arith in rw (off, split_at-none c s h) refl

split_at_first : (c : ℕ) (a b : Bytes) → Lacks c a → split_at (c ∷ []) (a ++ (c ∷ b)) ≡ some (a, b)
unfolding split_at
split_at_first c [] b h = let here : (c == c) ≡ true = ground arith in rw here refl
split_at_first c (d ∷ a) b (apart, h) =
    let off : (c == d) ≡ false = ground arith in rw (off, split_at_first c a b h) refl

-- A line end behind a line.
lines_of-line :
    (s rest : Bytes)
    → Lacks 10 s
    → lines_of (s ++ (10 ∷ rest)) ≡ (s ∷ (lines_of rest).0, (lines_of rest).1)
unfolding lines_of
lines_of-line [] rest h = refl
lines_of-line (c ∷ s) rest (apart, h) =
    let off : (c == 10) ≡ false = ground arith in rw (off, lines_of-line s rest h) refl

trim_end_space : (s : Bytes) → trim_end (s ++ (32 ∷ [])) ≡ trim_end s
unfolding trim_end
trim_end_space [] = refl
trim_end_space (c ∷ s) = ap (join_end c) (trim_end_space s)

pub trim_space : (s : Bytes) → trim (s ++ (32 ∷ [])) ≡ trim s
unfolding trim
trim_space [] = refl
trim_space (c ∷ s) =
    if_rule (λ x. trim_end (trim_start ((c ∷ s) ++ (32 ∷ []))) ≡ trim_end x) (is_white c)
      (λ e. rw (e, trim_start) (trim_space s)) (λ e. rw (e, trim_start) (trim_end_space (c ∷ s)))

-- A line with a '=' is not blank.
trim_end_delim : (a b : Bytes) → is_nil (trim_end (a ++ (61 ∷ b))) ≡ false
unfolding trim_end
trim_end_delim [] b = join_end_delim (trim_end b)
  where
    join_end_delim : (s : Bytes) → is_nil (join_end 61 s) ≡ false
    join_end_delim [] = refl
    join_end_delim (d ∷ s) = refl
trim_end_delim (c ∷ a) b = join_end_full (trim_end (a ++ (61 ∷ b))) (trim_end_delim a b)
  where
    join_end_full : (s : Bytes) → is_nil s ≡ false → is_nil (join_end c s) ≡ false
    join_end_full [] h = absurd (cc h)
    join_end_full (d ∷ s) h = refl

pub is_blank_delim : (a b : Bytes) → is_blank (a ++ (61 ∷ b)) ≡ false
unfolding is_blank trim_start
is_blank_delim [] b = trim_end_delim [] b
is_blank_delim (c ∷ a) b =
    if_rule (λ x. is_nil (trim_end x) ≡ false) (is_white c) (λ e. is_blank_delim a b)
      (λ e. trim_end_delim (c ∷ a) b)

-- An entry as it is printed, in front of and behind the '='.
abbrev pub line_of : Bytes × Bytes → Bytes
line_of (key, value) = (key ++ (32 ∷ [])) ++ (61 ∷ 32 ∷ value)

abbrev pub AllPlain : List (Bytes × Bytes) → Type 0
AllPlain [] = Unit {0}
AllPlain ((key, value) ∷ rest) = IsPlain key × IsPlain value × AllPlain rest

line_of-Lacks :
    (c : ℕ) (key value : Bytes)
    → 32 ≢ c
    → 61 ≢ c
    → Lacks c key
    → Lacks c value
    → Lacks c (line_of (key, value))
line_of-Lacks c key value space delim h k =
    Lacks-append c (key ++ (32 ∷ [])) (61 ∷ 32 ∷ value) (Lacks-append c key (32 ∷ []) h (space, tt))
      (delim, (space, k))

-- The configuration with '=' and '#'.
abbrev pub plain : List (Bytes × Bytes) → Config
plain contents = record empty_config { contents = contents }

pub lines_of-print_entries :
    (cf : List (Bytes × Bytes)) (es : List (Bytes × Bytes))
    → AllPlain es
    → lines_of (print_entries (plain cf) es) ≡ (map line_of es, false)
unfolding lines_of print_entries lit
lines_of-print_entries cf [] h = refl
lines_of-print_entries cf ((key, value) ∷ es) (hk, hv, h) =
    let printed : key ++ (32 ∷ 61 ∷ 32 ∷ value) ≡ line_of (key, value) =
      sym (append_assoc key (32 ∷ []) (61 ∷ 32 ∷ value)) in
    let plain_line : Lacks 10 (line_of (key, value)) =
      line_of-Lacks 10 key value (omega arith) (omega arith) hk.one_line hv.one_line in
    ap (λ l. lines_of (l ++ (10 ∷ print_entries (plain cf) es))) printed
    ∙ lines_of-line (line_of (key, value)) (print_entries (plain cf) es) plain_line
    ∙ ap (λ r. (line_of (key, value) ∷ r.0, r.1)) (lines_of-print_entries cf es h)

pub uncomment-line :
    (cf : List (Bytes × Bytes)) (key value : Bytes)
    → IsPlain key
    → IsPlain value
    → uncomment (plain cf) (line_of (key, value)) ≡ line_of (key, value)
unfolding uncomment
uncomment-line cf key value hk hv =
    let free : Lacks 35 (line_of (key, value)) =
      line_of-Lacks 35 key value (omega arith) (omega arith) hk.no_comment hv.no_comment in
    rw (uncomment, split_at-none 35 (line_of (key, value)) free) refl

pub split_line :
    (key value : Bytes)
    → IsPlain key
    → split_at (61 ∷ []) (line_of (key, value)) ≡ some (key ++ (32 ∷ []), 32 ∷ value)
split_line key value hk =
    split_at_first 61 (key ++ (32 ∷ [])) (32 ∷ value)
      (Lacks-append 61 key (32 ∷ []) hk.no_delim (omega arith, tt))

pub start-line :
    (cf : List (Bytes × Bytes)) (key value : Bytes)
    (go : Reading → List (Bytes × Bytes) → List (Bytes × Bytes)) (cs : List (Bytes × Bytes))
    → IsPlain key
    → IsPlain value
    → start (plain cf) (line_of (key, value)) (λ r. go r cs)
      ≡ go (entry (key ++ (32 ∷ [])) (32 ∷ value) []) cs
unfolding start
start-line cf key value go cs hk hv =
    rw (start, uncomment-line cf key value hk hv, split_line key value hk) refl
