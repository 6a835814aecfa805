-- ===== src/Log/Files.antt =====
-- The files that the lines of Log.antt go to.
use native.Mathlib.Nat.{mod-lt, mul-add-div, div-eq_of_lt, div_self, div-add-mod}
use native.Mathlib.Decide.{dec_lt}
use didactic_pancake_server.Prelude.{
  if_rule, ℕ, zero, suc, ◌+◌, ◌*◌, ◌/◌, ◌%◌, ◌<◌, Bytes, false, not, none, some, List, [], ◌∷◌,
  ◌==◌, ◌≡◌, ◌≢◌, refl, arith, ap, sym, ◌∙◌,
}
use didactic_pancake_server.Log.{
  LogTime, Log, date_tail, day_file, split_file, rotate, format_line, Message,
}

-- A step that does not reach a multiple keeps the quotient.
div-suc : (n k : ℕ) → 0 < k → (n + 1) % k ≢ 0 → (n + 1) / k ≡ n / k
div-suc n k pos off =
    let whole : k * (n / k) + n % k ≡ n = div-add-mod n k in
    let short : n % k < k = mod-lt n pos in
    elim (dec_lt (n % k + 1) k) [
      | yes inside ↦
          let split : n + 1 ≡ k * (n / k) + (n % k + 1) = omega (arith, whole) in
          ap (λ m. m / k) split
          ∙ mul-add-div pos (n / k) (n % k + 1)
          ∙ ap (λ m. n / k + m) (div-eq_of_lt inside)
          ∙ omega arith
      | no round ↦
          let split : n + 1 ≡ k * (n / k) + k = omega (arith, whole) in
          let up : (n + 1) / k ≡ n / k + 1 =
            ap (λ m. m / k) split
            ∙ mul-add-div pos (n / k) k
            ∙ ap (λ m. n / k + m) (div_self pos) in
          let again : k * ((n + 1) / k) + (n + 1) % k ≡ n + 1 = div-add-mod (n + 1) k in
          let times : k * ((n + 1) / k) ≡ k * (n / k + 1) = ap (λ m. k * m) up in
          absurd (off (omega (arith, again, times, split)))
    ]

-- The name of file number `k` of the day of `t`.
abbrev pub file_at : Bytes → Bytes → LogTime → ℕ → Bytes
file_at dir name t zero = day_file dir name t
file_at dir name t (suc k) = split_file dir name t (suc k)

-- The log writes to the file of the day of `t` that its number of lines has come to, without a
-- queue.
pub record IsFiled (t : LogTime) (l : Log) : Type 0 where
  pub positive : 0 < l.split_lines
  pub same_day : l.today ≡ t.mday
  pub in_file : l.file ≡ file_at l.dir_name l.log_name t (l.count / l.split_lines)
  pub no_queue : l.queue ≡ none

-- The line of a message, and the file for it, when it is number `n` of its day.
abbrev pub line_of : ℕ → Message → Bytes
line_of size m = elim (format_line size m.level m.time m.text) [ none ↦ [] | some line ↦ line ]

abbrev pub lines_from : Log → ℕ → List Message → List (Bytes × Bytes)
lines_from l n [] = []
lines_from l n (m ∷ ms) =
    (file_at l.dir_name l.log_name m.time (n / l.split_lines), line_of l.log_buf_size m)
    ∷ lines_from l (n + 1) ms

-- The messages are of the day of `t`.
abbrev pub OfDay : LogTime → List Message → Type 0
OfDay t [] = Unit {0}
OfDay t (m ∷ ms) = (m.time.mday ≡ t.mday) × (date_tail m.time ≡ date_tail t) × OfDay t ms

pub file_at-tail :
    (dir name : Bytes) (t t' : LogTime) (k : ℕ)
    → date_tail t ≡ date_tail t'
    → file_at dir name t k ≡ file_at dir name t' k
unfolding day_file split_file
file_at-tail dir name t t' zero e = rw e refl
file_at-tail dir name t t' (suc k) e = rw e refl

-- What the first section of write_log does to the file within a day.
pub record Rotated (t : LogTime) (l l' : Log) : Type 0 where
  pub filed : IsFiled t l'
  pub counted : l'.count ≡ l.count + 1
  pub same_output : l'.output ≡ l.output
  pub same_dir : l'.dir_name ≡ l.dir_name
  pub same_name : l'.log_name ≡ l.log_name
  pub same_split : l'.split_lines ≡ l.split_lines
  pub same_size : l'.log_buf_size ≡ l.log_buf_size

split_file_at :
    (dir name : Bytes) (t : LogTime) (k : ℕ)
    → 0 < k
    → split_file dir name t k ≡ file_at dir name t k
split_file_at dir name t zero h = absurd (omega arith)
split_file_at dir name t (suc k) h = refl

-- A multiple that is not 0 has a quotient that is not 0.
div-pos : (n k : ℕ) → (n + 1) % k ≡ 0 → 0 < (n + 1) / k
div-pos n k none_over = elim (dec_lt 0 ((n + 1) / k)) [
  | yes pos ↦ pos
  | no zero_times ↦
      let q : (n + 1) / k ≡ 0 = omega arith in
      let times : k * ((n + 1) / k) ≡ k * 0 = ap (λ m. k * m) q in
      absurd (omega (arith, div-add-mod (n + 1) k, times, none_over))
]

pub rotate-Rotated :
    (t t' : LogTime) (l : Log)
    → t'.mday ≡ t.mday
    → date_tail t' ≡ date_tail t
    → IsFiled t l
    → Rotated t l (rotate t' l)
unfolding rotate
rotate-Rotated t t' l day tail h =
    let n = l.count + 1 in
    let today : not (l.today == t'.mday) ≡ false = ground (arith, h.same_day, day) in
    if_rule (Rotated t l) (not (l.today == t'.mday)) (λ e. absurd (cc (e, today)))
      (λ e.
        if_rule (Rotated t l) (n % l.split_lines == 0)
          (λ e1. record {
            filed = record {
              positive = h.positive;
              same_day = h.same_day;
              in_file =
                  split_file_at l.dir_name l.log_name t' (n / l.split_lines)
                    (div-pos l.count l.split_lines (ground arith))
                  ∙ file_at-tail l.dir_name l.log_name t' t (n / l.split_lines) tail;
              no_queue = h.no_queue;
            };
            counted = refl;
            same_output = refl;
            same_dir = refl;
            same_name = refl;
            same_split = refl;
            same_size = refl;
          })
          (λ e1.
            let keeps : n / l.split_lines ≡ l.count / l.split_lines =
              div-suc l.count l.split_lines h.positive (ground arith) in
            record {
              filed = record {
                positive = h.positive;
                same_day = h.same_day;
                in_file = h.in_file ∙ ap (file_at l.dir_name l.log_name t) (sym keeps);
                no_queue = h.no_queue;
              };
              counted = refl;
              same_output = refl;
              same_dir = refl;
              same_name = refl;
              same_split = refl;
              same_size = refl;
            }))
