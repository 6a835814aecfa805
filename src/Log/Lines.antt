-- ===== src/Log/Lines.antt =====
-- The lines that calls of write_log put into the files within a day.
use native.Mathlib.Nat.{div-eq_of_lt}
use mathlib.Core.Path.{subst}
use mathlib.Core.Option.{some-injective}
use mathlib.Core.List.{append_assoc, append-nil}
use didactic_pancake_server.Prelude.{
  true, ℕ, zero, suc, ◌+◌, ◌/◌, ◌≤◌, ◌<◌, Bytes, Option, none, some, List, [], ◌∷◌, ◌++◌, length,
  take, ◌≡◌, refl, arith, ap, sym, ◌∙◌,
}
use didactic_pancake_server.Log.{
  LogTime, Log, date_tail, day_file, split_path, open_log, init, rotate, format_line, put_line,
  deliver, Message, write_log, write_all,
}
use didactic_pancake_server.Log.Files.{
  file_at, file_at-tail, IsFiled, line_of, lines_from, OfDay, Rotated, rotate-Rotated,
}

-- What a call of write_log does within a day.
record Wrote (t : LogTime) (m : Message) (l l' : Log) : Type 0 where
  filed : IsFiled t l'
  counted : l'.count ≡ l.count + 1
  put :
      l'.output
      ≡ l.output
        ++ ((
          file_at l.dir_name l.log_name t ((l.count + 1) / l.split_lines),
          line_of l.log_buf_size m,
        )
            ∷ [])
  same_dir : l'.dir_name ≡ l.dir_name
  same_name : l'.log_name ≡ l.log_name
  same_split : l'.split_lines ≡ l.split_lines
  same_size : l'.log_buf_size ≡ l.log_buf_size

put_line-Wrote :
    (t : LogTime) (m : Message) (l l' : Log) (line : Bytes)
    → Rotated t l l'
    → line_of l.log_buf_size m ≡ line
    → Wrote t m l (put_line line l')
put_line-Wrote t m l l' line r e = record {
  filed = record {
    positive = r.filed.positive;
    same_day = r.filed.same_day;
    in_file = r.filed.in_file;
    no_queue = r.filed.no_queue;
  };
  counted = r.counted;
  put =
      let file : l'.file ≡ file_at l.dir_name l.log_name t ((l.count + 1) / l.split_lines) =
        r.filed.in_file ∙ same_file r.same_dir r.same_name r.counted r.same_split in
      rw (r.same_output, file, e) refl;
  same_dir = r.same_dir;
  same_name = r.same_name;
  same_split = r.same_split;
  same_size = r.same_size;
}
  where
    same_file :
        l'.dir_name ≡ l.dir_name
        → l'.log_name ≡ l.log_name
        → l'.count ≡ l.count + 1
        → l'.split_lines ≡ l.split_lines
        → file_at l'.dir_name l'.log_name t (l'.count / l'.split_lines)
          ≡ file_at l.dir_name l.log_name t ((l.count + 1) / l.split_lines)
    same_file a b c d = cc

-- Without a queue a line goes to the file.
deliver_without_queue :
    (t : LogTime) (line : Bytes) (l : Log) → IsFiled t l → deliver line l ≡ put_line line l
unfolding deliver
deliver_without_queue t line l h = rw h.no_queue refl

after_write :
    (t : LogTime) (m : Message) (l : Log)
    → m.time.mday ≡ t.mday
    → date_tail m.time ≡ date_tail t
    → IsFiled t l
    → (o : Option Bytes) → format_line l.log_buf_size m.level m.time m.text ≡ o
    → (l' : Log)
    → elim o [ none ↦ none | some line ↦ some (deliver line (rotate m.time l)) ] ≡ some l'
    → Wrote t m l l'
after_write t m l day tail h none e l' run = absurd (cc run)
after_write t m l day tail h (some line) e l' run =
    let r : Rotated t l (rotate m.time l) = rotate-Rotated t m.time l day tail h in
    let same : line_of l.log_buf_size m ≡ line = rw (line_of, e) refl in
    let put : put_line line (rotate m.time l) ≡ l' =
      sym (deliver_without_queue t line (rotate m.time l) r.filed) ∙ cc run in
    subst (λ x. Wrote t m l x) put (put_line-Wrote t m l (rotate m.time l) line r same)

write_log-Wrote :
    (t : LogTime) (m : Message) (l l' : Log)
    → m.time.mday ≡ t.mday
    → date_tail m.time ≡ date_tail t
    → IsFiled t l
    → write_log m l ≡ some l'
    → Wrote t m l l'
unfolding write_log
write_log-Wrote t m l l' day tail h run =
    after_write t m l day tail h (format_line l.log_buf_size m.level m.time m.text) refl l' run

-- The lines depend only on the members of the log that no line changes.
lines_from-same :
    (l l' : Log) (n : ℕ) (ms : List Message)
    → l'.dir_name ≡ l.dir_name
    → l'.log_name ≡ l.log_name
    → l'.split_lines ≡ l.split_lines
    → l'.log_buf_size ≡ l.log_buf_size
    → lines_from l' n ms ≡ lines_from l n ms
lines_from-same l l' n [] a b c d = refl
lines_from-same l l' n (m ∷ ms) a b c d =
    let rest : lines_from l' (n + 1) ms ≡ lines_from l (n + 1) ms =
      lines_from-same l l' (n + 1) ms a b c d in
    rw (a, b, c, d, rest) refl

first_line :
    (t : LogTime) (m : Message) (l l' : Log)
    → date_tail m.time ≡ date_tail t
    → Wrote t m l l'
    → l'.output
      ≡ l.output
        ++ ((
          file_at l.dir_name l.log_name m.time ((l.count + 1) / l.split_lines),
          line_of l.log_buf_size m,
        )
            ∷ [])
first_line t m l l' tail w =
    let named : file_at l.dir_name l.log_name m.time ((l.count + 1) / l.split_lines)
        ≡ file_at l.dir_name l.log_name t ((l.count + 1) / l.split_lines) =
      file_at-tail l.dir_name l.log_name m.time t ((l.count + 1) / l.split_lines) tail in
    w.put ∙ ap (λ f. l.output ++ ((f, line_of l.log_buf_size m) ∷ [])) (sym named)

-- Without a queue, calls of write_log on one day that return append the formatted lines in order,
-- line number n of the day to file number n / m_split_lines of that day.
pub write_all-lines_from :
    (t : LogTime) (ms : List Message) (l l' : Log)
    → IsFiled t l
    → OfDay t ms
    → write_all ms l ≡ some l'
    → l'.output ≡ l.output ++ lines_from l (l.count + 1) ms
unfolding write_all
write_all-lines_from t [] l l' h days run =
    ap (λ x. x.output) (sym (some-injective l l' run)) ∙ sym (append-nil l.output)
write_all-lines_from t (m ∷ ms) l l' h (day, tail, days) run =
    after_first (λ l1 w go. write_all-lines_from t ms l1 l' w.filed days go) (write_log m l) refl
      run
  where
    after_first :
        ((l1 : Log)
          → Wrote t m l l1
          → write_all ms l1 ≡ some l'
          → l'.output ≡ l1.output ++ lines_from l1 (l1.count + 1) ms)
        → (o : Option Log) → write_log m l ≡ o
        → elim o [ none ↦ none | some l1 ↦ write_all ms l1 ] ≡ some l'
        → l'.output ≡ l.output ++ lines_from l (l.count + 1) (m ∷ ms)
    after_first again none e go = absurd (cc go)
    after_first again (some l1) e go =
        let w : Wrote t m l l1 = write_log-Wrote t m l l1 day tail h e in
        let rest : l'.output ≡ l1.output ++ lines_from l1 (l1.count + 1) ms = again l1 w go in
        let here : Bytes × Bytes = (
          file_at l.dir_name l.log_name m.time ((l.count + 1) / l.split_lines),
          line_of l.log_buf_size m,
        ) in
        let behind : lines_from l1 (l1.count + 1) ms ≡ lines_from l (l.count + 1 + 1) ms =
          lines_from-same l l1 (l1.count + 1) ms w.same_dir w.same_name w.same_split w.same_size
          ∙ ap (λ n. lines_from l (n + 1) ms) w.counted in
        rest
        ∙ ap (λ x. x ++ lines_from l1 (l1.count + 1) ms) (first_line t m l l1 tail w)
        ∙ append_assoc l.output (here ∷ []) (lines_from l1 (l1.count + 1) ms)
        ∙ ap (λ x. l.output ++ (here ∷ x)) behind

take-whole : (n : ℕ) (s : Bytes) → length s ≤ n → take n s ≡ s
take-whole zero [] h = refl
take-whole zero (c ∷ s) h = absurd (omega arith)
take-whole (suc n) [] h = refl
take-whole (suc n) (c ∷ s) h = ap (λ x. c ∷ x) (take-whole n s (omega arith))

-- The log that `init` opens without a queue.
pub init-IsFiled :
    (file_name : Bytes) (log_buf_size split_lines : ℕ) (t : LogTime) (l : Log)
    → 0 < split_lines
    → length (date_tail t) ≤ 15
    → init true file_name log_buf_size split_lines 0 t ≡ some l
    → IsFiled t l
unfolding init open_log day_file
init-IsFiled file_name log_buf_size split_lines t l some_lines short run =
    after_path (split_path file_name) run
  where
    after_path :
        (o : Option (Bytes × Bytes))
        → elim o [ none ↦ none | some path ↦ some (open_log none t log_buf_size split_lines path) ]
          ≡ some l
        → IsFiled t l
    after_path none h = absurd (cc h)
    after_path (some (dir, name)) h =
        subst (IsFiled t)
          (some-injective (open_log none t log_buf_size split_lines (dir, name)) l h)
          (record {
            positive = some_lines;
            same_day = refl;
            in_file =
                ap (λ tail. take 254 (dir ++ (tail ++ name)))
                  (sym (take-whole 15 (date_tail t) short))
                ∙ ap (file_at dir name t) (sym (div-eq_of_lt some_lines));
            no_queue = refl;
          })
