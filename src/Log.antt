-- ===== src/Log.antt =====
-- log/log.h and log/log.cpp: the log that starts a new file each day and after m_split_lines lines,
-- with the queue of lines of its asynchronous mode.
pub mod Files
pub mod Lines
use didactic_pancake_server.Prelude.{
  ℕ, zero, suc, ◌+◌, ◌-◌, ◌/◌, ◌%◌, Bytes, Bool, true, false, not, ◌&&◌, ◌||◌, Option, none, some,
  List, [], ◌∷◌, ◌++◌, length, take, ltb, leb, ◌==◌, if◌then◌else◌, lit, to_string, replicate,
}
use didactic_pancake_server.BlockQueue.{
  BlockQueue, Reply, waits, says, gives, counts, construct, full, push, pop,
}

-- struct tm of localtime, and tv_usec
pub record LogTime : Type 0 where
  pub year : ℕ
  pub mon : ℕ
  pub mday : ℕ
  pub hour : ℕ
  pub min : ℕ
  pub sec : ℕ
  pub usec : ℕ

-- `file` is the name under which m_fp was opened, and `output` what was put into the files by fputs:
-- the name of the file and the line, oldest first. `queue` is m_log_queue,
-- once there is one.
pub record Log : Type 0 where
  pub dir_name : Bytes
  pub log_name : Bytes
  pub split_lines : ℕ
  pub log_buf_size : ℕ
  pub count : ℕ
  pub today : ℕ
  pub file : Bytes
  pub queue : Option (BlockQueue Bytes)
  pub is_async : Bool
  pub output : List (Bytes × Bytes)

-- %0wd
abbrev pub padded : ℕ → ℕ → Bytes
padded w n = replicate (w - length (to_string n)) 48 ++ to_string n

-- "%d_%02d_%02d_"
unfoldable pub date_tail : LogTime → Bytes
date_tail t =
    to_string (t.year + 1900)
    ++ (lit "_" ++ (padded 2 (t.mon + 1) ++ (lit "_" ++ (padded 2 t.mday ++ lit "_"))))

-- The name of the first file of a day, and of file number `k` behind it.
unfoldable pub day_file : Bytes → Bytes → LogTime → Bytes
day_file dir name t = take 254 (dir ++ (take 15 (date_tail t) ++ name))

unfoldable pub split_file : Bytes → Bytes → LogTime → ℕ → Bytes
split_file dir name t k =
    take 254 (dir ++ (take 15 (date_tail t) ++ (name ++ (lit "." ++ to_string k))))

-- strrchr(file_name, '/'): the name up to the last '/' and behind it, if there is one.
unfoldable pub split_path : Bytes → Option (Bytes × Bytes)
split_path [] = none
split_path (c ∷ s) = elim (split_path s) [
  | some (dir, name) ↦ some (c ∷ dir, name)
  | none ↦ if c == 47 then some (c ∷ [], s) else none
]

-- What `init` sets for a file_name with a '/', as main calls it, when fopen succeeds.
unfoldable pub open_log : Option (BlockQueue Bytes) → LogTime → ℕ → ℕ → Bytes × Bytes → Log
open_log queue t log_buf_size split_lines (dir, name) = record {
  dir_name = dir;
  log_name = name;
  split_lines = split_lines;
  log_buf_size = log_buf_size;
  count = 0;
  today = t.mday;
  file = take 254 (dir ++ (date_tail t ++ name));
  queue = queue;
  is_async = elim queue [ none ↦ false | some q ↦ true ];
  output = [];
}

-- `init`, where `opens` is whether fopen succeeds: `none` where it returns false, and m_fp is null, and
-- for a file_name with no '/', with which log_name and dir_name are never set.
unfoldable pub init : Bool → Bytes → ℕ → ℕ → ℕ → LogTime → Option Log
unfolding open_log split_path
init false file_name log_buf_size split_lines max_queue_size t = none
init true file_name log_buf_size split_lines max_queue_size t =
    let queue : Option (BlockQueue Bytes) =
      if leb 1 max_queue_size then construct [] max_queue_size else none in
    elim (split_path file_name) [
      | none ↦ none
      | some path ↦ some (open_log queue t log_buf_size split_lines path)
    ]

-- switch (level)
unfoldable pub level_tag : ℕ → Bytes
level_tag level =
    if level == 0
    then lit "[debug]:"
    else if level == 2
    then lit "[warn]:"
    else if level == 3
    then lit "[erro]:"
    else lit "[info]:"

-- The first critical section of `write_log`: m_count, and a new file where one is due.
unfoldable pub rotate : LogTime → Log → Log
rotate t l =
    let count = l.count + 1 in
    if not (l.today == t.mday)
    then record l { file = day_file l.dir_name l.log_name t; today = t.mday; count = 0 }
    else if count % l.split_lines == 0
    then record l {
      file = split_file l.dir_name l.log_name t (count / l.split_lines);
      count = count;
    }
    else record l { count = count }

-- "%d-%02d-%02d %02d:%02d:%02d.%06ld %s "
unfoldable pub line_head : ℕ → LogTime → Bytes
unfolding level_tag
line_head level t =
    to_string (t.year + 1900)
    ++ (lit "-"
        ++ (padded 2 (t.mon + 1)
            ++ (lit "-"
                ++ (padded 2 t.mday
                    ++ (lit " "
                        ++ (padded 2 t.hour
                            ++ (lit ":"
                                ++ (padded 2 t.min
                                    ++ (lit ":"
                                        ++ (padded 2 t.sec
                                            ++ (lit "."
                                                ++ (padded 6 t.usec
                                                    ++ (lit " "
                                                        ++ (level_tag level ++ lit " "))))))))))))))

-- The second critical section: the line in m_buf. `text` is what vsnprintf has to print. `none` where
-- a byte is put behind the end of m_buf; a head of more than 47 bytes is cut, with its '\0'.
unfoldable pub format_line : ℕ → ℕ → LogTime → Bytes → Option Bytes
unfolding line_head
format_line size level t text =
    let head = line_head level t in
    if leb size (length head + length text + 1)
    then none
    else if ltb 47 (length head)
    then some (take 47 head)
    else some (head ++ (text ++ (10 ∷ [])))

-- fputs(line, m_fp)
abbrev pub put_line : Bytes → Log → Log
put_line line l = record l { output = l.output ++ ((l.file, line) ∷ []) }

-- The end of `write_log`: the queue, or the file.
abbrev pub deliver_to : Option (BlockQueue Bytes) → Bytes → Log → Log
deliver_to none line l = put_line line l
deliver_to (some q) line l =
    if l.is_async && not (full q)
    then record l { queue = some (push line q).1 }
    else put_line line l

unfoldable pub deliver : Bytes → Log → Log
deliver line l = deliver_to l.queue line l

-- A call of `write_log`.
pub record Message : Type 0 where
  pub level : ℕ
  pub time : LogTime
  pub text : Bytes

unfoldable pub write_log : Message → Log → Option Log
unfolding rotate format_line deliver
write_log m l = elim (format_line l.log_buf_size m.level m.time m.text) [
  | none ↦ none
  | some line ↦ some (deliver line (rotate m.time l))
]

-- One round of the loop of `async_write_log`; `none` while it waits.
abbrev pub after_pop : Reply Bytes → Log → Option Log
after_pop waits l = none
after_pop (says b) l = none
after_pop (counts n) l = none
after_pop (gives none) l = none
after_pop (gives (some line)) l = some (put_line line l)

abbrev pub round_of : Option (BlockQueue Bytes) → Log → Option Log
round_of none l = none
round_of (some q) l = after_pop (pop q).0 (record l { queue = some (pop q).1 })

unfoldable pub async_round : Log → Option Log
async_round l = round_of l.queue l

-- Calls of `write_log` one after the other.
unfoldable pub write_all : List Message → Log → Option Log
unfolding write_log
write_all [] l = some l
write_all (m ∷ ms) l = elim (write_log m l) [ none ↦ none | some l' ↦ write_all ms l' ]
