-- ===== src/Tests/Queueing.antt =====
-- Runs of the queue of BlockQueue.antt and of the log of Log.antt.
use didactic_pancake_server.Prelude.{
  ℕ, ◌+◌, ◌≤◌, Bytes, true, false, none, some, List, [], ◌∷◌, ◌++◌, lit, to_string, length, ◌≡◌,
  refl, arith,
}
use didactic_pancake_server.BlockQueue.{
  BlockQueue, Section, pushes, pops, asks_full, asks_back, asks_front, says, gives, run_section,
  push, pop, take_entry, front, construct, replies,
}
use didactic_pancake_server.BlockQueue.Fifo.{answers}
use didactic_pancake_server.BlockQueue.Refine.{replies-answers}
use didactic_pancake_server.Log.{
  LogTime, Log, date_tail, open_log, split_path, init, write_log, rotate, format_line, line_head,
  level_tag, deliver, split_file, Message, write_all,
}
use didactic_pancake_server.Log.Files.{lines_from}
use didactic_pancake_server.Log.Lines.{init-IsFiled, write_all-lines_from}

abbrev queue : BlockQueue Bytes
queue = record { array = [] ∷ [] ∷ []; size = 0; max_size = 2; front = none; back = none }

queue_constructed : construct {A = Bytes} [] 2 ≡ some queue
unfolding construct
queue_constructed = refl

-- A third entry does not fit, and a fourth takes the place of the first.
abbrev sections : List (Section Bytes)
sections =
    pushes (lit "a")
    ∷ pushes (lit "b")
    ∷ asks_full
    ∷ pushes (lit "c")
    ∷ pops
    ∷ pushes (lit "d")
    ∷ asks_back
    ∷ pops
    ∷ pops
    ∷ pops
    ∷ []

replies-answers_example : replies queue sections ≡ answers 2 [] sections
replies-answers_example =
    replies-answers [] 2 queue sections
      (tt, (tt, (tt, (tt, (tt, (tt, (tt, (tt, (tt, (tt, tt)))))))))) queue_constructed

-- `front` hands out the entry that was popped last, where a queue hands out its oldest.
front_after_pop :
    replies queue (pushes (lit "a") ∷ pushes (lit "b") ∷ pops ∷ asks_front ∷ [])
    ≡ says true ∷ says true ∷ gives (some (lit "a")) ∷ gives (some (lit "a")) ∷ []
unfolding replies run_section push pop take_entry front
front_after_pop = refl

abbrev noon : LogTime
noon = record { year = 124; mon = 4; mday = 6; hour = 12; min = 0; sec = 0; usec = 0 }

-- The log of files of two lines.
abbrev opened : Log
opened = record {
  dir_name = lit "/";
  log_name = lit "s";
  split_lines = 2;
  log_buf_size = 100;
  count = 0;
  today = 6;
  file = lit "/2024_05_06_s";
  queue = none;
  is_async = false;
  output = [];
}

opened_by_init : init true (lit "/s") 100 2 0 noon ≡ some opened
unfolding init open_log split_path date_tail lit to_string
opened_by_init = refl

abbrev messages : List Message
messages =
    record { level = 0; time = noon; text = lit "x" }
    ∷ record { level = 2; time = record noon { min = 1 }; text = lit "y" }
    ∷ record { level = 3; time = record noon { min = 2 }; text = lit "z" }
    ∷ []

abbrev written : Log
written = record opened {
  count = 3;
  file = lit "/2024_05_06_s.1";
  output =
      (lit "/2024_05_06_s", lit "2024-05-06 12:00:00.000000 [debug]: x" ++ (10 ∷ []))
      ∷ (lit "/2024_05_06_s.1", lit "2024-05-06 12:01:00.000000 [warn]: y" ++ (10 ∷ []))
      ∷ (lit "/2024_05_06_s.1", lit "2024-05-06 12:02:00.000000 [erro]: z" ++ (10 ∷ []))
      ∷ [];
}

all_written : write_all messages opened ≡ some written
unfolding write_all write_log rotate format_line line_head level_tag deliver split_file date_tail
    lit to_string
all_written = refl

short_date : length (date_tail noon) ≤ 15
unfolding date_tail lit to_string
short_date = omega arith

same_tail : (m : ℕ) → date_tail (record noon { min = m }) ≡ date_tail noon
unfolding date_tail
same_tail m = refl

write_all-lines_from_example :
    written.output ≡ opened.output ++ lines_from opened (opened.count + 1) messages
write_all-lines_from_example =
    write_all-lines_from noon messages opened written
      (init-IsFiled (lit "/s") 100 2 noon opened (omega arith) short_date opened_by_init)
      (refl, refl, (refl, same_tail 1, (refl, same_tail 2, tt))) all_written
