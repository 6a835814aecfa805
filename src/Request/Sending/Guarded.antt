-- ===== src/Request/Sending/Guarded.antt =====
-- The packets that wait on a connection of Request/Sending.antt.
use didactic_pancake_server.Prelude.{ℕ, ◌+◌, ◌<◌, true, ◌≡◌, ◌⊎◌, if◌then◌else◌}
use didactic_pancake_server.Request.Writer.{for_output}
use didactic_pancake_server.Request.Sending.{Sending, is_empty}

-- A thread or a task will still look at m_datas.
abbrev pub under_way : Sending → ℕ
under_way w = w.appending + w.tasks + w.entered + w.writing

-- At most one thread is in process_write behind its first section, and the flag says so; when
-- packets wait, somebody will look at them, or epoll will report that the socket has room, unless
-- something was dropped or an interest taken back.
pub record IsGuarded (w : Sending) : Type 0 where
  pub one_writer : w.entered + w.looked ≡ (if w.is_process_write then 1 else 0)
  pub guarded :
      (is_empty w.datas ≡ true)
      ⊎ (0 < under_way w)
      ⊎ (w.interest ≡ for_output)
      ⊎ (w.dropped ≡ true)
      ⊎ (w.taken_back ≡ true)
