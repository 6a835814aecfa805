-- ===== src/Tests/Connections.antt =====
-- Runs of the pool of ConnectionPool.antt and of the lock of Locker.antt.
use mathlib.Core.List.{map}
use didactic_pancake_server.Prelude.{ℕ, true, some, [], ◌∷◌, lit, ◌≡◌, refl, arith, Option}
use didactic_pancake_server.Prelude.Int.{pos, increment, decrement}
use didactic_pancake_server.ConnectionPool.{
  ConnectionPool, Login, connection_pool, init, refresh, wait, take_conn,
}
use didactic_pancake_server.ConnectionPool.Order.{
  World, Moves, rests, moves, wakes, takes, started, IsKept,
}
use didactic_pancake_server.ConnectionPool.Kept.{Moves-IsKept}
use didactic_pancake_server.Locker.{
  Locker, read_write_locker, Reach, start, comes, goes_on, reader_comes, writer_comes, counts, Move,
  count_up,
}
use didactic_pancake_server.Locker.Exclusion.{writer_excludes, no_deadlock}

abbrev login : Login
login = record {
  url = lit "localhost";
  user = lit "root";
  password = [];
  database_name = lit "chat";
  port = 3306;
}

-- Two connections, 11 and 12.
abbrev pool : ConnectionPool
pool = record {
  max_conn = pos 2;
  cur_conn = pos 0;
  free_conn = pos 2;
  url = lit "localhost";
  port = 3306;
  user = lit "root";
  password = [];
  database_name = lit "chat";
  conn_list = 11 ∷ 12 ∷ [];
  reserve = 2;
}

pool_opened : init login (map some (11 ∷ 12 ∷ [])) (connection_pool (pos 0)) ≡ some pool
unfolding init connection_pool increment
pool_opened = refl

-- One thread has connection 11, and another is past the semaphore.
abbrev busy : ConnectionPool
busy = record pool { conn_list = 12 ∷ []; free_conn = pos 1; cur_conn = pos 1; reserve = 0 }

abbrev shared : World
shared = record { pool = busy; woken = 1; posting = 0; held = 11 ∷ []; interrupted = 0 }

abbrev connect : ℕ → Option ℕ
connect c = some c

run : Moves connect (started pool) shared
unfolding wait take_conn refresh increment decrement
run =
    moves
      (moves (moves rests (wakes (record pool { reserve = 1 }) refl))
        (wakes (record pool { reserve = 0 }) refl))
      (takes 1 11 11 busy true refl refl refl)

same_conn : (c c' : ℕ) → connect c ≡ some c' → c' ≡ c
same_conn c c' e = cc

Moves-IsKept_example : IsKept (11 ∷ 12 ∷ []) shared
Moves-IsKept_example =
    Moves-IsKept connect (pos 0) login (11 ∷ 12 ∷ []) pool same_conn pool_opened run

abbrev writing : Locker
writing = record read_write_locker { write_locked = true; writing = 1 }

writing_reached : Reach writing
writing_reached = comes start (writer_comes refl)

writer_excludes_example : (writing.writing ≡ 1) × (writing.reading ≡ 0)
writer_excludes_example = writer_excludes writing_reached (omega arith)

-- A reader waits for the writer to unlock m_write_mutex.
abbrev reader_waits : Locker
reader_waits = record writing { read_locked = true; read_cnt = 1; first = 1 }

reader_waits_reached : Reach reader_waits
unfolding count_up
reader_waits_reached = goes_on (comes writing_reached (reader_comes refl)) (counts 0 refl)

no_deadlock_example : (w' : Locker) × Move reader_waits w'
no_deadlock_example = no_deadlock reader_waits_reached (omega arith)
