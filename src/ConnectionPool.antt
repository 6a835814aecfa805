-- ===== src/ConnectionPool.antt =====
-- sqlconnpool/sql_connection_pool.h and sqlconnpool/sql_connection_pool.cpp: the list of idle database
-- connections behind a mutex, and the semaphore that counts them. A MYSQL * is a number.
pub mod Kept
pub mod Order
pub mod Opened
use didactic_pancake_server.Prelude.{
  ℕ, zero, suc, ◌+◌, Bytes, Bool, true, false, Option, none, some, List, [], ◌∷◌, ◌++◌, length,
  ◌==◌,
}
use didactic_pancake_server.Prelude.Int.{ℤ, pos, negsuc, increment, decrement}

pub record ConnectionPool : Type 0 where
  pub max_conn : ℤ
  pub cur_conn : ℤ
  pub free_conn : ℤ
  pub url : Bytes
  pub port : ℕ
  pub user : Bytes
  pub password : Bytes
  pub database_name : Bytes
  pub conn_list : List ℕ
  pub reserve : ℕ

-- The constructor; m_max_conn has no value yet, and m_reserve is sem().
unfoldable pub connection_pool : ℤ → ConnectionPool
connection_pool max = record {
  max_conn = max;
  cur_conn = pos 0;
  free_conn = pos 0;
  url = [];
  port = 0;
  user = [];
  password = [];
  database_name = [];
  conn_list = [];
  reserve = 0;
}

-- The loop of `init`. `connects` has the results of mysql_init and mysql_real_connect, in order: a
-- connection, or `none` for NULL, which ends the process.
unfoldable pub open_all : List (Option ℕ) → ConnectionPool → Option ConnectionPool
open_all [] p = some p
open_all (none ∷ connects) p = none
open_all (some con ∷ connects) p =
    open_all connects
      (record p { conn_list = p.conn_list ++ (con ∷ []); free_conn = increment p.free_conn })

-- sem(num)
abbrev pub sem : ℤ → ℕ
sem (pos n) = n
sem (negsuc n) = 0

-- What `init` is called with.
pub record Login : Type 0 where
  pub url : Bytes
  pub user : Bytes
  pub password : Bytes
  pub database_name : Bytes
  pub port : ℕ

-- `init`; MaxConn is the number of `connects`.
unfoldable pub init : Login → List (Option ℕ) → ConnectionPool → Option ConnectionPool
unfolding open_all
init l connects p =
    elim (open_all connects (record p {
      url = l.url;
      user = l.user;
      password = l.password;
      database_name = l.database_name;
      port = l.port;
    })) [
      | none ↦ none
      | some q ↦ some (record q { reserve = sem q.free_conn; max_conn = q.free_conn })
    ]

-- if (0 == m_connList.size()) return NULL, read without the mutex
unfoldable pub nothing_idle : ConnectionPool → Bool
nothing_idle p = 0 == length p.conn_list

-- m_reserve.wait(): `none` while the thread blocks. sem_wait fails where a signal handler interrupts
-- it, and wait then returns false, which get_connection does not look at.
unfoldable pub wait : Bool → ConnectionPool → Option (Bool × ConnectionPool)
wait true p = some (false, p)
wait false p = elim p.reserve [ zero ↦ none | suc n ↦ some (true, record p { reserve = n }) ]

-- m_reserve.post()
unfoldable pub post : ConnectionPool → ConnectionPool
post p = record p { reserve = suc p.reserve }

-- What get_connection does between `lock` and `unlock`; `none` where the list is empty, whose front
-- it then reads.
abbrev pub pop_conn : List ℕ → ConnectionPool → Option (ℕ × ConnectionPool)
pop_conn [] p = none
pop_conn (con ∷ rest) p = some (
  con,
  record p { conn_list = rest; free_conn = decrement p.free_conn; cur_conn = increment p.cur_conn },
)

unfoldable pub take_conn : ConnectionPool → Option (ℕ × ConnectionPool)
take_conn p = pop_conn p.conn_list p

-- The end of get_connection: `alive` is whether mysql_query works, `connect` what mysql_init and
-- mysql_real_connect make of the connection. `none` where the process ends.
unfoldable pub refresh : Bool → (ℕ → Option ℕ) → ℕ → Option ℕ
refresh true connect con = some con
refresh false connect con = connect con

-- release_connection up to `unlock`: whether there was a connection.
unfoldable pub put_conn : Option ℕ → ConnectionPool → Bool × ConnectionPool
put_conn none p = (false, p)
put_conn (some con) p = (
  true,
  record p {
    conn_list = p.conn_list ++ (con ∷ []);
    free_conn = increment p.free_conn;
    cur_conn = decrement p.cur_conn;
  },
)

unfoldable pub get_free_connection : ConnectionPool → ℤ
get_free_connection p = p.free_conn

-- destroy_pool: the connections that are closed, in order.
abbrev pub close_all : List ℕ → ConnectionPool → List ℕ × ConnectionPool
close_all [] p = ([], p)
close_all (con ∷ rest) p =
    (con ∷ rest, record p { cur_conn = pos 0; free_conn = pos 0; conn_list = [] })

unfoldable pub destroy_pool : ConnectionPool → List ℕ × ConnectionPool
destroy_pool p = close_all p.conn_list p
