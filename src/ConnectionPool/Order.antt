-- ===== src/ConnectionPool/Order.antt =====
-- Threads that get and release the connections of ConnectionPool.antt side by side. A move is one
-- critical section or one call on the semaphore.
use didactic_pancake_server.Prelude.{
  ℕ, zero, suc, ◌+◌, Bool, true, false, Option, none, some, List, [], ◌∷◌, ◌++◌, length, ◌≡◌, refl,
  ap, sym, ◌∙◌,
}
use didactic_pancake_server.Prelude.Int.{pos, increment, decrement}
use didactic_pancake_server.Prelude.Bags.{copies, copies-append, unordered, unordered-copies}
use didactic_pancake_server.ConnectionPool.{
  ConnectionPool, nothing_idle, wait, post, pop_conn, take_conn, refresh, put_conn,
}

-- The pool; the threads between `wait` and `lock`, and between `unlock` and `post`; the connections
-- that are handed out; how many waits were interrupted.
pub record World : Type 0 where
  pub pool : ConnectionPool
  pub woken : ℕ
  pub posting : ℕ
  pub held : List ℕ
  pub interrupted : ℕ

pub data Move (connect : ℕ → Option ℕ) : World → World → Type 0 where
  gives_up : {w : World} → nothing_idle w.pool ≡ true → Move connect w w
  wakes :
      {w : World} (q : ConnectionPool)
      → wait false w.pool ≡ some (true, q)
      → Move connect w (record w { pool = q; woken = suc w.woken })
  is_interrupted :
      {w : World} (q : ConnectionPool)
      → wait true w.pool ≡ some (false, q)
      → Move connect w (record w { pool = q; woken = suc w.woken; interrupted = suc w.interrupted })
  takes :
      {w : World} (n con con' : ℕ) (q : ConnectionPool) (alive : Bool)
      → w.woken ≡ suc n
      → take_conn w.pool ≡ some (con, q)
      → refresh alive connect con ≡ some con'
      → Move connect w (record w { pool = q; woken = n; held = con' ∷ w.held })
  releases :
      {w : World} (con : ℕ) (before after : List ℕ)
      → w.held ≡ before ++ (con ∷ after)
      → Move connect w (record w {
        pool = (put_conn (some con) w.pool).1;
        posting = suc w.posting;
        held = before ++ after;
      })
  releases_null : {w : World} → Move connect w (record w { pool = (put_conn none w.pool).1 })
  posts :
      {w : World} (n : ℕ)
      → w.posting ≡ suc n
      → Move connect w (record w { pool = post w.pool; posting = n })

pub data Moves (connect : ℕ → Option ℕ) : World → World → Type 0 where
  rests : {w : World} → Moves connect w w
  moves : {w w' w'' : World} → Moves connect w w' → Move connect w' w'' → Moves connect w w''

abbrev pub started : ConnectionPool → World
started p = record { pool = p; woken = 0; posting = 0; held = []; interrupted = 0 }

-- The connections that were opened are idle or handed out, each as often as it was opened; the two counters count
-- them; idle connections and interrupted waits are together as many as the signals, given or under
-- way, and the threads that are past the wait.
pub record IsKept (opened : List ℕ) (w : World) : Type 0 where
  pub same : unordered (w.pool.conn_list ++ w.held) ≡ unordered opened
  pub free : w.pool.free_conn ≡ pos (length w.pool.conn_list)
  pub busy : w.pool.cur_conn ≡ pos (length w.held)
  pub signalled : length w.pool.conn_list + w.interrupted ≡ w.pool.reserve + w.posting + w.woken

-- The same with counts in place of the bags.
pub record Counts (opened : List ℕ) (w : World) : Type 0 where
  pub kept : (a : ℕ) → copies w.pool.conn_list a + copies w.held a ≡ copies opened a
  pub free : w.pool.free_conn ≡ pos (length w.pool.conn_list)
  pub busy : w.pool.cur_conn ≡ pos (length w.held)
  pub signalled : length w.pool.conn_list + w.interrupted ≡ w.pool.reserve + w.posting + w.woken

pub Counts-IsKept : (opened : List ℕ) (w : World) → Counts opened w → IsKept opened w
Counts-IsKept opened w h = record {
  same = unordered-copies _ _ (λ a. copies-append a w.pool.conn_list w.held ∙ h.kept a);
  free = h.free;
  busy = h.busy;
  signalled = h.signalled;
}

pub record Waited (p q : ConnectionPool) : Type 0 where
  pub rest : q ≡ record p { reserve = q.reserve }
  pub signal : p.reserve ≡ suc q.reserve

abbrev pool_after : ConnectionPool → Option (Bool × ConnectionPool) → ConnectionPool
pool_after p none = p
pool_after p (some (got, q)) = q

wait_of :
    (p q : ConnectionPool) (n : ℕ)
    → p.reserve ≡ n
    → elim n as (λ k. Option (Bool × ConnectionPool)) [
      | zero ↦ none
      | suc m ↦ some (true, record p { reserve = m })
    ]
      ≡ some (true, q)
    → Waited p q
wait_of p q zero e h = absurd (cc h)
wait_of p q (suc m) e h =
    let same : record p { reserve = m } ≡ q = ap (pool_after p) h in
    record {
      rest = sym same ∙ ap (λ k. record p { reserve = k }) (ap (λ x. x.reserve) same);
      signal = e ∙ ap (λ x. suc x.reserve) same;
    }

pub interrupted_lem : (p q : ConnectionPool) → wait true p ≡ some (false, q) → p ≡ q
unfolding wait
interrupted_lem p q h = ap (pool_after p) h

pub record Taken (con : ℕ) (p q : ConnectionPool) : Type 0 where
  pub front : p.conn_list ≡ con ∷ q.conn_list
  pub same_reserve : q.reserve ≡ p.reserve
  pub fewer : q.free_conn ≡ decrement p.free_conn
  pub more : q.cur_conn ≡ increment p.cur_conn

pop_conn-Taken :
    (l : List ℕ) (p q : ConnectionPool) (con : ℕ)
    → p.conn_list ≡ l
    → pop_conn l p ≡ some (con, q)
    → Taken con p q
pop_conn-Taken [] p q con e h = absurd (cc h)
pop_conn-Taken (c ∷ rest) p q con e h =
    let same_con : c ≡ con = cc in
    let same : record p {
      conn_list = rest;
      free_conn = decrement p.free_conn;
      cur_conn = increment p.cur_conn;
    }
        ≡ q =
      cc in
    record {
      front = e ∙ rw same_con (ap (λ x. con ∷ x.conn_list) same);
      same_reserve = sym (ap (λ x. x.reserve) same);
      fewer = sym (ap (λ x. x.free_conn) same);
      more = sym (ap (λ x. x.cur_conn) same);
    }

pub take_conn-Taken : (con : ℕ) (p q : ConnectionPool) → take_conn p ≡ some (con, q) → Taken con p q
unfolding take_conn
take_conn-Taken con p q h = pop_conn-Taken p.conn_list p q con refl h

pub wait-Waited : (p q : ConnectionPool) → wait false p ≡ some (true, q) → Waited p q
unfolding wait
wait-Waited p q = wait_of p q p.reserve refl

pop_conn-none : (l : List ℕ) (p : ConnectionPool) → pop_conn l p ≡ none → l ≡ []
pop_conn-none [] p h = refl
pop_conn-none (c ∷ rest) p h = absurd (cc h)

pub take_conn-none : (p : ConnectionPool) → take_conn p ≡ none → p.conn_list ≡ []
unfolding take_conn
take_conn-none p h = pop_conn-none p.conn_list p h
