-- ===== src/ConnectionPool/Kept.antt =====
-- The moves of ConnectionPool/Order.antt lose no connection.
use didactic_pancake_server.Prelude.{
  ℕ, zero, suc, ◌+◌, Bool, true, false, Option, some, List, [], ◌∷◌, ◌++◌, map, length,
  length-append, ◌==◌, ◌≡◌, refl, arith, ap, sym, ◌∙◌, if◌then◌else◌,
}
use mathlib.Core.Path.{subst}
use didactic_pancake_server.Prelude.Int.{ℤ, pos, increment, decrement}
use didactic_pancake_server.Prelude.Bags.{copies, copies-append}
use didactic_pancake_server.ConnectionPool.{
  ConnectionPool, Login, connection_pool, init, post, refresh, put_conn,
}
use mathlib.Core.Option.{some-injective}
use didactic_pancake_server.ConnectionPool.Opened.{opened_pool, init_lem}
use didactic_pancake_server.ConnectionPool.Order.{
  World, Move, Moves, gives_up, wakes, is_interrupted, takes, releases, releases_null, posts, rests,
  moves, started, IsKept, Counts, Counts-IsKept, wait-Waited, interrupted_lem, take_conn-Taken,
}

refresh_same :
    (connect : ℕ → Option ℕ)
    → ((c c' : ℕ) → connect c ≡ some c' → c' ≡ c)
    → (alive : Bool) (con con' : ℕ) → refresh alive connect con ≡ some con'
    → con' ≡ con
unfolding refresh
refresh_same connect keeps true con con' e = cc
refresh_same connect keeps false con con' e = keeps con con' e

copies_middle :
    (a c : ℕ) (before after : List ℕ)
    → copies (before ++ (c ∷ after)) a ≡ copies (before ++ after) a + (if c == a then 1 else 0)
copies_middle a c before after =
    omega (arith, copies-append a before (c ∷ after), copies-append a before after)

length_middle :
    (c : ℕ) (before after : List ℕ)
    → length (before ++ (c ∷ after)) ≡ suc (length (before ++ after))
length_middle c before after =
    omega (arith, length-append before (c ∷ after), length-append before after)

-- ++n and --n on a counter.
increment_pos : (n m : ℕ) → m ≡ suc n → increment (pos n) ≡ pos m
unfolding increment
increment_pos n m e = ap pos (sym e)

decrement_pos : (n m : ℕ) → n ≡ suc m → decrement (pos n) ≡ pos m
unfolding decrement
decrement_pos zero m e = absurd (omega arith)
decrement_pos (suc n) m e = ap pos (omega arith)

module _ (connect : ℕ → Option ℕ) (keeps : (c c' : ℕ) → connect c ≡ some c' → c' ≡ c)
    (opened : List ℕ) where
  Move-Counts : {w w' : World} → Move connect w w' → Counts opened w → Counts opened w'
  unfolding put_conn post
  Move-Counts (gives_up e) h = h
  Move-Counts {w} (wakes q e) h =
      let v = wait-Waited w.pool q e in
      let size : length q.conn_list ≡ length w.pool.conn_list =
        ap (λ x. length x.conn_list) v.rest in
      record {
        kept = λ a. rw v.rest (h.kept a);
        free = rw v.rest h.free;
        busy = rw v.rest h.busy;
        signalled = omega (arith, h.signalled, v.signal, size);
      }
  Move-Counts {w} (is_interrupted q e) h =
      subst
        (λ x.
          Counts opened
            (record w { pool = x; woken = suc w.woken; interrupted = suc w.interrupted }))
        (interrupted_lem w.pool q e)
        (record {
          kept = h.kept;
          free = h.free;
          busy = h.busy;
          signalled = omega (arith, h.signalled);
        })
  Move-Counts {w} (takes n con con' q alive e d r) h =
      let v = take_conn-Taken con w.pool q d in
      let same = refresh_same connect keeps alive con con' r in
      let size : length w.pool.conn_list ≡ suc (length q.conn_list) = ap length v.front in
      record {
        kept = λ a.
            let entry : copies w.pool.conn_list a
                ≡ copies q.conn_list a + (if con == a then 1 else 0) =
              ap (λ l. copies l a) v.front in
            let taken : copies (con' ∷ w.held) a ≡ copies w.held a + (if con == a then 1 else 0) =
              ap (λ c. copies (c ∷ w.held) a) same in
            omega (arith, h.kept a);
        free = v.fewer ∙ ap decrement h.free ∙ decrement_pos _ _ size;
        busy = v.more ∙ ap increment h.busy ∙ increment_pos _ _ refl;
        signalled = omega (arith, h.signalled, size, v.same_reserve);
      }
  Move-Counts {w} (releases con before after e) h =
      let size : length w.held ≡ suc (length (before ++ after)) =
        ap length e ∙ length_middle con before after in
      let longer = length-append w.pool.conn_list (con ∷ []) in
      record {
        kept = λ a.
            let entry : copies w.held a ≡ copies (before ++ after) a + (if con == a then 1 else 0) =
              ap (λ l. copies l a) e ∙ copies_middle a con before after in
            omega (arith, h.kept a, copies-append a w.pool.conn_list (con ∷ []));
        free = ap increment h.free ∙ increment_pos _ _ (omega (arith, longer));
        busy = ap decrement h.busy ∙ decrement_pos _ _ size;
        signalled = omega (arith, h.signalled, longer);
      }
  Move-Counts releases_null h = h
  Move-Counts (posts n e) h = record {
    kept = h.kept;
    free = h.free;
    busy = h.busy;
    signalled = omega (arith, h.signalled);
  }

  Moves-Counts : {w w' : World} → Moves connect w w' → Counts opened w → Counts opened w'
  Moves-Counts rests h = h
  Moves-Counts (moves ms m) h = Move-Counts m (Moves-Counts ms h)

-- The pool that `init` leaves when every connection could be opened.
init-Counts :
    (max : ℤ) (l : Login) (opened : List ℕ) (p : ConnectionPool)
    → init l (map some opened) (connection_pool max) ≡ some p
    → Counts opened (started p)
unfolding init connection_pool
init-Counts max l opened p e =
    let same : opened_pool l opened ≡ p =
      some-injective (opened_pool l opened) p (sym (init_lem max l opened) ∙ e) in
    subst (λ x. Counts opened (started x)) same
      (record {
        kept = λ a. omega arith;
        free = ap pos (omega arith);
        busy = refl;
        signalled = omega arith;
      })

-- When the connections `opened` were opened by `init`, and mysql_real_connect gives back the
-- connection that it gets if it does not fail: in every interleaving of threads that get and
-- release connections, those that are idle and those that are handed out are together the opened
-- ones, each as often; m_free_conn and m_cur_conn are their numbers; and the idle ones and the waits
-- that a signal handler interrupted are together as many as the signals, given or under way, and the
-- threads past the wait. A thread that reads the front of an empty list makes no further move.
pub Moves-IsKept :
    (connect : ℕ → Option ℕ) (max : ℤ) (l : Login) (opened : List ℕ) (p : ConnectionPool)
    {w : World}
    → ((c c' : ℕ) → connect c ≡ some c' → c' ≡ c)
    → init l (map some opened) (connection_pool max) ≡ some p
    → Moves connect (started p) w
    → IsKept opened w
Moves-IsKept connect max l opened p {w} keeps e ms =
    Counts-IsKept opened w (Moves-Counts connect keeps opened ms (init-Counts max l opened p e))
