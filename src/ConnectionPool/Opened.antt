-- ===== src/ConnectionPool/Opened.antt =====
-- init of ConnectionPool.antt, on the pool that the constructor makes.
use didactic_pancake_server.Prelude.{
  ℕ, suc, ◌+◌, Option, Option-cases, none, some, inl, inr, List, [], ◌∷◌, ◌++◌, map, length, ◌≡◌,
  refl, arith, ap, ◌∙◌,
}
use didactic_pancake_server.Prelude.Int.{ℤ, pos, increment}
use didactic_pancake_server.ConnectionPool.{ConnectionPool, Login, connection_pool, open_all, init}
use mathlib.Core.List.{append-nil, append_assoc}

abbrev pub opened_pool : Login → List ℕ → ConnectionPool
opened_pool l opened = record {
  max_conn = pos (length opened);
  cur_conn = pos 0;
  free_conn = pos (length opened);
  url = l.url;
  port = l.port;
  user = l.user;
  password = l.password;
  database_name = l.database_name;
  conn_list = opened;
  reserve = length opened;
}

abbrev logged_in : Login → ℤ → ConnectionPool
logged_in l max = record {
  max_conn = max;
  cur_conn = pos 0;
  free_conn = pos 0;
  url = l.url;
  port = l.port;
  user = l.user;
  password = l.password;
  database_name = l.database_name;
  conn_list = [];
  reserve = 0;
}

add_zero : (n : ℕ) → n + 0 ≡ n
add_zero n = omega arith

suc_move : (k n : ℕ) → suc k + n ≡ k + suc n
suc_move k n = omega arith

open_all_lem :
    (xs : List ℕ) (p : ConnectionPool) (k : ℕ)
    → open_all (map some xs) (record p { free_conn = pos k })
      ≡ some (record p { conn_list = p.conn_list ++ xs; free_conn = pos (k + length xs) })
unfolding open_all increment
open_all_lem [] p k = rw (append-nil, add_zero k) refl
open_all_lem (x ∷ xs) p k =
    open_all_lem xs (record p { conn_list = p.conn_list ++ (x ∷ []) }) (suc k)
    ∙ rw (append_assoc p.conn_list (x ∷ []) xs, suc_move k (length xs)) refl

zero_add : (n : ℕ) → 0 + n ≡ n
zero_add n = omega arith

-- Where every connection is opened, init leaves them all idle, with a signal for each.
pub init_lem :
    (max : ℤ) (l : Login) (opened : List ℕ)
    → init l (map some opened) (connection_pool max) ≡ some (opened_pool l opened)
unfolding init connection_pool
init_lem max l opened =
    rw (open_all_lem opened (logged_in l max) 0, init, zero_add (length opened)) refl

open_all-opened :
    (connects : List (Option ℕ)) (p q : ConnectionPool)
    → open_all connects p ≡ some q
    → (opened : List ℕ) × (connects ≡ map some opened)
unfolding open_all
open_all-opened [] p q e = ([], refl)
open_all-opened (none ∷ connects) p q e = absurd (cc e)
open_all-opened (some con ∷ connects) p q e =
    let rest =
      open_all-opened connects
        (record p { conn_list = p.conn_list ++ (con ∷ []); free_conn = increment p.free_conn }) q
        e in
    (con ∷ rest.0, ap (λ cs. some con ∷ cs) rest.1)

-- init returns only where every connection is opened.
pub init-opened :
    (max : ℤ) (l : Login) (connects : List (Option ℕ)) (q : ConnectionPool)
    → init l connects (connection_pool max) ≡ some q
    → (opened : List ℕ) × (connects ≡ map some opened)
unfolding init connection_pool
init-opened max l connects q e = elim (Option-cases (open_all connects (logged_in l max))) [
  | inl failed ↦ absurd (cc (rw (failed, init) at e))
  | inr (p, done) ↦ open_all-opened connects (logged_in l max) p done
]
