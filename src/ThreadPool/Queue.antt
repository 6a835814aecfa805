-- ===== src/ThreadPool/Queue.antt =====
-- What the operations on the work queue of ThreadPool.antt do to it, one by one.
use didactic_pancake_server.Prelude.{
  if_rule, ℕ, zero, suc, ◌≤◌, Bool, true, false, Option, none, some, List, [], ◌∷◌, ◌++◌, length,
  ltb, ◌≡◌, refl, arith, ap, sym, ◌∙◌,
}
use didactic_pancake_server.ThreadPool.{Task, ThreadPool, enqueue, wait, pop_front, dequeue}

pub record Enqueued (t : Task) (p q : ThreadPool) : Type 0 where
  pub same_max : q.max_requests ≡ p.max_requests
  pub entered : q.workqueue ≡ p.workqueue ++ (t ∷ [])
  pub same_stat : q.queuestat ≡ p.queuestat
  pub room : length p.workqueue ≤ p.max_requests

pub enqueue-Enqueued :
    (t : Task) (p : ThreadPool) → (enqueue t p).0 ≡ true → Enqueued t p (enqueue t p).1
unfolding enqueue
enqueue-Enqueued t p =
    let P : Bool × ThreadPool → Type 0 = λ out. out.0 ≡ true → Enqueued t p out.1 in
    if_rule P (ltb p.max_requests (length p.workqueue)) (λ e h. absurd (cc h))
      (λ e h. record { same_max = refl; entered = refl; same_stat = refl; room = ground arith })

pub enqueue_refused : (t : Task) (p : ThreadPool) → (enqueue t p).0 ≡ false → (enqueue t p).1 ≡ p
unfolding enqueue
enqueue_refused t p =
    let P : Bool × ThreadPool → Type 0 = λ out. out.0 ≡ false → out.1 ≡ p in
    if_rule P (ltb p.max_requests (length p.workqueue)) (λ e h. refl) (λ e h. absurd (cc h))

pub record Waited (p q : ThreadPool) : Type 0 where
  pub same_max : q.max_requests ≡ p.max_requests
  pub same_queue : q.workqueue ≡ p.workqueue
  pub taken_signal : p.queuestat ≡ suc q.queuestat

pub pool_injective : (p q : ThreadPool) → some p ≡ some q → p ≡ q
pool_injective p q h = ap (λ o. elim o [ none ↦ p | some x ↦ x ]) h

abbrev pool_after : ThreadPool → Option (Bool × ThreadPool) → ThreadPool
pool_after p none = p
pool_after p (some (got, q)) = q

wait_of :
    (p q : ThreadPool) (n : ℕ)
    → p.queuestat ≡ n
    → elim n as (λ k. Option (Bool × ThreadPool)) [
      | zero ↦ none
      | suc m ↦ some (true, record p { queuestat = m })
    ]
      ≡ some (true, q)
    → Waited p q
wait_of p q zero e h = absurd (cc h)
wait_of p q (suc m) e h =
    let same : record p { queuestat = m } ≡ q = ap (pool_after p) h in
    record {
      same_max = sym (ap (λ x. x.max_requests) same);
      same_queue = sym (ap (λ x. x.workqueue) same);
      taken_signal = e ∙ ap (λ x. suc x.queuestat) same;
    }

pub wait-Waited : (p q : ThreadPool) → wait false p ≡ some (true, q) → Waited p q
unfolding wait
wait-Waited p q = wait_of p q p.queuestat refl

pub interrupted_lem : (p q : ThreadPool) → wait true p ≡ some (false, q) → p ≡ q
unfolding wait
interrupted_lem p q h = ap (pool_after p) h

-- An entry that a worker takes is the front of the queue.
pub record Popped (t : Task) (p q : ThreadPool) : Type 0 where
  pub same_max : q.max_requests ≡ p.max_requests
  pub front : p.workqueue ≡ t ∷ q.workqueue
  pub same_stat : q.queuestat ≡ p.queuestat

pop_front-Popped :
    (tasks : List Task) (t : Task) (p : ThreadPool)
    → p.workqueue ≡ tasks
    → (pop_front tasks p).0 ≡ some t
    → Popped t p (pop_front tasks p).1
pop_front-Popped [] t p e h = absurd (cc h)
pop_front-Popped (u ∷ rest) t p e h = record { same_max = refl; front = cc; same_stat = refl }

pub dequeue-Popped : (t : Task) (p : ThreadPool) → (dequeue p).0 ≡ some t → Popped t p (dequeue p).1
unfolding dequeue
dequeue-Popped t p h = pop_front-Popped p.workqueue t p refl h

pop_front_empty : (tasks : List Task) (p : ThreadPool) → (pop_front tasks p).0 ≡ none → tasks ≡ []
pop_front_empty [] p h = refl
pop_front_empty (u ∷ rest) p h = absurd (cc h)

pub dequeue_empty : (p : ThreadPool) → (dequeue p).0 ≡ none → p.workqueue ≡ []
unfolding dequeue
dequeue_empty p h = pop_front_empty p.workqueue p h

pop_front_same :
    (tasks : List Task) (p : ThreadPool) → (pop_front tasks p).0 ≡ none → (pop_front tasks p).1 ≡ p
pop_front_same [] p h = refl
pop_front_same (u ∷ rest) p h = absurd (cc h)

pub dequeue_same : (p : ThreadPool) → (dequeue p).0 ≡ none → (dequeue p).1 ≡ p
unfolding dequeue
dequeue_same p h = pop_front_same p.workqueue p h
