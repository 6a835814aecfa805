-- ===== src/ThreadPool.antt =====
-- threadpool/threadpool.h and threadpool/threadpool.cpp: the bounded work queue, the semaphore that
-- counts its entries, and one round of a worker. A request is a pointer: `none` is NULL.
pub mod Order
pub mod Queue
pub mod Construct
use didactic_pancake_server.Prelude.{
  ℕ, zero, suc, Bool, true, false, ◌||◌, Option, none, some, List, [], ◌∷◌, ◌++◌, ltb, ◌==◌,
  if◌then◌else◌, length,
}

-- pair<requestProcess *, int>: the request (by its index in `m_users`) and the mode.
abbrev pub Task : Type 0
Task = Option ℕ × ℕ

pub record ThreadPool : Type 0 where
  pub thread_number : ℕ
  pub max_requests : ℕ
  pub workqueue : List Task
  pub queuestat : ℕ

-- The constructor: `none` where it throws. `creates` says whether pthread_create and
-- pthread_detach succeed for the i-th thread.
abbrev all_created : (ℕ → Bool) → ℕ → Bool
all_created creates zero = true
all_created creates (suc i) =
    let before = all_created creates i in if creates i then before else false

unfoldable pub construct : (ℕ → Bool) → ℕ → ℕ → Option ThreadPool
construct creates thread_number max_request =
    if (thread_number == 0) || (max_request == 0)
    then none
    else if all_created creates thread_number
    then some (record {
      thread_number = thread_number;
      max_requests = max_request;
      workqueue = [];
      queuestat = 0;
    })
    else none

-- `append` up to its `unlock`: the refusal, or the entry at the back of the queue.
unfoldable pub enqueue : Task → ThreadPool → Bool × ThreadPool
enqueue t p =
    if ltb p.max_requests (length p.workqueue)
    then (false, p)
    else (true, record p { workqueue = p.workqueue ++ (t ∷ []) })

-- m_queuestat.post()
unfoldable pub post : ThreadPool → ThreadPool
post p = record p { queuestat = suc p.queuestat }

unfoldable pub append : Task → ThreadPool → Bool × ThreadPool
unfolding enqueue post
append t p = let (done, q) = enqueue t p in if done then (true, post q) else (false, q)

-- m_queuestat.wait(): `none` while the thread blocks. sem_wait fails where a signal handler interrupts
-- it, and wait then returns false.
unfoldable pub wait : Bool → ThreadPool → Option (Bool × ThreadPool)
wait true p = some (false, p)
wait false p = elim p.queuestat [ zero ↦ none | suc n ↦ some (true, record p { queuestat = n }) ]

-- What a worker does between `lock` and `unlock`: the entry at the front, if there is one.
abbrev pop_front : List Task → ThreadPool → Option Task × ThreadPool
pop_front [] p = (none, p)
pop_front (t ∷ rest) p = (some t, record p { workqueue = rest })

unfoldable pub dequeue : ThreadPool → Option Task × ThreadPool
dequeue p = pop_front p.workqueue p

-- One round of `run`, which does not look at what wait returns: the call of `process` that it makes (request and mode), if any.
abbrev call_of : Option Task → Option (ℕ × ℕ)
call_of none = none
call_of (some (none, mode)) = none
call_of (some (some request, mode)) = some (request, mode)

unfoldable pub run_round : Bool → ThreadPool → Option (Option (ℕ × ℕ) × ThreadPool)
unfolding wait dequeue
run_round interrupted p = elim (wait interrupted p) [
  | none ↦ none
  | some (_, q) ↦ some (call_of (dequeue q).0, (dequeue q).1)
]
