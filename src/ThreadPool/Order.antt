-- ===== src/ThreadPool/Order.antt =====
-- The work queue of ThreadPool.antt under producers and workers that run side by side. A step is one
-- critical section or one call on the semaphore; each is atomic.
use mathlib.Core.List.{append_assoc}
use mathlib.Core.Path.{subst}
use didactic_pancake_server.Prelude.{
  if_rule, ℕ, suc, ◌+◌, ◌≤◌, Bool, true, false, Option, none, some, List, [], ◌∷◌, ◌++◌, length,
  length-append, ◌==◌, ◌||◌, ◌≡◌, refl, arith, ap, sym, ◌∙◌,
}
use didactic_pancake_server.ThreadPool.{
  Task, ThreadPool, all_created, construct, enqueue, post, wait, dequeue,
}
use didactic_pancake_server.ThreadPool.Queue.{
  enqueue-Enqueued, enqueue_refused, pool_injective, wait-Waited, interrupted_lem, dequeue-Popped,
  dequeue_empty, dequeue_same,
}

-- The pool, the producers between `unlock` and `post`, the workers between `wait` and `lock`, and
-- the tasks that were accepted and that were taken, in order; how many waits were interrupted, and
-- how many workers found no task.
pub record World : Type 0 where
  pub pool : ThreadPool
  pub posting : ℕ
  pub woken : ℕ
  pub accepted : List Task
  pub taken : List Task
  pub interrupted : ℕ
  pub missed : ℕ

pub data Move : World → World → Type 0 where
  accepts :
      {w : World} (t : Task)
      → (enqueue t w.pool).0 ≡ true
      → Move w (record w {
        pool = (enqueue t w.pool).1;
        posting = suc w.posting;
        accepted = w.accepted ++ (t ∷ []);
      })
  refuses :
      {w : World} (t : Task)
      → (enqueue t w.pool).0 ≡ false
      → Move w (record w { pool = (enqueue t w.pool).1 })
  posts :
      {w : World} (n : ℕ)
      → w.posting ≡ suc n
      → Move w (record w { pool = post w.pool; posting = n })
  wakes :
      {w : World} (q : ThreadPool)
      → wait false w.pool ≡ some (true, q)
      → Move w (record w { pool = q; woken = suc w.woken })
  is_interrupted :
      {w : World} (q : ThreadPool)
      → wait true w.pool ≡ some (false, q)
      → Move w (record w { pool = q; woken = suc w.woken; interrupted = suc w.interrupted })
  takes :
      {w : World} (n : ℕ) (t : Task)
      → w.woken ≡ suc n
      → (dequeue w.pool).0 ≡ some t
      → Move w (record w { pool = (dequeue w.pool).1; woken = n; taken = w.taken ++ (t ∷ []) })
  misses :
      {w : World} (n : ℕ)
      → w.woken ≡ suc n
      → (dequeue w.pool).0 ≡ none
      → Move w (record w { pool = (dequeue w.pool).1; woken = n; missed = suc w.missed })

pub data Moves : World → World → Type 0 where
  rests : {w : World} → Moves w w
  moves : {w w' w'' : World} → Moves w w' → Move w' w'' → Moves w w''

abbrev pub started : ThreadPool → World
started p = record {
  pool = p;
  posting = 0;
  woken = 0;
  accepted = [];
  taken = [];
  interrupted = 0;
  missed = 0;
}

-- The tasks leave in the order in which they came; each entry of the queue has a signal or a worker
-- on its way to it; signals and workers are more than the entries by the waits that were interrupted,
-- less the workers that found nothing; the queue holds at most one entry more than `max`.
pub record IsOrdered (max : ℕ) (w : World) : Type 0 where
  pub same_max : w.pool.max_requests ≡ max
  pub in_order : w.accepted ≡ w.taken ++ w.pool.workqueue
  pub signalled :
      length w.pool.workqueue + w.interrupted ≡ w.pool.queuestat + w.posting + w.woken + w.missed
  pub excused : w.missed ≤ w.interrupted
  pub none_lost : length w.pool.workqueue ≤ w.pool.queuestat + w.posting + w.woken
  pub bounded : length w.pool.workqueue ≤ suc max

Move-IsOrdered : (max : ℕ) {w w' : World} → Move w w' → IsOrdered max w → IsOrdered max w'
unfolding post
Move-IsOrdered max {w = w} (accepts t e) h =
    let q = enqueue-Enqueued t w.pool e in
    record {
      same_max = q.same_max ∙ h.same_max;
      in_order =
          ap (λ l. l ++ (t ∷ [])) h.in_order
          ∙ append_assoc w.taken w.pool.workqueue (t ∷ [])
          ∙ ap (λ l. w.taken ++ l) (sym q.entered);
      signalled =
          rw (q.entered, length-append w.pool.workqueue (t ∷ []), q.same_stat)
            (omega (arith, h.signalled));
      excused = h.excused;
      none_lost =
          rw (q.entered, length-append w.pool.workqueue (t ∷ []), q.same_stat)
            (omega (arith, h.none_lost));
      bounded =
          rw (q.entered, length-append w.pool.workqueue (t ∷ []))
            (omega (arith, q.room, h.same_max));
    }
Move-IsOrdered max {w = w} (refuses t e) h = rw (enqueue_refused t w.pool e) (record {
  same_max = h.same_max;
  in_order = h.in_order;
  signalled = h.signalled;
  excused = h.excused;
  none_lost = h.none_lost;
  bounded = h.bounded;
})
Move-IsOrdered max {w = w} (posts n e) h = record {
  same_max = h.same_max;
  in_order = h.in_order;
  signalled = omega (arith, h.signalled);
  excused = h.excused;
  none_lost = omega (arith, h.none_lost);
  bounded = h.bounded;
}
Move-IsOrdered max {w = w} (wakes q e) h =
    let v = wait-Waited w.pool q e in
    record {
      same_max = v.same_max ∙ h.same_max;
      in_order = h.in_order ∙ ap (λ l. w.taken ++ l) (sym v.same_queue);
      signalled = rw v.same_queue (omega (arith, h.signalled, v.taken_signal));
      excused = h.excused;
      none_lost = rw v.same_queue (omega (arith, h.none_lost, v.taken_signal));
      bounded = rw v.same_queue h.bounded;
    }
Move-IsOrdered max {w = w} (takes n t e d) h =
    let v = dequeue-Popped t w.pool d in
    let size : length w.pool.workqueue ≡ suc (length (dequeue w.pool).1.workqueue) =
      ap length v.front in
    record {
      same_max = v.same_max ∙ h.same_max;
      in_order =
          h.in_order
          ∙ ap (λ l. w.taken ++ l) v.front
          ∙ sym (append_assoc w.taken (t ∷ []) (dequeue w.pool).1.workqueue);
      signalled = omega (arith, h.signalled, size, v.same_stat);
      excused = h.excused;
      none_lost = omega (arith, h.none_lost, size, v.same_stat);
      bounded = omega (arith, h.bounded, size);
    }
Move-IsOrdered max {w = w} (is_interrupted q e) h =
    let same = interrupted_lem w.pool q e in
    subst
      (λ x.
        IsOrdered max (record w { pool = x; woken = suc w.woken; interrupted = suc w.interrupted }))
      same
      (record {
        same_max = h.same_max;
        in_order = h.in_order;
        signalled = omega (arith, h.signalled);
        excused = omega (arith, h.excused);
        none_lost = omega (arith, h.none_lost);
        bounded = h.bounded;
      })
Move-IsOrdered max {w = w} (misses n e d) h =
    let gone : w.pool.workqueue ≡ [] = dequeue_empty w.pool d in
    let same : (dequeue w.pool).1 ≡ w.pool = dequeue_same w.pool d in
    let size : length w.pool.workqueue ≡ 0 = ap length gone in
    subst (λ x. IsOrdered max (record w { pool = x; woken = n; missed = suc w.missed })) (sym same)
      (record {
        same_max = h.same_max;
        in_order = h.in_order;
        signalled = omega (arith, h.signalled);
        excused = omega (arith, h.signalled, size);
        none_lost = omega (arith, size);
        bounded = h.bounded;
      })

keeps_order : (max : ℕ) {w w' : World} → Moves w w' → IsOrdered max w → IsOrdered max w'
keeps_order max rests h = h
keeps_order max (moves ms m) h = Move-IsOrdered max m (keeps_order max ms h)

construct-started :
    (creates : ℕ → Bool) (n max : ℕ) (p : ThreadPool)
    → construct creates n max ≡ some p
    → IsOrdered max (started p)
unfolding construct
construct-started creates n max p =
    let P : Option ThreadPool → Type 0 = λ out. out ≡ some p → IsOrdered max (started p) in
    let fresh : ThreadPool = record {
      thread_number = n;
      max_requests = max;
      workqueue = [];
      queuestat = 0;
    } in
    let start : IsOrdered max (started fresh) = record {
      same_max = refl;
      in_order = refl;
      signalled = omega arith;
      excused = omega arith;
      none_lost = omega arith;
      bounded = omega arith;
    } in
    if_rule P ((n == 0) || (max == 0)) (λ e h. absurd (cc h))
      (λ e.
        if_rule P (all_created creates n)
          (λ e1 h. subst (λ x. IsOrdered max (started x)) (pool_injective fresh p h) start)
          (λ e1 h. absurd (cc h)))

-- In every interleaving of producers and workers on a pool that was constructed, with waits that a
-- signal handler may interrupt: the accepted tasks are those that were taken, in the order in which
-- they were accepted, followed by the queue; each entry of the queue has a signal, given or under way,
-- or a worker that is past its wait; entries and interrupted waits are together as many as those and
-- the workers that found no task, which are at most the interrupted waits; and the queue holds at
-- most max_request + 1 entries.
pub Moves-IsOrdered :
    (creates : ℕ → Bool) (n max : ℕ) (p : ThreadPool) {w : World}
    → construct creates n max ≡ some p
    → Moves (started p) w
    → IsOrdered max w
Moves-IsOrdered creates n max p c ms = keeps_order max ms (construct-started creates n max p c)
