-- ===== src/Tests/Pool.antt =====
-- Runs of the work queue of ThreadPool.antt.
use didactic_pancake_server.Prelude.{true, some, [], ◌∷◌, ◌≡◌, refl}
use didactic_pancake_server.ThreadPool.{Task, ThreadPool, construct, enqueue, post, wait}
use didactic_pancake_server.ThreadPool.Order.{
  World, Moves, accepts, posts, wakes, rests, moves, started, IsOrdered, Moves-IsOrdered,
}

abbrev fresh : ThreadPool
fresh = record { thread_number = 2; max_requests = 4; workqueue = []; queuestat = 0 }

fresh_constructed : construct (λ i. true) 2 4 ≡ some fresh
unfolding construct
fresh_constructed = refl

abbrev task : Task
task = (some 3, 0)

-- A read task for slot 3 is accepted and signalled, and a worker wakes.
abbrev woken : World
woken = record {
  pool = record fresh { workqueue = task ∷ [] };
  posting = 0;
  woken = 1;
  accepted = task ∷ [];
  taken = [];
  interrupted = 0;
  missed = 0;
}

run : Moves (started fresh) woken
unfolding enqueue post wait
run =
    moves (moves (moves rests (accepts task refl)) (posts 0 refl))
      (wakes (record fresh { workqueue = task ∷ [] }) refl)

Moves-IsOrdered_example : IsOrdered 4 woken
Moves-IsOrdered_example = Moves-IsOrdered (λ i. true) 2 4 fresh fresh_constructed run
