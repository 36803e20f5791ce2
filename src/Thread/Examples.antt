-- ===== src/Thread/Examples.antt =====
-- The properties of the pools and of what threads synchronise with, at concrete states.
use trantor_net.Base.{
  ℕ, ◌+◌, ◌≤◌, ◌≡◌, ◌≢◌, ◌⊎◌, ◌↔◌, refl, true, false, none, [], ◌∷◌, ◌++◌, ◌==◌, arith, count, set,
}
use trantor_net.Thread.Pool.{
  Worker, System, new_pool, new_worker, push_task, check_alive, locked_block, wait_block, push,
  check, lock, Reachable, here, next,
}
use trantor_net.Thread.Pool.Once.{in_flight, accounted, tasks_once}
use trantor_net.Thread.Pool.InOrder.{single_thread_in_order}
use trantor_net.Thread.Pool.Cached.{CachedPool}
use trantor_net.Thread.ShareMutex
use trantor_net.Thread.ShareMutex.Exclusion.{mutual_exclusion}
use trantor_net.Thread.Semaphore
use trantor_net.Thread.BlockQueue

-- A pool of one thread: the task 7 is pushed, and the thread takes it.
abbrev queued : System ℕ
queued = record (new_pool ℕ 1) { pool = push_task 7 (new_pool ℕ 1).pool; pushed = 7 ∷ [] }

abbrev at_lock : System ℕ
at_lock = record queued { workers = set queued.workers 0 (check_alive queued.pool (new_worker ℕ)) }

abbrev taken_task : System ℕ
taken_task = record at_lock {
  pool = (locked_block at_lock.pool (check_alive queued.pool (new_worker ℕ))).0;
  workers =
      set at_lock.workers 0 (locked_block at_lock.pool (check_alive queued.pool (new_worker ℕ))).1;
}

taken_task-Reachable : Reachable 1 taken_task
unfolding check_alive push_task
taken_task-Reachable =
    next (next (next here (push 7 refl)) (check 0 (new_worker ℕ) refl refl refl))
      (lock 0 (check_alive queued.pool (new_worker ℕ)) refl refl refl)

taken_task-queue : taken_task.pool.task_queue ≡ []
unfolding check_alive push_task locked_block wait_block
taken_task-queue = refl

tasks_once_example :
    (count (λ t. t == 7) taken_task.pushed ≤ accounted (λ t. t == 7) taken_task)
    × (taken_task.pool.pool_alive ≡ true
        → accounted (λ t. t == 7) taken_task ≡ count (λ t. t == 7) taken_task.pushed)
tasks_once_example = tasks_once 1 taken_task (λ t. t == 7) taken_task-Reachable

single_thread_in_order_example :
    (w : Worker ℕ) × (taken_task.workers ≡ w ∷ [])
    × (taken_task.pool.pool_alive ≡ true
        → taken_task.ran ++ (in_flight w ++ taken_task.pool.task_queue) ≡ taken_task.pushed)
single_thread_in_order_example = single_thread_in_order taken_task taken_task-Reachable

-- Two busy threads of at most two.
abbrev busy_pool : CachedPool ℕ
busy_pool = record { single_thread_vec = (1 ∷ 2 ∷ []) ∷ (3 ∷ []) ∷ []; max_thread_num = 2 }

-- A reader inside, of two threads.
abbrev one_reader : ShareMutex.System
one_reader = record {
  mutex = record { read_count = 1; write_count = 0 };
  write_mtx = false;
  threads = ShareMutex.reading ∷ ShareMutex.outside ∷ [];
}

one_reader-Reachable : ShareMutex.Reachable 2 one_reader
unfolding ShareMutex.read_lock
one_reader-Reachable =
    ShareMutex.next ShareMutex.here
      (ShareMutex.read_in 0 (record { read_count = 1; write_count = 0 }) refl refl refl refl)

mutual_exclusion_example :
    (one_reader.mutex.read_count ≡ ShareMutex.readers one_reader)
    × (one_reader.mutex.write_count ≡ ShareMutex.writers one_reader)
    × ((ShareMutex.writers one_reader ≡ 0)
        ⊎ ((ShareMutex.writers one_reader ≡ 1) × (ShareMutex.readers one_reader ≡ 0)))
mutual_exclusion_example = mutual_exclusion 2 one_reader (omega arith) one_reader-Reachable

-- One of two resources is out.
abbrev one_out : Semaphore.System
one_out = record { semaphore = record { max_res_num = 2; avaliable_res_num = 1 }; held = 1 }

one_out-Reachable : Semaphore.Reachable 2 one_out
unfolding Semaphore.wait
one_out-Reachable = Semaphore.next Semaphore.here (Semaphore.acquire one_out.semaphore refl refl)

resources_lem_example :
    (Semaphore.get_res_num one_out.semaphore + one_out.held ≡ 2)
    × (Semaphore.wait one_out.semaphore ≡ none ↔ one_out.held ≡ 2)
resources_lem_example = Semaphore.resources_lem 2 one_out (omega arith) one_out-Reachable

abbrev one_put : BlockQueue.System ℕ
one_put = record {
  block_queue = record { queue = 5 ∷ []; max_queue_size = 1 };
  put_in = 5 ∷ [];
  popped = [];
}

one_put-Reachable : BlockQueue.Reachable 1 one_put
unfolding BlockQueue.put
one_put-Reachable =
    BlockQueue.next BlockQueue.here (BlockQueue.putting 5 one_put.block_queue refl refl)

fifo_lem_example :
    (one_put.popped ++ one_put.block_queue.queue ≡ one_put.put_in)
    × (BlockQueue.size one_put.block_queue ≤ 1)
    × ((BlockQueue.put 6 one_put.block_queue ≢ none)
        ⊎ (BlockQueue.take_front one_put.block_queue ≢ none))
fifo_lem_example = BlockQueue.fifo_lem 1 one_put 6 (omega arith) (omega arith) one_put-Reachable
