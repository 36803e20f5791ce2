-- ===== src/Thread/Waking.antt =====
-- TrantorFixedThreadPool (src/thread/src/TrantorThreadPool.cc) with its condition variables: which
-- sleeping thread a notification wakes, and `waitUntilFinished`, which at most one thread at a time
-- is in. A step is one block under the mutex, one notification, one read of `pool_alive_` or one
-- task. No thread wakes without a notification.
pub mod Counts
pub mod Invariant
pub mod Awake
pub mod Destroy
mod Examples
use trantor_net.Base.{
  ℕ, zero, suc, ◌+◌, ◌-◌, ◌<◌, ◌≡◌, Bool, true, false, Option, none, some, List, [], ◌∷◌, ◌++◌,
  get_elem?, set, sum, if◌then◌else◌,
}

-- A thread in `threadFunc`: at the `while`, before the locked block, in `not_empty_cv_.wait`, woken
-- in it, behind the block, or returned.
pub data Stage : Type 0 where
  top locking asleep notified acting returned : Stage

-- The caller of `waitUntilFinished`: none, one in `empty_cv_.wait`, or one woken in it.
pub data Waiter : Type 0 where
  absent waiting signalled : Waiter

pub record Crew (T : Type 0) : Type 0 where
  pub task_queue : List T
  pub pool_alive : Bool
  pub wait_empty : Bool
  pub workers : List Stage
  pub notices : ℕ  -- the callers of `pushTask` behind its block and before its `notify_one`
  pub waiter : Waiter

abbrev pub asleep_of : Stage → ℕ
asleep_of asleep = 1
asleep_of _ = 0

abbrev pub new_stages : ℕ → List Stage
new_stages zero = []
new_stages (suc n) = top ∷ new_stages n

abbrev pub signal : Waiter → Waiter
signal waiting = signalled
signal w = w

module _ {T : Type 0} where
  abbrev pub new_crew : ℕ → Crew T
  new_crew thread_num = record {
    task_queue = [];
    pool_alive = true;
    wait_empty = false;
    workers = new_stages thread_num;
    notices = 0;
    waiter = absent;
  }

  abbrev pub move : ℕ → Stage → Crew T → Crew T
  move i stage c = record c { workers = set c.workers i stage }

  -- The block of `pushTask`.
  unfoldable pub push : T → Crew T → Crew T
  push func c = record c { task_queue = c.task_queue ++ (func ∷ []); notices = c.notices + 1 }

  -- `while(pool_alive_)`
  unfoldable pub check_alive : ℕ → Crew T → Crew T
  check_alive i c = move i (if c.pool_alive then locking else returned) c

  -- The wait, where its predicate is read, and what follows it.
  unfoldable pub wait_not_empty : ℕ → List T → Crew T → Crew T
  wait_not_empty i [] c = move i (if c.pool_alive then asleep else acting) c
  wait_not_empty i (func ∷ rest) c = move i acting (record c { task_queue = rest })

  -- `if (wait_empty_ && task_queue_.empty()) empty_cv_.notify_one();`
  unfoldable pub notify_empty : List T → Crew T → Crew T
  notify_empty [] c = if c.wait_empty then record c { waiter = signal c.waiter } else c
  notify_empty (func ∷ rest) c = c

  -- The locked block up to its wait, which reads the predicate first.
  unfoldable pub locked : ℕ → Crew T → Crew T
  unfolding wait_not_empty notify_empty
  locked i c =
      if c.pool_alive
      then wait_not_empty i c.task_queue (notify_empty c.task_queue c)
      else move i acting c

  -- `waitUntilFinished`, up to its wait.
  unfoldable pub begin_wait : List T → Crew T → Crew T
  begin_wait [] c = c
  begin_wait (func ∷ rest) c = record c { wait_empty = true; waiter = waiting }

  -- A woken wait reads its predicate again.
  unfoldable pub end_wait : List T → Crew T → Crew T
  end_wait [] c = record c { wait_empty = false; waiter = absent }
  end_wait (func ∷ rest) c = record c { waiter = waiting }

  -- The block of the destructor, but for its notification.
  unfoldable pub shut_down : Crew T → Crew T
  shut_down c = record c { pool_alive = false }

  -- What the threads of the pool do, with the notifications that are on their way.
  pub data Turn (c d : Crew T) : Type 0 where
    notify :
        (i : ℕ)
        → get_elem? c.workers i ≡ some asleep
        → 0 < c.notices
        → d ≡ move i notified (record c { notices = c.notices - 1 })
        → Turn c d
    notify_nobody :
        sum asleep_of c.workers ≡ 0
        → 0 < c.notices
        → d ≡ record c { notices = c.notices - 1 }
        → Turn c d
    check : (i : ℕ) → get_elem? c.workers i ≡ some top → d ≡ check_alive i c → Turn c d
    lock : (i : ℕ) → get_elem? c.workers i ≡ some locking → d ≡ locked i c → Turn c d
    resume :
        (i : ℕ)
        → get_elem? c.workers i ≡ some notified
        → d ≡ wait_not_empty i c.task_queue c
        → Turn c d
    act : (i : ℕ) → get_elem? c.workers i ≡ some acting → d ≡ move i top c → Turn c d

  -- The destructor up to its `join`: it wakes one thread, if one sleeps.
  pub data Destroys (c d : Crew T) : Type 0 where
    wakes :
        (i : ℕ)
        → get_elem? c.workers i ≡ some asleep
        → d ≡ move i notified (shut_down c)
        → Destroys c d
    wakes_nobody : sum asleep_of c.workers ≡ 0 → d ≡ shut_down c → Destroys c d

  -- The same, and what the users of the pool do.
  pub data Step (c d : Crew T) : Type 0 where
    turn : Turn c d → Step c d
    push_task : (func : T) → d ≡ push func c → Step c d
    begin : c.waiter ≡ absent → d ≡ begin_wait c.task_queue c → Step c d
    end : c.waiter ≡ signalled → d ≡ end_wait c.task_queue c → Step c d
    destroy : Destroys c d → Step c d

  pub data Reachable (n : ℕ) : Crew T → Type 0 where
    here : Reachable n (new_crew n)
    next : {c d : Crew T} → Reachable n c → Step c d → Reachable n d

  -- What the threads make of a state by themselves.
  pub data Later (c : Crew T) : Crew T → Type 0 where
    now : Later c c
    then_turn : {d e : Crew T} → Later c d → Turn d e → Later c e
