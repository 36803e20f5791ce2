-- ===== src/Thread/Pool.antt =====
-- TrantorFixedThreadPool (src/thread/inc/TrantorThreadPool.h, src/thread/src/TrantorThreadPool.cc):
-- the queue of tasks and the threads that run `threadFunc`, as a step relation. A step is one block
-- under the mutex, one read of `pool_alive_` or one task; a thread in `not_empty_cv_.wait` may take
-- its next step whenever the predicate holds, whoever notified it.
pub mod Once
pub mod InOrder
pub mod Cached
use trantor_net.Base.{
  ℕ, zero, suc, ◌+◌, ◌≡◌, Bool, true, false, Option, none, some, List, [], ◌∷◌, ◌++◌, get_elem?,
  set, length, if◌then◌else◌,
}

-- A thread in `threadFunc`: at the `while`, before the locked block, in the wait, behind the block,
-- or returned.
pub data Pc : Type 0 where
  top locking asleep acting returned : Pc

module _ (T : Type 0) where
  pub record Worker : Type 0 where
    pub pc : Pc
    pub func_to_do : Option T

  pub record Pool : Type 0 where
    pub task_queue : List T
    pub pool_alive : Bool

  -- The pool and its threads, with what was pushed and what was run, in order.
  pub record System : Type 0 where
    pub pool : Pool
    pub workers : List Worker
    pub pushed : List T
    pub ran : List T

  abbrev pub new_worker : Worker
  new_worker = record { pc = top; func_to_do = none }

  -- The constructor's `for`.
  abbrev pub new_workers : ℕ → List Worker
  new_workers zero = []
  new_workers (suc n) = new_worker ∷ new_workers n

  abbrev pub new_pool : ℕ → System
  new_pool thread_num = record {
    pool = record { task_queue = []; pool_alive = true };
    workers = new_workers thread_num;
    pushed = [];
    ran = [];
  }

module _ {T : Type 0} where
  unfoldable pub push_task : T → Pool T → Pool T
  push_task func p = record p { task_queue = p.task_queue ++ (func ∷ []) }

  -- What the destructor sets.
  unfoldable pub shut_down : Pool T → Pool T
  shut_down p = record p { pool_alive = false }

  unfoldable pub is_free : Pool T → Bool
  is_free p = elim (p.task_queue) [ [] ↦ true | _ ∷ _ ↦ false ]

  unfoldable pub get_task_num_in_queue : Pool T → ℕ
  get_task_num_in_queue p = length p.task_queue

  -- `while(pool_alive_)`
  unfoldable pub check_alive : Pool T → Worker T → Worker T
  check_alive p w = record w { pc = if p.pool_alive then locking else returned }

  -- The wait and what follows it: the front of the queue, if there is one, is the next task; with
  -- the empty queue of a dead pool the last task stays in `func_to_do`.
  unfoldable pub wait_block : Pool T → Worker T → Pool T × Worker T
  wait_block p w = elim (p.task_queue) [
    | [] ↦ (p, record w { pc = if p.pool_alive then asleep else acting })
    | func ∷ rest ↦ (record p { task_queue = rest }, record { pc = acting; func_to_do = some func })
  ]

  -- The locked block, entered anew: if the pool is no more alive, nothing is done in it.
  unfoldable pub locked_block : Pool T → Worker T → Pool T × Worker T
  locked_block p w = if p.pool_alive then wait_block p w else (p, record w { pc = acting })

  -- `if (func_to_do) func_to_do();`
  abbrev pub tasks_of : Option T → List T
  tasks_of none = []
  tasks_of (some func) = func ∷ []

  pub data Step (s u : System T) : Type 0 where
    push :
        (func : T)
        → u ≡ record s { pool = push_task func s.pool; pushed = s.pushed ++ (func ∷ []) }
        → Step s u
    check :
        (i : ℕ) (w : Worker T)
        → get_elem? s.workers i ≡ some w
        → w.pc ≡ top
        → u ≡ record s { workers = set s.workers i (check_alive s.pool w) }
        → Step s u
    lock :
        (i : ℕ) (w : Worker T)
        → get_elem? s.workers i ≡ some w
        → w.pc ≡ locking
        → u ≡ record s {
          pool = (locked_block s.pool w).0;
          workers = set s.workers i (locked_block s.pool w).1;
        }
        → Step s u
    wake :
        (i : ℕ) (w : Worker T)
        → get_elem? s.workers i ≡ some w
        → w.pc ≡ asleep
        → u ≡ record s {
          pool = (wait_block s.pool w).0;
          workers = set s.workers i (wait_block s.pool w).1;
        }
        → Step s u
    act :
        (i : ℕ) (w : Worker T)
        → get_elem? s.workers i ≡ some w
        → w.pc ≡ acting
        → u ≡ record s {
          workers = set s.workers i (record w { pc = top });
          ran = s.ran ++ tasks_of w.func_to_do;
        }
        → Step s u
    destroy : u ≡ record s { pool = shut_down s.pool } → Step s u

  pub data Reachable (n : ℕ) : System T → Type 0 where
    here : Reachable n (new_pool T n)
    next : {s u : System T} → Reachable n s → Step s u → Reachable n u
