-- ===== src/Thread/Pool/Once.antt =====
-- Every task that is pushed is run once.
use trantor_net.Base.{
  ℕ, zero, suc, ◌+◌, ◌≤◌, ◌≡◌, refl, subst, sym, ap, Bool, true, false, Option, some, List, [], ◌∷◌,
  get_elem?, set, if◌then◌else◌, sum, count, sum-++, sum-set, arith, Bool-cases, inl, inr, ◌⊎◌, ◌∙◌,
}
use trantor_net.Thread.Pool.{
  Pc, top, locking, asleep, acting, returned, Worker, Pool, System, new_workers, new_pool,
  push_task, shut_down, check_alive, wait_block, locked_block, tasks_of, Step, push, check, lock,
  wake, act, destroy, Reachable, here, next,
}

module _ {T : Type 0} where
  abbrev pub carried : Pc → Option T → List T
  carried acting f = tasks_of f
  carried _ f = []

  -- The task that a thread has taken and not run.
  abbrev pub in_flight : Worker T → List T
  in_flight w = carried w.pc w.func_to_do

  -- The tasks with a property that were run, that threads have taken, and that are in the queue.
  abbrev pub accounted : (T → Bool) → System T → ℕ
  accounted p s =
      count p s.ran + sum (λ w. count p (in_flight w)) s.workers + count p s.pool.task_queue

  -- What a locked block may do to the pool and the thread: it loses no task with the property, and
  -- while the pool is alive it adds none.
  abbrev Keeps : (T → Bool) → Pool T → Pool T × Worker T → Type 0
  Keeps p before (after, w) =
      (count p before.task_queue ≤ count p (in_flight w) + count p after.task_queue)
      × (before.pool_alive ≡ true
          → count p (in_flight w) + count p after.task_queue ≡ count p before.task_queue)
      × (after.pool_alive ≡ before.pool_alive)

  -- By the fields of the pool and of the thread.
  wait_block-Keeps :
      (p : T → Bool) (q : List T) (alive : Bool) (pc : Pc) (f : Option T)
      → let pool : Pool T = record { task_queue = q; pool_alive = alive } in
        Keeps p pool (wait_block pool (record { pc = pc; func_to_do = f }))
  unfolding wait_block
  wait_block-Keeps p [] true pc f = (omega arith, λ _. omega arith, refl)
  wait_block-Keeps p [] false pc f = (omega arith, λ e. ground arith, refl)
  wait_block-Keeps p (t ∷ q) alive pc f = (omega arith, λ _. omega arith, refl)

  locked_block-Keeps :
      (p : T → Bool) (q : List T) (alive : Bool) (pc : Pc) (f : Option T)
      → let pool : Pool T = record { task_queue = q; pool_alive = alive } in
        Keeps p pool (locked_block pool (record { pc = pc; func_to_do = f }))
  unfolding locked_block
  locked_block-Keeps p q true pc f = wait_block-Keeps p q true pc f
  locked_block-Keeps p q false pc f = (omega arith, λ e. ground arith, refl)

  -- No task is lost, and none is run twice while the pool is alive.
  abbrev IsAccounted : (T → Bool) → System T → Type 0
  IsAccounted p s =
      (count p s.pushed ≤ accounted p s)
      × (s.pool.pool_alive ≡ true → accounted p s ≡ count p s.pushed)

  idle_in_flight :
      (p : T → Bool) (w : Worker T)
      → (w.pc ≡ top) ⊎ (w.pc ≡ locking) ⊎ (w.pc ≡ asleep)
      → count p (in_flight w) ≡ 0
  idle_in_flight p w h = go w.pc w.func_to_do h
    where
      go :
          (pc : Pc) (f : Option T)
          → (pc ≡ top) ⊎ (pc ≡ locking) ⊎ (pc ≡ asleep)
          → count p (carried pc f) ≡ 0
      go top f h = refl
      go locking f h = refl
      go asleep f h = refl
      go acting f h = ground arith
      go returned f h = refl

  -- A locked block of a thread.
  block-IsAccounted :
      (p : T → Bool) (s : System T) (i : ℕ) (w : Worker T) (r : Pool T × Worker T)
      → get_elem? s.workers i ≡ some w
      → count p (in_flight w) ≡ 0
      → Keeps p s.pool r
      → IsAccounted p s
      → IsAccounted p (record s { pool = r.0; workers = set s.workers i r.1 })
  block-IsAccounted p s i w r e z k h =
      let moved = sum-set (λ v. count p (in_flight v)) s.workers i w r.1 e in
      (
        omega (arith, moved, z, k.0, h.0),
        λ a.
            let was : s.pool.pool_alive ≡ true = sym k.2 ∙ a in
            omega (arith, moved, z, k.1 was, h.1 was),
      )

  start-IsAccounted : (p : T → Bool) (n : ℕ) → IsAccounted p (new_pool T n)
  start-IsAccounted p n =
      let none_yet = new_workers_idle p n in (omega (arith, none_yet), λ _. none_yet)
    where
      new_workers_idle :
          (p : T → Bool) (n : ℕ) → 0 + sum (λ w. count p (in_flight w)) (new_workers T n) + 0 ≡ 0
      new_workers_idle p zero = omega arith
      new_workers_idle p (suc n) = omega (arith, new_workers_idle p n)

  check_alive-idle :
      (p : T → Bool) (pool : Pool T) (w : Worker T) → count p (in_flight (check_alive pool w)) ≡ 0
  unfolding check_alive
  check_alive-idle p pool w = elim (Bool-cases pool.pool_alive) [
    | inl e ↦ rw e refl
    | inr e ↦ rw e refl
  ]

  Step-IsAccounted : (p : T → Bool) (s u : System T) → IsAccounted p s → Step s u → IsAccounted p u
  unfolding push_task shut_down
  Step-IsAccounted p s u h (push t e) =
      let queued = sum-++ (λ x. if p x then 1 else 0) s.pool.task_queue (t ∷ []) in
      let noted = sum-++ (λ x. if p x then 1 else 0) s.pushed (t ∷ []) in
      subst (IsAccounted p) (sym e)
        (omega (arith, queued, noted, h.0), λ a. omega (arith, queued, noted, h.1 a))
  Step-IsAccounted p s u h (check i w g t e) =
      let moved = sum-set (λ v. count p (in_flight v)) s.workers i w (check_alive s.pool w) g in
      let before = idle_in_flight p w (inl t) in
      let after = check_alive-idle p s.pool w in
      subst (IsAccounted p) (sym e)
        (omega (arith, moved, before, after, h.0), λ a. omega (arith, moved, before, after, h.1 a))
  Step-IsAccounted p s u h (lock i w g t e) = subst (IsAccounted p) (sym e) (
      block-IsAccounted p s i w _ g (idle_in_flight p w (inr (inl t)))
        (locked_block-Keeps p s.pool.task_queue s.pool.pool_alive w.pc w.func_to_do) h)
  Step-IsAccounted p s u h (wake i w g t e) = subst (IsAccounted p) (sym e) (
      block-IsAccounted p s i w _ g (idle_in_flight p w (inr (inr t)))
        (wait_block-Keeps p s.pool.task_queue s.pool.pool_alive w.pc w.func_to_do) h)
  Step-IsAccounted p s u h (act i w g t e) =
      let moved = sum-set (λ v. count p (in_flight v)) s.workers i w (record w { pc = top }) g in
      let before : count p (in_flight w) ≡ count p (tasks_of w.func_to_do) =
        ap (λ pc. count p (carried pc w.func_to_do)) t in
      let more = sum-++ (λ x. if p x then 1 else 0) s.ran (tasks_of w.func_to_do) in
      subst (IsAccounted p) (sym e)
        (omega (arith, moved, before, more, h.0), λ a. omega (arith, moved, before, more, h.1 a))
  Step-IsAccounted p s u h (destroy e) = subst (IsAccounted p) (sym e) (h.0, λ a. ground arith)

  -- In every state of a pool of n threads: the tasks pushed are, for any property of tasks, at most as
  -- many as those run, taken by a thread and waiting; and as many, until the destructor has begun.
  pub tasks_once :
      (n : ℕ) (s : System T) (p : T → Bool)
      → Reachable n s
      → (count p s.pushed ≤ accounted p s)
        × (s.pool.pool_alive ≡ true → accounted p s ≡ count p s.pushed)
  tasks_once n s p here = start-IsAccounted p n
  tasks_once n s p (next r e) = Step-IsAccounted p _ s (tasks_once n _ p r) e
