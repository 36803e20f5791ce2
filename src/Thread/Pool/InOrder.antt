-- ===== src/Thread/Pool/InOrder.antt =====
-- TrantorSingleThread: the pool of one thread.
use trantor_net.Base.{
  ℕ, zero, suc, ◌≡◌, refl, subst, sym, ap, ◌∙◌, Bool, true, false, Option, some, List, [], ◌∷◌,
  ◌++◌, get_elem?, set, append_assoc, arith, Bool-cases, inl, inr, ◌⊎◌,
}
use trantor_net.Thread.Pool.{
  Pc, top, locking, asleep, acting, returned, Worker, Pool, System, new_worker, push_task,
  shut_down, check_alive, wait_block, locked_block, tasks_of, Step, push, check, lock, wake, act,
  destroy, Reachable, here, next,
}
use trantor_net.Thread.Pool.Once.{in_flight, carried}

module _ {T : Type 0} where
  -- Behind what was run stand the thread's task and the queue.
  abbrev InOrder : System T → Worker T → Type 0
  InOrder s w =
      (s.workers ≡ w ∷ [])
      × (s.pool.pool_alive ≡ true → s.ran ++ (in_flight w ++ s.pool.task_queue) ≡ s.pushed)

  the_one :
      (w v : Worker T) (ws : List (Worker T)) (i : ℕ) (new : Worker T)
      → ws ≡ w ∷ []
      → get_elem? ws i ≡ some v
      → (v ≡ w) × (set ws i new ≡ new ∷ [])
  the_one w v ws i new e g =
      let (same, changed) = go i (subst (λ l. get_elem? l i ≡ some v) e g) in
      (same, subst (λ l. set l i new ≡ new ∷ []) (sym e) changed)
    where
      go : (i : ℕ) → get_elem? (w ∷ []) i ≡ some v → (v ≡ w) × (set (w ∷ []) i new ≡ new ∷ [])
      go zero g = (cc, refl)
      go (suc i) g = ground arith

  -- A block of the thread, which carries nothing, moves a task from the queue to it, or nothing.
  block-InOrder :
      (s : System T) (w v : Worker T) (i : ℕ) (r : Pool T × Worker T)
      → InOrder s w
      → get_elem? s.workers i ≡ some v
      → in_flight v ≡ []
      → (s.pool.pool_alive ≡ true → in_flight r.1 ++ r.0.task_queue ≡ s.pool.task_queue)
      → r.0.pool_alive ≡ s.pool.pool_alive
      → InOrder (record s { pool = r.0; workers = set s.workers i r.1 }) r.1
  block-InOrder s w v i r h g z k a =
      let (same, changed) = the_one w v s.workers i r.1 h.0 g in
      let empty : in_flight w ≡ [] = ap in_flight (sym same) ∙ z in
      (
        changed,
        λ b.
            ap (λ l. s.ran ++ l) (k (sym a ∙ b) ∙ sym (ap (λ l. l ++ s.pool.task_queue) empty))
            ∙ h.1 (sym a ∙ b),
      )

  wait_block-order :
      (q : List T) (alive : Bool) (pc : Pc) (f : Option T)
      → let p : Pool T = record { task_queue = q; pool_alive = alive } in
        let r = wait_block p (record { pc = pc; func_to_do = f }) in
        (alive ≡ true → in_flight r.1 ++ r.0.task_queue ≡ q) × (r.0.pool_alive ≡ alive)
  unfolding wait_block
  wait_block-order [] true pc f = (λ _. refl, refl)
  wait_block-order [] false pc f = (λ a. ground arith, refl)
  wait_block-order (t ∷ q) alive pc f = (λ _. refl, refl)

  locked_block-order :
      (q : List T) (alive : Bool) (pc : Pc) (f : Option T)
      → let p : Pool T = record { task_queue = q; pool_alive = alive } in
        let r = locked_block p (record { pc = pc; func_to_do = f }) in
        (alive ≡ true → in_flight r.1 ++ r.0.task_queue ≡ q) × (r.0.pool_alive ≡ alive)
  unfolding locked_block
  locked_block-order q true pc f = wait_block-order q true pc f
  locked_block-order q false pc f = (λ a. ground arith, refl)

  idle_carries :
      (pc : Pc) (f : Option T) → (pc ≡ top) ⊎ (pc ≡ locking) ⊎ (pc ≡ asleep) → carried pc f ≡ []
  idle_carries top f h = refl
  idle_carries locking f h = refl
  idle_carries asleep f h = refl
  idle_carries acting f h = ground arith
  idle_carries returned f h = refl

  check_alive_carries : (p : Pool T) (w : Worker T) → in_flight (check_alive p w) ≡ []
  unfolding check_alive
  check_alive_carries p w = elim (Bool-cases p.pool_alive) [ inl e ↦ rw e refl | inr e ↦ rw e refl ]

  act-InOrder :
      (s : System T) (w v : Worker T) (i : ℕ)
      → InOrder s w
      → get_elem? s.workers i ≡ some v
      → v.pc ≡ acting
      → InOrder
          (record s {
            workers = set s.workers i (record v { pc = top });
            ran = s.ran ++ tasks_of v.func_to_do;
          })
          (record v { pc = top })
  act-InOrder s w v i h g t =
      let (same, changed) = the_one w v s.workers i (record v { pc = top }) h.0 g in
      let carries : in_flight w ≡ tasks_of v.func_to_do =
        ap in_flight (sym same) ∙ ap (λ pc. carried pc v.func_to_do) t in
      (
        changed,
        λ a.
            append_assoc s.ran (tasks_of v.func_to_do) s.pool.task_queue
            ∙ sym (ap (λ l. s.ran ++ (l ++ s.pool.task_queue)) carries)
            ∙ h.1 a,
      )

  -- A step of the one thread, on a state in which it is known.
  Step-InOrder :
      (s u : System T) (w : Worker T) → InOrder s w → Step s u → (v : Worker T) × InOrder u v
  unfolding push_task shut_down
  Step-InOrder s u w h (push t e) = (
    w,
    subst (λ u. InOrder u w) (sym e)
        (
          h.0,
          λ a.
              sym (ap (λ l. s.ran ++ l) (append_assoc (in_flight w) s.pool.task_queue (t ∷ [])))
              ∙ sym (append_assoc s.ran (in_flight w ++ s.pool.task_queue) (t ∷ []))
              ∙ ap (λ l. l ++ (t ∷ [])) (h.1 a),
        ),
  )
  Step-InOrder s u w h (check i v g t e) =
      let r : Pool T × Worker T = (s.pool, check_alive s.pool v) in
      let empty = check_alive_carries s.pool v in
      (
        r.1,
        subst (λ u. InOrder u r.1) (sym e)
            (block-InOrder s w v i r h g (idle_carries v.pc v.func_to_do (inl t))
              (λ _. ap (λ l. l ++ s.pool.task_queue) empty) refl),
      )
  Step-InOrder s u w h (lock i v g t e) =
      let r = locked_block s.pool v in
      let (moves, alive) =
        locked_block-order s.pool.task_queue s.pool.pool_alive v.pc v.func_to_do in
      (
        r.1,
        subst (λ u. InOrder u r.1) (sym e)
            (block-InOrder s w v i r h g (idle_carries v.pc v.func_to_do (inr (inl t))) moves
              alive),
      )
  Step-InOrder s u w h (wake i v g t e) =
      let r = wait_block s.pool v in
      let (moves, alive) = wait_block-order s.pool.task_queue s.pool.pool_alive v.pc v.func_to_do in
      (
        r.1,
        subst (λ u. InOrder u r.1) (sym e)
            (block-InOrder s w v i r h g (idle_carries v.pc v.func_to_do (inr (inr t))) moves
              alive),
      )
  Step-InOrder s u w h (act i v g t e) = (
    record v { pc = top },
    subst (λ u. InOrder u (record v { pc = top })) (sym e) (act-InOrder s w v i h g t),
  )
  Step-InOrder s u w h (destroy e) = (w, subst (λ u. InOrder u w) (sym e) (h.0, λ a. ground arith))

  -- The thread of a pool with one thread runs the tasks in the order in which they were pushed: until
  -- the destructor has begun, those run, then the one it has taken, then the queue are those pushed.
  pub single_thread_in_order :
      (s : System T)
      → Reachable 1 s
      → (w : Worker T) × (s.workers ≡ w ∷ [])
        × (s.pool.pool_alive ≡ true → s.ran ++ (in_flight w ++ s.pool.task_queue) ≡ s.pushed)
  single_thread_in_order s here = (new_worker T, refl, λ a. refl)
  single_thread_in_order s (next r e) =
      let before = single_thread_in_order _ r in
      let after = Step-InOrder _ s before.0 (before.1, before.2) e in
      (after.0, after.1.0, after.1.1)
