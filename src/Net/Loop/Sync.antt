-- ===== src/Net/Loop/Sync.antt =====
-- The loop's map of pipes and epoll's interest list stay together.
use trantor_net.Base.{
  ℕ, ◌≡◌, refl, Bool, true, false, not, ◌||◌, Option, none, some, List, [], ◌∷◌, arith, ◌==◌,
  if◌then◌else◌, Bool-cases, Option-cases, inl, inr,
}
use trantor_net.Net.EPoll.{Kernel, register_fd, update_fd, remove_fd}
use trantor_net.Net.Loop.{
  find, put, erase, Task, register_task, update_task, remove_task, user_task, Loop,
  register_pipe_in_loop, update_pipe_in_loop, remove_pipe_in_loop, queue_in_loop, trig_event,
  run_task, run_in_loop, loop_entry,
}

abbrev pub is_some {ℓ} : {A : Type ℓ} → Option A → Bool
is_some none = false
is_some (some _) = true

module _ {ℓ} {A : Type ℓ} where
  pub find-put :
      (i j : ℕ) (v : A) (m : List (ℕ × A))
      → find j (put i v m) ≡ (if i == j then some v else find j m)
  unfolding find put
  find-put i j v [] = refl
  find-put i j v ((k, w) ∷ m) = ground (arith, find-put i j v m)

  pub find-erase :
      (i j : ℕ) (m : List (ℕ × A)) → find j (erase i m) ≡ (if i == j then none else find j m)
  unfolding find erase
  find-erase i j [] = ground arith
  find-erase i j ((k, w) ∷ m) = ground (arith, find-erase i j m)

module _ (K : Kernel) (U : Type 0) where
  open K use {interest}

  -- The registered descriptors are the keys of the map.
  abbrev pub InSync : Loop K U → Type 0
  InSync l = (j : ℕ) → is_some (find j l.pipe_map) ≡ is_some (interest l.epoll.kernel j)

module _ (K : Kernel) (U : Type 0)
    (takes_all : (s : K.State) (fd ev : ℕ) → K.accepts s fd ev ≡ true) where
  open K use {State, interest, accepts, interest-ctl_add, interest-ctl_mod, interest-ctl_del}

  register-InSync :
      (p : Option ℕ) (l : Loop K U) → InSync K U l → InSync K U (register_pipe_in_loop K U p l)
  unfolding register_pipe_in_loop register_fd
  register-InSync none l h j = h j
  register-InSync (some id) l h j =
      let p = l.pipes id in
      ground (
        arith,
        h j,
        find-put p.fd j id l.pipe_map,
        interest-ctl_add l.epoll.kernel p.fd p.register_event j,
        takes_all l.epoll.kernel p.fd p.register_event,
      )

  update-InSync :
      (p : Option ℕ) (l : Loop K U) → InSync K U l → InSync K U (update_pipe_in_loop K U p l)
  unfolding update_pipe_in_loop update_fd
  update-InSync none l h j = h j
  update-InSync (some id) l h j =
      let p = l.pipes id in
      elim (Option-cases (find p.fd l.pipe_map)) [
        | inl e ↦ rw (e, update_pipe_in_loop) (h j)
        | inr (_, e) ↦
            rw (e, update_pipe_in_loop)
              (ground (
                arith,
                h j,
                interest-ctl_mod l.epoll.kernel p.fd p.register_event j,
                takes_all l.epoll.kernel p.fd p.register_event,
              ))
      ]

  pub remove-InSync :
      (p : Option ℕ) (l : Loop K U) → InSync K U l → InSync K U (remove_pipe_in_loop K U p l)
  unfolding remove_pipe_in_loop remove_fd
  remove-InSync none l h j = h j
  remove-InSync (some id) l h j =
      let p = l.pipes id in
      ground (arith, h j, find-erase p.fd j l.pipe_map, interest-ctl_del l.epoll.kernel p.fd j)

  queue-InSync :
      (t : Task U) (b : Bool) (l : Loop K U) → InSync K U l → InSync K U (queue_in_loop K U t b l)
  unfolding queue_in_loop trig_event
  queue-InSync t b l h = elim (Bool-cases (not b || l.need_wakeup)) [
    | inl e ↦ rw e h
    | inr e ↦ rw e h
  ]

  -- A user's callbacks and tasks use the loop through its operations, and so keep it in step.
  module _ (run_user : U → Loop K U → Loop K U)
      (user-InSync : (u : U) (l : Loop K U) → InSync K U l → InSync K U (run_user u l)) where
    run_task-InSync :
        (t : Task U) (l : Loop K U) → InSync K U l → InSync K U (run_task K U run_user t l)
    unfolding run_task
    run_task-InSync (register_task p) l h = register-InSync p l h
    run_task-InSync (update_task p) l h = update-InSync p l h
    run_task-InSync (remove_task p) l h = remove-InSync p l h
    run_task-InSync (user_task u) l h = user-InSync u l h

    -- Handing a task to the loop, from its own thread or another, keeps the map of pipes and the
    -- interest list of epoll in step, if the user's tasks do.
    pub run_in_loop-InSync :
        (t : Option (Task U)) (in_loop : Bool) (l : Loop K U)
        → InSync K U l
        → InSync K U (run_in_loop K U run_user t in_loop l)
    unfolding run_in_loop
    run_in_loop-InSync none b l h = h
    run_in_loop-InSync (some t) true l h = run_task-InSync t l h
    run_in_loop-InSync (some t) false l h = queue-InSync t false l h

  -- Before its first wait the loop registers its own two pipes; from an empty map and an empty
  -- interest list it starts in step.
  pub loop_entry-InSync :
      (event_pipe timer_pipe : Option ℕ) (l : Loop K U)
      → l.pipe_map ≡ []
      → ((j : ℕ) → interest l.epoll.kernel j ≡ none)
      → InSync K U (loop_entry K U event_pipe timer_pipe l)
  unfolding loop_entry
  loop_entry-InSync event_pipe timer_pipe l e h =
      register-InSync timer_pipe _
        (register-InSync event_pipe l (λ j. unfold find in ground (arith, h j)))
