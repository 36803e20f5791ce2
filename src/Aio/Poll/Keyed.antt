-- ===== src/Aio/Poll/Keyed.antt =====
-- Does an event reach the operator of its descriptor?
use trantor_net.Base.{
  ℕ, ◌≡◌, refl, sym, ◌∙◌, ap, ==_iff, Bool, true, false, not, ◌&&◌, ◌==◌, Option, none, some, List,
  [], ◌∷◌, ltb, All, Bool-cases, if_cases, inl, inr, map,
}
use mathlib.Core.Bool.{true≢false}
use mathlib.Core.Option.{some-injective}
use trantor_net.Net.Loop.{find, put, erase}
use trantor_net.Net.Loop.Sync.{is_some, find-put, find-erase}
use trantor_net.Aio.Poll.{
  FdPoll, FdTask, register_task, delete_task, user_task, FdCall, FdLoop, register_fd_in_loop,
  delete_fd_in_loop, init_events, call_operator, dispatch, handle_poll_events, start_poll,
  run_fd_task, queue_in_fd_loop, fd_wakeup, run_in_fd_loop, run_fd_tasks, run_funcs, fd_loop_round,
}

module _ (fd_of : ℕ → ℕ) where
  -- Each operator in the map stands under its own descriptor.
  abbrev pub IsKeyed : List (ℕ × Option ℕ) → Type 0
  IsKeyed m = (k id : ℕ) → find k m ≡ some (some id) → fd_of id ≡ k

  -- Each call was of the operator that has the descriptor.
  abbrev pub IsRight : FdCall → Type 0
  IsRight c = fd_of c.operator ≡ c.fd

  abbrev pub IsRouted : {U : Type 0} → FdLoop U → Type 0
  IsRouted l = IsKeyed l.poll.fd_map × All IsRight l.called

  pub register-IsKeyed :
      (id : Option ℕ) (p : FdPoll)
      → IsKeyed p.fd_map
      → IsKeyed (register_fd_in_loop fd_of id p).fd_map
  unfolding register_fd_in_loop
  register-IsKeyed none p h k j e = h k j e
  register-IsKeyed (some id) p h k j e = elim (Bool-cases (fd_of id == k)) [
    | inl z ↦
        let found : some (some id) ≡ some (some j) =
          sym (find-put (fd_of id) k (some id) p.fd_map ∙ rw z refl) ∙ e in
        ap fd_of (sym (some-injective id j (some-injective (some id) (some j) found)))
        ∙ (==_iff (fd_of id) k).0 z
    | inr z ↦ h k j (sym (find-put (fd_of id) k (some id) p.fd_map ∙ rw z refl) ∙ e)
  ]

  null-IsKeyed : (fd : ℕ) (m : List (ℕ × Option ℕ)) → IsKeyed m → IsKeyed (put fd none m)
  null-IsKeyed fd m h k j e = elim (Bool-cases (fd == k)) [
    | inl z ↦
        let found : some none ≡ some (some j) = sym (find-put fd k none m ∙ rw z refl) ∙ e in
        absurd (true≢false (sym (ap is_some (some-injective none (some j) found))))
    | inr z ↦ h k j (sym (find-put fd k none m ∙ rw z refl) ∙ e)
  ]

  pub delete-IsKeyed :
      (id : Option ℕ) (p : FdPoll)
      → IsKeyed p.fd_map
      → IsKeyed (delete_fd_in_loop fd_of id p).fd_map
  unfolding delete_fd_in_loop
  delete-IsKeyed none p h k j e = h k j e
  delete-IsKeyed (some id) p h k j e = elim (Bool-cases (fd_of id == k)) [
    | inl z ↦
        let gone : find k (erase (fd_of id) p.fd_map) ≡ none =
          find-erase (fd_of id) k p.fd_map ∙ rw z refl in
        absurd (true≢false (ap is_some (sym e ∙ gone)))
    | inr z ↦ h k j (sym (find-erase (fd_of id) k p.fd_map ∙ rw z refl) ∙ e)
  ]

  -- Operators and tasks of the user work on the loop through its operations.
  module _ {U : Type 0} (run_operator : ℕ → ℕ → FdLoop U → FdLoop U)
      (run_user : U → FdLoop U → FdLoop U)
      (operator-IsRouted : (id revents : ℕ) (l : FdLoop U)
        → IsRouted l
        → IsRouted (run_operator id revents l))
      (user-IsRouted : (u : U) (l : FdLoop U) → IsRouted l → IsRouted (run_user u l)) where
    call-IsRouted :
        (entry : Option (Option ℕ)) (fd revents : ℕ) (l : FdLoop U)
        → find fd l.poll.fd_map ≡ entry
        → IsRouted l
        → IsRouted (call_operator fd_of run_operator run_user entry fd revents l)
    unfolding call_operator
    call-IsRouted none fd revents l e (h, all) = (null-IsKeyed fd l.poll.fd_map h, all)
    call-IsRouted (some none) fd revents l e v = v
    call-IsRouted (some (some id)) fd revents l e (h, all) =
        if_cases IsRouted (ltb 0 revents) _ _
          (λ _. operator-IsRouted id revents _ (h, (h fd id e, all))) (λ _. (h, all))

    dispatch-IsRouted :
        (fd revents : ℕ) (l : FdLoop U)
        → IsRouted l
        → IsRouted (dispatch fd_of run_operator run_user fd revents l)
    unfolding dispatch
    dispatch-IsRouted fd revents l v =
        if_cases IsRouted ((fd == l.poll.wakeup_fd) && not (revents == 0)) _ _ (λ _. v)
          (λ _. call-IsRouted (find fd l.poll.fd_map) fd revents l refl v)

    handle-IsRouted :
        (es : List (ℕ × ℕ)) (l : FdLoop U)
        → IsRouted l
        → IsRouted (handle_poll_events fd_of run_operator run_user es l)
    unfolding handle_poll_events
    handle-IsRouted [] l v = v
    handle-IsRouted ((fd, revents) ∷ es) l v =
        handle-IsRouted es _ (dispatch-IsRouted fd revents l v)

    start_poll-IsRouted :
        (ready : Option (ℕ → ℕ)) (get_events : ℕ → ℕ) (l : FdLoop U)
        → IsRouted l
        → IsRouted (start_poll fd_of run_operator run_user ready get_events l)
    unfolding start_poll
    start_poll-IsRouted none get_events l v = v
    start_poll-IsRouted (some ready) get_events l v =
        handle-IsRouted
          (map (λ (e : ℕ × ℕ). (e.0, ready e.0)) (init_events fd_of get_events l.poll)) l v

    run_fd_task-IsRouted :
        (t : FdTask U) (l : FdLoop U)
        → IsRouted l
        → IsRouted (run_fd_task fd_of run_operator run_user t l)
    unfolding run_fd_task
    run_fd_task-IsRouted (register_task id) l (h, all) = (register-IsKeyed id l.poll h, all)
    run_fd_task-IsRouted (delete_task id) l (h, all) = (delete-IsKeyed id l.poll h, all)
    run_fd_task-IsRouted (user_task u) l v = user-IsRouted u l v

    run_fd_tasks-IsRouted :
        (ts : List (FdTask U)) (l : FdLoop U)
        → IsRouted l
        → IsRouted (run_fd_tasks fd_of run_operator run_user ts l)
    unfolding run_fd_tasks
    run_fd_tasks-IsRouted [] l v = v
    run_fd_tasks-IsRouted (t ∷ ts) l v = run_fd_tasks-IsRouted ts _ (run_fd_task-IsRouted t l v)

    -- Handing a task to the loop, from its own thread or another, keeps each operator under its own
    -- descriptor.
    pub run_in_fd_loop-IsRouted :
        (t : Option (FdTask U)) (in_loop : Bool) (l : FdLoop U)
        → IsRouted l
        → IsRouted (run_in_fd_loop fd_of run_operator run_user t in_loop l)
    unfolding run_in_fd_loop queue_in_fd_loop fd_wakeup
    run_in_fd_loop-IsRouted none in_loop l v = v
    run_in_fd_loop-IsRouted (some t) true l v = run_fd_task-IsRouted t l v
    run_in_fd_loop-IsRouted (some t) false l v = v

    -- A turn of the loop, in which operators and tasks are called that may register and delete
    -- others, keeps each operator in the map under its own descriptor, and calls for the events of a
    -- descriptor only the operator that has it, if the operators and the user's tasks keep this.
    pub fd_loop_round-IsRouted :
        (ready : Option (ℕ → ℕ)) (get_events : ℕ → ℕ) (l : FdLoop U)
        → IsRouted l
        → IsRouted (fd_loop_round fd_of run_operator run_user ready get_events l)
    unfolding fd_loop_round run_funcs
    fd_loop_round-IsRouted ready get_events l v =
        let polled = start_poll fd_of run_operator run_user ready get_events l in
        run_fd_tasks-IsRouted polled.funcs_list
          (record polled { need_wakeup = true; funcs_list = [] })
          (start_poll-IsRouted ready get_events l v)
