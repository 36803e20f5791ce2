-- ===== src/Net/TimedLoop/Rounds.antt =====
-- What a round of a loop with its timer keeps.
use trantor_net.Base.{ℕ, ◌+◌, refl, true, false, inl, inr, List, [], ◌∷◌, arith, All, Option-cases}
use trantor_net.Base.Int.{pos, ◌≤ℤ◌}
use trantor_net.Tool.Timestamp.{Timestamp}
use trantor_net.Net.Pipe.{Action, handle_event}
use trantor_net.Net.EPoll.{Kernel, Wait, start_epoll}
use trantor_net.Net.Loop.{find}
use trantor_net.Net.TimedLoop.{
  Request, Work, TimedLoop, run_timed_tasks, run_timed_funcs, run_timed_actions,
  handle_timed_events, timed_round,
}
use trantor_net.Net.TimedLoop.Decent.{IsDecent, IsFine, handle_event-IsFine}
use trantor_net.Net.TimedLoop.Kept.{
  Tasks, IsTimely, with_loop, handler-IsTimely, run_timed_task-IsTimely,
}

module _ (K : Kernel) (U : Type 0) (does : ℕ → U → List (Request U))
    (fired : ℕ → Timestamp × Timestamp) (clock : ℕ → U → Timestamp × Timestamp)
    (decent : (n : ℕ) (u : U) → All IsDecent (does n u))
    (after_epoch : (n : ℕ) (u : U) → pos 1 ≤ℤ ((clock n u).0).usec) where
  run_timed_tasks-IsTimely :
      (ts : Tasks K U) (s : TimedLoop K U)
      → IsTimely K U ts s
      → IsTimely K U [] (run_timed_tasks K U does fired clock ts s)
  unfolding run_timed_tasks
  run_timed_tasks-IsTimely [] s h = h
  run_timed_tasks-IsTimely (t ∷ ts) s h =
      run_timed_tasks-IsTimely ts _
        (run_timed_task-IsTimely K U does fired clock decent after_epoch t ts s h)

  run_timed_actions-IsTimely :
      (acts : List (Action (Work U))) (s : TimedLoop K U)
      → All IsFine acts
      → IsTimely K U [] s
      → IsTimely K U [] (run_timed_actions K U does fired clock acts s)
  unfolding run_timed_actions
  run_timed_actions-IsTimely [] s f h = h
  run_timed_actions-IsTimely (Action.call w ∷ rest) s (f, fs) h =
      run_timed_actions-IsTimely rest _ fs
        (handler-IsTimely K U does fired clock decent after_epoch [] w s f h)
  run_timed_actions-IsTimely (_ ∷ rest) s (f, fs) h = run_timed_actions-IsTimely rest s fs h

  handle_timed_events-IsTimely :
      (m : List (ℕ × ℕ)) (s : TimedLoop K U)
      → IsTimely K U [] s
      → IsTimely K U [] (handle_timed_events K U does fired clock m s)
  unfolding handle_timed_events
  handle_timed_events-IsTimely [] s h = h
  handle_timed_events-IsTimely ((fd, revent) ∷ m) s h =
      elim (Option-cases (find fd s.loop.pipe_map)) [
        | inl e ↦ rw (e, handle_timed_events) (handle_timed_events-IsTimely m s h)
        | inr (id, e) ↦
            rw (e, handle_timed_events)
              (handle_timed_events-IsTimely m _ (
                run_timed_actions-IsTimely (handle_event (s.loop.pipes id) revent) s
                  (handle_event-IsFine (s.loop.pipes id) revent (h.plain id)) h))
      ]

  pub timed_round-IsTimely :
      (w : Wait) (s : TimedLoop K U)
      → IsTimely K U [] s
      → IsTimely K U [] (timed_round K U does fired clock w s)
  unfolding timed_round run_timed_funcs
  timed_round-IsTimely w s h =
      let (event_map, size) = start_epoll w [] s.loop.epoll.vec_size in
      let handled =
        handle_timed_events-IsTimely event_map _ (with_loop K U [] s _ (refl, refl) h) in
      done (run_timed_tasks-IsTimely _ _ (take handled))
    where
      take :
          {s : TimedLoop K U}
          → IsTimely K U [] s
          → IsTimely K U s.loop.loop_funcs_list
              (record s { loop = record (s.loop) { need_wakeup = true; loop_funcs_list = [] } })
      take h = record {
        taken = h.queued;
        queued = tt;
        plain = h.plain;
        set = h.set;
        accounted = λ p. omega (arith, h.accounted p);
      }

      done :
          {s : TimedLoop K U}
          → IsTimely K U [] s
          → IsTimely K U []
              (record s { rounds = s.rounds + 1; loop = record (s.loop) { need_wakeup = false } })
      done h = record {
        taken = h.taken;
        queued = h.queued;
        plain = h.plain;
        set = h.set;
        accounted = h.accounted;
      }
