-- ===== src/Net/TimedLoop/Kept.antt =====
-- What every call and every task of a loop with its timer keeps.
use trantor_net.Base.{
  ℕ, ◌+◌, ◌≡◌, refl, ◌∙◌, ap, subst, sym, Bool, none, some, inl, inr, List, ◌∷◌, arith, ◌&&◌,
  if◌then◌else◌, All, Option-cases, count, sum-++,
}
use trantor_net.Base.Int.{pos, ◌≤ℤ◌}
use trantor_net.Tool.Timestamp.{Timestamp}
use trantor_net.Net.Pipe.{Pipe}
use trantor_net.Net.EPoll.{Kernel}
use trantor_net.Net.Loop.{
  find, Task, register_task, update_task, remove_task, user_task, Loop, event_handle_read, run_task,
  register_pipe_in_loop, update_pipe_in_loop, remove_pipe_in_loop,
}
use trantor_net.Net.Timer.{Callback, before}
use trantor_net.Net.Timer.Arming.{register-IsArmed}
use trantor_net.Net.Timer.Firing.{handle_read-IsArmed}
use trantor_net.Net.TimedLoop.{
  Request, Work, register_cb, event_read, timer_read, user, all_wanted, call_all, asked_by,
  TimedLoop, call_here, fire, run_work, run_timed_task,
}
use trantor_net.Net.TimedLoop.Calls.{handle_read-called, call_all-called, register-called}
use trantor_net.Net.TimedLoop.Counts.{
  callbacks_of, gone_of_entries, is_once, in_map, one, register-count, call_all-count,
  handle_read-count,
}
use trantor_net.Net.TimedLoop.Decent.{
  IsDecent, IsRegistrable, IsHandler, IsPlain, one_task, in_queue, gone, call_all-IsGood,
  IsScheduled, call_all-IsScheduled,
}

module _ (K : Kernel) (U : Type 0) where
  abbrev pub Tasks : Type 0
  Tasks = List (Task (Work U))

  -- Is every callback that was asked for accounted for, with these tasks still to run?
  abbrev pub IsAccounted : (Callback U → Bool) → Tasks → TimedLoop K U → Type 0
  IsAccounted p ts s =
      count p s.asked
      ≡ gone p s.timer.called
        + in_map p s.timer.time_cb_map
        + in_queue p ts
        + in_queue p s.loop.loop_funcs_list

  pub record IsTimely (ts : Tasks) (s : TimedLoop K U) : Type 0 where
    pub taken : All IsRegistrable ts
    pub queued : All IsRegistrable s.loop.loop_funcs_list
    pub plain : (id : ℕ) → IsPlain (s.loop.pipes id)
    pub set : IsScheduled s.timer
    pub accounted : (p : Callback U → Bool) → IsAccounted p ts s

  -- A change of the loop that keeps its queue and its pipes.
  abbrev pub IsBeside : Loop K (Work U) → Loop K (Work U) → Type 0
  IsBeside l m = (l.loop_funcs_list ≡ m.loop_funcs_list) × (l.pipes ≡ m.pipes)

  pub with_loop :
      (ts : Tasks) (s : TimedLoop K U) (l : Loop K (Work U))
      → IsBeside l s.loop
      → IsTimely ts s
      → IsTimely ts (record s { loop = l })
  with_loop ts s l (queue, pipes) h = record {
    taken = h.taken;
    queued = subst (All IsRegistrable) (sym queue) h.queued;
    plain = λ id. subst (λ (f : ℕ → Pipe (Work U)). IsPlain (f id)) (sym pipes) (h.plain id);
    set = h.set;
    accounted = λ p.
        h.accounted p
        ∙ ap
            (λ (us : Tasks).
              gone p s.timer.called + in_map p s.timer.time_cb_map + in_queue p ts + in_queue p us)
            (sym queue);
  }

  run_task-IsBeside :
      (t : Task (Work U)) (l : Loop K (Work U)) → IsBeside (run_task K (Work U) (λ w l. l) t l) l
  unfolding run_task register_pipe_in_loop remove_pipe_in_loop update_pipe_in_loop
  run_task-IsBeside (register_task none) l = (refl, refl)
  run_task-IsBeside (register_task (some id)) l = (refl, refl)
  run_task-IsBeside (update_task none) l = (refl, refl)
  run_task-IsBeside (update_task (some id)) l =
      elim (Option-cases (find (l.pipes id).fd l.pipe_map)) [
        | inl e ↦ rw (e, update_pipe_in_loop) (refl, refl)
        | inr (_, e) ↦ rw (e, update_pipe_in_loop) (refl, refl)
      ]
  run_task-IsBeside (remove_task none) l = (refl, refl)
  run_task-IsBeside (remove_task (some id)) l = (refl, refl)
  run_task-IsBeside (user_task w) l = (refl, refl)

  pub call_here-IsTimely :
      (ts : Tasks) (rs : List (Request U)) (s : TimedLoop K U)
      → All IsDecent rs
      → IsTimely ts s
      → IsTimely ts (call_here K U rs s)
  call_here-IsTimely ts rs s d h = record {
    taken = h.taken;
    queued = h.queued;
    plain = h.plain;
    set = call_all-IsScheduled rs s.timer d h.set;
    accounted = λ p. omega (
      arith,
      h.accounted p,
      sum-++ (one p) s.asked (all_wanted rs),
      call_all-count p rs s.timer,
      ap (gone p) (call_all-called rs s.timer),
    );
  }

  module _ (does : ℕ → U → List (Request U)) (fired : ℕ → Timestamp × Timestamp)
      (clock : ℕ → U → Timestamp × Timestamp) (decent : (n : ℕ) (u : U) → All IsDecent (does n u))
      (after_epoch : (n : ℕ) (u : U) → pos 1 ≤ℤ ((clock n u).0).usec) where
    fire-IsTimely :
        (ts : Tasks) (s : TimedLoop K U) → IsTimely ts s → IsTimely ts (fire K U does fired clock s)
    unfolding fire
    fire-IsTimely ts s h =
        let n = s.rounds in
        let (now, now') = fired n in
        let due = before now s.timer.time_cb_map in
        let (same, good, armed, set, timed) =
          handle_read-IsArmed (λ u. call_all (does n u)) (clock n) (after_epoch n)
            (λ u t g. call_all-IsGood (does n u) t (decent n u) g) now now' s.timer h.set.0 in
        record {
          taken = h.taken;
          queued = h.queued;
          plain = h.plain;
          set = (good, armed, timed);
          accounted = λ p. omega (
            arith,
            h.accounted p,
            sum-++ (one p) s.asked (asked_by (does n) due),
            ap (gone p) (handle_read-called (does n) (clock n) now now' s.timer),
            sum-++ (λ (cb : Callback U). if is_once cb && p cb then 1 else 0) s.timer.called
                (callbacks_of due),
            gone_of_entries p due,
            handle_read-count p (does n) (clock n) now now' s.timer,
          );
        }

    pub handler-IsTimely :
        (ts : Tasks) (w : Work U) (s : TimedLoop K U)
        → IsHandler w
        → IsTimely ts s
        → IsTimely ts (run_work K U does fired clock w s)
    unfolding run_work event_handle_read
    handler-IsTimely ts (register_cb now' k cb) s a h = absurd a
    handler-IsTimely ts event_read s a h = with_loop ts s _ (refl, refl) h
    handler-IsTimely ts timer_read s a h = fire-IsTimely ts s h
    handler-IsTimely ts (user u) s a h =
        call_here-IsTimely ts (does s.rounds u) s (decent s.rounds u) h

    -- A task that registers nothing may be dropped once it has run.
    dropped :
        (t : Task (Work U)) (ts : Tasks) (s : TimedLoop K U)
        → ((p : Callback U → Bool) → one_task p t ≡ 0)
        → IsTimely (t ∷ ts) s
        → IsTimely ts s
    dropped t ts s none_in h = record {
      taken = h.taken.1;
      queued = h.queued;
      plain = h.plain;
      set = h.set;
      accounted = λ p. omega (arith, h.accounted p, none_in p);
    }

    pub run_timed_task-IsTimely :
        (t : Task (Work U)) (ts : Tasks) (s : TimedLoop K U)
        → IsTimely (t ∷ ts) s
        → IsTimely ts (run_timed_task K U does fired clock t s)
    unfolding run_timed_task run_work
    run_timed_task-IsTimely (register_task q) ts s h =
        with_loop ts s _ (run_task-IsBeside (register_task q) s.loop) (dropped _ ts s (λ p. refl) h)
    run_timed_task-IsTimely (update_task q) ts s h =
        with_loop ts s _ (run_task-IsBeside (update_task q) s.loop) (dropped _ ts s (λ p. refl) h)
    run_timed_task-IsTimely (remove_task q) ts s h =
        with_loop ts s _ (run_task-IsBeside (remove_task q) s.loop) (dropped _ ts s (λ p. refl) h)
    run_timed_task-IsTimely (user_task (register_cb now' k cb)) ts s h =
        let (good, armed, timed) = h.set in
        let (same, good, armed, timed) =
          register-IsArmed now' k cb s.timer good armed timed h.taken.0 in
        record {
          taken = h.taken.1;
          queued = h.queued;
          plain = h.plain;
          set = (good, armed, timed);
          accounted = λ p. omega (
            arith,
            h.accounted p,
            register-count p now' k cb s.timer,
            ap (gone p) (register-called now' k cb s.timer),
          );
        }
    run_timed_task-IsTimely (user_task event_read) ts s h =
        handler-IsTimely ts event_read s tt (dropped _ ts s (λ p. refl) h)
    run_timed_task-IsTimely (user_task timer_read) ts s h =
        handler-IsTimely ts timer_read s tt (dropped _ ts s (λ p. refl) h)
    run_timed_task-IsTimely (user_task (user u)) ts s h =
        handler-IsTimely ts (user u) s tt (dropped _ ts s (λ p. refl) h)
