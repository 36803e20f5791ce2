-- ===== src/Net/Loop/Tasks.antt =====
-- Tasks that other threads hand to the loop run once each, in the order in which they came.
use trantor_net.Base.{
  ℕ, ◌+◌, ◌≡◌, refl, ◌∙◌, ap, true, false, List, [], ◌∷◌, ◌++◌, arith, some, length, append_assoc,
  append-nil,
}
use trantor_net.Net.EPoll.{Kernel}
use trantor_net.Net.Loop.{
  Task, Loop, run_task, run_in_loop, run_tasks, run_loop_funcs, queue_in_loop, trig_event,
}

module _ (K : Kernel) (U : Type 0) (run_user : U → Loop K U → Loop K U) where
  -- Other threads call `runInLoop`, one after the other.
  pub post_all : List (Task U) → Loop K U → Loop K U
  post_all [] l = l
  post_all (t ∷ ts) l = post_all ts (run_in_loop K U run_user (some t) false l)

  abbrev with_tasks : Loop K U → List (Task U) → ℕ → Loop K U
  with_tasks l ts n = record l { loop_funcs_list = ts; eventfd = n }

  post_all_lem :
      (ts : List (Task U)) (l : Loop K U)
      → post_all ts l ≡ with_tasks l (l.loop_funcs_list ++ ts) (l.eventfd + length ts)
  unfolding post_all run_in_loop queue_in_loop trig_event
  post_all_lem [] l = ground (arith, append-nil l.loop_funcs_list)
  post_all_lem (t ∷ ts) l =
      post_all_lem ts (with_tasks l (l.loop_funcs_list ++ (t ∷ [])) (l.eventfd + 1))
      ∙ ground (arith, append_assoc l.loop_funcs_list (t ∷ []) ts)

  run_tasks-append :
      (ts us : List (Task U)) (l : Loop K U)
      → run_tasks K U run_user (ts ++ us) l
        ≡ run_tasks K U run_user us (run_tasks K U run_user ts l)
  unfolding run_tasks
  run_tasks-append [] us l = refl
  run_tasks-append (t ∷ ts) us l = run_tasks-append ts us (run_task K U run_user t l)

  -- When tasks have been posted by other threads, `runLoopFuncs` runs the tasks that were queued
  -- before and then the posted ones, each once and in order, on the loop with its queue emptied; and
  -- each post has written to the eventfd once.
  pub run_loop_funcs-post_all :
      (ts : List (Task U)) (l : Loop K U)
      → run_loop_funcs K U run_user (post_all ts l)
        ≡ record (run_tasks K U run_user ts (
            run_tasks K U run_user l.loop_funcs_list (record l {
              need_wakeup = true;
              loop_funcs_list = [];
              eventfd = l.eventfd + length ts;
            }))) { need_wakeup = false }
  unfolding run_loop_funcs
  run_loop_funcs-post_all ts l =
      ap (run_loop_funcs K U run_user) (post_all_lem ts l)
      ∙ ap (λ (m : Loop K U). record m { need_wakeup = false })
          (run_tasks-append l.loop_funcs_list ts _)
