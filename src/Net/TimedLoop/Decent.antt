-- ===== src/Net/TimedLoop/Decent.antt =====
-- Proper requests, what they leave of the timer, and pipes that call handlers only.
use trantor_net.Base.{
  ℕ, subst, sym, Bool, true, false, Option, none, some, List, [], ◌∷◌, ◌++◌, ◌&&◌, if◌then◌else◌,
  All, sum, count,
}
use trantor_net.Net.Pipe.{
  Pipe, Action, handle_read, handle_write, handle_event, has_event, t_read_event, t_write_event,
}
use trantor_net.Net.Loop.{Task, user_task}
use trantor_net.Net.Timer.{Callback, Timer}
use trantor_net.Net.Timer.Arming.{IsTimedFor, IsProper, IsGood, IsArmed, register-IsArmed}
use trantor_net.Net.Timer.Firing.{register_timer_cb_in_loop-IsGood}
use trantor_net.Net.TimedLoop.{
  Request, Work, register_cb, trigger, wanted, read_later, call_timer, call_all,
}
use trantor_net.Net.TimedLoop.Counts.{is_once, one, call_timer-registers}

module _ {U : Type 0} where
  -- Is what a request registers proper?
  abbrev pub IsDecent : Request U → Type 0
  IsDecent r = IsProper (trigger r, wanted r)

  abbrev pub IsRegistrable : Task (Work U) → Type 0
  IsRegistrable (user_task (register_cb now' k cb)) = IsProper (k, cb)
  IsRegistrable _ = Unit

  -- Pipes and tasks of the user have none of the loop's own registrations.
  abbrev pub IsHandler : Work U → Type 0
  IsHandler (register_cb now' k cb) = ⊥
  IsHandler _ = Unit

  abbrev pub IsHandled : Option (Work U) → Type 0
  IsHandled none = Unit
  IsHandled (some w) = IsHandler w

  abbrev pub IsPlain : Pipe (Work U) → Type 0
  IsPlain p = IsHandled p.read_cb × IsHandled p.write_cb

  abbrev pub IsFine : Action (Work U) → Type 0
  IsFine (Action.call w) = IsHandler w
  IsFine _ = Unit

  abbrev pub one_task : (Callback U → Bool) → Task (Work U) → ℕ
  one_task p (user_task (register_cb now' k cb)) = one p cb
  one_task p _ = 0

  abbrev pub in_queue : (Callback U → Bool) → List (Task (Work U)) → ℕ
  in_queue p ts = sum (one_task p) ts

  abbrev pub gone : (Callback U → Bool) → List (Callback U) → ℕ
  gone p called = count (λ cb. is_once cb && p cb) called

  All-++ : (xs ys : List (Action (Work U))) → All IsFine xs → All IsFine ys → All IsFine (xs ++ ys)
  All-++ [] ys h k = k
  All-++ (x ∷ xs) ys (h, hs) k = (h, All-++ xs ys hs k)

  handle_read-IsFine : (p : Pipe (Work U)) → IsPlain p → All IsFine (handle_read p)
  handle_read-IsFine p h = by_cb p.read_cb h.0
    where
      by_cb :
          (cb : Option (Work U))
          → IsHandled cb
          → All IsFine (handle_read (record p { read_cb = cb }))
      by_cb none h = unfold handle_read in (tt, tt)
      by_cb (some w) h = unfold handle_read in (tt, (h, tt))

  handle_write-IsFine : (p : Pipe (Work U)) → IsPlain p → All IsFine (handle_write p)
  handle_write-IsFine p h = by_cb p.write_cb h.1
    where
      by_cb :
          (cb : Option (Work U))
          → IsHandled cb
          → All IsFine (handle_write (record p { write_cb = cb }))
      by_cb none h = unfold handle_write in (tt, tt)
      by_cb (some w) h = unfold handle_write in (tt, (h, tt))

  pub handle_event-IsFine :
      (p : Pipe (Work U)) (revent : ℕ) → IsPlain p → All IsFine (handle_event p revent)
  unfolding handle_event
  handle_event-IsFine p revent h =
      All-++ _ _ (chosen (has_event revent t_read_event) (handle_read p) (handle_read-IsFine p h))
        (chosen (has_event revent t_write_event) (handle_write p) (handle_write-IsFine p h))
    where
      chosen :
          (b : Bool) (xs : List (Action (Work U)))
          → All IsFine xs
          → All IsFine (if b then xs else [])
      chosen true xs h = h
      chosen false xs h = tt

  -- Registering keeps a good map good and its timer armed.
  pub call_all-IsGood :
      (rs : List (Request U)) (t : Timer U)
      → All IsDecent rs
      → IsGood t.time_cb_map
      → IsGood (call_all rs t).time_cb_map
  unfolding call_all
  call_all-IsGood [] t d h = h
  call_all-IsGood (r ∷ rs) t (d, ds) h = call_all-IsGood rs (call_timer r t) ds (
      subst (λ (t : Timer U). IsGood t.time_cb_map) (sym (call_timer-registers r t))
        (register_timer_cb_in_loop-IsGood (read_later r) (trigger r) (wanted r) t h d))

  abbrev pub IsScheduled : Timer U → Type 0
  IsScheduled t =
      IsGood t.time_cb_map
      × IsArmed t.time_cb_map t.next_trigger_time
      × IsTimedFor t.time_cb_map t.settings

  pub call_all-IsScheduled :
      (rs : List (Request U)) (t : Timer U)
      → All IsDecent rs
      → IsScheduled t
      → IsScheduled (call_all rs t)
  unfolding call_all
  call_all-IsScheduled [] t d h = h
  call_all-IsScheduled (r ∷ rs) t (d, ds) (good, armed, timed) =
      let (same, good, armed, timed) =
        register-IsArmed (read_later r) (trigger r) (wanted r) t good armed timed d in
      call_all-IsScheduled rs (call_timer r t) ds
        (subst IsScheduled (sym (call_timer-registers r t)) (good, armed, timed))
