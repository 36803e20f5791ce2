-- ===== src/Net/TimedLoop/Calls.antt =====
-- Which callbacks the handler of the timerfd calls.
use trantor_net.Base.{
  ◌≡◌, refl, ◌∙◌, ap, ◌||◌, List, [], ◌∷◌, ◌++◌, append_assoc, append-nil, sym, Bool-cases, inl,
  inr,
}
use trantor_net.Tool.Timestamp.{Timestamp, lt_ts, add_ts}
use trantor_net.Net.Timer.{
  Callback, once, every, Timer, register_timer, is_zero, register_timer_cb_in_loop, run_at,
  run_after, run_every, before, from_bound, run_cb, run_cbs, count_call, run_timer_cb, rearm,
  handle_read,
}
use trantor_net.Net.TimedLoop.{Request, trigger, wanted, read_later, call_timer, call_all}
use trantor_net.Net.TimedLoop.Counts.{callbacks_of, call_timer-registers}

module _ {U : Type 0} where
  pub register-called :
      (now k : Timestamp) (cb : Callback U) (t : Timer U)
      → (register_timer_cb_in_loop now k cb t).called ≡ t.called
  unfolding register_timer_cb_in_loop register_timer
  register-called now k cb t =
      elim (Bool-cases (lt_ts k t.next_trigger_time || is_zero t.next_trigger_time)) [
        | inl e ↦ rw e refl
        | inr e ↦ rw e refl
      ]

  pub call_all-called : (rs : List (Request U)) (t : Timer U) → (call_all rs t).called ≡ t.called
  unfolding call_all
  call_all-called [] t = refl
  call_all-called (r ∷ rs) t =
      call_all-called rs (call_timer r t)
      ∙ ap (λ (t : Timer U). t.called) (call_timer-registers r t)
      ∙ register-called (read_later r) (trigger r) (wanted r) t

  module _ (does : U → List (Request U)) (clock : U → Timestamp × Timestamp) where
    run_cb-called :
        (cb : Callback U) (t : Timer U)
        → (run_cb (λ u. call_all (does u)) clock cb t).called ≡ t.called ++ (cb ∷ [])
    unfolding run_cb run_every run_after run_at
    run_cb-called (once u) t = call_all-called (does u) (count_call (once u) t)
    run_cb-called (every micros u) t =
        register-called (clock u).1 (add_ts (clock u).0 micros) (every micros u)
          (call_all (does u) (count_call (every micros u) t))
        ∙ call_all-called (does u) (count_call (every micros u) t)

    run_cbs-called :
        (due : List (Timestamp × Callback U)) (t : Timer U)
        → (run_cbs (λ u. call_all (does u)) clock due t).called ≡ t.called ++ callbacks_of due
    unfolding run_cbs
    run_cbs-called [] t = sym (append-nil t.called)
    run_cbs-called ((k, cb) ∷ due) t =
        run_cbs-called due (run_cb (λ u. call_all (does u)) clock cb t)
        ∙ ap (λ l. l ++ callbacks_of due) (run_cb-called cb t)
        ∙ append_assoc t.called (cb ∷ []) (callbacks_of due)

    -- The handler calls the callbacks that are due, each once and in order.
    pub handle_read-called :
        (now now' : Timestamp) (t : Timer U)
        → (handle_read (λ u. call_all (does u)) clock now now' t).called
          ≡ t.called ++ callbacks_of (before now t.time_cb_map)
    unfolding handle_read run_timer_cb rearm register_timer
    handle_read-called now now' t =
        kept (run_timer_cb (λ u. call_all (does u)) clock now t).time_cb_map _
        ∙ run_cbs-called (before now t.time_cb_map)
            (record t { time_cb_map = from_bound now t.time_cb_map })
      where
        kept :
            (m : List (Timestamp × Callback U)) (t : Timer U) → (rearm now' m t).called ≡ t.called
        kept [] t = refl
        kept ((k, cb) ∷ m) t = refl
