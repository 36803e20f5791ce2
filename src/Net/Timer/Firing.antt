-- ===== src/Net/Timer/Firing.antt =====
-- What the timer does when its timerfd fires.
use trantor_net.Base.{
  ◌≡◌, refl, sym, subst, true, ◌||◌, inl, inr, List, [], ◌∷◌, arith, All, Bool-cases,
}
use trantor_net.Base.Int.{pos, ◌≤ℤ◌, +ℤ_parts}
use trantor_net.Tool.Timestamp.{Timestamp, lt_ts, add_ts}
use trantor_net.Net.Timer.{
  Callback, once, every, Setting, Timer, get_interval_from_now, setting_of, register_timer,
  insert_cb, is_zero, register_timer_cb_in_loop, run_at, run_after, run_every, before, from_bound,
  run_cb, run_cbs, count_call, run_timer_cb, rearm, handle_read,
}
use trantor_net.Net.Timer.Order.{IsSorted, From-IsSorted, insert_cb_lem}
use trantor_net.Net.Timer.Arming.{IsProper, IsGood, IsArmed, IsTimedFor, insert_cb-IsProper}

module _ {U : Type 0} where
  before-IsProper :
      (now : Timestamp) (m : List (Timestamp × Callback U))
      → All IsProper m
      → All IsProper (before now m) × All IsProper (from_bound now m)
  unfolding before from_bound
  before-IsProper now [] h = (tt, tt)
  before-IsProper now ((k, cb) ∷ m) h = elim (Bool-cases (lt_ts k now)) [
    | inl e ↦ let (due, rest) = before-IsProper now m h.1 in rw e ((h.0, due), rest)
    | inr e ↦ rw e (tt, h)
  ]

  from_bound-IsSorted :
      (now : Timestamp) (m : List (Timestamp × Callback U))
      → IsSorted m
      → IsSorted (from_bound now m)
  unfolding from_bound
  from_bound-IsSorted now [] h = tt
  from_bound-IsSorted now ((k, cb) ∷ m) h = elim (Bool-cases (lt_ts k now)) [
    | inl e ↦ rw e (from_bound-IsSorted now m (From-IsSorted k.usec m h))
    | inr e ↦ rw e h
  ]

  pub register_timer_cb_in_loop-IsGood :
      (now k : Timestamp) (cb : Callback U) (t : Timer U)
      → IsGood t.time_cb_map
      → IsProper (k, cb)
      → IsGood (register_timer_cb_in_loop now k cb t).time_cb_map
  unfolding register_timer_cb_in_loop register_timer
  register_timer_cb_in_loop-IsGood now k cb t h p =
      let good : IsGood (insert_cb k cb t.time_cb_map) =
        ((insert_cb_lem k cb t.time_cb_map h.0).0, insert_cb-IsProper k cb t.time_cb_map p h.1) in
      elim (Bool-cases (lt_ts k t.next_trigger_time || is_zero t.next_trigger_time)) [
        | inl e ↦ rw e good
        | inr e ↦ rw e good
      ]

  -- The settings of the timerfd after a rearming for a map: one more, for the first entry.
  abbrev pub IsSetFor :
      Timestamp → List (Timestamp × Callback U) → List Setting → List Setting → Type 0
  IsSetFor now [] earlier later = later ≡ earlier
  IsSetFor now ((k, cb) ∷ m) earlier later =
      later ≡ setting_of (get_interval_from_now k now) ∷ earlier

  timed_lem :
      (now : Timestamp) (m : List (Timestamp × Callback U)) (earlier later : List Setting)
      → IsSetFor now m earlier later
      → IsTimedFor m later
  timed_lem now [] earlier later h = tt
  timed_lem now ((k, cb) ∷ m) earlier later h = (now, earlier, h)

  rearm_lem :
      (now : Timestamp) (m : List (Timestamp × Callback U)) (t : Timer U)
      → ((rearm now m t).time_cb_map ≡ t.time_cb_map)
        × (is_zero t.next_trigger_time ≡ true → IsArmed m (rearm now m t).next_trigger_time)
        × IsSetFor now m t.settings (rearm now m t).settings
  unfolding rearm register_timer
  rearm_lem now [] t = (refl, λ z. z, refl)
  rearm_lem now ((k, cb) ∷ m) t = (refl, λ _. refl, refl)

  module _ (run_user : U → Timer U → Timer U) (clock : U → Timestamp × Timestamp)
      (after_epoch : (u : U) → pos 1 ≤ℤ ((clock u).0).usec)
      (user_good : (u : U) (t : Timer U)
        → IsGood t.time_cb_map
        → IsGood (run_user u t).time_cb_map) where
    run_cbs-IsGood :
        (due : List (Timestamp × Callback U)) (t : Timer U)
        → All IsProper due
        → IsGood t.time_cb_map
        → IsGood (run_cbs run_user clock due t).time_cb_map
    unfolding run_cbs run_cb run_every run_after run_at add_ts
    run_cbs-IsGood [] t d h = h
    run_cbs-IsGood ((k, once u) ∷ due) t d h =
        run_cbs-IsGood due (run_user u (count_call (once u) t)) d.1
          (user_good u (count_call (once u) t) h)
    run_cbs-IsGood ((k, every micros u) ∷ due) t d h = run_cbs-IsGood due _ d.1 (
        register_timer_cb_in_loop-IsGood (clock u).1 (add_ts (clock u).0 micros) (every micros u)
          (run_user u (count_call (every micros u) t))
          (user_good u (count_call (every micros u) t) h)
          (omega (arith, d.0, after_epoch u, +ℤ_parts ((clock u).0).usec micros), d.0.1))

    -- From a map that ascends and has proper entries, with a clock after the epoch and user callbacks
    -- that keep the map so, `handleRead` leaves the map that `runTimerCb` leaves. It ascends and has
    -- proper entries, and the timer is armed for its first entry, by one new setting of the timerfd;
    -- an empty map leaves the timer unarmed, without a new setting.
    pub handle_read-IsArmed :
        (now now' : Timestamp) (t : Timer U)
        → IsGood t.time_cb_map
        → let u = handle_read run_user clock now now' t in
          let ran = run_timer_cb run_user clock now t in
          (u.time_cb_map ≡ ran.time_cb_map)
          × IsGood u.time_cb_map
          × IsArmed u.time_cb_map u.next_trigger_time
          × IsSetFor now' ran.time_cb_map ran.settings u.settings
          × IsTimedFor u.time_cb_map u.settings
    unfolding handle_read run_timer_cb
    handle_read-IsArmed now now' t h =
        let ran = run_timer_cb run_user clock now t in
        let (due, rest) = before-IsProper now t.time_cb_map h.1 in
        let good : IsGood ran.time_cb_map =
          run_cbs-IsGood (before now t.time_cb_map) _ due
            (from_bound-IsSorted now t.time_cb_map h.0, rest) in
        let (same, armed, set) =
          rearm_lem now' ran.time_cb_map
            (record ran { next_trigger_time = record { usec = pos 0 } }) in
        (
          same,
          subst IsGood (sym same) good,
          subst (λ m. IsArmed m (handle_read run_user clock now now' t).next_trigger_time)
              (sym same) (armed refl),
          set,
          subst (λ m. IsTimedFor m (handle_read run_user clock now now' t).settings) (sym same)
              (timed_lem now' ran.time_cb_map ran.settings _ set),
        )
