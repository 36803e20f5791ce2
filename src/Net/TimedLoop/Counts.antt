-- ===== src/Net/TimedLoop/Counts.antt =====
-- How many callbacks of a kind the map of the timer holds after each call.
use trantor_net.Base.{
  ℕ, ◌+◌, ◌≡◌, refl, ◌∙◌, ap, Bool, true, false, inl, inr, List, [], ◌∷◌, arith, ◌&&◌, ◌||◌,
  if◌then◌else◌, Bool-cases, count, sum-++,
}
use trantor_net.Tool.Timestamp.{Timestamp, lt_ts, add_ts}
use trantor_net.Net.Timer.{
  Callback, once, every, Timer, register_timer, insert_cb, is_zero, register_timer_cb_in_loop,
  run_at, run_after, run_every, before, from_bound, run_cb, run_cbs, count_call, run_timer_cb,
  rearm, handle_read,
}
use trantor_net.Net.TimedLoop.{
  Request, call_at, call_after, call_every, trigger, wanted, read_later, all_wanted, call_timer,
  call_all, asked_by,
}

module _ {U : Type 0} where
  abbrev pub is_once : Callback U → Bool
  is_once (once u) = true
  is_once (every micros u) = false

  abbrev pub is_every : Callback U → Bool
  is_every (once u) = false
  is_every (every micros u) = true

  abbrev pub callbacks_of : List (Timestamp × Callback U) → List (Callback U)
  callbacks_of [] = []
  callbacks_of ((k, cb) ∷ m) = cb ∷ callbacks_of m

  -- Every call of the timer comes down to one registration.
  pub call_timer-registers :
      (r : Request U) (t : Timer U)
      → call_timer r t ≡ register_timer_cb_in_loop (read_later r) (trigger r) (wanted r) t
  unfolding call_timer run_every run_after run_at
  call_timer-registers (call_at now' time u) t = refl
  call_timer-registers (call_after now now' micros u) t = refl
  call_timer-registers (call_every now now' micros u) t = refl

  register-inserts :
      (now k : Timestamp) (cb : Callback U) (t : Timer U)
      → (register_timer_cb_in_loop now k cb t).time_cb_map ≡ insert_cb k cb t.time_cb_map
  unfolding register_timer_cb_in_loop register_timer
  register-inserts now k cb t =
      elim (Bool-cases (lt_ts k t.next_trigger_time || is_zero t.next_trigger_time)) [
        | inl e ↦ rw e refl
        | inr e ↦ rw e refl
      ]

  handle_read-map :
      (run_user : U → Timer U → Timer U) (clock : U → Timestamp × Timestamp) (now now' : Timestamp)
      (t : Timer U)
      → (handle_read run_user clock now now' t).time_cb_map
        ≡ (run_timer_cb run_user clock now t).time_cb_map
  unfolding handle_read rearm register_timer
  handle_read-map run_user clock now now' t = kept (run_timer_cb run_user clock now t).time_cb_map _
    where
      kept :
          (m : List (Timestamp × Callback U)) (t : Timer U)
          → (rearm now' m t).time_cb_map ≡ t.time_cb_map
      kept [] t = refl
      kept ((k, cb) ∷ m) t = refl

  module _ (p : Callback U → Bool) where
    abbrev pub in_map : List (Timestamp × Callback U) → ℕ
    in_map m = count (λ e. p e.1) m

    abbrev pub one : Callback U → ℕ
    one cb = if p cb then 1 else 0

    insert_cb-count :
        (k : Timestamp) (cb : Callback U) (m : List (Timestamp × Callback U))
        → in_map (insert_cb k cb m) ≡ one cb + in_map m
    unfolding insert_cb
    insert_cb-count k cb [] = refl
    insert_cb-count k cb ((j, c) ∷ m) = elim (Bool-cases (lt_ts k j)) [
      | inl e ↦ rw e refl
      | inr e ↦ rw e (omega (arith, insert_cb-count k cb m))
    ]

    pub register-count :
        (now k : Timestamp) (cb : Callback U) (t : Timer U)
        → in_map (register_timer_cb_in_loop now k cb t).time_cb_map ≡ one cb + in_map t.time_cb_map
    register-count now k cb t =
        ap in_map (register-inserts now k cb t) ∙ insert_cb-count k cb t.time_cb_map

    pub call_all-count :
        (rs : List (Request U)) (t : Timer U)
        → in_map (call_all rs t).time_cb_map ≡ count p (all_wanted rs) + in_map t.time_cb_map
    unfolding call_all
    call_all-count [] t = omega arith
    call_all-count (r ∷ rs) t =
        let first : in_map (call_timer r t).time_cb_map ≡ one (wanted r) + in_map t.time_cb_map =
          ap (λ (t : Timer U). in_map t.time_cb_map) (call_timer-registers r t)
          ∙ register-count (read_later r) (trigger r) (wanted r) t in
        omega (arith, first, call_all-count rs (call_timer r t))

    bound-count :
        (now : Timestamp) (m : List (Timestamp × Callback U))
        → in_map (before now m) + in_map (from_bound now m) ≡ in_map m
    unfolding before from_bound
    bound-count now [] = refl
    bound-count now ((k, cb) ∷ m) = elim (Bool-cases (lt_ts k now)) [
      | inl e ↦ rw e (omega (arith, bound-count now m))
      | inr e ↦ rw e (omega arith)
    ]

    -- The callbacks of entries, and those that come once.
    pub gone_of_entries :
        (m : List (Timestamp × Callback U))
        → count (λ cb. is_once cb && p cb) (callbacks_of m) ≡ count (λ e. is_once e.1 && p e.1) m
    gone_of_entries [] = refl
    gone_of_entries ((k, cb) ∷ m) = omega (arith, gone_of_entries m)

    module _ (does : U → List (Request U)) (clock : U → Timestamp × Timestamp) where
      run_cbs-count :
          (due : List (Timestamp × Callback U)) (t : Timer U)
          → in_map (run_cbs (λ u. call_all (does u)) clock due t).time_cb_map
            ≡ count (λ e. is_every e.1 && p e.1) due
              + count p (asked_by does due)
              + in_map t.time_cb_map
      unfolding run_cbs run_cb run_every run_after run_at
      run_cbs-count [] t = omega arith
      run_cbs-count ((k, once u) ∷ due) t = omega (
        arith,
        run_cbs-count due (call_all (does u) (count_call (once u) t)),
        call_all-count (does u) (count_call (once u) t),
        sum-++ one (all_wanted (does u)) (asked_by does due),
      )
      run_cbs-count ((k, every micros u) ∷ due) t =
          let called = call_all (does u) (count_call (every micros u) t) in
          omega (
            arith,
            run_cbs-count due (run_every (clock u).0 (clock u).1 micros u called),
            register-count (clock u).1 (add_ts (clock u).0 micros) (every micros u) called,
            call_all-count (does u) (count_call (every micros u) t),
            sum-++ one (all_wanted (does u)) (asked_by does due),
          )

      kinds :
          (due : List (Timestamp × Callback U))
          → in_map due
            ≡ count (λ e. is_once e.1 && p e.1) due + count (λ e. is_every e.1 && p e.1) due
      kinds [] = refl
      kinds ((k, once u) ∷ due) = omega (arith, kinds due)
      kinds ((k, every micros u) ∷ due) = omega (arith, kinds due)

      -- Firing takes out of the map the callbacks that come once and are due, and puts into it those
      -- that are asked for.
      pub handle_read-count :
          (now now' : Timestamp) (t : Timer U)
          → let due = before now t.time_cb_map in
            in_map (handle_read (λ u. call_all (does u)) clock now now' t).time_cb_map
              + count (λ e. is_once e.1 && p e.1) due
            ≡ in_map t.time_cb_map + count p (asked_by does due)
      unfolding run_timer_cb
      handle_read-count now now' t =
          let due = before now t.time_cb_map in
          let same = ap in_map (handle_read-map (λ u. call_all (does u)) clock now now' t) in
          omega (
            arith,
            same,
            run_cbs-count due (record t { time_cb_map = from_bound now t.time_cb_map }),
            bound-count now t.time_cb_map,
            kinds due,
          )
