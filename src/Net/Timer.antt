-- ===== src/Net/Timer.antt =====
-- TrantorTimer (src/net/inc/TrantorTimer.h, src/net/src/TrantorTimer.cc): callbacks by trigger time
-- over one timerfd. The clock is an argument of each function that reads it. What a user's callback
-- does to the timer is the parameter `run_user`. Every call is made in the loop's thread, where
-- `runInLoop` runs a task at once; differences of times stay within 64 bits.

pub mod Order
pub mod Arming
pub mod Firing
mod Examples
use trantor_net.Base.{
  ℕ, suc, ◌+◌, ◌-◌, ◌*◌, ◌/◌, ◌≡◌, Bool, true, false, ◌&&◌, ◌||◌, not, Option, none, some, List, [],
  ◌∷◌, ◌++◌, ltb, if◌then◌else◌,
}
use trantor_net.Base.Int.{ℤ, pos, negsuc, ◌-ℤ◌, ltb_ℤ, pos_part}
use trantor_net.Tool.Timestamp.{Timestamp, lt_ts, add_ts, sub_ts}

-- A callback as `runAfter` gets it, or the closure that `runEvery` builds.
pub data Callback (U : Type 0) : Type 0 where
  once : U → Callback U
  every : ℤ → U → Callback U

-- `it_value` of the setting of the timerfd, relative to the time of the call.
pub record Setting : Type 0 where
  pub tv_sec : ℕ
  pub tv_nsec : ℕ

module _ (U : Type 0) where
  pub record Timer : Type 0 where
    pub next_trigger_time : Timestamp
    pub time_cb_map : List (Timestamp × Callback U)
    pub settings : List Setting  -- the calls of `timerfd_settime`, the latest first
    pub called : List (Callback U)  -- the callbacks that `runTimerCb` has called

  abbrev pub new_timer : Timer
  new_timer = record {
    next_trigger_time = record { usec = pos 0 };
    time_cb_map = [];
    settings = [];
    called = [];
  }

-- At least 100 microseconds.
unfoldable pub get_interval_from_now : Timestamp → Timestamp → ℕ
get_interval_from_now trigger_time now =
    let micro_seconds = sub_ts trigger_time now in
    if ltb_ℤ micro_seconds (pos 100) then 100 else pos_part micro_seconds

unfoldable pub setting_of : ℕ → Setting
setting_of micro_seconds =
    let sec = micro_seconds / 1000000 in
    record { tv_sec = sec; tv_nsec = (micro_seconds - sec * 1000000) * 1000 }

-- Is the time the 0 that stands for "not armed"?
abbrev pub is_zero : Timestamp → Bool
is_zero t = not (ltb_ℤ t.usec (pos 0)) && not (ltb_ℤ (pos 0) t.usec)

module _ {U : Type 0} where
  unfoldable pub register_timer : Timestamp → Timestamp → Timer U → Timer U
  register_timer now trigger_time t = record t {
    settings = setting_of (get_interval_from_now trigger_time now) ∷ t.settings;
    next_trigger_time = trigger_time;
  }

  -- `multimap::insert`: behind the entries of the same key.
  unfoldable pub insert_cb :
      Timestamp → Callback U → List (Timestamp × Callback U) → List (Timestamp × Callback U)
  insert_cb k cb [] = (k, cb) ∷ []
  insert_cb k cb ((j, c) ∷ m) =
      if lt_ts k j then (k, cb) ∷ (j, c) ∷ m else (j, c) ∷ insert_cb k cb m

  unfoldable pub register_timer_cb_in_loop : Timestamp → Timestamp → Callback U → Timer U → Timer U
  register_timer_cb_in_loop now trigger_time cb t =
      let inserted = record t { time_cb_map = insert_cb trigger_time cb t.time_cb_map } in
      if lt_ts trigger_time t.next_trigger_time || is_zero t.next_trigger_time
      then register_timer now trigger_time inserted
      else inserted

  unfoldable pub run_at : Timestamp → Timestamp → Callback U → Timer U → Timer U
  run_at now time cb t = register_timer_cb_in_loop now time cb t

  -- `interval * 1000000`, converted to an integer, is the argument. The clock is read here and,
  -- if the timer is armed, once more.
  unfoldable pub run_after : Timestamp → Timestamp → ℤ → Callback U → Timer U → Timer U
  run_after now now' micros cb t = run_at now' (add_ts now micros) cb t

  unfoldable pub run_every : Timestamp → Timestamp → ℤ → U → Timer U → Timer U
  run_every now now' micros cb t = run_after now now' micros (every micros cb) t

  -- The entries in front of `lower_bound(now)`, and the rest.
  unfoldable pub before : Timestamp → List (Timestamp × Callback U) → List (Timestamp × Callback U)
  before now [] = []
  before now ((k, cb) ∷ m) = if lt_ts k now then (k, cb) ∷ before now m else []

  unfoldable pub from_bound :
      Timestamp → List (Timestamp × Callback U) → List (Timestamp × Callback U)
  from_bound now [] = []
  from_bound now ((k, cb) ∷ m) = if lt_ts k now then from_bound now m else (k, cb) ∷ m

  -- The end of `handleRead`: the timer is set for the first entry, if there is one.
  unfoldable pub rearm : Timestamp → List (Timestamp × Callback U) → Timer U → Timer U
  rearm now' [] t = t
  rearm now' ((k, cb) ∷ m) t = register_timer now' k t

  -- A call of a callback is noted where it is made.
  abbrev pub count_call : Callback U → Timer U → Timer U
  count_call cb t = record t { called = t.called ++ (cb ∷ []) }

  -- Running callbacks; `clock u` are the two times that `runEvery` reads behind the callback u.
  module _ (run_user : U → Timer U → Timer U) (clock : U → Timestamp × Timestamp) where
    unfoldable pub run_cb : Callback U → Timer U → Timer U
    run_cb (once u) t = run_user u (count_call (once u) t)
    run_cb (every micros u) t =
        run_every (clock u).0 (clock u).1 micros u (run_user u (count_call (every micros u) t))

    unfoldable pub run_cbs : List (Timestamp × Callback U) → Timer U → Timer U
    run_cbs [] t = t
    run_cbs ((k, cb) ∷ due) t = run_cbs due (run_cb cb t)

    unfoldable pub run_timer_cb : Timestamp → Timer U → Timer U
    run_timer_cb now t =
        run_cbs (before now t.time_cb_map) (record t { time_cb_map = from_bound now t.time_cb_map })

    unfoldable pub handle_read : Timestamp → Timestamp → Timer U → Timer U
    handle_read now now' t =
        let ran = run_timer_cb now t in
        let cleared = record ran { next_trigger_time = record { usec = pos 0 } } in
        rearm now' cleared.time_cb_map cleared
