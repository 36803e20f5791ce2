-- ===== src/Net/Timer/Examples.antt =====
-- The properties of the timer at concrete timers, and runs of it.
use trantor_net.Base.{ℕ, ◌≡◌, refl, List, [], ◌∷◌, arith}
use trantor_net.Base.Int.{pos, ◌+ℤ◌}
use trantor_net.Tool.Timestamp.{Timestamp, add_ts}
use trantor_net.Net.Timer.{
  Callback, once, every, Timer, setting_of, insert_cb, before, from_bound, register_timer,
  register_timer_cb_in_loop, run_cb, run_cbs, run_every, run_after, run_at, run_timer_cb, rearm,
  handle_read,
}
use trantor_net.Net.Timer.Arming.{IsGood}

abbrev at : ℕ → Timestamp
at n = record { usec = pos n }

-- A callback at 2 seconds, and one at 3 that comes again after 2.
abbrev two_callbacks : List (Timestamp × Callback ℕ)
two_callbacks = (at 2000000, once 7) ∷ (at 3000000, every (pos 2000000) 8) ∷ []

abbrev two_timer : Timer ℕ
two_timer = record {
  next_trigger_time = at 2000000;
  time_cb_map = two_callbacks;
  settings = setting_of 2000000 ∷ [];
  called = [];
}

-- A callback that does nothing to the timer.
abbrev idle : ℕ → Timer ℕ → Timer ℕ
idle u t = t

-- Once fired at 4 seconds, the periodic callback stands in the map for 6 seconds.
fired :
    (handle_read idle
      (λ u. (at 4000000, at 4000000))
      (at 4000000)
      (at 4000000)
      two_timer).time_cb_map
    ≡ (at 6000000, every (pos 2000000) 8) ∷ []
unfolding handle_read run_timer_cb run_cbs run_cb run_every run_after run_at
    register_timer_cb_in_loop insert_cb before from_bound add_ts rearm register_timer ◌+ℤ◌
fired = refl

two_callbacks-IsGood : IsGood two_callbacks
two_callbacks-IsGood = ((omega arith, tt), (omega arith, ((omega arith, omega arith), tt)))
