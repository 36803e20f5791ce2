-- ===== src/Net/TimedLoop/Examples.antt =====
-- Loops with their timers at concrete requests.
use trantor_net.Base.{
  ℕ, ◌+◌, ◌*◌, ◌≡◌, Bool, true, false, none, List, [], ◌∷◌, ◌==◌, arith, All, count, if◌then◌else◌,
}
use trantor_net.Base.Int.{pos, ◌+ℤ◌, ◌≤ℤ◌}
use trantor_net.Tool.Timestamp.{Timestamp, add_ts}
use trantor_net.Net.Pipe.{new_pipe}
use trantor_net.Net.EPoll.{ready}
use trantor_net.Net.EPoll.Table.{epoll_table}
use trantor_net.Net.Timer.{Callback, once, every, setting_of}
use trantor_net.Net.TimedLoop.{
  Request, call_at, call_every, TimedLoop, new_timed_loop, Happening, requested, waited, history,
}
use trantor_net.Net.TimedLoop.Counts.{in_map}
use trantor_net.Net.TimedLoop.Decent.{IsDecent, in_queue, gone}
use trantor_net.Net.TimedLoop.Promises.{IsSound, callbacks_kept}

abbrev at : ℕ → Timestamp
at n = record { usec = pos n }

-- Callback 8 asks for callback 9 at 60 seconds; the others do nothing to the timer.
abbrev chain : ℕ → ℕ → List (Request ℕ)
chain n u = if u == 8 then call_at (at 1) (at 60000000) 9 ∷ [] else []

-- Round n is at n + 1 seconds.
abbrev at_round : ℕ → Timestamp × Timestamp
at_round n = (at (n * 1000000 + 1000000), at (n * 1000000 + 1000001))

abbrev reading : ℕ → ℕ → Timestamp × Timestamp
reading n u = at_round n

chain-IsDecent : (n u : ℕ) → All IsDecent (chain n u)
chain-IsDecent n u = by_test (u == 8)
  where
    by_test :
        (b : Bool) → All (IsDecent {U = ℕ}) (if b then call_at (at 1) (at 60000000) 9 ∷ [] else [])
    by_test true = (omega arith, tt)
    by_test false = tt

reading_after_epoch : (n u : ℕ) → pos 1 ≤ℤ ((reading n u).0).usec
reading_after_epoch n u = omega arith

-- A callback at 1.5 seconds, one every half a second, a round for the eventfd 5, and one for the
-- timerfd 6.
abbrev two_requests : List (Happening epoll_table ℕ chain at_round reading)
two_requests =
    requested (call_at (at 1) (at 1500000) 7)
    ∷ requested (call_every (at 500000) (at 500001) (pos 500000) 8)
    ∷ waited (ready ((5, 1) ∷ []))
    ∷ waited (ready ((6, 1) ∷ []))
    ∷ []

two_requests-IsSound : All (IsSound epoll_table ℕ chain at_round reading) two_requests
unfolding add_ts ◌+ℤ◌
two_requests-IsSound = (omega arith, ((omega arith, omega arith), (tt, (tt, tt))))

abbrev fresh : TimedLoop epoll_table ℕ
fresh = new_timed_loop epoll_table ℕ (λ _. none) 5 6 (λ id. new_pipe id)

abbrev after_two : TimedLoop epoll_table ℕ
after_two = history epoll_table ℕ chain at_round reading two_requests fresh

callbacks_kept_example :
    count (λ _. true) after_two.asked
    ≡ gone (λ _. true) after_two.timer.called
      + in_map (λ _. true) after_two.timer.time_cb_map
      + in_queue (λ _. true) after_two.loop.loop_funcs_list
callbacks_kept_example =
    callbacks_kept epoll_table ℕ chain at_round reading chain-IsDecent reading_after_epoch
      (λ _. none) 5 6 (λ id. new_pipe id) two_requests two_requests-IsSound (λ _. true)

-- A loop whose timer has a callback at half a second and one at 3 seconds.
abbrev two_callbacks : List (Timestamp × Callback ℕ)
two_callbacks = (at 500000, once 7) ∷ (at 3000000, every (pos 2000000) 8) ∷ []

abbrev loaded : TimedLoop epoll_table ℕ
loaded = record fresh {
  timer = record {
    next_trigger_time = at 500000;
    time_cb_map = two_callbacks;
    settings = setting_of 500000 ∷ [];
    called = [];
  };
}
