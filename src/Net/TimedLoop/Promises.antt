-- ===== src/Net/TimedLoop/Promises.antt =====
-- What holds of a loop with its timer after any history of calls and rounds.
use trantor_net.Base.{
  ℕ, zero, suc, ◌+◌, ◌≡◌, refl, ap, subst, sym, Bool, false, Option, none, some, List, [], ◌∷◌,
  ◌++◌, arith, All, count, sum-++,
}
use trantor_net.Base.Int.{pos, ◌≤ℤ◌}
use trantor_net.Tool.Timestamp.{Timestamp}
use trantor_net.Net.Pipe.{Pipe, enable_read}
use trantor_net.Net.EPoll.{Kernel}
use trantor_net.Net.Loop.{
  Task, register_task, update_task, remove_task, user_task, Loop, queue_in_loop, trig_event,
  loop_entry, register_pipe_in_loop,
}
use trantor_net.Net.Timer.{Callback}
use trantor_net.Net.TimedLoop.{
  Request, Work, wanted, registration, lift, event_pipe, timer_pipe, user_pipe, user_cb, all_pipes,
  TimedLoop, new_timed_loop, timer_request, hand_over, Happening, requested, handed, waited, happen,
  history,
}
use trantor_net.Net.TimedLoop.Counts.{in_map, one}
use trantor_net.Net.TimedLoop.Decent.{
  IsDecent, IsRegistrable, IsPlain, IsHandled, one_task, in_queue, gone,
}
use trantor_net.Net.TimedLoop.Kept.{IsTimely}
use trantor_net.Net.TimedLoop.Rounds.{timed_round-IsTimely}

module _ {U : Type 0} where
  user_pipe-IsPlain : (p : Pipe U) → IsPlain (user_pipe p)
  user_pipe-IsPlain p = (plain p.read_cb, plain p.write_cb)
    where
      plain : (cb : Option U) → IsHandled (user_cb cb)
      plain none = tt
      plain (some u) = tt

  all_pipes-IsPlain :
      (eventfd timerfd : ℕ) (pipes : ℕ → Pipe U) (id : ℕ)
      → IsPlain (all_pipes eventfd timerfd pipes id)
  unfolding event_pipe timer_pipe enable_read
  all_pipes-IsPlain eventfd timerfd pipes zero = (tt, tt)
  all_pipes-IsPlain eventfd timerfd pipes (suc zero) = (tt, tt)
  all_pipes-IsPlain eventfd timerfd pipes (suc (suc id)) = user_pipe-IsPlain (pipes id)

  append-IsRegistrable :
      (ts : List (Task (Work U))) (t : Task (Work U))
      → All IsRegistrable ts
      → IsRegistrable t
      → All IsRegistrable (ts ++ (t ∷ []))
  append-IsRegistrable [] t h k = (k, tt)
  append-IsRegistrable (x ∷ ts) t (h, hs) k = (h, append-IsRegistrable ts t hs k)

  lift-IsRegistrable : (t : Task U) → IsRegistrable (lift t)
  lift-IsRegistrable (register_task q) = tt
  lift-IsRegistrable (update_task q) = tt
  lift-IsRegistrable (remove_task q) = tt
  lift-IsRegistrable (user_task u) = tt

  lift-count : (p : Callback U → Bool) (t : Task U) → one_task p (lift t) ≡ 0
  lift-count p (register_task q) = refl
  lift-count p (update_task q) = refl
  lift-count p (remove_task q) = refl
  lift-count p (user_task u) = refl

module _ (K : Kernel) (U : Type 0) where
  open K use {State}

  -- Queueing a task from another thread.
  queue-lem :
      (t : Task (Work U)) (l : Loop K (Work U))
      → let m = queue_in_loop K (Work U) t false l in
        (m.loop_funcs_list ≡ l.loop_funcs_list ++ (t ∷ [])) × (m.pipes ≡ l.pipes)
  unfolding queue_in_loop trig_event
  queue-lem t l = (refl, refl)

  -- A task in the queue accounts for what was asked for with it.
  queued-IsTimely :
      (t : Task (Work U)) (cbs : List (Callback U)) (s : TimedLoop K U)
      → IsRegistrable t
      → ((p : Callback U → Bool) → count p cbs ≡ one_task p t)
      → IsTimely K U [] s
      → IsTimely K U []
          (record s { loop = queue_in_loop K (Work U) t false s.loop; asked = s.asked ++ cbs })
  unfolding queue_in_loop trig_event
  queued-IsTimely t cbs s r e h = record {
    taken = tt;
    queued = append-IsRegistrable s.loop.loop_funcs_list t h.queued r;
    plain = h.plain;
    set = h.set;
    accounted = λ p. omega (
      arith,
      h.accounted p,
      e p,
      sum-++ (one p) s.asked cbs,
      sum-++ (one_task p) s.loop.loop_funcs_list (t ∷ []),
    );
  }

  new_timed_loop-IsTimely :
      (kernel : State) (eventfd timerfd : ℕ) (pipes : ℕ → Pipe U)
      → IsTimely K U [] (new_timed_loop K U kernel eventfd timerfd pipes)
  unfolding new_timed_loop loop_entry register_pipe_in_loop
  new_timed_loop-IsTimely kernel eventfd timerfd pipes = record {
    taken = tt;
    queued = tt;
    plain = all_pipes-IsPlain eventfd timerfd pipes;
    set = ((tt, tt), refl, tt);
    accounted = λ p. refl;
  }

  module _ (does : ℕ → U → List (Request U)) (fired : ℕ → Timestamp × Timestamp)
      (clock : ℕ → U → Timestamp × Timestamp) where
    -- Do other threads ask for proper callbacks?
    abbrev pub IsSound : Happening K U does fired clock → Type 0
    IsSound (requested r) = IsDecent r
    IsSound _ = Unit

    module _ (decent : (n : ℕ) (u : U) → All IsDecent (does n u))
        (after_epoch : (n : ℕ) (u : U) → pos 1 ≤ℤ ((clock n u).0).usec) where
      happen-IsTimely :
          (h : Happening K U does fired clock) (s : TimedLoop K U)
          → IsSound h
          → IsTimely K U [] s
          → IsTimely K U [] (happen K U does fired clock h s)
      unfolding happen timer_request hand_over
      happen-IsTimely (requested r) s d t =
          queued-IsTimely (registration r) (wanted r ∷ []) s d (λ p. omega arith) t
      happen-IsTimely (handed q) s d t =
          subst
            (λ (a : List (Callback U)).
              IsTimely K U []
                (record s { loop = queue_in_loop K (Work U) (lift q) false s.loop; asked = a }))
            (no_more s.asked)
            (queued-IsTimely (lift q) [] s (lift-IsRegistrable q) (λ p. sym (lift-count p q)) t)
        where
          no_more : (xs : List (Callback U)) → xs ++ [] ≡ xs
          no_more [] = refl
          no_more (x ∷ xs) = ap (◌∷◌ x) (no_more xs)
      happen-IsTimely (waited w) s d t =
          timed_round-IsTimely K U does fired clock decent after_epoch w s t

      history-IsTimely :
          (hs : List (Happening K U does fired clock)) (s : TimedLoop K U)
          → All IsSound hs
          → IsTimely K U [] s
          → IsTimely K U [] (history K U does fired clock hs s)
      unfolding history
      history-IsTimely [] s d t = t
      history-IsTimely (h ∷ hs) s (d, ds) t = history-IsTimely hs _ ds (happen-IsTimely h s d t)

      -- In any history of a new loop, whatever its pipes and tasks are, in which other threads and
      -- callbacks ask the timer for proper callbacks and the clock is past the epoch: the callbacks of
      -- any kind that were asked for are, by number, those that come once and were called, those in
      -- the map of the timer, and those that a task in the queue of the loop is to register.
      pub callbacks_kept :
          (kernel : State) (eventfd timerfd : ℕ) (pipes : ℕ → Pipe U)
          (hs : List (Happening K U does fired clock))
          → All IsSound hs
          → (p : Callback U → Bool)
          → let s =
              history K U does fired clock hs (new_timed_loop K U kernel eventfd timerfd pipes) in
            count p s.asked
            ≡ gone p s.timer.called
              + in_map p s.timer.time_cb_map
              + in_queue p s.loop.loop_funcs_list
      callbacks_kept kernel eventfd timerfd pipes hs d p =
          let new = new_timed_loop K U kernel eventfd timerfd pipes in
          let t =
            history-IsTimely hs new d (new_timed_loop-IsTimely kernel eventfd timerfd pipes) in
          omega (arith, t.accounted p)
