-- ===== src/Net/TimedLoop.antt =====
-- TrantorLoop (src/net/inc/TrantorLoop.h, src/net/src/TrantorLoop.cc) with its TrantorTimer
-- (src/net/src/TrantorTimer.cc) and its TrantorEvent (src/net/src/TrantorEvent.cc): what `runAt`,
-- `runAfter` and `runEvery` do from the thread of the loop and from others, and the rounds in which
-- the pipes of the eventfd and of the timerfd are handled like any other.
-- Callbacks of the user are values of `U`, and `does n u` are the calls of the timer that one makes
-- in round n of the loop. `asked` keeps what was asked for; what is called stands in the timer.
pub mod Counts
pub mod Calls
pub mod Decent
pub mod Kept
pub mod Rounds
pub mod Promises
pub mod Due
mod Examples
use trantor_net.Base.{
  ℕ, zero, suc, ◌+◌, Bool, true, false, Option, none, some, List, [], ◌∷◌, ◌++◌, if◌then◌else◌,
}
use trantor_net.Base.Int.{ℤ}
use trantor_net.Tool.Timestamp.{Timestamp, add_ts}
use trantor_net.Net.Pipe.{Pipe, Action, handle_event, new_pipe, enable_read, set_read_cb}
use trantor_net.Net.EPoll.{Kernel, Wait, start_epoll, new_epoll}
use trantor_net.Net.Loop.{
  find, Task, register_task, update_task, remove_task, user_task, Loop, event_handle_read, run_task,
  queue_in_loop, loop_entry,
}
use trantor_net.Net.Timer.{
  Callback, once, every, Timer, new_timer, register_timer_cb_in_loop, run_at, run_after, run_every,
  before, handle_read,
}

-- A call of the timer, with the readings of the clock that are made in it.
pub data Request (U : Type 0) : Type 0 where
  call_at : Timestamp → Timestamp → U → Request U
  call_after call_every : Timestamp → Timestamp → ℤ → U → Request U

-- What the loop can be bound to call.
pub data Work (U : Type 0) : Type 0 where
  register_cb : Timestamp → Timestamp → Callback U → Work U
  event_read timer_read : Work U
  user : U → Work U

module _ {U : Type 0} where
  abbrev pub trigger : Request U → Timestamp
  trigger (call_at now' time u) = time
  trigger (call_after now now' micros u) = add_ts now micros
  trigger (call_every now now' micros u) = add_ts now micros

  abbrev pub wanted : Request U → Callback U
  wanted (call_at now' time u) = once u
  wanted (call_after now now' micros u) = once u
  wanted (call_every now now' micros u) = every micros u

  abbrev pub read_later : Request U → Timestamp
  read_later (call_at now' time u) = now'
  read_later (call_after now now' micros u) = now'
  read_later (call_every now now' micros u) = now'

  abbrev pub all_wanted : List (Request U) → List (Callback U)
  all_wanted [] = []
  all_wanted (r ∷ rs) = wanted r ∷ all_wanted rs

  -- In the thread of the loop.
  unfoldable pub call_timer : Request U → Timer U → Timer U
  call_timer (call_at now' time u) t = run_at now' time (once u) t
  call_timer (call_after now now' micros u) t = run_after now now' micros (once u) t
  call_timer (call_every now now' micros u) t = run_every now now' micros u t

  unfoldable pub call_all : List (Request U) → Timer U → Timer U
  call_all [] t = t
  call_all (r ∷ rs) t = call_all rs (call_timer r t)

  -- What `runAt` hands to `runInLoop`.
  abbrev pub registration : Request U → Task (Work U)
  registration r = user_task (register_cb (read_later r) (trigger r) (wanted r))

  -- A task of the user.
  abbrev pub lift : Task U → Task (Work U)
  lift (register_task p) = register_task p
  lift (update_task p) = update_task p
  lift (remove_task p) = remove_task p
  lift (user_task u) = user_task (user u)

  -- What the callbacks of the map ask for when they are called, `does` being what they do.
  abbrev pub asked_by : (U → List (Request U)) → List (Timestamp × Callback U) → List (Callback U)
  asked_by does [] = []
  asked_by does ((k, once u) ∷ due) = all_wanted (does u) ++ asked_by does due
  asked_by does ((k, every micros u) ∷ due) = all_wanted (does u) ++ asked_by does due

  -- The pipes of the eventfd and of the timerfd, as their constructors leave them.
  unfoldable pub event_pipe : ℕ → Pipe (Work U)
  event_pipe eventfd = set_read_cb event_read (enable_read (new_pipe eventfd))

  unfoldable pub timer_pipe : ℕ → Pipe (Work U)
  timer_pipe timerfd = set_read_cb timer_read (enable_read (new_pipe timerfd))

  abbrev pub user_cb : Option U → Option (Work U)
  user_cb none = none
  user_cb (some u) = some (user u)

  -- A pipe of the user.
  abbrev pub user_pipe : Pipe U → Pipe (Work U)
  user_pipe p = record {
    fd = p.fd;
    register_event = p.register_event;
    read_cb = user_cb p.read_cb;
    write_cb = user_cb p.write_cb;
  }

  -- The heap: the two pipes of the loop, and those of the user.
  abbrev pub all_pipes : ℕ → ℕ → (ℕ → Pipe U) → ℕ → Pipe (Work U)
  all_pipes eventfd timerfd pipes zero = event_pipe eventfd
  all_pipes eventfd timerfd pipes (suc zero) = timer_pipe timerfd
  all_pipes eventfd timerfd pipes (suc (suc id)) = user_pipe (pipes id)

module _ (K : Kernel) (U : Type 0) where
  open K use {State}

  pub record TimedLoop : Type 0 where
    pub loop : Loop K (Work U)
    pub timer : Timer U
    pub rounds : ℕ
    pub asked : List (Callback U)

  -- The constructor of the loop, and what `loop` does before its first wait.
  unfoldable pub new_timed_loop : State → ℕ → ℕ → (ℕ → Pipe U) → TimedLoop
  new_timed_loop kernel eventfd timerfd pipes = record {
    loop = loop_entry K (Work U) (some 0) (some 1) (record {
      epoll = new_epoll K kernel;
      pipe_map = [];
      pipes = all_pipes eventfd timerfd pipes;
      loop_funcs_list = [];
      need_wakeup = false;
      eventfd = 0;
      log = [];
    });
    timer = new_timer U;
    rounds = 0;
    asked = [];
  }

  abbrev pub call_here : List (Request U) → TimedLoop → TimedLoop
  call_here rs s = record s { timer = call_all rs s.timer; asked = s.asked ++ all_wanted rs }

  -- `runAt`, `runAfter` and `runEvery`; the first argument is `isInLoopThread()`.
  unfoldable pub timer_request : Bool → Request U → TimedLoop → TimedLoop
  timer_request true r s = call_here (r ∷ []) s
  timer_request false r s = record s {
    loop = queue_in_loop K (Work U) (registration r) false s.loop;
    asked = s.asked ++ (wanted r ∷ []);
  }

  -- A task of the user from another thread.
  unfoldable pub hand_over : Task U → TimedLoop → TimedLoop
  hand_over t s = record s { loop = queue_in_loop K (Work U) (lift t) false s.loop }

  -- `fired n` and `clock n` are the readings of the clock in round n: of `handleRead`, and of a
  -- periodic callback that registers itself again.
  module _ (does : ℕ → U → List (Request U)) (fired : ℕ → Timestamp × Timestamp)
      (clock : ℕ → U → Timestamp × Timestamp) where
    unfoldable pub fire : TimedLoop → TimedLoop
    fire s =
        let due = before (fired s.rounds).0 s.timer.time_cb_map in
        record s {
          timer =
              handle_read (λ u. call_all (does s.rounds u)) (clock s.rounds) (fired s.rounds).0
                (fired s.rounds).1 s.timer;
          asked = s.asked ++ asked_by (does s.rounds) due;
        }

    unfoldable pub run_work : Work U → TimedLoop → TimedLoop
    run_work (register_cb now' k cb) s = record s {
      timer = register_timer_cb_in_loop now' k cb s.timer;
    }
    run_work event_read s = record s { loop = event_handle_read K (Work U) s.loop }
    run_work timer_read s = fire s
    run_work (user u) s = call_here (does s.rounds u) s

    -- The other tasks are those of the loop alone.
    unfoldable pub run_timed_task : Task (Work U) → TimedLoop → TimedLoop
    run_timed_task (user_task w) s = run_work w s
    run_timed_task t s = record s { loop = run_task K (Work U) (λ w l. l) t s.loop }

    unfoldable pub run_timed_tasks : List (Task (Work U)) → TimedLoop → TimedLoop
    run_timed_tasks [] s = s
    run_timed_tasks (t ∷ ts) s = run_timed_tasks ts (run_timed_task t s)

    unfoldable pub run_timed_funcs : TimedLoop → TimedLoop
    run_timed_funcs s =
        let taken = record s {
          loop = record (s.loop) { need_wakeup = true; loop_funcs_list = [] };
        } in
        let ran = run_timed_tasks s.loop.loop_funcs_list taken in
        record ran { loop = record (ran.loop) { need_wakeup = false } }

    unfoldable pub run_timed_actions : List (Action (Work U)) → TimedLoop → TimedLoop
    run_timed_actions [] s = s
    run_timed_actions (Action.call w ∷ rest) s = run_timed_actions rest (run_work w s)
    run_timed_actions (_ ∷ rest) s = run_timed_actions rest s

    unfoldable pub handle_timed_events : List (ℕ × ℕ) → TimedLoop → TimedLoop
    handle_timed_events [] s = s
    handle_timed_events ((fd, revent) ∷ m) s =
        handle_timed_events m (elim (find fd s.loop.pipe_map) [
          | none ↦ s
          | some id ↦ run_timed_actions (handle_event (s.loop.pipes id) revent) s
        ])

    unfoldable pub timed_round : Wait → TimedLoop → TimedLoop
    timed_round w s =
        let (event_map, size) = start_epoll w [] s.loop.epoll.vec_size in
        let waited = record s {
          loop = record (s.loop) { epoll = record (s.loop.epoll) { vec_size = size } };
        } in
        let ran = run_timed_funcs (handle_timed_events event_map waited) in
        record ran { rounds = ran.rounds + 1 }

    -- What happens to a loop: calls of the timer and tasks from other threads, and its rounds.
    pub data Happening : Type 0 where
      requested : Request U → Happening
      handed : Task U → Happening
      waited : Wait → Happening

    unfoldable pub happen : Happening → TimedLoop → TimedLoop
    happen (requested r) s = timer_request false r s
    happen (handed t) s = hand_over t s
    happen (waited w) s = timed_round w s

    unfoldable pub history : List Happening → TimedLoop → TimedLoop
    history [] s = s
    history (h ∷ hs) s = history hs (happen h s)
