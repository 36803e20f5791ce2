-- ===== src/Net/Loop.antt =====
-- TrantorLoop (src/net/inc/TrantorLoop.h, src/net/src/TrantorLoop.cc) and TrantorEvent
-- (src/net/src/TrantorEvent.cc): the pipes of a loop, the tasks that other threads hand to it, and
-- the eventfd that wakes it.
-- Pipes are shared objects: `pipes` is the heap of them, a pointer is an index into it, and `none`
-- is the null pointer. What a user's callback or task does to the loop is the parameter `run_user`.

pub mod Sync
pub mod Tasks
pub mod Interleaving
mod Examples
use trantor_net.Base.{
  ℕ, suc, ◌+◌, ◌≡◌, Bool, true, false, not, ◌||◌, Option, none, some, List, [], ◌∷◌, ◌++◌, ◌==◌,
  if◌then◌else◌,
}
use trantor_net.Net.Pipe.{Pipe, Action, handle_event}
use trantor_net.Net.EPoll.{Kernel, EPoll, register_fd, update_fd, remove_fd, start_epoll, Wait}

-- A `std::map` from descriptors; the order of its keys is never read.
module _ {ℓ} {A : Type ℓ} where
  unfoldable pub find : ℕ → List (ℕ × A) → Option A
  find j [] = none
  find j ((k, v) ∷ m) = if k == j then some v else find j m

  unfoldable pub put : ℕ → A → List (ℕ × A) → List (ℕ × A)
  put j v [] = (j, v) ∷ []
  put j v ((k, w) ∷ m) = if k == j then (k, v) ∷ m else (k, w) ∷ put j v m

  unfoldable pub erase : ℕ → List (ℕ × A) → List (ℕ × A)
  erase j [] = []
  erase j ((k, w) ∷ m) = if k == j then erase j m else (k, w) ∷ erase j m

-- Callbacks and user tasks are values of `U`.
module _ (U : Type 0) where
  pub data Task : Type 0 where
    register_task update_task remove_task : Option ℕ → Task
    user_task : U → Task

-- The messages of the loop's own error paths.
pub data Message : Type 0 where
  not_registered pointer_null : Message

module _ (K : Kernel) (U : Type 0) where
  pub record Loop : Type 0 where
    pub epoll : EPoll K
    pub pipe_map : List (ℕ × ℕ)
    pub pipes : ℕ → Pipe U
    pub loop_funcs_list : List (Task U)
    pub need_wakeup : Bool
    pub eventfd : ℕ  -- what has been written to the eventfd and not read
    pub log : List Message

  unfoldable pub register_pipe_in_loop : Option ℕ → Loop → Loop
  register_pipe_in_loop none l = record l { log = l.log ++ (pointer_null ∷ []) }
  register_pipe_in_loop (some id) l =
      let p = l.pipes id in
      record l {
        pipe_map = put p.fd id l.pipe_map;
        epoll = register_fd K l.epoll p.fd p.register_event;
      }

  unfoldable pub update_pipe_in_loop : Option ℕ → Loop → Loop
  update_pipe_in_loop none l = record l { log = l.log ++ (pointer_null ∷ []) }
  update_pipe_in_loop (some id) l =
      let p = l.pipes id in
      elim (find p.fd l.pipe_map) [
        | some _ ↦ record l { epoll = update_fd K l.epoll p.fd p.register_event }
        | none ↦ record l { log = l.log ++ (not_registered ∷ []) }
      ]

  unfoldable pub remove_pipe_in_loop : Option ℕ → Loop → Loop
  remove_pipe_in_loop none l = l
  remove_pipe_in_loop (some id) l =
      let p = l.pipes id in
      record l { pipe_map = erase p.fd l.pipe_map; epoll = remove_fd K l.epoll p.fd }

  -- What `loop` does before its first wait, with the pipes of the eventfd and the timer.
  unfoldable pub loop_entry : Option ℕ → Option ℕ → Loop → Loop
  loop_entry event_pipe timer_pipe l =
      register_pipe_in_loop timer_pipe (register_pipe_in_loop event_pipe l)

  -- `TrantorEvent::trigEvent`, and `wakeup`.
  unfoldable pub trig_event : Loop → Loop
  trig_event l = record l { eventfd = l.eventfd + 1 }

  abbrev pub wakeup : Loop → Loop
  wakeup l = trig_event l

  -- `TrantorEvent::handleRead`: a read of an eventfd takes all that was written.
  unfoldable pub event_handle_read : Loop → Loop
  event_handle_read l = record l { eventfd = 0 }

  -- The second argument is `isInLoopThread()`.
  unfoldable pub queue_in_loop : Task U → Bool → Loop → Loop
  queue_in_loop t in_loop l =
      let queued = record l { loop_funcs_list = l.loop_funcs_list ++ (t ∷ []) } in
      if not in_loop || queued.need_wakeup then wakeup queued else queued

  module _ (run_user : U → Loop → Loop) where
    unfoldable pub run_task : Task U → Loop → Loop
    run_task (register_task p) l = register_pipe_in_loop p l
    run_task (update_task p) l = update_pipe_in_loop p l
    run_task (remove_task p) l = remove_pipe_in_loop p l
    run_task (user_task u) l = run_user u l

    -- `none` is an empty `std::function`.
    unfoldable pub run_in_loop : Option (Task U) → Bool → Loop → Loop
    run_in_loop none in_loop l = l
    run_in_loop (some t) in_loop l = if in_loop then run_task t l else queue_in_loop t in_loop l

    unfoldable pub register_pipe : Option ℕ → Bool → Loop → Loop
    register_pipe p = run_in_loop (some (register_task p))

    unfoldable pub update_pipe : Option ℕ → Bool → Loop → Loop
    update_pipe p = run_in_loop (some (update_task p))

    unfoldable pub remove_pipe : Option ℕ → Bool → Loop → Loop
    remove_pipe p = run_in_loop (some (remove_task p))

    unfoldable pub run_tasks : List (Task U) → Loop → Loop
    run_tasks [] l = l
    run_tasks (t ∷ ts) l = run_tasks ts (run_task t l)

    unfoldable pub run_loop_funcs : Loop → Loop
    run_loop_funcs l =
        let funcs = l.loop_funcs_list in
        let ran = run_tasks funcs (record l { need_wakeup = true; loop_funcs_list = [] }) in
        record ran { need_wakeup = false }

    -- The actions of a pipe; its log lines are left out here.
    unfoldable pub run_actions : List (Action U) → Loop → Loop
    run_actions [] l = l
    run_actions (Action.call u ∷ rest) l = run_actions rest (run_user u l)
    run_actions (_ ∷ rest) l = run_actions rest l

    unfoldable pub handle_events : List (ℕ × ℕ) → Loop → Loop
    handle_events [] l = l
    handle_events ((fd, revent) ∷ m) l = handle_events m (elim (find fd l.pipe_map) [
      | none ↦ l
      | some id ↦ run_actions (handle_event (l.pipes id) revent) l
    ])

    -- One round of `loop`, with what `epoll_wait` returns in it.
    unfoldable pub loop_round : Wait → Loop → Loop
    loop_round w l =
        let (event_map, size) = start_epoll w [] l.epoll.vec_size in
        run_loop_funcs
          (handle_events event_map (record l { epoll = record (l.epoll) { vec_size = size } }))
