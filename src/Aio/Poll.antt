-- ===== src/Aio/Poll.antt =====
-- FdPoll, FdLoop and FdLoopPool (src/aio/inc/FdPoll.h, src/aio/src/FdPoll.cc, src/aio/inc/FdLoop.h,
-- src/aio/src/FdLoop.cc, src/aio/src/FdLoopPool.cc): the loop of the asynchronous files. An operator
-- is its number, and `none` is the null pointer. What an operator's `handleEvents` and a user's task
-- do to the loop are the parameters `run_operator` and `run_user`. `called` lists the operators that
-- were called for a descriptor, with the ready events, the latest first.
pub mod Keyed
mod Examples
use trantor_net.Base.{
  ℕ, ◌+◌, ◌==◌, ltb, not, ◌&&◌, ◌||◌, Bool, true, false, Option, none, some, List, [], ◌∷◌, ◌++◌,
  map, get_elem?, if◌then◌else◌,
}
use trantor_net.Net.Loop.{find, put, erase}

pub record FdPoll : Type 0 where
  pub wakeup_fd : ℕ
  pub signals : ℕ  -- what has been written to the eventfd and not read
  pub fd_map : List (ℕ × Option ℕ)

pub data FdTask (U : Type 0) : Type 0 where
  register_task delete_task : Option ℕ → FdTask U
  user_task : U → FdTask U

pub record FdCall : Type 0 where
  pub fd : ℕ
  pub operator : ℕ
  pub revents : ℕ

pub record FdLoop (U : Type 0) : Type 0 where
  pub poll : FdPoll
  pub funcs_list : List (FdTask U)
  pub need_wakeup : Bool
  pub called : List FdCall

abbrev pub new_fd_loop : {U : Type 0} → ℕ → FdLoop U
new_fd_loop eventfd = record {
  poll = record { wakeup_fd = eventfd; signals = 0; fd_map = [] };
  funcs_list = [];
  need_wakeup = false;
  called = [];
}

-- `getLoop` of a pool whose current index is never changed.
unfoldable pub get_loop : List ℕ → ℕ → Option ℕ
get_loop loop_vec loop_num = if ltb 0 loop_num then get_elem? loop_vec 0 else none

unfoldable pub fd_wakeup : FdPoll → FdPoll
fd_wakeup p = record p { signals = p.signals + 1 }

-- `fd_of` is `getFd`.
module _ (fd_of : ℕ → ℕ) where
  unfoldable pub register_fd_in_loop : Option ℕ → FdPoll → FdPoll
  register_fd_in_loop none p = p
  register_fd_in_loop (some id) p = record p { fd_map = put (fd_of id) (some id) p.fd_map }

  unfoldable pub delete_fd_in_loop : Option ℕ → FdPoll → FdPoll
  delete_fd_in_loop none p = p
  delete_fd_in_loop (some id) p = record p { fd_map = erase (fd_of id) p.fd_map }

  -- The descriptors and the events to wait for; a null pointer is passed over.
  unfoldable pub polled : (ℕ → ℕ) → List (ℕ × Option ℕ) → List (ℕ × ℕ)
  polled get_events [] = []
  polled get_events ((k, none) ∷ m) = polled get_events m
  polled get_events ((k, some id) ∷ m) = (fd_of id, get_events id) ∷ polled get_events m

  -- `initEvents`, the eventfd first, with POLLIN | POLLPRI.
  unfoldable pub init_events : (ℕ → ℕ) → FdPoll → List (ℕ × ℕ)
  unfolding polled
  init_events get_events p = (p.wakeup_fd, 0x1 + 0x2) ∷ polled get_events p.fd_map

  module _ {U : Type 0} (run_operator : ℕ → ℕ → FdLoop U → FdLoop U)
      (run_user : U → FdLoop U → FdLoop U) where
    -- The entry of a descriptor; `fd_map_[fd]` inserts a null pointer where there is none.
    unfoldable pub call_operator : Option (Option ℕ) → ℕ → ℕ → FdLoop U → FdLoop U
    call_operator none fd revents l = record l {
      poll = record (l.poll) { fd_map = put fd none l.poll.fd_map };
    }
    call_operator (some none) fd revents l = l
    call_operator (some (some id)) fd revents l =
        if ltb 0 revents
        then run_operator id revents
            (record l { called = record { fd = fd; operator = id; revents = revents } ∷ l.called })
        else l

    unfoldable pub dispatch : ℕ → ℕ → FdLoop U → FdLoop U
    unfolding call_operator
    dispatch fd revents l =
        if (fd == l.poll.wakeup_fd) && not (revents == 0)
        then record l { poll = record (l.poll) { signals = 0 } }
        else call_operator (find fd l.poll.fd_map) fd revents l

    -- `FdPoll::handleEvents`.
    unfoldable pub handle_poll_events : List (ℕ × ℕ) → FdLoop U → FdLoop U
    unfolding dispatch
    handle_poll_events [] l = l
    handle_poll_events ((fd, revents) ∷ rest) l = handle_poll_events rest (dispatch fd revents l)

    -- `startPoll`, with what `poll` returns: an error, a timeout, or the ready events of each
    -- descriptor.
    unfoldable pub start_poll : Option (ℕ → ℕ) → (ℕ → ℕ) → FdLoop U → FdLoop U
    unfolding init_events handle_poll_events
    start_poll none get_events l = l
    start_poll (some ready) get_events l =
        handle_poll_events (map (λ (e : ℕ × ℕ). (e.0, ready e.0)) (init_events get_events l.poll)) l

    unfoldable pub run_fd_task : FdTask U → FdLoop U → FdLoop U
    unfolding register_fd_in_loop delete_fd_in_loop
    run_fd_task (register_task id) l = record l { poll = register_fd_in_loop id l.poll }
    run_fd_task (delete_task id) l = record l { poll = delete_fd_in_loop id l.poll }
    run_fd_task (user_task u) l = run_user u l

    -- The second argument is `isInLoopThread()`.
    unfoldable pub queue_in_fd_loop : FdTask U → Bool → FdLoop U → FdLoop U
    unfolding fd_wakeup
    queue_in_fd_loop t in_loop l =
        let queued : FdLoop U = record l { funcs_list = l.funcs_list ++ (t ∷ []) } in
        if not in_loop || queued.need_wakeup
        then record queued { poll = fd_wakeup queued.poll }
        else queued

    unfoldable pub run_in_fd_loop : Option (FdTask U) → Bool → FdLoop U → FdLoop U
    unfolding run_fd_task queue_in_fd_loop
    run_in_fd_loop none in_loop l = l
    run_in_fd_loop (some t) true l = run_fd_task t l
    run_in_fd_loop (some t) false l = queue_in_fd_loop t false l

    unfoldable pub run_fd_tasks : List (FdTask U) → FdLoop U → FdLoop U
    unfolding run_fd_task
    run_fd_tasks [] l = l
    run_fd_tasks (t ∷ ts) l = run_fd_tasks ts (run_fd_task t l)

    unfoldable pub run_funcs : FdLoop U → FdLoop U
    unfolding run_fd_tasks
    run_funcs l =
        let ran = run_fd_tasks l.funcs_list (record l { need_wakeup = true; funcs_list = [] }) in
        record ran { need_wakeup = false }

    -- One turn of `threadFunc`.
    unfoldable pub fd_loop_round : Option (ℕ → ℕ) → (ℕ → ℕ) → FdLoop U → FdLoop U
    unfolding start_poll run_funcs
    fd_loop_round ready get_events l = run_funcs (start_poll ready get_events l)
