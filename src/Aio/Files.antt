-- ===== src/Aio/Files.antt =====
-- The operators, the manager and the poll together: FdOperator (src/aio/src/FdOperator.cc) with what
-- its calls do to FdOperatorManager (src/aio/src/FdOperatorManager.cc) and FdPoll
-- (src/aio/src/FdPoll.cc).
-- Operators are shared objects: `operators` is the heap of them. A handler notes what it calls in
-- `effects`, and `react` does it, in the order of the calls. What a callback asks of other operators
-- are calls of their own.
pub mod Keeps
pub mod Standing
pub mod Entries
pub mod Managed
pub mod Watching
pub mod Alert
pub mod Opening
pub mod Reached
pub mod Outcome
mod Examples
use trantor_net.Base.{ℕ, ◌-◌, Bool, Option, none, some, List, [], ◌∷◌, length, take, if◌then◌else◌}
use trantor_net.Aio.Operator.{
  Mode, Finish, Effect, insert_reader, insert_writer, erase_reader, erase_writer, trig_read,
  registered, deleted, wakeup, Operator, new_operator, read_mode, Event, read_request,
  write_request, close_request, register_request, read_event, write_event, enable_reading, open_fd,
  handle,
}
use trantor_net.Aio.Manager.{
  Manager, new_manager, insert_write_fdop, insert_read_fdop, erase_write_fdop, erase_read_fdop,
  wait_to_write, trig_read_event,
}
use trantor_net.Aio.Poll.{FdPoll, register_fd_in_loop, delete_fd_in_loop, fd_wakeup}
use trantor_net.Tcp.Server.{update}

pub record Files (U : Type 0) : Type 0 where
  pub operators : ℕ → Operator U
  pub manager : Manager
  pub poll : FdPoll

-- The calls of an operator but `openFd`, with what the kernel returns.
pub data Call (U : Type 0) : Type 0 where
  read_call : ℕ → U → Call U
  write_call : List ℕ → Option U → Call U
  close_call register_call : Call U
  readable : Option (List ℕ) → Call U
  writable : Option ℕ → Call U

-- `(uint64_t)getFd()`, where `none` is -1.
abbrev pub key_of : Option ℕ → ℕ
key_of none = 18446744073709551615
key_of (some fd) = fd

module _ {U : Type 0} where
  abbrev pub new_files : FdPoll → Files U
  new_files poll = record {
    operators = λ id. new_operator read_mode 0;
    manager = new_manager;
    poll = poll;
  }

  abbrev pub get_fd : Files U → ℕ → ℕ
  get_fd w id = key_of (w.operators id).fd

  -- `for(auto item : ...) item->enableReading()`
  unfoldable pub wake_readers : List ℕ → (ℕ → Operator U) → ℕ → Operator U
  wake_readers [] operators = operators
  wake_readers (id ∷ ids) operators =
      wake_readers ids (update id (enable_reading (operators id)) operators)

  -- What these calls tell the loop.
  unfoldable pub signal_readers : List ℕ → (ℕ → Operator U) → FdPoll → FdPoll
  unfolding fd_wakeup
  signal_readers [] operators poll = poll
  signal_readers (id ∷ ids) operators poll =
      signal_readers ids operators
        (if (operators id).registered_to_poll then fd_wakeup poll else poll)

  -- What a call of an operator does outside it.
  unfoldable pub react : ℕ → Effect U → Files U → Files U
  unfolding wake_readers signal_readers
  react id insert_writer w = record w {
    manager = insert_write_fdop (w.operators id).file_path id w.manager;
  }
  react id insert_reader w = record w {
    manager = insert_read_fdop (w.operators id).file_path id w.manager;
  }
  react id erase_writer w =
      let (after, woken) = erase_write_fdop (w.operators id).file_path id w.manager in
      record w {
        manager = after;
        operators = wake_readers woken w.operators;
        poll = signal_readers woken w.operators w.poll;
      }
  react id erase_reader w = record w {
    manager = erase_read_fdop (w.operators id).file_path id w.manager;
  }
  react id trig_read w =
      let woken = trig_read_event (w.operators id).file_path w.manager in
      record w {
        operators = wake_readers woken w.operators;
        poll = signal_readers woken w.operators w.poll;
      }
  react id wakeup w = record w { poll = fd_wakeup w.poll }
  react id registered w = record w { poll = register_fd_in_loop (get_fd w) (some id) w.poll }
  react id deleted w = record w { poll = delete_fd_in_loop (get_fd w) (some id) w.poll }
  react id _ w = w

  -- The latest call is the first of the list.
  unfoldable pub react_all : ℕ → List (Effect U) → Files U → Files U
  unfolding react
  react_all id [] w = w
  react_all id (e ∷ es) w = react id e (react_all id es w)

  -- What was noted between the two states of an operator.
  unfoldable pub noted : List (Effect U) → List (Effect U) → List (Effect U)
  noted before after = take (length after - length before) after

  unfoldable pub change : ℕ → Operator U → Files U → Files U
  unfolding react_all noted
  change id o w =
      react_all id (noted (w.operators id).effects o.effects)
        (record w { operators = update id o w.operators })

  -- `openFd`, with what `open` returned.
  unfoldable pub open_file : ℕ → Option ℕ → ℕ → Mode → Files U → Files U
  unfolding change
  open_file id res path mode w = change id (open_fd res path mode (w.operators id)).1 w

  abbrev pub event_of : Call U → Bool → Event U
  event_of (read_call n cb) waits = read_request n cb
  event_of (write_call bytes cb) waits = write_request bytes cb
  event_of close_call waits = close_request
  event_of register_call waits = register_request
  event_of (readable res) waits = read_event res waits
  event_of (writable res) waits = write_event res

  module _ (grow : ℕ → ℕ → ℕ) (run_user : Finish U → Operator U → Operator U) where
    unfoldable pub changed : ℕ → Option (Operator U) → Files U → Option (Files U)
    unfolding change
    changed id none w = none
    changed id (some o) w = some (change id o w)

    -- A call of an operator; at the end of a file `waitToWrite` is asked.
    unfoldable pub call_file : ℕ → Call U → Files U → Option (Files U)
    unfolding changed
    call_file id c w =
        let o = w.operators id in
        changed id (handle grow run_user (event_of c (wait_to_write o.file_path w.manager)) o) w
