-- ===== src/Aio/Operator.antt =====
-- FdOperator (src/aio/inc/FdOperator.h, src/aio/src/FdOperator.cc): a file that is read and written
-- through two buffers, in the thread of its loop, where `runInLoop` runs a task at once. What it
-- calls outside itself (the kernel, the loop, the FdOperatorManager) is recorded in `effects`, the
-- latest first. What a callback of the user does to the operator is the parameter `run_user`.
-- A path is its number, since paths are only compared.
pub mod Invariant
pub mod Idle
pub mod Steps
pub mod Stream
mod Examples
use Prim.Native.Nat.{bit_and, bit_or}
use trantor_net.Base.{
  ℕ, ◌+◌, ◌-◌, ◌==◌, ltb, leb, not, Bool, true, false, Option, none, some, List, [], ◌∷◌, ◌++◌,
  if◌then◌else◌,
}
use trantor_net.Tool.StringBuffer.{
  StringBuffer, new_buffer, write_buffer, read_buffer, get_readable_bytes,
}
use trantor_net.Net.Pipe.{complement, has_event}
use trantor_net.Tcp.Socket.{socket_write}

-- BUFFER_HIGH_WATER_LEVEL_THRESHOLD, 1024 * 64 * 64.
abbrev pub high_water_level : ℕ
high_water_level = 4194304

pub data Mode : Type 0 where
  read_mode write_mode write_append : Mode

pub data Whence : Type 0 where
  seek_set seek_cur seek_end : Whence

-- POLLIN | POLLPRI, and POLLOUT.
abbrev pub k_read_event : ℕ
k_read_event = 0x1 + 0x2

abbrev pub k_write_event : ℕ
k_write_event = 0x4

-- `U` is the type of the user's callbacks. The content and the Boolean that `fileReadFinishCb` gets,
-- and the Boolean of `fileWriteFinishCb`.
pub data Finish (U : Type 0) : Type 0 where
  read_finish : U → List ℕ → Bool → Finish U
  write_finish : U → Bool → Finish U

pub data Effect (U : Type 0) : Type 0 where
  accepted : List ℕ → Effect U  -- bytes that `writeFd` put into the output buffer
  sent : List ℕ → Effect U  -- bytes that the kernel took
  received : List ℕ → Effect U  -- bytes that came from the file
  finish : Finish U → Effect U
  wakeup trig_read insert_reader insert_writer erase_reader erase_writer : Effect U
  registered closed deleted : Effect U

-- `none` is the descriptor -1.
pub record Operator (U : Type 0) : Type 0 where
  pub fd : Option ℕ
  pub output_buffer : StringBuffer
  pub input_buffer : StringBuffer
  pub events : ℕ
  pub fd_mode : Mode
  pub file_path : ℕ
  pub file_read_finish_cb : Option U
  pub file_read_length : ℕ
  pub file_read_eof : Bool
  pub file_write_end : Bool
  pub registered_to_poll : Bool
  pub effects : List (Effect U)

abbrev pub is_writer : Mode → Bool
is_writer read_mode = false
is_writer _ = true

-- What the user asks of an operator, and what its loop tells it.
pub data Event (U : Type 0) : Type 0 where
  read_request : ℕ → U → Event U
  write_request : List ℕ → Option U → Event U
  close_request register_request : Event U
  read_event : Option (List ℕ) → Bool → Event U
  write_event : Option ℕ → Event U

module _ {U : Type 0} where
  -- The constructor leaves `fd_mode_` and `file_path_` as they are found.
  abbrev pub new_operator : Mode → ℕ → Operator U
  new_operator mode path = record {
    fd = none;
    output_buffer = new_buffer;
    input_buffer = new_buffer;
    events = 0;
    fd_mode = mode;
    file_path = path;
    file_read_finish_cb = none;
    file_read_length = 0;
    file_read_eof = false;
    file_write_end = false;
    registered_to_poll = false;
    effects = [];
  }

  abbrev pub note : Effect U → Operator U → Operator U
  note e o = record o { effects = e ∷ o.effects }

  abbrev pub wake : Bool → List (Effect U) → List (Effect U)
  wake registered_to_poll es = if registered_to_poll then wakeup ∷ es else es

  -- The four changes of what is waited for.
  unfoldable pub set_events : ℕ → Operator U → Operator U
  set_events events o = record o { events = events; effects = wake o.registered_to_poll o.effects }

  abbrev pub enable_reading : Operator U → Operator U
  enable_reading o = set_events (bit_or o.events k_read_event) o

  abbrev pub disable_reading : Operator U → Operator U
  disable_reading o = set_events (bit_and o.events (complement k_read_event)) o

  abbrev pub enable_writing : Operator U → Operator U
  enable_writing o = set_events (bit_or o.events k_write_event) o

  abbrev pub disable_writing : Operator U → Operator U
  disable_writing o = set_events (bit_and o.events (complement k_write_event)) o

  abbrev pub set_fd : ℕ → Operator U → Operator U
  set_fd fd o = record o { fd = some fd }

  unfoldable pub open_as : Mode → Operator U → Operator U
  unfolding set_events
  open_as read_mode o = note insert_reader (enable_reading o)
  open_as _ o = note insert_writer (enable_writing o)

  -- `openFd`, with what `open` returned: the result, and the operator after.
  unfoldable pub open_fd : Option ℕ → ℕ → Mode → Operator U → Bool × Operator U
  unfolding open_as
  open_fd none path mode o = (false, record o { fd = none })
  open_fd (some fd) path mode o =
      if ltb 0 fd
      then (true, open_as mode (record o { fd = some fd; file_path = path; fd_mode = mode }))
      else (false, record o { fd = some fd })

  abbrev pub register_fd : Operator U → Operator U
  register_fd o = note registered (record o { registered_to_poll = true })

  -- `seekFd`: `none` is the result -1.
  unfoldable pub seek_fd : (ℕ → Whence → Option ℕ) → ℕ → Whence → Operator U → Option ℕ
  seek_fd lseek offset whence o = if o.registered_to_poll then none else lseek offset whence

  unfoldable pub clear_fd : Operator U → Operator U
  clear_fd o =
      note deleted
        (note closed (note (if is_writer o.fd_mode then erase_writer else erase_reader) o))

  -- `closeFd`.
  unfoldable pub close_fd : Operator U → Operator U
  unfolding clear_fd
  close_fd o =
      if is_writer o.fd_mode
      then if get_readable_bytes o.output_buffer == 0
        then clear_fd o
        else record o { file_write_end = true }
      else clear_fd o

  -- `if(n > 0)`, of a 64-bit word.
  unfoldable pub trig : Option ℕ → List ℕ → List (Effect U) → List (Effect U)
  trig none bytes es = trig_read ∷ es
  trig (some n) [] es = es
  trig (some n) (x ∷ bytes) es = trig_read ∷ es

  -- `handleWrite`, with the result of `write`, which is used as in SocketOperator.
  unfoldable pub handle_write : Option ℕ → Operator U → Operator U
  unfolding clear_fd set_events trig
  handle_write res o =
      let (bytes, b) = socket_write res o.output_buffer in
      let o' : Operator U = record o {
        output_buffer = b;
        effects = trig res bytes (sent bytes ∷ o.effects);
      } in
      if get_readable_bytes b == 0
      then if o.file_write_end then clear_fd (disable_writing o') else disable_writing o'
      else o'

  module _ (grow : ℕ → ℕ → ℕ) (run_user : Finish U → Operator U → Operator U) where
    abbrev pub call : Finish U → Operator U → Operator U
    call f o = run_user f (note (finish f) o)

    -- `readFd`, with a callback that is not null.
    unfoldable pub read_fd : ℕ → U → Operator U → Operator U
    unfolding set_events
    read_fd length cb o =
        let (content, size, b) = read_buffer o.input_buffer length in
        let o' : Operator U = record o { input_buffer = b } in
        let told =
          if o.file_read_eof
          then call (read_finish cb content (get_readable_bytes b == 0)) o'
          else if not (size == 0)
          then call (read_finish cb content false) o'
          else record o' { file_read_length = length; file_read_finish_cb = some cb } in
        if leb high_water_level (get_readable_bytes told.input_buffer)
        then enable_reading told
        else told

    abbrev pub call_write : Option U → Bool → Operator U → Operator U
    call_write none ok o = o
    call_write (some cb) ok o = call (write_finish cb ok) o

    -- `writeFd`.
    unfoldable pub write_fd : List ℕ → Option U → Operator U → Operator U
    unfolding set_events
    write_fd data_bytes cb o =
        let put =
          if ltb (get_readable_bytes o.output_buffer) high_water_level
          then call_write cb true (record o {
            output_buffer = write_buffer grow o.output_buffer data_bytes;
            effects = accepted data_bytes ∷ o.effects;
          })
          else o in
        if ltb 0 (get_readable_bytes put.output_buffer) then enable_writing put else put

    -- The end of `handleRead`: the waiting callback gets what there is.
    unfoldable pub deliver : Option U → Operator U → Operator U
    deliver none o = o
    deliver (some cb) o =
        let (content, size, b) = read_buffer o.input_buffer o.file_read_length in
        let called =
          call (read_finish cb content o.file_read_eof) (record o { input_buffer = b }) in
        record called { file_read_finish_cb = none }

    -- Bytes that came from the file.
    unfoldable pub put_in : List ℕ → Operator U → Operator U
    unfolding set_events
    put_in bytes o =
        let o' : Operator U = record o {
          input_buffer = write_buffer grow o.input_buffer bytes;
          effects = received bytes ∷ o.effects;
        } in
        if leb high_water_level (get_readable_bytes o'.input_buffer) then disable_reading o' else o'

    -- The end of the file, which counts only when `waitToWrite` says that nobody writes it.
    unfoldable pub at_end : Bool → Operator U → Operator U
    unfolding set_events deliver
    at_end waits o =
        let o' = disable_reading o in
        if waits then o' else deliver o'.file_read_finish_cb (record o' { file_read_eof = true })

    unfoldable pub take_in : Option (List ℕ) → Bool → Operator U → Option (Operator U)
    unfolding put_in at_end deliver
    take_in none waits o = none
    take_in (some []) waits o = some (at_end waits o)
    take_in (some (x ∷ bytes)) waits o =
        let o' = put_in (x ∷ bytes) o in some (deliver o'.file_read_finish_cb o')

    -- `handleRead`, with what `read` returned. The result -1 of `read` is not seen, and leads to an
    -- undefined copy of 2^64 - 1 bytes: `none`.
    unfoldable pub handle_read : Option (List ℕ) → Bool → Operator U → Option (Operator U)
    unfolding take_in
    handle_read res waits o =
        if ltb (get_readable_bytes o.input_buffer) high_water_level
        then take_in res waits o
        else some o

    unfoldable pub write_if : Bool → Option ℕ → Operator U → Operator U
    unfolding handle_write
    write_if ready res o = if ready then handle_write res o else o

    -- `handleEvents`, with what the calls in the two handlers return.
    unfoldable pub handle_events :
        ℕ → Option (List ℕ) → Bool → Option ℕ → Operator U → Option (Operator U)
    unfolding handle_read write_if
    handle_events revents read_res waits write_res o =
        if has_event revents 0x1
        then elim (handle_read read_res waits o) [
          | none ↦ none
          | some o' ↦ some (write_if (has_event revents 0x4) write_res o')
        ]
        else some (write_if (has_event revents 0x4) write_res o)

    unfoldable pub handle : Event U → Operator U → Option (Operator U)
    unfolding read_fd write_fd close_fd handle_read handle_write
    handle (read_request length cb) o = some (read_fd length cb o)
    handle (write_request data_bytes cb) o = some (write_fd data_bytes cb o)
    handle close_request o = some (close_fd o)
    handle register_request o = some (register_fd o)
    handle (read_event res waits) o = handle_read res waits o
    handle (write_event res) o = some (handle_write res o)
