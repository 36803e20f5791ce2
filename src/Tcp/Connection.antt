-- ===== src/Tcp/Connection.antt =====
-- TcpConnection (src/tcp/inc/TcpConnection.h, src/tcp/src/TcpConnection.cc), in the thread of its
-- loop, where `runInLoop` runs a task at once. What it calls outside itself (the kernel, the loop,
-- the callbacks of its user) is recorded in `effects`, the latest first; what a user's callback calls
-- on the connection comes as further events.
pub mod Invariant
pub mod Steps
pub mod Stream
mod Examples
use trantor_net.Base.{
  ℕ, ◌==◌, ltb, Bool, true, false, Option, none, some, List, [], ◌∷◌, ◌++◌, if◌then◌else◌,
}
use trantor_net.Tool.StringBuffer.{
  StringBuffer, new_buffer, write_buffer, retrieve, get_readable_bytes,
}
use trantor_net.Net.Pipe.{
  Pipe, new_pipe, set_read_cb, set_write_cb, enable_read, enable_write, disable_write,
}
use trantor_net.Tcp.Socket.{Call, socket_write, socket_read}

-- What the two callbacks of the pipe are bound to.
pub data Handler : Type 0 where
  read_callback write_callback : Handler

-- What `shutdown_write_callback_` holds.
pub data Pending : Type 0 where
  half_close full_close : Pending

-- `U` is the type of the user's callbacks.
pub data Effect (U : Type 0) : Type 0 where
  wrote : List ℕ → Effect U  -- bytes that `write` was given
  sent : List ℕ → Effect U  -- bytes that the kernel took
  received : List ℕ → Effect U
  update_pipe remove_pipe register_pipe : Effect U
  message : U → Effect U
  closed : U → Effect U
  half_closed : Effect U  -- `::shutdown(fd, SHUT_WR)`

pub record Connection (U : Type 0) : Type 0 where
  pub fd : ℕ
  pub pipe : Pipe Handler
  pub read_buffer : StringBuffer
  pub write_buffer : StringBuffer
  pub read_cb : Option U
  pub closed_cb : Option U
  pub shutdown_write_callback : Option Pending
  pub connection_id : ℕ
  pub effects : List (Effect U)

-- What the server and the user ask of the connection.
pub data Request (U : Type 0) : Type 0 where
  on_message on_closed : U → Request U
  start_reading start_writing register unregister : Request U
  write : List ℕ → Request U
  retrieve_read : ℕ → Request U
  shutdown force_close : Request U

pub data Event (U : Type 0) : Type 0 where
  readable : Option (List ℕ) → Event U
  writable : Option ℕ → Event U
  request : Request U → Event U

module _ {U : Type 0} where
  abbrev pub new_connection : ℕ → ℕ → Connection U
  new_connection fd connection_id = record {
    fd = fd;
    pipe = set_write_cb write_callback (set_read_cb read_callback (new_pipe fd));
    read_buffer = new_buffer;
    write_buffer = new_buffer;
    read_cb = none;
    closed_cb = none;
    shutdown_write_callback = none;
    connection_id = connection_id;
    effects = [];
  }

  abbrev pub set_read_callback : U → Connection U → Connection U
  set_read_callback u c = record c { read_cb = some u }

  abbrev pub set_closed_callback : U → Connection U → Connection U
  set_closed_callback u c = record c { closed_cb = some u }

  abbrev pub enable_read_conn : Connection U → Connection U
  enable_read_conn c = record c { pipe = enable_read c.pipe }

  abbrev pub enable_write_conn : Connection U → Connection U
  enable_write_conn c = record c { pipe = enable_write c.pipe }

  abbrev pub register_into_loop : Connection U → Connection U
  register_into_loop c = record c { effects = register_pipe ∷ c.effects }

  abbrev pub unregister_from_loop : Connection U → Connection U
  unregister_from_loop c = record c { effects = remove_pipe ∷ c.effects }

  -- The call of a user's callback, if there is one.
  unfoldable pub tell : Option U → (U → Effect U) → Connection U → Connection U
  tell none call c = c
  tell (some u) call c = record c { effects = call u ∷ c.effects }

  unfoldable pub call_closed : Connection U → Connection U
  unfolding tell
  call_closed c = tell c.closed_cb closed c

  unfoldable pub closed_by_peer : Connection U → Connection U
  unfolding call_closed
  closed_by_peer c = call_closed (unregister_from_loop c)

  unfoldable pub half_close_now : Connection U → Connection U
  half_close_now c = record c { effects = half_closed ∷ c.effects }

  -- `shutdown_write_callback_()` if it is set, and then `= NULL`.
  unfoldable pub run_pending : Option Pending → Connection U → Connection U
  unfolding half_close_now call_closed
  run_pending none c = c
  run_pending (some half_close) c = record (half_close_now c) { shutdown_write_callback = none }
  run_pending (some full_close) c = record (call_closed c) { shutdown_write_callback = none }

  unfoldable pub shutdown_write_in_loop : Connection U → Connection U
  unfolding half_close_now
  shutdown_write_in_loop c =
      if ltb 0 (get_readable_bytes c.write_buffer)
      then record c { shutdown_write_callback = some half_close }
      else half_close_now c

  unfoldable pub force_close_in_loop : Connection U → Connection U
  unfolding call_closed
  force_close_in_loop c =
      if ltb 0 (get_readable_bytes c.write_buffer)
      then record c { shutdown_write_callback = some full_close }
      else call_closed c

  -- `writeCallback`, with the result of `::write`.
  unfoldable pub handle_writable : Option ℕ → Connection U → Connection U
  unfolding run_pending
  handle_writable res c =
      let (bytes, b) = socket_write res c.write_buffer in
      let c' : Connection U = record c { write_buffer = b; effects = sent bytes ∷ c.effects } in
      if get_readable_bytes b == 0
      then run_pending c.shutdown_write_callback
          (record c' { pipe = disable_write c'.pipe; effects = update_pipe ∷ c'.effects })
      else c'

  -- The destructor.
  unfoldable pub destroy : Connection U → List Call
  destroy c = if ltb 0 c.fd then Call.close c.fd ∷ [] else []

  module _ (grow : ℕ → ℕ → ℕ) where
    unfoldable pub write_conn : List ℕ → Connection U → Connection U
    write_conn bytes c = record c {
      write_buffer = write_buffer grow c.write_buffer bytes;
      pipe = enable_write c.pipe;
      effects = update_pipe ∷ wrote bytes ∷ c.effects;
    }

    -- The read callback of the user is called behind the bytes; no bytes, or -1, close.
    unfoldable pub handle_readable : Option (List ℕ) → Connection U → Connection U
    unfolding closed_by_peer socket_read tell
    handle_readable none c = closed_by_peer c
    handle_readable (some []) c = closed_by_peer c
    handle_readable (some (x ∷ bytes)) c =
        let c' : Connection U = record c {
          read_buffer = socket_read grow (some (x ∷ bytes)) c.read_buffer;
          effects = received (x ∷ bytes) ∷ c.effects;
        } in
        tell c.read_cb message c'

    unfoldable pub serve : Request U → Connection U → Connection U
    unfolding write_conn shutdown_write_in_loop force_close_in_loop
    serve (on_message u) c = set_read_callback u c
    serve (on_closed u) c = set_closed_callback u c
    serve start_reading c = enable_read_conn c
    serve start_writing c = enable_write_conn c
    serve register c = register_into_loop c
    serve unregister c = unregister_from_loop c
    serve (write bytes) c = write_conn bytes c
    serve (retrieve_read n) c = record c { read_buffer = retrieve c.read_buffer n }
    serve shutdown c = shutdown_write_in_loop c
    serve force_close c = force_close_in_loop c

    unfoldable pub handle : Event U → Connection U → Connection U
    unfolding handle_readable handle_writable serve
    handle (readable res) c = handle_readable res c
    handle (writable res) c = handle_writable res c
    handle (request r) c = serve r c
