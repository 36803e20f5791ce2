-- ===== src/Tcp/Server.antt =====
-- TcpServer (src/tcp/inc/TcpServer.h, src/tcp/src/TcpServer.cc) and TcpAcceptor
-- (src/tcp/inc/TcpAcceptor.h, src/tcp/src/TcpAcceptor.cc): the connections of a server, from the
-- accept to the end of their last owner.
-- Connections are shared objects: `connections` is the heap of them, `born` is the next free place,
-- and `homes` says which loop of the pool a connection lives in, `none` being the main loop.
-- `registered` are the connections whose pipe a loop holds. A pipe calls its connection through a
-- bare pointer.
pub mod Invariant
pub mod Conduct
pub mod Tidy
pub mod Owners
pub mod Kept
pub mod Leaks
pub mod Dangling
mod Examples
use trantor_net.Base.{
  ℕ, suc, ◌+◌, ◌==◌, ltb, Bool, true, false, not, ◌||◌, Option, none, some, List, [], ◌∷◌, ◌++◌,
  if◌then◌else◌, contains, without,
}
use trantor_net.Net.Loop.{find, put, erase}
use trantor_net.Net.LoopPool.{LoopPool, get_next_loop}
use trantor_net.Net.Pipe.{Pipe, new_pipe, set_read_cb, enable_read}
use trantor_net.Tcp.Connection.{
  Effect, message, closed, remove_pipe, register_pipe, Connection, Event, new_connection,
  set_read_callback, set_closed_callback, enable_read_conn, enable_write_conn, register_into_loop,
  handle,
}

-- What the server binds to the callbacks of a connection, and what a user puts in their place.
pub data Callback : Type 0 where
  message_bound close_bound user_bound : Callback

-- The calls of the callbacks of the server's user.
pub data Told : Type 0 where
  new_connection_told new_message_told : ℕ → Told

pub data Acceptance : Type 0 where
  read_socket_bound : Acceptance

pub record Server : Type 0 where
  pub work_loop_pool : Option LoopPool
  pub connections : ℕ → Connection Callback
  pub homes : ℕ → Option ℕ
  pub born : ℕ
  pub tcp_connection_map : List (ℕ × ℕ)
  pub registered : List ℕ
  pub close_tasks : List ℕ  -- `closeCallbackInMainLoop`, bound to a connection, in the main loop
  pub told : List Told

abbrev pub new_server : Option LoopPool → Server
new_server pool = record {
  work_loop_pool = pool;
  connections = λ j. new_connection 0 0;
  homes = λ j. none;
  born = 0;
  tcp_connection_map = [];
  registered = [];
  close_tasks = [];
  told = [];
}

-- The heap with an object changed.
unfoldable pub update {ℓ} : {A : Type ℓ} → ℕ → A → (ℕ → A) → ℕ → A
update i v f j = if i == j then v else f j

unfoldable pub close_callback_in_main_loop : ℕ → Server → Server
close_callback_in_main_loop o s = record s {
  tcp_connection_map = erase (s.connections o).connection_id s.tcp_connection_map;
}

-- `closeCallback`: `runInLoop` of the main loop, which runs the task at once in its own thread.
unfoldable pub close_callback : ℕ → Server → Server
unfolding close_callback_in_main_loop
close_callback o s = elim (s.homes o) [
  | none ↦ close_callback_in_main_loop o s
  | some _ ↦ record s { close_tasks = s.close_tasks ++ (o ∷ []) }
]

-- A message reaches the user of the server by the callback that the server bound.
abbrev pub told_message : Callback → ℕ → List Told → List Told
told_message message_bound o told = new_message_told o ∷ told
told_message _ o told = told

-- What the loop and the server do at a call of a connection. A callback of the user does nothing here.
unfoldable pub react : ℕ → Effect Callback → Server → Server
unfolding close_callback
react o register_pipe s = record s { registered = o ∷ s.registered }
react o remove_pipe s = record s { registered = without o s.registered }
react o (message u) s = record s { told = told_message u o s.told }
react o (closed close_bound) s = close_callback o s
react o _ s = s

-- The latest call is the first of the list.
unfoldable pub react_all : ℕ → List (Effect Callback) → Server → Server
unfolding react
react_all o [] s = s
react_all o (e ∷ es) s = react o e (react_all o es s)

unfoldable pub store : ℕ → Connection Callback → Server → Server
unfolding update
store o c s = record s { connections = update o c s.connections }

unfoldable pub new_connection_callback : ℕ → Connection Callback → Server → Server
unfolding store react_all
new_connection_callback o fresh s =
    let c = enable_write_conn (
      enable_read_conn (set_closed_callback close_bound (set_read_callback message_bound fresh))) in
    let told : Server = record s { told = new_connection_told o ∷ s.told } in
    let stored = store o c told in
    let mapped : Server = record stored {
      tcp_connection_map = put c.connection_id o stored.tcp_connection_map;
    } in
    react_all o (register_into_loop c).effects mapped

-- The loop for a new connection, and the pool after; the outer `none` is the division by zero of an
-- empty pool.
unfoldable pub next_home : Option LoopPool → Option (Option ℕ × Option LoopPool)
next_home none = some (none, none)
next_home (some pool) = elim (get_next_loop pool) [
  | none ↦ none
  | some (loop, rest) ↦ some (some loop, some rest)
]

-- A connection for the socket, in the next loop, with the id that `getuuid` returned.
unfoldable pub make_connection : ℕ → ℕ → Option ℕ × Option LoopPool → Server → Server
unfolding new_connection_callback
make_connection sockfd uuid (home, pool) s =
    new_connection_callback s.born (new_connection sockfd uuid)
      (record s { work_loop_pool = pool; homes = update s.born home s.homes; born = s.born + 1 })

-- `readSocket`, with what `accept` returned.
unfoldable pub read_socket : Option ℕ → ℕ → Server → Option Server
unfolding make_connection next_home
read_socket none uuid s = some s
read_socket (some sockfd) uuid s =
    if ltb 0 sockfd
    then elim (next_home s.work_loop_pool) [
      | none ↦ none
      | some home ↦ some (make_connection sockfd uuid home s)
    ]
    else some s

-- The first close task of the main loop.
unfoldable pub run_close : Server → Server
unfolding close_callback_in_main_loop
run_close s = elim s.close_tasks [
  | [] ↦ s
  | o ∷ rest ↦ close_callback_in_main_loop o (record s { close_tasks = rest })
]

-- `TcpAcceptor::init`, with what the three calls return: whether the result is negative, and the
-- listening pipe. Behind the last call the function has no `return`; `stray` is what its caller
-- then finds.
unfoldable pub acceptor_init :
    Option ℕ → Option ℕ → Option ℕ → Bool → Bool × Option (Pipe Acceptance)
acceptor_init none bound listened stray = (true, none)
acceptor_init (some listener) none listened stray = (true, none)
acceptor_init (some listener) (some _) none stray = (true, none)
acceptor_init (some listener) (some _) (some _) stray =
    (stray, some (set_read_cb read_socket_bound (new_pipe listener)))

-- `TcpServer::init`: the pipe that is registered in the main loop, or `none` for the result -1.
unfoldable pub server_init : Bool × Option (Pipe Acceptance) → Option (Pipe Acceptance)
server_init (true, p) = none
server_init (false, none) = none
server_init (false, some p) = some (enable_read p)

module _ (grow : ℕ → ℕ → ℕ) where
  -- An event of a connection, and what it makes the loop and the server do.
  unfoldable pub connection_event : ℕ → Event Callback → Server → Server
  unfolding store react_all
  connection_event o e s =
      let c = handle grow e (record (s.connections o) { effects = [] }) in
      react_all o c.effects (store o c s)
