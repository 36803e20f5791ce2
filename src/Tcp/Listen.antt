-- ===== src/Tcp/Listen.antt =====
-- Setting up a server: TcpServer (src/tcp/inc/TcpServer.h, src/tcp/src/TcpServer.cc) and TcpAcceptor
-- (src/tcp/inc/TcpAcceptor.h, src/tcp/src/TcpAcceptor.cc) up to the main loop, and the sockets that
-- they accept there, one after the other. What follows a null pointer is `none`.
pub mod Placement
mod Examples
use trantor_net.Base.{ℕ, Bool, true, false, Option, none, some, List, [], ◌∷◌, if◌then◌else◌}
use trantor_net.Net.Pipe.{Pipe, enable_read}
use trantor_net.Net.LoopPool.{LoopPool, new_loop_pool}
use trantor_net.Tcp.Server.{Acceptance, acceptor_init, Server, new_server, read_socket}

-- What the server binds to the callback of its acceptor.
pub data Accepted : Type 0 where
  new_connection_bound : Accepted

pub record Acceptor : Type 0 where
  pub trantor_pipe : Option (Pipe Acceptance)
  pub read_callback : Option Accepted
  pub work_thread_pool : Option LoopPool

-- `main_loop` says whether there is one, and `handed_pipes` are the pipes that the server
-- has given to its `registerPipe`; the loop may hold others, as those of its eventfd and timerfd.
pub record Host : Type 0 where
  pub main_loop : Bool
  pub handed_pipes : List (Pipe Acceptance)
  pub looping : Bool
  pub work_loop_pool : Option LoopPool
  pub acceptor : Option Acceptor

abbrev pub new_acceptor : Acceptor
new_acceptor = record { trantor_pipe = none; read_callback = none; work_thread_pool = none }

-- The two constructors, with a loop and without.
abbrev pub new_host : Bool → Host
new_host main_loop = record {
  main_loop = main_loop;
  handed_pipes = [];
  looping = false;
  work_loop_pool = none;
  acceptor = none;
}

unfoldable pub set_work_thread_num : ℕ → Host → Host
set_work_thread_num thread_num h = record h { work_loop_pool = some (new_loop_pool thread_num) }

abbrev pub set_accept_callback : Accepted → Acceptor → Acceptor
set_accept_callback cb a = record a { read_callback = some cb }

unfoldable pub enable_accept : Acceptor → Option Acceptor
enable_accept a = elim (a.trantor_pipe) [
  | none ↦ none
  | some p ↦ some (record a { trantor_pipe = some (enable_read p) })
]

-- `registerPipe` of the main loop, which registers the pipe or queues that.
abbrev pub with_pipe : Option (Pipe Acceptance) → Host → Host
with_pipe none h = h
with_pipe (some p) h = record h { handed_pipes = p ∷ h.handed_pipes }

abbrev pub set_work_loop_pool : Option LoopPool → Acceptor → Acceptor
set_work_loop_pool pool a = record a { work_thread_pool = pool }

unfoldable pub host_listen : Option Acceptor → Host → Option (Bool × Host)
host_listen none h = none
host_listen (some a) h = some (true, with_pipe a.trantor_pipe (record h { acceptor = some a }))

-- What follows `TcpAcceptor::init`: the result -1, or the callback, the read event and the loop.
unfoldable pub host_inited : Bool × Option (Pipe Acceptance) → Host → Option (Bool × Host)
unfolding host_listen enable_accept
host_inited (true, p) h =
    some (false, record h { acceptor = some (record new_acceptor { trantor_pipe = p }) })
host_inited (false, p) h =
    host_listen
      (enable_accept
        (set_accept_callback new_connection_bound (record new_acceptor { trantor_pipe = p })))
      h

-- `TcpServer::init`, with the results of `socket`, `bind` and `listen`, and what is found in place of
-- the value that `TcpAcceptor::init` does not return: whether it is 0, and the server after.
unfoldable pub host_init : Option ℕ → Option ℕ → Option ℕ → Bool → Host → Option (Bool × Host)
unfolding host_inited acceptor_init
host_init listener bound listened stray h =
    host_inited (acceptor_init listener bound listened stray) (record h { main_loop = true })

-- `start`
unfoldable pub host_start : Host → Option Host
host_start h =
    if h.main_loop
    then elim (h.acceptor) [
      | none ↦ none
      | some a ↦
          some
            (record h { acceptor = some (set_work_loop_pool h.work_loop_pool a); looping = true })
    ]
    else some h

-- The server that accepts connections in the main loop.
abbrev pub pool_of : Option Acceptor → Option LoopPool
pool_of none = none
pool_of (some a) = a.work_thread_pool

abbrev pub serving : Host → Server
serving h = new_server (pool_of h.acceptor)

unfoldable pub accept_on : List (ℕ × ℕ) → Option Server → Option Server
unfolding read_socket
accept_on [] s = s
accept_on ((sockfd, uuid) ∷ sockets) none = none
accept_on ((sockfd, uuid) ∷ sockets) (some s) = accept_on sockets (read_socket (some sockfd) uuid s)
