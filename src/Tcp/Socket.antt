-- ===== src/Tcp/Socket.antt =====
-- SocketOperator (src/tcp/inc/SocketOperator.h, src/tcp/src/SocketOperator.cc): the calls of the
-- kernel on sockets. What a call returns is an argument; `none` is the result -1. Log lines are left
-- out.
pub mod Taken
use Prim.Native.Nat.{min}
use trantor_net.Base.{ℕ, ◌-◌, ◌^◌, Option, none, some, List, [], ◌∷◌, length, slice, u16}
use trantor_net.Tool.StringBuffer.{
  StringBuffer, write_buffer, retrieve, get_read_addr, get_readable_bytes,
}

-- What the operations ask of the kernel besides reading and writing.
pub data Call : Type 0 where
  socket : Call
  bind : ℕ → List ℕ → ℕ → Call
  listen : ℕ → ℕ → Call
  set_non_blocking : ℕ → Call
  shutdown_write : ℕ → Call
  close : ℕ → Call

-- `createSocket`, `bind`, `listen` and `accept` return what the kernel returned.
abbrev pub create_socket : Option ℕ → Option ℕ × List Call
create_socket res = (res, socket ∷ [])

-- The port goes through `htons`, 16 bits.
abbrev pub bind_socket : ℕ → List ℕ → ℕ → Option ℕ → Option ℕ × List Call
bind_socket fd addr port res = (res, bind fd addr (u16 port) ∷ [])

-- The length of the queue that the caller asks for is not used.
abbrev pub listen_socket : ℕ → ℕ → Option ℕ → Option ℕ × List Call
listen_socket fd queue_length res = (res, listen fd 100 ∷ [])

unfoldable pub accept_socket : Option ℕ → Option ℕ × List Call
accept_socket none = (none, [])
accept_socket (some sockfd) = (some sockfd, set_non_blocking sockfd ∷ [])

-- `write`, for a kernel that is ready to take `n` bytes: it takes no more than it is offered and no
-- more than 0x7ffff000 in one call. What it took, and the buffer after. The result -1 reaches
-- `retrieve` as a word of 64 bits.
unfoldable pub socket_write : Option ℕ → StringBuffer → List ℕ × StringBuffer
socket_write none b = ([], retrieve b (2 ^ 64 - 1))
socket_write (some n) b =
    let taken = min n (min 0x7ffff000 (get_readable_bytes b)) in
    (slice (get_read_addr b) taken b.mem, retrieve b taken)

-- `read` of what the kernel has, at most 65536 bytes: `some []` at the end of the stream.
module _ (grow : ℕ → ℕ → ℕ) where
  unfoldable pub socket_read : Option (List ℕ) → StringBuffer → StringBuffer
  socket_read none b = b
  socket_read (some []) b = b
  socket_read (some (x ∷ bytes)) b = write_buffer grow b (x ∷ bytes)
