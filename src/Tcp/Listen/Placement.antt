-- ===== src/Tcp/Listen/Placement.antt =====
-- In which loop does an accepted connection live?
use trantor_net.Base.{
  if◌then◌else◌, ℕ, suc, ◌+◌, ◌%◌, ◌<◌, ◌≡◌, Bool, true, none, some, List, [], ◌∷◌, length, get_or,
}
use trantor_net.Net.LoopPool.{LoopPool, new_loop_pool}
use trantor_net.Net.Pipe.{new_pipe, set_read_cb, enable_read}
use trantor_net.Tcp.Server.{read_socket_bound, Server}
use trantor_net.Tcp.Listen.{new_connection_bound, Host}

-- A pool of loops from an index on.
abbrev pool_at : ℕ → List ℕ → ℕ → LoopPool
pool_at x xs i = record { loop_pool = x ∷ xs; current_index = i }

abbrev IsSpread : ℕ → List ℕ → ℕ → ℕ → Server → Server → Type 0
IsSpread x xs i k s t =
    ((m : ℕ)
      → m < k
      → t.homes (s.born + m) ≡ some (get_or (x ∷ xs) ((i + suc m) % length (x ∷ xs)) 0))
    × ((p : ℕ) → p < s.born → t.homes p ≡ s.homes p)

-- A server with `suc n` working threads that has been set up, when its main loop begins.
abbrev ready : ℕ → ℕ → Bool → Host
ready n listener b = record {
  main_loop = true;
  handed_pipes = enable_read (set_read_cb read_socket_bound (new_pipe listener)) ∷ [];
  looping = b;
  work_loop_pool = some (new_loop_pool (suc n));
  acceptor = some (record {
    trantor_pipe = some (enable_read (set_read_cb read_socket_bound (new_pipe listener)));
    read_callback = some new_connection_bound;
    work_thread_pool = if b then some (new_loop_pool (suc n)) else none;
  });
}
