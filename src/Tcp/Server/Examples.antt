-- ===== src/Tcp/Server/Examples.antt =====
-- The owners of the connections at concrete servers.
use trantor_net.Base.{
  ◌⊎◌, contains, without, ℕ, zero, suc, arith, ◌≡◌, refl, true, none, some, [], ◌∷◌,
}
use trantor_net.Net.Loop.{put, find, erase}
use trantor_net.Net.LoopPool.{new_loop_pool, get_next_loop, loop_after}
use trantor_net.Tool.StringBuffer.{get_readable_bytes}
use trantor_net.Tcp.Connection.{
  Event, readable, request, force_close, handle, handle_readable, closed_by_peer, call_closed, tell,
}
use trantor_net.Tcp.Server.{
  Callback, Server, new_server, make_connection, new_connection_callback, next_home, read_socket,
  run_close, connection_event, update, store, react, react_all, close_callback,
  close_callback_in_main_loop,
}
use trantor_net.Tcp.Server.Conduct.{IsPolite}
use trantor_net.Tcp.Server.Tidy.{IsTidy}
use trantor_net.Tcp.Server.Leaks.{no_leak}
use trantor_net.Tcp.Server.Owners.{
  IsFresh, accept, event, close, Reachable, start, next, no_dangling,
}
use trantor_net.Tcp.Server.Dangling.{force_close_dangles}

-- A vector that takes what it is asked for.
abbrev exactly : ℕ → ℕ → ℕ
exactly c n = n

-- Two connections, in the two loops of a pool.
abbrev one : Server
one =
    make_connection 5 70 (some 1, some (record { loop_pool = 0 ∷ 1 ∷ []; current_index = 1 }))
      (new_server (some (new_loop_pool 2)))

abbrev two : Server
two = make_connection 6 71 (some 0, some (record { loop_pool = 0 ∷ 1 ∷ []; current_index = 0 })) one

-- The peer of the first one closes.
abbrev left : Server
left = connection_event exactly 0 (readable none) two

one-IsFresh : IsFresh 71 one
unfolding make_connection new_connection_callback store update react_all react
one-IsFresh zero y e = omega arith
one-IsFresh (suc o) y e = omega arith

-- Both for polite users and for tidy ones.
left-Reachable :
    (IsAllowed : Event Callback → Type 0)
    → IsAllowed (readable none)
    → Reachable exactly IsAllowed (some (new_loop_pool 2)) (run_close left)
unfolding read_socket next_home get_next_loop loop_after make_connection new_connection_callback
    store update react_all react
left-Reachable IsAllowed allowed =
    next
      (next
        (next (next start (accept (some 5) 70 (λ o y. elim y [ ]) refl))
          (accept (some 6) 71 one-IsFresh refl))
        (event 0 (readable none) (omega arith) allowed))
      close

still_there : contains 1 (run_close left).registered ≡ true
unfolding make_connection new_connection_callback store update react_all react connection_event
    run_close handle handle_readable closed_by_peer call_closed tell close_callback
    close_callback_in_main_loop without contains erase
still_there = refl

no_dangling_example :
    find ((run_close left).connections 1).connection_id (run_close left).tcp_connection_map ≡ some 1
no_dangling_example = no_dangling exactly 1 (left-Reachable IsPolite tt) still_there

force_close_dangles_example :
    let t = run_close (connection_event exactly 0 (request force_close) one) in
    (find (one.connections 0).connection_id t.tcp_connection_map ≡ none)
    × (contains 0 t.registered ≡ true)
    × (t.close_tasks ≡ [])
unfolding make_connection new_connection_callback store update react_all react contains
    get_readable_bytes
force_close_dangles_example = force_close_dangles exactly 0 1 one refl refl refl refl refl

still_mapped : find 71 (run_close left).tcp_connection_map ≡ some 1
unfolding make_connection new_connection_callback store update react_all react connection_event
    run_close handle handle_readable closed_by_peer call_closed tell close_callback
    close_callback_in_main_loop find put erase
still_mapped = refl

no_leak_example :
    (((run_close left).connections 1).connection_id ≡ 71)
    × ((contains 1 (run_close left).registered ≡ true)
        ⊎ (contains 1 (run_close left).close_tasks ≡ true))
no_leak_example = no_leak exactly 71 1 (left-Reachable IsTidy (tt, tt)) still_mapped
