-- ===== src/Tcp/Connection/Examples.antt =====
-- The properties of a connection at concrete histories.
use trantor_net.Base.{
  false, ℕ, ◌≤◌, ◌≡◌, refl, none, some, List, [], ◌∷◌, ◌++◌, arith, length, write_at,
}
use trantor_net.Tool.StringBuffer.{
  contents, retrieve, write_buffer, get_readable_bytes, get_backward_writable_bytes,
  get_forward_writable_bytes, resize_buffer,
}
use trantor_net.Net.Pipe.{enable_read}
use trantor_net.Tcp.Socket.{socket_write}
use trantor_net.Tcp.Connection.{
  Event, new_connection, start_reading, write, shutdown, writable, request, handle, serve,
  write_conn, handle_writable, shutdown_write_in_loop,
}
use trantor_net.Tcp.Connection.Invariant.{sent_of, wrote_of, IsFlushed, IsWaiting}
use trantor_net.Tcp.Connection.Stream.{
  run, AllFair, turns, stream_lem, half_close-IsFlushed, stream_drains,
}

-- A vector that takes what it is asked for.
abbrev exactly : ℕ → ℕ → ℕ
exactly c n = n

-- Three bytes are written, the sending half is shut down, and the kernel takes two of the bytes.
abbrev history : List (Event ℕ)
history =
    request start_reading
    ∷ request (write (1 ∷ 2 ∷ 3 ∷ []))
    ∷ request shutdown
    ∷ writable (some 2)
    ∷ []

history-AllFair : AllFair exactly history (new_connection 5 1)
unfolding handle serve write_conn handle_writable shutdown_write_in_loop socket_write retrieve
    contents write_buffer get_readable_bytes get_backward_writable_bytes get_forward_writable_bytes
    resize_buffer write_at enable_read
history-AllFair = (tt, (omega arith, (tt, (tt, tt))))

one_left : length (contents (run exactly history (new_connection 5 1)).write_buffer) ≤ 1
unfolding handle serve write_conn handle_writable shutdown_write_in_loop socket_write retrieve
    contents write_buffer get_readable_bytes get_backward_writable_bytes get_forward_writable_bytes
    resize_buffer write_at enable_read
one_left = omega arith

history_apart : (run exactly history (new_connection 5 1)).write_buffer.overlapped ≡ false
unfolding handle serve write_conn handle_writable shutdown_write_in_loop socket_write retrieve
    contents write_buffer get_readable_bytes get_backward_writable_bytes get_forward_writable_bytes
    resize_buffer write_at enable_read
history_apart = refl

stream_lem_example :
    let c = run exactly history (new_connection 5 1) in
    (sent_of c.effects ++ contents c.write_buffer ≡ wrote_of c.effects)
    × IsWaiting c
    × (contents c.write_buffer ≡ [] → c.shutdown_write_callback ≡ none)
stream_lem_example = stream_lem exactly (λ c n h. refl) 5 1 history history-AllFair history_apart

half_close-IsFlushed_example : IsFlushed (run exactly history (new_connection 5 1)).effects
half_close-IsFlushed_example =
    half_close-IsFlushed exactly (λ c n h. refl) 5 1 history history-AllFair history_apart

stream_drains_example :
    let c = run exactly history (new_connection 5 1) in
    let u = run exactly (turns (0 ∷ [])) c in
    (sent_of u.effects ≡ wrote_of c.effects)
    × (contents u.write_buffer ≡ [])
    × (u.shutdown_write_callback ≡ none)
stream_drains_example =
    stream_drains exactly (λ c n h. refl) 5 1 history (0 ∷ []) history-AllFair history_apart
      one_left
