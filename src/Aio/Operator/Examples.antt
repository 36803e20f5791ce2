-- ===== src/Aio/Operator/Examples.antt =====
-- What goes through an operator at a concrete history.
use trantor_net.Base.{false, ℕ, ◌≡◌, refl, none, some, [], ◌∷◌, ◌++◌, arith, write_at}
use trantor_net.Tool.StringBuffer.{
  contents, retrieve, write_buffer, get_readable_bytes, get_backward_writable_bytes,
  get_forward_writable_bytes, resize_buffer,
}
use trantor_net.Tcp.Socket.{socket_write}
use trantor_net.Aio.Operator.{
  Operator, Effect, Finish, Event, write_mode, write_request, close_request, write_event, handle,
  write_fd, close_fd, handle_write, open_fd, open_as, set_events, clear_fd, trig,
}
use trantor_net.Aio.Operator.Invariant.{sent_of, accepted_of, received_of, told_of, IsWhole}
use trantor_net.Aio.Operator.Idle.{IsTame}
use trantor_net.Aio.Operator.Steps.{IsFair}
use trantor_net.Aio.Operator.Stream.{
  opened, Reachable, start, next, operator_stream, operator-IsWhole,
}

-- A vector that takes what it is asked for, and callbacks that call nothing.
abbrev exactly : ℕ → ℕ → ℕ
exactly c n = n

abbrev quiet : Finish ℕ → Operator ℕ → Operator ℕ
quiet f o = o

quiet-IsTame : IsTame write_mode quiet
quiet-IsTame = record { keeps = λ f o v. v; idles = λ f o w. w }

-- Three bytes are written, the file is closed, and the kernel takes two of them.
abbrev written : Operator ℕ
written = write_fd exactly quiet (1 ∷ 2 ∷ 3 ∷ []) none (opened 4 9 write_mode)

abbrev closing : Operator ℕ
closing = handle_write (some 2) (close_fd written)

written_fits :
    IsFair exactly
      (λ c n h. refl)
      write_mode
      quiet
      quiet-IsTame
      (write_request (1 ∷ 2 ∷ 3 ∷ []) none)
      (opened 4 9 write_mode)
unfolding open_fd open_as set_events
written_fits = omega arith

closing-Reachable : Reachable exactly (λ c n h. refl) write_mode quiet quiet-IsTame closing
unfolding handle
closing-Reachable =
    next (write_event (some 2))
      (next close_request
        (next (write_request (1 ∷ 2 ∷ 3 ∷ []) none) (start 4 9 (omega arith)) written_fits refl) tt
        refl)
      tt refl

closing_apart :
    (closing.output_buffer.overlapped ≡ false) × (closing.input_buffer.overlapped ≡ false)
unfolding handle handle_write close_fd write_fd open_fd open_as set_events clear_fd trig
    socket_write retrieve contents write_buffer get_readable_bytes get_backward_writable_bytes
    get_forward_writable_bytes resize_buffer write_at
closing_apart = (refl, refl)

operator_stream_example :
    (sent_of closing.effects ++ contents closing.output_buffer ≡ accepted_of closing.effects)
    × (told_of closing.effects ++ contents closing.input_buffer ≡ received_of closing.effects)
    × ((e : Event ℕ)
        → IsFair exactly (λ c n h. refl) write_mode quiet quiet-IsTame e closing
        → (p : Operator ℕ) × (handle exactly quiet e closing ≡ some p))
operator_stream_example =
    operator_stream exactly (λ c n h. refl) write_mode quiet quiet-IsTame closing-Reachable
      closing_apart.0 closing_apart.1

operator-IsWhole_example : IsWhole write_mode closing.effects
operator-IsWhole_example =
    operator-IsWhole exactly (λ c n h. refl) write_mode quiet quiet-IsTame closing-Reachable
      closing_apart.0 closing_apart.1

-- The file is closed once the third byte is gone, and not before.
left_open :
    (handle_write (some 1) closing).effects
    ≡ Effect.deleted
      ∷ Effect.closed
      ∷ Effect.erase_writer
      ∷ Effect.trig_read
      ∷ Effect.sent (3 ∷ [])
      ∷ closing.effects
unfolding handle_write close_fd write_fd open_fd open_as set_events clear_fd trig socket_write
    retrieve contents write_buffer get_readable_bytes get_backward_writable_bytes
    get_forward_writable_bytes resize_buffer write_at
left_open = refl
