-- ===== src/Tcp/Server/Conduct.antt =====
-- What one event of a connection asks of the server.
use trantor_net.Base.{
  ℕ, ◌≡◌, refl, false, Option, none, some, [], ◌∷◌, ◌==◌, ltb, Bool-cases, inl, inr,
}
use mathlib.Core.Bool.{true≢false}
use trantor_net.Tcp.Connection.{
  Pending, half_close, full_close, message, closed, remove_pipe, Connection, Event, request,
  readable, writable, on_message, on_closed, start_reading, start_writing, register, unregister,
  write, retrieve_read, shutdown, force_close, tell, run_pending, half_close_now, handle_writable,
  shutdown_write_in_loop, handle_readable, closed_by_peer, call_closed, serve, write_conn, handle,
}
use trantor_net.Tool.StringBuffer.{get_readable_bytes}
use trantor_net.Tcp.Socket.{socket_write}
use trantor_net.Tcp.Server.{Callback}
use trantor_net.Tcp.Server.Invariant.{is_full, IsOrderly}

-- What a user may ask of a connection here: to close it by force, or to register its pipe again, is
-- left out.
abbrev pub IsPolite : Event Callback → Type 0
IsPolite (request force_close) = ⊥
IsPolite (request register) = ⊥
IsPolite _ = Unit

-- The connection after an event that it met with an empty list of calls.
pub record Conduct (c d : Connection Callback) : Type 0 where
  pub same : d.connection_id ≡ c.connection_id
  pub calm : is_full (d.shutdown_write_callback) ≡ false
  pub orderly : IsOrderly d.effects

tell_closed-Conduct :
    (u : Option Callback) (c : Connection Callback)
    → is_full (c.shutdown_write_callback) ≡ false
    → Conduct c (tell u closed (record c { effects = remove_pipe ∷ [] }))
unfolding tell IsOrderly
tell_closed-Conduct none c h = record { same = refl; calm = h; orderly = tt }
tell_closed-Conduct (some u) c h = record { same = refl; calm = h; orderly = refl }

tell_message-Conduct :
    (u : Option Callback) (c d : Connection Callback) → Conduct c d → Conduct c (tell u message d)
unfolding tell IsOrderly
tell_message-Conduct none c d v = v
tell_message-Conduct (some u) c d v = record { same = v.same; calm = v.calm; orderly = v.orderly }

run_pending-Conduct :
    (p : Option Pending) (c d : Connection Callback)
    → is_full p ≡ false
    → Conduct c d
    → Conduct c (run_pending p d)
unfolding run_pending half_close_now IsOrderly
run_pending-Conduct none c d h v = v
run_pending-Conduct (some half_close) c d h v = record {
  same = v.same;
  calm = refl;
  orderly = v.orderly;
}
run_pending-Conduct (some full_close) c d h v = absurd (true≢false h)

module _ (grow : ℕ → ℕ → ℕ) where
  handle_writable-Conduct :
      (res : Option ℕ) (c : Connection Callback)
      → is_full (c.shutdown_write_callback) ≡ false
      → Conduct c (handle_writable res (record c { effects = [] }))
  unfolding handle_writable IsOrderly
  handle_writable-Conduct res c h =
      let (bytes, b) = socket_write res c.write_buffer in
      elim (Bool-cases (get_readable_bytes b == 0)) [
        | inl e ↦ rw e (
            run_pending-Conduct c.shutdown_write_callback c _ h
              (record { same = refl; calm = h; orderly = tt }))
        | inr e ↦ rw e (record { same = refl; calm = h; orderly = tt })
      ]

  shutdown-Conduct :
      (c : Connection Callback)
      → is_full (c.shutdown_write_callback) ≡ false
      → Conduct c (shutdown_write_in_loop (record c { effects = [] }))
  unfolding shutdown_write_in_loop half_close_now IsOrderly
  shutdown-Conduct c h = elim (Bool-cases (ltb 0 (get_readable_bytes c.write_buffer))) [
    | inl e ↦ rw e (record { same = refl; calm = refl; orderly = tt })
    | inr e ↦ rw e (record { same = refl; calm = h; orderly = tt })
  ]

  pub handle-Conduct :
      (e : Event Callback) (c : Connection Callback)
      → IsPolite e
      → is_full (c.shutdown_write_callback) ≡ false
      → Conduct c (handle grow e (record c { effects = [] }))
  unfolding handle handle_readable closed_by_peer call_closed serve write_conn IsOrderly
  handle-Conduct (readable none) c p h = tell_closed-Conduct c.closed_cb c h
  handle-Conduct (readable (some [])) c p h = tell_closed-Conduct c.closed_cb c h
  handle-Conduct (readable (some (x ∷ bytes))) c p h =
      tell_message-Conduct c.read_cb c _ (record { same = refl; calm = h; orderly = tt })
  handle-Conduct (writable res) c p h = handle_writable-Conduct res c h
  handle-Conduct (request (on_message u)) c p h = record { same = refl; calm = h; orderly = tt }
  handle-Conduct (request (on_closed u)) c p h = record { same = refl; calm = h; orderly = tt }
  handle-Conduct (request start_reading) c p h = record { same = refl; calm = h; orderly = tt }
  handle-Conduct (request start_writing) c p h = record { same = refl; calm = h; orderly = tt }
  handle-Conduct (request register) c p h = absurd p
  handle-Conduct (request unregister) c p h = record { same = refl; calm = h; orderly = tt }
  handle-Conduct (request (write bytes)) c p h = record { same = refl; calm = h; orderly = tt }
  handle-Conduct (request (retrieve_read n)) c p h = record { same = refl; calm = h; orderly = tt }
  handle-Conduct (request shutdown) c p h = shutdown-Conduct c h
  handle-Conduct (request force_close) c p h = absurd p
