-- ===== src/Tcp/Connection/Stream.antt =====
-- What a connection sends is what it was given to write.
use trantor_net.Base.{
  ℕ, false, suc, ◌-◌, ◌≤◌, ◌≡◌, refl, ◌∙◌, ap, Option, none, some, List, [], ◌∷◌, ◌++◌, ◌==◌, arith,
  length, Bool-cases, inl, inr, length-append,
}
use trantor_net.Tool.StringBuffer.{contents, get_readable_bytes}
use trantor_net.Tool.StringBuffer.Append.{GrowsExactly}
use trantor_net.Tcp.Socket.{socket_write}
use trantor_net.Tcp.Socket.Taken.{socket_write_lem, nil_of_length}
use trantor_net.Tcp.Connection.{
  Pending, half_close, full_close, closed, Connection, new_connection, Event, writable, tell,
  run_pending, half_close_now, call_closed, handle_writable, handle,
}
use trantor_net.Tcp.Connection.Invariant.{
  sent_of, wrote_of, IsFlushed, IsWaiting, IsFair, Inv, new_connection-Inv, all_sent,
}
use trantor_net.Tcp.Connection.Steps.{handle-Inv, handle_writable-Inv}

module _ {U : Type 0} where
  module _ (grow : ℕ → ℕ → ℕ) where
    abbrev pub run : List (Event U) → Connection U → Connection U
    run [] c = c
    run (e ∷ es) c = run es (handle grow e c)

    -- No `::write` fails, and no write overflows the buffer.
    abbrev pub AllFair : List (Event U) → Connection U → Type 0
    AllFair [] c = Unit
    AllFair (e ∷ es) c = IsFair e c × AllFair es (handle grow e c)

  module _ (grow : ℕ → ℕ → ℕ) (exact : GrowsExactly grow) where
    run-Inv :
        (es : List (Event U)) (c : Connection U) → AllFair grow es c → Inv c → Inv (run grow es c)
    run-Inv [] c f v = v
    run-Inv (e ∷ es) c f v = run-Inv es (handle grow e c) f.1 (handle-Inv grow exact e c f.0 v)

    -- In every history of a new connection in which no `::write` fails, no write overflows the buffer,
    -- and no `memcpy` in it is between ranges that overlap: the bytes sent, and then those in the write buffer, are the bytes given to `write`, in
    -- order. As long as some are in the buffer the pipe waits to write, and once there are none no
    -- shutdown is pending.
    pub stream_lem :
        (fd id : ℕ) (es : List (Event U))
        → AllFair grow es (new_connection fd id)
        → (run grow es (new_connection fd id)).write_buffer.overlapped ≡ false
        → let c = run grow es (new_connection fd id) in
          (sent_of c.effects ++ contents c.write_buffer ≡ wrote_of c.effects)
          × IsWaiting c
          × (contents c.write_buffer ≡ [] → c.shutdown_write_callback ≡ none)
    stream_lem fd id es f apart =
        let v = run-Inv es _ f (new_connection-Inv fd id) in (v.stream, v.waiting, v.pending)

    -- In every such history, whenever the sending half is closed, all the bytes given to `write` up to
    -- that moment have been sent.
    pub half_close-IsFlushed :
        (fd id : ℕ) (es : List (Event U))
        → AllFair grow es (new_connection fd id)
        → (run grow es (new_connection fd id)).write_buffer.overlapped ≡ false
        → IsFlushed (run grow es (new_connection fd id)).effects
    half_close-IsFlushed fd id es f apart = (run-Inv es _ f (new_connection-Inv fd id)).flushed

  wrote_of-tell :
      (o : Option U) (c : Connection U)
      → (wrote_of (tell o closed c).effects ≡ wrote_of c.effects)
        × ((tell o closed c).write_buffer ≡ c.write_buffer)
  unfolding tell
  wrote_of-tell none c = (refl, refl)
  wrote_of-tell (some u) c = (refl, refl)

  wrote_of-run_pending :
      (o : Option Pending) (c : Connection U)
      → (wrote_of (run_pending o c).effects ≡ wrote_of c.effects)
        × ((run_pending o c).write_buffer ≡ c.write_buffer)
  unfolding run_pending half_close_now call_closed
  wrote_of-run_pending none c = (refl, refl)
  wrote_of-run_pending (some half_close) c = (refl, refl)
  wrote_of-run_pending (some full_close) c = wrote_of-tell c.closed_cb c

  writable_parts :
      (n : ℕ) (c : Connection U)
      → let u = handle_writable (some n) c in
        (wrote_of u.effects ≡ wrote_of c.effects)
        × (u.write_buffer ≡ (socket_write (some n) c.write_buffer).1)
  unfolding handle_writable
  writable_parts n c =
      elim (Bool-cases (get_readable_bytes (socket_write (some n) c.write_buffer).1 == 0)) [
        | inl e ↦ rw e (wrote_of-run_pending c.shutdown_write_callback _)
        | inr e ↦ rw e (refl, refl)
      ]

  -- Each turn of the kernel that takes a byte shortens what is left.
  writable_shorter :
      (n : ℕ) (c : Connection U)
      → Inv c
      → let u = handle_writable (some (suc n)) c in
        length (contents u.write_buffer) ≤ length (contents c.write_buffer) - 1
  writable_shorter n c v =
      let (valid, joined, taken) = socket_write_lem (suc n) c.write_buffer v.valid in
      let bytes = (socket_write (some (suc n)) c.write_buffer).0 in
      let rest = contents (socket_write (some (suc n)) c.write_buffer).1 in
      let same = ap contents (writable_parts (suc n) c).1 in
      omega (arith, ap length same, ap length joined, length-append bytes rest, taken)

  -- Turns of the kernel in which it can take n + 1 bytes.
  abbrev pub turns : List ℕ → List (Event U)
  turns [] = []
  turns (n ∷ ns) = writable (some (suc n)) ∷ turns ns

  drained :
      (grow : ℕ → ℕ → ℕ) (ns : List ℕ) (c : Connection U)
      → Inv c
      → length (contents c.write_buffer) ≤ length ns
      → let u = run grow (turns ns) c in
        Inv u × (contents u.write_buffer ≡ []) × (wrote_of u.effects ≡ wrote_of c.effects)
  unfolding handle
  drained grow [] c v h = (v, nil_of_length (contents c.write_buffer) (omega arith), refl)
  drained grow (n ∷ ns) c v h =
      let (valid, empty, same) =
        drained grow ns (handle_writable (some (suc n)) c) (handle_writable-Inv (suc n) c v)
          (omega (arith, writable_shorter n c v)) in
      (valid, empty, same ∙ (writable_parts (suc n) c).0)

  -- A connection gets rid of its bytes: in every such history, when the kernel then takes at least a
  -- byte in each of as many turns as there are bytes in the write buffer, all the bytes given to
  -- `write` are sent, the buffer is empty, and no shutdown is pending.
  pub stream_drains :
      (grow : ℕ → ℕ → ℕ)
      → GrowsExactly grow
      → (fd id : ℕ) (es : List (Event U)) (ns : List ℕ) → AllFair grow es (new_connection fd id)
      → (run grow es (new_connection fd id)).write_buffer.overlapped ≡ false
      → let c = run grow es (new_connection fd id) in
        length (contents c.write_buffer) ≤ length ns
        → let u = run grow (turns ns) c in
          (sent_of u.effects ≡ wrote_of c.effects)
          × (contents u.write_buffer ≡ [])
          × (u.shutdown_write_callback ≡ none)
  stream_drains grow exact fd id es ns f apart h =
      let (valid, empty, same) =
        drained grow ns _ (run-Inv grow exact es _ f (new_connection-Inv fd id)) h in
      (all_sent _ valid empty ∙ same, empty, valid.pending empty)
