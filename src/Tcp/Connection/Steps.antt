-- ===== src/Tcp/Connection/Steps.antt =====
-- Every event keeps the invariant.
use trantor_net.Base.{
  ==_iff, ℕ, ◌+◌, ◌^◌, ◌<◌, ◌≡◌, refl, sym, ◌∙◌, ap, true, false, Option, none, some, List, [], ◌∷◌,
  ◌++◌, ◌==◌, ltb, arith, length, append_assoc, Bool-cases, inl, inr,
}
use trantor_net.Tool.StringBuffer.{contents, get_readable_bytes}
use trantor_net.Tool.StringBuffer.Append.{GrowsExactly, cells-write_buffer}
use trantor_net.Net.Pipe.Events.{interest_lem}
use trantor_net.Tcp.Socket.{socket_write}
use trantor_net.Tcp.Connection.{
  Connection, Request, on_message, on_closed, start_reading, start_writing, register, unregister,
  write, retrieve_read, shutdown, force_close, Event, readable, writable, request,
  shutdown_write_in_loop, force_close_in_loop, handle_writable, write_conn, handle_readable, serve,
  handle,
}
use trantor_net.Tcp.Socket.Taken.{
  readable_lem, socket_write_lem, busy_length, nil_of_append_left, nil_of_append, nil_of_length,
  empty_length,
}
use trantor_net.Tcp.Connection.Invariant.{
  Inv, tell_message-Inv, call_closed-Inv, closed_by_peer-Inv, half_close_now-Inv, run_pending-Inv,
  sent_of, wrote_of, IsFair,
}

module _ {U : Type 0} where
  sent_more :
      (c : Connection U) (bytes rest : List ℕ)
      → bytes ++ rest ≡ contents c.write_buffer
      → Inv c
      → (sent_of c.effects ++ bytes) ++ rest ≡ wrote_of c.effects
  sent_more c bytes rest e v =
      append_assoc (sent_of c.effects) bytes rest
      ∙ ap (λ (xs : List ℕ). sent_of c.effects ++ xs) e
      ∙ v.stream

  pub handle_writable-Inv : (n : ℕ) (c : Connection U) → Inv c → Inv (handle_writable (some n) c)
  unfolding handle_writable
  handle_writable-Inv n c v =
      let (bytes, b) = socket_write (some n) c.write_buffer in
      let (valid, joined, _) = socket_write_lem n c.write_buffer v.valid in
      let (r, w, armed, busy) = v.waiting in
      elim (Bool-cases (get_readable_bytes b == 0)) [
        | inl e ↦
            let empty : contents b ≡ [] =
              nil_of_length (contents b) (sym (readable_lem valid) ∙ (==_iff _ 0).0 e) in
            rw e (
              run_pending-Inv c.shutdown_write_callback _ refl
                (record {
                  valid = valid;
                  stream = sent_more c bytes (contents b) joined v;
                  flushed = v.flushed;
                  waiting = (r, false, (interest_lem c.pipe r w armed).3, λ n. absurd (n empty));
                  pending = λ _. refl;
                })
                empty)
        | inr e ↦ rw e (record {
          valid = valid;
          stream = sent_more c bytes (contents b) joined v;
          flushed = v.flushed;
          waiting =
              (r, w, armed, λ n. busy (λ z. n (nil_of_append bytes (contents b) (joined ∙ z))));
          pending = λ z. absurd (busy_length b valid e z);
        })
      ]

  module _ (grow : ℕ → ℕ → ℕ) (exact : GrowsExactly grow) where
    write_conn-Inv :
        (bytes : List ℕ) (c : Connection U)
        → c.write_buffer.write_index + length bytes < 2 ^ 61
        → Inv c
        → Inv (write_conn grow bytes c)
    unfolding write_conn
    write_conn-Inv bytes c small v =
        let (valid, joined) = cells-write_buffer grow exact c.write_buffer bytes v.valid small in
        let (r, w, armed, busy) = v.waiting in
        record {
          valid = valid;
          stream =
              ap (λ (xs : List ℕ). sent_of c.effects ++ xs) joined
              ∙ sym (append_assoc (sent_of c.effects) (contents c.write_buffer) bytes)
              ∙ ap (λ (xs : List ℕ). xs ++ bytes) v.stream;
          flushed = v.flushed;
          waiting = (r, true, (interest_lem c.pipe r w armed).1, λ _. refl);
          pending =
              λ z. v.pending (nil_of_append_left (contents c.write_buffer) bytes (sym joined ∙ z));
        }

    shutdown_write-Inv : (c : Connection U) → Inv c → Inv (shutdown_write_in_loop c)
    unfolding shutdown_write_in_loop
    shutdown_write-Inv c v = elim (Bool-cases (ltb 0 (get_readable_bytes c.write_buffer))) [
      | inl e ↦ rw e (record {
        valid = v.valid;
        stream = v.stream;
        flushed = v.flushed;
        waiting = v.waiting;
        pending = λ z. absurd (busy_length c.write_buffer v.valid (ground arith) z);
      })
      | inr e ↦ rw e (half_close_now-Inv c v (empty_length c.write_buffer v.valid e))
    ]

    force_close-Inv : (c : Connection U) → Inv c → Inv (force_close_in_loop c)
    unfolding force_close_in_loop
    force_close-Inv c v = elim (Bool-cases (ltb 0 (get_readable_bytes c.write_buffer))) [
      | inl e ↦ rw e (record {
        valid = v.valid;
        stream = v.stream;
        flushed = v.flushed;
        waiting = v.waiting;
        pending = λ z. absurd (busy_length c.write_buffer v.valid (ground arith) z);
      })
      | inr e ↦ rw e (call_closed-Inv c v)
    ]

    handle_readable-Inv :
        (res : Option (List ℕ)) (c : Connection U) → Inv c → Inv (handle_readable grow res c)
    unfolding handle_readable
    handle_readable-Inv none c v = closed_by_peer-Inv c v
    handle_readable-Inv (some []) c v = closed_by_peer-Inv c v
    handle_readable-Inv (some (x ∷ bytes)) c v = tell_message-Inv c.read_cb _ (record {
      valid = v.valid;
      stream = v.stream;
      flushed = v.flushed;
      waiting = v.waiting;
      pending = v.pending;
    })

    serve-Inv :
        (q : Request U) (c : Connection U) → IsFair (request q) c → Inv c → Inv (serve grow q c)
    unfolding serve
    serve-Inv (on_message u) c f v = record {
      valid = v.valid;
      stream = v.stream;
      flushed = v.flushed;
      waiting = v.waiting;
      pending = v.pending;
    }
    serve-Inv (on_closed u) c f v = record {
      valid = v.valid;
      stream = v.stream;
      flushed = v.flushed;
      waiting = v.waiting;
      pending = v.pending;
    }
    serve-Inv start_reading c f v =
        let (r, w, armed, busy) = v.waiting in
        record {
          valid = v.valid;
          stream = v.stream;
          flushed = v.flushed;
          waiting = (true, w, (interest_lem c.pipe r w armed).0, busy);
          pending = v.pending;
        }
    serve-Inv start_writing c f v =
        let (r, w, armed, busy) = v.waiting in
        record {
          valid = v.valid;
          stream = v.stream;
          flushed = v.flushed;
          waiting = (r, true, (interest_lem c.pipe r w armed).1, λ _. refl);
          pending = v.pending;
        }
    serve-Inv register c f v = record {
      valid = v.valid;
      stream = v.stream;
      flushed = v.flushed;
      waiting = v.waiting;
      pending = v.pending;
    }
    serve-Inv unregister c f v = record {
      valid = v.valid;
      stream = v.stream;
      flushed = v.flushed;
      waiting = v.waiting;
      pending = v.pending;
    }
    serve-Inv (write bytes) c f v = write_conn-Inv bytes c f v
    serve-Inv (retrieve_read n) c f v = record {
      valid = v.valid;
      stream = v.stream;
      flushed = v.flushed;
      waiting = v.waiting;
      pending = v.pending;
    }
    serve-Inv shutdown c f v = shutdown_write-Inv c v
    serve-Inv force_close c f v = force_close-Inv c v

    pub handle-Inv : (e : Event U) (c : Connection U) → IsFair e c → Inv c → Inv (handle grow e c)
    unfolding handle
    handle-Inv (readable res) c f v = handle_readable-Inv res c v
    handle-Inv (writable none) c f v = absurd f
    handle-Inv (writable (some n)) c f v = handle_writable-Inv n c v
    handle-Inv (request q) c f v = serve-Inv q c f v
