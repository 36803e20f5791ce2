-- ===== src/Tcp/Connection/Invariant.antt =====
-- What holds of a connection between two events, and the parts of a step that keep it.
use trantor_net.Base.{
  ℕ, ◌+◌, ◌^◌, ◌<◌, ◌≡◌, ◌≢◌, refl, sym, ◌∙◌, ap, subst, Bool, true, false, Option, none, some,
  List, [], ◌∷◌, ◌++◌, arith, length, append-nil,
}
use trantor_net.Tool.StringBuffer.{contents}
use trantor_net.Tool.StringBuffer.Append.{IsValid}
use trantor_net.Net.Pipe.Events.{mask}
use trantor_net.Tcp.Connection.{
  Pending, half_close, full_close, Effect, wrote, sent, half_closed, Connection, new_connection,
  write, Event, writable, request, message, closed, tell, unregister_from_loop, call_closed,
  closed_by_peer, run_pending, half_close_now,
}

module _ {U : Type 0} where
  -- All bytes sent, and all bytes handed over to be written, in order.
  abbrev pub sent_of : List (Effect U) → List ℕ
  sent_of [] = []
  sent_of (sent bytes ∷ es) = sent_of es ++ bytes
  sent_of (_ ∷ es) = sent_of es

  abbrev pub wrote_of : List (Effect U) → List ℕ
  wrote_of [] = []
  wrote_of (wrote bytes ∷ es) = wrote_of es ++ bytes
  wrote_of (_ ∷ es) = wrote_of es

  -- Whenever the sending half was closed, all that had been written was sent.
  abbrev pub IsFlushed : List (Effect U) → Type 0
  IsFlushed [] = Unit
  IsFlushed (half_closed ∷ es) = (sent_of es ≡ wrote_of es) × IsFlushed es
  IsFlushed (_ ∷ es) = IsFlushed es

  -- The pipe waits for room in the socket as long as there is something to send.
  abbrev pub IsWaiting : Connection U → Type 0
  IsWaiting c =
      (r : Bool) × (w : Bool) × (c.pipe.register_event ≡ mask r w)
      × (contents c.write_buffer ≢ [] → w ≡ true)

  pub record Inv (c : Connection U) : Type 0 where
    pub valid : IsValid c.write_buffer
    pub stream : sent_of c.effects ++ contents c.write_buffer ≡ wrote_of c.effects
    pub flushed : IsFlushed c.effects
    pub waiting : IsWaiting c
    pub pending : contents c.write_buffer ≡ [] → c.shutdown_write_callback ≡ none

  -- The kernel's `write` does not fail, and the bytes written fit the buffer.
  abbrev pub IsFair : Event U → Connection U → Type 0
  IsFair (writable none) c = ⊥
  IsFair (request (write bytes)) c = c.write_buffer.write_index + length bytes < 2 ^ 61
  IsFair _ c = Unit

  pub new_connection-Inv : (fd id : ℕ) → Inv (new_connection fd id)
  unfolding contents
  new_connection-Inv fd id = record {
    valid = omega arith;
    stream = refl;
    flushed = tt;
    waiting = (false, false, refl, λ n. absurd (n refl));
    pending = λ _. refl;
  }

  pub tell_closed-Inv : (o : Option U) (c : Connection U) → Inv c → Inv (tell o closed c)
  unfolding tell
  tell_closed-Inv none c v = v
  tell_closed-Inv (some u) c v = record {
    valid = v.valid;
    stream = v.stream;
    flushed = v.flushed;
    waiting = v.waiting;
    pending = v.pending;
  }

  pub tell_message-Inv : (o : Option U) (c : Connection U) → Inv c → Inv (tell o message c)
  unfolding tell
  tell_message-Inv none c v = v
  tell_message-Inv (some u) c v = record {
    valid = v.valid;
    stream = v.stream;
    flushed = v.flushed;
    waiting = v.waiting;
    pending = v.pending;
  }

  pub call_closed-Inv : (c : Connection U) → Inv c → Inv (call_closed c)
  unfolding call_closed
  call_closed-Inv c v = tell_closed-Inv c.closed_cb c v

  pub closed_by_peer-Inv : (c : Connection U) → Inv c → Inv (closed_by_peer c)
  unfolding closed_by_peer
  closed_by_peer-Inv c v = call_closed-Inv (unregister_from_loop c) (record {
    valid = v.valid;
    stream = v.stream;
    flushed = v.flushed;
    waiting = v.waiting;
    pending = v.pending;
  })

  -- With nothing left to send, all is sent.
  pub all_sent :
      (c : Connection U)
      → Inv c
      → contents c.write_buffer ≡ []
      → sent_of c.effects ≡ wrote_of c.effects
  all_sent c v e =
      sym (append-nil (sent_of c.effects))
      ∙ ap (λ (xs : List ℕ). sent_of c.effects ++ xs) (sym e)
      ∙ v.stream

  pub half_close_now-Inv :
      (c : Connection U) → Inv c → contents c.write_buffer ≡ [] → Inv (half_close_now c)
  unfolding half_close_now
  half_close_now-Inv c v e = record {
    valid = v.valid;
    stream = v.stream;
    flushed = (all_sent c v e, v.flushed);
    waiting = v.waiting;
    pending = v.pending;
  }

  pub cleared-Inv : (c : Connection U) → Inv c → Inv (record c { shutdown_write_callback = none })
  cleared-Inv c v = record {
    valid = v.valid;
    stream = v.stream;
    flushed = v.flushed;
    waiting = v.waiting;
    pending = λ _. refl;
  }

  pub tell-cleared :
      (o : Option U) (c : Connection U)
      → tell o closed (record c { shutdown_write_callback = none })
        ≡ record (tell o closed c) { shutdown_write_callback = none }
  unfolding tell
  tell-cleared none c = refl
  tell-cleared (some u) c = refl

  -- `Inv` but for the last field, which the flush at the end of `writeCallback` brings back.
  pub run_pending-Inv :
      (o : Option Pending) (c : Connection U)
      → o ≡ c.shutdown_write_callback
      → Inv (record c { shutdown_write_callback = none })
      → contents c.write_buffer ≡ []
      → Inv (run_pending o c)
  unfolding run_pending
  run_pending-Inv none c s v e = subst (λ o. Inv (record c { shutdown_write_callback = o })) s v
  run_pending-Inv (some half_close) c s v e =
      half_close_now-Inv (record c { shutdown_write_callback = none }) v e
  run_pending-Inv (some full_close) c s v e =
      subst Inv (tell-cleared c.closed_cb c)
        (tell_closed-Inv c.closed_cb (record c { shutdown_write_callback = none }) v)
