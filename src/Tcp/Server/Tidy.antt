-- ===== src/Tcp/Server/Tidy.antt =====
-- What an event of a connection asks of the server when the connection has its callbacks.
use trantor_net.Base.{
  ℕ, ◌≡◌, refl, sym, subst, false, Option, none, some, [], ◌∷◌, ◌==◌, ltb, inl, inr, ◌⊎◌, List,
  if_cases,
}
use mathlib.Core.Bool.{true≢false}
use trantor_net.Tcp.Connection.{
  Pending, half_close, full_close, message, closed, remove_pipe, register_pipe, Connection, Event,
  request, readable, writable, on_message, on_closed, start_reading, start_writing, register,
  unregister, write, retrieve_read, shutdown, force_close, tell, run_pending, half_close_now,
  handle_writable, shutdown_write_in_loop, handle_readable, closed_by_peer, call_closed, serve,
  write_conn, handle,
}
use trantor_net.Tool.StringBuffer.{get_readable_bytes}
use trantor_net.Tcp.Socket.{socket_write}
use trantor_net.Tcp.Server.{close_bound, Callback}
use trantor_net.Tcp.Server.Invariant.{is_full}
use trantor_net.Tcp.Connection.{Effect}
use trantor_net.Tcp.Server.Conduct.{IsPolite}

-- The user neither takes the pipe of a connection out of its loop nor replaces its closed callback.
abbrev pub KeepsPipe : Event Callback → Type 0
KeepsPipe (request unregister) = ⊥
KeepsPipe (request (on_closed u)) = ⊥
KeepsPipe _ = Unit

abbrev pub IsTidy : Event Callback → Type 0
IsTidy e = IsPolite e × KeepsPipe e

-- Calls that leave the pipe where it is.
unfoldable pub IsPlain : List (Effect Callback) → Type 0
IsPlain [] = Unit
IsPlain (closed _ ∷ es) = ⊥
IsPlain (remove_pipe ∷ es) = ⊥
IsPlain (register_pipe ∷ es) = ⊥
IsPlain (_ ∷ es) = IsPlain es

-- The pipe stays, or it is removed and the server hears of it.
abbrev pub IsBrief : List (Effect Callback) → Type 0
IsBrief es = IsPlain es ⊎ (es ≡ closed close_bound ∷ remove_pipe ∷ [])

pub record Tidy (c d : Connection Callback) : Type 0 where
  pub same : d.connection_id ≡ c.connection_id
  pub heard : d.closed_cb ≡ some close_bound
  pub brief : IsBrief d.effects

tell_closed-Tidy :
    (u : Option Callback) (c : Connection Callback)
    → u ≡ some close_bound
    → c.closed_cb ≡ some close_bound
    → Tidy c (tell u closed (record c { effects = remove_pipe ∷ [] }))
unfolding tell
tell_closed-Tidy u c e h =
    subst (λ v. Tidy c (tell v closed (record c { effects = remove_pipe ∷ [] }))) (sym e)
      (record { same = refl; heard = h; brief = inr refl })

tell_message-Tidy :
    (u : Option Callback) (c d : Connection Callback)
    → d.connection_id ≡ c.connection_id
    → d.closed_cb ≡ some close_bound
    → IsPlain d.effects
    → Tidy c (tell u message d)
unfolding tell IsPlain
tell_message-Tidy none c d same heard plain = record {
  same = same;
  heard = heard;
  brief = inl plain;
}
tell_message-Tidy (some u) c d same heard plain = record {
  same = same;
  heard = heard;
  brief = inl plain;
}

run_pending-Tidy :
    (p : Option Pending) (c d : Connection Callback)
    → is_full p ≡ false
    → d.connection_id ≡ c.connection_id
    → d.closed_cb ≡ some close_bound
    → IsPlain d.effects
    → Tidy c (run_pending p d)
unfolding run_pending half_close_now IsPlain
run_pending-Tidy none c d h same heard plain = record {
  same = same;
  heard = heard;
  brief = inl plain;
}
run_pending-Tidy (some half_close) c d h same heard plain = record {
  same = same;
  heard = heard;
  brief = inl plain;
}
run_pending-Tidy (some full_close) c d h same heard plain = absurd (true≢false h)

module _ (grow : ℕ → ℕ → ℕ) where
  pub handle-Tidy :
      (e : Event Callback) (c : Connection Callback)
      → IsTidy e
      → is_full (c.shutdown_write_callback) ≡ false
      → c.closed_cb ≡ some close_bound
      → Tidy c (handle grow e (record c { effects = [] }))
  unfolding handle handle_readable closed_by_peer call_closed serve write_conn handle_writable
      shutdown_write_in_loop half_close_now IsPlain
  handle-Tidy (readable none) c p f h = tell_closed-Tidy c.closed_cb c h h
  handle-Tidy (readable (some [])) c p f h = tell_closed-Tidy c.closed_cb c h h
  handle-Tidy (readable (some (x ∷ bytes))) c p f h = tell_message-Tidy c.read_cb c _ refl h tt
  handle-Tidy (writable res) c p f h =
      if_cases (Tidy c) (get_readable_bytes (socket_write res c.write_buffer).1 == 0) _ _
        (λ _. run_pending-Tidy c.shutdown_write_callback c _ f refl h tt)
        (λ _. record { same = refl; heard = h; brief = inl tt })
  handle-Tidy (request (on_message u)) c p f h = record { same = refl; heard = h; brief = inl tt }
  handle-Tidy (request (on_closed u)) c p f h = absurd p.1
  handle-Tidy (request start_reading) c p f h = record { same = refl; heard = h; brief = inl tt }
  handle-Tidy (request start_writing) c p f h = record { same = refl; heard = h; brief = inl tt }
  handle-Tidy (request register) c p f h = absurd p.0
  handle-Tidy (request unregister) c p f h = absurd p.1
  handle-Tidy (request (write bytes)) c p f h = record { same = refl; heard = h; brief = inl tt }
  handle-Tidy (request (retrieve_read n)) c p f h = record {
    same = refl;
    heard = h;
    brief = inl tt;
  }
  handle-Tidy (request shutdown) c p f h =
      if_cases (Tidy c) (ltb 0 (get_readable_bytes c.write_buffer)) _ _
        (λ _. record { same = refl; heard = h; brief = inl tt })
        (λ _. record { same = refl; heard = h; brief = inl tt })
  handle-Tidy (request force_close) c p f h = absurd p.0
