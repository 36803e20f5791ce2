-- ===== src/Tcp/Server/Dangling.antt =====
-- What a close by force leaves behind.
use trantor_net.Base.{
  contains, ℕ, ◌≡◌, refl, ◌∙◌, ap, subst, ◌++◌, true, Option, none, some, List, [], ◌∷◌, arith,
}
use trantor_net.Tool.StringBuffer.{get_readable_bytes}
use trantor_net.Net.Loop.{find}
use trantor_net.Net.Loop.Sync.{find-erase}
use trantor_net.Tcp.Connection.{
  Connection, closed, request, force_close, handle, serve, force_close_in_loop, call_closed, tell,
}
use trantor_net.Tcp.Server.Invariant.{update_self}
use trantor_net.Tcp.Server.{
  Callback, close_bound, Server, close_callback_in_main_loop, close_callback, react, react_all,
  store, run_close, connection_event,
}

queued :
    (o h : ℕ) (s : Server)
    → s.homes o ≡ some h
    → s.close_tasks ≡ []
    → close_callback o s ≡ record s { close_tasks = o ∷ [] }
unfolding close_callback
queued o h s home idle =
    rw (home, close_callback)
      (ap (λ (tasks : List ℕ). record s { close_tasks = tasks ++ (o ∷ []) }) idle)

-- A close task that is queued behind no other has run.
after_close :
    (o h : ℕ) (s : Server)
    → s.homes o ≡ some h
    → s.close_tasks ≡ []
    → let t = run_close (close_callback o s) in
      (find (s.connections o).connection_id t.tcp_connection_map ≡ none)
      × (contains o t.registered ≡ contains o s.registered)
      × (t.close_tasks ≡ [])
unfolding run_close close_callback_in_main_loop
after_close o h s home idle =
    let id = (s.connections o).connection_id in
    rw (queued o h s home idle) (find-erase id id s.tcp_connection_map ∙ ground arith, refl, refl)

module _ (grow : ℕ → ℕ → ℕ) where
  force_close_effects :
      (c : Connection Callback)
      → c.closed_cb ≡ some close_bound
      → get_readable_bytes c.write_buffer ≡ 0
      → (handle grow (request force_close) (record c { effects = [] }))
        ≡ record c { effects = closed close_bound ∷ [] }
  unfolding handle serve force_close_in_loop call_closed
  force_close_effects c cb e = rw e (told c.closed_cb cb)
    where
      told :
          (u : Option Callback)
          → u ≡ some close_bound
          → tell u closed (record c { effects = [] })
            ≡ record c { effects = closed close_bound ∷ [] }
      told u h = rw (h, tell) refl

  -- A user closes a connection of a work loop by force, when nothing waits to be sent and the main
  -- loop has no close task: when the close task has run, the map no longer holds the connection, but
  -- its loop still holds the pipe.
  pub force_close_dangles :
      (o h : ℕ) (s : Server)
      → s.homes o ≡ some h
      → (s.connections o).closed_cb ≡ some close_bound
      → get_readable_bytes (s.connections o).write_buffer ≡ 0
      → s.close_tasks ≡ []
      → contains o s.registered ≡ true
      → let t = run_close (connection_event grow o (request force_close) s) in
        (find (s.connections o).connection_id t.tcp_connection_map ≡ none)
        × (contains o t.registered ≡ true)
        × (t.close_tasks ≡ [])
  unfolding run_close connection_event react_all react close_callback close_callback_in_main_loop
      store
  force_close_dangles o h s home cb empty idle reg =
      let c : Connection Callback = record (s.connections o) {
        effects = closed close_bound ∷ [];
      } in
      let (gone, kept, done) = after_close o h (store o c s) home idle in
      rw (force_close_effects (s.connections o) cb empty) (
        subst
            (λ (id : ℕ).
              find id (run_close (close_callback o (store o c s))).tcp_connection_map ≡ none)
            (ap (λ (c : Connection Callback). c.connection_id) (update_self o c s.connections))
            gone,
        kept ∙ reg,
        done,
      )
