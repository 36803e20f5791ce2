-- ===== src/Tcp/Server/Leaks.antt =====
-- Whom does the map of the server keep?
use trantor_net.Base.{
  contains, ==_iff, ℕ, ◌+◌, ◌<◌, ◌≡◌, ◌⊎◌, refl, sym, ◌∙◌, ap, subst, true, false, Option, none,
  some, List, [], ◌∷◌, ◌==◌, ltb, arith, Bool-cases, Option-cases, inl, inr,
}
use mathlib.Core.Bool.{true≢false}
use mathlib.Core.Option.{some-injective}
use trantor_net.Net.Loop.{find}
use trantor_net.Net.Loop.Sync.{is_some, find-put}
use trantor_net.Net.LoopPool.{LoopPool}
use trantor_net.Tcp.Connection.{Connection, Event}
use trantor_net.Tcp.Server.{
  close_bound, Callback, Server, update, close_callback_in_main_loop, react, react_all, store,
  new_connection_callback, make_connection, next_home, read_socket, run_close, connection_event,
}
use trantor_net.Tcp.Server.Invariant.{update_all, Inv}
use trantor_net.Tcp.Server.Tidy.{IsTidy, handle-Tidy}
use trantor_net.Tcp.Server.Owners.{
  Step, accept, event, close, Reachable, start, next, reachable-Inv,
}
use trantor_net.Tcp.Server.Kept.{Kept, erase_held, brief-Kept, store-Kept}

id_at_new :
    (i : ℕ) (c : Connection Callback) (f : ℕ → Connection Callback) (p : ℕ)
    → i ≡ p
    → (update i c f p).connection_id ≡ c.connection_id
unfolding update
id_at_new i c f p e = rw ((==_iff i p).1 e) refl

id_at_old :
    (i : ℕ) (c : Connection Callback) (f : ℕ → Connection Callback) (p : ℕ)
    → (i == p) ≡ false
    → (update i c f p).connection_id ≡ (f p).connection_id
unfolding update
id_at_old i c f p e = rw e refl

make_connection-Kept :
    (sockfd uuid : ℕ) (home : Option ℕ × Option LoopPool) (s : Server)
    → Kept s
    → Kept (make_connection sockfd uuid home s)
unfolding make_connection new_connection_callback store react_all react contains
make_connection-Kept sockfd uuid (home, pool) s v = record {
  held = λ k p e. elim (Bool-cases (uuid == k)) [
    | inl z ↦
        let found : some s.born ≡ some p =
          sym (find-put uuid k s.born s.tcp_connection_map ∙ rw z refl) ∙ e in
        let q = some-injective s.born p found in
        (
          omega (arith, q),
          id_at_new s.born _ s.connections p q ∙ (==_iff uuid k).0 z,
          inl (ground (arith, q)),
        )
    | inr z ↦
        let old : find k s.tcp_connection_map ≡ some p =
          sym (find-put uuid k s.born s.tcp_connection_map ∙ rw z refl) ∙ e in
        let (y, same, live) = v.held k p old in
        (
          omega arith,
          id_at_old s.born _ s.connections p (ground arith) ∙ same,
          elim live [ inl r ↦ inl (ground (arith, r)) | inr t ↦ inr t ],
        )
  ];
  heard =
      update_all (λ p (d : Connection Callback). p < s.born + 1 → d.closed_cb ≡ some close_bound)
        s.born _ s.connections (λ _. refl) (λ p n y. v.heard p (ground arith));
}

-- The server that an accept leads to, if it leads to one.
Holds : Option Server → Type 0
Holds none = Unit
Holds (some s) = Kept s

read_socket-Holds :
    (res : Option ℕ) (uuid : ℕ) (s : Server) → Kept s → Holds (read_socket res uuid s)
unfolding read_socket Holds
read_socket-Holds none uuid s v = v
read_socket-Holds (some sockfd) uuid s v = elim (Bool-cases (ltb 0 sockfd)) [
  | inr z ↦ rw z v
  | inl z ↦ elim (Option-cases (next_home s.work_loop_pool)) [
    | inl h ↦ rw (z, h, read_socket) tt
    | inr (home, h) ↦ rw (z, h, read_socket) (make_connection-Kept sockfd uuid home s v)
  ]
]

run_first-Kept :
    (tasks : List ℕ) (s : Server)
    → s.close_tasks ≡ tasks
    → Kept s
    → Kept (elim tasks [
      | [] ↦ s
      | o ∷ rest ↦ close_callback_in_main_loop o (record s { close_tasks = rest })
    ])
unfolding close_callback_in_main_loop contains
run_first-Kept [] s e v = v
run_first-Kept (o ∷ rest) s e v = record {
  held = λ k p f.
      let (n, old) = erase_held o s v k p f in
      let (y, same, live) = v.held k p old in
      (
        y,
        same,
        elim live [
          | inl r ↦ inl r
          | inr t ↦
              let among : contains p (o ∷ rest) ≡ true =
                subst (λ tasks. contains p tasks ≡ true) e t in
              inr (ground (arith, n, among))
        ],
      );
  heard = v.heard;
}

module _ (grow : ℕ → ℕ → ℕ) where
  event-Kept :
      (o : ℕ) (e : Event Callback) (s : Server)
      → o < s.born
      → IsTidy e
      → Inv s
      → Kept s
      → Kept (connection_event grow o e s)
  unfolding connection_event
  event-Kept o e s young p w v =
      let t = handle-Tidy grow e (s.connections o) p (w.calm o) (v.heard o young) in
      brief-Kept o _ _ t.brief (store-Kept o _ s t.same t.heard v)

  step-Kept : {s t : Server} → Step grow IsTidy s t → Inv s → Kept s → Kept t
  unfolding Holds run_close
  step-Kept {s} (accept res uuid fresh e) w v = subst Holds e (read_socket-Holds res uuid s v)
  step-Kept {s} (event o e y p) w v = event-Kept o e s y p w v
  step-Kept {s} close w v = run_first-Kept s.close_tasks s refl v

  reachable-Kept : {pool : Option LoopPool} {s : Server} → Reachable grow IsTidy pool s → Kept s
  unfolding find
  reachable-Kept {pool} start = record {
    held = λ k o e. absurd (true≢false (sym (ap is_some e)));
    heard = λ o y. elim y [ ];
  }
  reachable-Kept (next r t) =
      step-Kept t (reachable-Inv grow IsTidy (λ e p. p.0) r) (reachable-Kept r)

  -- In every state that a server reaches by accepts with new ids, by events of its connections and
  -- by close tasks, where no user closes by force, registers a pipe by hand, takes one out of its
  -- loop or replaces a closed callback: an entry of the map stands under the id of its connection, and a loop holds the pipe of
  -- that connection or its close task waits in the main loop.
  pub no_leak :
      {pool : Option LoopPool} {s : Server} (k o : ℕ)
      → Reachable grow IsTidy pool s
      → find k s.tcp_connection_map ≡ some o
      → ((s.connections o).connection_id ≡ k)
        × ((contains o s.registered ≡ true) ⊎ (contains o s.close_tasks ≡ true))
  no_leak k o r e = let (y, same, live) = (reachable-Kept r).held k o e in (same, live)
