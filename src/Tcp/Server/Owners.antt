-- ===== src/Tcp/Server/Owners.antt =====
-- Who keeps a connection of the server alive.
use trantor_net.Base.{
  contains, ℕ, ◌+◌, ◌<◌, ◌≡◌, ◌≢◌, refl, sym, ◌∙◌, true, false, Option, none, some, List, [], ◌∷◌,
  ltb, arith, Bool-cases, Option-cases, subst, inl, inr,
}
use mathlib.Core.Bool.{true≢false}
use trantor_net.Net.Loop.{find, put}
use trantor_net.Net.Loop.Sync.{find-put}
use trantor_net.Tcp.Connection.{Connection, Event}
use trantor_net.Net.LoopPool.{LoopPool}
use trantor_net.Tcp.Server.{
  Callback, Server, update, close_callback_in_main_loop, react, react_all, store,
  new_connection_callback, make_connection, next_home, read_socket, run_close, connection_event,
  new_server,
}
use trantor_net.Tcp.Server.Invariant.{update_all, is_full, Inv, react_all-Inv, in_main_loop-Inv}
use trantor_net.Tcp.Server.Conduct.{IsPolite, handle-Conduct}

module _ (grow : ℕ → ℕ → ℕ) where
  store-Inv :
      (o : ℕ) (c : Connection Callback) (s : Server)
      → c.connection_id ≡ (s.connections o).connection_id
      → is_full (c.shutdown_write_callback) ≡ false
      → Inv s
      → Inv (store o c s)
  unfolding store
  store-Inv o c s same calm v =
      let id_of : (p : ℕ)
          → (update o c s.connections p).connection_id ≡ (s.connections p).connection_id =
        update_all
          (λ p (d : Connection Callback). d.connection_id ≡ (s.connections p).connection_id) o c
          s.connections same (λ p n. refl) in
      record {
        owned = λ p h. let (y, own) = v.owned p h in (y, rw (id_of p) own);
        leaving = v.leaving;
        ids = λ p q y z e. v.ids p q y z (sym (id_of p) ∙ e ∙ id_of q);
        calm =
            update_all (λ p (d : Connection Callback). is_full (d.shutdown_write_callback) ≡ false)
              o c s.connections calm (λ p n. v.calm p);
      }

  connection_event-Inv :
      (o : ℕ) (e : Event Callback) (s : Server)
      → o < s.born
      → IsPolite e
      → Inv s
      → Inv (connection_event grow o e s)
  unfolding connection_event store
  connection_event-Inv o e s young p v =
      let w = handle-Conduct grow e (s.connections o) p (v.calm o) in
      react_all-Inv o _ _ young w.orderly (store-Inv o _ s w.same w.calm v)

-- The ids that `getuuid` returns are new.
abbrev pub IsFresh : ℕ → Server → Type 0
IsFresh uuid s = (o : ℕ) → o < s.born → (s.connections o).connection_id ≢ uuid

new_ids :
    (c : Connection Callback) (s : Server)
    → IsFresh c.connection_id s
    → Inv s
    → (p q : ℕ) → p < s.born + 1
    → q < s.born + 1
    → (update s.born c s.connections p).connection_id
      ≡ (update s.born c s.connections q).connection_id
    → p ≡ q
new_ids c s fresh v =
    update_all
      (λ p (d : Connection Callback).
        (q : ℕ)
        → p < s.born + 1
        → q < s.born + 1
        → d.connection_id ≡ (update s.born c s.connections q).connection_id
        → p ≡ q)
      s.born c s.connections
      (update_all
        (λ q (d : Connection Callback).
          s.born < s.born + 1 → q < s.born + 1 → c.connection_id ≡ d.connection_id → s.born ≡ q)
        s.born c s.connections (λ y z e. refl)
        (λ q n y z e. absurd (fresh q (ground arith) (sym e))))
      (λ p n.
        update_all
          (λ q (d : Connection Callback).
            p < s.born + 1
            → q < s.born + 1
            → (s.connections p).connection_id ≡ d.connection_id
            → p ≡ q)
          s.born c s.connections (λ y z e. absurd (fresh p (ground arith) e))
          (λ q k y z e. v.ids p q (ground arith) (ground arith) e))

make_connection-Inv :
    (sockfd uuid : ℕ) (home : Option ℕ × Option LoopPool) (s : Server)
    → IsFresh uuid s
    → Inv s
    → Inv (make_connection sockfd uuid home s)
unfolding make_connection new_connection_callback store react_all react contains
make_connection-Inv sockfd uuid (home, pool) s fresh v =
    let m = put uuid s.born s.tcp_connection_map in
    record {
      owned =
          update_all
            (λ p (d : Connection Callback).
              contains p (s.born ∷ s.registered) ≡ true
              → (p < s.born + 1) × (find d.connection_id m ≡ some p))
            s.born _ s.connections
            (λ h. (omega arith, find-put uuid uuid s.born s.tcp_connection_map ∙ ground arith))
            (λ p n h.
              let (y, own) = v.owned p (ground arith) in
              (
                omega arith,
                find-put uuid _ s.born s.tcp_connection_map ∙ ground (arith, fresh p y, own),
              ));
      leaving = λ p h. let (y, gone) = v.leaving p h in (omega arith, ground (arith, gone));
      ids = new_ids _ s fresh v;
      calm =
          update_all (λ p (d : Connection Callback). is_full d.shutdown_write_callback ≡ false)
            s.born _ s.connections refl (λ p n. v.calm p);
    }

-- The server that an accept leads to, if it leads to one.
Holds : Option Server → Type 0
Holds none = Unit
Holds (some s) = Inv s

read_socket-Holds :
    (res : Option ℕ) (uuid : ℕ) (s : Server)
    → IsFresh uuid s
    → Inv s
    → Holds (read_socket res uuid s)
unfolding read_socket Holds
read_socket-Holds none uuid s fresh v = v
read_socket-Holds (some sockfd) uuid s fresh v = elim (Bool-cases (ltb 0 sockfd)) [
  | inr z ↦ rw z v
  | inl z ↦ elim (Option-cases (next_home s.work_loop_pool)) [
    | inl h ↦ rw (z, h, read_socket) tt
    | inr (home, h) ↦ rw (z, h, read_socket) (make_connection-Inv sockfd uuid home s fresh v)
  ]
]

run_first-Inv :
    (tasks : List ℕ) (s : Server)
    → s.close_tasks ≡ tasks
    → Inv s
    → Inv (elim tasks [
      | [] ↦ s
      | o ∷ rest ↦ close_callback_in_main_loop o (record s { close_tasks = rest })
    ])
unfolding contains
run_first-Inv [] s e v = v
run_first-Inv (o ∷ rest) s e v =
    let (y, gone) = v.leaving o (rw e (ground arith)) in
    in_main_loop-Inv o _ y gone (record {
      owned = v.owned;
      leaving = λ p h. v.leaving p (rw e (ground (arith, h)));
      ids = v.ids;
      calm = v.calm;
    })

run_close-Inv : (s : Server) → Inv s → Inv (run_close s)
unfolding run_close
run_close-Inv s v = run_first-Inv s.close_tasks s refl v

module _ (grow : ℕ → ℕ → ℕ) where
  -- The steps of a server: an accept, an event of a connection that was accepted, of those allowed,
  -- and the next close task.
  pub data Step (IsAllowed : Event Callback → Type 0) : Server → Server → Type 0 where
    accept :
        {s t : Server} (res : Option ℕ) (uuid : ℕ)
        → IsFresh uuid s
        → read_socket res uuid s ≡ some t
        → Step IsAllowed s t
    event :
        {s : Server} (o : ℕ) (e : Event Callback)
        → o < s.born
        → IsAllowed e
        → Step IsAllowed s (connection_event grow o e s)
    close : {s : Server} → Step IsAllowed s (run_close s)

  pub data Reachable (IsAllowed : Event Callback → Type 0) (pool : Option LoopPool)
      : Server → Type 0 where
    start : Reachable IsAllowed pool (new_server pool)
    next :
        {s t : Server}
        → Reachable IsAllowed pool s
        → Step IsAllowed s t
        → Reachable IsAllowed pool t

  new_server-Inv : (pool : Option LoopPool) → Inv (new_server pool)
  unfolding contains
  new_server-Inv pool = record {
    owned = λ o h. absurd (true≢false (sym h));
    leaving = λ o h. absurd (true≢false (sym h));
    ids = λ o p y z e. elim y [ ];
    calm = λ o. refl;
  }

  module _ (IsAllowed : Event Callback → Type 0)
      (polite : (e : Event Callback) → IsAllowed e → IsPolite e) where
    step-Inv : {s t : Server} → Step IsAllowed s t → Inv s → Inv t
    unfolding Holds
    step-Inv {s} (accept res uuid fresh e) v = subst Holds e (read_socket-Holds res uuid s fresh v)
    step-Inv {s} (event o e y p) v = connection_event-Inv grow o e s y (polite e p) v
    step-Inv {s} close v = run_close-Inv s v

    pub reachable-Inv : {pool : Option LoopPool} {s : Server} → Reachable IsAllowed pool s → Inv s
    reachable-Inv {pool} start = new_server-Inv pool
    reachable-Inv (next r t) = step-Inv t (reachable-Inv r)

  -- In every state that a server reaches by accepts with new ids, by events of its connections and
  -- by close tasks, where no user closes by force or registers a pipe by hand: each connection whose
  -- pipe a loop holds is in the map of the server, under the connection's id.
  pub no_dangling :
      {pool : Option LoopPool} {s : Server} (o : ℕ)
      → Reachable IsPolite pool s
      → contains o s.registered ≡ true
      → find (s.connections o).connection_id s.tcp_connection_map ≡ some o
  no_dangling o r h = ((reachable-Inv IsPolite (λ e p. p) r).owned o h).1
