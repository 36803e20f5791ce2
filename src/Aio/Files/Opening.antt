-- ===== src/Aio/Files/Opening.antt =====
-- `openFd` of an operator that has not been used, as the manager and the loop see it.
use Prim.Native.Nat.{bit_or}
use trantor_net.Base.{
  ℕ, ◌≡◌, refl, sym, ◌∙◌, subst, Bool, true, false, ◌&&◌, ◌==◌, Option, none, some, List, [], ◌∷◌,
  ◌++◌, ltb, if_cases, arith,
}
use mathlib.Core.Bool.{true≢false}
use trantor_net.Tcp.Server.{update}
use trantor_net.Tcp.Server.Invariant.{update_self, update_all}
use trantor_net.Aio.Operator.{
  Mode, read_mode, write_mode, write_append, Effect, insert_reader, insert_writer, wake, Operator,
  set_events, enable_reading, open_as, open_fd,
}
use trantor_net.Aio.Operator.Invariant.{Inv, IsWhole, set_events-Inv}
use trantor_net.Aio.Operator.Idle.{IsIdle, set_events-IsIdle}
use trantor_net.Aio.Operator.Stream.{open_as-Inv, open_as-IsIdle}
use trantor_net.Aio.Manager.{wait_to_write}
use trantor_net.Aio.Manager.Sets.{has}
use trantor_net.Aio.Files.{Files, noted, react, react_all, change, open_file}
use trantor_net.Aio.Files.Standing.{
  Stands, Stands-Keeps, writes_after, reads_after, never_closed, has_file,
}
use trantor_net.Aio.Files.Managed.{Managed, change-Managed, react_all_keeps}
use trantor_net.Aio.Files.Watching.{still_watched, IsMask, IsAlert, or_read, or_write}
use trantor_net.Aio.Files.Alert.{Alert, AreReady, change-Alert}

-- An operator that has no effects is in no set, whatever its path.
fresh_entry : (p q r : ℕ) (x b : Bool) → x ≡ (p == q) && b → b ≡ false → x ≡ (r == q) && b
fresh_entry p q r x b e f = e ∙ rw f (ground arith)

wake-none :
    (U : Type 0) (b : Bool)
    → (writes_after {U = U} (wake b []) false ≡ false)
      × (reads_after {U = U} (wake b []) false ≡ false)
      × (never_closed {U = U} (wake b []) ≡ true)
wake-none U true = (refl, refl, refl)
wake-none U false = (refl, refl, refl)

module _ {U : Type 0} where
  -- What holds of each operator by itself.
  abbrev pub IsGood : Operator U → Type 0
  IsGood o = Inv o.fd_mode o × IsIdle o × Stands o

  pub record Sound (w : Files U) : Type 0 where
    pub managed : Managed w
    pub alerts : Alert w
    pub good : (j : ℕ) → IsGood (w.operators j)

  enable-IsGood : (o : Operator U) → IsGood o → IsGood (enable_reading o)
  unfolding set_events
  enable-IsGood o (v, w, s) = (
    set_events-Inv o.fd_mode (bit_or o.events 0x3) o v,
    set_events-IsIdle (bit_or o.events 0x3) o w,
    Stands-Keeps.reads o s,
  )

  pub change-IsGood :
      (id : ℕ) (o : Operator U) (w : Files U)
      → IsGood o
      → ((j : ℕ) → IsGood (w.operators j))
      → (j : ℕ) → IsGood ((change id o w).operators j)
  unfolding change
  change-IsGood id o w g h =
      react_all_keeps (λ j p. IsGood p) (λ j p. enable-IsGood p) id
        (noted (w.operators id).effects o.effects)
        (record w { operators = update id o w.operators })
        (update_all (λ j p. IsGood p) id o w.operators g (λ j _. h j))

  abbrev insert_of : Mode → Effect U
  insert_of read_mode = insert_reader
  insert_of _ = insert_writer

  abbrev as_opened : ℕ → ℕ → Mode → Operator U → Operator U
  as_opened fd path mode o = record o { fd = some fd; file_path = path; fd_mode = mode }

  open_as-grown :
      (mode : Mode) (o : Operator U)
      → (open_as mode o).effects ≡ insert_of mode ∷ wake o.registered_to_poll o.effects
  unfolding open_as set_events
  open_as-grown read_mode o = refl
  open_as-grown write_mode o = refl
  open_as-grown write_append o = refl

  as_opened-Inv :
      (fd path : ℕ) (mode : Mode) (o : Operator U)
      → o.effects ≡ []
      → Inv o.fd_mode o
      → Inv mode (as_opened fd path mode o)
  as_opened-Inv fd path mode o e v = record {
    mode = refl;
    valid_out = v.valid_out;
    valid_in = v.valid_in;
    written = v.written;
    taken = v.taken;
    whole = subst (IsWhole mode) (sym e) tt;
  }

  opened-Stands :
      (fd path : ℕ) (mode : Mode) (o : Operator U)
      → o.effects ≡ []
      → ltb 0 fd ≡ true
      → Stands (open_as mode (as_opened fd path mode o))
  unfolding open_as set_events
  opened-Stands fd path read_mode o e pos =
      let (none_writes, none_reads, live) = wake-none U o.registered_to_poll in
      record { as_writer = rw (e, none_writes) (ground arith); as_reader = rw (e, live, pos) refl }
  opened-Stands fd path write_mode o e pos =
      let (none_writes, none_reads, live) = wake-none U o.registered_to_poll in
      record { as_writer = rw (e, live, pos) refl; as_reader = rw (e, none_reads) (ground arith) }
  opened-Stands fd path write_append o e pos =
      let (none_writes, none_reads, live) = wake-none U o.registered_to_poll in
      record { as_writer = rw (e, live, pos) refl; as_reader = rw (e, none_reads) (ground arith) }

  opened-IsMask : (mode : Mode) (o : Operator U) → IsMask o.events → IsMask (open_as mode o).events
  unfolding open_as set_events
  opened-IsMask read_mode o m = (or_read o.events m).0
  opened-IsMask write_mode o m = (or_write o.events m).0
  opened-IsMask write_append o m = (or_write o.events m).0

  open_as-kept :
      (mode : Mode) (o : Operator U)
      → ((open_as mode o).fd_mode ≡ o.fd_mode) × ((open_as mode o).file_path ≡ o.file_path)
  unfolding open_as set_events
  open_as-kept read_mode o = (refl, refl)
  open_as-kept write_mode o = (refl, refl)
  open_as-kept write_append o = (refl, refl)

  wake-append :
      (mode : Mode) (b : Bool) → insert_of mode ∷ wake b [] ≡ (insert_of mode ∷ wake b []) ++ []
  wake-append mode true = refl
  wake-append mode false = refl

  wake-AreReady : (id : ℕ) (b : Bool) (w : Files U) → AreReady id (wake b []) w
  wake-AreReady id true w = (tt, tt)
  wake-AreReady id false w = tt

  opened-IsGood :
      (fd path : ℕ) (mode : Mode) (o : Operator U)
      → o.effects ≡ []
      → ltb 0 fd ≡ true
      → IsGood o
      → IsGood (open_as mode (as_opened fd path mode o))
  opened-IsGood fd path mode o e pos (v, w, s) = (
    subst (λ m. Inv m (open_as mode (as_opened fd path mode o)))
        (sym (open_as-kept mode (as_opened fd path mode o)).0)
        (open_as-Inv mode _ (as_opened-Inv fd path mode o e v)),
    open_as-IsIdle mode (as_opened fd path mode o) w,
    opened-Stands fd path mode o e pos,
  )

  wake-placed :
      (id : ℕ) (b : Bool) (w : Files U) → (react_all id (wake b []) w).operators ≡ w.operators
  unfolding react_all react
  wake-placed id true w = refl
  wake-placed id false w = refl

  opened-AreReady :
      (id : ℕ) (mode : Mode) (o : Operator U) (w : Files U)
      → IsMask o.events
      → w.operators id ≡ open_as mode o
      → AreReady id (insert_of mode ∷ wake o.registered_to_poll []) w
  unfolding open_as set_events
  opened-AreReady id read_mode o w m e = (
    rw (wake-placed id o.registered_to_poll w, e) (or_read o.events m).1,
    wake-AreReady id o.registered_to_poll w,
  )
  opened-AreReady id write_mode o w m e = (tt, wake-AreReady id o.registered_to_poll w)
  opened-AreReady id write_append o w m e = (tt, wake-AreReady id o.registered_to_poll w)

  -- An operator has changed, and it and what its calls reach are in order.
  pub change-Sound :
      (id : ℕ) (o : Operator U) (w : Files U) (added : List (Effect U))
      → o.effects ≡ added ++ (w.operators id).effects
      → ((q : ℕ)
          → has q id w.manager.write_fdop_map
            ≡ (o.file_path == q) && writes_after (w.operators id).effects false)
      → ((q : ℕ)
          → has q id w.manager.read_fdop_map
            ≡ (o.file_path == q) && reads_after (w.operators id).effects false)
      → AreReady id added (record w { operators = update id o w.operators })
      → IsMask o.events
      → ((q : ℕ) → has q id w.manager.read_fdop_map ≡ true → IsAlert (wait_to_write q w.manager) o)
      → IsGood o
      → Sound w
      → Sound (change id o w)
  change-Sound id o w added grown at_writing at_reading ready mask alert g v = record {
    managed = change-Managed id o w added grown at_writing at_reading v.managed;
    alerts = change-Alert id o w added grown ready mask alert v.alerts;
    good = change-IsGood id o w g v.good;
  }

  -- The descriptor alone has changed.
  failed-Sound :
      (id : ℕ) (fd : Option ℕ) (w : Files U)
      → (w.operators id).effects ≡ []
      → has_file fd ≡ false
      → Sound w
      → Sound (change id (record (w.operators id) { fd = fd }) w)
  failed-Sound id fd w e unopened v =
      let o = w.operators id in
      let (i, idle, s) = v.good id in
      change-Sound id (record o { fd = fd }) w [] refl (λ q. v.managed.writing q id)
        (λ q. v.managed.reading q id) tt (v.alerts.masks id)
        (λ q h.
          still_watched (wait_to_write q w.manager) o _ (λ z. z) (λ z. z) (omega arith)
            (v.alerts.alert q id h))
        (
          record {
            mode = i.mode;
            valid_out = i.valid_out;
            valid_in = i.valid_in;
            written = i.written;
            taken = i.taken;
            whole = i.whole;
          },
          idle,
          record { as_writer = rw (e, unopened) refl; as_reader = rw (e, unopened) refl },
        )
        v

  opened-Sound :
      (id fd path : ℕ) (mode : Mode) (w : Files U)
      → (w.operators id).effects ≡ []
      → ltb 0 fd ≡ true
      → Sound w
      → Sound (change id (open_as mode (as_opened fd path mode (w.operators id))) w)
  opened-Sound id fd path mode w e pos v =
      let o = w.operators id in
      let o' = as_opened fd path mode o in
      let unread : (q : ℕ) → has q id w.manager.read_fdop_map ≡ false =
        λ q. v.managed.reading q id ∙ rw e (ground arith) in
      change-Sound id (open_as mode o') w (insert_of mode ∷ wake o.registered_to_poll [])
        (open_as-grown mode o' ∙ rw e (wake-append mode o.registered_to_poll))
        (λ q. v.managed.writing q id ∙ rw e (ground arith))
        (λ q. v.managed.reading q id ∙ rw e (ground arith))
        (opened-AreReady id mode o' _ (v.alerts.masks id) (update_self id _ w.operators))
        (opened-IsMask mode o' (v.alerts.masks id)) (λ q h. absurd (true≢false (sym h ∙ unread q)))
        (opened-IsGood fd path mode o e pos (v.good id)) v

  pub open_file-Sound :
      (id : ℕ) (res : Option ℕ) (path : ℕ) (mode : Mode) (w : Files U)
      → (w.operators id).effects ≡ []
      → Sound w
      → Sound (open_file id res path mode w)
  unfolding open_file open_fd
  open_file-Sound id none path mode w e v = failed-Sound id none w e refl v
  open_file-Sound id (some fd) path mode w e v =
      if_cases (λ (r : Bool × Operator U). Sound (change id r.1 w)) (ltb 0 fd) _ _
        (λ pos. opened-Sound id fd path mode w e pos v)
        (λ none. failed-Sound id (some fd) w e none v)
