-- ===== src/Aio/Files/Managed.antt =====
-- What the manager holds, against what the operators have noted.
use trantor_net.Base.{
  ℕ, ◌≡◌, refl, sym, ◌∙◌, ap, ap₂, subst, Bool, false, ◌&&◌, ◌==◌, if◌then◌else◌, List, [], ◌∷◌,
  ◌++◌, Bool-cases, inl, inr, arith,
}
use trantor_net.Tcp.Server.{update}
use trantor_net.Tcp.Server.Invariant.{update_all, update_self}
use trantor_net.Aio.Operator.{
  Effect, insert_reader, insert_writer, erase_reader, erase_writer, trig_read, registered, deleted,
  closed, wakeup, accepted, sent, received, finish, Operator, enable_reading, set_events,
}
use trantor_net.Aio.Manager.{
  insert_write_fdop, insert_read_fdop, erase_write_fdop, erase_read_fdop, trig_read_event,
}
use trantor_net.Aio.Manager.Sets.{
  has, has-join, has-leave, IsInhabited, join-IsInhabited, leave-IsInhabited,
}
use trantor_net.Aio.Files.{Files, wake_readers, react, react_all, noted, change}
use trantor_net.Aio.Files.Entries.{if_step, Stepped, Stepped-here, Stepped-other}
use trantor_net.Aio.Files.Standing.{
  writes_step, writes_after, reads_step, reads_after, noted-append, writes_after-append,
  reads_after-append,
}

module _ {U : Type 0} where
  -- What `enableReading` keeps of each operator, waking keeps.
  pub wake_all :
      (P : ℕ → Operator U → Type 0)
      → ((j : ℕ) (o : Operator U) → P j o → P j (enable_reading o))
      → (ids : List ℕ) (operators : ℕ → Operator U) → ((j : ℕ) → P j (operators j))
      → (j : ℕ) → P j (wake_readers ids operators j)
  unfolding wake_readers
  wake_all P keeps [] operators h = h
  wake_all P keeps (id ∷ ids) operators h =
      wake_all P keeps ids _
        (update_all P id (enable_reading (operators id)) operators (keeps id _ (h id)) (λ j _. h j))

  pub react_keeps :
      (P : ℕ → Operator U → Type 0)
      → ((j : ℕ) (o : Operator U) → P j o → P j (enable_reading o))
      → (id : ℕ) (e : Effect U) (w : Files U) → ((j : ℕ) → P j (w.operators j))
      → (j : ℕ) → P j ((react id e w).operators j)
  unfolding react
  react_keeps P keeps id erase_writer w h =
      wake_all P keeps (erase_write_fdop (w.operators id).file_path id w.manager).1 w.operators h
  react_keeps P keeps id trig_read w h =
      wake_all P keeps (trig_read_event (w.operators id).file_path w.manager) w.operators h
  react_keeps P keeps id insert_writer w h = h
  react_keeps P keeps id insert_reader w h = h
  react_keeps P keeps id erase_reader w h = h
  react_keeps P keeps id registered w h = h
  react_keeps P keeps id deleted w h = h
  react_keeps P keeps id closed w h = h
  react_keeps P keeps id wakeup w h = h
  react_keeps P keeps id (accepted bytes) w h = h
  react_keeps P keeps id (sent bytes) w h = h
  react_keeps P keeps id (received bytes) w h = h
  react_keeps P keeps id (finish f) w h = h

  pub react_all_keeps :
      (P : ℕ → Operator U → Type 0)
      → ((j : ℕ) (o : Operator U) → P j o → P j (enable_reading o))
      → (id : ℕ) (es : List (Effect U)) (w : Files U) → ((j : ℕ) → P j (w.operators j))
      → (j : ℕ) → P j ((react_all id es w).operators j)
  unfolding react_all
  react_all_keeps P keeps id [] w h = h
  react_all_keeps P keeps id (e ∷ es) w h =
      react_keeps P keeps id e (react_all id es w) (react_all_keeps P keeps id es w h)

  -- One call, as the manager sees it.
  react_writers :
      (id : ℕ) (e : Effect U) (w : Files U) (q j : ℕ)
      → has q j (react id e w).manager.write_fdop_map ≡ (
          if ((w.operators id).file_path == q) && (id == j)
          then writes_step e (has q j w.manager.write_fdop_map)
          else has q j w.manager.write_fdop_map)
  unfolding react insert_write_fdop insert_read_fdop erase_write_fdop erase_read_fdop
  react_writers id insert_writer w q j = has-join _ id q j w.manager.write_fdop_map
  react_writers id erase_writer w q j = has-leave _ id q j w.manager.write_fdop_map
  react_writers id trig_read w q j = ground arith
  react_writers id insert_reader w q j = ground arith
  react_writers id erase_reader w q j = ground arith
  react_writers id registered w q j = ground arith
  react_writers id deleted w q j = ground arith
  react_writers id closed w q j = ground arith
  react_writers id wakeup w q j = ground arith
  react_writers id (accepted bytes) w q j = ground arith
  react_writers id (sent bytes) w q j = ground arith
  react_writers id (received bytes) w q j = ground arith
  react_writers id (finish f) w q j = ground arith

  react_readers :
      (id : ℕ) (e : Effect U) (w : Files U) (q j : ℕ)
      → has q j (react id e w).manager.read_fdop_map ≡ (
          if ((w.operators id).file_path == q) && (id == j)
          then reads_step e (has q j w.manager.read_fdop_map)
          else has q j w.manager.read_fdop_map)
  unfolding react insert_write_fdop insert_read_fdop erase_write_fdop erase_read_fdop
  react_readers id insert_reader w q j = has-join _ id q j w.manager.read_fdop_map
  react_readers id erase_reader w q j = has-leave _ id q j w.manager.read_fdop_map
  react_readers id trig_read w q j = ground arith
  react_readers id insert_writer w q j = ground arith
  react_readers id erase_writer w q j = ground arith
  react_readers id registered w q j = ground arith
  react_readers id deleted w q j = ground arith
  react_readers id closed w q j = ground arith
  react_readers id wakeup w q j = ground arith
  react_readers id (accepted bytes) w q j = ground arith
  react_readers id (sent bytes) w q j = ground arith
  react_readers id (received bytes) w q j = ground arith
  react_readers id (finish f) w q j = ground arith

  -- No call but `openFd` changes the path of an operator.
  path_of_react_all :
      (id : ℕ) (es : List (Effect U)) (w : Files U) (j : ℕ)
      → ((react_all id es w).operators j).file_path ≡ (w.operators j).file_path
  unfolding set_events
  path_of_react_all id es w =
      react_all_keeps (λ j o. o.file_path ≡ (w.operators j).file_path) (λ j o e. e) id es w
        (λ j. refl)

  react_all_writers :
      (id : ℕ) (es : List (Effect U)) (w : Files U) (q j : ℕ)
      → has q j (react_all id es w).manager.write_fdop_map ≡ (
          if ((w.operators id).file_path == q) && (id == j)
          then writes_after es (has q j w.manager.write_fdop_map)
          else has q j w.manager.write_fdop_map)
  unfolding react_all
  react_all_writers id [] w q j = ground arith
  react_all_writers id (e ∷ es) w q j =
      if_step (((w.operators id).file_path == q) && (id == j)) (writes_step e) (writes_after es) _ _
        _
        (subst (Stepped (writes_step e) id q j _ _) (path_of_react_all id es w id)
          (react_writers id e (react_all id es w) q j))
        (react_all_writers id es w q j)

  react_all_readers :
      (id : ℕ) (es : List (Effect U)) (w : Files U) (q j : ℕ)
      → has q j (react_all id es w).manager.read_fdop_map ≡ (
          if ((w.operators id).file_path == q) && (id == j)
          then reads_after es (has q j w.manager.read_fdop_map)
          else has q j w.manager.read_fdop_map)
  unfolding react_all
  react_all_readers id [] w q j = ground arith
  react_all_readers id (e ∷ es) w q j =
      if_step (((w.operators id).file_path == q) && (id == j)) (reads_step e) (reads_after es) _ _ _
        (subst (Stepped (reads_step e) id q j _ _) (path_of_react_all id es w id)
          (react_readers id e (react_all id es w) q j))
        (react_all_readers id es w q j)

  react-IsInhabited :
      (id : ℕ) (e : Effect U) (w : Files U)
      → IsInhabited w.manager.write_fdop_map
      → IsInhabited (react id e w).manager.write_fdop_map
  unfolding react insert_write_fdop insert_read_fdop erase_write_fdop erase_read_fdop
  react-IsInhabited id insert_writer w h = join-IsInhabited _ id _ h
  react-IsInhabited id erase_writer w h = leave-IsInhabited _ id _ h
  react-IsInhabited id trig_read w h = h
  react-IsInhabited id insert_reader w h = h
  react-IsInhabited id erase_reader w h = h
  react-IsInhabited id registered w h = h
  react-IsInhabited id deleted w h = h
  react-IsInhabited id closed w h = h
  react-IsInhabited id wakeup w h = h
  react-IsInhabited id (accepted bytes) w h = h
  react-IsInhabited id (sent bytes) w h = h
  react-IsInhabited id (received bytes) w h = h
  react-IsInhabited id (finish f) w h = h

  react_all-IsInhabited :
      (id : ℕ) (es : List (Effect U)) (w : Files U)
      → IsInhabited w.manager.write_fdop_map
      → IsInhabited (react_all id es w).manager.write_fdop_map
  unfolding react_all
  react_all-IsInhabited id [] w h = h
  react_all-IsInhabited id (e ∷ es) w h =
      react-IsInhabited id e (react_all id es w) (react_all-IsInhabited id es w h)

  -- The manager holds what has been noted and not taken back, under the path of the operator.
  pub record Managed (w : Files U) : Type 0 where
    pub writing :
        (q j : ℕ)
        → has q j w.manager.write_fdop_map
          ≡ ((w.operators j).file_path == q) && writes_after (w.operators j).effects false
    pub reading :
        (q j : ℕ)
        → has q j w.manager.read_fdop_map
          ≡ ((w.operators j).file_path == q) && reads_after (w.operators j).effects false
    pub inhabited : IsInhabited w.manager.write_fdop_map

  -- How an operator stands to the manager.
  abbrev IsLike : Operator U → Operator U → Type 0
  IsLike o p =
      (p.file_path ≡ o.file_path)
      × (writes_after p.effects false ≡ writes_after o.effects false)
      × (reads_after p.effects false ≡ reads_after o.effects false)

  enable-IsLike : (o p : Operator U) → IsLike o p → IsLike o (enable_reading p)
  unfolding set_events
  enable-IsLike o p (a, b, c) = elim (Bool-cases p.registered_to_poll) [
    | inl e ↦ rw e (a, b, c)
    | inr e ↦ rw e (a, b, c)
  ]

  -- An operator has changed, and the manager and the other operators have been told.
  pub change-Managed :
      (id : ℕ) (o : Operator U) (w : Files U) (added : List (Effect U))
      → o.effects ≡ added ++ (w.operators id).effects
      → ((q : ℕ)
          → has q id w.manager.write_fdop_map
            ≡ (o.file_path == q) && writes_after (w.operators id).effects false)
      → ((q : ℕ)
          → has q id w.manager.read_fdop_map
            ≡ (o.file_path == q) && reads_after (w.operators id).effects false)
      → Managed w
      → Managed (change id o w)
  unfolding change
  change-Managed id o w added grown at_writing at_reading v =
      let before = w.operators id in
      let placed : Files U = record w { operators = update id o w.operators } in
      let es = noted before.effects o.effects in
      let is_added : es ≡ added =
        ap (noted before.effects) grown ∙ noted-append added before.effects in
      let like =
        react_all_keeps (λ j p. IsLike (update id o w.operators j) p)
          (λ j p h. enable-IsLike (update id o w.operators j) p h) id es placed
          (λ j. (refl, refl, refl)) in
      let path : (placed.operators id).file_path ≡ o.file_path =
        ap (λ (p : Operator U). p.file_path) (update_self id o w.operators) in
      record {
        writing = λ q j.
            update_all
              (λ k p.
                has q k (react_all id es placed).manager.write_fdop_map
                ≡ (p.file_path == q) && writes_after p.effects false)
              id o w.operators
              (Stepped-here (writes_after es) id q o.file_path _ _
                (writes_after before.effects false) (writes_after o.effects false)
                (subst (Stepped (writes_after es) id q id _ _) path
                  (react_all_writers id es placed q id))
                (at_writing q)
                (ap (λ (xs : List (Effect U)). writes_after xs false) grown
                  ∙ writes_after-append added before.effects
                  ∙ ap
                      (λ (xs : List (Effect U)).
                        writes_after xs (writes_after before.effects false))
                      (sym is_added)))
              (λ k n.
                Stepped-other (writes_after es) id q k _ _ _ n (react_all_writers id es placed q k)
                ∙ v.writing q k)
              j
            ∙ ap₂ (λ (p : ℕ) (b : Bool). (p == q) && b) (sym (like j).0) (sym (like j).1);
        reading = λ q j.
            update_all
              (λ k p.
                has q k (react_all id es placed).manager.read_fdop_map
                ≡ (p.file_path == q) && reads_after p.effects false)
              id o w.operators
              (Stepped-here (reads_after es) id q o.file_path _ _ (reads_after before.effects false)
                (reads_after o.effects false)
                (subst (Stepped (reads_after es) id q id _ _) path
                  (react_all_readers id es placed q id))
                (at_reading q)
                (ap (λ (xs : List (Effect U)). reads_after xs false) grown
                  ∙ reads_after-append added before.effects
                  ∙ ap (λ (xs : List (Effect U)). reads_after xs (reads_after before.effects false))
                      (sym is_added)))
              (λ k n.
                Stepped-other (reads_after es) id q k _ _ _ n (react_all_readers id es placed q k)
                ∙ v.reading q k)
              j
            ∙ ap₂ (λ (p : ℕ) (b : Bool). (p == q) && b) (sym (like j).0) (sym (like j).2);
        inhabited = react_all-IsInhabited id es placed v.inhabited;
      }
