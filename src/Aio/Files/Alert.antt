-- ===== src/Aio/Files/Alert.antt =====
-- Is every reader that the manager holds woken in time?
use trantor_net.Base.{
  ==_iff, ℕ, ◌≡◌, inl, inr, refl, sym, ◌∙◌, ap, subst, Bool, true, false, ◌&&◌, ◌==◌, List, [], ◌∷◌,
  ◌++◌, All, Bool-cases, Option-cases, if◌then◌else◌, contains, arith, without,
}
use mathlib.Core.Bool.{true≢false}
use trantor_net.Net.Pipe.{has_event}
use trantor_net.Net.Loop.{find}
use trantor_net.Net.Loop.Sync.{find-put, find-erase}
use trantor_net.Tcp.Server.{update}
use trantor_net.Tcp.Server.Invariant.{update_all}
use trantor_net.Aio.Operator.{
  Effect, insert_reader, insert_writer, erase_reader, erase_writer, trig_read, registered, deleted,
  closed, wakeup, accepted, sent, received, finish, Operator, enable_reading,
}
use trantor_net.Aio.Manager.{
  Manager, FdMap, members, join, leave, leave_behind, is_some_list, wait_to_write,
  insert_write_fdop, insert_read_fdop, erase_write_fdop, erase_read_fdop,
}
use trantor_net.Aio.Manager.Sets.{has, has-join, has-leave}
use trantor_net.Aio.Files.{Files, wake_readers, react, react_all, noted, change}
use trantor_net.Aio.Files.Standing.{IsLater, noted-append}
use trantor_net.Aio.Files.Managed.{wake_all, react_keeps}
use trantor_net.Aio.Files.Watching.{
  IsMask, IsAlert, at_eof, polling, waiting, filled, enable-IsWatching, enable_reading-polls,
}

find-leave_behind :
    (p q : ℕ) (rest : List ℕ) (m : FdMap)
    → (p == q) ≡ false
    → find q (leave_behind p rest m) ≡ find q m
unfolding leave_behind
find-leave_behind p q [] m h = find-erase p q m ∙ rw h refl
find-leave_behind p q (x ∷ rest) m h = find-put p q (x ∷ rest) m ∙ rw h refl

-- Who leaves one path leaves the others as they are.
find-leave : (p q i : ℕ) (m : FdMap) → (p == q) ≡ false → find q (leave p i m) ≡ find q m
unfolding leave
find-leave p q i m h = elim (Option-cases (find p m)) [
  | inl e ↦ rw (e, leave) refl
  | inr (xs, e) ↦ rw (e, leave) (find-leave_behind p q (without i xs) m h)
]

abbrev joined : ℕ → ℕ → Manager → List ℕ
joined p i m =
    let fdops = members p m.write_fdop_map in if contains i fdops then fdops else i ∷ fdops

waits_more :
    (p q i : ℕ) (m : Manager)
    → wait_to_write q m ≡ true
    → wait_to_write q (insert_write_fdop p i m) ≡ true
unfolding wait_to_write insert_write_fdop join
waits_more p q i m h = elim (Bool-cases (p == q)) [
  | inl e ↦ rw (find-put p q (joined p i m) m.write_fdop_map, e) refl
  | inr e ↦ rw (find-put p q (joined p i m) m.write_fdop_map, e) h
]

-- When the last writer of a path leaves, all that read it are called.
last_writer :
    (p q i j : ℕ) (m : Manager)
    → wait_to_write q m ≡ true
    → wait_to_write q (erase_write_fdop p i m).0 ≡ false
    → has q j m.read_fdop_map ≡ true
    → contains j (erase_write_fdop p i m).1 ≡ true
unfolding erase_write_fdop wait_to_write
last_writer p q i j m before after h = elim (Bool-cases (p == q)) [
  | inr z ↦ absurd (
      true≢false (sym before ∙ ap is_some_list (sym (find-leave p q i m.write_fdop_map z)) ∙ after))
  | inl z ↦
      let same : q ≡ p = sym ((==_iff p q).0 z) in
      let b : is_some_list (find p m.write_fdop_map) ≡ true =
        subst (λ (k : ℕ). is_some_list (find k m.write_fdop_map) ≡ true) same before in
      let a : is_some_list (find p (leave p i m.write_fdop_map)) ≡ false =
        subst (λ (k : ℕ). is_some_list (find k (leave p i m.write_fdop_map)) ≡ false) same after in
      rw (b, a) (subst (λ (k : ℕ). has k j m.read_fdop_map ≡ true) same h)
]

module _ {U : Type 0} where
  -- The mask is right, and if it is to be so the loop waits for the file.
  abbrev Polls : Bool → Operator U → Type 0
  Polls b o = IsMask o.events × (b ≡ true → has_event o.events 0x1 ≡ true)

  enable-Polls : (b : Bool) (o : Operator U) → Polls b o → Polls b (enable_reading o)
  enable-Polls b o (m, f) = let (m', e) = enable_reading-polls o m in (m', λ _. e)

  -- Whoever is called waits for its file.
  wake-Polls :
      (ids : List ℕ) (operators : ℕ → Operator U)
      → ((j : ℕ) → IsMask (operators j).events)
      → (j : ℕ) → contains j ids ≡ true
      → Polls true (wake_readers ids operators j)
  unfolding wake_readers contains
  wake-Polls [] operators masks j h = absurd (true≢false (sym h))
  wake-Polls (id ∷ ids) operators masks j h =
      let woken = update id (enable_reading (operators id)) operators in
      let (mask, polls) = enable_reading-polls (operators id) (masks id) in
      elim (Bool-cases (id == j)) [
        | inl e ↦
            let (m, f) =
              wake_all (λ k o. Polls (id == k) o) (λ k o g. enable-Polls (id == k) o g) ids woken
                (update_all (λ k o. Polls (id == k) o) id _ operators (mask, λ _. polls)
                  (λ k n. (masks k, λ z. absurd (n ((==_iff id k).0 z)))))
                j in
            (m, λ _. f e)
        | inr e ↦
            wake-Polls ids woken
              (update_all (λ k o. IsMask o.events) id _ operators mask (λ k _. masks k)) j
              (ground (arith, h, e))
      ]

  -- Every reader that the manager holds for a path waits for something.
  pub record Alert (w : Files U) : Type 0 where
    pub masks : (j : ℕ) → IsMask (w.operators j).events
    pub alert :
        (q j : ℕ)
        → has q j w.manager.read_fdop_map ≡ true
        → IsAlert (wait_to_write q w.manager) (w.operators j)

  -- Only an operator that waits for its file is made a reader.
  abbrev pub IsReady : ℕ → Effect U → Files U → Type 0
  IsReady id insert_reader w = has_event (w.operators id).events 0x1 ≡ true
  IsReady id _ w = Unit

  masks_kept :
      (id : ℕ) (e : Effect U) (w : Files U)
      → Alert w
      → (j : ℕ) → IsMask ((react id e w).operators j).events
  masks_kept id e w v =
      react_keeps (λ j o. IsMask o.events) (λ j o m. (enable_reading-polls o m).0) id e w v.masks

  -- Waking leaves alert what is so.
  kept_awake :
      (b : Bool) (j id : ℕ) (e : Effect U) (w : Files U)
      → Alert w
      → IsAlert b (w.operators j)
      → IsAlert b ((react id e w).operators j)
  kept_awake b j id e w v a =
      (react_keeps (λ k o. IsMask o.events × ((j == k) ≡ true → IsAlert b o))
          (λ k o (m, f). ((enable_reading-polls o m).0, λ z. (enable-IsWatching b o (m, f z)).1)) id
          e w
          (λ k. (v.masks k, λ z. subst (λ (i : ℕ). IsAlert b (w.operators i)) ((==_iff j k).0 z) a))
          j).1
        ((==_iff j j).1 refl)

  more_waits : (b c : Bool) (o : Operator U) → (b ≡ true → c ≡ true) → IsAlert b o → IsAlert c o
  more_waits b c o f (at_eof e) = at_eof e
  more_waits b c o f (polling e) = polling e
  more_waits b c o f (waiting e) = waiting (f e)
  more_waits b c o f (filled h) = filled h

  erase_writer-Alert :
      (id q j : ℕ) (w : Files U)
      → Alert w
      → has q j w.manager.read_fdop_map ≡ true
      → IsAlert
          (wait_to_write q (react id erase_writer w).manager)
          ((react id erase_writer w).operators j)
  unfolding react
  erase_writer-Alert id q j w v h =
      let p = (w.operators id).file_path in
      let after = (erase_write_fdop p id w.manager).0 in
      elim (Bool-cases (wait_to_write q after)) [
        | inl a ↦ waiting a
        | inr a ↦ elim (Bool-cases (wait_to_write q w.manager)) [
          | inl b ↦ polling (
              (wake-Polls (erase_write_fdop p id w.manager).1 w.operators v.masks j
                  (last_writer p q id j w.manager b a h)).1
                refl)
          | inr b ↦
              more_waits (wait_to_write q w.manager) _ _ (λ z. absurd (true≢false (sym z ∙ b)))
                (kept_awake _ j id erase_writer w v (v.alert q j h))
        ]
      ]

  after_react :
      (id : ℕ) (e : Effect U) (w : Files U)
      → IsReady id e w
      → Alert w
      → (q j : ℕ) → has q j (react id e w).manager.read_fdop_map ≡ true
      → IsAlert (wait_to_write q (react id e w).manager) ((react id e w).operators j)
  unfolding react insert_read_fdop erase_read_fdop wait_to_write insert_write_fdop erase_write_fdop
  after_react id erase_writer w r v q j h = erase_writer-Alert id q j w v h
  after_react id trig_read w r v q j h = kept_awake _ j id trig_read w v (v.alert q j h)
  after_react id insert_writer w r v q j h =
      more_waits (wait_to_write q w.manager) _ (w.operators j)
        (waits_more (w.operators id).file_path q id w.manager) (v.alert q j h)
  after_react id erase_reader w r v q j h =
      v.alert q j
        (ground (arith, h, has-leave (w.operators id).file_path id q j w.manager.read_fdop_map))
  after_react id insert_reader w r v q j h =
      elim (Bool-cases (((w.operators id).file_path == q) && (id == j))) [
        | inl e ↦ polling (
            subst (λ k. has_event (w.operators k).events 0x1 ≡ true)
              ((==_iff id j).0 (ground (arith, e))) r)
        | inr e ↦ v.alert q j (
            sym (has-join (w.operators id).file_path id q j w.manager.read_fdop_map ∙ rw e refl)
            ∙ h)
      ]
  after_react id registered w r v q j h = v.alert q j h
  after_react id deleted w r v q j h = v.alert q j h
  after_react id closed w r v q j h = v.alert q j h
  after_react id wakeup w r v q j h = v.alert q j h
  after_react id (accepted bytes) w r v q j h = v.alert q j h
  after_react id (sent bytes) w r v q j h = v.alert q j h
  after_react id (received bytes) w r v q j h = v.alert q j h
  after_react id (finish f) w r v q j h = v.alert q j h

  pub react-Alert :
      (id : ℕ) (e : Effect U) (w : Files U) → IsReady id e w → Alert w → Alert (react id e w)
  react-Alert id e w r v = record { masks = masks_kept id e w v; alert = after_react id e w r v }

  -- The same of each of some calls, the latest of which is the first.
  abbrev pub AreReady : ℕ → List (Effect U) → Files U → Type 0
  AreReady id [] w = Unit
  AreReady id (e ∷ es) w = IsReady id e (react_all id es w) × AreReady id es w

  later-IsReady : (id : ℕ) (e : Effect U) (w : Files U) → IsLater e → IsReady id e w
  later-IsReady id insert_reader w h = absurd h
  later-IsReady id insert_writer w h = tt
  later-IsReady id erase_reader w h = tt
  later-IsReady id erase_writer w h = tt
  later-IsReady id trig_read w h = tt
  later-IsReady id registered w h = tt
  later-IsReady id deleted w h = tt
  later-IsReady id closed w h = tt
  later-IsReady id wakeup w h = tt
  later-IsReady id (accepted bytes) w h = tt
  later-IsReady id (sent bytes) w h = tt
  later-IsReady id (received bytes) w h = tt
  later-IsReady id (finish f) w h = tt

  pub later-AreReady :
      (id : ℕ) (es : List (Effect U)) (w : Files U) → All IsLater es → AreReady id es w
  later-AreReady id [] w h = tt
  later-AreReady id (e ∷ es) w (h, hs) =
      (later-IsReady id e (react_all id es w) h, later-AreReady id es w hs)

  react_all-Alert :
      (id : ℕ) (es : List (Effect U)) (w : Files U)
      → AreReady id es w
      → Alert w
      → Alert (react_all id es w)
  unfolding react_all
  react_all-Alert id [] w r v = v
  react_all-Alert id (e ∷ es) w (r, rs) v =
      react-Alert id e (react_all id es w) r (react_all-Alert id es w rs v)

  -- An operator has changed, and is still alert.
  pub change-Alert :
      (id : ℕ) (o : Operator U) (w : Files U) (added : List (Effect U))
      → o.effects ≡ added ++ (w.operators id).effects
      → AreReady id added (record w { operators = update id o w.operators })
      → IsMask o.events
      → ((q : ℕ) → has q id w.manager.read_fdop_map ≡ true → IsAlert (wait_to_write q w.manager) o)
      → Alert w
      → Alert (change id o w)
  unfolding change
  change-Alert id o w added grown ready mask alert v =
      let placed : Files U = record w { operators = update id o w.operators } in
      let before = (w.operators id).effects in
      let is_added : noted before o.effects ≡ added =
        ap (noted before) grown ∙ noted-append added before in
      subst (λ es. Alert (react_all id es placed)) (sym is_added)
        (react_all-Alert id added placed ready (record {
          masks = update_all (λ j p. IsMask p.events) id o w.operators mask (λ j _. v.masks j);
          alert = λ q.
              update_all
                (λ j p.
                  has q j w.manager.read_fdop_map ≡ true → IsAlert (wait_to_write q w.manager) p)
                id o w.operators (alert q) (λ j _. v.alert q j);
        }))
