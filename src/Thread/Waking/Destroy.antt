-- ===== src/Thread/Waking/Destroy.antt =====
-- The threads that the destructor does not wake.
use trantor_net.Base.{
  ℕ, ◌≡◌, ◌≢◌, refl, sym, ◌∙◌, ap, subst, some, List, [], ◌∷◌, get_elem?, get_elem?-set_ne, arith,
  if_cases, Bool-cases, inl, inr, ◌==◌, sum_zero,
}
use mathlib.Core.Option.{some-injective}
use trantor_net.Thread.Waking.{
  Stage, top, locking, asleep, notified, acting, asleep_of, Crew, move, check_alive, wait_not_empty,
  notify_empty, locked, shut_down, Destroys, wakes, wakes_nobody, Turn, notify, notify_nobody,
  check, lock, resume, act, Later, now, then_turn,
}

-- Threads that sleep are not those that go on.
others :
    (s : Stage) (i j : ℕ) (xs : List Stage)
    → asleep_of s ≡ 0
    → get_elem? xs i ≡ some s
    → get_elem? xs j ≡ some asleep
    → i ≢ j
others s i j xs z e f same =
    let both : s ≡ asleep = some-injective s asleep (sym e ∙ ap (get_elem? xs) same ∙ f) in
    omega (arith, z, ap asleep_of both)

module _ {T : Type 0} where
  -- The thread sleeps, and nobody will wake it.
  abbrev IsLeft : ℕ → Crew T → Type 0
  IsLeft j c = (get_elem? c.workers j ≡ some asleep) × (c.notices ≡ 0)

  move-IsLeft :
      (i j : ℕ) (a b : Stage) (c : Crew T)
      → asleep_of a ≡ 0
      → get_elem? c.workers i ≡ some a
      → IsLeft j c
      → IsLeft j (move i b c)
  move-IsLeft i j a b c z e (f, none) =
      (get_elem?-set_ne c.workers b (others a i j c.workers z e f) ∙ f, none)

  wait-IsLeft :
      (i j : ℕ) (a : Stage) (q : List T) (c : Crew T)
      → asleep_of a ≡ 0
      → get_elem? c.workers i ≡ some a
      → IsLeft j c
      → IsLeft j (wait_not_empty i q c)
  unfolding wait_not_empty
  wait-IsLeft i j a [] c z e f = move-IsLeft i j a _ c z e f
  wait-IsLeft i j a (func ∷ rest) c z e f =
      move-IsLeft i j a acting (record c { task_queue = rest }) z e f

  notify_empty-IsLeft :
      (i j : ℕ) (q : List T) (c : Crew T)
      → get_elem? c.workers i ≡ some locking
      → IsLeft j c
      → (get_elem? (notify_empty q c).workers i ≡ some locking) × IsLeft j (notify_empty q c)
  unfolding notify_empty
  notify_empty-IsLeft i j [] c e f =
      if_cases (λ (d : Crew T). (get_elem? d.workers i ≡ some locking) × IsLeft j d) c.wait_empty _
        _ (λ _. (e, f)) (λ _. (e, f))
  notify_empty-IsLeft i j (func ∷ rest) c e f = (e, f)

  turned-IsLeft : (j : ℕ) (c d : Crew T) → Turn c d → IsLeft j c → IsLeft j d
  unfolding check_alive locked
  turned-IsLeft j c d (notify i e h s) (f, none) = absurd (omega (arith, h, none))
  turned-IsLeft j c d (notify_nobody e h s) (f, none) = absurd (omega (arith, h, none))
  turned-IsLeft j c d (check i e s) f = subst (IsLeft j) (sym s) (move-IsLeft i j top _ c refl e f)
  turned-IsLeft j c d (lock i e s) f =
      let (e', f') = notify_empty-IsLeft i j c.task_queue c e f in
      subst (IsLeft j) (sym s) (
        if_cases (IsLeft j) c.pool_alive _ _
          (λ _. wait-IsLeft i j locking c.task_queue (notify_empty c.task_queue c) refl e' f')
          (λ _. move-IsLeft i j locking acting c refl e f))
  turned-IsLeft j c d (resume i e s) f =
      subst (IsLeft j) (sym s) (wait-IsLeft i j notified c.task_queue c refl e f)
  turned-IsLeft j c d (act i e s) f =
      subst (IsLeft j) (sym s) (move-IsLeft i j acting top c refl e f)

  in_time-IsLeft : (j : ℕ) (c d : Crew T) → Later c d → IsLeft j c → IsLeft j d
  in_time-IsLeft j c d now f = f
  in_time-IsLeft j c e (then_turn {d} r t) f = turned-IsLeft j d e t (in_time-IsLeft j c d r f)

  sleeps_on :
      (i j : ℕ) (c d e : Crew T)
      → get_elem? c.workers j ≡ some asleep
      → i ≢ j
      → c.notices ≡ 0
      → d ≡ move i notified (shut_down c)
      → Later d e
      → get_elem? e.workers j ≡ some asleep
  unfolding shut_down
  sleeps_on i j c d e f apart none s r =
      (in_time-IsLeft j d e r
        (subst (IsLeft j) (sym s) (get_elem?-set_ne c.workers notified apart ∙ f, none))).0

  -- When two threads of a pool sleep and no task has been announced, then whatever the destructor
  -- does up to its `join`, one of the threads that slept sleeps for ever: no turn of the threads wakes
  -- it.
  pub destroy_leaves_asleep :
      (c d : Crew T) (i j : ℕ)
      → get_elem? c.workers i ≡ some asleep
      → get_elem? c.workers j ≡ some asleep
      → i ≢ j
      → c.notices ≡ 0
      → Destroys c d
      → (k : ℕ) × (get_elem? c.workers k ≡ some asleep)
        × ((e : Crew T) → Later d e → get_elem? e.workers k ≡ some asleep)
  destroy_leaves_asleep c d i j e f apart none (wakes k g s) = elim (Bool-cases (k == i)) [
    | inl b ↦
        let same : k ≡ i = ground (arith, b) in
        (j, f, λ u r. sleeps_on k j c d u f (λ z. apart (sym same ∙ z)) none s r)
    | inr b ↦ (i, e, λ u r. sleeps_on k i c d u e (λ z. ground (arith, b, z)) none s r)
  ]
  destroy_leaves_asleep c d i j e f apart none (wakes_nobody z s) =
      let zero_asleep : asleep_of asleep ≡ 0 = sum_zero asleep_of c.workers i asleep e z in
      absurd (omega (arith, zero_asleep))
