-- ===== src/Thread/Waking/Invariant.antt =====
-- What holds of a pool that is alive, and the single changes that keep it so.
use trantor_net.Base.{
  ℕ, ◌+◌, ◌-◌, ◌<◌, ◌≤◌, ◌≡◌, refl, sym, ◌∙◌, ap, subst, Bool, true, false, some, List, [], ◌∷◌,
  get_elem?, sum, sum-set, length, length-set, arith, Bool-cases, if_cases, inl, inr, if◌then◌else◌,
}
use mathlib.Core.Bool.{true≢false}
use trantor_net.Thread.Waking.{
  signal, Stage, top, locking, asleep, notified, acting, returned, Waiter, absent, waiting,
  signalled, Crew, asleep_of, move, check_alive, wait_not_empty, notify_empty, locked,
}
use trantor_net.Thread.Waking.Counts.{awake_of, busy_of, gone_of, all_counted, at_least}

abbrev pub is_waiting : Waiter → Bool
is_waiting waiting = true
is_waiting _ = false

abbrev pub is_absent : Waiter → Bool
is_absent absent = true
is_absent _ = false

told : (w : Waiter) → is_waiting (signal w) ≡ false
told absent = refl
told waiting = refl
told signalled = refl

there : (w : Waiter) → is_waiting w ≡ true → is_absent w ≡ false
there absent h = absurd (true≢false (sym h))
there waiting h = refl
there signalled h = refl

module _ {T : Type 0} where
  -- Of a pool that is alive: its threads are all there, a task in the queue has a thread that is
  -- awake or a notification on its way, and for an empty queue that is waited for some thread will
  -- look at the queue again.
  abbrev IsWatched : List T → Bool → List Stage → ℕ → Waiter → Type 0
  IsWatched queue wait_empty workers notices waiter =
      (sum gone_of workers ≡ 0)
      × (0 < length queue → 0 < notices + sum awake_of workers)
      × (is_absent waiter ≡ false → wait_empty ≡ true)
      × (is_waiting waiter ≡ true → length queue ≡ 0 → 0 < sum busy_of workers)

  abbrev IsFed : Crew T → Type 0
  IsFed c = c.pool_alive ≡ true → IsWatched c.task_queue c.wait_empty c.workers c.notices c.waiter

  pub record Inv (n : ℕ) (c : Crew T) : Type 0 where
    pub size : length c.workers ≡ n
    pub fed : IsFed c

  -- A thread goes on, and no more asleep or gone than it was.
  pub move-Inv :
      (n i : ℕ) (a b : Stage) (c : Crew T)
      → get_elem? c.workers i ≡ some a
      → gone_of b ≡ 0
      → awake_of a ≤ awake_of b
      → busy_of a ≤ busy_of b
      → Inv n c
      → Inv n (move i b c)
  move-Inv n i a b c e g w y v = record {
    size = length-set c.workers i b ∙ v.size;
    fed = λ alive.
        let (gone, fed, held, watched) = v.fed alive in
        let s1 = sum-set gone_of c.workers i a b e in
        let s2 = sum-set awake_of c.workers i a b e in
        let s3 = sum-set busy_of c.workers i a b e in
        (
          omega (arith, gone, s1, g),
          λ h. omega (arith, fed h, s2, w),
          held,
          λ h z. omega (arith, watched h z, s3, y),
        );
  }

  -- A thread that finds nothing to do falls asleep.
  sleep-Inv :
      (n i : ℕ) (a : Stage) (c : Crew T)
      → get_elem? c.workers i ≡ some a
      → c.task_queue ≡ []
      → (is_waiting c.waiter ≡ true → busy_of a ≡ 0)
      → Inv n c
      → Inv n (move i asleep c)
  sleep-Inv n i a c e empty idle v = record {
    size = length-set c.workers i asleep ∙ v.size;
    fed = λ alive.
        let (gone, fed, held, watched) = v.fed alive in
        let s1 = sum-set gone_of c.workers i a asleep e in
        let s3 = sum-set busy_of c.workers i a asleep e in
        let none_left : length c.task_queue ≡ 0 = ap length empty in
        (
          omega (arith, gone, s1),
          λ h. absurd (omega (arith, h, none_left)),
          held,
          λ h z. omega (arith, watched h z, s3, idle h),
        );
  }

  -- A thread takes the task in front.
  take-Inv :
      (n i : ℕ) (a : Stage) (func : T) (rest : List T) (c : Crew T)
      → get_elem? c.workers i ≡ some a
      → gone_of a ≡ 0
      → awake_of a ≡ 1
      → busy_of a ≤ 1
      → Inv n c
      → Inv n (move i acting (record c { task_queue = rest }))
  take-Inv n i a func rest c e g w y v = record {
    size = length-set c.workers i acting ∙ v.size;
    fed = λ alive.
        let (gone, fed, held, watched) = v.fed alive in
        let s1 = sum-set gone_of c.workers i a acting e in
        let s2 = sum-set awake_of c.workers i a acting e in
        let s3 = sum-set busy_of c.workers i a acting e in
        (
          omega (arith, gone, s1, g),
          λ h. omega (arith, s2, w, at_least awake_of c.workers i a e),
          held,
          λ h z. omega (arith, s3, y, at_least busy_of c.workers i a e),
        );
  }

  pub wait-Inv :
      (n i : ℕ) (a : Stage) (q : List T) (c : Crew T)
      → c.task_queue ≡ q
      → get_elem? c.workers i ≡ some a
      → gone_of a ≡ 0
      → awake_of a ≡ 1
      → busy_of a ≤ 1
      → (is_waiting c.waiter ≡ true → length q ≡ 0 → busy_of a ≡ 0)
      → Inv n c
      → Inv n (wait_not_empty i q c)
  unfolding wait_not_empty
  wait-Inv n i a [] c empty e g w y idle v =
      if_cases (λ stage. Inv n (move i stage c)) c.pool_alive asleep acting
        (λ _. sleep-Inv n i a c e empty (λ h. idle h refl) v)
        (λ _. move-Inv n i a acting c e refl (omega (arith, w)) y v)
  wait-Inv n i a (func ∷ rest) c full e g w y idle v = take-Inv n i a func rest c e g w y v

  -- A waiter that is told is not waiting any more.
  abbrev IsTold : ℕ → List T → Crew T → Crew T → Type 0
  IsTold n q c d =
      Inv n d
      × (d.workers ≡ c.workers)
      × (d.task_queue ≡ c.task_queue)
      × (d.pool_alive ≡ c.pool_alive)
      × (c.pool_alive ≡ true → is_waiting d.waiter ≡ true → length q ≡ 0 → busy_of locking ≡ 0)

  notify_empty-IsTold :
      (n : ℕ) (q : List T) (c : Crew T) → Inv n c → IsTold n q c (notify_empty q c)
  unfolding notify_empty
  notify_empty-IsTold n [] c v =
      if_cases (IsTold n [] c) c.wait_empty _ _
        (λ e. (
          record {
            size = v.size;
            fed = λ alive.
                let (gone, fed, held, watched) = v.fed alive in
                (gone, fed, λ _. e, λ h. absurd (true≢false (sym h ∙ told c.waiter)));
          },
          refl,
          refl,
          refl,
          λ _ h. absurd (true≢false (sym h ∙ told c.waiter)),
        ))
        (λ e. (
          v,
          refl,
          refl,
          refl,
          λ alive h.
              let (gone, fed, held, watched) = v.fed alive in
              absurd (true≢false (sym (held (there c.waiter h)) ∙ e)),
        ))
  notify_empty-IsTold n (func ∷ rest) c v =
      (v, refl, refl, refl, λ _ _ z. absurd (omega (arith, z)))

  pub locked-Inv :
      (n i : ℕ) (c : Crew T) → get_elem? c.workers i ≡ some locking → Inv n c → Inv n (locked i c)
  unfolding locked
  locked-Inv n i c e v =
      if_cases (Inv n) c.pool_alive _ _
        (λ alive.
          let (w, same, queue, _, idle) = notify_empty-IsTold n c.task_queue c v in
          wait-Inv n i locking c.task_queue (notify_empty c.task_queue c) queue
            (ap (λ xs. get_elem? xs i) same ∙ e) refl refl (omega arith) (idle alive) w)
        (λ _. move-Inv n i locking acting c e refl (omega arith) (omega arith) v)

  pub check_alive-Inv :
      (n i : ℕ) (c : Crew T) → get_elem? c.workers i ≡ some top → Inv n c → Inv n (check_alive i c)
  unfolding check_alive
  check_alive-Inv n i c e v = elim (Bool-cases c.pool_alive) [
    | inl alive ↦
        subst (λ b. Inv n (move i (if b then locking else returned) c)) (sym alive)
          (move-Inv n i top locking c e refl (omega arith) (omega arith) v)
    | inr dead ↦ record {
      size = length-set c.workers i _ ∙ v.size;
      fed = λ alive. absurd (true≢false (sym alive ∙ dead));
    }
  ]

  pub notified-Inv :
      (n i : ℕ) (c : Crew T)
      → get_elem? c.workers i ≡ some asleep
      → Inv n c
      → Inv n (move i notified (record c { notices = c.notices - 1 }))
  notified-Inv n i c e v = record {
    size = length-set c.workers i notified ∙ v.size;
    fed = λ alive.
        let (gone, fed, held, watched) = v.fed alive in
        let s1 = sum-set gone_of c.workers i asleep notified e in
        let s2 = sum-set awake_of c.workers i asleep notified e in
        let s3 = sum-set busy_of c.workers i asleep notified e in
        (
          omega (arith, gone, s1),
          λ h. omega (arith, s2),
          held,
          λ h z. omega (arith, watched h z, s3),
        );
  }

  -- When nobody sleeps, all are awake.
  pub nobody-Inv :
      (n : ℕ) (c : Crew T)
      → 0 < n
      → sum asleep_of c.workers ≡ 0
      → Inv n c
      → Inv n (record c { notices = c.notices - 1 })
  nobody-Inv n c pos e v = record {
    size = v.size;
    fed = λ alive.
        let (gone, fed, held, watched) = v.fed alive in
        (gone, λ h. omega (arith, all_counted c.workers, e, gone, pos, v.size), held, watched);
  }
