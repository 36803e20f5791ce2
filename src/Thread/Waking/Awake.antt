-- ===== src/Thread/Waking/Awake.antt =====
-- Is somebody awake for every task, and for whoever waits until they are finished?
use trantor_net.Base.{
  ==_iff, ◌==◌, ◌⊎◌, ℕ, ◌<◌, ◌≡◌, refl, sym, ◌∙◌, ap, subst, true, false, some, List, [], ◌∷◌,
  get_elem?, length, length-set, length-append, arith, Bool-cases, inl, inr,
}
use mathlib.Core.Bool.{true≢false}
use trantor_net.Thread.Waking.{
  Stage, top, notified, acting, signalled, Crew, push, begin_wait, end_wait, shut_down, Turn,
  notify, notify_nobody, check, lock, resume, act, Step, turn, push_task, begin, end, destroy,
  wakes, wakes_nobody, Reachable, here, next,
}
use trantor_net.Thread.Waking.Counts.{
  awake_of, busy_of, new_stages-length, new_stages-gone, one_somewhere,
}
use trantor_net.Thread.Waking.Invariant.{
  is_waiting, is_absent, Inv, move-Inv, wait-Inv, locked-Inv, check_alive-Inv, notified-Inv,
  nobody-Inv,
}

module _ {T : Type 0} where
  turned-Inv : (n : ℕ) (c d : Crew T) → 0 < n → Turn c d → Inv n c → Inv n d
  turned-Inv n c d pos (notify i e h s) v = subst (Inv n) (sym s) (notified-Inv n i c e v)
  turned-Inv n c d pos (notify_nobody e h s) v = subst (Inv n) (sym s) (nobody-Inv n c pos e v)
  turned-Inv n c d pos (check i e s) v = subst (Inv n) (sym s) (check_alive-Inv n i c e v)
  turned-Inv n c d pos (lock i e s) v = subst (Inv n) (sym s) (locked-Inv n i c e v)
  turned-Inv n c d pos (resume i e s) v =
      subst (Inv n) (sym s)
        (wait-Inv n i notified c.task_queue c refl e refl refl (omega arith) (λ _ _. refl) v)
  turned-Inv n c d pos (act i e s) v =
      subst (Inv n) (sym s) (move-Inv n i acting top c e refl (omega arith) (omega arith) v)

  push-Inv : (n : ℕ) (func : T) (c : Crew T) → Inv n c → Inv n (push func c)
  unfolding push
  push-Inv n func c v = record {
    size = v.size;
    fed = λ alive.
        let (gone, fed, held, watched) = v.fed alive in
        (
          gone,
          λ h. omega arith,
          held,
          λ h z. absurd (omega (arith, z, length-append c.task_queue (func ∷ []))),
        );
  }

  begin_wait-Inv :
      (n : ℕ) (q : List T) (c : Crew T) → c.task_queue ≡ q → Inv n c → Inv n (begin_wait q c)
  unfolding begin_wait
  begin_wait-Inv n [] c e v = v
  begin_wait-Inv n (func ∷ rest) c e v = record {
    size = v.size;
    fed = λ alive.
        let (gone, fed, held, watched) = v.fed alive in
        (gone, fed, λ _. refl, λ h z. absurd (omega (arith, z, ap length e)));
  }

  end_wait-Inv :
      (n : ℕ) (q : List T) (c : Crew T)
      → c.task_queue ≡ q
      → c.waiter ≡ signalled
      → Inv n c
      → Inv n (end_wait q c)
  unfolding end_wait
  end_wait-Inv n [] c e w v = record {
    size = v.size;
    fed = λ alive.
        let (gone, fed, held, watched) = v.fed alive in
        (gone, fed, λ h. absurd (true≢false h), λ h. absurd (true≢false (sym h)));
  }
  end_wait-Inv n (func ∷ rest) c e w v = record {
    size = v.size;
    fed = λ alive.
        let (gone, fed, held, watched) = v.fed alive in
        (gone, fed, λ _. held (ap is_absent w), λ h z. absurd (omega (arith, z, ap length e)));
  }

  step-Inv : (n : ℕ) (c d : Crew T) → 0 < n → Step c d → Inv n c → Inv n d
  unfolding shut_down
  step-Inv n c d pos (turn t) v = turned-Inv n c d pos t v
  step-Inv n c d pos (push_task func s) v = subst (Inv n) (sym s) (push-Inv n func c v)
  step-Inv n c d pos (begin e s) v = subst (Inv n) (sym s) (begin_wait-Inv n c.task_queue c refl v)
  step-Inv n c d pos (end e s) v = subst (Inv n) (sym s) (end_wait-Inv n c.task_queue c refl e v)
  step-Inv n c d pos (destroy (wakes i e s)) v = subst (Inv n) (sym s) (record {
    size = length-set c.workers i notified ∙ v.size;
    fed = λ alive. absurd (true≢false (sym alive));
  })
  step-Inv n c d pos (destroy (wakes_nobody e s)) v =
      subst (Inv n) (sym s)
        (record { size = v.size; fed = λ alive. absurd (true≢false (sym alive)) })

  reached-Inv : (n : ℕ) (c : Crew T) → 0 < n → Reachable n c → Inv n c
  reached-Inv n c pos here = record {
    size = new_stages-length n;
    fed = λ _. (
      new_stages-gone n,
      λ h. absurd (omega (arith, h)),
      λ h. absurd (true≢false h),
      λ h. absurd (true≢false (sym h)),
    );
  }
  reached-Inv n d pos (next {c} r s) = step-Inv n c d pos s (reached-Inv n c pos r)

  -- In every state that a pool of at least one thread reaches while it is alive, the queue is empty,
  -- or a notification is on its way, or a thread is awake; and `waitUntilFinished` does not wait, or
  -- the queue is not empty, or a thread will look at the queue again before it sleeps.
  pub somebody_awake :
      (n : ℕ) (c : Crew T)
      → 0 < n
      → Reachable n c
      → c.pool_alive ≡ true
      → ((length c.task_queue ≡ 0)
          ⊎ (0 < c.notices)
          ⊎ ((i : ℕ) × (s : Stage) × (get_elem? c.workers i ≡ some s) × (0 < awake_of s)))
        × ((is_waiting c.waiter ≡ false)
            ⊎ (0 < length c.task_queue)
            ⊎ ((i : ℕ) × (s : Stage) × (get_elem? c.workers i ≡ some s) × (0 < busy_of s)))
  somebody_awake n c pos r alive =
      let v = reached-Inv n c pos r in
      let (gone, fed, held, watched) = v.fed alive in
      (
        elim (Bool-cases (length c.task_queue == 0)) [
          | inl q ↦ inl ((==_iff (length c.task_queue) 0).0 q)
          | inr q ↦ elim (Bool-cases (c.notices == 0)) [
            | inl z ↦ inr (
                inr (
                  one_somewhere awake_of c.workers
                    (omega (arith, fed (ground (arith, q)), (==_iff c.notices 0).0 z))))
            | inr z ↦ inr (inl (ground (arith, z)))
          ]
        ],
        elim (Bool-cases (is_waiting c.waiter)) [
          | inr w ↦ inl w
          | inl w ↦ elim (Bool-cases (length c.task_queue == 0)) [
            | inl q ↦ inr (
                inr (
                  one_somewhere busy_of c.workers
                    (watched w ((==_iff (length c.task_queue) 0).0 q))))
            | inr q ↦ inr (inl (ground (arith, q)))
          ]
        ],
      )
