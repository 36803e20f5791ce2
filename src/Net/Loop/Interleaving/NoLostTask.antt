-- ===== src/Net/Loop/Interleaving/NoLostTask.antt =====
-- No task is lost, run twice or run out of turn, and no wake-up is missed.
use trantor_net.Base.{
  ℕ, ◌<◌, ◌≡◌, ◌≢◌, refl, sym, ◌∙◌, ap, ap₂, ◌⊎◌, inl, inr, false, List, [], ◌∷◌, ◌++◌, arith,
  append_assoc, append-nil,
}
use trantor_net.Net.Loop.Interleaving.{
  outside, pushed, Phase, waiting, woken, handled, running, System, start, Step, push, wake,
  wait_own, wait_other, read, pass, swap, run, finish, Steps, here, next,
}

nil_or_not {ℓ} : {A : Type ℓ} (xs : List A) → (xs ≡ []) ⊎ (xs ≢ [])
nil_or_not [] = inl refl
nil_or_not (x ∷ xs) = inr (λ e. cc)

module _ {T : Type 0} where
  -- Something still brings the loop to its queue.
  abbrev pub IsAwake : System T → Type 0
  IsAwake s = (0 < s.eventfd) ⊎ (s.phase ≡ handled) ⊎ ((i : ℕ) × (s.pc i ≡ pushed))

  pub record Inv (s : System T) : Type 0 where
    pub in_order : s.ran ++ (s.taken ++ s.queue) ≡ s.posted
    pub taken_running : s.phase ≢ running → s.taken ≡ []
    pub awake : s.queue ≢ [] → IsAwake s

  start-Inv : Inv start
  start-Inv = record { in_order = refl; taken_running = λ h. refl; awake = λ h. absurd (h refl) }

  Step-in_order : {s u : System T} → Step s u → Inv s → u.ran ++ (u.taken ++ u.queue) ≡ u.posted
  Step-in_order {s} (push i t p e) v = rw e (
      ground (
        arith,
        v.in_order,
        append_assoc s.ran (s.taken ++ s.queue) (t ∷ []),
        append_assoc s.taken s.queue (t ∷ []),
      ))
  Step-in_order (wake i p e) v = rw e v.in_order
  Step-in_order (wait_own p h e) v = rw e v.in_order
  Step-in_order (wait_other p e) v = rw e v.in_order
  Step-in_order (read p e) v = rw e v.in_order
  Step-in_order (pass p e) v = rw e v.in_order
  Step-in_order {s} (swap p e) v =
      rw e (ground (arith, v.in_order, v.taken_running (λ q. cc), append-nil s.queue))
  Step-in_order {s} (run t rest p q e) v =
      rw e (ground (arith, v.in_order, append_assoc s.ran (t ∷ []) (rest ++ s.queue)))
  Step-in_order (finish p q e) v = rw e v.in_order

  Step-taken_running : {s u : System T} → Step s u → Inv s → u.phase ≢ running → u.taken ≡ []
  Step-taken_running (push i t p e) v = rw e v.taken_running
  Step-taken_running (wake i p e) v = rw e v.taken_running
  Step-taken_running (wait_own p h e) v = rw e (λ _. v.taken_running (λ q. cc))
  Step-taken_running (wait_other p e) v = rw e (λ _. v.taken_running (λ q. cc))
  Step-taken_running (read p e) v = rw e (λ _. v.taken_running (λ q. cc))
  Step-taken_running (pass p e) v = rw e (λ _. v.taken_running (λ q. cc))
  Step-taken_running (swap p e) v = rw e (λ n. absurd (n refl))
  Step-taken_running (run t rest p q e) v = rw e (λ n. absurd (n p))
  Step-taken_running (finish p q e) v = rw e (λ _. q)

  -- What keeps the loop awake survives a step that leaves the eventfd alone and does not swap.
  keep_awake :
      (s : System T) (phase : Phase)
      → IsAwake s
      → s.phase ≢ handled
      → (0 < s.eventfd) ⊎ (phase ≡ handled) ⊎ ((i : ℕ) × (s.pc i ≡ pushed))
  keep_awake s phase (inl h) n = inl h
  keep_awake s phase (inr (inl h)) n = absurd (n h)
  keep_awake s phase (inr (inr h)) n = inr (inr h)

  Step-IsAwake : {s u : System T} → Step s u → Inv s → u.queue ≢ [] → IsAwake u
  Step-IsAwake {s} (push i t p e) v = rw e (λ _. inr (inr (i, ground arith)))
  Step-IsAwake (wake i p e) v = rw e (λ _. inl (omega arith))
  Step-IsAwake {s} (wait_own p h e) v = rw e (λ n. inl h)
  Step-IsAwake {s} (wait_other p e) v = rw e (λ n. keep_awake s (woken false) (v.awake n) (λ q. cc))
  Step-IsAwake (read p e) v = rw e (λ _. inr (inl refl))
  Step-IsAwake (pass p e) v = rw e (λ _. inr (inl refl))
  Step-IsAwake (swap p e) v = rw e (λ n. absurd (n refl))
  Step-IsAwake {s} (run t rest p q e) v = rw e (λ n. keep_awake s s.phase (v.awake n) (λ r. cc))
  Step-IsAwake {s} (finish p q e) v = rw e (λ n. keep_awake s waiting (v.awake n) (λ r. cc))

  Step-Inv : {s u : System T} → Step s u → Inv s → Inv u
  Step-Inv st v = record {
    in_order = Step-in_order st v;
    taken_running = Step-taken_running st v;
    awake = Step-IsAwake st v;
  }

  pub Steps-Inv : {s : System T} → Steps start s → Inv s
  Steps-Inv here = start-Inv
  Steps-Inv (next r st) = Step-Inv st (Steps-Inv r)

  -- However the threads and the loop interleave: the tasks that have run, those that are being run
  -- and those in the queue are together exactly the posted ones, in the order of posting.
  pub tasks_in_order : {s : System T} → Steps start s → s.ran ++ (s.taken ++ s.queue) ≡ s.posted
  tasks_in_order r = (Steps-Inv r).in_order

  asleep :
      (s : System T)
      → s.phase ≡ waiting
      → s.eventfd ≡ 0
      → ((i : ℕ) → s.pc i ≡ outside)
      → ¬ IsAwake s
  asleep s p z q (inl h) = omega arith
  asleep s p z q (inr (inl h)) = cc
  asleep s p z q (inr (inr (i, h))) = cc (q i)

  queue_empty :
      (s : System T)
      → Inv s
      → s.phase ≡ waiting
      → s.eventfd ≡ 0
      → ((i : ℕ) → s.pc i ≡ outside)
      → s.queue ≡ []
  queue_empty s v p z q = elim (nil_or_not s.queue) [
    | inl e ↦ e
    | inr n ↦ absurd (asleep s p z q (v.awake n))
  ]

  -- No wake-up is missed: whenever the loop waits with nothing in its eventfd and no thread stands
  -- between its push and its wake-up, every posted task has run.
  pub no_lost_task :
      {s : System T}
      → Steps start s
      → s.phase ≡ waiting
      → s.eventfd ≡ 0
      → ((i : ℕ) → s.pc i ≡ outside)
      → s.ran ≡ s.posted
  no_lost_task {s} r p z q =
      let v = Steps-Inv r in
      sym (append-nil s.ran)
      ∙ ap (λ (xs : List T). s.ran ++ xs)
          (sym (ap₂ ◌++◌ (v.taken_running (λ e. cc)) (queue_empty s v p z q)))
      ∙ v.in_order
