-- ===== src/Thread/BlockQueue.antt =====
-- TrantorBlockQueue (src/thread/inc/TrantorBlockQueue.h). Each operation holds the mutex throughout;
-- `none` stands for a thread that stays in the wait of `put` or of `take`. `take` copies its result
-- through a reference to the element that it has just popped, which C++ leaves undefined: the model has
-- what is popped, and nothing of what the caller gets.
use trantor_net.Base.{
  ℕ, ◌^◌, ◌≤◌, ◌<◌, ◌≡◌, ◌≢◌, ◌⊎◌, refl, subst, sym, ap, ◌∙◌, Option, none, some, List, [], ◌∷◌,
  ◌++◌, if◌then◌else◌, ltb, u32, arith, inl, inr, length, length-append, append_assoc,
}

pub record BlockQueue (T : Type 0) : Type 0 where
  pub queue : List T
  pub max_queue_size : ℕ

module _ {T : Type 0} where
  unfoldable pub size : BlockQueue T → ℕ
  size b = u32 (length b.queue)

  unfoldable pub put : T → BlockQueue T → Option (BlockQueue T)
  put element b =
      if ltb (length b.queue) b.max_queue_size
      then some (record b { queue = b.queue ++ (element ∷ []) })
      else none

  -- The element that `take` pops, and the queue after.
  unfoldable pub take_front : BlockQueue T → Option (T × BlockQueue T)
  take_front b = elim (b.queue) [ [] ↦ none | ret ∷ rest ↦ some (ret, record b { queue = rest }) ]

-- The queue among its users, with all that was put and all that was popped.
pub record System (T : Type 0) : Type 0 where
  pub block_queue : BlockQueue T
  pub put_in : List T
  pub popped : List T

module _ {T : Type 0} where
  pub data Step (s u : System T) : Type 0 where
    putting :
        (element : T) (b : BlockQueue T)
        → put element s.block_queue ≡ some b
        → u ≡ record s { block_queue = b; put_in = s.put_in ++ (element ∷ []) }
        → Step s u
    taking :
        (element : T) (b : BlockQueue T)
        → take_front s.block_queue ≡ some (element, b)
        → u ≡ record s { block_queue = b; popped = s.popped ++ (element ∷ []) }
        → Step s u

  pub data Reachable (max : ℕ) : System T → Type 0 where
    here : Reachable max (record {
      block_queue = record { queue = []; max_queue_size = max };
      put_in = [];
      popped = [];
    })
    next : {s u : System T} → Reachable max s → Step s u → Reachable max u

  abbrev IsFifo : ℕ → System T → Type 0
  IsFifo max s =
      (s.block_queue.max_queue_size ≡ max)
      × (length s.block_queue.queue ≤ max)
      × (s.popped ++ s.block_queue.queue ≡ s.put_in)

  -- By the fields of the queue.
  put_parts :
      (x : T) (q : List T) (max : ℕ) (b : BlockQueue T)
      → put x (record { queue = q; max_queue_size = max }) ≡ some b
      → (b.queue ≡ q ++ (x ∷ [])) × (b.max_queue_size ≡ max) × (length q < max)
  unfolding put
  put_parts x q max b e = ground arith

  take_parts :
      (x : T) (q : List T) (max : ℕ) (b : BlockQueue T)
      → take_front (record { queue = q; max_queue_size = max }) ≡ some (x, b)
      → (q ≡ x ∷ b.queue) × (b.max_queue_size ≡ max)
  unfolding take_front
  take_parts x [] max b e = ground arith
  take_parts x (y ∷ q) max b e = ground arith

  Step-IsFifo : (max : ℕ) (s u : System T) → IsFifo max s → Step s u → IsFifo max u
  Step-IsFifo max s u h (putting x b p e) =
      let (q, m, l) = put_parts x s.block_queue.queue s.block_queue.max_queue_size b p in
      subst (IsFifo max) (sym e) (
        m ∙ h.0,
        rw q (omega (arith, length-append s.block_queue.queue (x ∷ []), h, l)),
        ap (λ l. s.popped ++ l) q
            ∙ sym (append_assoc s.popped s.block_queue.queue (x ∷ []))
            ∙ ap (λ l. l ++ (x ∷ [])) h.2,
      )
  Step-IsFifo max s u h (taking x b p e) =
      let (q, m) = take_parts x s.block_queue.queue s.block_queue.max_queue_size b p in
      subst (IsFifo max) (sym e) (
        m ∙ h.0,
        omega (arith, ap length q, h.1),
        append_assoc s.popped (x ∷ []) b.queue ∙ ap (λ l. s.popped ++ l) (sym q) ∙ h.2,
      )

  Reachable-IsFifo : (max : ℕ) (s : System T) → Reachable max s → IsFifo max s
  Reachable-IsFifo max s here = (refl, omega arith, refl)
  Reachable-IsFifo max s (next r e) = Step-IsFifo max _ s (Reachable-IsFifo max _ r) e

  not_both :
      (q : List T) (max : ℕ) (x : T)
      → 0 < max
      → let b : BlockQueue T = record { queue = q; max_queue_size = max } in
        (put x b ≢ none) ⊎ (take_front b ≢ none)
  unfolding put take_front
  not_both [] max x l = inl (λ e. ground arith)
  not_both (y ∷ q) max x l = inr (λ e. ground arith)

  -- -- In every state of a queue of a positive maximum: what was popped, then the queue, is what was put
  -- in, in that order; the queue holds at most the maximum; and a `put` and a `take` do not both stay
  -- in their waits.
  pub fifo_lem :
      (max : ℕ) (s : System T) (element : T)
      → 0 < max
      → max < 2 ^ 32
      → Reachable max s
      → (s.popped ++ s.block_queue.queue ≡ s.put_in)
        × (size s.block_queue ≤ max)
        × ((put element s.block_queue ≢ none) ⊎ (take_front s.block_queue ≢ none))
  unfolding size
  fifo_lem max s element l b r =
      let h = Reachable-IsFifo max s r in
      (
        h.2,
        omega (arith, h.1),
        not_both s.block_queue.queue s.block_queue.max_queue_size element
            (subst (λ n. 0 < n) (sym h.0) l),
      )
