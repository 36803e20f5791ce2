-- ===== src/Thread/Pool/Cached.antt =====
-- TrantorCachedThreadPool (src/thread/src/TrantorThreadPool.cc): its single threads, each as the
-- queue of its tasks. `pushTask` sees the queues at one moment: what the threads pop between its
-- looks at them is not modelled.
use trantor_net.Base.{
  ℕ, zero, suc, ◌+◌, ◌-◌, ◌^◌, ◌≤◌, ◌<◌, ◌≡◌, refl, Bool, true, false, some, List, [], ◌∷◌, ◌++◌,
  get_elem?, set, take, length, if◌then◌else◌, ltb, u16, arith, Bool-cases, inl, inr, ◌⊎◌, ap, All,
  get_or,
}

module _ (T : Type 0) where
  pub record CachedPool : Type 0 where
    pub single_thread_vec : List (List T)
    pub max_thread_num : ℕ

  -- `INT16_MAX` threads.
  abbrev pub new_cached_pool : CachedPool
  new_cached_pool = record { single_thread_vec = []; max_thread_num = 2 ^ 15 - 1 }

module _ {T : Type 0} where
  abbrev pub is_idle : List T → Bool
  is_idle [] = true
  is_idle (_ ∷ _) = false

  -- The loop of `pushTask` from index i on, `tag` being the index of the shortest queue so far and
  -- `least` its length: the free thread it stops at (`inl`), or the last tag (`inr`).
  unfoldable pub scan : List (List T) → ℕ → ℕ → ℕ → ℕ ⊎ ℕ
  scan [] i tag least = inr tag
  scan (q ∷ qs) i tag least =
      let shorter = scan qs (i + 1) i (length q) in
      let not_shorter = scan qs (i + 1) tag least in
      if is_idle q then inl i else if ltb (length q) least then shorter else not_shorter

  -- `(*iter)->pushTask(func)`
  abbrev pub push_at : T → List (List T) → ℕ → List (List T)
  push_at func qs i = set qs i (get_or qs i [] ++ (func ∷ []))

  -- What follows the loop.
  unfoldable pub place : T → List (List T) → ℕ → ℕ ⊎ ℕ → List (List T)
  place func qs max (inl i) = push_at func qs i
  place func qs max (inr tag) =
      if ltb (length qs) max then qs ++ ((func ∷ []) ∷ []) else push_at func qs tag

  unfoldable pub push_among : T → ℕ → List (List T) → List (List T)
  push_among func max [] = (func ∷ []) ∷ []
  push_among func max (q ∷ qs) = place func (q ∷ qs) max (scan (q ∷ qs) 0 0 (length q))

  unfoldable pub push_cached : T → CachedPool T → CachedPool T
  push_cached func p = record p {
    single_thread_vec = push_among func p.max_thread_num p.single_thread_vec;
  }

  unfoldable pub get_thread_num : CachedPool T → ℕ
  get_thread_num p = u16 (length p.single_thread_vec)

  unfoldable pub reset : CachedPool T → CachedPool T
  reset p = record p { single_thread_vec = [] }

  abbrev pub IsBusy : List (List T) → Type 0
  IsBusy qs = All (λ q. is_idle q ≡ false) qs

  -- The loop stops at the first free thread of the rest of the list, or has found that none is free
  -- and where a shortest queue is.
  abbrev Outcome : List (List T) → ℕ → ℕ → ℕ → ℕ ⊎ ℕ → Type 0
  Outcome qs i tag least (inl j) =
      (k : ℕ) × (j ≡ i + k) × (get_elem? qs k ≡ some []) × IsBusy (take k qs)
  Outcome qs i tag least (inr t) =
      IsBusy qs
      × (((t ≡ tag) × All (λ q. least ≤ length q) qs)
          ⊎ ((k : ℕ) × (q : List T) × (t ≡ i + k)
              × (get_elem? qs k ≡ some q)
              × (length q < least)
              × All (λ r. length q ≤ length r) qs))

  -- The thread in front is not the shortest so far.
  past :
      (q : List T) (qs : List (List T)) (i tag least : ℕ) (r : ℕ ⊎ ℕ)
      → is_idle q ≡ false
      → least ≤ length q
      → Outcome qs (i + 1) tag least r
      → Outcome (q ∷ qs) i tag least r
  past q qs i tag least (inl j) b l (k, e, g, busy) = (suc k, omega arith, g, (b, busy))
  past q qs i tag least (inr t) b l (busy, inl (e, all)) = ((b, busy), inl (e, (l, all)))
  past q qs i tag least (inr t) b l (busy, inr (k, p, e, g, s, all)) =
      ((b, busy), inr (suc k, p, omega arith, g, s, (omega arith, all)))

  -- The thread in front is the shortest so far.
  found :
      (q : List T) (qs : List (List T)) (i tag least : ℕ) (r : ℕ ⊎ ℕ)
      → is_idle q ≡ false
      → length q < least
      → Outcome qs (i + 1) i (length q) r
      → Outcome (q ∷ qs) i tag least r
  found q qs i tag least (inl j) b l (k, e, g, busy) = (suc k, omega arith, g, (b, busy))
  found q qs i tag least (inr t) b l (busy, inl (e, all)) =
      ((b, busy), inr (0, q, omega arith, refl, l, (omega arith, all)))
  found q qs i tag least (inr t) b l (busy, inr (k, p, e, g, s, all)) =
      ((b, busy), inr (suc k, p, omega arith, g, omega arith, (omega arith, all)))

  scan_lem : (qs : List (List T)) (i tag least : ℕ) → Outcome qs i tag least (scan qs i tag least)
  unfolding scan
  scan_lem [] i tag least = (tt, inl (refl, tt))
  scan_lem ([] ∷ qs) i tag least = (0, omega arith, refl, tt)
  scan_lem ((t ∷ q) ∷ qs) i tag least = elim (Bool-cases (ltb (suc (length q)) least)) [
    | inl e ↦ rw e (
        found (t ∷ q) qs i tag least _ refl (ground arith) (scan_lem qs (i + 1) i (suc (length q))))
    | inr e ↦
        rw e (past (t ∷ q) qs i tag least _ refl (ground arith) (scan_lem qs (i + 1) tag least))
  ]

  -- The three ways of `pushTask`.
  abbrev pub Placed : T → ℕ → List (List T) → List (List T) → Type 0
  Placed func max qs after =
      ((k : ℕ) × (get_elem? qs k ≡ some []) × IsBusy (take k qs) × (after ≡ set qs k (func ∷ [])))
      ⊎ (IsBusy qs × ((qs ≡ []) ⊎ (length qs < max)) × (after ≡ qs ++ ((func ∷ []) ∷ [])))
      ⊎ ((k : ℕ) × (q : List T) × (get_elem? qs k ≡ some q)
          × IsBusy qs
          × (max ≤ length qs)
          × All (λ r. length q ≤ length r) qs
          × (after ≡ set qs k (q ++ (func ∷ []))))

  get_or-get_elem? :
      (qs : List (List T)) (k : ℕ) (q : List T) → get_elem? qs k ≡ some q → get_or qs k [] ≡ q
  get_or-get_elem? [] k q e = ground arith
  get_or-get_elem? (r ∷ qs) zero q e = cc
  get_or-get_elem? (r ∷ qs) (suc k) q e = get_or-get_elem? qs k q e

  push_at_lem :
      (func : T) (qs : List (List T)) (i k : ℕ) (q : List T)
      → i ≡ k
      → get_elem? qs k ≡ some q
      → push_at func qs i ≡ set qs k (q ++ (func ∷ []))
  push_at_lem func qs i k q e g =
      rw e (ap (λ r. set qs k (r ++ (func ∷ []))) (get_or-get_elem? qs k q g))

  -- The shortest queue, found from the first one on.
  place-Placed :
      (func : T) (max : ℕ) (q : List T) (qs : List (List T)) (r : ℕ ⊎ ℕ)
      → Outcome (q ∷ qs) 0 0 (length q) r
      → Placed func max (q ∷ qs) (place func (q ∷ qs) max r)
  unfolding place
  place-Placed func max q qs (inl i) (k, e, g, busy) =
      inl (k, g, busy, push_at_lem func (q ∷ qs) i k [] (omega arith) g)
  place-Placed func max q qs (inr t) (busy, w) = elim (Bool-cases (ltb (suc (length qs)) max)) [
    | inl e ↦ rw e (inr (inl (busy, inr (ground arith), refl)))
    | inr e ↦ rw e (inr (inr (shortest (ground arith) w)))
  ]
    where
      shortest :
          max ≤ length (q ∷ qs)
          → ((t ≡ 0) × All (λ q'. length q ≤ length q') (q ∷ qs))
            ⊎ ((k : ℕ) × (p : List T) × (t ≡ 0 + k)
                × (get_elem? (q ∷ qs) k ≡ some p)
                × (length p < length q)
                × All (λ r. length p ≤ length r) (q ∷ qs))
          → (k : ℕ) × (p : List T) × (get_elem? (q ∷ qs) k ≡ some p)
            × IsBusy (q ∷ qs)
            × (max ≤ length (q ∷ qs))
            × All (λ r. length p ≤ length r) (q ∷ qs)
            × (push_at func (q ∷ qs) t ≡ set (q ∷ qs) k (p ++ (func ∷ [])))
      shortest full (inl (z, all)) =
          (0, q, refl, busy, full, all, push_at_lem func (q ∷ qs) t 0 q z refl)
      shortest full (inr (k, p, z, g, l, all)) =
          (k, p, g, busy, full, all, push_at_lem func (q ∷ qs) t k p (omega arith) g)

  -- `pushTask` gives the task to the first free thread; if none is free and there are fewer than the
  -- maximum, or none at all, to a new thread; else to a thread with a shortest queue.
  pub push_cached_lem :
      (func : T) (p : CachedPool T)
      → Placed func p.max_thread_num p.single_thread_vec (push_cached func p).single_thread_vec
  unfolding push_cached push_among
  push_cached_lem func p = go p.single_thread_vec
    where
      go :
          (qs : List (List T))
          → Placed func p.max_thread_num qs (push_among func p.max_thread_num qs)
      go [] = inr (inl (tt, inl refl, refl))
      go (q ∷ qs) = place-Placed func p.max_thread_num q qs _ (scan_lem (q ∷ qs) 0 0 (length q))
