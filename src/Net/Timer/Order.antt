-- ===== src/Net/Timer/Order.antt =====
-- The map of callbacks: ascending in the trigger time, first come first served within one time.
use trantor_net.Base.{
  ◌≡◌, refl, ap, ◌∙◌, true, false, inl, inr, List, [], ◌∷◌, ◌++◌, arith, if◌then◌else◌, All,
  Bool-cases,
}
use trantor_net.Base.Int.{ℤ, ltb_ℤ, ◌≤ℤ◌}
use trantor_net.Tool.Timestamp.{Timestamp, lt_ts, eq_ts}
use trantor_net.Net.Timer.{Callback, insert_cb, before, from_bound}

module _ {U : Type 0} where
  -- The keys ascend from the bound on.
  abbrev pub From : ℤ → List (Timestamp × Callback U) → Type 0
  From lo [] = Unit
  From lo ((k, cb) ∷ m) = (lo ≤ℤ k.usec) × From k.usec m

  abbrev pub IsSorted : List (Timestamp × Callback U) → Type 0
  IsSorted [] = Unit
  IsSorted ((k, cb) ∷ m) = From k.usec m

  From-lower : (lo hi : ℤ) (m : List (Timestamp × Callback U)) → From hi m → lo ≤ℤ hi → From lo m
  From-lower lo hi [] h le = tt
  From-lower lo hi ((k, cb) ∷ m) h le = (omega (arith, h.0), h.1)

  insert_cb-From :
      (lo : ℤ) (k : Timestamp) (cb : Callback U) (m : List (Timestamp × Callback U))
      → From lo m
      → lo ≤ℤ k.usec
      → From lo (insert_cb k cb m)
  unfolding insert_cb
  insert_cb-From lo k cb [] h le = (le, tt)
  insert_cb-From lo k cb ((j, c) ∷ m) h le = elim (Bool-cases (lt_ts k j)) [
    | inl e ↦ rw e (le, (ground arith, h.1))
    | inr e ↦ rw e (h.0, insert_cb-From j.usec k cb m h.1 (ground arith))
  ]

  insert_cb-IsSorted :
      (k : Timestamp) (cb : Callback U) (m : List (Timestamp × Callback U))
      → IsSorted m
      → IsSorted (insert_cb k cb m)
  unfolding insert_cb
  insert_cb-IsSorted k cb [] h = tt
  insert_cb-IsSorted k cb ((j, c) ∷ m) h = elim (Bool-cases (lt_ts k j)) [
    | inl e ↦ rw e (ground arith, h)
    | inr e ↦ rw e (insert_cb-From j.usec k cb m h (ground arith))
  ]

  -- The callbacks of one time, in order.
  abbrev pub at_time : Timestamp → List (Timestamp × Callback U) → List (Callback U)
  at_time k [] = []
  at_time k ((j, c) ∷ m) = if eq_ts j k then c ∷ at_time k m else at_time k m

  at_time_later :
      (k : Timestamp) (lo : ℤ) (m : List (Timestamp × Callback U))
      → From lo m
      → ltb_ℤ k.usec lo ≡ true
      → at_time k m ≡ []
  at_time_later k lo [] h lt = refl
  at_time_later k lo ((j, c) ∷ m) h lt = ground (arith, at_time_later k j.usec m h.1)

  pub From-IsSorted : (lo : ℤ) (m : List (Timestamp × Callback U)) → From lo m → IsSorted m
  From-IsSorted lo [] h = tt
  From-IsSorted lo ((k, cb) ∷ m) h = h.1

  at_time-insert_cb :
      (j k : Timestamp) (cb : Callback U) (m : List (Timestamp × Callback U))
      → IsSorted m
      → at_time j (insert_cb k cb m) ≡ (if eq_ts k j then at_time j m ++ (cb ∷ []) else at_time j m)
  unfolding insert_cb
  at_time-insert_cb j k cb [] h = ground arith
  at_time-insert_cb j k cb ((i, c) ∷ m) h = elim (Bool-cases (lt_ts k i)) [
    | inl e ↦ elim (Bool-cases (eq_ts k j)) [
      | inl f ↦
          let none_yet : at_time j ((i, c) ∷ m) ≡ [] =
            at_time_later j i.usec ((i, c) ∷ m) (omega arith, h) (ground arith) in
          rw (e, f) (rw none_yet refl)
      | inr f ↦ rw (e, f) refl
    ]
    | inr e ↦
        let rest = at_time-insert_cb j k cb m (From-IsSorted i.usec m h) in
        elim (Bool-cases (eq_ts i j)) [
          | inl f ↦ elim (Bool-cases (eq_ts k j)) [
            | inl g ↦ rw (e, f, g) (ap (◌∷◌ c) (rest ∙ rw g refl))
            | inr g ↦ rw (e, f, g) (ap (◌∷◌ c) (rest ∙ rw g refl))
          ]
          | inr f ↦ rw (e, f) rest
        ]
  ]

  -- Registering keeps the map ascending, puts the callback behind those of the same time, and leaves
  -- the callbacks of every other time as they are.
  pub insert_cb_lem :
      (k : Timestamp) (cb : Callback U) (m : List (Timestamp × Callback U))
      → IsSorted m
      → IsSorted (insert_cb k cb m)
        × ((j : Timestamp)
            → at_time j (insert_cb k cb m)
              ≡ (if eq_ts k j then at_time j m ++ (cb ∷ []) else at_time j m))
  insert_cb_lem k cb m h = (insert_cb-IsSorted k cb m h, λ j. at_time-insert_cb j k cb m h)

  lt_ts-All :
      (now : Timestamp) (lo : ℤ) (m : List (Timestamp × Callback U))
      → From lo m
      → ltb_ℤ lo now.usec ≡ false
      → All (λ e. lt_ts e.0 now ≡ false) m
  lt_ts-All now lo [] h n = tt
  lt_ts-All now lo ((k, cb) ∷ m) h n =
      let later : lt_ts k now ≡ false = ground (arith, h.0) in
      (later, lt_ts-All now k.usec m h.1 later)

  -- On an ascending map, `runTimerCb` takes exactly the entries whose time is before now, in the
  -- order of the map, and leaves the others.
  pub due_lem :
      (now : Timestamp) (m : List (Timestamp × Callback U))
      → IsSorted m
      → (before now m ++ from_bound now m ≡ m)
        × All (λ e. lt_ts e.0 now ≡ true) (before now m)
        × All (λ e. lt_ts e.0 now ≡ false) (from_bound now m)
  unfolding before from_bound
  due_lem now [] h = (refl, tt, tt)
  due_lem now ((k, cb) ∷ m) h =
      let (joined, due, rest) = due_lem now m (From-IsSorted k.usec m h) in
      elim (Bool-cases (lt_ts k now)) [
        | inl e ↦ rw e (ap (◌∷◌ (k, cb)) joined, (e, due), rest)
        | inr e ↦ rw e (refl, tt, (e, lt_ts-All now k.usec m h e))
      ]
