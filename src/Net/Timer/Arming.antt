-- ===== src/Net/Timer/Arming.antt =====
-- The timerfd is set for the first entry, and never to the setting that would disarm it.
use trantor_net.Base.{
  ℕ, ◌+◌, ◌*◌, ◌≤◌, ◌<◌, ◌≡◌, refl, sym, subst, true, false, inl, inr, List, [], ◌∷◌, arith, All,
  Bool-cases,
}
use trantor_net.Base.Int.{
  pos, ltb_ℤ, ◌≤ℤ◌, ◌-ℤ◌, ◌+ℤ◌, ◌*ℤ◌, *ℤ_parts, eq_of_parts, -ℤ_parts, +ℤ_parts, one_part,
}
use trantor_net.Tool.Timestamp.{Timestamp, lt_ts, sub_ts}
use trantor_net.Net.Timer.{
  Callback, once, every, Setting, Timer, get_interval_from_now, setting_of, register_timer,
  insert_cb, is_zero, register_timer_cb_in_loop,
}
use trantor_net.Net.Timer.Order.{IsSorted, insert_cb_lem}

-- The length of a setting, in nanoseconds.
abbrev pub nanoseconds : Setting → ℕ
nanoseconds s = s.tv_sec * 1000000000 + s.tv_nsec

-- The setting for a trigger time is well formed (its nanoseconds are below 10^9), is never the zero
-- that disarms a timerfd, and is 100 microseconds or the time from now to the trigger time, whichever
-- is longer.
pub setting_lem :
    (trigger now : Timestamp)
    → let s = setting_of (get_interval_from_now trigger now) in
      (s.tv_nsec < 1000000000)
      × (100000 ≤ nanoseconds s)
      × (trigger.usec ≤ℤ now.usec +ℤ pos 100 → nanoseconds s ≡ 100000)
      × (now.usec +ℤ pos 100 ≤ℤ trigger.usec
          → pos (nanoseconds s) ≡ (trigger.usec -ℤ now.usec) *ℤ pos 1000)
unfolding setting_of get_interval_from_now sub_ts
setting_lem trigger now =
    let d = trigger.usec -ℤ now.usec in
    let parts = -ℤ_parts trigger.usec now.usec in
    elim (Bool-cases (ltb_ℤ d (pos 100))) [
      | inl e ↦ rw e (
        omega arith,
        omega arith,
        λ h. omega arith,
        λ h. eq_of_parts _ _ (
            grind (
              arith,
              e,
              parts,
              one_part d,
              *ℤ_parts d 1000,
              one_part (d *ℤ pos 1000),
              +ℤ_parts now.usec (pos 100),
            )),
      )
      | inr e ↦ rw e (
        omega arith,
        grind (arith, e, one_part d),
        λ h. grind (arith, e, parts, one_part d, +ℤ_parts now.usec (pos 100)),
        λ h.
            eq_of_parts _ _
              (grind (arith, e, parts, one_part d, *ℤ_parts d 1000, one_part (d *ℤ pos 1000))),
      )
    ]

module _ {U : Type 0} where
  -- Times after the epoch, intervals that are not negative.
  abbrev pub IsProper : Timestamp × Callback U → Type 0
  IsProper (k, once u) = pos 1 ≤ℤ k.usec
  IsProper (k, every micros u) = (pos 1 ≤ℤ k.usec) × (pos 0 ≤ℤ micros)

  abbrev pub IsGood : List (Timestamp × Callback U) → Type 0
  IsGood m = IsSorted m × All IsProper m

  -- Is the next trigger time that of the first entry, and the 0 if there is none?
  abbrev pub IsArmed : List (Timestamp × Callback U) → Timestamp → Type 0
  IsArmed [] next = is_zero next ≡ true
  IsArmed ((k, cb) ∷ m) next = next.usec ≡ k.usec

  -- Is the timerfd set for the first entry, as of some reading of the clock?
  abbrev pub IsTimedFor : List (Timestamp × Callback U) → List Setting → Type 0
  IsTimedFor [] settings = Unit
  IsTimedFor ((k, cb) ∷ m) settings =
      (now : Timestamp) × (earlier : List Setting) × (settings
        ≡ setting_of (get_interval_from_now k now) ∷ earlier)

  proper_time : (k : Timestamp) (cb : Callback U) → IsProper (k, cb) → pos 1 ≤ℤ k.usec
  proper_time k (once u) h = h
  proper_time k (every micros u) h = h.0

  pub insert_cb-IsProper :
      (k : Timestamp) (cb : Callback U) (m : List (Timestamp × Callback U))
      → IsProper (k, cb)
      → All IsProper m
      → All IsProper (insert_cb k cb m)
  unfolding insert_cb
  insert_cb-IsProper k cb [] p h = (p, tt)
  insert_cb-IsProper k cb ((j, c) ∷ m) p h = elim (Bool-cases (lt_ts k j)) [
    | inl e ↦ rw e (p, h)
    | inr e ↦ rw e (h.0, insert_cb-IsProper k cb m p h.1)
  ]

  -- By the fields of the timer.
  register-fields :
      (now k : Timestamp) (cb : Callback U) (next : Timestamp) (m : List (Timestamp × Callback U))
      (s : List Setting) (called : List (Callback U))
      → All IsProper m
      → IsArmed m next
      → IsTimedFor m s
      → let u =
          register_timer_cb_in_loop now k cb
            (record { next_trigger_time = next; time_cb_map = m; settings = s; called = called }) in
        (u.time_cb_map ≡ insert_cb k cb m)
        × IsArmed u.time_cb_map u.next_trigger_time
        × IsTimedFor u.time_cb_map u.settings
  unfolding register_timer_cb_in_loop register_timer insert_cb
  register-fields now k cb next [] s called h a z = rw a (elim (Bool-cases (lt_ts k next)) [
    | inl e ↦ rw e (refl, refl, (now, s, refl))
    | inr e ↦ rw e (refl, refl, (now, s, refl))
  ])
  register-fields now k cb next ((j, c) ∷ m) s called h a z =
      let live : is_zero next ≡ false = ground (arith, proper_time j c h.0) in
      elim (Bool-cases (lt_ts k j)) [
        | inl e ↦
            let same : lt_ts k next ≡ true = ground arith in
            rw (same, e) (refl, refl, (now, s, refl))
        | inr e ↦ let same : lt_ts k next ≡ false = ground arith in rw (same, live, e) (refl, a, z)
      ]

  -- In an ascending map of proper entries, whose timer is armed for the first one: registering a
  -- callback with a time after the epoch, and an interval that is not negative if it has one, inserts
  -- it, keeps the map ascending with proper entries, and leaves the timer armed and the timerfd set for
  -- the first entry.
  pub register-IsArmed :
      (now k : Timestamp) (cb : Callback U) (t : Timer U)
      → IsGood t.time_cb_map
      → IsArmed t.time_cb_map t.next_trigger_time
      → IsTimedFor t.time_cb_map t.settings
      → IsProper (k, cb)
      → let u = register_timer_cb_in_loop now k cb t in
        (u.time_cb_map ≡ insert_cb k cb t.time_cb_map)
        × IsGood u.time_cb_map
        × IsArmed u.time_cb_map u.next_trigger_time
        × IsTimedFor u.time_cb_map u.settings
  register-IsArmed now k cb t h a z p =
      let (same, armed, timed) =
        register-fields now k cb t.next_trigger_time t.time_cb_map t.settings t.called h.1 a z in
      (
        same,
        subst IsGood (sym same)
            ((insert_cb_lem k cb t.time_cb_map h.0).0, insert_cb-IsProper k cb t.time_cb_map p h.1),
        armed,
        timed,
      )
