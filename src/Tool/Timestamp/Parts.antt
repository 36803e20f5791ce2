-- ===== src/Tool/Timestamp/Parts.antt =====
-- A timestamp and its parts.
use trantor_net.Base.{◌/◌, ◌%◌, ◌<◌, ◌≡◌, refl, arith}
use trantor_net.Base.Int.{
  ℤ, pos, negsuc, ◌+ℤ◌, ◌-ℤ◌, ◌*ℤ◌, ◌≤ℤ◌, pos_part, neg_part, eq_of_parts, +ℤ_parts, -ℤ_parts,
  *ℤ_parts, one_part,
}
use trantor_net.Tool.Timestamp.{Timestamp, get_timeval, get_timespec, now_of, seconds}

seconds_parts :
    (t : ℤ)
    → (pos_part (seconds t) ≡ pos_part t / 1000000) × (neg_part (seconds t) ≡ neg_part t / 1000000)
unfolding seconds
seconds_parts (pos n) = omega arith
seconds_parts (negsuc n) = ground arith

-- What is left of a time behind its seconds.
rest_parts :
    (t : ℤ)
    → let u = t -ℤ seconds t *ℤ pos 1000000 in
      (pos_part u ≡ pos_part t % 1000000) × (neg_part u ≡ neg_part t % 1000000)
rest_parts t = omega (
  arith,
  seconds_parts t,
  -ℤ_parts t (seconds t *ℤ pos 1000000),
  *ℤ_parts (seconds t) 1000000,
  one_part t,
  one_part (t -ℤ seconds t *ℤ pos 1000000),
  one_part (seconds t *ℤ pos 1000000),
)

put_together : (t : ℤ) → seconds t *ℤ pos 1000000 +ℤ (t -ℤ seconds t *ℤ pos 1000000) ≡ t
put_together t = eq_of_parts _ _ (
    omega (
      arith,
      +ℤ_parts (seconds t *ℤ pos 1000000) (t -ℤ seconds t *ℤ pos 1000000),
      -ℤ_parts t (seconds t *ℤ pos 1000000),
    ))

-- `getTimeval` splits any timestamp: `now` of the parts is the timestamp, and the microseconds are
-- below a million in size. For a time before the epoch they are not positive.
pub get_timeval_lem :
    (t : Timestamp)
    → (now_of (get_timeval t) ≡ t)
      × (pos_part (get_timeval t).tv_usec < 1000000)
      × (neg_part (get_timeval t).tv_usec < 1000000)
      × (t.usec ≤ℤ pos 0 → (get_timeval t).tv_usec ≤ℤ pos 0)
unfolding get_timeval now_of
get_timeval_lem t = (
  λ i. record { usec = put_together t.usec i },
  omega (arith, rest_parts t.usec),
  omega (arith, rest_parts t.usec),
  λ h. omega (arith, rest_parts t.usec, one_part t.usec),
)

-- `getTimespec` gives the same seconds, and the microseconds times a thousand.
pub get_timespec_lem :
    (t : Timestamp)
    → ((get_timespec t).tv_sec ≡ (get_timeval t).tv_sec)
      × ((get_timespec t).tv_nsec ≡ (get_timeval t).tv_usec *ℤ pos 1000)
unfolding get_timeval get_timespec
get_timespec_lem t =
    let u = t.usec -ℤ seconds t.usec *ℤ pos 1000000 in
    (
      refl,
      eq_of_parts _ _ (
          omega (
            arith,
            -ℤ_parts t.usec (seconds t.usec *ℤ pos 1000000),
            -ℤ_parts (t.usec *ℤ pos 1000) (seconds t.usec *ℤ pos 1000000000),
            *ℤ_parts t.usec 1000,
            *ℤ_parts u 1000,
            *ℤ_parts (seconds t.usec) 1000000,
            *ℤ_parts (seconds t.usec) 1000000000,
          )),
    )
