-- ===== src/Tool/Timestamp.antt =====
-- TrantorTimestamp (src/tool/inc/TrantorTimestamp.h, src/tool/src/TrantorTimestamp.cc): a time in
-- microseconds since the epoch, of 64 bits with sign. Sums and products stay within 64 bits.
pub mod Parts
use trantor_net.Base.{ℕ, suc, ◌+◌, ◌*◌, ◌/◌, ◌≡◌, Bool, true, false, not, ◌&&◌}
use trantor_net.Base.Int.{ℤ, pos, negsuc, ◌+ℤ◌, ◌-ℤ◌, ◌*ℤ◌, ltb_ℤ}

pub record Timestamp : Type 0 where
  pub usec : ℤ

abbrev pub lt_ts : Timestamp → Timestamp → Bool
lt_ts a b = ltb_ℤ a.usec b.usec

abbrev pub gt_ts : Timestamp → Timestamp → Bool
gt_ts a b = ltb_ℤ b.usec a.usec

abbrev pub ge_ts : Timestamp → Timestamp → Bool
ge_ts a b = not (ltb_ℤ a.usec b.usec)

abbrev pub le_ts : Timestamp → Timestamp → Bool
le_ts a b = not (ltb_ℤ b.usec a.usec)

abbrev pub eq_ts : Timestamp → Timestamp → Bool
eq_ts a b = not (ltb_ℤ a.usec b.usec) && not (ltb_ℤ b.usec a.usec)

-- The `operator>` that is not `const` returns nothing and overwrites its left operand.
abbrev pub assign_gt : Timestamp → Timestamp → Timestamp
assign_gt a rhs = record { usec = rhs.usec }

-- `operator+` and `operator-`.
unfoldable pub add_ts : Timestamp → ℤ → Timestamp
add_ts lhs interval = record { usec = lhs.usec +ℤ interval }

unfoldable pub sub_ts : Timestamp → Timestamp → ℤ
sub_ts lhs rhs = lhs.usec -ℤ rhs.usec

-- -n
abbrev pub negate : ℕ → ℤ
negate ℕ.zero = pos 0
negate (suc n) = negsuc n

-- `t / 1000000`, which cuts towards zero.
unfoldable pub seconds : ℤ → ℤ
seconds (pos n) = pos (n / 1000000)
seconds (negsuc n) = negate (suc n / 1000000)

pub record Timeval : Type 0 where
  pub tv_sec : ℤ
  pub tv_usec : ℤ

unfoldable pub get_timeval : Timestamp → Timeval
get_timeval t =
    let sec = seconds t.usec in record { tv_sec = sec; tv_usec = t.usec -ℤ sec *ℤ pos 1000000 }

pub record Timespec : Type 0 where
  pub tv_sec : ℤ
  pub tv_nsec : ℤ

unfoldable pub get_timespec : Timestamp → Timespec
get_timespec t =
    let sec = seconds t.usec in
    record { tv_sec = sec; tv_nsec = t.usec *ℤ pos 1000 -ℤ sec *ℤ pos 1000000000 }

-- `now`, from what `gettimeofday` returns.
unfoldable pub now_of : Timeval → Timestamp
now_of tv = record { usec = tv.tv_sec *ℤ pos 1000000 +ℤ tv.tv_usec }
