-- ===== src/Thread/Waking/Counts.antt =====
-- How many threads are in which stage.
use trantor_net.Base.{
  ℕ, zero, suc, ◌+◌, ◌<◌, ◌≤◌, ◌≡◌, ◌⊎◌, inl, inr, refl, some, List, [], ◌∷◌, get_elem?, sum,
  length, arith,
}
use trantor_net.Thread.Waking.{
  Stage, top, locking, asleep, notified, acting, returned, asleep_of, new_stages,
}

-- A thread that goes on by itself, and one that looks at the queue again before it sleeps.
abbrev pub awake_of : Stage → ℕ
awake_of asleep = 0
awake_of returned = 0
awake_of _ = 1

abbrev pub busy_of : Stage → ℕ
busy_of top = 1
busy_of locking = 1
busy_of acting = 1
busy_of _ = 0

abbrev pub gone_of : Stage → ℕ
gone_of returned = 1
gone_of _ = 0

one_of : (s : Stage) → awake_of s + asleep_of s + gone_of s ≡ 1
one_of top = omega arith
one_of locking = omega arith
one_of asleep = omega arith
one_of notified = omega arith
one_of acting = omega arith
one_of returned = omega arith

pub all_counted :
    (xs : List Stage) → sum awake_of xs + sum asleep_of xs + sum gone_of xs ≡ length xs
all_counted [] = omega arith
all_counted (s ∷ xs) = omega (arith, one_of s, all_counted xs)

pub new_stages-length : (n : ℕ) → length (new_stages n) ≡ n
new_stages-length zero = refl
new_stages-length (suc n) = omega (arith, new_stages-length n)

pub new_stages-gone : (n : ℕ) → sum gone_of (new_stages n) ≡ 0
new_stages-gone zero = refl
new_stages-gone (suc n) = omega (arith, new_stages-gone n)

-- Where there is one of a kind, it stands somewhere.
pub one_somewhere :
    (f : Stage → ℕ) (xs : List Stage)
    → 0 < sum f xs
    → (i : ℕ) × (s : Stage) × (get_elem? xs i ≡ some s) × (0 < f s)
one_somewhere f [] h = absurd (omega arith)
one_somewhere f (s ∷ xs) h = elim (zero_or (f s)) [
  | inl e ↦ let (i, t, at, more) = one_somewhere f xs (omega (arith, h, e)) in (suc i, t, at, more)
  | inr e ↦ (0, s, refl, e)
]
  where
    zero_or : (n : ℕ) → (n ≡ 0) ⊎ (0 < n)
    zero_or zero = inl refl
    zero_or (suc n) = inr (omega arith)

pub at_least :
    (f : Stage → ℕ) (xs : List Stage) (i : ℕ) (s : Stage) → get_elem? xs i ≡ some s → f s ≤ sum f xs
at_least f [] i s e = ground arith
at_least f (t ∷ xs) zero s e = ground arith
at_least f (t ∷ xs) (suc i) s e = omega (arith, at_least f xs i s e)
