-- ===== src/Base/Members.antt =====
-- Lists of numbers as sets.
use Prim.Native.Nat.{ℕ}
use mathlib.Core.Path.{◌≡◌, refl, sym, ◌∙◌}
use mathlib.Core.Logic.{◌⊎◌, inl, inr}
use mathlib.Core.Bool.{Bool, true, false, ◌||◌, true≢false}
use mathlib.Core.List.{List, [], ◌∷◌, ◌++◌}
use native.Mathlib.Omega.{arith}
use trantor_net.Base.Tests.{◌==◌, if◌then◌else◌, Bool-cases}

unfoldable pub contains : ℕ → List ℕ → Bool
contains j [] = false
contains j (x ∷ xs) = x == j || contains j xs

unfoldable pub without : ℕ → List ℕ → List ℕ
without j [] = []
without j (x ∷ xs) = let rest = without j xs in if x == j then rest else x ∷ rest

pub contains-without_self : (o : ℕ) (xs : List ℕ) → contains o (without o xs) ≡ false
unfolding contains without
contains-without_self o [] = refl
contains-without_self o (x ∷ xs) = ground (arith, contains-without_self o xs)

pub contains-without_other :
    (o p : ℕ) (xs : List ℕ) → contains p (without o xs) ≡ true → contains p xs ≡ true
unfolding contains without
contains-without_other o p [] h = h
contains-without_other o p (x ∷ xs) h = ground (arith, contains-without_other o p xs)

pub contains-without_still :
    (o p : ℕ) (xs : List ℕ) → contains p xs ≡ false → contains p (without o xs) ≡ false
contains-without_still o p xs h = elim (Bool-cases (contains p (without o xs))) [
  | inl e ↦ absurd (true≢false (sym (contains-without_other o p xs e) ∙ h))
  | inr e ↦ e
]

pub contains-append :
    (p o : ℕ) (xs : List ℕ) → contains p (xs ++ (o ∷ [])) ≡ true → (contains p xs ≡ true) ⊎ (o ≡ p)
unfolding contains
contains-append p o [] h = inr (ground arith)
contains-append p o (x ∷ xs) h = elim (Bool-cases (x == p)) [
  | inl e ↦ inl (rw e refl)
  | inr e ↦
      let h' : contains p (xs ++ (o ∷ [])) ≡ true = ground arith in
      elim (contains-append p o xs h') [ inl t ↦ inl (rw (e, t) refl) | inr t ↦ inr t ]
]
