-- ===== src/Tool/Funcs/Split/Turns.antt =====
-- Do the loops of splitString end, and what do they collect?
use trantor_net.Base.{
  ℕ, zero, suc, ◌+◌, ◌<◌, ◌≤◌, ◌≡◌, refl, sym, ◌∙◌, ap, true, false, Option, none, some, List, [],
  ◌∷◌, ◌==◌, ==_iff, ◌⊎◌, ltb, leb, ◌&&◌, arith, lt→ltb, length, drop, length-drop, Bool-cases, inl,
  inr, drop-drop,
}
use mathlib.Core.Bool.{true≢false}
use trantor_net.Tool.Funcs.Split.{
  is_prefix, shift, first_in, find_separator, skip, split_from, split_string,
}

-- An empty separator is found at every position, and skipping it goes nowhere.
first_in_empty : (t : List ℕ) → first_in [] t ≡ some 0
unfolding first_in is_prefix
first_in_empty [] = refl
first_in_empty (c ∷ t) = refl

find_empty : (str : List ℕ) (pos : ℕ) → pos ≤ length str → find_separator [] str pos ≡ some pos
unfolding find_separator
find_empty str pos h = rw (first_in_empty (drop pos str)) (ground (arith, h))

skip_empty : (fuel : ℕ) (str : List ℕ) (pos : ℕ) → pos < length str → skip fuel [] str pos ≡ none
unfolding skip is_prefix
skip_empty zero str pos h = refl
skip_empty (suc fuel) str pos h =
    rw (skip_empty fuel str (pos + 0) (omega arith)) (ground (arith, h))

skip_end :
    (fuel : ℕ) (str : List ℕ) (pos : ℕ) → pos ≡ length str → skip (suc fuel) [] str pos ≡ some pos
unfolding skip is_prefix
skip_end fuel str pos h = ground (arith, h)

split_from_empty :
    (fuel : ℕ) (str : List ℕ) (pos1 pos2 : ℕ) (ret : List (List ℕ))
    → pos1 ≤ length str
    → split_from fuel [] str (some pos1) pos2 ret ≡ none
unfolding split_from
split_from_empty zero str pos1 pos2 ret h = refl
split_from_empty (suc fuel) str pos1 pos2 ret h = elim (Bool-cases (pos1 == length str)) [
  | inl e ↦
      rw
        (
          skip_end fuel str (pos1 + 0) (omega (arith, (==_iff _ _).0 e)),
          find_empty str (pos1 + 0) (omega arith),
          split_from,
        )
        (split_from_empty fuel str (pos1 + 0) (pos1 + 0) _ (omega arith))
  | inr e ↦ rw (skip_empty (suc fuel) str (pos1 + 0) (ground (arith, e, h)), split_from) refl
]

-- With an empty separator the function never returns, whatever the text.
pub split_string_empty : (fuel : ℕ) (str : List ℕ) → split_string fuel str [] ≡ none
unfolding split_string
split_string_empty fuel str =
    rw (find_empty str 0 (omega arith)) (split_from_empty fuel str 0 0 [] (omega arith))

unfoldable pub OnSome {ℓ} : {A : Type ℓ} → (A → Type 0) → Option A → Type 0
OnSome P none = Unit
OnSome P (some a) = P a

map-OnSome :
    {A : Type 0} (P Q : A → Type 0) (o : Option A) → ((a : A) → P a → Q a) → OnSome P o → OnSome Q o
unfolding OnSome
map-OnSome P Q none f h = tt
map-OnSome P Q (some a) f h = f a h

shift-OnSome :
    (P Q : ℕ → Type 0) (k : ℕ) (o : Option ℕ)
    → ((i : ℕ) → P i → Q (i + k))
    → OnSome P o
    → OnSome Q (shift k o)
unfolding OnSome
shift-OnSome P Q k none f h = tt
shift-OnSome P Q k (some i) f h = f i h

pub is_prefix-length : (s t : List ℕ) → is_prefix s t ≡ true → length s ≤ length t
unfolding is_prefix
is_prefix-length [] t h = omega arith
is_prefix-length (a ∷ s) [] h = ground (arith, h)
is_prefix-length (a ∷ s) (c ∷ t) h = elim (Bool-cases (a == c)) [
  | inl e ↦ omega (arith, is_prefix-length s t (ground (arith, e, h)))
  | inr e ↦ ground (arith, e, h)
]

-- Where the separator is found, it stands.
first_in-OnSome : (s t : List ℕ) → OnSome (λ i. is_prefix s (drop i t) ≡ true) (first_in s t)
unfolding first_in OnSome
first_in-OnSome s [] = elim (Bool-cases (is_prefix s [])) [ inl e ↦ rw e e | inr e ↦ rw e tt ]
first_in-OnSome s (c ∷ t) = elim (Bool-cases (is_prefix s (c ∷ t))) [
  | inl e ↦ rw e e
  | inr e ↦ rw e (
      shift-OnSome _ _ 1 (first_in s t) (λ i h. let next : i + 1 ≡ suc i = omega arith in rw next h)
        (first_in-OnSome s t))
]

find_separator-OnSome :
    (s str : List ℕ) (pos : ℕ)
    → OnSome (λ q. (pos ≤ q) × (is_prefix s (drop q str) ≡ true)) (find_separator s str pos)
unfolding find_separator OnSome
find_separator-OnSome s str pos = elim (Bool-cases (leb pos (length str))) [
  | inl e ↦ rw e (
      shift-OnSome _ _ pos (first_in s (drop pos str))
        (λ i h.
          let place : drop (i + pos) str ≡ drop i (drop pos str) =
            ap (λ n. drop n str) (omega arith) ∙ drop-drop pos i str in
          (omega arith, rw place h))
        (first_in-OnSome s (drop pos str)))
  | inr e ↦ rw e tt
]

-- The separator is `a ∷ s`.
module _ (a : ℕ) (s str : List ℕ) where
  -- The inner loop ends at a position where the separator does not stand.
  abbrev pub EndsAt : ℕ → Option ℕ → Type 0
  EndsAt pos o =
      (p : ℕ) × (o ≡ some p)
      × (pos ≤ p)
      × ((ltb p (length str) && is_prefix (a ∷ s) (drop p str)) ≡ false)

  pub skip_lem :
      (fuel pos : ℕ) → length str ≤ fuel + pos → EndsAt pos (skip (suc fuel) (a ∷ s) str pos)
  unfolding skip
  skip_lem zero pos h = (pos, ground (arith, h), omega arith, ground (arith, h))
  skip_lem (suc fuel) pos h =
      elim (Bool-cases (ltb pos (length str) && is_prefix (a ∷ s) (drop pos str))) [
        | inr e ↦ (pos, rw e refl, omega arith, e)
        | inl e ↦
            let (p, ends, later, there) = skip_lem fuel (pos + suc (length s)) (omega arith) in
            (p, rw e ends, omega arith, there)
      ]

  -- The outer loop stands at an occurrence, and the item before it is not empty.
  unfoldable pub IsReady : ℕ → ℕ → Option ℕ → Type 0
  unfolding OnSome
  IsReady fuel pos2 =
      OnSome
        (λ pos1. (pos1 < length str) × (length str ≤ fuel + pos1) × ((pos1 ≡ 0) ⊎ (pos2 < pos1)))

  stands_inside : (q : ℕ) → is_prefix (a ∷ s) (drop q str) ≡ true → q < length str
  stands_inside q here =
      omega (arith, is_prefix-length (a ∷ s) (drop q str) here, length-drop q str)

  pub start-IsReady : IsReady (length str) 0 (find_separator (a ∷ s) str 0)
  unfolding IsReady
  start-IsReady =
      map-OnSome _ _ (find_separator (a ∷ s) str 0)
        (λ q (later, here). (
          stands_inside q here,
          omega arith,
          elim (Bool-cases (q == 0)) [
            | inl e ↦ inl ((==_iff q 0).0 e)
            | inr e ↦ inr (ground (arith, e))
          ],
        ))
        (find_separator-OnSome (a ∷ s) str 0)

  pub next-IsReady :
      (fuel p : ℕ)
      → length str ≤ fuel + p
      → (ltb p (length str) && is_prefix (a ∷ s) (drop p str)) ≡ false
      → IsReady fuel p (find_separator (a ∷ s) str p)
  unfolding IsReady
  next-IsReady fuel p h there =
      map-OnSome _ _ (find_separator (a ∷ s) str p)
        (λ q (later, here).
          let inside = stands_inside q here in
          (
            inside,
            omega arith,
            inr (elim (Bool-cases (q == p)) [
              | inl e ↦ absurd (
                  true≢false (
                    sym (rw (lt→ltb q (length str) inside, here) refl)
                    ∙ ap (λ n. ltb n (length str) && is_prefix (a ∷ s) (drop n str))
                        ((==_iff q p).0 e)
                    ∙ there))
              | inr e ↦ ground (arith, e, later)
            ]),
          ))
        (find_separator-OnSome (a ∷ s) str p)
