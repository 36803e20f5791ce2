-- ===== src/Tool/Funcs/Split/Found.antt =====
-- What the searches of splitString find.
use trantor_net.Base.{
  ℕ, suc, ◌+◌, ◌-◌, ◌≤◌, ◌≡◌, inl, inr, refl, sym, ◌∙◌, ap, true, false, Option, none, some, List,
  ◌∷◌, ltb, leb, ◌&&◌, arith, length, drop, Bool-cases,
}
use mathlib.Core.Bool.{true≢false}
use mathlib.Core.Option.{some-injective}
use trantor_net.Net.Loop.Sync.{is_some}
use trantor_net.Tool.Funcs.Split.{is_prefix, shift, first_in, find_separator, skip}

pub first_in-here :
    (s : List ℕ) (c : ℕ) (str : List ℕ)
    → is_prefix s (c ∷ str) ≡ true
    → first_in s (c ∷ str) ≡ some 0
unfolding first_in
first_in-here s c str h = rw h refl

pub first_in-later :
    (s : List ℕ) (c : ℕ) (str : List ℕ)
    → is_prefix s (c ∷ str) ≡ false
    → first_in s (c ∷ str) ≡ shift 1 (first_in s str)
unfolding first_in
first_in-later s c str h = rw h refl

pub shift-some :
    (n i : ℕ) (o : Option ℕ) → shift n o ≡ some i → (k : ℕ) × (o ≡ some k) × (k + n ≡ i)
shift-some n i none e = absurd (true≢false (sym (ap is_some e)))
shift-some n i (some k) e = (k, refl, some-injective (k + n) i e)

pub shift-none : (n : ℕ) (o : Option ℕ) → shift n o ≡ none → o ≡ none
shift-none n none e = refl
shift-none n (some k) e = absurd (true≢false (ap is_some e))

pub drop_after : (c n : ℕ) (str : List ℕ) → drop (suc n - 1) str ≡ drop (0 + suc n) (c ∷ str)
drop_after c n str =
    let back : suc n - 1 ≡ n = omega arith in
    let on : suc n ≡ 0 + suc n = omega arith in
    ap (λ k. drop k str) back ∙ ap (λ k. drop k (c ∷ str)) on

pub zero_more : (n : ℕ) → 0 + suc n ≡ suc n
zero_more n = omega arith

pub one_more : (k i : ℕ) → k + 1 ≡ i → suc k ≡ i
one_more k i e = omega (arith, e)

pub drop_later :
    (c k i n : ℕ) (str : List ℕ) → k + 1 ≡ i → drop (k + suc n) str ≡ drop (i + suc n) (c ∷ str)
drop_later c k i n str e =
    let on : suc (k + suc n) ≡ i + suc n = omega (arith, e) in ap (λ m. drop m (c ∷ str)) on

pub skip-stop :
    (fuel : ℕ) (s str : List ℕ) (pos : ℕ)
    → (ltb pos (length str) && is_prefix s (drop pos str)) ≡ false
    → skip (suc fuel) s str pos ≡ some pos
unfolding skip
skip-stop fuel s str pos h = rw h refl

pub skip-on :
    (fuel : ℕ) (s str : List ℕ) (pos : ℕ)
    → (ltb pos (length str) && is_prefix s (drop pos str)) ≡ true
    → skip (suc fuel) s str pos ≡ skip fuel s str (pos + length s)
unfolding skip
skip-on fuel s str pos h = rw h refl

pub find-here :
    (s str : List ℕ) (pos : ℕ)
    → leb pos (length str) ≡ true
    → find_separator s str pos ≡ shift pos (first_in s (drop pos str))
unfolding find_separator
find-here s str pos h = rw h refl

pub find-past :
    (s str : List ℕ) (pos : ℕ) → leb pos (length str) ≡ false → find_separator s str pos ≡ none
unfolding find_separator
find-past s str pos h = rw h refl

pub find-none :
    (s str : List ℕ) (pos : ℕ)
    → pos ≤ length str
    → find_separator s str pos ≡ none
    → first_in s (drop pos str) ≡ none
find-none s str pos h e =
    shift-none pos (first_in s (drop pos str)) (sym (find-here s str pos (ground (arith, h))) ∙ e)

pub find-some :
    (s str : List ℕ) (pos q : ℕ)
    → find_separator s str pos ≡ some q
    → (i : ℕ) × (first_in s (drop pos str) ≡ some i) × (i + pos ≡ q)
find-some s str pos q e = elim (Bool-cases (leb pos (length str))) [
  | inl h ↦ shift-some pos q (first_in s (drop pos str)) (sym (find-here s str pos h) ∙ e)
  | inr h ↦ absurd (true≢false (ap is_some (sym e ∙ find-past s str pos h)))
]
