-- ===== src/Aio/Files/Entries.antt =====
-- The entry of an operator in a map of the manager, after a step.
use trantor_net.Base.{
  ==_iff, ℕ, ◌≡◌, ◌≢◌, refl, sym, ◌∙◌, ap, Bool, true, false, ◌&&◌, ◌==◌, if◌then◌else◌, Bool-cases,
  inl, inr, arith,
}

pub if_step :
    (b : Bool) (f g : Bool → Bool) (x y z : Bool)
    → x ≡ (if b then f y else y)
    → y ≡ (if b then g z else z)
    → x ≡ (if b then f (g z) else z)
if_step true f g x y z e d = e ∙ ap f d
if_step false f g x y z e d = e ∙ d

-- An entry of a map after a step that is about one path and one operator.
abbrev pub Stepped : (Bool → Bool) → ℕ → ℕ → ℕ → Bool → Bool → ℕ → Type 0
Stepped step id q j after before p = after ≡ (if (p == q) && (id == j) then step before else before)

pub Stepped-here :
    (step : Bool → Bool) (id q p : ℕ) (after before was is : Bool)
    → Stepped step id q id after before p
    → before ≡ (p == q) && was
    → is ≡ step was
    → after ≡ (p == q) && is
Stepped-here step id q p after before was is e d f = elim (Bool-cases (p == q)) [
  | inl z ↦ e ∙ rw (z, (==_iff id id).1 refl) (ap step (d ∙ rw z refl) ∙ sym f)
  | inr z ↦ e ∙ rw z (d ∙ rw z refl)
]

pub Stepped-other :
    (step : Bool → Bool) (id q j p : ℕ) (after before : Bool)
    → id ≢ j
    → Stepped step id q j after before p
    → after ≡ before
Stepped-other step id q j p after before n e = e ∙ ground (arith, n)
