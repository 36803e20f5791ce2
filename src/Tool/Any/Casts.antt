-- ===== src/Tool/Any/Casts.antt =====
-- What the casts of a variable give, in all histories.
use trantor_net.Base.{
  ℕ, ◌≡◌, ◌↔◌, refl, sym, ◌∙◌, ap, subst, Option, none, some, List, [], ◌∷◌, Option-cases, inl, inr,
}
use mathlib.Core.Bool.{true≢false}
use mathlib.Core.Option.{some-injective}
use mathlib.Core.Path.{subst_refl, path_j}
use mathlib.Core.HLevel.{hedberg}
use trantor_net.Net.Loop.Sync.{is_some}
use trantor_net.Tcp.Server.{update}
use trantor_net.Tool.Any.{
  Holder, Heap, State, new_state, set_value, copy_any, delete_holder, Op, declare, construct,
  construct_copy, assign, assign_copy, destroy, apply, apply_to, run, any_cast, value_if,
}
use trantor_net.Tool.Any.Copies.{
  Values, no_values, living, spec_apply, spec_run, Stands, Reads, LeadsTo, set_value-Stands,
  set_none-Stands, copy-Stands, destroy-Stands,
}

module _ (Code : Type 0) (Value : Code → Type 0) where
  -- What follows only a variable that lives.
  living-Stands :
      (i j : ℕ) (r : Option (Option (Holder Code Value))) (a b : Values Code Value)
      (s : State Code Value)
      → a j ≡ r
      → living Code Value i r a ≡ some b
      → Stands Code Value a s
      → LeadsTo Code Value b (copy_any Code Value i (s.vars j) s)
  living-Stands i j none a b s e f v = absurd (true≢false (sym (ap is_some f)))
  living-Stands i j (some x) a b s e f v =
      subst (λ c. LeadsTo Code Value c (copy_any Code Value i (s.vars j) s))
        (some-injective (update i (some x) a) b f) (copy-Stands Code Value i j x a s e v)

  apply-Stands :
      (op : Op Code Value) (a b : Values Code Value) (s : State Code Value)
      → spec_apply Code Value op a ≡ some b
      → Stands Code Value a s
      → LeadsTo Code Value b (apply Code Value op s)
  unfolding apply spec_apply
  apply-Stands (declare i) a b s f v =
      subst (λ c. Stands Code Value c (record s { vars = update i none s.vars }))
        (some-injective (update i (some none) a) b f) (set_none-Stands Code Value i a s v)
  apply-Stands (construct i h) a b s f v =
      subst (λ c. Stands Code Value c (set_value Code Value i h s))
        (some-injective (update i (some (some h)) a) b f) (set_value-Stands Code Value i h a s v)
  apply-Stands (construct_copy i j) a b s f v = living-Stands i j (a j) a b s refl f v
  apply-Stands (assign i h) a b s f v = elim (Option-cases (a i)) [
    | inl e ↦ absurd (true≢false (sym (ap is_some (rw e at f))))
    | inr (x, e) ↦
        subst (λ c. Stands Code Value c (set_value Code Value i h s))
          (some-injective (update i (some (some h)) a) b (rw e at f))
          (set_value-Stands Code Value i h a s v)
  ]
  apply-Stands (assign_copy i j) a b s f v = elim (Option-cases (a i)) [
    | inl e ↦ absurd (true≢false (sym (ap is_some (rw e at f))))
    | inr (x, e) ↦ living-Stands i j (a j) a b s refl (rw e at f) v
  ]
  apply-Stands (destroy i) a b s f v = elim (Option-cases (a i)) [
    | inl e ↦ absurd (true≢false (sym (ap is_some (rw e at f))))
    | inr (x, e) ↦
        subst (λ c. Stands Code Value c (delete_holder Code Value (s.vars i) s))
          (some-injective (update i none a) b (rw e at f))
          (destroy-Stands Code Value i x (s.vars i) a s e refl v)
  ]

  abbrev Runs : List (Op Code Value) → Values Code Value → Type 0
  Runs ops a = (s : State Code Value) × (run Code Value ops ≡ some s) × Stands Code Value a s

  from_result :
      (op : Op Code Value) (ops : List (Op Code Value)) (a : Values Code Value)
      (r : Option (State Code Value))
      → apply_to Code Value op (run Code Value ops) ≡ r
      → LeadsTo Code Value a r
      → Runs (op ∷ ops) a
  unfolding run
  from_result op ops a none e v = absurd v
  from_result op ops a (some s) e v = (s, e, v)

  run-Stands :
      (ops : List (Op Code Value)) (a : Values Code Value)
      → spec_run Code Value ops ≡ some a
      → Runs ops a
  unfolding run spec_run apply_to
  run-Stands [] a e = (
    new_state Code Value,
    refl,
    subst (λ c. Stands Code Value c (new_state Code Value))
        (some-injective (no_values Code Value) a e) ((λ p. p), λ j. tt),
  )
  run-Stands (op ∷ ops) a e = elim (Option-cases (spec_run Code Value ops)) [
    | inl f ↦ absurd (true≢false (sym (ap is_some (rw f at e))))
    | inr (b, f) ↦
        let (s, ran, v) = run-Stands ops b f in
        from_result op ops a (apply Code Value op s) (ap (apply_to Code Value op) ran)
          (apply-Stands op b a s (rw f at e) v)
  ]

  module _ (same : Discrete Code) where
    abbrev pub holding : (d : Code) → Value d → Holder Code Value
    holding d x = record { code = d; held = x }

    carried : (c d : Code) (e : c ≡ d) (v : Value c) → holding c v ≡ holding d (subst Value e v)
    carried c d e v =
        path_j (λ b q. holding c v ≡ holding b (subst Value q v))
          (ap (holding c) (sym (subst_refl Value v))) e

    -- A value is taken out at its own type, and at no other.
    value_iff :
        (h : Holder Code Value) (d : Code) (x : Value d)
        → (value_if Code Value same h d (same h.code d) ≡ some x) ↔ (h ≡ holding d x)
    value_iff h d x = (
      to_holding (same h.code d),
      λ e.
          subst (λ k. value_if Code Value same k d (same k.code d) ≡ some x) (sym e)
            (at_own (same d d)),
    )
      where
        to_holding :
            (r : Dec (h.code ≡ d)) → value_if Code Value same h d r ≡ some x → h ≡ holding d x
        to_holding (yes e) f =
            carried h.code d e h.held ∙ ap (holding d) (some-injective (subst Value e h.held) x f)
        to_holding (no n) f = absurd (true≢false (sym (ap is_some f)))

        at_own : (r : Dec (d ≡ d)) → value_if Code Value same (holding d x) d r ≡ some x
        at_own (yes e) =
            ap some (ap (λ q. subst Value q x) (hedberg same d d e refl) ∙ subst_refl Value x)
        at_own (no n) = absurd (n refl)

    -- What a cast of a variable may give.
    abbrev pub Gives : Option (Holder Code Value) → (d : Code) → Value d → Type 0
    Gives none d x = ⊥
    Gives (some h) d x = h ≡ holding d x

    cast_iff :
        (owner : ℕ → ℕ) (m : Heap Code Value) (i : ℕ) (v : Option (Holder Code Value))
        (w : Option ℕ) (d : Code) (x : Value d)
        → Reads Code Value owner m i (some v) w
        → (any_cast Code Value same d w m ≡ some x) ↔ Gives v d x
    unfolding any_cast
    cast_iff owner m i none w d x r = (
      λ e. true≢false (ap is_some (sym e ∙ ap (λ u. any_cast Code Value same d u m) r)),
      λ z. absurd z,
    )
    cast_iff owner m i (some h) w d x (p, at, holds, own, young) =
        rw (at, any_cast, holds) (value_iff h d x)

    -- After any operations on variables of any type, each of which uses only variables that live, all
    -- have been carried out, and a cast of a variable that lives gives a value exactly when that
    -- value, at that type, is the one last put into the variable, by itself or by a copy.
    pub any_cast_iff :
        (ops : List (Op Code Value)) (a : Values Code Value) (i : ℕ)
        (v : Option (Holder Code Value)) (d : Code) (x : Value d)
        → spec_run Code Value ops ≡ some a
        → a i ≡ some v
        → (s : State Code Value) × (run Code Value ops ≡ some s)
          × ((any_cast Code Value same d (s.vars i) s.heap ≡ some x) ↔ Gives v d x)
    any_cast_iff ops a i v d x e f =
        let (s, ran, stands) = run-Stands ops a e in
        let (owner, reads) = stands in
        (
          s,
          ran,
          cast_iff owner s.heap i v (s.vars i) d x
              (subst (λ u. Reads Code Value owner s.heap i u (s.vars i)) f (reads i)),
        )
