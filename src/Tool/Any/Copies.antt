-- ===== src/Tool/Any/Copies.antt =====
-- Variables of any type as values: what their pointers and holders stand for.
use trantor_net.Base.{
  ==_iff, ℕ, ◌<◌, ◌≡◌, ◌≢◌, refl, sym, ◌∙◌, ap, subst, Option, none, some, List, [], ◌∷◌, ◌==◌,
  Bool-cases, inl, inr, arith,
}
use mathlib.Core.Bool.{true≢false}
use mathlib.Core.Option.{some-injective}
use trantor_net.Net.Loop.Sync.{is_some}
use trantor_net.Tcp.Server.{update}
use trantor_net.Tcp.Server.Invariant.{update_self, update_off}
use trantor_net.Tool.Any.{
  Holder, Heap, State, new_holder, set_value, copy_holder, copy_any, delete_holder, Op, declare,
  construct, construct_copy, assign, assign_copy, destroy,
}

update_both :
    {A B : Type 0} (P : ℕ → A → B → Type 0) (i : ℕ) (x : A) (y : B) (f : ℕ → A) (g : ℕ → B)
    → P i x y
    → ((j : ℕ) → i ≢ j → P j (f j) (g j))
    → (j : ℕ) → P j (update i x f j) (update i y g j)
unfolding update
update_both P i x y f g here there j = elim (Bool-cases (i == j)) [
  | inl e ↦ rw e (subst (λ (k : ℕ). P k x y) ((==_iff i j).0 e) here)
  | inr e ↦ rw e (there j (λ z. absurd (true≢false (sym ((==_iff i j).1 z) ∙ e))))
]

update_one :
    {A B : Type 0} (P : ℕ → A → B → Type 0) (i : ℕ) (x : A) (f : ℕ → A) (g : ℕ → B)
    → P i x (g i)
    → ((j : ℕ) → i ≢ j → P j (f j) (g j))
    → (j : ℕ) → P j (update i x f j) (g j)
unfolding update
update_one P i x f g here there j = elim (Bool-cases (i == j)) [
  | inl e ↦ rw e (subst (λ (k : ℕ). P k x (g k)) ((==_iff i j).0 e) here)
  | inr e ↦ rw e (there j (λ z. absurd (true≢false (sym ((==_iff i j).1 z) ∙ e))))
]

module _ (Code : Type 0) (Value : Code → Type 0) where
  -- The variables as values: which live, and what each holds.
  abbrev pub Values : Type 0
  Values = ℕ → Option (Option (Holder Code Value))

  abbrev pub no_values : Values
  no_values i = none

  abbrev pub living : ℕ → Option (Option (Holder Code Value)) → Values → Option Values
  living i none a = none
  living i (some v) a = some (update i (some v) a)

  abbrev pub if_living : {A : Type 0} → Option A → Values → Option Values
  if_living none a = none
  if_living (some v) a = some a

  abbrev pub after : Option Values → (Values → Option Values) → Option Values
  after none f = none
  after (some a) f = f a

  -- A variable that does not live is not used.
  unfoldable pub spec_apply : Op Code Value → Values → Option Values
  spec_apply (declare i) a = some (update i (some none) a)
  spec_apply (construct i h) a = some (update i (some (some h)) a)
  spec_apply (construct_copy i j) a = living i (a j) a
  spec_apply (assign i h) a = if_living (a i) (update i (some (some h)) a)
  spec_apply (assign_copy i j) a = after (if_living (a i) a) (living i (a j))
  spec_apply (destroy i) a = if_living (a i) (update i none a)

  unfoldable pub spec_run : List (Op Code Value) → Option Values
  unfolding spec_apply
  spec_run [] = some no_values
  spec_run (op ∷ ops) = after (spec_run ops) (spec_apply op)

  -- `owner` says which variable an address belongs to.
  abbrev pub Reads :
      (ℕ → ℕ) → Heap Code Value → ℕ → Option (Option (Holder Code Value)) → Option ℕ → Type 0
  Reads owner m j none v = Unit
  Reads owner m j (some none) v = v ≡ none
  Reads owner m j (some (some h)) v =
      (p : ℕ) × (v ≡ some p) × (m.holders p ≡ some h) × (owner p ≡ j) × (p < m.next)

  abbrev pub Stands : Values → State Code Value → Type 0
  Stands a s = (owner : ℕ → ℕ) × ((j : ℕ) → Reads owner s.heap j (a j) (s.vars j))

  Reads-new :
      (owner : ℕ → ℕ) (m : Heap Code Value) (i j : ℕ) (h : Holder Code Value)
      (v : Option (Option (Holder Code Value))) (w : Option ℕ)
      → Reads owner m j v w
      → Reads (update m.next i owner) (new_holder Code Value h m) j v w
  unfolding new_holder
  Reads-new owner m i j h none w r = r
  Reads-new owner m i j h (some none) w r = r
  Reads-new owner m i j h (some (some k)) w (p, e, f, o, young) =
      let apart : m.next ≢ p = λ z. omega (arith, z, young) in
      (
        p,
        e,
        update_off m.next p (some h) m.holders apart ∙ f,
        update_off m.next p i owner apart ∙ o,
        omega (arith, young),
      )

  pub set_value-Stands :
      (i : ℕ) (h : Holder Code Value) (a : Values) (s : State Code Value)
      → Stands a s
      → Stands (update i (some (some h)) a) (set_value Code Value i h s)
  unfolding set_value new_holder
  set_value-Stands i h a s (owner, reads) =
      let m = s.heap in
      let owner' = update m.next i owner in
      (
        owner',
        update_both (λ j v w. Reads owner' (new_holder Code Value h m) j v w) i (some (some h))
            (some m.next) a s.vars
            (
              m.next,
              refl,
              update_self m.next (some h) m.holders,
              update_self m.next i owner,
              omega arith,
            )
            (λ j _. Reads-new owner m i j h (a j) (s.vars j) (reads j)),
      )

  pub set_none-Stands :
      (i : ℕ) (a : Values) (s : State Code Value)
      → Stands a s
      → Stands (update i (some none) a) (record s { vars = update i none s.vars })
  set_none-Stands i a s (owner, reads) = (
    owner,
    update_both (λ j v w. Reads owner s.heap j v w) i (some none) none a s.vars refl
        (λ j _. reads j),
  )

  Reads-gone :
      (owner : ℕ → ℕ) (m : Heap Code Value) (p j : ℕ) (v : Option (Option (Holder Code Value)))
      (w : Option ℕ)
      → owner p ≢ j
      → Reads owner m j v w
      → Reads owner (record m { holders = update p none m.holders }) j v w
  Reads-gone owner m p j none w n r = r
  Reads-gone owner m p j (some none) w n r = r
  Reads-gone owner m p j (some (some k)) w n (q, e, f, o, young) =
      (q, e, update_off p q none m.holders (λ z. n (ap owner z ∙ o)) ∙ f, o, young)

  -- A result that stands for a value.
  abbrev pub LeadsTo : Values → Option (State Code Value) → Type 0
  LeadsTo a none = ⊥
  LeadsTo a (some s) = Stands a s

  pub destroy-Stands :
      (i : ℕ) (v : Option (Holder Code Value)) (w : Option ℕ) (a : Values) (s : State Code Value)
      → a i ≡ some v
      → s.vars i ≡ w
      → Stands a s
      → Stands (update i none a) (delete_holder Code Value w s)
  unfolding delete_holder
  destroy-Stands i v none a s e f (owner, reads) =
      (owner, update_one (λ j v w. Reads owner s.heap j v w) i none a s.vars tt (λ j _. reads j))
  destroy-Stands i none (some p) a s e f (owner, reads) =
      let r : Reads owner s.heap i (some none) (s.vars i) =
        subst (λ v. Reads owner s.heap i v (s.vars i)) e (reads i) in
      absurd (true≢false (ap is_some (sym f ∙ r)))
  destroy-Stands i (some h) (some p) a s e f (owner, reads) =
      let (q, at, holds, own, young) : Reads owner s.heap i (some (some h)) (s.vars i) =
        subst (λ v. Reads owner s.heap i v (s.vars i)) e (reads i) in
      let same : p ≡ q = some-injective p q (sym f ∙ at) in
      (
        owner,
        update_one
            (λ j v w.
              Reads owner (record (s.heap) { holders = update p none s.heap.holders }) j v w)
            i none a s.vars tt
            (λ j n.
              Reads-gone owner s.heap p j (a j) (s.vars j)
                (λ z. n (sym own ∙ ap owner (sym same) ∙ z)) (reads j)),
      )

  pub copy-Stands :
      (i j : ℕ) (v : Option (Holder Code Value)) (a : Values) (s : State Code Value)
      → a j ≡ some v
      → Stands a s
      → LeadsTo (update i (some v) a) (copy_any Code Value i (s.vars j) s)
  unfolding copy_any copy_holder
  copy-Stands i j none a s e (owner, reads) =
      let r : Reads owner s.heap j (some none) (s.vars j) =
        subst (λ v. Reads owner s.heap j v (s.vars j)) e (reads j) in
      rw (r, copy_any) (set_none-Stands i a s (owner, reads))
  copy-Stands i j (some h) a s e (owner, reads) =
      let (q, at, holds, own, young) : Reads owner s.heap j (some (some h)) (s.vars j) =
        subst (λ v. Reads owner s.heap j v (s.vars j)) e (reads j) in
      rw (at, copy_any, holds, copy_holder) (set_value-Stands i h a s (owner, reads))
