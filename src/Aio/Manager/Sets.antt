-- ===== src/Aio/Manager/Sets.antt =====
-- The sets of operators in the two maps.
use trantor_net.Base.{
  ==_iff, ℕ, ◌==◌, ◌&&◌, ◌≡◌, ◌≢◌, ◌↔◌, refl, sym, ◌∙◌, ap, subst, Bool, true, false, Option, none,
  some, List, [], ◌∷◌, if◌then◌else◌, contains, without, Bool-cases, Option-cases, length, inl, inr,
  arith,
}
use mathlib.Core.Bool.{true≢false}
use trantor_net.Net.Loop.{find, put, erase}
use trantor_net.Net.Loop.Sync.{find-put, find-erase}
use trantor_net.Aio.Manager.{FdMap, set_of, members, join, leave_behind, leave, is_some_list}

abbrev pub has : ℕ → ℕ → FdMap → Bool
has path fdop m = contains fdop (members path m)

contains-without :
    (i j : ℕ) (xs : List ℕ) → contains j (without i xs) ≡ (if i == j then false else contains j xs)
unfolding contains without
contains-without i j [] = ground arith
contains-without i j (x ∷ xs) = ground (arith, contains-without i j xs)

contains_insert :
    (i j : ℕ) (xs : List ℕ)
    → contains j (if contains i xs then xs else i ∷ xs) ≡ (if i == j then true else contains j xs)
unfolding contains
contains_insert i j xs = elim (Bool-cases (contains i xs)) [
  | inl e ↦ elim (Bool-cases (i == j)) [
    | inl q ↦ rw (e, q) (subst (λ (k : ℕ). contains k xs ≡ true) ((==_iff i j).0 q) e)
    | inr q ↦ rw (e, q) refl
  ]
  | inr e ↦ rw e (ground arith)
]

members-put :
    (p q : ℕ) (xs : List ℕ) (m : FdMap)
    → members q (put p xs m) ≡ (if p == q then xs else members q m)
unfolding members
members-put p q xs m =
    ap set_of (find-put p q xs m)
    ∙ (elim (Bool-cases (p == q)) [ inl e ↦ rw e refl | inr e ↦ rw e refl ])

members-erase : (p q : ℕ) (m : FdMap) → members q (erase p m) ≡ (if p == q then [] else members q m)
unfolding members
members-erase p q m =
    ap set_of (find-erase p q m)
    ∙ (elim (Bool-cases (p == q)) [ inl e ↦ rw e refl | inr e ↦ rw e refl ])

members-leave_behind :
    (p q : ℕ) (rest : List ℕ) (m : FdMap)
    → members q (leave_behind p rest m) ≡ (if p == q then rest else members q m)
unfolding leave_behind
members-leave_behind p q [] m = members-erase p q m
members-leave_behind p q (x ∷ rest) m = members-put p q (x ∷ rest) m

pub has-join :
    (p i q j : ℕ) (m : FdMap)
    → has q j (join p i m) ≡ (if (p == q) && (i == j) then true else has q j m)
unfolding join
has-join p i q j m = elim (Bool-cases (p == q)) [
  | inl e ↦
      rw (members-put p q _ m, e)
        (contains_insert i j (members p m)
          ∙ ap (λ k. if i == j then true else has k j m) ((==_iff p q).0 e))
  | inr e ↦ rw (members-put p q _ m, e) refl
]

members-none : (p : ℕ) (m : FdMap) → find p m ≡ none → members p m ≡ []
unfolding members
members-none p m e = ap set_of e

members-some : (p : ℕ) (xs : List ℕ) (m : FdMap) → find p m ≡ some xs → members p m ≡ xs
unfolding members
members-some p xs m e = ap set_of e

pub nobody : (q j : ℕ) (m : FdMap) → find q m ≡ none → has q j m ≡ false
unfolding contains
nobody q j m e = rw (members-none q m e) refl

pub has-leave :
    (p i q j : ℕ) (m : FdMap)
    → has q j (leave p i m) ≡ (if (p == q) && (i == j) then false else has q j m)
unfolding leave
has-leave p i q j m = elim (Option-cases (find p m)) [
  | inl e ↦
      rw (e, leave)
        (elim (Bool-cases (p == q)) [
          | inl z ↦
              rw z
                (ground (arith, nobody q j m (subst (λ k. find k m ≡ none) ((==_iff p q).0 z) e)))
          | inr z ↦ rw z refl
        ])
  | inr (xs, e) ↦
      rw (e, leave)
        (elim (Bool-cases (p == q)) [
          | inl z ↦
              rw (members-leave_behind p q (without i xs) m, z)
                (contains-without i j xs
                  ∙ ap (λ (ys : List ℕ). if i == j then false else contains j ys)
                      (sym (members-some p xs m e))
                  ∙ ap (λ k. if i == j then false else has k j m) ((==_iff p q).0 z))
          | inr z ↦ rw (members-leave_behind p q (without i xs) m, z) refl
        ])
]

-- No set in the map is empty.
unfoldable pub IsInhabited : FdMap → Type 0
IsInhabited m = (p : ℕ) → find p m ≢ some []

cons≢nil : (x : ℕ) (xs : List ℕ) → ◌≢◌ {A = Option (List ℕ)} (some (x ∷ xs)) (some [])
cons≢nil x xs e = absurd (omega (arith, ap (λ (o : Option (List ℕ)). length (set_of o)) e))

put-IsInhabited :
    (p x : ℕ) (xs : List ℕ) (m : FdMap) → IsInhabited m → IsInhabited (put p (x ∷ xs) m)
unfolding IsInhabited
put-IsInhabited p x xs m h q e = elim (Bool-cases (p == q)) [
  | inl z ↦ cons≢nil x xs (sym (find-put p q (x ∷ xs) m ∙ rw z refl) ∙ e)
  | inr z ↦ h q (sym (find-put p q (x ∷ xs) m ∙ rw z refl) ∙ e)
]

erase-IsInhabited : (p : ℕ) (m : FdMap) → IsInhabited m → IsInhabited (erase p m)
unfolding IsInhabited
erase-IsInhabited p m h q e = elim (Bool-cases (p == q)) [
  | inl z ↦
      let gone : find q (erase p m) ≡ none = find-erase p q m ∙ rw z refl in
      true≢false (ap is_some_list (sym e ∙ gone))
  | inr z ↦ h q (sym (find-erase p q m ∙ rw z refl) ∙ e)
]

inserted :
    (i : ℕ) (xs : List ℕ)
    → (x : ℕ) × (rest : List ℕ) × ((if contains i xs then xs else i ∷ xs) ≡ x ∷ rest)
unfolding contains
inserted i [] = (i, [], refl)
inserted i (x ∷ xs) = elim (Bool-cases (contains i (x ∷ xs))) [
  | inl e ↦ (x, xs, rw e refl)
  | inr e ↦ (i, x ∷ xs, rw e refl)
]

pub join-IsInhabited : (p i : ℕ) (m : FdMap) → IsInhabited m → IsInhabited (join p i m)
unfolding join
join-IsInhabited p i m h =
    let (x, rest, e) = inserted i (members p m) in rw e (put-IsInhabited p x rest m h)

leave_behind-IsInhabited :
    (p : ℕ) (rest : List ℕ) (m : FdMap) → IsInhabited m → IsInhabited (leave_behind p rest m)
unfolding leave_behind
leave_behind-IsInhabited p [] m h = erase-IsInhabited p m h
leave_behind-IsInhabited p (x ∷ rest) m h = put-IsInhabited p x rest m h

pub leave-IsInhabited : (p i : ℕ) (m : FdMap) → IsInhabited m → IsInhabited (leave p i m)
unfolding leave
leave-IsInhabited p i m h = elim (Option-cases (find p m)) [
  | inl e ↦ rw (e, leave) h
  | inr (xs, e) ↦ rw (e, leave) (leave_behind-IsInhabited p (without i xs) m h)
]

contains_self : (x : ℕ) (xs : List ℕ) → contains x (x ∷ xs) ≡ true
unfolding contains
contains_self x xs = ground arith

-- A path is in the map exactly when some operator has it.
pub waits_iff :
    (q : ℕ) (m : FdMap)
    → IsInhabited m
    → (is_some_list (find q m) ≡ true) ↔ ((j : ℕ) × (has q j m ≡ true))
unfolding IsInhabited
waits_iff q m h = (λ e. someone (find q m) refl e, λ (j, e). back j e)
  where
    back : (j : ℕ) → has q j m ≡ true → is_some_list (find q m) ≡ true
    back j e = elim (Option-cases (find q m)) [
      | inl f ↦ absurd (true≢false (sym e ∙ nobody q j m f))
      | inr (xs, f) ↦ ap is_some_list f
    ]

    someone :
        (o : Option (List ℕ)) → find q m ≡ o → is_some_list o ≡ true → (j : ℕ) × (has q j m ≡ true)
    someone none f e = absurd (true≢false (sym e))
    someone (some []) f e = absurd (h q f)
    someone (some (x ∷ xs)) f e =
        (x, ap (contains x) (members-some q (x ∷ xs) m f) ∙ contains_self x xs)
