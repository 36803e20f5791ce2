-- ===== src/Net/LoopPool/RoundRobin.antt =====
-- The loops come in turn.
use native.Mathlib.Nat.{mod-add-mod}
use trantor_net.Base.{
  ℕ, zero, suc, ◌+◌, ◌%◌, ◌≡◌, refl, sym, ◌∙◌, ap, ap₂, none, some, List, [], ◌∷◌, length, get_or,
}
use trantor_net.Net.LoopPool.{LoopPool, get_next_loop}

-- The loops that so many calls return.
pub calls : ℕ → LoopPool → List ℕ
calls zero p = []
calls (suc k) p = elim (get_next_loop p) [ none ↦ [] | some (loop, q) ↦ loop ∷ calls k q ]

-- The loops at so many indices behind an index, around the end.
pub around : List ℕ → ℕ → ℕ → List ℕ
around loops zero i = []
around loops (suc k) i = get_or loops ((i + 1) % length loops) 0 ∷ around loops k (i + 1)

-- An index and its remainder have the same successors.
around_mod : (loops : List ℕ) (k i : ℕ) → around loops k (i % length loops) ≡ around loops k i
unfolding around
around_mod loops zero i = refl
around_mod loops (suc k) i =
    let n = length loops in
    let rest : around loops k (i % n + 1) ≡ around loops k (i + 1) =
      sym (around_mod loops k (i % n + 1))
      ∙ ap (around loops k) (mod-add-mod i n 1)
      ∙ around_mod loops k (i + 1) in
    ap₂ (λ j (r : List ℕ). get_or loops j 0 ∷ r) (mod-add-mod i n 1) rest

-- Calls on a pool that is not empty return its loops in turn, from the one behind the current index
-- on, and begin anew behind the last.
pub calls-eq-around :
    (x : ℕ) (xs : List ℕ) (k i : ℕ)
    → calls k (record { loop_pool = x ∷ xs; current_index = i }) ≡ around (x ∷ xs) k i
unfolding calls around get_next_loop
calls-eq-around x xs zero i = refl
calls-eq-around x xs (suc k) i =
    ap (◌∷◌ (get_or (x ∷ xs) ((i + 1) % length (x ∷ xs)) 0))
      (calls-eq-around x xs k ((i + 1) % length (x ∷ xs)) ∙ around_mod (x ∷ xs) k (i + 1))
