-- ===== src/Tool/Any/Examples.antt =====
-- Variables that hold numbers and Booleans.
use mathlib.Core.Bool.{Bool-discrete}
use trantor_net.Base.{ℕ, ◌≡◌, ◌↔◌, refl, Bool, true, false, none, some, List, [], ◌∷◌}
use trantor_net.Tcp.Server.{update}
use trantor_net.Tool.Any.{
  Holder, State, Op, construct, construct_copy, assign, destroy, run, any_cast,
}
use trantor_net.Tool.Any.Copies.{Values, no_values, spec_apply, spec_run}
use trantor_net.Tool.Any.Casts.{Gives, any_cast_iff}

abbrev Kind : Bool → Type 0
Kind true = ℕ
Kind false = Bool

abbrev seven : Holder Bool Kind
seven = record { code = true; held = 7 }

abbrev no_flag : Holder Bool Kind
no_flag = record { code = false; held = false }

-- The variable 1 is a copy of 0, which is then given another type and destroyed.
abbrev copied : List (Op Bool Kind)
copied = destroy 0 ∷ assign 0 no_flag ∷ construct_copy 1 0 ∷ construct 0 seven ∷ []

abbrev values_left : Values Bool Kind
values_left = update 0 none (
    update 0 (some (some no_flag))
      (update 1 (some (some seven)) (update 0 (some (some seven)) (no_values Bool Kind))))

copied_lem : (spec_run Bool Kind copied ≡ some values_left) × (values_left 1 ≡ some (some seven))
unfolding spec_run spec_apply update
copied_lem = (refl, refl)

any_cast_iff_example :
    (s : State Bool Kind) × (run Bool Kind copied ≡ some s)
    × ((any_cast Bool Kind Bool-discrete true (s.vars 1) s.heap ≡ some 7)
        ↔ Gives Bool Kind Bool-discrete (some seven) true 7)
any_cast_iff_example =
    any_cast_iff Bool Kind Bool-discrete copied values_left 1 (some seven) true 7 copied_lem.0
      copied_lem.1
