-- ===== src/Tool/Funcs/Split.antt =====
-- splitString of src/tool/src/Funcs.cc. `fuel` bounds the turns of each of its two loops; `none` is a
-- run that has not ended.
pub mod Turns
pub mod Found
pub mod Pieces
use trantor_net.Base.{
  ℕ, zero, suc, ◌+◌, ◌-◌, ◌==◌, ltb, leb, Bool, true, false, ◌&&◌, Option, none, some, List, [],
  ◌∷◌, ◌++◌, length, take, drop, if◌then◌else◌,
}

unfoldable pub is_prefix : List ℕ → List ℕ → Bool
is_prefix [] str = true
is_prefix (s ∷ separator) [] = false
is_prefix (s ∷ separator) (c ∷ str) = s == c && is_prefix separator str

abbrev pub shift : ℕ → Option ℕ → Option ℕ
shift k none = none
shift k (some i) = some (i + k)

-- The first occurrence.
unfoldable pub first_in : List ℕ → List ℕ → Option ℕ
unfolding is_prefix
first_in separator [] = if is_prefix separator [] then some 0 else none
first_in separator (c ∷ str) =
    let later = first_in separator str in
    if is_prefix separator (c ∷ str) then some 0 else shift 1 later

-- `str.find(separator, pos)`.
unfoldable pub find_separator : List ℕ → List ℕ → ℕ → Option ℕ
unfolding first_in
find_separator separator str pos =
    if leb pos (length str) then shift pos (first_in separator (drop pos str)) else none

-- The inner loop: `substr` at the position, as long as the separator, is the separator.
unfoldable pub skip : ℕ → List ℕ → List ℕ → ℕ → Option ℕ
unfolding is_prefix
skip zero separator str pos2 = none
skip (suc fuel) separator str pos2 =
    let rest = skip fuel separator str (pos2 + length separator) in
    if ltb pos2 (length str) && is_prefix separator (drop pos2 str) then rest else some pos2

-- The outer loop, with `pos1`, `pos2` and `ret`.
unfoldable pub split_from :
    ℕ → List ℕ → List ℕ → Option ℕ → ℕ → List (List ℕ) → Option (List (List ℕ))
unfolding skip find_separator
split_from fuel separator str none pos2 ret =
    some (if ltb pos2 (length str) then ret ++ (drop pos2 str ∷ []) else ret)
split_from zero separator str (some pos1) pos2 ret = none
split_from (suc fuel) separator str (some pos1) pos2 ret =
    let found = if pos1 == 0 then ret else ret ++ (take (pos1 - pos2) (drop pos2 str) ∷ []) in
    elim (skip (suc fuel) separator str (pos1 + length separator)) [
      | none ↦ none
      | some next ↦ split_from fuel separator str (find_separator separator str next) next found
    ]

unfoldable pub split_string : ℕ → List ℕ → List ℕ → Option (List (List ℕ))
unfolding split_from
split_string fuel str separator =
    split_from fuel separator str (find_separator separator str 0) 0 []
