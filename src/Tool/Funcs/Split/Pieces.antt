-- ===== src/Tool/Funcs/Split/Pieces.antt =====
-- splitString against a split that goes through the text once, byte by byte.
use trantor_net.Base.{
  ==_iff, ℕ, zero, suc, ◌+◌, ◌-◌, ◌<◌, ◌≡◌, ◌⊎◌, inl, inr, refl, sym, ◌∙◌, ap, ap₂, subst, true,
  Option, none, some, List, [], ◌∷◌, ◌++◌, ◌==◌, ltb, ◌&&◌, arith, length, take, drop, drop_of_le,
  drop-drop, length-drop, length-take, append_assoc, append-nil, if◌then◌else◌, Bool-cases,
}
use mathlib.Core.Bool.{true≢false}
use mathlib.Core.Option.{some-injective}
use trantor_net.Net.Loop.Sync.{is_some}
use trantor_net.Tool.Funcs.Split.{
  is_prefix, first_in, find_separator, skip, split_from, split_string,
}
use trantor_net.Tool.Funcs.Split.Found.{
  first_in-here, first_in-later, shift-some, shift-none, drop_after, zero_more, one_more,
  drop_later, skip-stop, skip-on, find-none, find-some,
}
use trantor_net.Tool.Funcs.Split.Turns.{IsReady, skip_lem, start-IsReady, next-IsReady}

-- The parts of a text between the separators. `left` bytes still belong to a separator, and `part`
-- is the part that is being read.
pub pieces : List ℕ → ℕ → List ℕ → List ℕ → List (List ℕ)
pieces separator left part [] = part ∷ []
pieces separator (suc left) part (c ∷ str) = pieces separator left part str
pieces separator zero part (c ∷ str) =
    let after = pieces separator (length separator - 1) [] str in
    let longer = pieces separator zero (part ++ (c ∷ [])) str in
    if is_prefix separator (c ∷ str) then part ∷ after else longer

-- Those that are not empty.
pub full_ones : List (List ℕ) → List (List ℕ)
full_ones [] = []
full_ones ([] ∷ items) = full_ones items
full_ones ((c ∷ item) ∷ items) = (c ∷ item) ∷ full_ones items

full_one :
    (item : List ℕ) (items : List (List ℕ))
    → 0 < length item
    → full_ones (item ∷ items) ≡ item ∷ full_ones items
unfolding full_ones
full_one [] items h = absurd (omega arith)
full_one (c ∷ item) items h = refl

-- The separator is `a ∷ s`.
module _ (a : ℕ) (s : List ℕ) where
  pieces-drop :
      (left : ℕ) (part str : List ℕ)
      → pieces (a ∷ s) left part str ≡ pieces (a ∷ s) zero part (drop left str)
  unfolding pieces
  pieces-drop zero part str = refl
  pieces-drop (suc left) part [] = refl
  pieces-drop (suc left) part (c ∷ str) = pieces-drop left part str

  -- Up to the first separator there is one part.
  pieces-first :
      (i : ℕ) (part str : List ℕ)
      → first_in (a ∷ s) str ≡ some i
      → pieces (a ∷ s) zero part str
        ≡ (part ++ take i str) ∷ pieces (a ∷ s) zero [] (drop (i + suc (length s)) str)
  unfolding pieces first_in is_prefix
  pieces-first i part [] e = absurd (true≢false (sym (ap is_some e)))
  pieces-first i part (c ∷ str) e = elim (Bool-cases (is_prefix (a ∷ s) (c ∷ str))) [
    | inl h ↦
        let at_once : 0 ≡ i = some-injective 0 i (sym (first_in-here (a ∷ s) c str h) ∙ e) in
        subst
          (λ n.
            pieces (a ∷ s) zero part (c ∷ str)
            ≡ (part ++ take n (c ∷ str))
              ∷ pieces (a ∷ s) zero [] (drop (n + suc (length s)) (c ∷ str)))
          at_once
          (rw h (
            ap₂ (λ (xs : List ℕ) (ys : List (List ℕ)). xs ∷ ys) (sym (append-nil part))
              (pieces-drop (suc (length s) - 1) [] str
                ∙ ap (pieces (a ∷ s) zero []) (drop_after c (length s) str))))
    | inr h ↦
        let (k, later, place) =
          shift-some 1 i (first_in (a ∷ s) str) (sym (first_in-later (a ∷ s) c str h) ∙ e) in
        rw h (
          pieces-first k (part ++ (c ∷ [])) str later
          ∙ ap₂ (λ (xs : List ℕ) (ys : List (List ℕ)). xs ∷ ys)
              (append_assoc part (c ∷ []) (take k str)
                ∙ ap (λ n. part ++ take n (c ∷ str)) (one_more k i place))
              (ap (pieces (a ∷ s) zero []) (drop_later c k i (length s) str place)))
  ]

  pieces-none :
      (part str : List ℕ)
      → first_in (a ∷ s) str ≡ none
      → pieces (a ∷ s) zero part str ≡ (part ++ str) ∷ []
  unfolding pieces first_in
  pieces-none part [] e = ap (λ (xs : List ℕ). xs ∷ []) (sym (append-nil part))
  pieces-none part (c ∷ str) e = elim (Bool-cases (is_prefix (a ∷ s) (c ∷ str))) [
    | inl h ↦ absurd (true≢false (ap is_some (sym (first_in-here (a ∷ s) c str h) ∙ e)))
    | inr h ↦ rw h (
        pieces-none (part ++ (c ∷ [])) str
          (shift-none 1 (first_in (a ∷ s) str) (sym (first_in-later (a ∷ s) c str h) ∙ e))
        ∙ ap (λ (xs : List ℕ). xs ∷ []) (append_assoc part (c ∷ []) str))
  ]

  -- The parts from a position on.
  kept_from : ℕ → List ℕ → List (List ℕ)
  kept_from pos str = full_ones (pieces (a ∷ s) zero [] (drop pos str))

  pieces-prefix :
      (str : List ℕ)
      → is_prefix (a ∷ s) str ≡ true
      → full_ones (pieces (a ∷ s) zero [] str)
        ≡ full_ones (pieces (a ∷ s) zero [] (drop (suc (length s)) str))
  unfolding full_ones is_prefix
  pieces-prefix [] h = absurd (true≢false (sym h))
  pieces-prefix (c ∷ str) h =
      ap full_ones (pieces-first 0 [] (c ∷ str) (first_in-here (a ∷ s) c str h))
      ∙ ap (λ n. full_ones (pieces (a ∷ s) zero [] (drop n (c ∷ str)))) (zero_more (length s))

  -- What the inner loop skips are empty parts.
  skip-kept_from :
      (fuel pos p : ℕ) (str : List ℕ)
      → skip fuel (a ∷ s) str pos ≡ some p
      → kept_from pos str ≡ kept_from p str
  unfolding kept_from skip
  skip-kept_from zero pos p str e = absurd (true≢false (sym (ap is_some e)))
  skip-kept_from (suc fuel) pos p str e =
      elim (Bool-cases (ltb pos (length str) && is_prefix (a ∷ s) (drop pos str))) [
        | inr h ↦
            ap (λ n. kept_from n str)
              (some-injective pos p (sym (skip-stop fuel (a ∷ s) str pos h) ∙ e))
        | inl h ↦
            pieces-prefix (drop pos str) (ground (arith, h))
            ∙ ap (λ (xs : List ℕ). full_ones (pieces (a ∷ s) zero [] xs))
                (sym (drop-drop pos (suc (length s)) str))
            ∙ skip-kept_from fuel (pos + suc (length s)) p str
                (sym (skip-on fuel (a ∷ s) str pos h) ∙ e)
      ]

  -- The last part.
  last_part :
      (pos : ℕ) (str : List ℕ) (ret : List (List ℕ))
      → find_separator (a ∷ s) str pos ≡ none
      → (if ltb pos (length str) then ret ++ (drop pos str ∷ []) else ret)
        ≡ ret ++ kept_from pos str
  unfolding kept_from full_ones pieces
  last_part pos str ret e = elim (Bool-cases (ltb pos (length str))) [
    | inr h ↦ rw (h, drop_of_le pos str (ground (arith, h))) (sym (append-nil ret))
    | inl h ↦
        rw (h, pieces-none [] (drop pos str) (find-none (a ∷ s) str pos (ground (arith, h)) e))
          (ap (λ (xs : List (List ℕ)). ret ++ xs)
            (sym (full_one (drop pos str) [] (ground (arith, h, length-drop pos str)))))
  ]

  -- One turn of the outer loop takes the part before the separator.
  one_part :
      (pos1 pos2 p : ℕ) (str : List ℕ) (ret : List (List ℕ)) (fuel : ℕ)
      → find_separator (a ∷ s) str pos2 ≡ some pos1
      → (pos1 ≡ 0) ⊎ (pos2 < pos1)
      → pos1 < length str
      → skip fuel (a ∷ s) str (pos1 + suc (length s)) ≡ some p
      → (if pos1 == 0 then ret else ret ++ (take (pos1 - pos2) (drop pos2 str) ∷ []))
          ++ kept_from p str
        ≡ ret ++ kept_from pos2 str
  unfolding kept_from full_ones
  one_part pos1 pos2 p str ret fuel e gap inside ends =
      let (i, first, place) = find-some (a ∷ s) str pos2 pos1 e in
      let item = take i (drop pos2 str) in
      let far : pos2 + (i + suc (length s)) ≡ pos1 + suc (length s) = omega (arith, place) in
      let rest : drop (i + suc (length s)) (drop pos2 str) ≡ drop (pos1 + suc (length s)) str =
        sym (drop-drop pos2 (i + suc (length s)) str) ∙ ap (λ n. drop n str) far in
      let tail : full_ones (pieces (a ∷ s) zero [] (drop (i + suc (length s)) (drop pos2 str)))
          ≡ kept_from p str =
        ap (λ (xs : List ℕ). full_ones (pieces (a ∷ s) zero [] xs)) rest
        ∙ skip-kept_from fuel (pos1 + suc (length s)) p str ends in
      let whole = ap full_ones (pieces-first i [] (drop pos2 str) first) in
      elim (Bool-cases (pos1 == 0)) [
        | inl h ↦
            let none_before : i ≡ 0 = omega (arith, place, (==_iff pos1 0).0 h) in
            let empty : item ≡ [] = ap (λ n. take n (drop pos2 str)) none_before in
            rw h (
              ap (λ (xs : List (List ℕ)). ret ++ xs)
                (sym (
                  whole
                  ∙ ap
                      (λ (xs : List ℕ).
                        full_ones
                          (xs ∷ pieces (a ∷ s) zero [] (drop (i + suc (length s)) (drop pos2 str))))
                      empty
                  ∙ tail)))
        | inr h ↦
            let some_before : 0 < i = ground (arith, h, gap, place) in
            let taken : take (pos1 - pos2) (drop pos2 str) ≡ item =
              ap (λ n. take n (drop pos2 str)) (omega (arith, place)) in
            let long : 0 < length item =
              omega
                (arith, some_before, length-take i (drop pos2 str), length-drop pos2 str, place) in
            rw (h, taken)
              (append_assoc ret (item ∷ []) (kept_from p str)
                ∙ ap (λ (xs : List (List ℕ)). ret ++ xs)
                    (sym
                      (whole ∙ full_one item _ long ∙ ap (λ (xs : List (List ℕ)). item ∷ xs) tail)))
      ]

  split_from-kept :
      (str : List ℕ) (fuel : ℕ) (o : Option ℕ) (pos2 : ℕ) (ret : List (List ℕ))
      → find_separator (a ∷ s) str pos2 ≡ o
      → IsReady a s str fuel pos2 o
      → split_from fuel (a ∷ s) str o pos2 ret ≡ some (ret ++ kept_from pos2 str)
  unfolding split_from IsReady
  split_from-kept str fuel none pos2 ret e ready = ap some (last_part pos2 str ret e)
  split_from-kept str zero (some pos1) pos2 ret e (inside, enough, gap) = absurd (omega arith)
  split_from-kept str (suc fuel) (some pos1) pos2 ret e (inside, enough, gap) =
      let (p, ends, later, there) = skip_lem a s str fuel (pos1 + suc (length s)) (omega arith) in
      rw (ends, split_from)
        (split_from-kept str fuel _ p _ refl (next-IsReady a s str fuel p (omega arith) there)
          ∙ ap some (one_part pos1 pos2 p str ret (suc fuel) e gap inside ends))

  -- With a separator that is not empty the function returns the parts of the text between the
  -- separators that a split byte by byte finds, without the empty ones.
  pub split_string-eq-pieces :
      (str : List ℕ)
      → split_string (length str) str (a ∷ s) ≡ some (full_ones (pieces (a ∷ s) zero [] str))
  unfolding split_string kept_from
  split_string-eq-pieces str = split_from-kept str (length str) _ 0 [] refl (start-IsReady a s str)
