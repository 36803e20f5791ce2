-- ===== src/Base/Memory.antt =====
-- Memory as a list of cells: windows of it, and `memcpy` into it.
use Prim.Native.Nat.{ℕ, zero, suc, ◌+◌, ◌≤◌, ◌<◌}
use mathlib.Core.Path.{◌≡◌, refl, ap, sym, ◌∙◌}
use mathlib.Core.List.{List, [], ◌∷◌, ◌++◌}
use native.Mathlib.Omega.{arith}
use trantor_net.Base.Lists.{length, take, drop, get_elem?, replicate, length-take, length-drop}
use mathlib.Core.Option.{some}

module _ {ℓ} {A : Type ℓ} where
  -- The `n` cells from index `i` on.
  abbrev pub slice : ℕ → ℕ → List A → List A
  slice i n xs = take n (drop i xs)

  -- `memcpy` to index `i`; a cell outside the block is not written.
  unfoldable pub write_at : List A → ℕ → List A → List A
  write_at [] i ys = []
  write_at (x ∷ xs) zero [] = x ∷ xs
  write_at (x ∷ xs) zero (y ∷ ys) = y ∷ write_at xs zero ys
  write_at (x ∷ xs) (suc i) ys = x ∷ write_at xs i ys

  pub length-write_at : (xs : List A) (i : ℕ) (ys : List A) → length (write_at xs i ys) ≡ length xs
  unfolding write_at
  length-write_at [] i ys = refl
  length-write_at (x ∷ xs) zero [] = refl
  length-write_at (x ∷ xs) zero (y ∷ ys) = ap suc (length-write_at xs zero ys)
  length-write_at (x ∷ xs) (suc i) ys = ap suc (length-write_at xs i ys)

  pub take-write_at :
      (xs ys : List A) → length ys ≤ length xs → take (length ys) (write_at xs 0 ys) ≡ ys
  unfolding write_at
  take-write_at [] [] h = refl
  take-write_at [] (y ∷ ys) h = absurd (omega arith)
  take-write_at (x ∷ xs) [] h = refl
  take-write_at (x ∷ xs) (y ∷ ys) h = ap (◌∷◌ y) (take-write_at xs ys (omega arith))

  -- A write right behind a window extends the window.
  take-write_at_end :
      (xs : List A) (n : ℕ) (ys : List A)
      → n + length ys ≤ length xs
      → (m : ℕ) → m ≡ n + length ys
      → take m (write_at xs n ys) ≡ take n xs ++ ys
  unfolding write_at
  take-write_at_end [] zero [] h m e = rw e
  take-write_at_end [] zero (y ∷ ys) h m e = absurd (omega arith)
  take-write_at_end [] (suc n) ys h m e = absurd (omega arith)
  take-write_at_end (x ∷ xs) zero ys h m e =
      let k : m ≡ length ys = omega arith in rw k (take-write_at (x ∷ xs) ys (omega arith))
  take-write_at_end (x ∷ xs) (suc n) ys h zero e = absurd (omega arith)
  take-write_at_end (x ∷ xs) (suc n) ys h (suc m) e =
      ap (◌∷◌ x) (take-write_at_end xs n ys (omega arith) m (omega arith))

  pub slice-write_at :
      (xs : List A) (i n : ℕ) (ys : List A)
      → i + n + length ys ≤ length xs
      → (j m : ℕ) → j ≡ i + n
      → m ≡ n + length ys
      → slice i m (write_at xs j ys) ≡ slice i n xs ++ ys
  unfolding write_at
  slice-write_at xs zero n ys h j m e f =
      let k : j ≡ n = omega arith in rw k (take-write_at_end xs n ys (omega arith) m f)
  slice-write_at [] (suc i) n ys h j m e f = absurd (omega arith)
  slice-write_at (x ∷ xs) (suc i) n ys h zero m e f = absurd (omega arith)
  slice-write_at (x ∷ xs) (suc i) n ys h (suc j) m e f =
      slice-write_at xs i n ys (omega arith) j m (omega arith) f

  pub take-nil : (n : ℕ) → take {A = A} n [] ≡ []
  take-nil zero = refl
  take-nil (suc n) = refl

  pub drop-nil : (n : ℕ) → drop {A = A} n [] ≡ []
  drop-nil zero = refl
  drop-nil (suc n) = refl

  pub length-slice : (xs : List A) (i n : ℕ) → i + n ≤ length xs → length (slice i n xs) ≡ n
  length-slice xs i n h = omega (arith, length-take n (drop i xs), length-drop i xs)

  pub take-append_left : (n : ℕ) (xs ys : List A) → n ≤ length xs → take n (xs ++ ys) ≡ take n xs
  take-append_left zero xs ys h = refl
  take-append_left (suc n) [] ys h = absurd (omega arith)
  take-append_left (suc n) (x ∷ xs) ys h = ap (◌∷◌ x) (take-append_left n xs ys (omega arith))

  -- The cells in front of an append are those of the first block.
  pub slice-append_left :
      (xs ys : List A) (i n : ℕ) → i + n ≤ length xs → slice i n (xs ++ ys) ≡ slice i n xs
  slice-append_left xs ys zero n h = take-append_left n xs ys (omega arith)
  slice-append_left [] ys (suc i) n h = let k : n ≡ 0 = omega arith in rw k
  slice-append_left (x ∷ xs) ys (suc i) n h = slice-append_left xs ys i n (omega arith)

  pub take-slice : (xs : List A) (i k n : ℕ) → k ≤ n → take k (slice i n xs) ≡ slice i k xs
  take-slice xs i zero n h = refl
  take-slice [] zero (suc k) (suc n) h = refl
  take-slice (x ∷ xs) zero (suc k) (suc n) h = ap (◌∷◌ x) (take-slice xs zero k n (omega arith))
  take-slice xs i (suc k) zero h = absurd (omega arith)
  take-slice [] (suc i) (suc k) (suc n) h = refl
  take-slice (x ∷ xs) (suc i) (suc k) (suc n) h = take-slice xs i (suc k) (suc n) h

  pub drop-slice :
      (xs : List A) (i k n : ℕ)
      → (j m : ℕ) → j ≡ i + k
      → n ≡ k + m
      → drop k (slice i n xs) ≡ slice j m xs
  drop-slice xs zero zero n j m e f =
      let p : j ≡ 0 = omega arith in let q : n ≡ m = omega arith in rw (p, q)
  drop-slice xs zero (suc k) zero j m e f = absurd (omega arith)
  drop-slice [] zero (suc k) (suc n) zero m e f = absurd (omega arith)
  drop-slice [] zero (suc k) (suc n) (suc j) zero e f = refl
  drop-slice [] zero (suc k) (suc n) (suc j) (suc m) e f = refl
  drop-slice (x ∷ xs) zero (suc k) (suc n) zero m e f = absurd (omega arith)
  drop-slice (x ∷ xs) zero (suc k) (suc n) (suc j) m e f =
      drop-slice xs zero k n j m (omega arith) (omega arith)
  drop-slice [] (suc i) k n j m e f =
      (ap (drop k) (take-nil n)) ∙ drop-nil k ∙ sym (ap (take m) (drop-nil j) ∙ take-nil m)
  drop-slice (x ∷ xs) (suc i) k n zero m e f = absurd (omega arith)
  drop-slice (x ∷ xs) (suc i) k n (suc j) m e f = drop-slice xs i k n j m (omega arith) f

  -- A window that is not empty begins with its first cell.
  pub slice-cons :
      (xs : List A) (i n : ℕ)
      → i < length xs
      → (j m : ℕ) → j ≡ suc i
      → m ≡ suc n
      → (x : A) × (get_elem? xs i ≡ some x) × (slice i m xs ≡ x ∷ slice j n xs)
  slice-cons [] i n h j m e f = absurd (omega arith)
  slice-cons (x ∷ xs) zero n h j m e f = (x, refl, rw (e, f))
  slice-cons (x ∷ xs) (suc i) n h zero m e f = absurd (omega arith)
  slice-cons (x ∷ xs) (suc i) n h (suc j) m e f =
      slice-cons xs i n (omega arith) j m (omega arith) f

  pub take-replicate : (k n : ℕ) (a : A) → k ≤ n → take k (replicate n a) ≡ replicate k a
  take-replicate zero n a h = refl
  take-replicate (suc k) zero a h = absurd (omega arith)
  take-replicate (suc k) (suc n) a h = ap (◌∷◌ a) (take-replicate k n a (omega arith))
