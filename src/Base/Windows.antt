-- ===== src/Base/Windows.antt =====
-- Windows `take n (drop i xs)` of arrays that are cut or written over.
use Prim.Native.Nat.{ℕ, zero, suc, ◌+◌, ◌-◌, ◌≤◌}
use mathlib.Core.Path.{◌≡◌, refl, ap, ◌∙◌}
use mathlib.Core.List.{List, [], ◌∷◌, ◌++◌}
use native.Mathlib.Omega.{arith}
use native.Mathlib.Nat.{zero-add, suc-add}
use database_assignments.Base.Lists.{length, take, drop, splice, drop-drop}

module _ {ℓ} {A : Type ℓ} where
  pub length-take-le : (k : ℕ) (xs : List A) → length (take k xs) ≤ k
  length-take-le zero xs = omega arith
  length-take-le (suc k) [] = omega arith
  length-take-le (suc k) (x ∷ xs) = omega (arith, length-take-le k xs)

  -- A window that fits both the array behind `off` and the cut fits the block that is cut out.
  pub le-length-take-drop :
      (n k off : ℕ) (xs : List A) → n ≤ k → off + n ≤ length xs → n ≤ length (take k (drop off xs))
  le-length-take-drop zero k off xs h g = omega arith
  le-length-take-drop (suc n) zero off xs h g = absurd (omega arith)
  le-length-take-drop (suc n) (suc k) zero [] h g = absurd (omega arith)
  le-length-take-drop (suc n) (suc k) zero (x ∷ xs) h g =
      omega (arith, le-length-take-drop n k zero xs (omega arith) (omega arith))
  le-length-take-drop (suc n) (suc k) (suc off) [] h g = absurd (omega arith)
  le-length-take-drop (suc n) (suc k) (suc off) (x ∷ xs) h g =
      le-length-take-drop (suc n) (suc k) off xs h (omega arith)

  -- A window of a cut is the window of the whole.
  pub take-drop-take :
      (n i k : ℕ) (xs : List A) → i + n ≤ k → take n (drop i (take k xs)) ≡ take n (drop i xs)
  take-drop-take zero i k xs h = refl
  take-drop-take (suc n) i zero xs h = absurd (omega arith)
  take-drop-take (suc n) zero (suc k) [] h = refl
  take-drop-take (suc n) zero (suc k) (x ∷ xs) h =
      ap (λ l. x ∷ l) (take-drop-take n zero k xs (omega arith))
  take-drop-take (suc n) (suc i) (suc k) [] h = refl
  take-drop-take (suc n) (suc i) (suc k) (x ∷ xs) h = take-drop-take (suc n) i k xs (omega arith)

  -- A window of a block is the window of the array that it has been written to at the front.
  pub take-drop-splice :
      (n i : ℕ) (xs b : List A)
      → i + n ≤ length b
      → length b ≤ length xs
      → take n (drop i (splice xs 0 b)) ≡ take n (drop i b)
  take-drop-splice zero i xs b h g = refl
  take-drop-splice (suc n) i xs [] h g = absurd (omega arith)
  take-drop-splice (suc n) i [] (y ∷ b) h g = absurd (omega arith)
  take-drop-splice (suc n) zero (x ∷ xs) (y ∷ b) h g =
      ap (λ l. y ∷ l) (take-drop-splice n zero xs b (omega arith) (omega arith))
  take-drop-splice (suc n) (suc i) (x ∷ xs) (y ∷ b) h g =
      take-drop-splice (suc n) i xs b (omega arith) (omega arith)

  -- The windows of a buffer that a block of another array has been read into.
  pub take-drop-read :
      (n i k off : ℕ) (buf xs : List A)
      → i + n ≤ k
      → k ≤ length buf
      → off + (i + n) ≤ length xs
      → take n (drop i (splice buf 0 (take k (drop off xs)))) ≡ take n (drop (off + i) xs)
  take-drop-read n i k off buf xs h g l =
      take-drop-splice n i buf (take k (drop off xs)) (le-length-take-drop (i + n) k off xs h l)
        (omega (arith, length-take-le k (drop off xs)))
      ∙ take-drop-take n i k (drop off xs) h
      ∙ ap (take n) (drop-drop i off xs)

  pub take_beyond : (n : ℕ) (xs : List A) → length xs ≤ n → take n xs ≡ xs
  take_beyond zero [] h = refl
  take_beyond zero (x ∷ xs) h = absurd (omega arith)
  take_beyond (suc n) [] h = refl
  take_beyond (suc n) (x ∷ xs) h = ap (λ l. x ∷ l) (take_beyond n xs (omega arith))

  pub drop_beyond : (n : ℕ) (xs : List A) → length xs ≤ n → drop n xs ≡ []
  drop_beyond zero [] h = refl
  drop_beyond zero (x ∷ xs) h = absurd (omega arith)
  drop_beyond (suc n) [] h = refl
  drop_beyond (suc n) (x ∷ xs) h = drop_beyond n xs (omega arith)

  pub take-nil : (n : ℕ) → take n (let l : List A = [] in l) ≡ []
  take-nil zero = refl
  take-nil (suc n) = refl

  -- A window is a shorter window and the one behind it.
  pub take-add : (n m : ℕ) (xs : List A) → take (n + m) xs ≡ take n xs ++ take m (drop n xs)
  take-add zero m xs = rw zero-add
  take-add (suc n) m [] = rw (suc-add, take-nil m)
  take-add (suc n) m (x ∷ xs) = rw suc-add (ap (λ l. x ∷ l) (take-add n m xs))

  pub take-append-drop : (n : ℕ) (xs : List A) → take n xs ++ drop n xs ≡ xs
  take-append-drop zero xs = refl
  take-append-drop (suc n) [] = refl
  take-append-drop (suc n) (x ∷ xs) = ap (λ l. x ∷ l) (take-append-drop n xs)

  pub length-drop : (n : ℕ) (xs : List A) → length (drop n xs) ≡ length xs - n
  length-drop zero xs = omega arith
  length-drop (suc n) [] = omega arith
  length-drop (suc n) (x ∷ xs) = omega (arith, length-drop n xs)
