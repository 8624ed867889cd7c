-- ===== src/Base/Lists.antt =====
-- Lists as arrays, measured and indexed by native numbers, under the library's names.
use Prim.Native.Nat.{ℕ, zero, suc, ◌+◌, ◌≤◌, ◌<◌}
use mathlib.Core.Path.{◌≡◌, refl, ap, ap₂}
use mathlib.Core.List.{List, [], ◌∷◌, ◌++◌}
use mathlib.Core.Option.{Option, none, some}
use native.Mathlib.Omega.{arith}
use native.Mathlib.Nat.{zero-add, add-zero, suc-add}
use mathlib.Core.Path.{◌∙◌}
use database_assignments.Base.Tests.{◌==◌, if◌then◌else◌}

module _ {ℓ} {A : Type ℓ} where
  abbrev pub length : List A → ℕ
  length [] = 0
  length (x ∷ xs) = suc (length xs)

  abbrev pub get_elem? : List A → ℕ → Option A
  get_elem? [] i = none
  get_elem? (x ∷ xs) zero = some x
  get_elem? (x ∷ xs) (suc i) = get_elem? xs i

  abbrev pub get_or : List A → ℕ → A → A
  get_or xs i d = elim (get_elem? xs i) [ none ↦ d | some x ↦ x ]

  -- A write out of bounds changes nothing.
  abbrev pub set : List A → ℕ → A → List A
  set [] i v = []
  set (x ∷ xs) zero v = v ∷ xs
  set (x ∷ xs) (suc i) v = x ∷ set xs i v

  abbrev pub take : ℕ → List A → List A
  take zero xs = []
  take (suc n) [] = []
  take (suc n) (x ∷ xs) = x ∷ take n xs

  abbrev pub drop : ℕ → List A → List A
  drop zero xs = xs
  drop (suc n) [] = []
  drop (suc n) (x ∷ xs) = drop n xs

  abbrev pub replicate : ℕ → A → List A
  replicate zero a = []
  replicate (suc n) a = a ∷ replicate n a

  -- The array with the block `b` written from index `i` on.
  abbrev pub splice : List A → ℕ → List A → List A
  splice xs i [] = xs
  splice [] i (b ∷ bs) = []
  splice (x ∷ xs) zero (b ∷ bs) = b ∷ splice xs zero bs
  splice (x ∷ xs) (suc i) (b ∷ bs) = x ∷ splice xs i (b ∷ bs)

  pub length-append : (xs ys : List A) → length (xs ++ ys) ≡ length xs + length ys
  length-append [] ys = omega arith
  length-append (x ∷ xs) ys = omega (arith, length-append xs ys)

  pub length-set : (xs : List A) (i : ℕ) (v : A) → length (set xs i v) ≡ length xs
  length-set [] i v = refl
  length-set (x ∷ xs) zero v = refl
  length-set (x ∷ xs) (suc i) v = ap suc (length-set xs i v)

  pub length-splice : (xs : List A) (i : ℕ) (b : List A) → length (splice xs i b) ≡ length xs
  length-splice xs i [] = refl
  length-splice [] i (b ∷ bs) = refl
  length-splice (x ∷ xs) zero (b ∷ bs) = ap suc (length-splice xs zero bs)
  length-splice (x ∷ xs) (suc i) (b ∷ bs) = ap suc (length-splice xs i (b ∷ bs))

  pub get_elem?-get_or :
      (xs : List A) (i : ℕ) (d : A) → i < length xs → get_elem? xs i ≡ some (get_or xs i d)
  get_elem?-get_or [] i d h = absurd (omega arith)
  get_elem?-get_or (x ∷ xs) zero d h = refl
  get_elem?-get_or (x ∷ xs) (suc i) d h = get_elem?-get_or xs i d (omega arith)

  pub get_or_cong :
      (xs ys : List A) (i j : ℕ) (d : A)
      → get_elem? xs i ≡ get_elem? ys j
      → get_or xs i d ≡ get_or ys j d
  get_or_cong xs ys i j d h = ap (λ (o : Option A). elim o [ none ↦ d | some x ↦ x ]) h

  pub get_elem?_beyond : (xs : List A) (i : ℕ) → length xs ≤ i → get_elem? xs i ≡ none
  get_elem?_beyond [] i h = refl
  get_elem?_beyond (x ∷ xs) zero h = absurd (omega arith)
  get_elem?_beyond (x ∷ xs) (suc i) h = get_elem?_beyond xs i (omega arith)

  pub get_elem?-set :
      (xs : List A) (i j : ℕ) (v : A)
      → i < length xs
      → get_elem? (set xs i v) j ≡ (if i == j then some v else get_elem? xs j)
  get_elem?-set [] i j v h = absurd (omega arith)
  get_elem?-set (x ∷ xs) zero zero v h = refl
  get_elem?-set (x ∷ xs) zero (suc j) v h = ground arith
  get_elem?-set (x ∷ xs) (suc i) zero v h = ground arith
  get_elem?-set (x ∷ xs) (suc i) (suc j) v h = ground (arith, get_elem?-set xs i j v)

  pub get_or-set :
      (xs : List A) (i j : ℕ) (v d : A)
      → i < length xs
      → get_or (set xs i v) j d ≡ (if i == j then v else get_or xs j d)
  get_or-set xs i j v d h = ground (arith, get_elem?-set xs i j v h)

  pub get_elem?-drop :
      (n : ℕ) (xs : List A) (i : ℕ) → get_elem? (drop n xs) i ≡ get_elem? xs (n + i)
  get_elem?-drop zero xs i = rw zero-add
  get_elem?-drop (suc n) [] i = refl
  get_elem?-drop (suc n) (x ∷ xs) i = rw suc-add (get_elem?-drop n xs i)

  pub get_elem?-splice_before :
      (xs : List A) (i : ℕ) (b : List A) (j : ℕ)
      → j < i
      → get_elem? (splice xs i b) j ≡ get_elem? xs j
  get_elem?-splice_before xs i [] j h = refl
  get_elem?-splice_before [] i (b ∷ bs) j h = refl
  get_elem?-splice_before (x ∷ xs) zero (b ∷ bs) j h = absurd (omega arith)
  get_elem?-splice_before (x ∷ xs) (suc i) (b ∷ bs) zero h = refl
  get_elem?-splice_before (x ∷ xs) (suc i) (b ∷ bs) (suc j) h =
      get_elem?-splice_before xs i (b ∷ bs) j (omega arith)

  pub get_elem?-splice_after :
      (xs : List A) (i : ℕ) (b : List A) (j : ℕ)
      → i + length b ≤ j
      → get_elem? (splice xs i b) j ≡ get_elem? xs j
  get_elem?-splice_after xs i [] j h = refl
  get_elem?-splice_after [] i (b ∷ bs) j h = refl
  get_elem?-splice_after (x ∷ xs) i (b ∷ bs) zero h = absurd (omega arith)
  get_elem?-splice_after (x ∷ xs) zero (b ∷ bs) (suc j) h =
      get_elem?-splice_after xs zero bs j (omega arith)
  get_elem?-splice_after (x ∷ xs) (suc i) (b ∷ bs) (suc j) h =
      get_elem?-splice_after xs i (b ∷ bs) j (omega arith)

  pub splice-nil : (i : ℕ) (b : List A) → splice [] i b ≡ []
  splice-nil i [] = refl
  splice-nil i (b ∷ bs) = refl

  splice-cons :
      (x : A) (ys : List A) (k : ℕ) (d : List A) → splice (x ∷ ys) (suc k) d ≡ x ∷ splice ys k d
  splice-cons x ys k [] = refl
  splice-cons x ys k (d ∷ ds) = refl

  -- Two adjacent blocks are one block.
  pub splice-splice :
      (xs : List A) (i j : ℕ) (b c : List A)
      → j ≡ i + length b
      → splice (splice xs i b) j c ≡ splice xs i (b ++ c)
  splice-splice xs i j [] c h = let e : j ≡ i = omega arith in rw e
  splice-splice [] i j (b ∷ bs) c h = splice-nil j c
  splice-splice (x ∷ xs) zero zero (b ∷ bs) c h = absurd (omega arith)
  splice-splice (x ∷ xs) zero (suc j) (b ∷ bs) c h =
      splice-cons b _ j c ∙ ap (◌∷◌ b) (splice-splice xs zero j bs c (omega arith))
  splice-splice (x ∷ xs) (suc i) zero (b ∷ bs) c h = absurd (omega arith)
  splice-splice (x ∷ xs) (suc i) (suc j) (b ∷ bs) c h =
      splice-cons x _ j c ∙ ap (◌∷◌ x) (splice-splice xs i j (b ∷ bs) c (omega arith))

  -- What a block that fits leaves from its first index on.
  pub drop-splice :
      (xs : List A) (i : ℕ) (b : List A)
      → i + length b ≤ length xs
      → drop i (splice xs i b) ≡ b ++ drop (i + length b) xs
  drop-splice xs i [] h = rw add-zero
  drop-splice [] i (b ∷ bs) h = absurd (omega arith)
  drop-splice (x ∷ xs) zero (b ∷ bs) h =
      rw zero-add (ap (◌∷◌ b) (rw zero-add at (drop-splice xs zero bs (omega arith))))
  drop-splice (x ∷ xs) (suc i) (b ∷ bs) h = rw suc-add (drop-splice xs i (b ∷ bs) (omega arith))

  pub drop-append : (b c : List A) {n : ℕ} → length b ≡ n → drop n (b ++ c) ≡ c
  drop-append [] c {n = zero} e = refl
  drop-append [] c {n = suc n} e = absurd (omega arith)
  drop-append (x ∷ b) c {n = zero} e = absurd (omega arith)
  drop-append (x ∷ b) c {n = suc n} e = drop-append b c (omega arith)

  pub drop-drop : (m n : ℕ) (xs : List A) → drop m (drop n xs) ≡ drop (n + m) xs
  drop-drop m zero xs = rw zero-add
  drop-drop zero (suc n) [] = rw suc-add
  drop-drop (suc m) (suc n) [] = rw suc-add
  drop-drop m (suc n) (x ∷ xs) = rw suc-add (drop-drop m n xs)

  pub take_ext :
      (n : ℕ) (xs ys : List A)
      → ((i : ℕ) → i < n → get_elem? xs i ≡ get_elem? ys i)
      → take n xs ≡ take n ys
  take_ext zero xs ys h = refl
  take_ext (suc n) [] [] h = refl
  take_ext (suc n) [] (y ∷ ys) h = absurd (cc (h 0 (omega arith)))
  take_ext (suc n) (x ∷ xs) [] h = absurd (cc (h 0 (omega arith)))
  take_ext (suc n) (x ∷ xs) (y ∷ ys) h =
      let head : x ≡ y = cc (h 0 (omega arith)) in
      ap₂ ◌∷◌ head (take_ext n xs ys (λ i lt. h (suc i) (omega arith)))

  pub take-append : (b c : List A) {n : ℕ} → length b ≡ n → take n (b ++ c) ≡ b
  take-append [] c {n = zero} e = refl
  take-append [] c {n = suc n} e = absurd (omega arith)
  take-append (x ∷ b) c {n = zero} e = absurd (omega arith)
  take-append (x ∷ b) c {n = suc n} e = ap (◌∷◌ x) (take-append b c (omega arith))

  pub take_all : (b : List A) {n : ℕ} → length b ≡ n → take n b ≡ b
  take_all [] {n = zero} e = refl
  take_all [] {n = suc n} e = refl
  take_all (x ∷ b) {n = zero} e = absurd (omega arith)
  take_all (x ∷ b) {n = suc n} e = ap (◌∷◌ x) (take_all b (omega arith))

  pub length-take-drop :
      (xs : List A) (n i : ℕ) → i + n ≤ length xs → length (take n (drop i xs)) ≡ n
  length-take-drop xs zero i h = refl
  length-take-drop [] (suc n) i h = absurd (omega arith)
  length-take-drop (x ∷ xs) (suc n) zero h = ap suc (length-take-drop xs n zero (omega arith))
  length-take-drop (x ∷ xs) (suc n) (suc i) h = length-take-drop xs (suc n) i (omega arith)
