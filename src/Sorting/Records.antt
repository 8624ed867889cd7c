-- ===== src/Sorting/Records.antt =====
-- A file as a sequence of records of one size.
use native.Mathlib.Nat.{mul-le-mul_right, le_of_mul-le-mul_right}
use mathlib.Core.List.{append_assoc}
use database_assignments.Base.{
  ℕ, zero, suc, ◌+◌, ◌-◌, ◌*◌, ◌≤◌, ◌<◌, ◌≡◌, refl, sym, ap, ap₂, subst, ◌∙◌, List, [], ◌∷◌, ◌++◌,
  arith, length, take, drop, length-append, take-append, drop-append, drop_beyond, length-take-drop,
  ltb, ltb→lt, ltb→le, inl, inr, Bool-cases,
}
use database_assignments.Sorting.Runs.{fwrite_items}
use database_assignments.Sorting.Order.{Rec, AllGood}

-- The `k`th record of a file.
abbrev pub record_at : ℕ → List ℕ → ℕ → Rec
record_at size file k = take size (drop (k * size) file)

-- `n` records of a file, from the `k`th on.
abbrev pub records_from : ℕ → List ℕ → ℕ → ℕ → List Rec
records_from size file k zero = []
records_from size file k (suc n) = record_at size file k ∷ records_from size file (k + 1) n

-- Every record of the list has the size.
abbrev pub AllSized : ℕ → List Rec → Type 0
AllSized size = AllGood (λ r. length r ≡ size)

pub fwrite_items-append :
    (rs ts : List Rec) → fwrite_items (rs ++ ts) ≡ fwrite_items rs ++ fwrite_items ts
unfolding fwrite_items
fwrite_items-append [] ts = refl
fwrite_items-append (r ∷ rs) ts =
    ap (λ l. r ++ l) (fwrite_items-append rs ts)
    ∙ sym (append_assoc r (fwrite_items rs) (fwrite_items ts))

module _ (size : ℕ) where
  pub length-records_from : (file : List ℕ) (k n : ℕ) → length (records_from size file k n) ≡ n
  length-records_from file k zero = refl
  length-records_from file k (suc n) = ap suc (length-records_from file (k + 1) n)

  pub records_from-add :
      (file : List ℕ) (k n m : ℕ)
      → records_from size file k (n + m)
        ≡ records_from size file k n ++ records_from size file (k + n) m
  records_from-add file k zero m =
      ap₂ (λ i l. records_from size file i l) (omega arith) (omega arith)
  records_from-add file k (suc n) m =
      let count : suc n + m ≡ suc (n + m) = omega arith in
      let start : k + 1 + n ≡ k + suc n = omega arith in
      ap (records_from size file k) count
      ∙ ap (λ l. record_at size file k ∷ l) (records_from-add file (k + 1) n m)
      ∙ ap
          (λ i.
            record_at size file k
            ∷ (records_from size file (k + 1) n ++ records_from size file i m))
          start

  -- The records from one on, and a window of them.
  pub drop-records_from :
      (file : List ℕ) (k n a : ℕ)
      → drop a (records_from size file k n) ≡ records_from size file (k + a) (n - a)
  drop-records_from file k n a = elim (Bool-cases (ltb n a)) [
    | inl h ↦
        let none : n - a ≡ 0 = omega (arith, ltb→lt n a h) in
        drop_beyond a (records_from size file k n)
          (omega (arith, length-records_from file k n, ltb→lt n a h))
        ∙ ap (records_from size file (k + a)) (sym none)
    | inr h ↦
        let split : n ≡ a + (n - a) = omega (arith, ltb→le n a h) in
        ap (λ l. drop a (records_from size file k l)) split
        ∙ ap (drop a) (records_from-add file k a (n - a))
        ∙ drop-append (records_from size file k a) (records_from size file (k + a) (n - a))
            (length-records_from file k a)
  ]

  pub take-records_from :
      (file : List ℕ) (k n m : ℕ)
      → m ≤ n
      → take m (records_from size file k n) ≡ records_from size file k m
  take-records_from file k n m h =
      let split : n ≡ m + (n - m) = omega arith in
      ap (λ l. take m (records_from size file k l)) split
      ∙ ap (take m) (records_from-add file k m (n - m))
      ∙ take-append (records_from size file k m) (records_from size file (k + m) (n - m))
          (length-records_from file k m)

  -- What holds of every whole record of the file holds of the records of a range.
  pub records_from-AllGood :
      (Good : Rec → Type 0) (file : List ℕ)
      → ((k : ℕ) → (k + 1) * size ≤ length file → Good (record_at size file k))
      → (k n : ℕ) → (k + n) * size ≤ length file
      → AllGood Good (records_from size file k n)
  records_from-AllGood Good file g k zero h = tt
  records_from-AllGood Good file g k (suc n) h =
      let first : (k + 1) * size ≤ (k + suc n) * size = mul-le-mul_right size (omega arith) in
      (g k (omega arith), records_from-AllGood Good file g (k + 1) n (omega arith))

  pub length-record_at :
      (file : List ℕ) (k : ℕ) → (k + 1) * size ≤ length file → length (record_at size file k) ≡ size
  length-record_at file k h = length-take-drop file size (k * size) (omega arith)

  pub length-fwrite_items :
      (rs : List Rec) → AllSized size rs → length (fwrite_items rs) ≡ length rs * size
  unfolding fwrite_items
  length-fwrite_items [] h = omega arith
  length-fwrite_items (r ∷ rs) h =
      omega (arith, h.0, length-append r (fwrite_items rs), length-fwrite_items rs h.1)

  records_from-behind :
      (before : List ℕ) (rs : List Rec) (k : ℕ)
      → length before ≡ k * size
      → AllSized size rs
      → records_from size (before ++ fwrite_items rs) k (length rs) ≡ rs
  unfolding fwrite_items
  records_from-behind before [] k e h = refl
  records_from-behind before (r ∷ rs) k e h =
      let again = sym (append_assoc before r (fwrite_items rs)) in
      let longer : length (before ++ r) ≡ (k + 1) * size =
        omega (arith, length-append before r, h.0) in
      ap₂ ◌∷◌
        (ap (take size) (drop-append before (r ++ fwrite_items rs) e)
          ∙ take-append r (fwrite_items rs) h.0)
        (ap (λ l. records_from size l (k + 1) (length rs)) again
          ∙ records_from-behind (before ++ r) rs (k + 1) longer h.1)

  -- Records that are written are read back.
  pub records_from-fwrite_items :
      (rs : List Rec) → AllSized size rs → records_from size (fwrite_items rs) 0 (length rs) ≡ rs
  records_from-fwrite_items rs h = records_from-behind [] rs 0 (omega arith) h

  pub AllGood-record_at :
      (Good : Rec → Type 0) (file : List ℕ) (k n j : ℕ)
      → AllGood Good (records_from size file k n)
      → j < n
      → Good (record_at size file (k + j))
  AllGood-record_at Good file k zero j g h = absurd (omega arith)
  AllGood-record_at Good file k (suc n) zero g h =
      subst (λ i. Good (record_at size file i)) (omega arith) g.0
  AllGood-record_at Good file k (suc n) (suc j) g h =
      subst (λ i. Good (record_at size file i)) (omega arith)
        (AllGood-record_at Good file (k + 1) n j g.1 (omega arith))

  -- The whole records of a file that good records have been written to are good.
  pub fwrite_items-good :
      (Good : Rec → Type 0) (rs : List Rec)
      → AllGood Good rs
      → AllSized size rs
      → (k : ℕ) → (k + 1) * size ≤ length (fwrite_items rs)
      → 0 < size
      → Good (record_at size (fwrite_items rs) k)
  fwrite_items-good Good rs g s k h pos =
      let total : (k + 1) * size ≤ length rs * size = omega (arith, length-fwrite_items rs s) in
      let within = le_of_mul-le-mul_right total pos in
      subst (λ i. Good (record_at size (fwrite_items rs) i)) (omega arith)
        (AllGood-record_at Good (fwrite_items rs) 0 (length rs) k
          (subst (AllGood Good) (sym (records_from-fwrite_items rs s)) g) (omega arith))
