-- ===== src/Sorting/Group.antt =====
-- The iterators over one group of runs, which `main` of a2/msort.cc makes for a merge.
use native.Mathlib.Nat.{mod-eq_of_lt, mul-le-mul_right}
use database_assignments.Base.{
  ℕ, zero, suc, ◌+◌, ◌-◌, ◌*◌, ◌/◌, ◌%◌, ◌≤◌, ◌<◌, ◌^◌, ◌≡◌, refl, sym, ap, ap₂, subst, ◌∙◌, inl,
  inr, List, [], ◌∷◌, ◌++◌, arith, ok, if◌then◌else◌, length, take, drop, ltb, ltb→lt, ltb→le,
  Bool-cases, take_beyond, take-add, drop-drop,
}
use database_assignments.Sorting.{Schema}
use database_assignments.Sorting.Runs.{RunIterator, new_run_iterator, in_int-ok}
use database_assignments.Sorting.Merge.{make_iterators}
use database_assignments.Sorting.Order.{Rec, Comparison, Sorted}
use database_assignments.Sorting.Slots.{remaining_all, AllValid, AllSorted}
use database_assignments.Sorting.Records.{
  record_at, records_from, length-records_from, drop-records_from, take-records_from,
}
use database_assignments.Sorting.Delivery.{remaining_in_run}
use database_assignments.Sorting.Writing.{new_run_iterator-IsInRun}
use database_assignments.Sorting.RunLists.{RunsSorted}
use database_assignments.Sorting.Kway.{IsRun, run_source}

-- Buffers of `buf_size` bytes for records of the size, at least one at a time.
pub record HasBuffers (schema : Schema) (memory : List ℕ) (size buf_size : ℕ) : Type 0 where
  pub sizes : schema.record_size ≡ size
  pub buffer : length memory ≡ buf_size
  pub room : 0 < buf_size / size

module _ (c : Comparison) (size : ℕ) (file : List ℕ)
    (good : (k : ℕ) → (k + 1) * size ≤ length file → c.Good (record_at size file k))
    (memory : List ℕ) (schema : Schema) (buf_size : ℕ) (b : HasBuffers schema memory size buf_size)
    (num_records : ℕ) (whole : num_records * size ≤ length file) where
  abbrev pub all_records : List Rec
  all_records = records_from size file 0 num_records

  -- The iterator over one run.
  run_iterator :
      (start n : ℕ)
      → (0 < n → start + n ≤ num_records)
      → (it : RunIterator) × (new_run_iterator start n buf_size memory schema ≡ ok it)
        × IsRun c size file good it
        × (remaining_in_run file it ≡ records_from size file start n)
  run_iterator start n h =
      let (it, made, v, covers, same) =
        new_run_iterator-IsInRun file memory schema buf_size start n
          (subst (λ r. 0 < buf_size / r) (sym b.sizes) b.room) (omega (arith, b.buffer))
          (λ pos. inside (h pos)) in
      (it, made, (v, same ∙ b.sizes), covers ∙ ap (λ r. records_from r file start n) b.sizes)
    where
      inside : start + n ≤ num_records → (start + n) * schema.record_size ≤ length file
      inside fits =
          let part : (start + n) * size ≤ num_records * size = mul-le-mul_right size fits in
          subst (λ r. (start + n) * r ≤ length file) (sym b.sizes) (omega arith)

  -- The window of the records that the run of length `n` from `a` on covers.
  run_window :
      (a n : ℕ)
      → records_from size file a (if ltb (num_records - a) n then num_records - a else n)
        ≡ take n (drop a all_records)
  run_window a n =
      let behind : drop a all_records ≡ records_from size file a (num_records - a) =
        drop-records_from size file 0 num_records a
        ∙ ap (λ k. records_from size file k (num_records - a)) (omega arith) in
      elim (Bool-cases (ltb (num_records - a) n)) [
        | inl h ↦
            rw (h, behind)
              (sym (
                take_beyond n (records_from size file a (num_records - a))
                  (omega (arith, length-records_from size file a (num_records - a), ltb→lt _ _ h))))
        | inr h ↦
            rw (h, behind) (sym (take-records_from size file a (num_records - a) n (ltb→le _ _ h)))
      ]

  run_length :
      (a u n : ℕ)
      → u ≡ num_records - a
      → (if ltb u n then u % n else n) ≡ (if ltb (num_records - a) n then num_records - a else n)
  run_length a u n e = elim (Bool-cases (ltb u n)) [
    | inl h ↦ rw (← e, h) (mod-eq_of_lt (ltb→lt u n h))
    | inr h ↦ rw (← e, h) refl
  ]

  left_over :
      (a u n : ℕ) → u ≡ num_records - a → (if ltb u n then n else u) - n ≡ num_records - (a + n)
  left_over a u n e = ground arith

  run_fits :
      (a n : ℕ)
      → 0 < (if ltb (num_records - a) n then num_records - a else n)
      → a + (if ltb (num_records - a) n then num_records - a else n) ≤ num_records
  run_fits a n h = ground arith

  -- The iterators of a group cover its records, each a run of them.
  module _ (n offset j : ℕ) (pos : 0 < n) (aligned : offset ≡ j * n)
      (runs : RunsSorted c.lt n all_records) where
    abbrev pub Covers : ℕ → ℕ → ℕ → List RunIterator → Type 0
    Covers rounds a left its =
        (left ≡ num_records - (a + rounds * n))
        × AllValid c (run_source c size file good) its
        × (remaining_all c (run_source c size file good) its
            ≡ take (rounds * n) (drop a all_records))
        × AllSorted c (run_source c size file good) its

    pub make_iterators-Covers :
        (rounds i a u : ℕ)
        → offset + i * n ≡ a
        → u ≡ num_records - a
        → a + rounds * n < 2 ^ 31
        → (its : List RunIterator) × (left : ℕ) × (make_iterators memory schema buf_size n offset
              rounds i u
            ≡ ok (its, left))
          × Covers rounds a left its
    unfolding make_iterators
    make_iterators-Covers zero i a u ea eu fits =
        let none : 0 ≡ 0 * n = omega arith in
        ([], u, refl, (omega arith, tt, ap (λ w. take w (drop a all_records)) none, tt))
    make_iterators-Covers (suc rounds) i a u ea eu fits =
        let len : ℕ = if ltb (num_records - a) n then num_records - a else n in
        let (it, made, valid, covers) = run_iterator a len (run_fits a n) in
        let (its, left, e, (l, v, r, s)) =
          make_iterators-Covers rounds (i + 1) (a + n) ((if ltb u n then n else u) - n)
            (omega (arith, ea)) (left_over a u n eu) (omega (arith, fits)) in
        let window = covers ∙ run_window a n in
        let start : (j + i) * n ≡ a = omega (arith, ea, aligned) in
        let behind : drop n (drop a all_records) ≡ drop (a + n) all_records =
          drop-drop n a all_records in
        (
          it ∷ its,
          left,
          rw
              (
                in_int-ok (i * n) (omega (arith, ea, fits)),
                in_int-ok (offset + i * n) (omega (arith, ea, fits)),
                ea,
                run_length a u n eu,
                made,
                e,
              )
              refl,
          (
            l ∙ omega arith,
            (valid, v),
            ap₂ ◌++◌ window (r ∙ ap (take (rounds * n)) (sym behind))
                ∙ sym (take-add n (rounds * n) (drop a all_records))
                ∙ ap (λ w. take w (drop a all_records)) (omega arith),
            (
              subst (Sorted c.lt) (ap (λ k. take n (drop k all_records)) start ∙ sym window)
                  (runs (j + i)),
              s,
            ),
          ),
        )
