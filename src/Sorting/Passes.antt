-- ===== src/Sorting/Passes.antt =====
-- The passes of the merge sort of a2/msort.cc.
use mathlib.Core.List.Perm
use native.Mathlib.Nat.{mul-le-mul, mul-le-mul_right}
use database_assignments.Base.{
  ℕ, zero, suc, ◌-◌, ◌*◌, ◌≤◌, ◌<◌, ◌≡◌, refl, sym, ap, subst, ◌∙◌, inl, inr, false, List, [], ◌∷◌,
  ◌++◌, arith, ok, length, take, drop, ltb, ltb→le, ltb→lt, ◌+◌, ◌^◌, le→ltb, Bool-cases,
  take_beyond, drop_beyond,
}
use mathlib.Core.List.{append-nil}
use database_assignments.Sorting.{Schema}
use database_assignments.Sorting.Runs.{fwrite_items, in_int, in_int-ok}
use database_assignments.Sorting.Merge.{merge_groups, merge_passes}
use database_assignments.Sorting.Order.{Rec, Comparison, AllGood, Rearranges, Sorted}
use database_assignments.Sorting.Records.{
  records_from, AllSized, length-fwrite_items, records_from-fwrite_items, fwrite_items-good,
}
use database_assignments.Sorting.RunLists.{RunsSorted, Rearranges-trans}
use database_assignments.Sorting.Group.{HasBuffers}
use database_assignments.Sorting.Pass.{merge_groups-Grouped}

module _ (c : Comparison) (size : ℕ) (size_pos : 0 < size)
    (sized : (r : Rec) → c.Good r → length r ≡ size) where
  pub AllGood-AllSized : (rs : List Rec) → AllGood c.Good rs → AllSized size rs
  AllGood-AllSized [] g = tt
  AllGood-AllSized (r ∷ rs) g = (sized r g.0, AllGood-AllSized rs g.1)

  module _ (memory : List ℕ) (schema : Schema) (buf_size : ℕ)
      (b : HasBuffers schema memory size buf_size) (num_records k : ℕ) (k_pos : 1 < k)
      (small : num_records + (num_records * k) * k < 2 ^ 31) where
    bound : in_int (num_records * k) ≡ ok (num_records * k)
    bound =
        let once : (num_records * k) * 1 ≤ (num_records * k) * k =
          mul-le-mul {n₁ = num_records * k} (omega arith) (omega arith) in
        in_int-ok (num_records * k) (omega (arith, small))

    next_small : (n : ℕ) → n < num_records * k → n * k ≤ (num_records * k) * k
    next_small n below = mul-le-mul_right k (omega (arith, below))

    -- What the passes make of a file of sorted runs.
    abbrev pub Passed : ℕ → ℕ → List Rec → List ℕ → Type 0
    Passed fuel n rs tmp_out =
        (out : List Rec) × (merge_passes c.less memory schema buf_size k num_records fuel n
            (fwrite_items rs) tmp_out
          ≡ ok (fwrite_items out))
        × Rearranges c.Good rs out
        × Sorted c.lt out

    passes_end :
        (fuel n : ℕ) (rs : List Rec) (tmp_out : List ℕ)
        → AllGood c.Good rs
        → length rs ≡ num_records
        → RunsSorted c.lt n rs
        → num_records * k ≤ n
        → Passed fuel n rs tmp_out
    unfolding merge_passes
    passes_end fuel n rs tmp_out g count runs h =
        let enough : num_records * 1 ≤ num_records * k =
          mul-le-mul {n₁ = num_records} (omega arith) (omega arith) in
        let first : 0 * n ≡ 0 = omega arith in
        (
          rs,
          ends fuel (le→ltb n (num_records * k) h),
          record { perm = Perm.refl _; good = g; count = refl },
          subst (Sorted c.lt)
              (ap (λ i. take n (drop i rs)) first ∙ take_beyond n rs (omega (arith, count)))
              (runs 0),
        )
      where
        ends :
            (fuel : ℕ)
            → ltb n (num_records * k) ≡ false
            → merge_passes c.less memory schema buf_size k num_records fuel n
                (fwrite_items rs)
                tmp_out
              ≡ ok (fwrite_items rs)
        ends zero e = rw (bound, e) refl
        ends (suc fuel) e = rw (bound, e) refl

    -- One pass, on the file as it has been written.
    pass :
        (n : ℕ) (rs : List Rec)
        → 0 < n
        → n < num_records * k
        → AllGood c.Good rs
        → length rs ≡ num_records
        → RunsSorted c.lt n rs
        → (out : List Rec) × (merge_groups c.less memory schema buf_size k n
              (fwrite_items rs)
              num_records
              num_records
              0
              num_records
            ≡ ok (fwrite_items out))
          × Rearranges c.Good rs out
          × RunsSorted c.lt (n * k) out
    pass n rs n_pos below g count runs =
        let s = AllGood-AllSized rs g in
        let file = fwrite_items rs in
        let same : records_from size file 0 num_records ≡ rs =
          ap (records_from size file 0) (sym count) ∙ records_from-fwrite_items size rs s in
        let (out, e, r, o) =
          merge_groups-Grouped c size file
            (λ i h. fwrite_items-good size c.Good rs g s i h size_pos) memory schema buf_size b
            num_records (omega (arith, length-fwrite_items size rs s, ap (λ l. l * size) count)) n k
            n_pos (omega arith) (omega (arith, small, next_small n below))
            (subst (RunsSorted c.lt n) (sym same) runs) num_records 0 0 num_records (omega arith)
            (omega arith) (omega arith) in
        (out, e, subst (λ l. Rearranges c.Good l out) same r, o)

    overwritten :
        (out : List Rec) (tmp_out : List ℕ)
        → AllGood c.Good out
        → length out ≡ num_records
        → length tmp_out ≤ num_records * size
        → fwrite_items out ++ drop (length (fwrite_items out)) tmp_out ≡ fwrite_items out
    overwritten out tmp_out g count h =
        let written = length-fwrite_items size out (AllGood-AllSized out g) in
        ap (λ l. fwrite_items out ++ l)
          (drop_beyond (length (fwrite_items out)) tmp_out
            (omega (arith, written, ap (λ l. l * size) count)))
        ∙ append-nil (fwrite_items out)

    -- For k above one, buffers with room for a record, so few records that their number and its
    -- product with the square of k are below 2^31 together, and a file of runs of n records, n
    -- above zero, each sorted and of records that the comparator orders, where the file that is
    -- written over is not longer: no int overflows, the passes end within num_records * k - n
    -- rounds, and the file that they leave has the records of the first one in sorted order.
    pub merge_passes-Sorted :
        (fuel n : ℕ) (rs : List Rec) (tmp_out : List ℕ)
        → 0 < n
        → AllGood c.Good rs
        → length rs ≡ num_records
        → RunsSorted c.lt n rs
        → length tmp_out ≤ num_records * size
        → num_records * k - n ≤ fuel
        → Passed fuel n rs tmp_out
    unfolding merge_passes
    merge_passes-Sorted zero n rs tmp_out n_pos g count runs l h =
        passes_end zero n rs tmp_out g count runs (omega arith)
    merge_passes-Sorted (suc fuel) n rs tmp_out n_pos g count runs l h =
        elim (Bool-cases (ltb n (num_records * k))) [
          | inr e ↦ passes_end (suc fuel) n rs tmp_out g count runs (ltb→le _ _ e)
          | inl e ↦
              let (out, ep, r, o) = pass n rs n_pos (ltb→lt _ _ e) g count runs in
              let grows : n * 2 ≤ n * k = mul-le-mul {n₁ = n} (omega arith) (omega arith) in
              let counted = r.count ∙ count in
              let (sorted, es, rs', os) =
                merge_passes-Sorted fuel (n * k) out (fwrite_items rs) (omega arith) r.good counted
                  o
                  (omega (
                    arith,
                    length-fwrite_items size rs (AllGood-AllSized rs g),
                    ap (λ l. l * size) count,
                  ))
                  (omega arith) in
              (
                sorted,
                rw
                    (
                      bound,
                      e,
                      ep,
                      in_int-ok (n * k) (omega (arith, small, next_small n (ltb→lt _ _ e))),
                      overwritten out tmp_out r.good counted l,
                      es,
                    )
                    refl,
                Rearranges-trans c.Good rs out sorted r rs',
                os,
              )
        ]
