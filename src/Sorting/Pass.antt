-- ===== src/Sorting/Pass.antt =====
-- One pass of the merge sort of a2/msort.cc: each group of `k` runs becomes one sorted run.
use mathlib.Core.List.Perm
use native.Mathlib.Nat.{mul-le-mul}
use database_assignments.Base.{
  ℕ, zero, suc, ◌+◌, ◌-◌, ◌*◌, ◌≤◌, ◌<◌, ◌≡◌, refl, sym, ap, subst, inl, inr, false, List, [], ◌++◌,
  arith, ok, length, take, drop, ltb, ltb→le, ltb→lt, ◌^◌, le→ltb, Bool-cases, drop_beyond,
  drop-drop,
}
use database_assignments.Sorting.{Schema}
use database_assignments.Sorting.Runs.{fwrite_items, in_int-ok}
use database_assignments.Sorting.Merge.{merge_groups}
use database_assignments.Sorting.Order.{Rec, Comparison, Rearranges}
use database_assignments.Sorting.Records.{
  record_at, records_from, length-records_from, fwrite_items-append,
}
use database_assignments.Sorting.Kway.{kway_merge-Sorted}
use database_assignments.Sorting.RunLists.{
  RunsSorted, RunsSorted-nil, run-Rearranges, run-RunsSorted,
}
use database_assignments.Sorting.Group.{HasBuffers, make_iterators-Covers}

written-append :
    (rs ts : List Rec) → ok (fwrite_items rs ++ fwrite_items ts) ≡ ok (fwrite_items (rs ++ ts))
written-append rs ts = ap ok (sym (fwrite_items-append rs ts))

module _ (c : Comparison) (size : ℕ) (file : List ℕ)
    (good : (k : ℕ) → (k + 1) * size ≤ length file → c.Good (record_at size file k))
    (memory : List ℕ) (schema : Schema) (buf_size : ℕ) (b : HasBuffers schema memory size buf_size)
    (num_records : ℕ) (whole : num_records * size ≤ length file) (n k : ℕ) (n_pos : 0 < n)
    (k_pos : 0 < k) (small : num_records + n * k < 2 ^ 31)
    (runs : RunsSorted c.lt n (records_from size file 0 num_records)) where
  abbrev pub rs : List Rec
  rs = records_from size file 0 num_records

  -- The records from `offset` on are written as sorted runs of the length `n * k`.
  abbrev pub Grouped : ℕ → ℕ → ℕ → Type 0
  Grouped fuel offset u =
      (out : List Rec) × (merge_groups c.less memory schema buf_size k n file num_records fuel
          offset u
        ≡ ok (fwrite_items out))
      × Rearranges c.Good (drop offset rs) out
      × RunsSorted c.lt (n * k) out

  Grouped-end : (fuel offset u : ℕ) → num_records ≤ offset → Grouped fuel offset u
  unfolding merge_groups fwrite_items
  Grouped-end fuel offset u h =
      let none =
        drop_beyond offset rs (omega (arith, length-records_from size file 0 num_records)) in
      (
        [],
        ends fuel (le→ltb offset num_records h),
        subst (λ l. Rearranges c.Good l []) (sym none)
            (record { perm = Perm.refl _; good = tt; count = refl }),
        RunsSorted-nil c.lt (n * k),
      )
    where
      ends :
          (fuel : ℕ)
          → ltb offset num_records ≡ false
          → merge_groups c.less memory schema buf_size k n file num_records fuel offset u ≡ ok []
      ends zero e = rw e
      ends (suc fuel) e = rw e

  step : 0 < n * k
  step = omega (arith, mul-le-mul {n₁ = 1} {m₁ = 1} n_pos k_pos)

  swap : k * n ≡ n * k
  swap = omega arith

  rs_window :
      (offset : ℕ) (out : List Rec)
      → Rearranges c.Good (take (k * n) (drop offset rs)) out
      → Rearranges c.Good (take (n * k) (drop offset rs)) out
  rs_window offset out h = subst (λ w. Rearranges c.Good (take w (drop offset rs)) out) swap h

  rs_behind :
      (offset : ℕ) (out : List Rec)
      → Rearranges c.Good (drop (offset + n * k) rs) out
      → Rearranges c.Good (drop (n * k) (drop offset rs)) out
  rs_behind offset out h =
      subst (λ l. Rearranges c.Good l out) (sym (drop-drop (n * k) offset rs)) h

  pub merge_groups-Grouped :
      (fuel j offset u : ℕ)
      → offset ≡ j * (n * k)
      → u ≡ num_records - offset
      → num_records - offset ≤ fuel
      → Grouped fuel offset u
  unfolding merge_groups
  merge_groups-Grouped zero j offset u eo eu h = Grouped-end zero offset u (omega arith)
  merge_groups-Grouped (suc fuel) j offset u eo eu h = elim (Bool-cases (ltb offset num_records)) [
    | inr e ↦ Grouped-end (suc fuel) offset u (ltb→le _ _ e)
    | inl e ↦
        let (its, left, ei, (el, v, r, s)) =
          make_iterators-Covers c size file good memory schema buf_size b num_records whole n offset
            (j * k) n_pos (omega (arith, eo)) runs k 0 offset u (omega arith) eu
            (omega (arith, small, swap, ltb→lt _ _ e)) in
        let (written, ek, merged, sorted) = kway_merge-Sorted c size file good its v in
        let (rest, er, behind, later) =
          merge_groups-Grouped fuel (suc j) (offset + n * k) left (omega (arith, eo))
            (omega (arith, el)) (omega (arith, step)) in
        let window = rs_window offset written (subst (λ l. Rearranges c.Good l written) r merged) in
        let others = rs_behind offset rest behind in
        let group = drop offset rs in
        (
          written ++ rest,
          rw
              (
                e,
                ei,
                ek,
                in_int-ok (n * k) (omega (arith, small)),
                in_int-ok (offset + n * k) (omega (arith, small, ltb→lt _ _ e)),
                er,
              )
              (written-append written rest),
          run-Rearranges c.Good c.lt (n * k) group written rest window (sorted s) others later,
          run-RunsSorted c.Good c.lt (n * k) group written rest window (sorted s) others later,
        )
  ]
