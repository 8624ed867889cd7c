-- ===== src/Sorting/Kway.antt =====
-- `kway_merge` of a2/msort.cc, on iterators over the runs of a file.
use database_assignments.Base.{
  ℕ, ◌+◌, ◌-◌, ◌*◌, ◌≤◌, ◌≡◌, refl, sym, subst, ◌∙◌, List, [], ◌∷◌, arith, ok, length,
  length-append, ltb→lt, ap₂, inl, inr, Bool-cases,
}
use database_assignments.Sorting.Runs.{RunIterator, next_in_run, has_next_in_run}
use database_assignments.Sorting.Merge.{records_left, kway_merge}
use database_assignments.Sorting.Order.{Rec, Comparison, Source, AllGood, Rearranges, Sorted}
use database_assignments.Sorting.Slots.{remaining_all, AllValid, AllSorted}
use database_assignments.Sorting.Sorted.{merge_all-Sorted}
use database_assignments.Sorting.Records.{
  record_at, records_from, length-records_from, records_from-AllGood,
}
use database_assignments.Sorting.Delivery.{
  IsInRun, remaining_in_run, remaining_in_run-ended, next_in_run-IsInRun,
}

module _ (c : Comparison) (size : ℕ) (file : List ℕ)
    (good : (k : ℕ) → (k + 1) * size ≤ length file → c.Good (record_at size file k)) where
  -- A valid iterator over the file, for records of the size.
  abbrev pub IsRun : RunIterator → Type 0
  IsRun it = IsInRun file it × (it.record_size ≡ size)

  pub remaining_in_run-AllGood :
      (it : RunIterator) → IsRun it → AllGood c.Good (remaining_in_run file it)
  unfolding has_next_in_run
  remaining_in_run-AllGood it ((q, m, v), e) = elim (Bool-cases (has_next_in_run it)) [
    | inl h ↦
        let total : it.start_pos + it.pos + (it.run_length - it.pos)
            ≡ it.start_pos + it.run_length =
          omega (arith, ltb→lt _ _ h) in
        let bytes = ap₂ ◌*◌ total (sym e) in
        let inside = v.inside (omega (arith, ltb→lt _ _ h)) in
        subst
          (λ n.
            AllGood c.Good (records_from n file (it.start_pos + it.pos) (it.run_length - it.pos)))
          (sym e)
          (records_from-AllGood size c.Good file good (it.start_pos + it.pos)
            (it.run_length - it.pos) (omega arith))
    | inr h ↦ subst (AllGood c.Good) (sym (remaining_in_run-ended file it h)) tt
  ]

  abbrev pub run_source : Source c.Good RunIterator
  run_source = record {
    has_next = has_next_in_run;
    next = next_in_run file;
    Valid = IsRun;
    remaining = remaining_in_run file;
    good = remaining_in_run-AllGood;
    ended = λ it v h. remaining_in_run-ended file it h;
    steps = λ it v h.
        let (it', rec, e, r, v', same) = next_in_run-IsInRun file it v.0 h in
        (it', rec, e, r, (v', same ∙ v.1));
  }

  records_left-length :
      (its : List RunIterator) → length (remaining_all c run_source its) ≡ records_left its
  unfolding records_left
  records_left-length [] = refl
  records_left-length (it ∷ its) = omega (
    arith,
    length-append (remaining_in_run file it) (remaining_all c run_source its),
    length-records_from it.record_size file (it.start_pos + it.pos) (it.run_length - it.pos),
    records_left-length its,
  )

  -- On valid iterators the merge returns, and writes the records that they have left, in order if
  -- each run is.
  pub kway_merge-Sorted :
      (its : List RunIterator)
      → AllValid c run_source its
      → (out : List Rec) × (kway_merge c.less its file ≡ ok out)
        × Rearranges c.Good (remaining_all c run_source its) out
        × (AllSorted c run_source its → Sorted c.lt out)
  unfolding kway_merge
  kway_merge-Sorted its v =
      merge_all-Sorted c run_source its (records_left its) v
        (omega (arith, records_left-length its))
