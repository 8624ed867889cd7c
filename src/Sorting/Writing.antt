-- ===== src/Sorting/Writing.antt =====
-- The constructor of `RunIterator` and `write_records` of a2/library.cc: reading a run from its start
-- to its end.
use native.Mathlib.Nat.{div-add-mod', div-zero}
use database_assignments.Base.{
  ℕ, zero, suc, ◌+◌, ◌-◌, ◌*◌, ◌/◌, ◌≤◌, ◌<◌, ◌≡◌, refl, sym, ap, ap₂, ◌∙◌, false, List, arith, ok,
  stop, exit_failure, division_by_zero, ◌==◌, ◌>>=◌, inl, inr, Bool-cases, length, ltb, le→ltb,
  ltb→le, if◌then◌else◌,
}
use database_assignments.Sorting.{Schema}
use database_assignments.Sorting.Runs.{
  RunIterator, new_run_iterator, has_next_in_run, write_from, write_records, fwrite_items,
}
use database_assignments.Sorting.Records.{records_from, length-records_from}
use database_assignments.Sorting.Delivery.{
  IsIn, IsInRun, remaining_in_run, remaining_in_run-ended, next_in_run-IsInRun,
}

-- A record that a buffer has room for has bytes.
pub size_not_zero : (size buf_size : ℕ) → 0 < buf_size / size → (size == 0) ≡ false
size_not_zero zero buf_size room = absurd (omega (arith, div-zero buf_size))
size_not_zero (suc size) buf_size room = ground arith

module _ (file : List ℕ) where
  length-remaining_in_run :
      (it : RunIterator) → length (remaining_in_run file it) ≡ it.run_length - it.pos
  length-remaining_in_run it =
      length-records_from it.record_size file (it.start_pos + it.pos) (it.run_length - it.pos)

  write_from-remaining_in_run :
      (fuel : ℕ) (it : RunIterator)
      → IsInRun file it
      → length (remaining_in_run file it) ≡ fuel
      → write_from fuel file it ≡ ok (fwrite_items (remaining_in_run file it))
  unfolding write_from fwrite_items has_next_in_run
  write_from-remaining_in_run zero it v e =
      let over : has_next_in_run it ≡ false =
        le→ltb it.pos it.run_length (omega (arith, e, length-remaining_in_run it)) in
      rw (over, remaining_in_run-ended file it over) refl
  write_from-remaining_in_run (suc fuel) it v e = elim (Bool-cases (has_next_in_run it)) [
    | inl h ↦
        let (it', rec, next, r, v', _) = next_in_run-IsInRun file it v h in
        let fewer : length (remaining_in_run file it') ≡ fuel = omega (arith, e, ap length r) in
        rw (h, next, write_from-remaining_in_run fuel it' v' fewer, r) refl
    | inr h ↦ rw (h, remaining_in_run-ended file it h) refl
  ]

  -- What is left of the run is written.
  pub write_records-remaining_in_run :
      (it : RunIterator)
      → IsInRun file it
      → write_records file it ≡ ok (fwrite_items (remaining_in_run file it))
  unfolding write_records
  write_records-remaining_in_run it v =
      write_from-remaining_in_run (it.run_length - it.pos) it v (length-remaining_in_run it)

  module _ (memory : List ℕ) (schema : Schema) (buf_size start n : ℕ) where
    -- A new iterator has all the records of the run left.
    pub new_run_iterator-IsInRun :
        0 < buf_size / schema.record_size
        → buf_size ≤ length memory
        → (0 < n → (start + n) * schema.record_size ≤ length file)
        → (it : RunIterator) × (new_run_iterator start n buf_size memory schema ≡ ok it)
          × IsInRun file it
          × (remaining_in_run file it ≡ records_from schema.record_size file start n)
          × (it.record_size ≡ schema.record_size)
    unfolding new_run_iterator
    new_run_iterator-IsInRun room enough inside =
        let per_buf : ℕ = buf_size / schema.record_size in
        let it : RunIterator = record {
          start_pos = start;
          run_length = n;
          buf_size = buf_size;
          record_size = schema.record_size;
          read_buf = memory;
          pos = 0;
          buf_no = 0;
          rec_per_buf = per_buf;
        } in
        let some_room : 0 < per_buf = room in
        let v : IsIn file it 0 0 = record {
          position = omega arith;
          offset = some_room;
          buffer = omega (arith, div-add-mod' buf_size schema.record_size);
          inside = inside;
          block = inl (refl, refl);
        } in
        (
          it,
          rw (size_not_zero schema.record_size buf_size room, le→ltb per_buf 1 some_room) refl,
          (0, 0, v),
          ap₂ (λ k m. records_from schema.record_size file k m) (omega arith) (omega arith),
          refl,
        )

    run_copied :
        0 < buf_size / schema.record_size
        → buf_size ≤ length memory
        → (start + n) * schema.record_size ≤ length file
        → (new_run_iterator start n buf_size memory schema >>= write_records file)
          ≡ ok (fwrite_items (records_from schema.record_size file start n))
    run_copied room enough inside =
        let (it, made, v, all, _) = new_run_iterator-IsInRun room enough (λ pos. inside) in
        ap (λ r. r >>= write_records file) made
        ∙ write_records-remaining_in_run it v
        ∙ ap (λ l. ok (fwrite_items l)) all

    -- A new iterator over a run that lies in the file, with the memory for its buffer, and
    -- write_records on it: records of no bytes end in a division by zero, a buffer that has no room
    -- for a record in an exit, and otherwise the records of the run are written, all of them and in
    -- order.
    pub new_run_iterator-write_records :
        buf_size ≤ length memory
        → (start + n) * schema.record_size ≤ length file
        → (new_run_iterator start n buf_size memory schema >>= write_records file) ≡ (
            if schema.record_size == 0
            then stop division_by_zero
            else if ltb (buf_size / schema.record_size) 1
            then stop exit_failure
            else ok (fwrite_items (records_from schema.record_size file start n)))
    unfolding new_run_iterator
    new_run_iterator-write_records enough inside = elim (Bool-cases (schema.record_size == 0)) [
      | inl z ↦ rw z refl
      | inr z ↦ elim (Bool-cases (ltb (buf_size / schema.record_size) 1)) [
        | inl h ↦ rw (z, h) refl
        | inr h ↦ run_copied (ltb→le _ _ h) enough inside ∙ sym (rw (z, h) refl)
      ]
    ]
