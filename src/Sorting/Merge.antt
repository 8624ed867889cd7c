-- ===== src/Sorting/Merge.antt =====
-- a2/msort.cc: the k-way merge, its passes over the file, and the program.
use database_assignments.Base.{
  ℕ, zero, suc, ◌+◌, ◌-◌, ◌*◌, ◌/◌, ◌%◌, Bool, true, false, Option, none, some, List, [], ◌∷◌, ◌++◌,
  Run, ok, stop, out_of_bounds, exit_failure, division_by_zero, ◌==◌, out_of_fuel, ◌>>=◌, ◌>>◌,
  assert, load, ltb, if◌then◌else◌, length, set, take, drop,
}
use database_assignments.Sorting.{
  AttributeType, Attribute, Schema, RecordComparator, set_schema, set_schema_sort_attr,
  new_comparator, less_than,
}
use database_assignments.Sorting.Runs.{
  RunIterator, in_int, new_run_iterator, next_in_run, has_next_in_run, mk_runs, fwrite_items,
}

-- The merge over any iterators; `less` is `operator()` of the comparator.
module _ {It : Type 0} (has_next : It → Bool) (next : It → Run (It × List ℕ))
    (less : List ℕ → List ℕ → Run Bool) where
  -- `it->has_next() ? it->next() : NULL`
  unfoldable pub fetch : It → Run (It × Option (List ℕ))
  fetch it =
      let step : Run (It × Option (List ℕ)) = do (it', rec) ← next it; ok (it', some rec)
      in if has_next it then step else ok (it, none)

  -- The elements of `iterators` and `buf`, side by side.
  unfoldable pub fetch_all : List It → Run (List (It × Option (List ℕ)))
  fetch_all [] = ok []
  fetch_all (it ∷ its) = do slot ← fetch it; rest ← fetch_all its; ok (slot ∷ rest)

  -- `count(buf, buf + k, NULL) == k`
  unfoldable pub all_null : List (It × Option (List ℕ)) → Bool
  all_null [] = true
  all_null ((it, none) ∷ slots) = all_null slots
  all_null ((it, some rec) ∷ slots) = false

  -- The first least record from the `i`th on, `min` being the least before it.
  unfoldable pub min_from :
      ℕ → List (It × Option (List ℕ)) → Option (ℕ × List ℕ) → Run (Option (ℕ × List ℕ))
  min_from i [] min = ok min
  min_from i ((it, none) ∷ slots) min = min_from (i + 1) slots min
  min_from i ((it, some rec) ∷ slots) none = min_from (i + 1) slots (some (i, rec))
  min_from i ((it, some rec) ∷ slots) (some min) = do
    smaller ← less rec min.1
    min_from (i + 1) slots (some (if smaller then (i, rec) else min))

  -- The loop: the records in the order in which they are written.
  unfoldable pub merge_loop : ℕ → List (It × Option (List ℕ)) → Run (List (List ℕ))
  merge_loop zero slots = if all_null slots then ok [] else stop out_of_fuel
  merge_loop (suc fuel) slots =
      let rest : Run (List (List ℕ)) = do
        min ← min_from 0 slots none
        (i, rec) ← elim min [ none ↦ stop out_of_bounds | some m ↦ ok m ]
        (it, _) ← load slots i
        slot ← fetch it
        written ← merge_loop fuel (set slots i slot)
        ok (rec ∷ written)
      in if all_null slots then ok [] else rest

  -- Both in turn, with so many rounds for the loop.
  unfoldable pub merge_all : ℕ → List It → Run (List (List ℕ))
  merge_all fuel iterators = do slots ← fetch_all iterators; merge_loop fuel slots

-- The records that the iterators have left.
unfoldable pub records_left : List RunIterator → ℕ
records_left [] = 0
records_left (it ∷ its) = (it.run_length - it.pos) + records_left its

unfoldable pub kway_merge :
    (List ℕ → List ℕ → Run Bool) → List RunIterator → List ℕ → Run (List (List ℕ))
kway_merge less iterators file =
    merge_all has_next_in_run (next_in_run file) less (records_left iterators) iterators

-- The `k` iterators over the runs of length `n` from `offset` on, and what `unprocessed` is after.
unfoldable pub make_iterators : List ℕ → Schema → ℕ → ℕ → ℕ → ℕ → ℕ → ℕ → Run (List RunIterator × ℕ)
make_iterators memory schema buf_size n offset zero i unprocessed = ok ([], unprocessed)
make_iterators memory schema buf_size n offset (suc rounds) i unprocessed = do
  let last = ltb unprocessed n
  let run_length = if last then unprocessed % n else n
  let unprocessed' = (if last then n else unprocessed) - n
  jump ← in_int (i * n)
  start ← in_int (offset + jump)
  it ← new_run_iterator start run_length buf_size memory schema
  (its, left) ← make_iterators memory schema buf_size n offset rounds (i + 1) unprocessed'
  ok (it ∷ its, left)

-- The loop over the groups of `k` runs: what is written.
unfoldable pub merge_groups :
    (List ℕ → List ℕ → Run Bool)
    → List ℕ
    → Schema
    → ℕ
    → ℕ
    → ℕ
    → List ℕ
    → ℕ
    → ℕ
    → ℕ
    → ℕ
    → Run (List ℕ)
merge_groups less memory schema buf_size k n file num_records zero offset unprocessed =
    if ltb offset num_records then stop out_of_fuel else ok []
merge_groups less memory schema buf_size k n file num_records (suc fuel) offset unprocessed =
    let group : Run (List ℕ) = do
      (iterators, left) ← make_iterators memory schema buf_size n offset k 0 unprocessed
      written ← kway_merge less iterators file
      step ← in_int (n * k)
      offset' ← in_int (offset + step)
      rest ← merge_groups less memory schema buf_size k n file num_records fuel offset' left
      ok (fwrite_items written ++ rest)
    in if ltb offset num_records then group else ok []

-- The passes: `tmp_in` is the file with sorted runs of length `n`, and `tmp_out` is written over.
unfoldable pub merge_passes :
    (List ℕ → List ℕ → Run Bool)
    → List ℕ
    → Schema
    → ℕ
    → ℕ
    → ℕ
    → ℕ
    → ℕ
    → List ℕ
    → List ℕ
    → Run (List ℕ)
merge_passes less memory schema buf_size k num_records zero n tmp_in tmp_out = do
  bound ← in_int (num_records * k)
  if ltb n bound then stop out_of_fuel else ok tmp_in
merge_passes less memory schema buf_size k num_records (suc fuel) n tmp_in tmp_out =
    let pass : Run (List ℕ) = do
      out ←
          merge_groups less memory schema buf_size k n tmp_in num_records num_records 0 num_records
      n' ← in_int (n * k)
      merge_passes less memory schema buf_size k num_records fuel n'
          (out ++ drop (length out) tmp_out) tmp_in
    in do bound ← in_int (num_records * k); if ltb n bound then pass else ok tmp_in

-- An object of the schema file: the name, the type and the length.
abbrev pub Column : Type 0
Column = List ℕ × List ℕ × ℕ

-- The loop over the objects of the schema file.
unfoldable pub add_columns : AttributeType → ℕ → List Column → Schema → Schema
add_columns memory total_length [] schema = schema
add_columns memory total_length ((name, type, attr_len) ∷ columns) schema =
    let (schema', len) = set_schema memory name type attr_len schema in
    add_columns memory (total_length + (len + 1)) columns
      (record schema' { data_offset = schema'.data_offset ++ total_length ∷ [] })

unfoldable pub record_size_of : List Attribute → ℕ
record_size_of [] = 0
record_size_of (attr ∷ attrs) = (attr.length + 1) + record_size_of attrs

abbrev pub empty_schema : Schema
empty_schema = record { attrs = []; sort_attrs = []; data_offset = []; record_size = 0 }

-- The sort itself, after the schema is set up: the sorted file. A pass multiplies `n` by `k`, so
-- that `num_records * k` passes reach the end if a run is not empty.
unfoldable pub sort_file :
    (RecordComparator → List (List ℕ) → Run (List (List ℕ)))
    → List ℕ
    → RecordComparator
    → ℕ
    → ℕ
    → List ℕ
    → Run (List ℕ)
sort_file qsort memory rec_cmp mem_capacity k in_file = do
  let schema = rec_cmp.schema
  run_length ←
      if schema.record_size == 0
      then stop division_by_zero
      else ok (mem_capacity / schema.record_size)
  (runs, count) ← mk_runs (qsort rec_cmp) in_file run_length schema
  num_records ← in_int count
  chunks ← in_int (k + 1)
  buf_size ← in_int (mem_capacity / chunks)
  n ← in_int run_length
  merge_passes (less_than rec_cmp) (take buf_size memory) schema buf_size k num_records
      (num_records * k) n runs []

-- What is copied to the output file; `columns` is the schema file as jsoncpp reads it, `none` if it
-- cannot. `enough` is whether there are six arguments. `memory` is what new arrays hold.
unfoldable pub msort_main :
    (RecordComparator → List (List ℕ) → Run (List (List ℕ)))
    → (List ℕ → List ℕ → Bool)
    → List ℕ
    → AttributeType
    → Bool
    → Option (List Column)
    → Option (List ℕ)
    → ℕ
    → ℕ
    → List ℕ
    → Run (List ℕ)
msort_main qsort float_less memory type enough columns in_file mem_capacity k attributes = do
  if enough then ok tt else stop exit_failure
  assert (ltb 0 mem_capacity)
  assert (ltb 1 k)
  columns' ← elim columns [ none ↦ stop exit_failure | some c ↦ ok c ]
  let schema = add_columns type 0 columns' empty_schema
  let sized = record schema { record_size = record_size_of schema.attrs }
  schema' ← set_schema_sort_attr sized attributes
  rec_cmp ← new_comparator float_less schema'.attrs schema'
  file ← elim in_file [ none ↦ stop exit_failure | some file ↦ ok file ]
  sort_file qsort memory rec_cmp mem_capacity k file
