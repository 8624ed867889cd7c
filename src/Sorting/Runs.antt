-- ===== src/Sorting/Runs.antt =====
-- a2/library.h and a2/library.cc: making sorted runs, and `RunIterator`, which reads a run.
use database_assignments.Base.{
  ℕ, zero, suc, ◌+◌, ◌*◌, ◌-◌, ◌/◌, ◌%◌, Bool, List, [], ◌∷◌, ◌++◌, Run, ok, stop, out_of_bounds,
  exit_failure, division_by_zero, out_of_fuel, ◌>>=◌, ◌^◌, int_overflow, ◌<◌, ◌≡◌, lt→ltb, refl,
  leb, ltb, if◌then◌else◌, ◌==◌, length, take, drop, splice,
}
use database_assignments.Sorting.{Schema}

-- The number as an `int`. Beyond the largest one the arithmetic of the source is undefined, or the
-- conversion cuts the number off; the model ends there.
unfoldable pub in_int : ℕ → Run ℕ
in_int v = if ltb v (2 ^ 31) then ok v else stop int_overflow

pub in_int-ok : (v : ℕ) → v < 2 ^ 31 → in_int v ≡ ok v
unfolding in_int
in_int-ok v small = rw (lt→ltb v (2 ^ 31) small) refl

-- The whole items that `fread(buf, size, count, file)` reads.
unfoldable pub fread_items : ℕ → ℕ → List ℕ → List (List ℕ)
fread_items zero size file = []
fread_items (suc count) size file =
    let rest = fread_items count size (drop size file) in
    if leb size (length file) then take size file ∷ rest else []

-- The items that `fwrite` writes.
unfoldable pub fwrite_items : List (List ℕ) → List ℕ
fwrite_items [] = []
fwrite_items (item ∷ items) = item ++ fwrite_items items

-- A round of the loop of `mk_runs`, with the items that have been read and the rounds that follow;
-- `qsort` is the C library's, with `qsort_cmp`.
unfoldable pub sort_run :
    (List (List ℕ) → Run (List (List ℕ))) → Run (List ℕ × ℕ) → List (List ℕ) → Run (List ℕ × ℕ)
sort_run qsort rest [] = ok ([], 0)
sort_run qsort rest (item ∷ items) = do
  sorted ← qsort (item ∷ items)
  (out, num_records) ← rest
  ok (fwrite_items sorted ++ out, (length (item ∷ items) + num_records) % 2 ^ 32)

unfoldable pub make_runs :
    (List (List ℕ) → Run (List (List ℕ))) → ℕ → ℕ → ℕ → List ℕ → Run (List ℕ × ℕ)
make_runs qsort zero run_length record_size in_file = stop out_of_fuel
make_runs qsort (suc fuel) run_length record_size in_file =
    let rest =
      make_runs qsort fuel run_length record_size (drop (run_length * record_size) in_file) in
    sort_run qsort rest (fread_items run_length record_size in_file)

-- What is written, and the number of records, which is an `int` that wraps around: its pattern. Each round but the last reads a record at least, so
-- that the rounds do not run out if records are not empty.
unfoldable pub mk_runs :
    (List (List ℕ) → Run (List (List ℕ))) → List ℕ → ℕ → Schema → Run (List ℕ × ℕ)
mk_runs qsort in_file run_length schema =
    make_runs qsort (length in_file + 1) run_length schema.record_size in_file

pub record RunIterator : Type 0 where
  pub start_pos : ℕ
  pub run_length : ℕ
  pub buf_size : ℕ
  pub record_size : ℕ
  pub read_buf : List ℕ
  pub pos : ℕ
  pub buf_no : ℕ
  pub rec_per_buf : ℕ

-- The constructor; `read_buf` is the new array as it stands in memory.
unfoldable pub new_run_iterator : ℕ → ℕ → ℕ → List ℕ → Schema → Run RunIterator
new_run_iterator start_pos run_length buf_size read_buf schema =
    let rec_per_buf = buf_size / schema.record_size in
    if schema.record_size == 0
    then stop division_by_zero
    else if ltb rec_per_buf 1
    then stop exit_failure
    else ok (record {
      start_pos = start_pos;
      run_length = run_length;
      buf_size = buf_size;
      record_size = schema.record_size;
      read_buf = read_buf;
      pos = 0;
      buf_no = 0;
      rec_per_buf = rec_per_buf;
    })

-- `fread` into the buffer where a new one begins; a short read leaves its end as it was.
unfoldable pub refill : List ℕ → RunIterator → RunIterator
refill file it =
    let offset = (it.start_pos + it.buf_no * it.rec_per_buf) * it.record_size in
    let block = take (it.rec_per_buf * it.record_size) (drop offset file) in
    if it.pos % it.rec_per_buf == 0
    then record it { read_buf = splice it.read_buf 0 block; buf_no = it.buf_no + 1 }
    else it

-- The record is a pointer into the buffer; the model copies its bytes. The callers are done with
-- a record before they ask the same iterator for another.
unfoldable pub next_in_run : List ℕ → RunIterator → Run (RunIterator × List ℕ)
next_in_run file it =
    let it' = refill file it in
    let first = (it'.pos % it'.rec_per_buf) * it'.record_size in
    if leb (first + it'.record_size) (length it'.read_buf)
    then ok (record it' { pos = it'.pos + 1 }, take it'.record_size (drop first it'.read_buf))
    else stop out_of_bounds

unfoldable pub has_next_in_run : RunIterator → Bool
has_next_in_run it = ltb it.pos it.run_length

-- The loop over the rest of the run: what is written.
unfoldable pub write_from : ℕ → List ℕ → RunIterator → Run (List ℕ)
write_from zero file it = if has_next_in_run it then stop out_of_fuel else ok []
write_from (suc fuel) file it =
    let rest : Run (List ℕ) = do
      (it', rec) ← next_in_run file it
      out ← write_from fuel file it'
      ok (rec ++ out)
    in if has_next_in_run it then rest else ok []

unfoldable pub write_records : List ℕ → RunIterator → Run (List ℕ)
write_records file it = write_from (it.run_length - it.pos) file it
