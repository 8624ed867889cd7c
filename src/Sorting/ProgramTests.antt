-- ===== src/Sorting/ProgramTests.antt =====
-- The merge sort of a2/msort.cc on a small file.
use database_assignments.Base.{
  ℕ, ◌%◌, ◌^◌, ◌≡◌, refl, Bool, false, true, some, List, [], ◌∷◌, arith, Run, ok, inl, inr, length,
  replicate, take, drop, ◌*◌, ◌>>=◌,
}
use database_assignments.Sorting.{
  string, RecordComparator, string_cmp, less_than, attr_buffer, terminate, get_attr, set_schema,
  type_of, equal_bytes, set_schema_sort_attr, find_attr, push_sort_attrs, new_comparator,
  comparison_functions,
}
use database_assignments.CString.{tokens, split_tokens, characters}
use database_assignments.Sorting.Runs.{
  RunIterator, new_run_iterator, next_in_run, has_next_in_run, write_records, fwrite_items, mk_runs,
}
use database_assignments.Sorting.Records.{records_from}
use database_assignments.Sorting.RunLists.{RunsSorted}
use database_assignments.Sorting.Delivery.{IsInRun, remaining_in_run, next_in_run-IsInRun}
use database_assignments.Sorting.Writing.{new_run_iterator-write_records}
use database_assignments.Sorting.Group.{HasBuffers}
use database_assignments.Sorting.Initial.{Sorts, mk_runs-MakesRuns}
use database_assignments.Sorting.Passes.{merge_passes-Sorted}
use database_assignments.Sorting.Merge.{
  Column, add_columns, record_size_of, merge_passes, msort_main,
}
use database_assignments.Sorting.Order.{Rec, Comparison, AllGood, Rearranges, Sorted}
use database_assignments.Sorting.Signs.{Compares, is_below}
use database_assignments.Sorting.Values.{float_sign}
use database_assignments.Sorting.Comparator.{GoodRecord, order, comparator}
use database_assignments.Sorting.Program.{Runs, msort_main-Sorted}
use database_assignments.Sorting.Tests.{list_has_next, list_next, singles, merge_sort-Sorts}
use database_assignments.Sorting.Merge.{merge_all}

abbrev no_floats : List ℕ → List ℕ → Bool
no_floats a b = false

-- One column "a" of one character.
abbrev one_column : List Column
one_column = (97 ∷ [], 115 ∷ 116 ∷ 114 ∷ 105 ∷ 110 ∷ 103 ∷ [], 1) ∷ []

abbrev by_character : RecordComparator
by_character = record {
  cmp_fns = string_cmp ∷ [];
  schema = record {
    attrs = record { name = 97 ∷ []; type = string; length = 1 } ∷ [];
    sort_attrs = 0 ∷ [];
    data_offset = 0 ∷ [];
    record_size = 2;
  };
}

abbrev zeros : List ℕ
zeros = replicate 40 0

abbrev five_records : List ℕ
five_records = 99 ∷ 0 ∷ 97 ∷ 0 ∷ 101 ∷ 0 ∷ 98 ∷ 0 ∷ 100 ∷ 0 ∷ []

abbrev list_qsort : RecordComparator → List Rec → Run (List Rec)
list_qsort rec_cmp rs =
    merge_all list_has_next list_next (less_than rec_cmp) (length rs) (singles rs)

floats_ordered : Compares (λ v. Unit) (float_sign no_floats)
floats_ordered = record {
  same_self = λ a g. refl;
  flips = λ a b g h. refl;
  transitive = λ a b c g h k p q. refl;
}

made : new_comparator no_floats by_character.schema.attrs by_character.schema ≡ ok by_character
unfolding new_comparator comparison_functions
made = refl

five_good :
    AllGood
      (GoodRecord no_floats (λ v. Unit {0}) by_character)
      ((99 ∷ 0 ∷ []) ∷ (97 ∷ 0 ∷ []) ∷ (101 ∷ 0 ∷ []) ∷ (98 ∷ 0 ∷ []) ∷ (100 ∷ 0 ∷ []) ∷ [])
unfolding attr_buffer terminate get_attr
five_good = (
  (refl, (refl, inr (inl refl), tt)),
  (
    (refl, (refl, inr (inl refl), tt)),
    (
      (refl, (refl, inr (inl refl), tt)),
      ((refl, (refl, inr (inl refl), tt)), ((refl, (refl, inr (inl refl), tt)), tt)),
    ),
  ),
)

runs :
    Runs list_qsort no_floats
      (λ v. Unit)
      zeros
      string
      one_column
      five_records
      6
      2
      (97 ∷ 0 ∷ [])
      by_character
unfolding set_schema_sort_attr tokens split_tokens characters push_sort_attrs find_attr equal_bytes
    add_columns set_schema type_of record_size_of comparator
runs = record {
  floats = floats_ordered;
  attributes_set = refl;
  made = made;
  sorts = merge_sort-Sorts (comparator no_floats (λ v. Unit) by_character floats_ordered made);
  ways = omega arith;
  size_pos = omega arith;
  room = omega arith;
  enough = omega arith;
  capacity_small = omega arith;
  ways_small = omega arith;
  few = omega arith;
  good = five_good;
}

msort_main-Sorted_example :
    (out : List Rec) × (msort_main list_qsort no_floats zeros string true
        (some one_column)
        (some five_records)
        6
        2
        (97 ∷ 0 ∷ [])
      ≡ ok (fwrite_items out))
    × Rearranges
        (GoodRecord no_floats (λ v. Unit {0}) by_character)
        ((99 ∷ 0 ∷ []) ∷ (97 ∷ 0 ∷ []) ∷ (101 ∷ 0 ∷ []) ∷ (98 ∷ 0 ∷ []) ∷ (100 ∷ 0 ∷ []) ∷ [])
        out
    × Sorted (λ a b. is_below (order no_floats (λ v. Unit {0}) by_character a b)) out
msort_main-Sorted_example =
    msort_main-Sorted list_qsort no_floats (λ v. Unit) zeros string one_column five_records 6 2
      (97 ∷ 0 ∷ []) by_character runs

abbrev records_ordered : Comparison
records_ordered = comparator no_floats (λ v. Unit {0}) by_character floats_ordered made

five_records_good : AllGood records_ordered.Good (records_from 2 five_records 0 5)
unfolding comparator
five_records_good = five_good

records_sized : (r : Rec) → records_ordered.Good r → length r ≡ 2
unfolding comparator
records_sized r g = g.0

list_qsort-Sorts : Sorts records_ordered (list_qsort by_character)
unfolding comparator
list_qsort-Sorts = merge_sort-Sorts records_ordered

mk_runs-MakesRuns_example :
    (out : List Rec) × (mk_runs (list_qsort by_character) five_records 3 by_character.schema
      ≡ ok (fwrite_items out, length out % 2 ^ 32))
    × Rearranges records_ordered.Good
        ((99 ∷ 0 ∷ []) ∷ (97 ∷ 0 ∷ []) ∷ (101 ∷ 0 ∷ []) ∷ (98 ∷ 0 ∷ []) ∷ (100 ∷ 0 ∷ []) ∷ [])
        out
    × RunsSorted records_ordered.lt 3 out
mk_runs-MakesRuns_example =
    mk_runs-MakesRuns 2 (omega arith) records_ordered (list_qsort by_character) list_qsort-Sorts 2
      by_character.schema five_records refl five_records_good

take_one-Sorted : (lt : Rec → Rec → Bool) (rs : List Rec) → Sorted lt (take 1 rs)
take_one-Sorted lt [] = tt
take_one-Sorted lt (r ∷ rs) = (tt, tt)

buffers : HasBuffers by_character.schema (0 ∷ 0 ∷ []) 2 2
buffers = record { sizes = refl; buffer = refl; room = omega arith }

merge_passes-Sorted_example :
    (out : List Rec) × (merge_passes records_ordered.less
        (0 ∷ 0 ∷ [])
        by_character.schema
        2
        2
        5
        10
        1
        (fwrite_items (records_from 2 five_records 0 5))
        []
      ≡ ok (fwrite_items out))
    × Rearranges records_ordered.Good (records_from 2 five_records 0 5) out
    × Sorted records_ordered.lt out
merge_passes-Sorted_example =
    merge_passes-Sorted records_ordered 2 (omega arith) records_sized (0 ∷ 0 ∷ [])
      by_character.schema 2 buffers 5 2 (omega arith) (omega arith) 10 1
      (records_from 2 five_records 0 5) [] (omega arith) five_records_good refl
      (λ j. take_one-Sorted records_ordered.lt (drop (j * 1) (records_from 2 five_records 0 5)))
      (omega arith) (omega arith)

-- The run of the records from the second to the fourth, read through a buffer of two records.
abbrev middle_run : RunIterator
middle_run = record {
  start_pos = 1;
  run_length = 3;
  buf_size = 4;
  record_size = 2;
  read_buf = 0 ∷ 0 ∷ 0 ∷ 0 ∷ [];
  pos = 0;
  buf_no = 0;
  rec_per_buf = 2;
}

middle_run-IsInRun : IsInRun five_records middle_run
middle_run-IsInRun = (
  0,
  0,
  record {
    position = refl;
    offset = omega arith;
    buffer = omega arith;
    inside = λ pos. omega arith;
    block = inl (refl, refl);
  },
)

middle_run_goes_on : has_next_in_run middle_run ≡ true
unfolding has_next_in_run
middle_run_goes_on = refl

next_in_run-IsInRun_example :
    (it' : RunIterator) × (rec : Rec) × (next_in_run five_records middle_run ≡ ok (it', rec))
    × ((97 ∷ 0 ∷ []) ∷ (101 ∷ 0 ∷ []) ∷ (98 ∷ 0 ∷ []) ∷ []
        ≡ rec ∷ remaining_in_run five_records it')
    × IsInRun five_records it'
    × (it'.record_size ≡ 2)
next_in_run-IsInRun_example =
    next_in_run-IsInRun five_records middle_run middle_run-IsInRun middle_run_goes_on

new_run_iterator-write_records_example :
    (new_run_iterator 1 3 4 (0 ∷ 0 ∷ 0 ∷ 0 ∷ []) by_character.schema >>= write_records five_records)
    ≡ ok (fwrite_items ((97 ∷ 0 ∷ []) ∷ (101 ∷ 0 ∷ []) ∷ (98 ∷ 0 ∷ []) ∷ []))
new_run_iterator-write_records_example =
    new_run_iterator-write_records five_records (0 ∷ 0 ∷ 0 ∷ 0 ∷ []) by_character.schema 4 1 3
      (omega arith) (omega arith)
