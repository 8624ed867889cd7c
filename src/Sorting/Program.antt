-- ===== src/Sorting/Program.antt =====
-- `main` of a2/msort.cc, from its arguments to the sorted file.
use native.Mathlib.Nat.{zero-div}
use database_assignments.Base.{
  ℕ, zero, suc, ◌+◌, ◌/◌, ◌≤◌, ◌<◌, ◌^◌, ◌*◌, ◌≡◌, refl, ap, Bool, true, some, List, arith, Run, ok,
  lt→ltb, length,
}
use database_assignments.Sorting.{
  AttributeType, Schema, RecordComparator, set_schema_sort_attr, new_comparator,
}
use database_assignments.Sorting.Runs.{fwrite_items}
use database_assignments.Sorting.Merge.{
  Column, add_columns, record_size_of, empty_schema, msort_main,
}
use database_assignments.Sorting.Order.{Rec, AllGood, Rearranges, Sorted}
use database_assignments.Sorting.Records.{records_from}
use database_assignments.Sorting.Initial.{Sorts}
use database_assignments.Sorting.File.{CanSort, sort_file-Sorted}
use database_assignments.Sorting.Signs.{Compares, is_below}
use database_assignments.Sorting.Values.{float_sign}
use database_assignments.Sorting.Comparator.{GoodRecord, order, comparator}

-- The schema that the columns describe, no attributes to sort by being set.
abbrev pub schema_of : AttributeType → List Column → Schema
schema_of type columns =
    let schema = add_columns type 0 columns empty_schema in
    record schema { record_size = record_size_of schema.attrs }

capacity_pos : (m k size : ℕ) → 0 < (m / (k + 1)) / size → 0 < m
capacity_pos zero k size h =
    let none : 0 / (k + 1) ≡ 0 = zero-div (k + 1) in
    absurd (omega (arith, ap (λ q. q / size) none, zero-div size))
capacity_pos (suc m) k size h = omega arith

module _ (qsort : RecordComparator → List Rec → Run (List Rec))
    (float_less : List ℕ → List ℕ → Bool) (IsNumber : List ℕ → Type 0) (memory : List ℕ)
    (type : AttributeType) (columns : List Column) (in_file : List ℕ) (mem_capacity k : ℕ)
    (attributes : List ℕ) (rec_cmp : RecordComparator) where
  abbrev size : ℕ
  size = rec_cmp.schema.record_size

  abbrev Good : Rec → Type 0
  Good = GoodRecord float_less IsNumber rec_cmp

  abbrev lt : Rec → Rec → Bool
  lt a b = is_below (order float_less IsNumber rec_cmp a b)

  -- What the program is given, and what is assumed of the C library.
  pub record Runs : Type 0 where
    pub floats : Compares IsNumber (float_sign float_less)
    pub attributes_set :
        set_schema_sort_attr (schema_of type columns) attributes ≡ ok rec_cmp.schema
    pub made : new_comparator float_less rec_cmp.schema.attrs rec_cmp.schema ≡ ok rec_cmp
    pub sorts : Sorts (comparator float_less IsNumber rec_cmp floats made) (qsort rec_cmp)
    pub ways : 1 < k
    pub size_pos : 0 < size
    pub room : 0 < (mem_capacity / (k + 1)) / size
    pub enough : mem_capacity / (k + 1) ≤ length memory
    pub capacity_small : mem_capacity < 2 ^ 31
    pub ways_small : k + 1 < 2 ^ 31
    pub few : length in_file / size + ((length in_file / size) * k) * k < 2 ^ 31
    pub good : AllGood Good (records_from size in_file 0 (length in_file / size))

  -- If there are enough arguments and the schema and the input file can be read, the attributes to
  -- sort by are found and the comparator is made for them, k is above one, the records are not
  -- empty, a merge buffer has room for one and memory for itself, the memory capacity and k + 1 are
  -- below 2^31 and so are the number of records and its product with the square of k together,
  -- floats that are numbers are in order, the values in the records are terminated inside the bytes
  -- that are copied and are ones that the comparison functions order, and qsort sorts by the
  -- comparator: the program returns, and what it writes is the whole records of the input file,
  -- rearranged in the comparator's order.
  pub msort_main-Sorted :
      Runs
      → (out : List Rec) × (msort_main qsort float_less memory type true
            (some columns)
            (some in_file)
            mem_capacity
            k
            attributes
          ≡ ok (fwrite_items out))
        × Rearranges Good (records_from size in_file 0 (length in_file / size)) out
        × Sorted lt out
  unfolding msort_main comparator
  msort_main-Sorted r =
      let c = comparator float_less IsNumber rec_cmp r.floats r.made in
      let can : CanSort qsort memory rec_cmp mem_capacity k in_file c = record {
        compares = refl;
        sorts = r.sorts;
        ways = r.ways;
        size_pos = r.size_pos;
        sized = λ a g. g.0;
        room = r.room;
        enough = r.enough;
        capacity_small = r.capacity_small;
        ways_small = r.ways_small;
        few = r.few;
        good = r.good;
      } in
      let (out, sorted, all, in_order) =
        sort_file-Sorted qsort memory rec_cmp mem_capacity k in_file c can in
      let capacity : 0 < mem_capacity = capacity_pos mem_capacity k size r.room in
      (
        out,
        rw (lt→ltb _ _ capacity, lt→ltb _ _ r.ways, r.attributes_set, r.made, sorted) refl,
        all,
        in_order,
      )
