-- ===== src/Sorting/File.antt =====
-- `main` of a2/msort.cc once the schema is read: the file that is sorted.
use native.Mathlib.Nat.{div-add-mod', mod-lt, mul-le-mul, mul-le-mul_right}
use database_assignments.Base.{
  ℕ, zero, suc, ◌+◌, ◌-◌, ◌*◌, ◌/◌, ◌≤◌, ◌<◌, ◌^◌, ◌%◌, ◌≡◌, refl, sym, ap, subst, ◌∙◌, List, [],
  arith, Run, ok, length, take, length-take-drop,
}
use database_assignments.Sorting.{RecordComparator, less_than}
use database_assignments.Sorting.Runs.{fwrite_items, mk_runs, in_int-ok}
use database_assignments.Sorting.Writing.{size_not_zero}
use database_assignments.Sorting.Merge.{merge_passes, sort_file}
use database_assignments.Sorting.Order.{Rec, Comparison, AllGood, Rearranges, Sorted}
use database_assignments.Sorting.Records.{records_from, length-records_from}
use database_assignments.Sorting.RunLists.{RunsSorted, Rearranges-trans}
use database_assignments.Sorting.Group.{HasBuffers}
use database_assignments.Sorting.Passes.{merge_passes-Sorted}
use database_assignments.Sorting.Initial.{Sorts, mk_runs-MakesRuns}

quotient_pos : (a b size : ℕ) → a ≤ b → 0 < size → 0 < a / size → 0 < b / size
quotient_pos a b size h pos room =
    let one : 1 * size ≤ (a / size) * size = mul-le-mul_right size room in
    let enough : size ≤ b = omega (arith, div-add-mod' a size) in positive (b / size) refl enough
  where
    positive : (q : ℕ) → q ≡ b / size → size ≤ b → 0 < q
    positive zero e enough =
        let none : (b / size) * size ≡ 0 * size = ap (λ t. t * size) (sym e) in
        absurd (omega (arith, none, div-add-mod' b size, mod-lt b pos))
    positive (suc q) e enough = omega arith

-- What is assumed of the comparator, the C library's `qsort`, the sizes and the file.
pub record CanSort (qsort : RecordComparator → List Rec → Run (List Rec)) (memory : List ℕ)
    (rec_cmp : RecordComparator) (mem_capacity k : ℕ) (in_file : List ℕ) (c : Comparison)
    : Type 0 where
  pub compares : c.less ≡ less_than rec_cmp
  pub sorts : Sorts c (qsort rec_cmp)
  pub ways : 1 < k
  pub size_pos : 0 < rec_cmp.schema.record_size
  pub sized : (r : Rec) → c.Good r → length r ≡ rec_cmp.schema.record_size
  pub room : 0 < (mem_capacity / (k + 1)) / rec_cmp.schema.record_size
  pub enough : mem_capacity / (k + 1) ≤ length memory
  pub capacity_small : mem_capacity < 2 ^ 31
  pub ways_small : k + 1 < 2 ^ 31
  pub few :
      length in_file / rec_cmp.schema.record_size
        + ((length in_file / rec_cmp.schema.record_size) * k) * k
      < 2 ^ 31
  pub good : AllGood c.Good (
      records_from rec_cmp.schema.record_size in_file 0
        (length in_file / rec_cmp.schema.record_size))

module _ (qsort : RecordComparator → List Rec → Run (List Rec)) (memory : List ℕ)
    (rec_cmp : RecordComparator) (mem_capacity k : ℕ) (in_file : List ℕ) (c : Comparison)
    (s : CanSort qsort memory rec_cmp mem_capacity k in_file c) where
  abbrev size : ℕ
  size = rec_cmp.schema.record_size

  abbrev buf_size : ℕ
  buf_size = mem_capacity / (k + 1)

  buffers : HasBuffers rec_cmp.schema (take buf_size memory) size buf_size
  buffers = record {
    sizes = refl;
    buffer = length-take-drop memory buf_size 0 (omega (arith, s.enough));
    room = s.room;
  }

  run_length_pos : 0 < mem_capacity / size
  run_length_pos =
      let part : buf_size * 1 ≤ buf_size * (k + 1) =
        mul-le-mul {n₁ = buf_size} (omega arith) (omega arith) in
      quotient_pos buf_size mem_capacity size (omega (arith, div-add-mod' mem_capacity (k + 1)))
        s.size_pos s.room

  -- What follows the runs, where all numbers are small enough for an `int`.
  sort_file-passes :
      (runs : List ℕ) (m : ℕ)
      → m < 2 ^ 31
      → mk_runs (qsort rec_cmp) in_file (mem_capacity / size) rec_cmp.schema ≡ ok (runs, m % 2 ^ 32)
      → sort_file qsort memory rec_cmp mem_capacity k in_file
        ≡ merge_passes
            (less_than rec_cmp)
            (take buf_size memory)
            rec_cmp.schema
            buf_size
            k
            m
            (m * k)
            (mem_capacity / size)
            runs
            []
  unfolding sort_file
  sort_file-passes runs m small made =
      let part : buf_size * 1 ≤ buf_size * (k + 1) =
        mul-le-mul {n₁ = buf_size} (omega arith) (omega arith) in
      let whole_part : (mem_capacity / size) * 1 ≤ (mem_capacity / size) * size =
        mul-le-mul {n₁ = mem_capacity / size} (omega arith) (omega (arith, s.size_pos)) in
      let count : m % 2 ^ 32 ≡ m = omega (arith, small) in
      let chunk : buf_size < 2 ^ 31 =
        omega (arith, s.capacity_small, div-add-mod' mem_capacity (k + 1), part) in
      let run : mem_capacity / size < 2 ^ 31 =
        omega (arith, s.capacity_small, div-add-mod' mem_capacity size, whole_part) in
      rw
        (
          size_not_zero size buf_size s.room,
          made,
          count,
          in_int-ok m small,
          in_int-ok (k + 1) s.ways_small,
          in_int-ok buf_size chunk,
          in_int-ok (mem_capacity / size) run,
        )
        refl

  pub sort_file-Sorted :
      (out : List Rec) × (sort_file qsort memory rec_cmp mem_capacity k in_file
        ≡ ok (fwrite_items out))
      × Rearranges c.Good (records_from size in_file 0 (length in_file / size)) out
      × Sorted c.lt out
  sort_file-Sorted =
      let n : ℕ = mem_capacity / size in
      let n_suc : suc (n - 1) ≡ n = omega (arith, run_length_pos) in
      let (runs, made, r, o) =
        mk_runs-MakesRuns size s.size_pos c (qsort rec_cmp) s.sorts (n - 1) rec_cmp.schema in_file
          refl s.good in
      let made' =
        subst
          (λ w.
            mk_runs (qsort rec_cmp) in_file w rec_cmp.schema
            ≡ ok (fwrite_items runs, length runs % 2 ^ 32))
          n_suc made in
      let count : length runs ≡ length in_file / size =
        r.count ∙ length-records_from size in_file 0 (length in_file / size) in
      let small : length runs + (length runs * k) * k < 2 ^ 31 =
        subst (λ m. m + (m * k) * k < 2 ^ 31) (sym count) s.few in
      let (out, merged, r', sorted) =
        merge_passes-Sorted c size s.size_pos s.sized (take buf_size memory) rec_cmp.schema buf_size
          buffers (length runs) k s.ways small (length runs * k) n runs [] run_length_pos r.good
          refl (subst (λ w. RunsSorted c.lt w runs) n_suc o) (omega arith) (omega arith) in
      (
        out,
        sort_file-passes (fwrite_items runs) (length runs) (omega (arith, small)) made'
            ∙ ap
                (λ less.
                  merge_passes less (take buf_size memory) rec_cmp.schema buf_size k (length runs)
                    (length runs * k) n (fwrite_items runs) [])
                (sym s.compares)
            ∙ merged,
        Rearranges-trans c.Good (records_from size in_file 0 (length in_file / size)) runs out r r',
        sorted,
      )
