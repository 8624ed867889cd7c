-- ===== src/Sorting/Initial.antt =====
-- `mk_runs` of a2/library.cc: the sorted runs that the merge sort starts from.
use native.Mathlib.Nat.{mul-le-mul_right, mul-le-mul, div-add-mod', mod-lt}
use mathlib.Core.List.Perm
use database_assignments.Base.{
  ℕ, zero, suc, ◌+◌, ◌-◌, ◌*◌, ◌/◌, ◌%◌, ◌^◌, ◌≤◌, ◌<◌, ◌≡◌, refl, sym, ap, ap₂, subst, ◌∙◌, inl,
  inr, true, false, List, [], ◌∷◌, ◌++◌, arith, Run, ok, length, length-append, take, drop, leb,
  leb→le, le→leb, Bool-cases, drop-drop, length-drop,
}
use database_assignments.Sorting.{Schema}
use database_assignments.Sorting.Runs.{fread_items, fwrite_items, sort_run, make_runs, mk_runs}
use database_assignments.Sorting.Order.{Rec, Comparison, AllGood, Rearranges, Sorted}
use database_assignments.Sorting.Records.{records_from, drop-records_from, fwrite_items-append}
use database_assignments.Sorting.RunLists.{
  RunsSorted, RunsSorted-nil, run-Rearranges, run-RunsSorted,
}

-- The file has `m` whole records, and not a whole one more.
abbrev pub HasRecords : ℕ → List ℕ → ℕ → Type 0
HasRecords size file m = (m * size ≤ length file) × (length file < (m + 1) * size)

-- What the documentation says of `qsort`: for a comparator that decides an order, the array is
-- rearranged and sorted.
abbrev pub Sorts : Comparison → (List Rec → Run (List Rec)) → Type 0
Sorts c qsort =
    (rs : List Rec)
    → AllGood c.Good rs
    → (out : List Rec) × (qsort rs ≡ ok out) × Rearranges c.Good rs out × Sorted c.lt out

AllGood-take :
    (Good : Rec → Type 0) (n : ℕ) (rs : List Rec) → AllGood Good rs → AllGood Good (take n rs)
AllGood-take Good zero rs g = tt
AllGood-take Good (suc n) [] g = tt
AllGood-take Good (suc n) (r ∷ rs) g = (g.0, AllGood-take Good n rs g.1)

AllGood-drop :
    (Good : Rec → Type 0) (n : ℕ) (rs : List Rec) → AllGood Good rs → AllGood Good (drop n rs)
AllGood-drop Good zero rs g = g
AllGood-drop Good (suc n) [] g = tt
AllGood-drop Good (suc n) (r ∷ rs) g = AllGood-drop Good n rs g.1

module _ (size : ℕ) (size_pos : 0 < size) where
  records_from-drop :
      (file : List ℕ) (a k n : ℕ)
      → records_from size (drop (a * size) file) k n ≡ records_from size file (a + k) n
  records_from-drop file a k zero = refl
  records_from-drop file a k (suc n) =
      let at : a * size + k * size ≡ (a + k) * size = omega arith in
      let next : a + (k + 1) ≡ a + k + 1 = omega arith in
      ap₂ ◌∷◌ (ap (take size) (drop-drop (k * size) (a * size) file ∙ ap (λ i. drop i file) at))
        (records_from-drop file a (k + 1) n ∙ ap (λ i. records_from size file i n) next)

  HasRecords-drop :
      (file : List ℕ) (m a : ℕ)
      → HasRecords size file m
      → HasRecords size (drop (a * size) file) (m - a)
  HasRecords-drop file m a h = elim (Bool-cases (leb a m)) [
    | inl e ↦
        let split : (m - a + a) * size ≡ m * size =
          ap (λ t. t * size) (omega (arith, leb→le a m e)) in
        (
          omega (arith, length-drop (a * size) file, h.0),
          omega (arith, length-drop (a * size) file, h.1, h.0),
        )
    | inr e ↦
        let none : m - a ≡ 0 = ground arith in
        let over : (m + 1) * size ≤ a * size = mul-le-mul_right size (ground arith) in
        rw none (omega arith, omega (arith, length-drop (a * size) file, h.1))
  ]

  HasRecords-behind :
      (file : List ℕ) (m : ℕ) → HasRecords size file (suc m) → HasRecords size (drop size file) m
  HasRecords-behind file m h =
      let one : 1 * size ≡ size = omega arith in
      let less : suc m - 1 ≡ m = omega arith in
      subst (λ n. HasRecords size (drop size file) n) less
        (subst (λ n. HasRecords size (drop n file) (suc m - 1)) one
          (HasRecords-drop file (suc m) 1 h))

  records_from-behind_first :
      (file : List ℕ) (m : ℕ)
      → take size file ∷ records_from size (drop size file) 0 m ≡ records_from size file 0 (suc m)
  records_from-behind_first file m =
      let one : 1 * size ≡ size = omega arith in
      let none : 0 ≡ 0 * size = omega arith in
      ap₂ ◌∷◌ (ap (λ n. take size (drop n file)) none)
        (ap (λ n. records_from size (drop n file) 0 m) (sym one) ∙ records_from-drop file 1 0 m)

  fread_items-records :
      (count m : ℕ) (file : List ℕ)
      → HasRecords size file m
      → fread_items count size file ≡ take count (records_from size file 0 m)
  unfolding fread_items
  fread_items-records zero m file h = refl
  fread_items-records (suc count) zero file h =
      let short : leb size (length file) ≡ false = ground (arith, h.1) in rw short refl
  fread_items-records (suc count) (suc m) file h =
      let there : leb size (length file) ≡ true = le→leb _ _ (omega (arith, h.0)) in
      rw there (
        ap (λ l. take size file ∷ l)
          (fread_items-records count m (drop size file) (HasRecords-behind file m h))
        ∙ ap (take (suc count)) (records_from-behind_first file m))

  module _ (c : Comparison) (qsort : List Rec → Run (List Rec)) (sorts : Sorts c qsort)
      (n' : ℕ) where
    abbrev pub n : ℕ
    n = suc n'

    -- The records behind the first run.
    drop_first_run :
        (file : List ℕ) (m : ℕ)
        → records_from size (drop (n * size) file) 0 (m - n')
          ≡ drop n (records_from size file 0 (suc m))
    drop_first_run file m =
        records_from-drop file n 0 (m - n')
        ∙ ap₂ (λ i w. records_from size file i w) (omega arith) (omega arith)
        ∙ sym (drop-records_from size file 0 (suc m) n)

    run_written :
        (items run rest : List Rec)
        → length run ≡ length items
        → ◌≡◌ {A = Run (List ℕ × ℕ)}
            (ok (
              fwrite_items run ++ fwrite_items rest,
              (length items + length rest % 2 ^ 32) % 2 ^ 32,
            ))
            (ok (fwrite_items (run ++ rest), length (run ++ rest) % 2 ^ 32))
    run_written items run rest e =
        let counted : (length items + length rest % 2 ^ 32) % 2 ^ 32
            ≡ length (run ++ rest) % 2 ^ 32 =
          omega (arith, e, length-append run rest) in
        ap₂ (λ w m. ok (w, m)) (sym (fwrite_items-append run rest)) counted

    abbrev pub MakesRuns : ℕ → List ℕ → ℕ → Type 0
    MakesRuns fuel file m =
        (out : List Rec) × (make_runs qsort fuel n size file
          ≡ ok (fwrite_items out, length out % 2 ^ 32))
        × Rearranges c.Good (records_from size file 0 m) out
        × RunsSorted c.lt n out

    make_runs-MakesRuns :
        (fuel m : ℕ) (file : List ℕ)
        → HasRecords size file m
        → AllGood c.Good (records_from size file 0 m)
        → m < fuel
        → MakesRuns fuel file m
    unfolding make_runs sort_run fwrite_items
    make_runs-MakesRuns zero m file h g l = absurd (omega arith)
    make_runs-MakesRuns (suc fuel) zero file h g l = (
      [],
      ap (sort_run qsort (make_runs qsort fuel n size (drop (n * size) file)))
          (fread_items-records n zero file h),
      record { perm = Perm.refl _; good = tt; count = refl },
      RunsSorted-nil c.lt n,
    )
    make_runs-MakesRuns (suc fuel) (suc m) file h g l =
        let rs = records_from size file 0 (suc m) in
        let items = fread_items-records n (suc m) file h in
        let (run, eq, first, in_order) = sorts (take n rs) (AllGood-take c.Good n rs g) in
        let behind = drop_first_run file m in
        let (rest, er, others, later) =
          make_runs-MakesRuns fuel (m - n') (drop (n * size) file)
            (subst (HasRecords size (drop (n * size) file)) fewer
              (HasRecords-drop file (suc m) n h))
            (subst (AllGood c.Good) (sym behind) (AllGood-drop c.Good n rs g)) (omega arith) in
        let others' = subst (λ l. Rearranges c.Good l rest) behind others in
        (
          run ++ rest,
          ap (sort_run qsort (make_runs qsort fuel n size (drop (n * size) file))) items
              ∙ rw (eq, er) (run_written (take n rs) run rest first.count),
          run-Rearranges c.Good c.lt n rs run rest first in_order others' later,
          run-RunsSorted c.Good c.lt n rs run rest first in_order others' later,
        )
      where
        fewer : suc m - n ≡ m - n'
        fewer = omega arith

    -- For records of one size that is not zero, a run length that is not zero, and a qsort that
    -- sorts by a comparator, which orders the records of the file: mk_runs returns, writes the
    -- whole records of the file rearranged so that each run of that length is sorted, and returns
    -- their number modulo 2^32, as the pattern of an int.
    pub mk_runs-MakesRuns :
        (schema : Schema) (file : List ℕ)
        → schema.record_size ≡ size
        → AllGood c.Good (records_from size file 0 (length file / size))
        → (out : List Rec) × (mk_runs qsort file n schema
            ≡ ok (fwrite_items out, length out % 2 ^ 32))
          × Rearranges c.Good (records_from size file 0 (length file / size)) out
          × RunsSorted c.lt n out
    unfolding mk_runs
    mk_runs-MakesRuns schema file e g =
        let m : ℕ = length file / size in
        let (out, made, r, s) =
          make_runs-MakesRuns (length file + 1) m file (whole_records file) g
            (enough_rounds file) in
        (out, ap (λ w. make_runs qsort (length file + 1) n w file) e ∙ made, r, s)
      where
        whole_records : (file : List ℕ) → HasRecords size file (length file / size)
        whole_records file =
            let split = div-add-mod' (length file) size in
            let rest = mod-lt (length file) size_pos in
            (omega (arith, split), omega (arith, split, rest))

        enough_rounds : (file : List ℕ) → length file / size < length file + 1
        enough_rounds file =
            let least : (length file / size) * 1 ≤ (length file / size) * size =
              mul-le-mul {n₁ = length file / size} (omega arith) (omega arith) in
            omega (arith, div-add-mod' (length file) size)
