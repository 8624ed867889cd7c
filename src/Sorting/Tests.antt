-- ===== src/Sorting/Tests.antt =====
-- A merge of small lists, and the theorems about sorting at concrete inputs.
use database_assignments.Base.{
  ℕ, length, ◌^◌, ◌<◌, ◌≤◌, ◌≡◌, refl, inl, inr, ap, subst, Bool, true, false, List, [], ◌∷◌, arith,
  Run, ok, stop, out_of_bounds, ltb, ltb→le, le→ltb, ltb→lt,
}
use database_assignments.Sorting.Merge.{merge_all, fetch_all, fetch, merge_loop, min_from, all_null}
use database_assignments.CString.{
  Sign, same, int_of, read_signed, read_digits, tokens, split_tokens, characters,
}
use database_assignments.Sorting.{
  int, string, int_cmp, Schema, RecordComparator, set_schema_sort_attr, push_sort_attrs, find_attr,
  equal_bytes, new_comparator,
}
use database_assignments.Sorting.KeyOrder.{compare_attrs-order}
use database_assignments.Sorting.Signs.{flip, at_most}
use database_assignments.Sorting.AttrNames.{Outcome, set_schema_sort_attr-Outcome}
use database_assignments.Sorting.SortAttrs.{AreBelow, set_schema_sort_attr-new_comparator}
use database_assignments.Sorting.Tree.{compare_values, compare_attrs}
use database_assignments.Sorting.Integers.{int_cmp-compare_values}
use database_assignments.Sorting.Order.{Rec, Comparison, AllGood, Source, Rearranges, Sorted}
use database_assignments.Sorting.Slots.{remaining_all, AllValid, AllSorted}
use database_assignments.Sorting.Sorted.{merge_all-Sorted}
use database_assignments.Sorting.Initial.{Sorts}

-- An iterator over a list of records.
abbrev pub list_has_next : List Rec → Bool
list_has_next [] = false
list_has_next (r ∷ rs) = true

abbrev pub list_next : List Rec → Run (List Rec × Rec)
list_next [] = stop out_of_bounds
list_next (r ∷ rs) = ok (rs, r)

abbrev pub singles : List Rec → List (List Rec)
singles [] = []
singles (r ∷ rs) = (r ∷ []) ∷ singles rs

module _ (c : Comparison) where
  list_ended : (rs : List Rec) → AllGood c.Good rs → list_has_next rs ≡ false → rs ≡ []
  list_ended [] g h = refl
  list_ended (r ∷ rs) g h = cc

  list_steps :
      (rs : List Rec)
      → AllGood c.Good rs
      → list_has_next rs ≡ true
      → (rs' : List Rec) × (r : Rec) × (list_next rs ≡ ok (rs', r))
        × (rs ≡ r ∷ rs')
        × AllGood c.Good rs'
  list_steps [] g h = cc
  list_steps (r ∷ rs) g h = (rs, r, refl, refl, g.1)

  abbrev list_source : Source c.Good (List Rec)
  list_source = record {
    has_next = list_has_next;
    next = list_next;
    Valid = AllGood c.Good;
    remaining = λ rs. rs;
    good = λ rs g. g;
    ended = list_ended;
    steps = list_steps;
  }

  remaining_all-singles : (rs : List Rec) → remaining_all c list_source (singles rs) ≡ rs
  remaining_all-singles [] = refl
  remaining_all-singles (r ∷ rs) = ap (λ l. r ∷ l) (remaining_all-singles rs)

  singles-AllValid : (rs : List Rec) → AllGood c.Good rs → AllValid c list_source (singles rs)
  singles-AllValid [] g = tt
  singles-AllValid (r ∷ rs) g = ((g.0, tt), singles-AllValid rs g.1)

  singles-AllSorted : (rs : List Rec) → AllSorted c list_source (singles rs)
  singles-AllSorted [] = tt
  singles-AllSorted (r ∷ rs) = ((tt, tt), singles-AllSorted rs)

  -- A sort by merging lists of one record each.
  abbrev pub merge_sort : List Rec → Run (List Rec)
  merge_sort rs = merge_all list_has_next list_next c.less (length rs) (singles rs)

  pub merge_sort-Sorts : Sorts c merge_sort
  merge_sort-Sorts rs g =
      let all = remaining_all-singles rs in
      let enough : length (remaining_all c list_source (singles rs)) ≤ length rs =
        omega (arith, ap length all) in
      let (out, merged, r, sorted) =
        merge_all-Sorted c list_source (singles rs) (length rs) (singles-AllValid rs g) enough in
      (out, merged, subst (λ l. Rearranges c.Good l out) all r, sorted (singles-AllSorted rs))

-- Records compared by their first bytes.
abbrev key : Rec → ℕ
key [] = 0
key (c ∷ r) = c

abbrev key_lt : Rec → Rec → Bool
key_lt a b = ltb (key a) (key b)

abbrev by_key : Comparison
by_key = record {
  less = λ a b. ok (key_lt a b);
  lt = key_lt;
  Good = λ r. Unit;
  decides = λ a b g h. refl;
  irreflexive = λ a g. le→ltb (key a) (key a) (omega arith);
  asymmetric =
      λ a b g h e. let l = ltb→lt (key a) (key b) e in le→ltb (key b) (key a) (omega arith);
  transitive = λ a b c g h k p q.
      let l = ltb→le (key b) (key a) p in
      let m = ltb→le (key c) (key b) q in le→ltb (key c) (key a) (omega arith);
}

abbrev two_runs : List (List Rec)
two_runs = ((2 ∷ 7 ∷ []) ∷ (5 ∷ []) ∷ []) ∷ ((1 ∷ []) ∷ (2 ∷ 8 ∷ []) ∷ (9 ∷ []) ∷ []) ∷ []

two_runs_merged :
    merge_all list_has_next list_next (λ a b. ok (key_lt a b)) 5 two_runs
    ≡ ok ((1 ∷ []) ∷ (2 ∷ 7 ∷ []) ∷ (2 ∷ 8 ∷ []) ∷ (5 ∷ []) ∷ (9 ∷ []) ∷ [])
unfolding merge_all fetch_all fetch merge_loop min_from all_null
two_runs_merged = refl

merge_all-Sorted_example :
    (out : List Rec) × (merge_all list_has_next list_next (λ a b. ok (key_lt a b)) 5 two_runs
      ≡ ok out)
    × Rearranges
        (λ r. Unit {0})
        ((2 ∷ 7 ∷ []) ∷ (5 ∷ []) ∷ (1 ∷ []) ∷ (2 ∷ 8 ∷ []) ∷ (9 ∷ []) ∷ [])
        out
    × (AllSorted by_key (list_source by_key) two_runs → Sorted key_lt out)
merge_all-Sorted_example =
    merge_all-Sorted by_key (list_source by_key) two_runs 5
      ((tt, (tt, tt)), ((tt, (tt, (tt, tt))), tt)) (omega arith)

twelve : int_of (49 ∷ 50 ∷ 0 ∷ []) < 2 ^ 31
unfolding int_of read_signed read_digits
twelve = omega arith

seven : int_of (55 ∷ 0 ∷ []) < 2 ^ 31
unfolding int_of read_signed read_digits
seven = omega arith

-- "12" and "7", compared as integers
int_cmp-compare_values_example :
    int_cmp (49 ∷ 50 ∷ 0 ∷ []) (55 ∷ 0 ∷ [])
    ≡ compare_values (λ a b. false) int (49 ∷ 50 ∷ 0 ∷ []) (55 ∷ 0 ∷ [])
int_cmp-compare_values_example =
    int_cmp-compare_values (λ a b. false) (49 ∷ 50 ∷ 0 ∷ []) (55 ∷ 0 ∷ []) twelve seven

-- The attributes "a" and "b", to be sorted by "b,a"
abbrev two_attrs : Schema
two_attrs = record {
  attrs =
      record { name = 97 ∷ []; type = int; length = 3 }
      ∷ record { name = 98 ∷ []; type = string; length = 2 }
      ∷ [];
  sort_attrs = [];
  data_offset = 0 ∷ 4 ∷ [];
  record_size = 7;
}

abbrev sorting_attr : List ℕ
sorting_attr = 98 ∷ 44 ∷ 97 ∷ 0 ∷ []

sort_attrs_set :
    set_schema_sort_attr two_attrs sorting_attr ≡ ok (record two_attrs { sort_attrs = 1 ∷ 0 ∷ [] })
unfolding set_schema_sort_attr tokens split_tokens push_sort_attrs characters find_attr equal_bytes
sort_attrs_set = refl

set_schema_sort_attr-new_comparator_example :
    AreBelow 2 (1 ∷ 0 ∷ [])
    × (two_attrs.attrs ≡ two_attrs.attrs)
    × ((c : RecordComparator) × (new_comparator
            (λ a b. false)
            two_attrs.attrs
            (record two_attrs { sort_attrs = 1 ∷ 0 ∷ [] })
          ≡ ok c)
        × (length c.cmp_fns ≡ 2))
set_schema_sort_attr-new_comparator_example =
    set_schema_sort_attr-new_comparator (λ a b. false) two_attrs
      (record two_attrs { sort_attrs = 1 ∷ 0 ∷ [] }) sorting_attr refl sort_attrs_set

-- "b,c", of which the schema has the first only
abbrev unknown_attr : List ℕ
unknown_attr = 98 ∷ 44 ∷ 99 ∷ 0 ∷ []

set_schema_sort_attr-Outcome_example :
    Outcome (set_schema_sort_attr two_attrs unknown_attr) two_attrs (tokens unknown_attr)
set_schema_sort_attr-Outcome_example = set_schema_sort_attr-Outcome two_attrs unknown_attr

-- Sorted by "b", then by "a"
abbrev by_both : Schema
by_both = record two_attrs { sort_attrs = 1 ∷ 0 ∷ [] }

abbrev key_xy : List ℕ
key_xy = 120 ∷ 121 ∷ 0 ∷ 48 ∷ 49 ∷ 50 ∷ 0 ∷ 48 ∷ 0 ∷ []

abbrev key_xz : List ℕ
key_xz = 120 ∷ 122 ∷ 0 ∷ 48 ∷ 48 ∷ 55 ∷ 0 ∷ 49 ∷ 0 ∷ []

compare_attrs-order_example :
    (s : Sign) × (t : Sign) × (u : Sign) × (compare_attrs
        (λ a b. false)
        by_both
        (1 ∷ 0 ∷ [])
        key_xy
        key_xy
      ≡ ok same)
    × (compare_attrs (λ a b. false) by_both (1 ∷ 0 ∷ []) key_xy key_xz ≡ ok s)
    × (compare_attrs (λ a b. false) by_both (1 ∷ 0 ∷ []) key_xz key_xy ≡ ok (flip s))
    × (compare_attrs (λ a b. false) by_both (1 ∷ 0 ∷ []) key_xz key_xz ≡ ok t)
    × (compare_attrs (λ a b. false) by_both (1 ∷ 0 ∷ []) key_xy key_xz ≡ ok u)
    × (at_most s ≡ true → at_most t ≡ true → at_most u ≡ true)
compare_attrs-order_example =
    compare_attrs-order (λ a b. false) (λ v. Unit) by_both
      (record {
        same_self = λ a g. refl;
        flips = λ a b g h. refl;
        transitive = λ a b c g h k p q. refl;
      })
      (omega arith, (omega arith, tt)) key_xy key_xz key_xz
      (inr (inr (inl refl)), (inr (inr (inr (inl refl))), inr (inl refl)))
      (inr (inr (inl refl)), (inr (inr (inr (inl refl))), inr (inl refl)))
      (inr (inr (inl refl)), (inr (inr (inr (inl refl))), inr (inl refl)))
