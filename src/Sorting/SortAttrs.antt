-- ===== src/Sorting/SortAttrs.antt =====
-- The attributes to sort by, and the comparator made for them, in a2/library.cc and a2/library.h.
use database_assignments.Base.{
  ℕ, suc, ◌+◌, ◌<◌, ◌≡◌, refl, sym, subst, ap, inl, inr, Bool, some, List, [], ◌∷◌, ◌++◌, arith,
  Run, ok, >>=-eq-ok, ok_injective, Option-cases, length, get_or, get_elem?-get_or,
}
use database_assignments.CString.{Sign, characters, tokens}
use database_assignments.Sorting.{
  int, Attribute, Schema, RecordComparator, find_attr, push_sort_attrs, set_schema_sort_attr,
  cmp_fn_of, comparison_functions, new_comparator,
}

-- Every attribute to sort by is one of `n`.
abbrev pub AreBelow : ℕ → List ℕ → Type 0
AreBelow n [] = Unit
AreBelow n (i ∷ is) = (i < n) × AreBelow n is

AreBelow-append : (n : ℕ) (is : List ℕ) (i : ℕ) → AreBelow n is → i < n → AreBelow n (is ++ i ∷ [])
AreBelow-append n [] i h l = (l, tt)
AreBelow-append n (j ∷ is) i h l = (h.0, AreBelow-append n is i h.1 l)

find_attr-lt :
    (i : ℕ) (name : List ℕ) (attrs : List Attribute) (k : ℕ)
    → find_attr i name attrs ≡ some k
    → k < i + length attrs
unfolding find_attr
find_attr-lt i name [] k h = cc
find_attr-lt i name (attr ∷ attrs) k h = ground (arith, find_attr-lt (i + 1) name attrs k)

abbrev Sets : Schema → Schema → Type 0
Sets schema schema' =
    AreBelow (length schema.attrs) schema'.sort_attrs × (schema'.attrs ≡ schema.attrs)

push_sort_attrs-Sets :
    (ts : List (List ℕ)) (schema schema' : Schema)
    → AreBelow (length schema.attrs) schema.sort_attrs
    → push_sort_attrs ts schema ≡ ok schema'
    → Sets schema schema'
unfolding push_sort_attrs
push_sort_attrs-Sets [] schema schema' h e =
    let same = ok_injective e in
    (subst (λ s. AreBelow (length schema.attrs) s.sort_attrs) same h, sym (ap (λ s. s.attrs) same))
push_sort_attrs-Sets (t ∷ ts) schema schema' h e =
    let (name, en, rest) = >>=-eq-ok (characters t) _ e in
    elim (Option-cases (find_attr 0 name schema.attrs)) [
      | inl w ↦ (let bad = rw w at rest in cc)
      | inr (k, w) ↦
          push_sort_attrs-Sets ts (record schema { sort_attrs = schema.sort_attrs ++ k ∷ [] })
            schema'
            (AreBelow-append (length schema.attrs) schema.sort_attrs k h
              (omega (arith, find_attr-lt 0 name schema.attrs k w)))
            (rw w at rest)
    ]

abbrev FnsFor : (List ℕ → List ℕ → Bool) → List Attribute → List ℕ → Type 0
FnsFor float_less attrs is =
    (fns : List (List ℕ → List ℕ → Run Sign)) × (comparison_functions float_less attrs is ≡ ok fns)
    × (length fns ≡ length is)

comparison_functions-ok :
    (float_less : List ℕ → List ℕ → Bool) (attrs : List Attribute) (is : List ℕ)
    → AreBelow (length attrs) is
    → FnsFor float_less attrs is
unfolding comparison_functions
comparison_functions-ok float_less attrs [] h = ([], refl, refl)
comparison_functions-ok float_less attrs (i ∷ is) h =
    let none_such : Attribute = record { name = []; type = int; length = 0 } in
    let attr = get_or attrs i none_such in
    let (fns, e, l) = comparison_functions-ok float_less attrs is h.1 in
    (
      cmp_fn_of float_less attr.type ∷ fns,
      rw (get_elem?-get_or attrs i none_such h.0, e) refl,
      ap suc l,
    )

-- If the sorting attributes are all found, in a schema that has none set before, then they are
-- attributes of the schema, whose attributes are as they were, and the comparator can be made: it
-- has a function for each of them.
pub set_schema_sort_attr-new_comparator :
    (float_less : List ℕ → List ℕ → Bool) (schema schema' : Schema) (text : List ℕ)
    → schema.sort_attrs ≡ []
    → set_schema_sort_attr schema text ≡ ok schema'
    → AreBelow (length schema.attrs) schema'.sort_attrs
      × (schema'.attrs ≡ schema.attrs)
      × ((c : RecordComparator) × (new_comparator float_less schema'.attrs schema' ≡ ok c)
          × (length c.cmp_fns ≡ length schema'.sort_attrs))
unfolding set_schema_sort_attr new_comparator
set_schema_sort_attr-new_comparator float_less schema schema' text empty e =
    let (inside, same) =
      push_sort_attrs-Sets (tokens text) schema schema'
        (subst (AreBelow (length schema.attrs)) (sym empty) tt) e in
    let (fns, made, l) =
      comparison_functions-ok float_less schema'.attrs schema'.sort_attrs
        (subst (λ a. AreBelow (length a) schema'.sort_attrs) (sym same) inside) in
    (inside, same, (record { cmp_fns = fns; schema = schema' }, rw made refl, l))
