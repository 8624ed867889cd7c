-- ===== src/Sorting/Comparator.antt =====
-- `RecordComparator` of a2/library.h: the order that it decides.
use mathlib.Core.List.{append_assoc}
use database_assignments.Base.{
  ℕ, zero, suc, ◌+◌, ◌≡◌, refl, sym, ap, subst, ◌∙◌, Bool, true, false, none, some, List, [], ◌∷◌,
  ◌++◌, length-append, Run, ok, stop, >>=-eq-ok, ok_injective, load, length, get_elem?,
}
use database_assignments.CString.{Sign, below, same, above}
use database_assignments.Sorting.{
  AttributeType, int, Attribute, RecordComparator, cmp_fn_of, comparison_functions, new_comparator,
  attr_buffer, compare_from, less_than,
}
use database_assignments.Sorting.Order.{Rec, Comparison}
use database_assignments.Sorting.Signs.{
  Compares, Compares-same, Compares-of, Compares-then_sign, then_sign, elim-then_sign, is_below,
  at_most, flip,
}
use database_assignments.Sorting.Values.{
  GoodValue, value_sign, float_sign, cmp_fn_of-value_sign, value_sign-Compares,
}

abbrev value_of : Run (List ℕ) → List ℕ
value_of (ok v) = v
value_of (stop e) = []

abbrev type_at : List Attribute → ℕ → AttributeType
type_at attrs i = elim (get_elem? attrs i) [ none ↦ int | some attr ↦ attr.type ]

is_below_lem :
    (x : Sign) → ok (elim x [ below ↦ true | same ↦ false | above ↦ false ]) ≡ ok (is_below x)
is_below_lem below = refl
is_below_lem same = refl
is_below_lem above = refl

pub is_below-asymmetric : (x y : Sign) → y ≡ flip x → is_below x ≡ true → is_below y ≡ false
is_below-asymmetric below y e h = rw e refl
is_below-asymmetric same y e h = cc
is_below-asymmetric above y e h = cc

pub is_below-at_most : (x y : Sign) → y ≡ flip x → is_below y ≡ false → at_most x ≡ true
is_below-at_most below y e h = refl
is_below-at_most same y e h = refl
is_below-at_most above y e h = absurd (cc (sym (rw e at h)))

pub at_most-is_below : (x y : Sign) → y ≡ flip x → at_most x ≡ true → is_below y ≡ false
at_most-is_below below y e h = rw e refl
at_most-is_below same y e h = rw e refl
at_most-is_below above y e h = cc

load-type_at :
    (attrs : List Attribute) (i : ℕ) (attr : Attribute)
    → load attrs i ≡ ok attr
    → type_at attrs i ≡ attr.type
load-type_at [] i attr h = cc
load-type_at (a ∷ attrs) zero attr h = ap (λ w. w.type) (ok_injective h)
load-type_at (a ∷ attrs) (suc i) attr h = load-type_at attrs i attr h

load-behind :
    {A : Type 0} (before : List A) (a : A) (rest : List A)
    → load (before ++ a ∷ rest) (length before) ≡ ok a
load-behind [] a rest = refl
load-behind (b ∷ before) a rest = load-behind before a rest

module _ (float_less : List ℕ → List ℕ → Bool) (IsNumber : List ℕ → Type 0)
    (rec_cmp : RecordComparator) where
  -- The value by which a record is compared in the `i`th place.
  abbrev key : ℕ → ℕ → Rec → List ℕ
  key i sort_idx r = value_of (attr_buffer rec_cmp.schema i sort_idx r)

  abbrev type_of_attr : ℕ → AttributeType
  type_of_attr sort_idx = type_at rec_cmp.schema.attrs sort_idx

  -- The values of a record can be read, and are in order with others.
  abbrev pub GoodFrom : ℕ → List ℕ → Rec → Type 0
  GoodFrom i [] r = Unit
  GoodFrom i (sort_idx ∷ sort_attrs) r =
      (attr_buffer rec_cmp.schema i sort_idx r ≡ ok (key i sort_idx r))
      × GoodValue float_less IsNumber (type_of_attr sort_idx) (key i sort_idx r)
      × GoodFrom (i + 1) sort_attrs r

  -- The first attribute in which the records differ decides.
  abbrev order_from : ℕ → List ℕ → Rec → Rec → Sign
  order_from i [] a b = same
  order_from i (sort_idx ∷ sort_attrs) a b =
      then_sign
        (value_sign float_less IsNumber (type_of_attr sort_idx) (key i sort_idx a)
          (key i sort_idx b))
        (order_from (i + 1) sort_attrs a b)

  pub order_from-Compares :
      Compares IsNumber (float_sign float_less)
      → (i : ℕ) (sort_attrs : List ℕ) → Compares (GoodFrom i sort_attrs) (order_from i sort_attrs)
  order_from-Compares floats i [] = Compares-same
  order_from-Compares floats i (sort_idx ∷ sort_attrs) =
      Compares-then_sign
        (Compares-of (key i sort_idx) (λ r g. g.1)
          (value_sign-Compares float_less IsNumber floats (type_of_attr sort_idx)))
        (Compares-of (λ r. r) (λ r g. g.2) (order_from-Compares floats (i + 1) sort_attrs))

  -- The comparison functions from the `i`th on are those of the attributes.
  abbrev FnsFrom : ℕ → List ℕ → Type 0
  FnsFrom i [] = Unit
  FnsFrom i (sort_idx ∷ sort_attrs) =
      (load rec_cmp.cmp_fns i ≡ ok (cmp_fn_of float_less (type_of_attr sort_idx)))
      × FnsFrom (i + 1) sort_attrs

  compare_from-order_from :
      (i : ℕ) (sort_attrs : List ℕ) (a b : Rec)
      → FnsFrom i sort_attrs
      → GoodFrom i sort_attrs a
      → GoodFrom i sort_attrs b
      → compare_from rec_cmp i sort_attrs a b ≡ ok (order_from i sort_attrs a b)
  unfolding compare_from
  compare_from-order_from i [] a b f g h = refl
  compare_from-order_from i (sort_idx ∷ sort_attrs) a b f g h =
      rw
        (
          g.0,
          h.0,
          f.0,
          cmp_fn_of-value_sign float_less IsNumber (type_of_attr sort_idx) (key i sort_idx a)
              (key i sort_idx b) g.1 h.1,
        )
        (elim-then_sign
          (value_sign float_less IsNumber (type_of_attr sort_idx) (key i sort_idx a)
            (key i sort_idx b))
          (compare_from rec_cmp (i + 1) sort_attrs a b) (order_from (i + 1) sort_attrs a b)
          (compare_from-order_from (i + 1) sort_attrs a b f.1 g.2 h.2))

  fns-FnsFrom :
      (before fns : List (List ℕ → List ℕ → Run Sign)) (sort_attrs : List ℕ)
      → comparison_functions float_less rec_cmp.schema.attrs sort_attrs ≡ ok fns
      → rec_cmp.cmp_fns ≡ before ++ fns
      → FnsFrom (length before) sort_attrs
  unfolding comparison_functions
  fns-FnsFrom before fns [] e b = tt
  fns-FnsFrom before fns (sort_idx ∷ sort_attrs) e b =
      let (attr, found, e') = >>=-eq-ok (load rec_cmp.schema.attrs sort_idx) _ e in
      let (rest, made, e'') =
        >>=-eq-ok (comparison_functions float_less rec_cmp.schema.attrs sort_attrs) _ e' in
      let cmp_fn = cmp_fn_of float_less attr.type in
      let all : rec_cmp.cmp_fns ≡ before ++ cmp_fn ∷ rest =
        b ∙ ap (λ l. before ++ l) (sym (ok_injective e'')) in
      let longer : length (before ++ cmp_fn ∷ []) ≡ length before + 1 =
        length-append before (cmp_fn ∷ []) in
      (
        ap (λ l. load l (length before)) all
            ∙ load-behind before cmp_fn rest
            ∙ ap (λ t. ok (cmp_fn_of float_less t))
                (sym (load-type_at rec_cmp.schema.attrs sort_idx attr found)),
        subst (λ n. FnsFrom n sort_attrs) longer
            (fns-FnsFrom (before ++ cmp_fn ∷ []) rest sort_attrs made
              (all ∙ sym (append_assoc before (cmp_fn ∷ []) rest))),
      )

  -- The records of the schema's size whose values are good.
  abbrev pub GoodRecord : Rec → Type 0
  GoodRecord r = (length r ≡ rec_cmp.schema.record_size) × GoodFrom 0 rec_cmp.schema.sort_attrs r

  abbrev pub order : Rec → Rec → Sign
  order = order_from 0 rec_cmp.schema.sort_attrs

  pub less_than-order :
      (a b : Rec)
      → FnsFrom 0 rec_cmp.schema.sort_attrs
      → GoodRecord a
      → GoodRecord b
      → less_than rec_cmp a b ≡ ok (is_below (order a b))
  unfolding less_than
  less_than-order a b f g h =
      rw (compare_from-order_from 0 rec_cmp.schema.sort_attrs a b f g.1 h.1)
        (is_below_lem (order a b))

  pub fns_made :
      new_comparator float_less rec_cmp.schema.attrs rec_cmp.schema ≡ ok rec_cmp
      → FnsFrom 0 rec_cmp.schema.sort_attrs
  unfolding new_comparator
  fns_made e =
      let (fns, made, same_cmp) =
        >>=-eq-ok (comparison_functions float_less rec_cmp.schema.attrs rec_cmp.schema.sort_attrs) _
          e in
      fns-FnsFrom [] fns rec_cmp.schema.sort_attrs made
        (sym (ap (λ c. c.cmp_fns) (ok_injective same_cmp)))

  pub order-Compares :
      Compares IsNumber (float_sign float_less)
      → Compares (GoodFrom 0 rec_cmp.schema.sort_attrs) order
  order-Compares floats = order_from-Compares floats 0 rec_cmp.schema.sort_attrs

  -- The comparator decides a strict order on good records.
  unfoldable pub comparator :
      Compares IsNumber (float_sign float_less)
      → new_comparator float_less rec_cmp.schema.attrs rec_cmp.schema ≡ ok rec_cmp
      → Comparison
  comparator floats e = record {
    less = less_than rec_cmp;
    lt = λ a b. is_below (order a b);
    Good = GoodRecord;
    decides = λ a b. less_than-order a b (fns_made e);
    irreflexive = λ a g. rw ((order-Compares floats).same_self a g.1) refl;
    asymmetric = λ a b g h.
        is_below-asymmetric (order a b) (order b a) ((order-Compares floats).flips a b g.1 h.1);
    transitive = λ a b c g h k p q.
        at_most-is_below (order a c) (order c a) ((order-Compares floats).flips a c g.1 k.1) (
          (order-Compares floats).transitive a b c g.1 h.1 k.1
            (is_below-at_most (order a b) (order b a) ((order-Compares floats).flips a b g.1 h.1) p)
            (is_below-at_most (order b c) (order c b) ((order-Compares floats).flips b c h.1 k.1)
              q));
  }
