-- ===== src/Sorting/KeyOrder.antt =====
-- `SortComparator::Compare` of a2/bsort.cc: the order of the keys.
use database_assignments.Base.{
  ℕ, ◌+◌, ◌%◌, ◌^◌, ◌≡◌, refl, ap, ◌∙◌, Bool, true, List, [], ◌∷◌, ok, if◌then◌else◌, drop, length,
  get_or, get_elem?-get_or,
}
use database_assignments.CString.{Sign, below, same, above, int_of}
use database_assignments.Sorting.{AttributeType, int, float, string, Attribute, Schema}
use database_assignments.Sorting.Tree.{int_sign, compare_values, compare_attrs}
use database_assignments.Sorting.SortAttrs.{AreBelow}
use database_assignments.Sorting.Signs.{
  flip, at_most, then_sign, elim-then_sign, Compares, Compares-of, Compares-then_sign,
}
use database_assignments.Sorting.Values.{
  characters-Terminated, atoi-Terminated, number_sign-Compares, string_sign, string_sign-Compares,
  strcmp-string_sign, Terminated,
}

-- The sign of two floats, each test in turn.
abbrev pub floats_sign : (List ℕ → List ℕ → Bool) → List ℕ → List ℕ → Sign
floats_sign float_less a b =
    if float_less a b then below else if float_less b a then above else same

abbrev some_attr : Attribute
some_attr = record { name = []; type = int; length = 0 }

int_sign-Compares : Compares (λ x. Unit) int_sign
int_sign-Compares =
    Compares-of {GoodB = λ x. Unit} (λ x. (x + 2 ^ 31) % 2 ^ 32) (λ x g. tt) number_sign-Compares

module _ (float_less : List ℕ → List ℕ → Bool) (IsNumber : List ℕ → Type 0) where
  abbrev pub GoodAt : AttributeType → List ℕ → Type 0
  GoodAt int v = Terminated v
  GoodAt float v = Terminated v × IsNumber v
  GoodAt string v = Terminated v

  abbrev sign_at : AttributeType → List ℕ → List ℕ → Sign
  sign_at int a b = int_sign (int_of a) (int_of b)
  sign_at float a b = floats_sign float_less a b
  sign_at string a b = string_sign a b

  compare_values-sign_at :
      (type : AttributeType) (a b : List ℕ)
      → GoodAt type a
      → GoodAt type b
      → compare_values float_less type a b ≡ ok (sign_at type a b)
  unfolding compare_values
  compare_values-sign_at int a b g h = rw (atoi-Terminated a g, atoi-Terminated b h) refl
  compare_values-sign_at float a b g h =
      rw ((characters-Terminated a g.0).1, (characters-Terminated b h.0).1) refl
  compare_values-sign_at string a b g h = strcmp-string_sign a b g h

  sign_at-Compares :
      Compares IsNumber (floats_sign float_less)
      → (type : AttributeType) → Compares (GoodAt type) (sign_at type)
  sign_at-Compares floats int = Compares-of {GoodB = λ x. Unit} int_of (λ a g. tt) int_sign-Compares
  sign_at-Compares floats float = Compares-of (λ a. a) (λ a g. g.1) floats
  sign_at-Compares floats string = string_sign-Compares

  module _ (schema : Schema) where
    abbrev attr_at : ℕ → Attribute
    attr_at i = get_or schema.attrs i some_attr

    -- Each field of the key and the counter behind them have a terminator, and floats are numbers.
    abbrev pub GoodFields : List ℕ → List ℕ → Type 0
    GoodFields [] a = Terminated a
    GoodFields (i ∷ is) a =
        GoodAt (attr_at i).type a × GoodFields is (drop ((attr_at i).length + 1) a)

    abbrev fields_sign : List ℕ → List ℕ → List ℕ → Sign
    fields_sign [] a b = int_sign (int_of a) (int_of b)
    fields_sign (i ∷ is) a b =
        then_sign (sign_at (attr_at i).type a b)
          (fields_sign is (drop ((attr_at i).length + 1) a) (drop ((attr_at i).length + 1) b))

    fields_sign-Compares :
        Compares IsNumber (floats_sign float_less)
        → (is : List ℕ) → Compares (GoodFields is) (fields_sign is)
    fields_sign-Compares floats [] =
        Compares-of {GoodB = λ x. Unit} int_of (λ a g. tt) int_sign-Compares
    fields_sign-Compares floats (i ∷ is) =
        Compares-then_sign
          (Compares-of (λ a. a) (λ a g. g.0) (sign_at-Compares floats (attr_at i).type))
          (Compares-of (λ a. drop ((attr_at i).length + 1) a) (λ a g. g.1)
            (fields_sign-Compares floats is))

    compare_attrs-fields_sign :
        (is : List ℕ) (a b : List ℕ)
        → AreBelow (length schema.attrs) is
        → GoodFields is a
        → GoodFields is b
        → compare_attrs float_less schema is a b ≡ ok (fields_sign is a b)
    unfolding compare_attrs
    compare_attrs-fields_sign [] a b l g h = rw (atoi-Terminated a g, atoi-Terminated b h) refl
    compare_attrs-fields_sign (i ∷ is) a b l g h =
        let len = (attr_at i).length + 1 in
        rw
          (
            get_elem?-get_or schema.attrs i some_attr l.0,
            compare_values-sign_at (attr_at i).type a b g.0 h.0,
          )
          (elim-then_sign (sign_at (attr_at i).type a b)
            (compare_attrs float_less schema is (drop len a) (drop len b))
            (fields_sign is (drop len a) (drop len b))
            (compare_attrs-fields_sign is (drop len a) (drop len b) l.1 g.1 h.1))

    -- If floats are in order and the attributes to sort by are in the schema, then the loop of
    -- Compare and the comparison behind it, where the pointers point to fields that have a
    -- terminator each, the counter behind the attributes included, and whose floats are numbers,
    -- return, and are what LevelDB asks of a comparator: the same bytes compare as the same, the
    -- sign is the opposite one with the sides exchanged, and it is transitive.
    pub compare_attrs-order :
        Compares IsNumber (floats_sign float_less)
        → AreBelow (length schema.attrs) schema.sort_attrs
        → (a b c : List ℕ) → GoodFields schema.sort_attrs a
        → GoodFields schema.sort_attrs b
        → GoodFields schema.sort_attrs c
        → (s : Sign) × (t : Sign) × (u : Sign) × (compare_attrs float_less schema schema.sort_attrs
              a a
            ≡ ok same)
          × (compare_attrs float_less schema schema.sort_attrs a b ≡ ok s)
          × (compare_attrs float_less schema schema.sort_attrs b a ≡ ok (flip s))
          × (compare_attrs float_less schema schema.sort_attrs b c ≡ ok t)
          × (compare_attrs float_less schema schema.sort_attrs a c ≡ ok u)
          × (at_most s ≡ true → at_most t ≡ true → at_most u ≡ true)
    compare_attrs-order floats l a b c g h k =
        let is = schema.sort_attrs in
        let order = fields_sign-Compares floats is in
        let sign = fields_sign is in
        (
          sign a b,
          sign b c,
          sign a c,
          compare_attrs-fields_sign is a a l g g ∙ ap ok (order.same_self a g),
          compare_attrs-fields_sign is a b l g h,
          compare_attrs-fields_sign is b a l h g ∙ ap ok (order.flips a b g h),
          compare_attrs-fields_sign is b c l h k,
          compare_attrs-fields_sign is a c l g k,
          order.transitive a b c g h k,
        )
