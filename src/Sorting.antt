-- ===== src/Sorting.antt =====
-- a2/library.h and a2/library.cc: schemas, and the comparison of records by their attributes.
--
-- A record's data is the list of the bytes from its pointer on. `atof` and the comparison of floats
-- are the C library's: `float_less a b` is `(float)atof(a) < (float)atof(b)`, an argument that is
-- asked about strings, with a terminator, only.
pub mod Runs
pub mod Merge
pub mod Order
pub mod Minimum
pub mod Slots
pub mod Sorted
pub mod Records
pub mod Delivery
pub mod Kway
pub mod RunLists
pub mod Group
pub mod Pass
pub mod Passes
pub mod Initial
pub mod File
pub mod Signs
pub mod Values
pub mod Comparator
pub mod Program
pub mod Writing
pub mod Tree
pub mod Integers
pub mod SortAttrs
pub mod AttrNames
pub mod KeyOrder
mod Tests
mod ProgramTests
use database_assignments.Base.{
  ℕ, zero, suc, ◌+◌, ◌-◌, ◌%◌, ◌^◌, Bool, true, false, ◌&&◌, Option, none, some, List, [], ◌∷◌,
  ◌++◌, Run, ok, stop, out_of_bounds, exit_failure, ◌>>=◌, ◌>>◌, load, leb, ltb, if◌then◌else◌,
  ◌==◌, length, set, take, drop, splice, map,
}
use database_assignments.CString.{Sign, below, same, above, strcmp, atoi, characters, tokens}

pub data AttributeType : Type 0 where
  int float string : AttributeType

pub record Attribute : Type 0 where
  pub name : List ℕ
  pub type : AttributeType
  pub length : ℕ

pub record Schema : Type 0 where
  pub attrs : List Attribute
  pub sort_attrs : List ℕ
  pub data_offset : List ℕ
  pub record_size : ℕ

-- `==` and `compare` of `std::string`
unfoldable pub equal_bytes : List ℕ → List ℕ → Bool
equal_bytes [] [] = true
equal_bytes [] (d ∷ b) = false
equal_bytes (c ∷ a) [] = false
equal_bytes (c ∷ a) (d ∷ b) = c == d && equal_bytes a b

-- "integer", "float" and "string"; another name leaves `type` as it stands in `memory`.
unfoldable pub type_of : AttributeType → List ℕ → AttributeType
type_of memory type =
    if equal_bytes type (105 ∷ 110 ∷ 116 ∷ 101 ∷ 103 ∷ 101 ∷ 114 ∷ [])
    then int
    else if equal_bytes type (102 ∷ 108 ∷ 111 ∷ 97 ∷ 116 ∷ [])
    then float
    else if equal_bytes type (115 ∷ 116 ∷ 114 ∷ 105 ∷ 110 ∷ 103 ∷ [])
    then string
    else memory

-- The schema after the call, and the length of the attribute.
unfoldable pub set_schema : AttributeType → List ℕ → List ℕ → ℕ → Schema → Schema × ℕ
set_schema memory name type len schema =
    let attr : Attribute = record { name = name; type = type_of memory type; length = len } in
    (record schema { attrs = schema.attrs ++ attr ∷ [] }, len)

-- The index of the first attribute with a name, from the `i`th on.
unfoldable pub find_attr : ℕ → List ℕ → List Attribute → Option ℕ
find_attr i name [] = none
find_attr i name (attr ∷ attrs) =
    let rest = find_attr (i + 1) name attrs in if equal_bytes name attr.name then some i else rest

-- The loop over the tokens of the sorting attributes; at an unknown name the program exits.
unfoldable pub push_sort_attrs : List (List ℕ) → Schema → Run Schema
push_sort_attrs [] schema = ok schema
push_sort_attrs (token ∷ ts) schema = do
  sort_attr ← characters token
  elim (find_attr 0 sort_attr schema.attrs) [
    | none ↦ stop exit_failure
    | some i ↦ push_sort_attrs ts (record schema { sort_attrs = schema.sort_attrs ++ i ∷ [] })
  ]

unfoldable pub set_schema_sort_attr : Schema → List ℕ → Run Schema
set_schema_sort_attr schema sorting_attr = push_sort_attrs (tokens sorting_attr) schema

-- The pointer to the `i`th attribute of a record.
unfoldable pub get_attr : ℕ → List ℕ → Schema → Run (List ℕ)
get_attr i data_ schema = do offset ← load schema.data_offset i; ok (drop offset data_)

-- The sign of a difference of `int`s; one that overflows wraps around here.
abbrev pub sign_of : ℕ → Sign
sign_of v = if v == 0 then same else if ltb v (2 ^ 31) then above else below

unfoldable pub int_cmp : List ℕ → List ℕ → Run Sign
int_cmp lhs rhs = do a ← atoi lhs; b ← atoi rhs; ok (sign_of ((a + (2 ^ 32 - b)) % 2 ^ 32))

unfoldable pub float_cmp : (List ℕ → List ℕ → Bool) → List ℕ → List ℕ → Run Sign
float_cmp float_less lhs rhs = do
  _ ← characters lhs
  _ ← characters rhs
  ok (if float_less rhs lhs then above else if float_less lhs rhs then below else same)

unfoldable pub string_cmp : List ℕ → List ℕ → Run Sign
string_cmp lhs rhs = strcmp lhs rhs

pub record RecordComparator : Type 0 where
  pub cmp_fns : List (List ℕ → List ℕ → Run Sign)
  pub schema : Schema

abbrev pub cmp_fn_of : (List ℕ → List ℕ → Bool) → AttributeType → List ℕ → List ℕ → Run Sign
cmp_fn_of float_less int = int_cmp
cmp_fn_of float_less float = float_cmp float_less
cmp_fn_of float_less string = string_cmp

unfoldable pub comparison_functions :
    (List ℕ → List ℕ → Bool) → List Attribute → List ℕ → Run (List (List ℕ → List ℕ → Run Sign))
comparison_functions float_less attrs [] = ok []
comparison_functions float_less attrs (i ∷ sort_attrs) = do
  attr ← load attrs i
  rest ← comparison_functions float_less attrs sort_attrs
  ok (cmp_fn_of float_less attr.type ∷ rest)

unfoldable pub new_comparator :
    (List ℕ → List ℕ → Bool) → List Attribute → Schema → Run RecordComparator
new_comparator float_less attrs schema = do
  fns ← comparison_functions float_less attrs schema.sort_attrs
  ok (record { cmp_fns = fns; schema = schema })

-- The byte at the index `n` becomes zero. What follows the bytes is undetermined, and stays so.
unfoldable pub terminate : ℕ → List ℕ → List ℕ
terminate zero [] = 0 ∷ []
terminate zero (c ∷ s) = 0 ∷ s
terminate (suc n) [] = []
terminate (suc n) (c ∷ s) = c ∷ terminate n s

-- `memcpy` of the attribute into `char attr[40]`: the bytes that are set from its start on. The
-- others are undetermined, so that reading one is out of bounds. The terminator is set at the
-- length of the `i`th attribute of the schema, not of the one that is compared.
unfoldable pub attr_buffer : Schema → ℕ → ℕ → List ℕ → Run (List ℕ)
attr_buffer schema i sort_idx data_ = do
  attr ← load schema.attrs sort_idx
  start ← get_attr sort_idx data_ schema
  ith ← load schema.attrs i
  if leb attr.length 40 && leb attr.length (length start) && ltb ith.length 40
      then ok (terminate ith.length (take attr.length start))
      else stop out_of_bounds

-- The loop over the attributes to sort by, from the `i`th of them on.
unfoldable pub compare_from : RecordComparator → ℕ → List ℕ → List ℕ → List ℕ → Run Sign
compare_from c i [] lhs rhs = ok same
compare_from c i (sort_idx ∷ sort_attrs) lhs rhs = do
  lhs_attr ← attr_buffer c.schema i sort_idx lhs
  rhs_attr ← attr_buffer c.schema i sort_idx rhs
  cmp_fn ← load c.cmp_fns i
  cmp ← cmp_fn lhs_attr rhs_attr
  elim cmp [
    | same ↦ compare_from c (i + 1) sort_attrs lhs rhs
    | below ↦ ok below
    | above ↦ ok above
  ]

unfoldable pub qsort_cmp : RecordComparator → List ℕ → List ℕ → Run Sign
qsort_cmp c lhs rhs = compare_from c 0 c.schema.sort_attrs lhs rhs

-- `operator()`, with the same loop: whether `lhs` is below `rhs`.
unfoldable pub less_than : RecordComparator → List ℕ → List ℕ → Run Bool
less_than c lhs rhs = do
  cmp ← compare_from c 0 c.schema.sort_attrs lhs rhs
  ok (elim cmp [ below ↦ true | same ↦ false | above ↦ false ])
