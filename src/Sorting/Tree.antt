-- ===== src/Sorting/Tree.antt =====
-- a2/bsort.cc: sorting by way of an ordered store. LevelDB is an argument: `put` adds a key with its
-- value to a store that is ordered by `compare_keys`, and `entries` are the entries in its order.
use database_assignments.Base.{
  ℕ, ◌+◌, ◌%◌, ◌^◌, Bool, Option, none, some, List, [], ◌∷◌, ◌++◌, Run, ok, stop, exit_failure,
  ◌>>=◌, ◌>>◌, load, ltb, if◌then◌else◌, length, drop, ◌==◌,
}
use database_assignments.CString.{
  Sign, below, same, above, strcmp, strncpy, characters, atoi, fgets_lines,
}
use database_assignments.Sorting.{AttributeType, int, float, string, Schema, set_schema_sort_attr}
use database_assignments.Sorting.Merge.{Column, add_columns, empty_schema}
use database_assignments.Tools.{decimal}

-- `x < y` on the patterns of two `int`s
abbrev pub int_less : ℕ → ℕ → Bool
int_less x y = ltb ((x + 2 ^ 31) % 2 ^ 32) ((y + 2 ^ 31) % 2 ^ 32)

-- `if (x < y) return -1; if (x > y) return 1;`
abbrev pub int_sign : ℕ → ℕ → Sign
int_sign x y = if int_less x y then below else if int_less y x then above else same

-- The comparison of the values at the two pointers.
unfoldable pub compare_values :
    (List ℕ → List ℕ → Bool) → AttributeType → List ℕ → List ℕ → Run Sign
compare_values float_less int a_buf b_buf = do
  a_int ← atoi a_buf
  b_int ← atoi b_buf
  ok (int_sign a_int b_int)
compare_values float_less float a_buf b_buf = do
  _ ← characters a_buf
  _ ← characters b_buf
  ok (if float_less a_buf b_buf then below else if float_less b_buf a_buf then above else same)
compare_values float_less string a_buf b_buf = strcmp a_buf b_buf

-- The loop of `Compare` over the attributes to sort by, and the comparison of the counters, `a_buf`
-- and `b_buf` being what the two pointers point to. A pointer that has left its array points to no
-- byte, and each round and the comparison at the end read at the pointers.
unfoldable pub compare_attrs :
    (List ℕ → List ℕ → Bool) → Schema → List ℕ → List ℕ → List ℕ → Run Sign
compare_attrs float_less schema [] a_buf b_buf = do
  last_a ← atoi a_buf
  last_b ← atoi b_buf
  ok (int_sign last_a last_b)
compare_attrs float_less schema (attrs_idx ∷ sort_attrs) a_buf b_buf = do
  attr ← load schema.attrs attrs_idx
  sign ← compare_values float_less attr.type a_buf b_buf
  elim sign [
    | same ↦
        compare_attrs float_less schema sort_attrs (drop (attr.length + 1) a_buf)
          (drop (attr.length + 1) b_buf)
    | below ↦ ok below
    | above ↦ ok above
  ]

-- `SortComparator::Compare`. The strings that the two pointers point into are destroyed before the
-- loop; `freed` is what is found there for the two keys, an argument.
unfoldable pub compare_keys :
    (List ℕ → List ℕ → List ℕ × List ℕ)
    → (List ℕ → List ℕ → Bool)
    → Schema
    → List ℕ
    → List ℕ
    → Run Sign
compare_keys freed float_less schema a b =
    let (a_buf, b_buf) = freed a b in compare_attrs float_less schema schema.sort_attrs a_buf b_buf

-- The attributes of the key, each with a zero behind it. The array for an attribute is one byte
-- short for the terminator that is written to it; the model goes on as if it were not.
unfoldable pub key_attrs : Schema → List ℕ → List ℕ → Run (List ℕ)
key_attrs schema line [] = ok []
key_attrs schema line (attrs_idx ∷ sort_attrs) = do
  offset ← load schema.data_offset attrs_idx
  attr ← load schema.attrs attrs_idx
  attribute ← strncpy attr.length (drop offset line)
  text ← characters (attribute ++ 0 ∷ [])
  rest ← key_attrs schema line sort_attrs
  ok (text ++ 0 ∷ rest)

-- With no attribute to sort by the key is a zero and the counter.
unfoldable pub get_key : Schema → List ℕ → ℕ → Run (List ℕ)
get_key schema line unique_counter = do
  key ← key_attrs schema line schema.sort_attrs
  ok ((if length schema.sort_attrs == 0 then 0 ∷ [] else key) ++ decimal 10 unique_counter)

-- The loop over the lines; a value is the line without its terminator. A status that is not ok is
-- only printed.
unfoldable pub insert_tree :
    {DB : Type 0} → (DB → List ℕ → List ℕ → Run DB) → Schema → ℕ → List (List ℕ) → DB → Run DB
insert_tree put schema unique_counter [] db = ok db
insert_tree put schema unique_counter (line ∷ lines) db = do
  key ← get_key schema line unique_counter
  value ← characters line
  db' ← put db key value
  insert_tree put schema (unique_counter + 1) lines db'

-- What is written for the entries: each value with a terminator.
unfoldable pub retrieve_tree : List (List ℕ × List ℕ) → List ℕ
retrieve_tree [] = []
retrieve_tree ((key, value) ∷ entries) = (value ++ 0 ∷ []) ++ retrieve_tree entries

-- The output file. `open_db` is `none` if the database cannot be opened.
unfoldable pub bsort_main :
    {DB : Type 0}
    → (List ℕ → List ℕ → List ℕ × List ℕ)
    → ((List ℕ → List ℕ → Run Sign) → Option DB)
    → (DB → List ℕ → List ℕ → Run DB)
    → (DB → List (List ℕ × List ℕ))
    → (List ℕ → List ℕ → Bool)
    → AttributeType
    → Bool
    → Option (List Column)
    → Option (List ℕ)
    → List ℕ
    → Run (List ℕ)
bsort_main freed open_db put entries float_less type four columns in_file sorting_attributes = do
  if four then ok tt else stop exit_failure
  columns' ← elim columns [ none ↦ stop exit_failure | some c ↦ ok c ]
  schema ← set_schema_sort_attr (add_columns type 0 columns' empty_schema) sorting_attributes
  db ← elim (open_db (compare_keys freed float_less schema)) [
    | none ↦ stop exit_failure
    | some db ↦ ok db
  ]
  file ← elim in_file [ none ↦ stop exit_failure | some file ↦ ok file ]
  db' ← insert_tree put schema 0 (fgets_lines file) db
  ok (retrieve_tree (entries db'))
