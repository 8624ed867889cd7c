-- ===== src/Record.antt =====
-- a1/record.h and a1/record.cpp: records of attributes, serialised in fields of fixed width.
-- An attribute is a `const char *`; the null pointer, which `Record rec(100)` holds, is `[]`.
pub mod Laws
pub mod Csv
pub mod Rows
mod Tests
use database_assignments.Base.{
  ℕ, zero, suc, ◌+◌, ◌*◌, ◌/◌, ◌≤◌, ◌≡◌, Bool, List, [], ◌∷◌, ◌++◌, Run, ok, stop, out_of_bounds,
  ◌>>=◌, ◌>>◌, assert, store, leb, if◌then◌else◌, length, splice, drop, set, ◌==◌,
}
use database_assignments.CString.{strncpy, characters, tokens}

abbrev pub attribute_size : ℕ
attribute_size = 10

abbrev pub Record : Type 0
Record = List (List ℕ)

unfoldable pub fixed_len_sizeof : Record → ℕ
fixed_len_sizeof r = length r * attribute_size

-- `buf` is `mem + off`; the result is the memory afterwards.
unfoldable pub fixed_len_write : Record → List ℕ → ℕ → Run (List ℕ)
fixed_len_write [] mem off = ok mem
fixed_len_write (attr ∷ rest) mem off = do
  b ← strncpy attribute_size attr
  mem' ← store mem off b
  fixed_len_write rest mem' (off + attribute_size)

-- The loop runs over the places of the record, and puts a fresh string in each.
unfoldable pub read_attributes : Record → List ℕ → ℕ → Run Record
read_attributes [] mem off = ok []
read_attributes (_ ∷ places) mem off = do
  b ← strncpy attribute_size (drop off mem)
  rest ← read_attributes places mem (off + attribute_size)
  ok ((b ++ 0 ∷ []) ∷ rest)

unfoldable pub fixed_len_read : List ℕ → ℕ → ℕ → Record → Run Record
unfolding read_attributes
fixed_len_read mem off size r = do
  assert (leb (size / attribute_size) (length r))
  read_attributes r mem off

-- What is printed: the attributes with commas between them, and a newline.
unfoldable pub print_record_as_csv : Record → Run (List ℕ)
print_record_as_csv [] = stop out_of_bounds
print_record_as_csv (attr ∷ []) = do s ← characters attr; ok (s ++ 10 ∷ [])
print_record_as_csv (attr ∷ next ∷ r) = do
  s ← characters attr
  rest ← print_record_as_csv (next ∷ r)
  ok (s ++ 44 ∷ rest)

-- The loop over the tokens: each is cut off at ten bytes.
unfoldable pub push_tokens : Record → List (List ℕ) → Run Record
push_tokens r [] = ok r
push_tokens r (token ∷ ts) = do
  attribute ← strncpy attribute_size token
  push_tokens (r ++ (attribute ++ 0 ∷ []) ∷ []) ts

unfoldable pub load_csv_record : Record → List ℕ → Run Record
load_csv_record r line = do r' ← push_tokens r (tokens line); assert (length r' == 100); ok r'

-- `memory` is what the eleven bytes of `tupId` hold when they are allocated: only the last of them
-- is written, and `tupleId` is not used.
unfoldable pub load_col_record : List ℕ → Record → List ℕ → ℕ → Run Record
load_col_record memory r token tuple_id = do
  attribute ← strncpy attribute_size token
  ok (r ++ set memory attribute_size 0 ∷ (attribute ++ 0 ∷ []) ∷ [])
