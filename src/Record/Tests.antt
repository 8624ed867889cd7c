-- ===== src/Record/Tests.antt =====
-- Runs of the record functions on small inputs, and the theorems about them at those inputs.
use database_assignments.Base.{
  ℕ, zero, suc, List, ◌++◌, ◌≡◌, refl, [], ◌∷◌, arith, ok, ◌>>=◌, replicate,
}
use database_assignments.CString.{field}
use database_assignments.Record.{
  Record, fixed_len_sizeof, fixed_len_write, fixed_len_read, load_csv_record, print_record_as_csv,
}
use database_assignments.Record.Csv.{
  AreValues, join, terminated, add_newline, load_csv_record-clean,
  load_csv_record-print_record_as_csv,
}
use database_assignments.Record.Laws.{clean, fixed_len_read-fixed_len_write}

-- "ab" and "0123456789abc": the second is cut off.
abbrev two_fields : Record
two_fields =
    (97 ∷ 98 ∷ 0 ∷ [])
    ∷ (48 ∷ 49 ∷ 50 ∷ 51 ∷ 52 ∷ 53 ∷ 54 ∷ 55 ∷ 56 ∷ 57 ∷ 97 ∷ 98 ∷ 99 ∷ 0 ∷ [])
    ∷ []

abbrev blank : Record
blank = [] ∷ [] ∷ []

clean-two_fields :
    clean two_fields
    ≡ (97 ∷ 98 ∷ 0 ∷ 0 ∷ 0 ∷ 0 ∷ 0 ∷ 0 ∷ 0 ∷ 0 ∷ 0 ∷ [])
      ∷ (48 ∷ 49 ∷ 50 ∷ 51 ∷ 52 ∷ 53 ∷ 54 ∷ 55 ∷ 56 ∷ 57 ∷ 0 ∷ [])
      ∷ []
unfolding clean field
clean-two_fields = refl

fixed_len_read-fixed_len_write_example :
    (fixed_len_write two_fields (replicate 30 0) 5 >>= λ mem.
    fixed_len_read mem 5 (fixed_len_sizeof two_fields) blank)
    ≡ ok (clean two_fields)
unfolding fixed_len_sizeof
fixed_len_read-fixed_len_write_example =
    fixed_len_read-fixed_len_write two_fields blank (replicate 30 0) 5 (omega arith) (omega arith)
      refl

-- "hi", and 99 times "x"
abbrev hundred : List (List ℕ)
hundred = (104 ∷ 105 ∷ []) ∷ replicate 99 (120 ∷ [])

x_values : (n : ℕ) → AreValues (replicate n (120 ∷ []))
x_values zero = tt
x_values (suc n) = ((refl, refl, tt), x_values n)

hundred_values : AreValues hundred
hundred_values = ((refl, refl, (refl, refl, tt)), x_values 99)

load_csv_record-clean_example :
    load_csv_record [] (join hundred ++ 0 ∷ []) ≡ ok (clean (terminated hundred))
load_csv_record-clean_example = load_csv_record-clean hundred hundred_values

load_csv_record-print_record_as_csv_example :
    (print_record_as_csv (terminated hundred) >>= λ line. load_csv_record [] (line ++ 0 ∷ []))
    ≡ ok (clean (terminated (add_newline hundred)))
load_csv_record-print_record_as_csv_example =
    load_csv_record-print_record_as_csv hundred hundred_values refl
