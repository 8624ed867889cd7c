-- ===== src/Tools/SessionTests.antt =====
-- The tools of a1 from their arguments to the file that they leave, on one row.
use database_assignments.Base.{
  ℕ, zero, suc, ◌≡◌, refl, none, some, List, [], ◌∷◌, map, arith, ok, if◌then◌else◌, replicate,
}
use database_assignments.CString.{
  fgets_lines, fgets_from, atoi, characters, int_of, read_signed, read_digits, tokens, split_tokens,
}
use database_assignments.Record.{Record}
use database_assignments.Record.Csv.{AreValues, join}
use database_assignments.Record.Rows.{AreText}
use database_assignments.Heapfile.{RecordId, Heapfile}
use database_assignments.Heapfile.Contents.{record_at}
use database_assignments.Heapfile.Inserted.{AreInserted, AreAt, is_place}
use database_assignments.Tools.{finished, int_argument}
use database_assignments.Tools.Edit.{
  open_rows, csv2heapfile_main, insert_main, delete_main, parse_rid,
}
use database_assignments.Tools.Loading.{AreRows, line_of, row_record, IsForRows}
use database_assignments.Tools.Csv2Heapfile.{csv2heapfile_main-open_rows}
use database_assignments.Tools.Insert.{insert_main-open_rows}
use database_assignments.Tools.Delete.{delete_main-open_rows}
use database_assignments.Tools.SessionData.{
  one_page, one_page-IsForRows, one_slot, opened, resolve_first,
}

-- "hi", and 99 times "x"
abbrev row : List (List ℕ)
row = (104 ∷ 105 ∷ []) ∷ replicate 99 (120 ∷ [])

abbrev csv : List ℕ
csv = join row

-- The program's name, two file names, and "1010"
abbrev argv : List (List ℕ)
argv = (0 ∷ []) ∷ (0 ∷ []) ∷ (0 ∷ []) ∷ (49 ∷ 48 ∷ 49 ∷ 48 ∷ 0 ∷ []) ∷ []

-- "0,0" in place of the second file name
abbrev delete_argv : List (List ℕ)
delete_argv = (0 ∷ []) ∷ (0 ∷ []) ∷ (48 ∷ 44 ∷ 48 ∷ 0 ∷ []) ∷ (49 ∷ 48 ∷ 49 ∷ 48 ∷ 0 ∷ []) ∷ []

abbrev unset : RecordId
unset = record { page_id = 7; slot = 7 }

abbrev hundred_places : Record
hundred_places = replicate 100 []

x_values : (n : ℕ) → AreValues (replicate n (120 ∷ []))
x_values zero = tt
x_values (suc n) = ((refl, refl, tt), x_values n)

x_text : (n : ℕ) → AreText (replicate n (120 ∷ []))
x_text zero = tt
x_text (suc n) = ((omega arith, tt), x_text n)

one_row : AreRows (row ∷ [])
one_row = (
  ((refl, refl, (refl, refl, tt)), x_values 99),
  refl,
  ((omega arith, (omega arith, tt)), x_text 99),
  tt,
)

number : int_argument argv 3 ≡ ok 1010
unfolding atoi characters int_of read_signed read_digits
number = refl

delete_number : int_argument delete_argv 3 ≡ ok 1010
unfolding atoi characters int_of read_signed read_digits
delete_number = refl

one_line : fgets_lines csv ≡ map line_of (row ∷ [])
unfolding fgets_lines fgets_from
one_line = refl

first_place : parse_rid unset (48 ∷ 44 ∷ 48 ∷ 0 ∷ []) ≡ record { page_id = 0; slot = 0 }
unfolding parse_rid tokens split_tokens int_of read_signed read_digits
first_place = refl

csv2heapfile_main-open_rows_example :
    (file : List ℕ) × (h : Heapfile) × (rids : List RecordId) × (csv2heapfile_main argv (some csv)
      ≡ ok (finished file))
    × (open_rows 1010 file ≡ ok h)
    × IsForRows h
    × AreInserted (λ q t. none) rids (map row_record (row ∷ [])) (record_at hundred_places h)
    × AreAt (record_at hundred_places h) rids (map row_record (row ∷ []))
csv2heapfile_main-open_rows_example =
    csv2heapfile_main-open_rows 1010 (omega arith) (omega arith) hundred_places (row ∷ []) refl
      one_row (omega arith) argv csv refl number one_line

insert_main-open_rows_example :
    (file' : List ℕ) × (h' : Heapfile) × (rids : List RecordId) × (insert_main argv one_page.file
        (some csv)
      ≡ ok (finished file'))
    × (open_rows 1010 file' ≡ ok h')
    × IsForRows h'
    × (h'.page_size ≡ 1010)
    × AreInserted
        (record_at hundred_places one_page)
        rids
        (map row_record (row ∷ []))
        (record_at hundred_places h')
insert_main-open_rows_example =
    insert_main-open_rows 1010 hundred_places (row ∷ []) argv csv one_page.file one_page
      (omega arith) (omega arith) refl one_row refl number one_line opened one_page-IsForRows refl
      (omega arith)

delete_main-open_rows_example :
    (file' : List ℕ) × (h' : Heapfile) × (delete_main unset delete_argv one_page.file
      ≡ ok (finished file'))
    × (open_rows 1010 file' ≡ ok h')
    × IsForRows h'
    × (h'.page_size ≡ 1010)
    × ((q t : ℕ)
        → record_at hundred_places h' q t ≡ (
            if is_place (record { page_id = 0; slot = 0 }) q t
            then none
            else record_at hundred_places one_page q t))
delete_main-open_rows_example =
    delete_main-open_rows 1010 hundred_places delete_argv one_page.file one_page (omega arith)
      (omega arith) refl refl delete_number opened one_page-IsForRows refl unset
      (record { page_id = 0; slot = 0 }) (48 ∷ 44 ∷ 48 ∷ 0 ∷ []) 1010 refl first_place (omega arith)
      one_slot resolve_first
