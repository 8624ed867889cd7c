-- ===== src/Tools/ColumnStore.antt =====
-- a1/csv2colstore.cpp: a heap file for each column of a CSV file.
use database_assignments.Base.{
  ℕ, zero, suc, ◌+◌, not, Option, none, some, List, [], ◌∷◌, Run, ok, stop, out_of_bounds, ◌>>=◌,
  load, is_positive, ltb, if◌then◌else◌, ◌==◌, length, set,
}
use database_assignments.CString.{tokens, fgets_lines}
use database_assignments.Record.{load_col_record}
use database_assignments.Heapfile.{Heapfile, init_heapfile}
use database_assignments.Heapfile.Records.{put_record, create_heapfile, close_heapfile}
use database_assignments.Tools.{Exit, refused, finished, int_argument, column_filename}

-- The record of a token, put into a column's heap file. `memory` is as in `load_col_record`.
unfoldable pub put_token : List ℕ → Heapfile → List ℕ → ℕ → Run Heapfile
put_token memory h token tuple_id = do
  rec ← load_col_record memory [] token tuple_id
  put_record h rec

-- The loop over the tokens of the first line: a heap file is made for each, and stored in
-- `heapfiles[100]`. The result has the name of each heap file with it.
unfoldable pub create_columns :
    List ℕ → List ℕ → ℕ → ℕ → List (List ℕ) → Run (List (List ℕ × Heapfile))
create_columns memory directory_name page_size attribute_id [] = ok []
create_columns memory directory_name page_size attribute_id (token ∷ ts) = do
  filename ← column_filename directory_name attribute_id
  h ← init_heapfile page_size 20
  h' ← create_heapfile h
  if not (ltb attribute_id 100) then stop out_of_bounds else do
    h'' ← put_token memory h' token 0
    rest ← create_columns memory directory_name page_size (attribute_id + 1) ts
    ok ((filename, h'') ∷ rest)

-- The loop over the tokens of another line. An element of `heapfiles` that no column has set is
-- not initialised.
unfoldable pub put_columns :
    List ℕ → ℕ → ℕ → List (List ℕ) → List (List ℕ × Heapfile) → Run (List (List ℕ × Heapfile))
put_columns memory tuple_id attribute_id [] heapfiles = ok heapfiles
put_columns memory tuple_id attribute_id (token ∷ ts) heapfiles = do
  (filename, h) ← load heapfiles attribute_id
  h' ← put_token memory h token tuple_id
  put_columns memory tuple_id (attribute_id + 1) ts (set heapfiles attribute_id (filename, h'))

unfoldable pub put_rows :
    List ℕ → ℕ → List (List ℕ) → List (List ℕ × Heapfile) → Run (List (List ℕ × Heapfile))
put_rows memory tuple_id [] heapfiles = ok heapfiles
put_rows memory tuple_id (line ∷ lines) heapfiles = do
  heapfiles' ← put_columns memory tuple_id 0 (tokens line) heapfiles
  put_rows memory (tuple_id + 1) lines heapfiles'

-- `for (int i = 0; i < 100; i++)`, which reads all of `heapfiles`
unfoldable pub close_columns : ℕ → ℕ → List (List ℕ × Heapfile) → Run (List (List ℕ × List ℕ))
close_columns zero i heapfiles = ok []
close_columns (suc rounds) i heapfiles = do
  (filename, h) ← load heapfiles i
  file ← close_heapfile h
  rest ← close_columns rounds (i + 1) heapfiles
  ok ((filename, file) ∷ rest)

-- The names and contents of the files that the tool leaves. Without a first line the tool splits
-- what `line` holds before it is set, which is undefined.
unfoldable pub csv2colstore_main :
    List ℕ → List (List ℕ) → Option (List ℕ) → Run (Exit (List (List ℕ × List ℕ)))
csv2colstore_main memory argv none = ok refused
csv2colstore_main memory argv (some csv) = if not (length argv == 4) then ok refused else do
  page_size ← int_argument argv 3
  directory_name ← load argv 2
  if not (is_positive page_size) then ok refused else elim (fgets_lines csv) [
    | [] ↦ stop out_of_bounds
    | line ∷ lines ↦ do
      heapfiles ← create_columns memory directory_name page_size 0 (tokens line)
      heapfiles' ← put_rows memory 1 lines heapfiles
      files ← close_columns 100 0 heapfiles'
      ok (finished files)
  ]
