-- ===== src/Tools/Edit.antt =====
-- The tools that change a heap file: a1/csv2heapfile.cpp, a1/insert.cpp, a1/delete.cpp and
-- a1/update.cpp.
use database_assignments.Base.{
  ℕ, not, ◌||◌, Option, none, some, List, [], ◌∷◌, ◌++◌, Run, ok, stop, out_of_bounds, ◌>>=◌, load,
  is_positive, ltb, if◌then◌else◌, ◌==◌, length, set, replicate,
}
use database_assignments.CString.{strncpy, tokens, int_of, fgets_lines}
use database_assignments.Record.{attribute_size, Record, load_csv_record}
use database_assignments.Heapfile.{RecordId, Heapfile, init_heapfile}
use database_assignments.Heapfile.Records.{
  put_record, get_record, update_record, delete_record, create_heapfile, open_heapfile,
  close_heapfile,
}
use database_assignments.Tools.{Exit, refused, finished, int_argument, is_not_negative}

-- The loop over the lines of the CSV file.
unfoldable pub put_lines : Heapfile → List (List ℕ) → Run Heapfile
put_lines h [] = ok h
put_lines h (line ∷ lines) = do
  rec ← load_csv_record [] line
  h' ← put_record h rec
  put_lines h' lines

-- `new Heapfile`, `init_heapfile(heapfile, page_size, 1000)`, `open_heapfile(heapfile, file)`
unfoldable pub open_rows : ℕ → List ℕ → Run Heapfile
open_rows page_size file = do h ← init_heapfile page_size 1000; open_heapfile h file

-- The heap file that the tool leaves.
unfoldable pub insert_main : List (List ℕ) → List ℕ → Option (List ℕ) → Run (Exit (List ℕ))
insert_main argv file none = ok refused
insert_main argv file (some csv) = if not (length argv == 4) then ok refused else do
  page_size ← int_argument argv 3
  if not (is_positive page_size) then ok refused else do
    h ← open_rows page_size file
    h' ← put_lines h (fgets_lines csv)
    file' ← close_heapfile h'
    ok (finished file')

unfoldable pub csv2heapfile_main : List (List ℕ) → Option (List ℕ) → Run (Exit (List ℕ))
csv2heapfile_main argv none = ok refused
csv2heapfile_main argv (some csv) = if not (length argv == 4) then ok refused else do
  page_size ← int_argument argv 3
  if not (is_positive page_size) then ok refused else do
    h ← init_heapfile page_size 1000
    h' ← create_heapfile h
    h'' ← put_lines h' (fgets_lines csv)
    file' ← close_heapfile h''
    ok (finished file')

-- The page and the slot in "pid,slot". A number that is missing keeps what `memory` holds in its
-- variable, which is not initialised. A token has its terminator, so that `atoi` stays inside it.
unfoldable pub parse_rid : RecordId → List ℕ → RecordId
parse_rid memory text = elim (tokens text) [
  | [] ↦ memory
  | a ∷ ts ↦ elim ts [
    | [] ↦ record memory { page_id = int_of a }
    | b ∷ _ ↦ record { page_id = int_of a; slot = int_of b }
  ]
]

unfoldable pub delete_main : RecordId → List (List ℕ) → List ℕ → Run (Exit (List ℕ))
delete_main memory argv file = if not (length argv == 4) then ok refused else do
  page_size ← int_argument argv 3
  record_id ← load argv 2
  let rid = parse_rid memory record_id
  if not (is_not_negative rid.page_id)
        || not (is_not_negative rid.slot)
        || not (is_positive page_size)
      then ok refused
      else do
        h ← open_rows page_size file
        h' ← delete_record h rid
        file' ← close_heapfile h'
        ok (finished file')

-- `rec[i] = value` on a vector, which does not check the index
unfoldable pub assign : Record → ℕ → List ℕ → Run Record
assign rec i value = if ltb i (length rec) then ok (set rec i value) else stop out_of_bounds

-- The work on the open heap file: a record is read into `places`, one attribute is changed, and the
-- record is written.
unfoldable pub update_attribute : Record → Heapfile → RecordId → ℕ → List ℕ → Run Heapfile
update_attribute places h rid attribute_id new_value = do
  (h', rec) ← get_record h rid places
  rec' ← assign rec attribute_id new_value
  update_record h' rid rec'

unfoldable pub update_main : RecordId → List (List ℕ) → List ℕ → Run (Exit (List ℕ))
update_main memory argv file = if not (length argv == 6) then ok refused else do
  attribute_id ← int_argument argv 3
  page_size ← int_argument argv 5
  record_id ← load argv 2
  let rid = parse_rid memory record_id
  value ← load argv 4
  new_value ← strncpy attribute_size value
  if not (is_not_negative rid.page_id)
        || not (is_not_negative rid.slot)
        || not (is_not_negative attribute_id)
        || not (is_positive page_size)
      then ok refused
      else do
        h ← open_rows page_size file
        h' ← update_attribute (replicate 100 []) h rid attribute_id (new_value ++ 0 ∷ [])
        file' ← close_heapfile h'
        ok (finished file')
