-- ===== src/Tools/Query.antt =====
-- The tools that print records: a1/scan.cpp, a1/select.cpp, a1/select2.cpp and a1/select3.cpp. The
-- result is what is printed, and the heap file that is left.
use database_assignments.Base.{
  ℕ, zero, suc, ◌+◌, ◌*◌, Bool, true, false, not, ◌||◌, Option, List, [], ◌∷◌, ◌++◌, Run, ok, stop,
  out_of_fuel, ◌>>=◌, load, is_positive, if◌then◌else◌, ◌==◌, length,
}
use database_assignments.CString.{below, same, above, strcmp, atoi}
use database_assignments.Record.{Record, print_record_as_csv}
use database_assignments.Heapfile.{Heapfile, init_heapfile}
use database_assignments.Heapfile.Records.{open_heapfile, close_heapfile}
use database_assignments.Heapfile.Iterator.{
  RecordIterator, pages_bound, new_iterator, next, has_next, next_rid,
}
use database_assignments.Tools.{
  Exit, refused, finished, int_argument, is_not_negative, column_filename, print_substring,
}

-- The rounds that a loop over the records may take: one for each slot of each page.
abbrev pub records_bound : Heapfile → ℕ
records_bound h = pages_bound h * h.page_size + 1

-- `while (rit.hasNext())` of the scan: the number of each record, and the line printed for it.
unfoldable pub scan_loop :
    ℕ → Heapfile → RecordIterator → Run (Heapfile × List ((ℕ × Option ℕ) × List ℕ))
scan_loop zero h rit = stop out_of_fuel
scan_loop (suc fuel) h rit =
    let rest : Run (Heapfile × List ((ℕ × Option ℕ) × List ℕ)) = do
      let rid = next_rid rit
      (h', rit', rec) ← next h rit
      line ← print_record_as_csv rec
      (h'', lines) ← scan_loop fuel h' rit'
      ok (h'', (rid, line) ∷ lines)
    in if has_next rit then rest else ok (h, [])

-- The page size is tested after the heap file has been opened with it. `memory` is what
-- `has_next` of the iterator holds before it is set.
unfoldable pub scan_main :
    Bool → List (List ℕ) → List ℕ → Run (Exit (List ((ℕ × Option ℕ) × List ℕ) × List ℕ))
scan_main memory argv file = if not (length argv == 3) then ok refused else do
  page_size ← int_argument argv 2
  h ← init_heapfile page_size 1000
  h' ← open_heapfile h file
  if not (is_positive page_size) then ok refused else do
    (h₁, rit) ← new_iterator h' memory
    (h₂, lines) ← scan_loop (records_bound h₁) h₁ rit
    file' ← close_heapfile h₂
    ok (finished (lines, file'))

-- `strcmp(attr, start) >= 0 && strcmp(attr, end) <= 0`
unfoldable pub in_range : List ℕ → List ℕ → List ℕ → Run Bool
in_range attr first last = do
  low ← strcmp attr first
  elim low [
    | below ↦ ok false
    | same ↦ do
      high ← strcmp attr last
      elim high [ below ↦ ok true | same ↦ ok true | above ↦ ok false ]
    | above ↦ do
      high ← strcmp attr last
      elim high [ below ↦ ok true | same ↦ ok true | above ↦ ok false ]
  ]

-- The loop over the records, with what `attribute` of each record in the range gives.
unfoldable pub select_loop :
    ℕ → ℕ → List ℕ → List ℕ → Heapfile → RecordIterator → Run (Heapfile × List Record)
select_loop zero attribute first last h rit = stop out_of_fuel
select_loop (suc fuel) attribute first last h rit =
    let rest : Run (Heapfile × List Record) = do
      (h', rit', rec) ← next h rit
      attr ← load rec attribute
      selected ← in_range attr first last
      (h'', recs) ← select_loop fuel attribute first last h' rit'
      ok (h'', if selected then rec ∷ recs else recs)
    in if has_next rit then rest else ok (h, [])

-- The substring printed for each of the records.
unfoldable pub print_column : ℕ → List Record → Run (List (List ℕ))
print_column attribute [] = ok []
print_column attribute (rec ∷ recs) = do
  attr ← load rec attribute
  line ← print_substring attr
  lines ← print_column attribute recs
  ok (line ∷ lines)

-- Opening a heap file, selecting from it and closing it; `attribute` as in `select_loop`.
unfoldable pub select_in : Bool → ℕ → ℕ → ℕ → List ℕ → List ℕ → List ℕ → Run (List Record × List ℕ)
select_in memory page_size slot_size attribute first last file = do
  h ← init_heapfile page_size slot_size
  h' ← open_heapfile h file
  (h₁, rit) ← new_iterator h' memory
  (h₂, recs) ← select_loop (records_bound h₁) attribute first last h₁ rit
  file' ← close_heapfile h₂
  ok (recs, file')

unfoldable pub select_main : Bool → List (List ℕ) → List ℕ → Run (Exit (List (List ℕ) × List ℕ))
select_main memory argv file = if not (length argv == 6) then ok refused else do
  attribute_id ← int_argument argv 2
  page_size ← int_argument argv 5
  first ← load argv 3
  last ← load argv 4
  if not (is_positive page_size) || not (is_not_negative attribute_id) then ok refused else do
    (recs, file') ← select_in memory page_size 1000 attribute_id first last file
    lines ← print_column attribute_id recs
    ok (finished (lines, file'))

-- The files of a column store are found by name.
unfoldable pub select2_main :
    Bool → List (List ℕ) → (List ℕ → List ℕ) → Run (Exit (List (List ℕ) × List ℕ))
select2_main memory argv files = if not (length argv == 6) then ok refused else do
  attribute_id ← int_argument argv 2
  page_size ← int_argument argv 5
  first ← load argv 3
  last ← load argv 4
  directory_name ← load argv 1
  if not (is_positive page_size) || not (is_not_negative attribute_id) then ok refused else do
    filename ← column_filename directory_name attribute_id
    (recs, file') ← select_in memory page_size 20 1 first last (files filename)
    lines ← print_column 1 recs
    ok (finished (lines, file'))

-- `atoi(rec[0])` of each of the records
unfoldable pub tuple_ids : List Record → Run (List ℕ)
tuple_ids [] = ok []
tuple_ids (rec ∷ recs) = do text ← load rec 0; id ← atoi text; ids ← tuple_ids recs; ok (id ∷ ids)

-- The search for the tuple with a number, up to the first that has it.
unfoldable pub find_tuple : ℕ → ℕ → Heapfile → RecordIterator → Run (Heapfile × List (List ℕ))
find_tuple zero tuple_id h rit = stop out_of_fuel
find_tuple (suc fuel) tuple_id h rit =
    let rest : Run (Heapfile × List (List ℕ)) = do
      (h', rit', rec) ← next h rit
      text ← load rec 0
      id ← atoi text
      let print : Run (Heapfile × List (List ℕ)) = do
        value ← load rec 1
        line ← print_substring value
        ok (h', line ∷ [])
      let later = find_tuple fuel tuple_id h' rit'
      if tuple_id == id then print else later
    in if has_next rit then rest else ok (h, [])

-- The loop over the numbers, each with an iterator of its own.
unfoldable pub find_tuples : Bool → List ℕ → Heapfile → Run (Heapfile × List (List ℕ))
find_tuples memory [] h = ok (h, [])
find_tuples memory (tuple_id ∷ ids) h = do
  (h₁, rit) ← new_iterator h memory
  (h₂, line) ← find_tuple (records_bound h₁) tuple_id h₁ rit
  (h₃, lines) ← find_tuples memory ids h₂
  ok (h₃, line ++ lines)

-- The files of both columns after the call are returned.
unfoldable pub select3_main :
    Bool → List (List ℕ) → (List ℕ → List ℕ) → Run (Exit (List (List ℕ) × List ℕ × List ℕ))
select3_main memory argv files = if not (length argv == 7) then ok refused else do
  attribute_id ← int_argument argv 2
  return_attribute_id ← int_argument argv 3
  page_size ← int_argument argv 6
  first ← load argv 4
  last ← load argv 5
  directory_name ← load argv 1
  if not (is_positive page_size)
        || not (is_not_negative attribute_id)
        || not (is_not_negative return_attribute_id)
      then ok refused
      else do
        filename ← column_filename directory_name attribute_id
        (recs, file') ← select_in memory page_size 20 1 first last (files filename)
        ids ← tuple_ids recs
        filename2 ← column_filename directory_name return_attribute_id
        h ← init_heapfile page_size 20
        h' ←
            open_heapfile h (if attribute_id == return_attribute_id then file' else files filename2)
        (h'', lines) ← find_tuples memory ids h'
        file'' ← close_heapfile h''
        ok (finished (lines, file', file''))
