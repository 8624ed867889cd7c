-- ===== src/Tools/PageFile.antt =====
-- a1/write_fixed_len_pages.cpp and a1/read_fixed_len_pages.cpp: a file that is a sequence of pages.
use database_assignments.Base.{
  ℕ, zero, suc, ◌+◌, ◌-◌, not, Option, none, some, List, [], ◌∷◌, ◌++◌, Run, ok, stop,
  out_of_bounds, out_of_fuel, ◌>>=◌, ◌>>◌, assert, is_positive, if◌then◌else◌, ◌==◌, length, take,
  drop, splice, replicate,
}
use database_assignments.CString.{tokens, fgets_lines}
use database_assignments.Record.{Record, push_tokens, print_record_as_csv}
use database_assignments.Page.{
  Page, init_fixed_len_page, fixed_len_page_capacity, fixed_len_page_freeslots, add_fixed_len_page,
  read_fixed_len_page,
}
use database_assignments.Tools.{Exit, refused, finished, int_argument}

-- The tool's own copy of `load_csv_record`
unfoldable pub load_record : Record → List ℕ → Run Record
load_record r line = do r' ← push_tokens r (tokens line); assert (length r' == 100); ok r'

-- `page == NULL || fixed_len_page_freeslots(page) == 0`: the page to add to, and what has been
-- written of the file by then.
unfoldable pub page_with_room : ℕ → Option Page → List ℕ → Run (Page × List ℕ)
page_with_room page_size none file = do page ← init_fixed_len_page page_size 1000; ok (page, file)
page_with_room page_size (some page) file = do
  free ← fixed_len_page_freeslots page
  let full : Run (Page × List ℕ) = do
    fresh ← init_fixed_len_page page_size 1000
    ok (fresh, file ++ page.bytes)
  if free == 0 then full else ok (page, file)

-- The loop over the lines, and the last page, which is written after it: without a line it is the
-- null pointer.
unfoldable pub write_lines : ℕ → Option Page → List ℕ → List (List ℕ) → Run (List ℕ)
write_lines page_size none file [] = stop out_of_bounds
write_lines page_size (some page) file [] = ok (file ++ page.bytes)
write_lines page_size page file (line ∷ lines) = do
  rec ← load_record [] line
  (page', file') ← page_with_room page_size page file
  (page'', _) ← add_fixed_len_page page' rec
  write_lines page_size (some page'') file' lines

-- The page file after the call; `page_file` is whether it can be opened.
unfoldable pub write_fixed_len_pages_main :
    List (List ℕ) → Option (List ℕ) → Option (List ℕ) → Run (Exit (List ℕ))
write_fixed_len_pages_main argv none page_file = ok refused
write_fixed_len_pages_main argv (some csv) none = ok refused
write_fixed_len_pages_main argv (some csv) (some _) =
    if not (length argv == 4) then ok refused else do
      page_size ← int_argument argv 3
      if not (is_positive page_size)
          then ok refused
          else do file ← write_lines page_size none [] (fgets_lines csv); ok (finished file)

-- The loop over the records of a page, with `rounds` records left.
unfoldable pub print_slots : ℕ → ℕ → Page → Record → Run (Record × List (List ℕ))
print_slots zero i page rec = ok (rec, [])
print_slots (suc rounds) i page rec = do
  rec' ← read_fixed_len_page page i rec
  line ← print_record_as_csv rec'
  (rec'', lines) ← print_slots rounds (i + 1) page rec'
  ok (rec'', line ∷ lines)

-- One page: as many slots as are taken are read, from the first on.
unfoldable pub print_page : ℕ → List ℕ → Run (List (List ℕ))
print_page page_size line = do
  page ← init_fixed_len_page page_size 1000
  let page' = record page { bytes = line }
  free ← fixed_len_page_freeslots page'
  let num_recs = fixed_len_page_capacity page' - free
  (_, lines) ← print_slots num_recs 0 page' (replicate 100 [])
  ok lines

-- `while (fread(line, 1, page_size, page_file))`: a short read leaves the rest of `line` as it was.
unfoldable pub read_pages : ℕ → ℕ → List ℕ → List ℕ → Run (List (List ℕ))
read_pages fuel page_size line [] = ok []
read_pages zero page_size line (c ∷ file) = stop out_of_fuel
read_pages (suc fuel) page_size line (c ∷ file) = do
  let line' = splice line 0 (take page_size (c ∷ file))
  lines ← print_page page_size line'
  rest ← read_pages fuel page_size line' (drop page_size (c ∷ file))
  ok (lines ++ rest)

-- What is printed. `memory` is what `line` holds before the first read; each round reads a byte at
-- least.
unfoldable pub read_fixed_len_pages_main :
    List ℕ → List (List ℕ) → Option (List ℕ) → Run (Exit (List (List ℕ)))
read_fixed_len_pages_main memory argv none = ok refused
read_fixed_len_pages_main memory argv (some file) =
    if not (length argv == 3) then ok refused else do
      page_size ← int_argument argv 2
      if not (is_positive page_size) then ok refused else do
        lines ← read_pages (length file) page_size (take page_size memory) file
        ok (finished lines)
