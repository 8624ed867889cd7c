-- ===== src/Heapfile/Records.antt =====
-- The record functions of a1/heapfile.cpp, and creating, opening and closing a heap file.
use database_assignments.Base.{
  ℕ, zero, suc, ◌+◌, ◌-◌, ◌/◌, some, List, [], ◌∷◌, ◌++◌, Run, ok, stop, out_of_fuel,
  division_by_zero, ◌%◌, ◌^◌, ◌>>=◌, ◌>>◌, assert, load, load_int, if◌then◌else◌, ◌==◌, length,
}
use database_assignments.Record.{Record}
use database_assignments.Page.{
  add_fixed_len_page, read_fixed_len_page, write_fixed_len_page, delete_fixed_len_page,
}
use database_assignments.Directory.{
  Directory, next_directory, n_entries, entry_free_space, rounds_to, init_directory_page,
}
use database_assignments.Heapfile.{RecordId, Heapfile, read_block, write_block, cached}
use database_assignments.Heapfile.Ops.{get_page, commit_page, get_free_pid, write_out_cache}

-- `assert(page == page2)` compares two pointers to the cached page: it holds since the page is
-- still cached, and the model has no pointers to compare.
unfoldable pub put_record : Heapfile → Record → Run Heapfile
put_record h r = do
  (h', pid) ← get_free_pid h
  h'' ← get_page h' pid
  page ← cached h''
  (page', _) ← add_fixed_len_page page r
  byte ← load page'.bytes (page'.page_size - 1)
  h₃ ← commit_page (record h'' { cached_page = some page' }) pid
  h₄ ← get_page h₃ pid
  page2 ← cached h₄
  byte2 ← load page2.bytes (page'.page_size - 1)
  assert (byte == byte2)
  ok h₄

-- The heap file after the call, and the record.
unfoldable pub get_record : Heapfile → RecordId → Record → Run (Heapfile × Record)
get_record h rid r = do
  h' ← get_page h rid.page_id
  page ← cached h'
  r' ← read_fixed_len_page page rid.slot r
  ok (h', r')

unfoldable pub update_record : Heapfile → RecordId → Record → Run Heapfile
update_record h rid r = do
  h' ← get_page h rid.page_id
  page ← cached h'
  page' ← write_fixed_len_page page rid.slot r
  commit_page (record h' { cached_page = some page' }) rid.page_id

unfoldable pub delete_record : Heapfile → RecordId → Run Heapfile
delete_record h rid = do
  h' ← get_page h rid.page_id
  page ← cached h'
  page' ← delete_fixed_len_page page rid.slot
  commit_page (record h' { cached_page = some page' }) rid.page_id

-- `fopen(filename, "w+")` gives an empty file.
unfoldable pub create_heapfile : Heapfile → Run Heapfile
create_heapfile h = do
  directory ← init_directory_page h.page_size 0
  h' ← write_block (record h { file = [] }) directory.bytes 0
  ok (record h' { directory_buffer = h'.directory_buffer ++ directory ∷ [] })

-- The loop over the chain of directories. In a file whose chain has a cycle it does not end.
unfoldable pub open_loop : ℕ → Heapfile → ℕ → Run Heapfile
open_loop zero h offset = stop out_of_fuel
open_loop (suc fuel) h offset = do
  directory ← init_directory_page h.page_size offset
  bytes ← read_block h offset
  let h' = record h {
    directory_buffer = h.directory_buffer ++ record directory { bytes = bytes } ∷ [];
  }
  next ← load_int bytes next_directory
  let rest = open_loop fuel h' next
  if next == 0 then ok h' else rest

-- A chain without a cycle has no more directories than the file has blocks.
unfoldable pub open_heapfile : Heapfile → List ℕ → Run Heapfile
open_heapfile h file = open_loop (length file / h.page_size + 1) (record h { file = file }) 0

-- `page_capacity` as `close_heapfile` computes it.
unfoldable pub counted_capacity : Heapfile → Run ℕ
counted_capacity h =
    let directory_size = (h.page_size / h.slot_size + 7) / 8 in
    if h.slot_size == 0
    then stop division_by_zero
    else ok ((h.page_size - directory_size) / h.slot_size)

-- The sum over the entries of a directory, "DEBUG PURPOSE", as the pattern of an `int`. Nothing uses
-- it, but the loop reads each of the entries.
unfoldable pub sum_records : ℕ → ℕ → ℕ → Directory → ℕ → Run ℕ
sum_records page_capacity zero i dir num_records = ok num_records
sum_records page_capacity (suc rounds) i dir num_records = do
  free_space ← load_int dir.bytes (entry_free_space i)
  sum_records page_capacity rounds (i + 1) dir
      ((num_records + page_capacity % 2 ^ 32 + (2 ^ 32 - free_space)) % 2 ^ 32)

unfoldable pub write_directories : List Directory → Heapfile → Run Heapfile
write_directories [] h = ok h
write_directories (dir ∷ dirs) h = do
  h' ← write_block h dir.bytes dir.offset
  page_capacity ← counted_capacity h'
  n ← load_int dir.bytes n_entries
  _ ← sum_records page_capacity (rounds_to n) 0 dir 0
  write_directories dirs h'

-- The file that is left.
unfoldable pub close_heapfile : Heapfile → Run (List ℕ)
close_heapfile h = do
  h' ← write_out_cache h
  h'' ← write_directories h'.directory_buffer h'
  ok h''.file
