-- ===== src/Heapfile/Ops.antt =====
-- The operations of a1/heapfile.cpp on the cache, the directories and the records.
use database_assignments.Base.{
  ℕ, ◌+◌, ◌-◌, ◌*◌, ◌%◌, ◌^◌, Bool, true, false, Option, none, some, List, [], ◌∷◌, ◌++◌, Run, ok,
  stop, out_of_bounds, ◌>>=◌, ◌>>◌, assert, load, store_int, if◌then◌else◌, ◌==◌, length, set,
}
use database_assignments.Page.{init_fixed_len_page, fixed_len_page_freeslots}
use database_assignments.Directory.{
  Entry, Directory, next_directory, entry_free_space, init_directory_page, is_full,
  next_vacant_slot, find_free_page, store_entry,
}
use database_assignments.Heapfile.{
  Heapfile, read_block, write_block, get_entry, get_cached_entry, cached, load_offset,
}

-- `write_block(heapfile, cached_page->data, get_entry(heapfile, cached_pid)->offset)`
unfoldable pub write_cached_page : Heapfile → Run Heapfile
write_cached_page h = do
  place ← get_cached_entry h
  page ← cached h
  offset ← load_offset place
  write_block h page.bytes offset

-- "write out cache in buffer if dirty"
unfoldable pub write_out_cache : Heapfile → Run Heapfile
write_out_cache h = if h.page_cache_dirty then write_cached_page h else ok h

abbrev pub is_cached : Heapfile → ℕ → Bool
is_cached h pid = elim h.cached_pid [ none ↦ false | some c ↦ c == pid ]

-- The rest of `get_page`, where the page is not the cached one.
unfoldable pub load_page : Heapfile → ℕ → Run Heapfile
load_page h pid = do
  h' ← write_out_cache h
  page ← init_fixed_len_page h'.page_size h'.slot_size
  place ← get_entry h' pid
  offset ← load_offset place
  block ← read_block h' offset
  ok (record h' {
    cached_page = some (record page { bytes = block });
    cached_pid = some pid;
    page_cache_dirty = false;
  })

unfoldable pub get_page : Heapfile → ℕ → Run Heapfile
get_page h pid = if is_cached h pid then ok h else load_page h pid

unfoldable pub commit_page : Heapfile → ℕ → Run Heapfile
commit_page h pid = do
  place ← get_cached_entry h
  page ← cached h
  free ← fixed_len_page_freeslots page
  bytes ← store_int place.dir.bytes (entry_free_space place.slot_no) free
  assert (is_cached h pid)
  ok (record h {
    directory_buffer = set h.directory_buffer place.dir_no (record place.dir { bytes = bytes });
    page_cache_dirty = true;
  })

-- The page number of the entry, if one of the directories, from the `dir_no`th on, is not full.
unfoldable pub append_in : List Directory → ℕ → Heapfile → Entry → Run (Option (Heapfile × ℕ))
append_in [] dir_no h e = ok none
append_in (dir ∷ dirs) dir_no h e = do
  full ← is_full dir
  let rest = append_in dirs (dir_no + 1) h e
  if full then rest else do
    (dir', slot_no) ← next_vacant_slot dir
    dir'' ← store_entry dir' slot_no e
    ok (
        some (
          record h { directory_buffer = set h.directory_buffer dir_no dir'' },
          dir_no * dir.capacity + slot_no,
        ))

-- A new directory at the end of the file, linked from the last one.
unfoldable pub append_directory : Heapfile → Entry → Run (Heapfile × ℕ)
append_directory h e = do
  let num_directories = length h.directory_buffer
  last_dir ←
      (if num_directories == 0
        then stop out_of_bounds
        else load h.directory_buffer (num_directories - 1))
  let offset = length h.file % 2 ^ 32
  bytes ← store_int last_dir.bytes next_directory offset
  let linked = set h.directory_buffer (num_directories - 1) (record last_dir { bytes = bytes })
  new_dir ← init_directory_page h.page_size offset
  h' ← write_block (record h { directory_buffer = linked }) new_dir.bytes offset
  (dir', slot_no) ← next_vacant_slot new_dir
  dir'' ← store_entry dir' slot_no e
  ok (
    record h' { directory_buffer = h'.directory_buffer ++ dir'' ∷ [] },
    num_directories * new_dir.capacity + slot_no,
  )

unfoldable pub append_entry : Heapfile → Entry → Run (Heapfile × ℕ)
append_entry h e = do
  found ← append_in h.directory_buffer 0 h e
  elim found [ some result ↦ ok result | none ↦ append_directory h e ]

unfoldable pub alloc_page : Heapfile → Run (Heapfile × ℕ)
alloc_page h = do
  page ← init_fixed_len_page h.page_size h.slot_size
  free ← fixed_len_page_freeslots page
  let offset = length h.file % 2 ^ 32
  h' ← write_block h page.bytes offset
  (h'', pid) ← append_entry h' (record { offset = offset; free_space = free })
  h''' ← write_out_cache h''
  ok (record h''' { cached_page = some page; cached_pid = some pid; page_cache_dirty = false }, pid)

unfoldable pub vacant_from : List Directory → ℕ → Run (Option ℕ)
vacant_from [] dir_no = ok none
vacant_from (dir ∷ dirs) dir_no = do
  slot ← find_free_page dir
  let rest = vacant_from dirs (dir_no + 1)
  elim slot [ some slot_no ↦ ok (some (dir_no * dir.capacity + slot_no)) | none ↦ rest ]

unfoldable pub vacant_page_id : Heapfile → Run (Option ℕ)
vacant_page_id h = vacant_from h.directory_buffer 0

unfoldable pub get_free_pid : Heapfile → Run (Heapfile × ℕ)
get_free_pid h = do
  pid ← vacant_page_id h
  elim pid [ some pid' ↦ ok (h, pid') | none ↦ alloc_page h ]
