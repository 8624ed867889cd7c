-- ===== src/Heapfile.antt =====
-- a1/heapfile.h and a1/heapfile.cpp: a file of pages behind directory pages, with a cache of one
-- page that is written back when another page is asked for.
--
-- A page that `get_page` returns is the cached page itself, so the functions here return the heap
-- file alone, and its field `cached_page` is the page; a change to it is a change to that field.
-- The null page and the page number -1 are `none`. A file is the list of its bytes.
pub mod Ops
pub mod Records
pub mod Iterator
pub mod Blocks
pub mod Entries
pub mod Coherence
pub mod Cache
pub mod Commit
pub mod Store
pub mod Visits
pub mod Moves
pub mod Places
pub mod Enumeration
pub mod Closing
pub mod Opening
pub mod Reopen
pub mod Creating
pub mod Adding
pub mod Missing
pub mod EntryAt
pub mod Appending
pub mod Ends
pub mod EntryFits
pub mod Extending
pub mod Linked
pub mod Linking
pub mod Chained
pub mod Chains
pub mod Stored
pub mod Laid
pub mod FreeSpace
pub mod LaidStored
pub mod Accounted
pub mod Vacant
pub mod Contents
pub mod Added
pub mod Putting
pub mod Inserted
pub mod Allocating
pub mod Growing
mod Tests
mod IteratorTests
mod ReopenTests
mod RecordTests
mod PuttingTests
use database_assignments.Base.{
  ℕ, zero, suc, ◌+◌, ◌-◌, ◌*◌, ◌/◌, ◌%◌, ◌^◌, ◌≡◌, Bool, true, false, not, ◌&&◌, Option, none, some,
  List, [], ◌∷◌, ◌++◌, Run, ok, stop, out_of_bounds, exit_failure, seek_failed, ◌>>=◌, ◌>>◌, assert,
  load, load_int, store_int, below_int, leb, ltb, if◌then◌else◌, ◌==◌, length, set, splice, take,
  drop, replicate,
}
use database_assignments.Page.{Page, init_fixed_len_page, fixed_len_page_freeslots}
use database_assignments.Directory.{
  Entry, Directory, next_directory, n_entries, entry_offset, entry_free_space, init_directory_page,
  is_full, next_vacant_slot, find_free_page, store_entry,
}

pub record RecordId : Type 0 where
  pub page_id : ℕ
  pub slot : ℕ

pub record Heapfile : Type 0 where
  pub file : List ℕ
  pub page_size : ℕ
  pub directory_buffer : List Directory
  pub cached_page : Option Page
  pub cached_pid : Option ℕ
  pub page_cache_dirty : Bool
  pub slot_size : ℕ

-- The struct before the call: `new Heapfile` leaves all but the vector undetermined, and the call
-- sets all but the file.
unfoldable pub init_heapfile : ℕ → ℕ → Run Heapfile
init_heapfile page_size slot_size = do
  assert (ltb 1001 page_size)
  ok (record {
    file = [];
    page_size = page_size;
    directory_buffer = [];
    cached_page = none;
    cached_pid = none;
    page_cache_dirty = false;
    slot_size = slot_size;
  })

-- Writing a block past the end of a file fills the gap with zeros.
abbrev pub write_at : List ℕ → ℕ → List ℕ → List ℕ
write_at file offset b = splice (file ++ replicate (offset + length b - length file) 0) offset b

-- `fseek(file_ptr, offset, SEEK_SET)`
abbrev pub seek : ℕ → Run (Unit {0})
seek offset = if ltb offset (2 ^ 31) then ok tt else stop seek_failed

-- The block that `fread` fills the buffer with; at a short count the program exits.
unfoldable pub read_block : Heapfile → ℕ → Run (List ℕ)
read_block h offset = do
  seek offset
  if leb (offset + h.page_size) (length h.file)
      then ok (take h.page_size (drop offset h.file))
      else stop exit_failure

-- `fwrite` reads `page_size` bytes of the buffer and writes them all.
unfoldable pub write_block : Heapfile → List ℕ → ℕ → Run Heapfile
write_block h buffer offset = do
  seek offset
  if leb h.page_size (length buffer)
      then ok (record h { file = write_at h.file offset (take h.page_size buffer) })
      else stop out_of_bounds

-- Where an entry stands: its directory, and its index there.
pub record Place : Type 0 where
  pub dir_no : ℕ
  pub dir : Directory
  pub slot_no : ℕ

-- `get_entry`: the pointer that it returns is the place of the entry.
unfoldable pub get_entry : Heapfile → ℕ → Run Place
get_entry h pid = do
  first ← load h.directory_buffer 0
  let dir_no = pid / first.capacity
  let slot_no = pid % first.capacity
  dir ← load h.directory_buffer dir_no
  n ← load_int dir.bytes n_entries
  assert (below_int slot_no n)
  ok (record { dir_no = dir_no; dir = dir; slot_no = slot_no })

-- The same at `cached_pid`; at -1 the entry before the first one is outside the array.
unfoldable pub get_cached_entry : Heapfile → Run Place
get_cached_entry h = elim h.cached_pid [ none ↦ stop out_of_bounds | some pid ↦ get_entry h pid ]

-- `cached_page->data`
unfoldable pub cached : Heapfile → Run Page
cached h = elim h.cached_page [ none ↦ stop out_of_bounds | some page ↦ ok page ]

abbrev pub load_offset : Place → Run ℕ
load_offset place = load_int place.dir.bytes (entry_offset place.slot_no)
