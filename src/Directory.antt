-- ===== src/Directory.antt =====
-- a1/directory.h and a1/directory.cpp: a directory page, a header of two integers (the offset of
-- the next directory, the number of entries) before an array of entries (offset, free space).
-- The field `data` is called `bytes`. The pointers `next_directory`, `n_entries` and `entries` of
-- the C struct point into `data` at 0, 4 and 8, so they are offsets here.
pub mod Laws
mod Tests
use database_assignments.Base.{
  ℕ, zero, suc, ◌+◌, ◌-◌, ◌*◌, ◌/◌, ◌%◌, ◌^◌, Bool, not, Option, none, some, List, Run, ok, ◌>>=◌,
  ◌>>◌, assert, load_int, store_int, is_positive, ltb, if◌then◌else◌, ◌==◌, replicate,
}

pub record Entry : Type 0 where
  pub offset : ℕ
  pub free_space : ℕ

pub record Directory : Type 0 where
  pub capacity : ℕ
  pub bytes : List ℕ
  pub offset : ℕ

abbrev pub next_directory : ℕ
next_directory = 0

abbrev pub n_entries : ℕ
n_entries = 4

-- The places of `entries[i].offset` and `entries[i].free_space`.
abbrev pub entry_offset : ℕ → ℕ
entry_offset i = 8 + 8 * i

abbrev pub entry_free_space : ℕ → ℕ
entry_free_space i = 12 + 8 * i

-- `(page_size - sizeof(int) * 2) / sizeof(Entry)`: computed in 64 bits without a sign, since
-- `sizeof` is a `size_t`, and cut to an `int`.
abbrev pub directory_capacity : ℕ → ℕ
directory_capacity page_size = (page_size + 2 ^ 64 - 8) % 2 ^ 64 / 8 % 2 ^ 32

unfoldable pub init_directory_page : ℕ → ℕ → Run Directory
init_directory_page page_size offset = do
  let capacity = directory_capacity page_size
  assert (is_positive capacity)
  bytes ← store_int (replicate page_size 0) n_entries 0
  ok (record { capacity = capacity; bytes = bytes; offset = offset })

unfoldable pub is_full : Directory → Run Bool
is_full d = do n ← load_int d.bytes n_entries; ok (n == d.capacity)

-- The directory after the call, and the index of the entry that it has gained.
unfoldable pub next_vacant_slot : Directory → Run (Directory × ℕ)
unfolding is_full
next_vacant_slot d = do
  full ← is_full d
  assert (not full)
  n ← load_int d.bytes n_entries
  bytes ← store_int d.bytes n_entries ((n + 1) % 2 ^ 32)
  n' ← load_int bytes n_entries
  ok (record d { bytes = bytes }, (n' + 2 ^ 32 - 1) % 2 ^ 32)

-- The rounds of `for (i = 0; i < n; i++)` with an `int` `n`.
abbrev pub rounds_to : ℕ → ℕ
rounds_to n = if ltb n (2 ^ 31) then n else 0

unfoldable pub find_free_from : ℕ → ℕ → Directory → Run (Option ℕ)
find_free_from zero i d = ok none
find_free_from (suc rounds) i d = do
  free ← load_int d.bytes (entry_free_space i)
  let rest = find_free_from rounds (i + 1) d
  if is_positive free then ok (some i) else rest

unfoldable pub find_free_page : Directory → Run (Option ℕ)
find_free_page d = do n ← load_int d.bytes n_entries; find_free_from (rounds_to n) 0 d

-- `dir->entries[i] = *entry`
unfoldable pub store_entry : Directory → ℕ → Entry → Run Directory
store_entry d i e = do
  bytes ← store_int d.bytes (entry_offset i) e.offset
  bytes' ← store_int bytes (entry_free_space i) e.free_space
  ok (record d { bytes = bytes' })
