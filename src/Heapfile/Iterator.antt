-- ===== src/Heapfile/Iterator.antt =====
-- `RecordIterator` of a1/heapfile.h and a1/heapfile.cpp. It shares the heap file with its maker,
-- so its methods take the heap file and return it.
use database_assignments.Base.{
  ℕ, zero, suc, ◌+◌, ◌*◌, ◌/◌, ◌%◌, Bool, false, Option, none, some, [], ◌∷◌, Run, ok, stop,
  assert_failed, out_of_fuel, ◌>>=◌, load, load_int, below_int, if◌then◌else◌, length, replicate,
}
use database_assignments.Record.{Record}
use database_assignments.Page.{read_fixed_len_page, get_next_filled_slot}
use database_assignments.Directory.{n_entries}
use database_assignments.Heapfile.{Heapfile, cached}
use database_assignments.Heapfile.Ops.{get_page}

pub record RecordIterator : Type 0 where
  pub pid : ℕ
  pub slot : Option ℕ
  pub has_next : Bool

-- `slot_no < *dir->n_entries` for the page `pid`; a directory that is not there is a read past the
-- end of the vector.
unfoldable pub page_is_allocated : Heapfile → ℕ → Run Bool
page_is_allocated h pid = do
  first ← load h.directory_buffer 0
  dir ← load h.directory_buffer (pid / first.capacity)
  n ← load_int dir.bytes n_entries
  ok (below_int (pid % first.capacity) n)

unfoldable pub increment_loop : ℕ → Heapfile → RecordIterator → Run (Heapfile × RecordIterator)
increment_loop zero h it = stop out_of_fuel
increment_loop (suc fuel) h it = do
  allocated ← page_is_allocated h it.pid
  let visit : Run (Heapfile × RecordIterator) = do
    h' ← get_page h it.pid
    page ← cached h'
    slot ← get_next_filled_slot page it.slot
    let rest = increment_loop fuel h' (record it { pid = it.pid + 1; slot = none })
    elim slot [ some s ↦ ok (h', record it { slot = some s }) | none ↦ rest ]
  if allocated then visit else ok (h, record it { has_next = false })

-- There are at most as many pages as the directories have room for.
abbrev pub pages_bound : Heapfile → ℕ
pages_bound h = elim h.directory_buffer [ [] ↦ 0 | d ∷ _ ↦ length h.directory_buffer * d.capacity ]

unfoldable pub increment_iterator : Heapfile → RecordIterator → Run (Heapfile × RecordIterator)
increment_iterator h it = increment_loop (pages_bound h + 1) h it

-- The constructor sets `pid` and `slot`, and leaves `has_next` as it finds it in memory.
unfoldable pub new_iterator : Heapfile → Bool → Run (Heapfile × RecordIterator)
new_iterator h memory = increment_iterator h (record { pid = 0; slot = none; has_next = memory })

-- `assert (slot >= 0)` of the read fails at -1.
unfoldable pub next : Heapfile → RecordIterator → Run (Heapfile × RecordIterator × Record)
next h it = do
  h' ← get_page h it.pid
  page ← cached h'
  slot ← elim it.slot [ some s ↦ ok s | none ↦ stop assert_failed ]
  r ← read_fixed_len_page page slot (replicate 100 [])
  (h'', it') ← increment_iterator h' it
  ok (h'', it', r)

unfoldable pub has_next : RecordIterator → Bool
has_next it = it.has_next

-- The page and slot that the next record comes from; the slot is -1 if there is none.
unfoldable pub next_rid : RecordIterator → ℕ × Option ℕ
next_rid it = (it.pid, it.slot)
