-- ===== src/Page.antt =====
-- a1/page.h and a1/page.cpp: a page of fixed-length slots. The slots stand at the start of the
-- page; the slot directory, one flag a slot, grows downwards from its last byte.
-- The field `data` is called `bytes` here. A page is passed by pointer and is returned changed;
-- the slot number -1, "no slot", is `none`. `slot >= 0`, which the functions assert, is the type.
pub mod Layout
pub mod Count
pub mod Flags
pub mod Search
pub mod Slots
pub mod Store
mod Tests
use database_assignments.Base.{
  ℕ, zero, suc, ◌+◌, ◌-◌, ◌*◌, ◌/◌, ◌%◌, ◌≤◌, ◌<◌, ◌≡◌, Bool, true, false, ◌&&◌, Option, none, some,
  List, [], ◌∷◌, bit_and, Run, ok, stop, out_of_bounds, ◌>>=◌, ◌>>◌, assert, load, leb, ltb,
  if◌then◌else◌, length, set, replicate,
}
use database_assignments.Base.Bits.{has_bit, set_bit, clear_bit, shift_char}
use database_assignments.Record.{Record, fixed_len_write, fixed_len_read}

pub record Page : Type 0 where
  pub bytes : List ℕ
  pub page_size : ℕ
  pub slot_size : ℕ

-- `(ceil)(n / 8.0)`
abbrev pub ceil_eighths : ℕ → ℕ
ceil_eighths n = (n + 7) / 8

unfoldable pub init_fixed_len_page : ℕ → ℕ → Run Page
init_fixed_len_page page_size slot_size = do
  assert (ltb 0 slot_size && ltb slot_size page_size)
  ok (record { bytes = replicate page_size 0; page_size = page_size; slot_size = slot_size })

unfoldable pub fixed_len_page_capacity : Page → ℕ
fixed_len_page_capacity page =
    let directory_size = ceil_eighths (page.page_size / page.slot_size) in
    (page.page_size - directory_size) / page.slot_size

-- `((char *)page->data)[page->page_size - back]`; a negative index is a fault.
unfoldable pub load_back : Page → ℕ → Run ℕ
load_back page back =
    if leb back page.page_size then load page.bytes (page.page_size - back) else stop out_of_bounds

-- The loop over the bits of one byte, with `rounds` rounds left: the new `counter` and `result`.
unfoldable pub count_byte : ℕ → ℕ → ℕ → ℕ → ℕ → ℕ × ℕ
count_byte zero num_recs char_val counter result = (counter, result)
count_byte (suc rounds) num_recs char_val counter result =
    let rest =
      count_byte rounds num_recs (shift_char char_val) (counter + 1)
        (result + bit_and char_val 1) in
    if ltb counter num_recs then rest else (counter, result)

-- The loop over the bytes of the directory, from the `i`th byte from the end on.
unfoldable pub count_bytes : ℕ → ℕ → Page → ℕ → ℕ → ℕ → Run ℕ
count_bytes zero i page num_recs counter result = ok result
count_bytes (suc rounds) i page num_recs counter result = do
  char_val ← load_back page i
  let (counter', result') = count_byte 8 num_recs char_val counter result
  count_bytes rounds (i + 1) page num_recs counter' result'

unfoldable pub fixed_len_page_freeslots : Page → Run ℕ
fixed_len_page_freeslots page = do
  let num_recs = fixed_len_page_capacity page
  result ← count_bytes (ceil_eighths num_recs) 1 page num_recs 0 0
  ok (num_recs - result)

-- The search in one byte: the new `counter` and `slot`.
unfoldable pub find_in_byte : ℕ → ℕ → ℕ → ℕ → ℕ × Option ℕ
find_in_byte zero num_recs char_val counter = (counter, none)
find_in_byte (suc rounds) num_recs char_val counter =
    let rest = find_in_byte rounds num_recs (shift_char char_val) (counter + 1) in
    if ltb counter num_recs
    then (if has_bit char_val 0 then rest else (counter, some counter))
    else (counter, none)

-- `if (slot >= 0) break;`
abbrev pub unless_found : Option ℕ → Run (Option ℕ) → Run (Option ℕ)
unless_found (some s) rest = ok (some s)
unless_found none rest = rest

-- The search in the directory; it stops at the first byte with an empty slot.
unfoldable pub find_in_bytes : ℕ → ℕ → Page → ℕ → ℕ → Run (Option ℕ)
find_in_bytes zero i page num_recs counter = ok none
find_in_bytes (suc rounds) i page num_recs counter = do
  char_val ← load_back page i
  let (counter', slot) = find_in_byte 8 num_recs char_val counter
  let rest = find_in_bytes rounds (i + 1) page num_recs counter'
  unless_found slot rest

unfoldable pub write_fixed_len_page : Page → ℕ → Record → Run Page
unfolding load_back
write_fixed_len_page page slot r = do
  bytes ← fixed_len_write r page.bytes (slot * page.slot_size)
  let back = ceil_eighths (slot + 1)
  char_val ← load_back (record page { bytes = bytes }) back
  ok (record page { bytes = set bytes (page.page_size - back) (set_bit char_val (slot % 8)) })

-- `if (slot >= 0) write_fixed_len_page(page, slot, r);`
abbrev pub write_found : Page → Record → Option ℕ → Run (Page × Option ℕ)
write_found page r none = ok (page, none)
write_found page r (some s) = do page' ← write_fixed_len_page page s r; ok (page', some s)

-- The page after the call, and the slot that was found.
unfoldable pub add_fixed_len_page : Page → Record → Run (Page × Option ℕ)
add_fixed_len_page page r = do
  let num_recs = fixed_len_page_capacity page
  slot ← find_in_bytes (ceil_eighths num_recs) 1 page num_recs 0
  write_found page r slot

-- The flag is looked at and not used: the assertion on it is commented out.
unfoldable pub read_fixed_len_page : Page → ℕ → Record → Run Record
unfolding load_back
read_fixed_len_page page slot r = do
  char_val ← load_back page (ceil_eighths (slot + 1))
  fixed_len_read page.bytes (slot * page.slot_size) page.slot_size r

unfoldable pub delete_fixed_len_page : Page → ℕ → Run Page
unfolding load_back
delete_fixed_len_page page slot = do
  let back = ceil_eighths (slot + 1)
  char_val ← load_back page back
  ok (record page {
    bytes = set page.bytes (page.page_size - back) (clear_bit char_val (slot % 8));
  })

-- `while (slot < numRecs)`: the rounds left are `numRecs - slot`.
unfoldable pub next_filled : ℕ → Page → ℕ → Run (Option ℕ)
next_filled zero page slot = ok none
next_filled (suc rounds) page slot = do
  bit_fld ← load_back page (1 + slot / 8)
  let rest = next_filled rounds page (slot + 1)
  if has_bit bit_fld (slot % 8) then ok (some slot) else rest

-- `slot++`, where -1 goes to 0
abbrev pub after : Option ℕ → ℕ
after none = 0
after (some s) = s + 1

unfoldable pub get_next_filled_slot : Page → Option ℕ → Run (Option ℕ)
get_next_filled_slot page slot =
    let start = after slot in next_filled (fixed_len_page_capacity page - start) page start
