-- ===== src/Directory/Tests.antt =====
-- A directory page with room for two entries, of which it has one, and the theorems at it.
use database_assignments.Base.{
  ℕ, ◌<◌, ◌≡◌, ◌↔◌, ◌⊎◌, true, false, none, some, [], ◌∷◌, arith, ok, stop, assert_failed, ◌>>=◌,
  int_at,
}
use database_assignments.Directory.{Entry, Directory, next_vacant_slot, find_free_page, store_entry}
use database_assignments.Directory.Laws.{
  IsDirectory, Appended, count_of, has_room, find_free_page-first, next_vacant_slot-store_entry,
}

-- One entry: the page at 24, with free space 1.
abbrev one_entry : Directory
one_entry = record {
  capacity = 2;
  bytes =
      0 ∷ 0 ∷ 0 ∷ 0 ∷ 1 ∷ 0 ∷ 0 ∷ 0 ∷ 24 ∷ 0 ∷ 0 ∷ 0 ∷ 1 ∷ 0 ∷ 0 ∷ 0 ∷ 0 ∷ 0 ∷ 0 ∷ 0 ∷ 0 ∷ 0 ∷ 0 ∷ 0
      ∷ [];
  offset = 0;
}

one_entry-IsDirectory : IsDirectory one_entry
unfolding int_at
one_entry-IsDirectory = record { counted = omega arith; small = omega arith; inside = omega arith }

find_free_page-first_example :
    ((s : ℕ)
      → (find_free_page one_entry ≡ ok (some s)) ↔ (
          (s < count_of one_entry)
          × (has_room one_entry s ≡ true)
          × ((t : ℕ) → t < s → has_room one_entry t ≡ false)))
    × ((find_free_page one_entry ≡ ok none)
        ↔ ((t : ℕ) → t < count_of one_entry → has_room one_entry t ≡ false))
find_free_page-first_example = find_free_page-first one_entry one_entry-IsDirectory

abbrev second_entry : Entry
second_entry = record { offset = 48; free_space = 2 }

next_vacant_slot-store_entry_example :
    ((count_of one_entry < 2)
      × ((d' : Directory) × ((next_vacant_slot one_entry >>= λ slot.
              store_entry slot.0 slot.1 second_entry)
            ≡ ok d')
          × Appended one_entry d' second_entry))
    ⊎ ((count_of one_entry ≡ 2) × (next_vacant_slot one_entry ≡ stop assert_failed))
next_vacant_slot-store_entry_example =
    next_vacant_slot-store_entry one_entry second_entry one_entry-IsDirectory (omega arith)
      (omega arith)
