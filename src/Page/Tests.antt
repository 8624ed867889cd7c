-- ===== src/Page/Tests.antt =====
-- Runs of the page functions on a small page, and the theorems about them at such pages.
use database_assignments.Base.{
  ℕ, ◌+◌, ◌*◌, ◌≤◌, ◌<◌, ◌≡◌, ◌↔◌, ◌⊎◌, refl, inl, inr, true, false, none, some, [], ◌∷◌, arith, ok,
  stop, assert_failed,
}
use database_assignments.CString.{strncpy, field}
use database_assignments.Record.{Record, fixed_len_write}
use database_assignments.Record.Laws.{image, clean}
use database_assignments.Page.{
  Page, ceil_eighths, init_fixed_len_page, fixed_len_page_capacity, load_back,
  fixed_len_page_freeslots, find_in_byte, find_in_bytes, write_fixed_len_page, add_fixed_len_page,
  delete_fixed_len_page, get_next_filled_slot,
}
use database_assignments.Page.Layout.{IsPage, is_filled, capacity_fits, init_fixed_len_page-IsPage}
use database_assignments.Page.Count.{free_count, fixed_len_page_freeslots-count_true}
use database_assignments.Page.Search.{get_next_filled_slot-first}
use database_assignments.Page.Slots.{IsStorable}
use database_assignments.Page.Store.{
  Updates, write_fixed_len_page-Updates, delete_fixed_len_page-Updates, add_fixed_len_page-Updates,
}

-- Two slots of ten bytes; slot 0 holds "hi", and slot 1 is free.
abbrev sample : Page
sample = record {
  bytes =
      104 ∷ 105 ∷ 0 ∷ 0 ∷ 0 ∷ 0 ∷ 0 ∷ 0 ∷ 0 ∷ 0 ∷ 0 ∷ 0 ∷ 0 ∷ 0 ∷ 0 ∷ 0 ∷ 0 ∷ 0 ∷ 0 ∷ 0 ∷ 0 ∷ 1
      ∷ [];
  page_size = 22;
  slot_size = 10;
}

abbrev yes_record : Record
yes_record = (121 ∷ 101 ∷ 115 ∷ 0 ∷ []) ∷ []

abbrev one_place : Record
one_place = [] ∷ []

capacity-sample : fixed_len_page_capacity sample ≡ 2
unfolding fixed_len_page_capacity
capacity-sample = refl

-- The capacities of a1/tests/test_page.cpp
capacities :
    (fixed_len_page_capacity (record { bytes = []; page_size = 1000; slot_size = 10 }) ≡ 98)
    × (fixed_len_page_capacity (record { bytes = []; page_size = 1619; slot_size = 10 }) ≡ 159)
    × (fixed_len_page_capacity (record { bytes = []; page_size = 1621; slot_size = 10 }) ≡ 160)
unfolding fixed_len_page_capacity
capacities = (refl, refl, refl)

add-sample :
    (add_fixed_len_page sample yes_record)
    ≡ ok (
      record sample {
        bytes =
            104 ∷ 105 ∷ 0 ∷ 0 ∷ 0 ∷ 0 ∷ 0 ∷ 0 ∷ 0 ∷ 0 ∷ 121 ∷ 101 ∷ 115 ∷ 0 ∷ 0 ∷ 0 ∷ 0 ∷ 0 ∷ 0 ∷ 0
            ∷ 0 ∷ 3 ∷ [];
      },
      some 1,
    )
unfolding add_fixed_len_page fixed_len_page_capacity find_in_bytes find_in_byte load_back
    write_fixed_len_page fixed_len_write strncpy
add-sample = refl

sample-IsPage : IsPage sample
sample-IsPage = omega arith

storable : IsStorable sample yes_record
unfolding image field
storable = record {
  readable = (inr (inr (inr (inl refl))), tt);
  bytes_ok = omega arith;
  fits = omega arith;
  fills = omega arith;
}

within : (s : ℕ) → s < 2 → s < fixed_len_page_capacity sample
unfolding fixed_len_page_capacity
within s h = h

-- The theorems at the sample page.
write_fixed_len_page-Updates_example :
    (q : Page) × (write_fixed_len_page sample 1 yes_record ≡ ok q)
    × Updates one_place sample q 1 (some (ok (clean yes_record)))
write_fixed_len_page-Updates_example =
    write_fixed_len_page-Updates one_place sample 1 yes_record sample-IsPage
      (within 1 (omega arith)) storable refl

delete_fixed_len_page-Updates_example :
    (q : Page) × (delete_fixed_len_page sample 0 ≡ ok q) × Updates one_place sample q 0 none
delete_fixed_len_page-Updates_example =
    delete_fixed_len_page-Updates one_place sample 0 sample-IsPage (within 0 (omega arith))
      (omega arith)

add_fixed_len_page-Updates_example :
    (((t : ℕ) → t < fixed_len_page_capacity sample → is_filled sample t ≡ true)
      × (add_fixed_len_page sample yes_record ≡ ok (sample, none)))
    ⊎ ((s : ℕ) × (q : Page) × (s < fixed_len_page_capacity sample)
        × (is_filled sample s ≡ false)
        × ((t : ℕ) → t < s → is_filled sample t ≡ true)
        × (add_fixed_len_page sample yes_record ≡ ok (q, some s))
        × Updates one_place sample q s (some (ok (clean yes_record))))
add_fixed_len_page-Updates_example =
    add_fixed_len_page-Updates one_place sample yes_record sample-IsPage storable refl

fixed_len_page_freeslots-count_true_example :
    fixed_len_page_freeslots sample ≡ ok (free_count sample)
fixed_len_page_freeslots-count_true_example =
    fixed_len_page_freeslots-count_true sample sample-IsPage

get_next_filled_slot-first_example :
    ((s : ℕ)
      → (get_next_filled_slot sample none ≡ ok (some s)) ↔ (
          (0 ≤ s)
          × (s < fixed_len_page_capacity sample)
          × (is_filled sample s ≡ true)
          × ((t : ℕ) → 0 ≤ t → t < s → is_filled sample t ≡ false)))
    × ((get_next_filled_slot sample none ≡ ok none)
        ↔ ((t : ℕ) → 0 ≤ t → t < fixed_len_page_capacity sample → is_filled sample t ≡ false))
get_next_filled_slot-first_example = get_next_filled_slot-first sample none sample-IsPage

capacity_fits_example :
    fixed_len_page_capacity sample * 10 + ceil_eighths (fixed_len_page_capacity sample) ≤ 22
capacity_fits_example = capacity_fits sample (omega arith)

init_fixed_len_page-IsPage_example :
    ((0 < 10) × (10 < 22)
      → (p : Page) × (init_fixed_len_page 22 10 ≡ ok p)
        × IsPage p
        × (p.page_size ≡ 22)
        × (p.slot_size ≡ 10)
        × ((s : ℕ) → is_filled p s ≡ false))
    × (¬ ((0 < 10) × (10 < 22)) → init_fixed_len_page 22 10 ≡ stop assert_failed)
init_fixed_len_page-IsPage_example = init_fixed_len_page-IsPage 22 10
