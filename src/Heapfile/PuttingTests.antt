-- ===== src/Heapfile/PuttingTests.antt =====
-- The theorems about new pages and new records at the small heap file.
use database_assignments.Base.{
  inr, ◌∷◌, ◌<◌, ◌≡◌, refl, sym, ap, ap₂, ◌∙◌, [], arith, ok, load_int, int_at,
}
use database_assignments.CString.{field}
use database_assignments.Record.Laws.{image}
use database_assignments.Page.{fixed_len_page_capacity}
use database_assignments.Page.Layout.{is_filled}
use database_assignments.Page.Count.{count_true, free_count}
use database_assignments.Page.Slots.{IsStorable}
use database_assignments.Heapfile.{get_entry}
use database_assignments.Heapfile.EntryAt.{the_free_space, lookup}
use database_assignments.Heapfile.Coherence.{page_of}
use database_assignments.Heapfile.Laid.{IsLaid}
use database_assignments.Heapfile.Chains.{IsChained}
use database_assignments.Heapfile.Accounted.{IsAccounted}
use database_assignments.Heapfile.Vacant.{FindsPage, vacant_page_id-FindsPage}
use database_assignments.Heapfile.Allocating.{blank_page}
use database_assignments.Heapfile.Growing.{Allocates, alloc_page-Allocates}
use database_assignments.Heapfile.Added.{IsSound}
use database_assignments.Heapfile.Contents.{slots_of}
use database_assignments.Heapfile.Putting.{PutsSomewhere, put_record-Inserts}
use database_assignments.Heapfile.Tests.{
  directory_bytes, small, small-IsValid, resolve_only, yes_record, one_place,
}

small-IsLaid : IsLaid small
unfolding int_at
small-IsLaid = record {
  before = [];
  last = record { capacity = 2; bytes = directory_bytes; offset = 0 };
  full = tt;
  is_directory = record { counted = omega arith; small = omega arith; inside = omega arith };
  capacity = refl;
  buffered = refl;
  large = omega arith;
}

free_first : lookup the_free_space small 0 ≡ ok (free_count (page_of small 0 24))
unfolding lookup get_entry load_int int_at free_count count_true is_filled fixed_len_page_capacity
    page_of
free_first = refl

small-IsAccounted : IsAccounted small
small-IsAccounted q o r =
    let (p, x) = resolve_only q o r in
    ap (lookup the_free_space small) p
    ∙ free_first
    ∙ ap (λ page. ok (free_count page)) (ap₂ (page_of small) (sym p) (sym x))

small-IsChained : IsChained small
unfolding load_int int_at
small-IsChained = record {
  dirs = record { capacity = 2; bytes = directory_bytes; offset = 0 } ∷ [];
  buffered = refl;
  chain = (refl, refl);
  blocks =
      (record { size = refl; capacity = refl; small = omega arith; inside = omega arith }, tt, tt);
  apart = λ pid x r. let (_, at) = resolve_only pid x r in (inr (omega (arith, at)), tt);
  capacity_pos = refl;
  header = omega arith;
  count = omega arith;
}

small-IsSound : IsSound small
small-IsSound = record {
  valid = small-IsValid;
  laid = small-IsLaid;
  chained = small-IsChained;
  accounted = small-IsAccounted;
}

fits_blank : IsStorable (blank_page 24 10) yes_record
unfolding image field
fits_blank = omega arith

has_slot : 0 < slots_of small
unfolding fixed_len_page_capacity
has_slot = omega arith

alloc_page-Allocates_example : Allocates small
alloc_page-Allocates_example =
    alloc_page-Allocates small small-IsValid small-IsLaid small-IsChained (omega arith)

vacant_page_id-FindsPage_example : FindsPage small
vacant_page_id-FindsPage_example = vacant_page_id-FindsPage small small-IsLaid small-IsAccounted

put_record-Inserts_example : PutsSomewhere one_place small yes_record
put_record-Inserts_example =
    put_record-Inserts one_place small yes_record fits_blank refl (omega arith) small-IsSound
      has_slot
