-- ===== src/Heapfile/RecordTests.antt =====
-- The record operations on a page that a small heap file does not have.
use database_assignments.Base.{
  ◌≤◌, ◌≡◌, refl, subst, arith, ok, stop, assert_failed, load, int_at, ok_injective, ◌/◌,
}
use database_assignments.Directory.{Directory}
use database_assignments.Directory.Laws.{count_of}
use database_assignments.Heapfile.Records.{get_record, update_record, delete_record}
use database_assignments.Heapfile.Missing.{records-stop}
use database_assignments.Heapfile.Tests.{small, small-IsCoherent, yes_record}
use database_assignments.Heapfile.ReopenTests.{only_directory, small-AreDirectories}

count_small : count_of only_directory ≤ 1
unfolding int_at
count_small = omega arith

no_second_page : (d : Directory) → load small.directory_buffer (1 / 2) ≡ ok d → count_of d ≤ 1
no_second_page d e = subst (λ x. count_of x ≤ 1) (ok_injective e) count_small

records-stop_example :
    (get_record small (record { page_id = 1; slot = 0 }) yes_record ≡ stop assert_failed)
    × (update_record small (record { page_id = 1; slot = 0 }) yes_record ≡ stop assert_failed)
    × (delete_record small (record { page_id = 1; slot = 0 }) ≡ stop assert_failed)
records-stop_example =
    records-stop small 1 only_directory refl small-AreDirectories no_second_page small-IsCoherent 0
      yes_record
