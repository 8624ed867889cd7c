-- ===== src/Heapfile/IteratorTests.antt =====
-- The record iterator on a small heap file of one record.
use database_assignments.Base.{◌≡◌, refl, true, some, arith, ok, load_int, int_at}
use database_assignments.Page.{fixed_len_page_capacity, load_back}
use database_assignments.Page.Layout.{is_filled}
use database_assignments.Heapfile.{Heapfile}
use database_assignments.Heapfile.Coherence.{page_of}
use database_assignments.Heapfile.Iterator.{
  RecordIterator, page_is_allocated, increment_iterator, new_iterator,
}
use database_assignments.Heapfile.Visits.{HasPages}
use database_assignments.Heapfile.Moves.{Moves, increment_iterator-Moves}
use database_assignments.Heapfile.Places.{IsRecord}
use database_assignments.Heapfile.Enumeration.{Visits, new_iterator-Visits}
use database_assignments.Heapfile.Tests.{small, small-IsValid, resolve_first}

small-HasPages : HasPages small 1
unfolding page_is_allocated load_int int_at
small-HasPages = record {
  listed = λ q lt. let first : q ≡ 0 = omega arith in rw first refl;
  stored = λ q lt. let first : q ≡ 0 = omega arith in (24, rw first resolve_first);
  end = refl;
  room = omega arith;
}

first-IsRecord : IsRecord small 1 0 0 24
unfolding page_of fixed_len_page_capacity is_filled load_back
first-IsRecord = record {
  inside = omega arith;
  stored = resolve_first;
  below = omega arith;
  filled = refl;
}

-- At the first record, with none after it.
abbrev at_first : RecordIterator
at_first = record { pid = 0; slot = some 0; has_next = true }

increment_iterator-Moves_example : Moves small 1 at_first (increment_iterator small at_first)
increment_iterator-Moves_example =
    increment_iterator-Moves small 1 at_first small-IsValid small-HasPages (omega arith)

new_iterator-Visits_example :
    (h' : Heapfile) × (it' : RecordIterator) × (new_iterator small true ≡ ok (h', it'))
    × Visits 0 0 h' it'
new_iterator-Visits_example =
    new_iterator-Visits small 1 0 0 24 true small-IsValid small-HasPages first-IsRecord
