-- ===== src/Heapfile/ReopenTests.antt =====
-- Closing and opening a small heap file, and creating one.
use database_assignments.Base.{
  length, ℕ, ◌^◌, ◌<◌, ◌≡◌, ◌≢◌, ◌>>=◌, refl, inr, List, [], arith, ok, load_int, int_at,
}
use database_assignments.Directory.{Directory}
use database_assignments.Heapfile.{Heapfile, init_heapfile}
use database_assignments.Heapfile.Records.{create_heapfile, open_heapfile, close_heapfile}
use database_assignments.Heapfile.Entries.{resolve}
use database_assignments.Heapfile.Creating.{first_directory, init_heapfile-create_heapfile}
use database_assignments.Directory.Laws.{IsDirectory}
use database_assignments.Heapfile.EntryFits.{AreDirectories, AreDirectories-behind}
use database_assignments.Heapfile.Coherence.{SamePages}
use database_assignments.Heapfile.Store.{IsValid}
use database_assignments.Heapfile.Reopen.{IsStored, fresh, close_heapfile-open_heapfile}
use database_assignments.Heapfile.Tests.{directory_bytes, small, small-IsValid, resolve_only}

abbrev pub only_directory : Directory
only_directory = record { capacity = 2; bytes = directory_bytes; offset = 0 }

small-IsStored : IsStored small only_directory []
unfolding load_int int_at
small-IsStored = record {
  buffered = refl;
  at_start = refl;
  linked = refl;
  blocks =
      (record { size = refl; capacity = refl; small = omega arith; inside = omega arith }, tt, tt);
  apart = λ pid x r. let (_, at) = resolve_only pid x r in (inr (omega (arith, at)), tt);
  capacity_pos = refl;
  header = omega arith;
  count = omega arith;
}

only_directory-IsDirectory : IsDirectory only_directory
unfolding int_at
only_directory-IsDirectory = record {
  counted = omega arith;
  small = omega arith;
  inside = omega arith;
}

pub small-AreDirectories : AreDirectories small.directory_buffer
small-AreDirectories = AreDirectories-behind 2 [] only_directory tt only_directory-IsDirectory

close_heapfile-open_heapfile_example :
    (file : List ℕ) × (close_heapfile small ≡ ok file)
    × ((h' : Heapfile) × (open_heapfile (fresh small) file ≡ ok h')
        × (h'.directory_buffer ≡ small.directory_buffer)
        × IsValid h'
        × SamePages small h'
        × (h'.page_size ≡ 24)
        × (h'.slot_size ≡ 10)
        × (length h'.file ≡ 48))
close_heapfile-open_heapfile_example =
    close_heapfile-open_heapfile small only_directory [] small-IsValid small-IsStored
      small-AreDirectories

large_page : 1001 < 1024
large_page = omega arith

small_page : 1024 < 2 ^ 31
small_page = omega arith

init_heapfile-create_heapfile_example :
    (h : Heapfile) × ((init_heapfile 1024 100 >>= create_heapfile) ≡ ok h)
    × IsValid h
    × IsStored h (first_directory 1024 100 large_page small_page) []
    × ((pid x : ℕ) → resolve h pid ≢ ok x)
init_heapfile-create_heapfile_example =
    init_heapfile-create_heapfile 1024 100 large_page small_page (omega arith) (omega arith)
