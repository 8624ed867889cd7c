-- ===== src/Heapfile/Closing.antt =====
-- `close_heapfile` of a1/heapfile.cpp: the directories are written to their blocks.
use database_assignments.Base.{
  ℕ, zero, suc, ◌+◌, ◌-◌, ◌/◌, ◌%◌, ◌≡◌, false, ap, arith, load_int, load_int-ok, lt→ltb,
  if◌then◌else◌, ◌==◌, ◌^◌, ◌≤◌, ◌<◌, refl, ◌∙◌, ◌⊎◌, List, [], ◌∷◌, ok, length, splice,
  length-splice,
}
use database_assignments.Directory.{
  Directory, directory_capacity, n_entries, entry_free_space, rounds_to,
}
use database_assignments.Heapfile.{Heapfile}
use database_assignments.Heapfile.Records.{counted_capacity, sum_records, write_directories}
use database_assignments.Heapfile.EntryFits.{AreDirectories}
use database_assignments.Directory.Laws.{IsDirectory, count_of, free_at}
use database_assignments.Heapfile.Blocks.{
  block_at, write_block-ok, block_at-splice_self, block_at-splice_other,
}

-- Two blocks of `n` bytes have none in common.
abbrev pub AreApart : ℕ → ℕ → ℕ → Type 0
AreApart n x y = (x + n ≤ y) ⊎ (y + n ≤ x)

-- The block of a directory in a file of so many bytes.
pub record HasBlock (page_size bytes_in_file : ℕ) (d : Directory) : Type 0 where
  pub size : length d.bytes ≡ page_size
  pub capacity : d.capacity ≡ directory_capacity page_size
  pub small : d.offset < 2 ^ 31
  pub inside : d.offset + page_size ≤ bytes_in_file

abbrev pub ApartFromAll : ℕ → ℕ → List Directory → Type 0
ApartFromAll n x [] = Unit
ApartFromAll n x (d ∷ ds) = AreApart n x d.offset × ApartFromAll n x ds

-- Each directory has its block, apart from those of the later ones.
abbrev pub HaveBlocks : ℕ → ℕ → List Directory → Type 0
HaveBlocks n m [] = Unit
HaveBlocks n m (d ∷ ds) = HasBlock n m d × ApartFromAll n d.offset ds × HaveBlocks n m ds

-- The file holds the directories.
abbrev pub HoldsAll : ℕ → List ℕ → List Directory → Type 0
HoldsAll n file [] = Unit
HoldsAll n file (d ∷ ds) = (block_at file n d.offset ≡ d.bytes) × HoldsAll n file ds

-- The file after the directories are written; a block apart from them is as it was.
pub record DirectoriesWritten (h : Heapfile) (ds : List Directory) (file : List ℕ) : Type 0 where
  pub written : write_directories ds h ≡ ok (record h { file = file })
  pub same_length : length file ≡ length h.file
  pub holds_all : HoldsAll h.page_size file ds
  pub others :
      (x : ℕ)
      → ApartFromAll h.page_size x ds
      → block_at file h.page_size x ≡ block_at h.file h.page_size x

sum_records-ok :
    (page_capacity rounds i : ℕ) (d : Directory) (num_records : ℕ)
    → IsDirectory d
    → i + rounds ≤ d.capacity
    → (total : ℕ) × (sum_records page_capacity rounds i d num_records ≡ ok total)
unfolding sum_records
sum_records-ok page_capacity zero i d num_records v h = (num_records, refl)
sum_records-ok page_capacity (suc rounds) i d num_records v h =
    let (total, e) =
      sum_records-ok page_capacity rounds (i + 1) d
        ((num_records + page_capacity % 2 ^ 32 + (2 ^ 32 - free_at d i)) % 2 ^ 32) v
        (omega (arith, h)) in
    (total, rw (load_int-ok d.bytes (entry_free_space i) (omega (arith, h, v.inside))) e)

counted_capacity-ok : (h : Heapfile) → 0 < h.slot_size → (n : ℕ) × (counted_capacity h ≡ ok n)
unfolding counted_capacity
counted_capacity-ok h pos =
    let some_size : (h.slot_size == 0) ≡ false = ground arith in
    ((h.page_size - (h.page_size / h.slot_size + 7) / 8) / h.slot_size, rw some_size refl)

-- The loop over the entries stays inside the directory.
directory_read :
    (h : Heapfile) (d : Directory)
    → 0 < h.slot_size
    → IsDirectory d
    → (page_capacity total : ℕ) × (counted_capacity h ≡ ok page_capacity)
      × (load_int d.bytes n_entries ≡ ok (count_of d))
      × (sum_records page_capacity (rounds_to (count_of d)) 0 d 0 ≡ ok total)
directory_read h d pos v =
    let (page_capacity, made) = counted_capacity-ok h pos in
    let rounds : rounds_to (count_of d) ≡ count_of d =
      ap (λ b. if b then count_of d else 0)
        (lt→ltb (count_of d) (2 ^ 31) (omega (arith, v.counted, v.small))) in
    let (total, summed) =
      sum_records-ok page_capacity (rounds_to (count_of d)) 0 d 0 v
        (omega (arith, rounds, v.counted)) in
    (page_capacity, total, made, load_int-ok d.bytes n_entries (omega (arith, v.inside)), summed)

pub write_directories-DirectoriesWritten :
    (ds : List Directory) (h : Heapfile)
    → 0 < h.slot_size
    → AreDirectories ds
    → HaveBlocks h.page_size (length h.file) ds
    → (file : List ℕ) × DirectoriesWritten h ds file
unfolding write_directories
write_directories-DirectoriesWritten [] h pos v b =
    (h.file, record { written = refl; same_length = refl; holds_all = tt; others = λ x a. refl })
write_directories-DirectoriesWritten (d ∷ ds) h pos v (block, apart, later) =
    let h' : Heapfile = record h { file = splice h.file d.offset d.bytes } in
    let same = length-splice h.file d.offset d.bytes in
    let (file, w) =
      write_directories-DirectoriesWritten ds h' pos (λ k. v (suc k)) (rw same later) in
    let (page_capacity, total, counted, entries, summed) = directory_read h' d pos (v 0 d refl) in
    (
      file,
      record {
        written =
            rw
              (
                write_block-ok h d.bytes d.offset block.small block.size block.inside,
                counted,
                entries,
                summed,
              )
              w.written;
        same_length = w.same_length ∙ same;
        holds_all = (
          w.others d.offset apart
              ∙ block_at-splice_self h.file d.bytes h.page_size d.offset block.size block.inside,
          w.holds_all,
        );
        others = λ x (a, rest).
            w.others x rest
            ∙ block_at-splice_other h.file d.bytes h.page_size d.offset x block.size a;
      },
    )
