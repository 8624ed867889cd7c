-- ===== src/Heapfile/Opening.antt =====
-- `open_heapfile` of a1/heapfile.cpp: the chain of directories is read.
use mathlib.Core.List.{append_assoc}
use database_assignments.CString.Laws.{length-replicate}
use database_assignments.Base.{
  ℕ, zero, suc, ◌≤◌, ◌<◌, ◌≡◌, refl, sym, ap, ◌∙◌, ◌==◌, List, [], ◌∷◌, ◌++◌, arith, ok, load_int,
  is_positive, true, false, length, replicate, if◌then◌else◌, store_int-ok, splice, le_bytes,
}
use database_assignments.Directory.{
  Directory, next_directory, n_entries, directory_capacity, init_directory_page,
}
use database_assignments.Heapfile.{Heapfile}
use database_assignments.Heapfile.Records.{open_loop}
use database_assignments.Heapfile.Blocks.{block_at, read_block-ok}
use database_assignments.Heapfile.Closing.{HasBlock, HaveBlocks, HoldsAll}

Directory-path :
    {d e : Directory} → d.capacity ≡ e.capacity → d.bytes ≡ e.bytes → d.offset ≡ e.offset → d ≡ e
Directory-path a b c = λ i. record { capacity = a i; bytes = b i; offset = c i }

-- Each directory points to the next one, which is not at the start, and the last one to none.
abbrev pub AreLinked : Directory → List Directory → Type 0
AreLinked d [] = load_int d.bytes next_directory ≡ ok 0
AreLinked d (e ∷ ds) =
    (load_int d.bytes next_directory ≡ ok e.offset) × (0 < e.offset) × AreLinked e ds

init_directory_page-ok :
    (page_size offset : ℕ)
    → is_positive (directory_capacity page_size) ≡ true
    → 8 ≤ page_size
    → (bytes : List ℕ) × (init_directory_page page_size offset
        ≡ ok (record { capacity = directory_capacity page_size; bytes = bytes; offset = offset }))
unfolding init_directory_page
init_directory_page-ok page_size offset e h =
    let written =
      store_int-ok (replicate page_size 0) n_entries 0
        (omega (arith, length-replicate page_size)) in
    (splice (replicate page_size 0) n_entries (le_bytes 0), rw (e, written) refl)

module _ (d : Directory) (h : Heapfile) (pos : is_positive (directory_capacity h.page_size) ≡ true)
    (eight : 8 ≤ h.page_size) (block : HasBlock h.page_size (length h.file) d)
    (held : block_at h.file h.page_size d.offset ≡ d.bytes) where
  -- The heap file after a round of the loop.
  abbrev with_directory : Heapfile
  with_directory = record h { directory_buffer = h.directory_buffer ++ d ∷ [] }

  read_directory :
      (fuel next : ℕ)
      → load_int d.bytes next_directory ≡ ok next
      → open_loop (suc fuel) h d.offset
        ≡ (if next == 0 then ok with_directory else open_loop fuel with_directory next)
  unfolding open_loop
  read_directory fuel next e =
      let (bytes, made) = init_directory_page-ok h.page_size d.offset pos eight in
      let read = read_block-ok h d.offset block.small block.inside in
      rw (made, read, held, e)
        (ap
          (λ w.
            if next == 0
            then ok (record h { directory_buffer = h.directory_buffer ++ w ∷ [] })
            else open_loop fuel (record h { directory_buffer = h.directory_buffer ++ w ∷ [] }) next)
          (Directory-path (sym block.capacity) refl refl))

-- With a round for each directory, the loop reads them all.
pub open_loop-append :
    (d : Directory) (ds : List Directory) (fuel : ℕ) (h : Heapfile)
    → is_positive (directory_capacity h.page_size) ≡ true
    → 8 ≤ h.page_size
    → HaveBlocks h.page_size (length h.file) (d ∷ ds)
    → HoldsAll h.page_size h.file (d ∷ ds)
    → AreLinked d ds
    → length ds < fuel
    → open_loop fuel h d.offset ≡ ok (record h { directory_buffer = h.directory_buffer ++ d ∷ ds })
open_loop-append d ds zero h pos eight b held l lt = absurd (omega arith)
open_loop-append d [] (suc fuel) h pos eight (block, _, later) (held, rest) l lt =
    read_directory d h pos eight block held fuel 0 l
open_loop-append d (e ∷ ds) (suc fuel) h pos eight (block, _, later) (held, rest) (next, far, l)
      lt =
    let differ : (e.offset == 0) ≡ false = ground arith in
    let h' = with_directory d h pos eight block held in
    read_directory d h pos eight block held fuel e.offset next
    ∙ ap (λ b. if b then ok h' else open_loop fuel h' e.offset) differ
    ∙ open_loop-append e ds fuel h' pos eight later rest l (omega arith)
    ∙ ap (λ dirs. ok (record h { directory_buffer = dirs }))
        (append_assoc h.directory_buffer (d ∷ []) (e ∷ ds))
