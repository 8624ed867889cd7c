-- ===== src/Heapfile/Reopen.antt =====
-- Closing and opening a heap file of a1/heapfile.cpp.
use native.Mathlib.Nat.{le-div_iff_mul-le}
use database_assignments.Base.{
  ℕ, ◌+◌, ◌*◌, ◌/◌, ◌≤◌, ◌≡◌, refl, sym, ap, subst, ◌∙◌, List, [], ◌∷◌, arith, ok, ◌>>=◌,
  is_positive, true, false, none, length,
}
use database_assignments.Page.Layout.{IsPage}
use database_assignments.Directory.{Directory, directory_capacity}
use database_assignments.Heapfile.{Heapfile, get_entry}
use database_assignments.Heapfile.Records.{
  open_loop, open_heapfile, close_heapfile, write_directories,
}
use database_assignments.Heapfile.Entries.{resolve, entry_fits}
use database_assignments.Heapfile.Coherence.{
  page_of, empty, SamePages, Written, write_out_lem, page_of_empty,
}
use database_assignments.Heapfile.Cache.{page_of_sizes, Page-path}
use database_assignments.Heapfile.Store.{IsValid}
use database_assignments.Heapfile.Closing.{
  ApartFromAll, HaveBlocks, DirectoriesWritten, write_directories-DirectoriesWritten,
}
use database_assignments.Heapfile.EntryFits.{AreDirectories}
use database_assignments.Heapfile.Opening.{AreLinked, open_loop-append}

-- The directories are a chain from the start of the file, in blocks of their own.
pub record IsStored (h : Heapfile) (first : Directory) (rest : List Directory) : Type 0 where
  pub buffered : h.directory_buffer ≡ first ∷ rest
  pub at_start : first.offset ≡ 0
  pub linked : AreLinked first rest
  pub blocks : HaveBlocks h.page_size (length h.file) (first ∷ rest)
  pub apart : (pid x : ℕ) → resolve h pid ≡ ok x → ApartFromAll h.page_size x (first ∷ rest)
  pub capacity_pos : is_positive (directory_capacity h.page_size) ≡ true
  pub header : 8 ≤ h.page_size
  pub count : (length rest + 1) * h.page_size ≤ length h.file

-- What `init_heapfile` makes for the sizes.
abbrev pub fresh : Heapfile → Heapfile
fresh h = record {
  file = [];
  page_size = h.page_size;
  directory_buffer = [];
  cached_page = none;
  cached_pid = none;
  page_cache_dirty = false;
  slot_size = h.slot_size;
}

module _ (h : Heapfile) (first : Directory) (rest : List Directory) (v : IsValid h)
    (s : IsStored h first rest) (entries : AreDirectories h.directory_buffer) where
  -- The heap file that is opened again.
  abbrev reopened : List ℕ → Heapfile
  reopened file = record (fresh h) { file = file; directory_buffer = first ∷ rest }

  module _ (flushed file : List ℕ) (w : Written h flushed)
      (d : DirectoriesWritten (record h { file = flushed }) (first ∷ rest) file) where
    close_heapfile-ok : close_heapfile h ≡ ok file
    unfolding close_heapfile
    close_heapfile-ok = rw w.0 (
        ap (λ r. r >>= λ h'. ok h'.file)
          (ap (λ ds. write_directories ds (record h { file = flushed })) s.buffered ∙ d.written))

    same_length : length file ≡ length h.file
    same_length = d.same_length ∙ w.1

    open_heapfile-ok : open_heapfile (fresh h) file ≡ ok (reopened file)
    unfolding open_heapfile
    open_heapfile-ok =
        let rounds : length rest + 1 ≤ length file / h.page_size =
          (le-div_iff_mul-le (omega (arith, s.header))).1 (omega (arith, s.count, same_length)) in
        ap (open_loop (length file / h.page_size + 1) (record (fresh h) { file = file }))
          (sym s.at_start)
        ∙ open_loop-append first rest (length file / h.page_size + 1)
            (record (fresh h) { file = file }) s.capacity_pos s.header
            (subst (λ m. HaveBlocks h.page_size m (first ∷ rest)) (sym same_length) s.blocks)
            d.holds_all s.linked (omega arith)

    resolve-reopened : (q : ℕ) → resolve (reopened file) q ≡ resolve h q
    unfolding resolve get_entry
    resolve-reopened q = rw s.buffered refl

    entry_fits-reopened : (q : ℕ) → entry_fits (reopened file) q ≡ entry_fits h q
    unfolding entry_fits get_entry
    entry_fits-reopened q = rw s.buffered refl

    page_reopened : (q o : ℕ) → resolve h q ≡ ok o → page_of (reopened file) q o ≡ page_of h q o
    page_reopened q o r =
        let (ps, ss) = page_of_sizes h q o v.coherent.cache in
        page_of_empty (reopened file) q o refl
        ∙ Page-path (d.others o (s.apart q o r) ∙ w.2 q o r) (sym ps) (sym ss)

    reopened-SamePages : SamePages h (reopened file)
    reopened-SamePages = record { entries = resolve-reopened; pages = page_reopened }

    reopened-IsValid : IsValid (reopened file)
    reopened-IsValid =
        let placed = v.coherent.placed in
        record {
          coherent = record {
            placed = record {
              slot_pos = placed.slot_pos;
              slot_lt = placed.slot_lt;
              inside = λ a x ra.
                  let (small, fits) = placed.inside a x (sym (resolve-reopened a) ∙ ra) in
                  (small, rw same_length fits);
              fits =
                  λ a x ra. entry_fits-reopened a ∙ placed.fits a x (sym (resolve-reopened a) ∙ ra);
              apart = λ a b x y ne ra rb.
                  placed.apart a b x y ne (sym (resolve-reopened a) ∙ ra)
                    (sym (resolve-reopened b) ∙ rb);
            };
            cache = empty refl refl;
          };
          pages = λ q o r.
              let r' = sym (resolve-reopened q) ∙ r in
              subst IsPage (sym (page_reopened q o r')) (v.pages q o r');
        }

  -- Closing a valid heap file whose directories have their entries inside their pages and are a
  -- chain in blocks of their own succeeds, whether the cache is dirty or not; opening the file that
  -- is left succeeds, with the same directories, sizes and length, and gives a valid heap file in
  -- which every page is as the program saw it before.
  pub close_heapfile-open_heapfile :
      (file : List ℕ) × (close_heapfile h ≡ ok file)
      × ((h' : Heapfile) × (open_heapfile (fresh h) file ≡ ok h')
          × (h'.directory_buffer ≡ h.directory_buffer)
          × IsValid h'
          × SamePages h h'
          × (h'.page_size ≡ h.page_size)
          × (h'.slot_size ≡ h.slot_size)
          × (length h'.file ≡ length h.file))
  close_heapfile-open_heapfile =
      let (flushed, w) = write_out_lem h v.coherent in
      let (file, d) =
        write_directories-DirectoriesWritten (first ∷ rest) (record h { file = flushed })
          v.coherent.placed.slot_pos (subst AreDirectories s.buffered entries)
          (subst (λ m. HaveBlocks h.page_size m (first ∷ rest)) (sym w.1) s.blocks) in
      (
        file,
        close_heapfile-ok flushed file w d,
        (
          reopened file,
          open_heapfile-ok flushed file w d,
          sym s.buffered,
          reopened-IsValid flushed file w d,
          reopened-SamePages flushed file w d,
          refl,
          refl,
          same_length flushed file w d,
        ),
      )
