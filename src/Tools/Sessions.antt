-- ===== src/Tools/Sessions.antt =====
-- The tools of a1 that close the heap file at the end: what is opened again is what was closed.
use database_assignments.Base.{
  ℕ, ◌^◌, ◌<◌, ◌≡◌, sym, ap, ap₂, subst, ◌∙◌, false, none, List, [], ok, length,
}
use database_assignments.Record.{Record}
use database_assignments.Page.Count.{free_count}
use database_assignments.Heapfile.{Heapfile}
use database_assignments.Heapfile.Records.{open_heapfile, close_heapfile}
use database_assignments.Heapfile.EntryAt.{the_free_space}
use database_assignments.Heapfile.Laid.{IsLaid, IsLaid-kept, lookup-directories}
use database_assignments.Directory.{directory_capacity}
use database_assignments.Heapfile.EntryFits.{AreDirectories, AreDirectories-behind}
use database_assignments.Heapfile.Chains.{IsChained-kept}
use database_assignments.Heapfile.Reopen.{fresh, close_heapfile-open_heapfile}
use database_assignments.Heapfile.Stored.{IsChained-IsStored}
use database_assignments.Heapfile.Creating.{init_heapfile-ok}
use database_assignments.Heapfile.Contents.{record_at, SamePages-record_at}
use database_assignments.Heapfile.Added.{IsSound}
use database_assignments.Tools.Edit.{open_rows}
use database_assignments.Tools.Loading.{IsForRows, slots_same}

-- The directories that are filled one after the other have their entries inside their pages.
IsLaid-AreDirectories : (h : Heapfile) → IsLaid h → AreDirectories h.directory_buffer
IsLaid-AreDirectories h l =
    subst AreDirectories (sym l.buffered)
      (AreDirectories-behind (directory_capacity h.page_size) l.before l.last l.full l.is_directory)

-- The heap file `h'` that is opened is `h` as it was closed.
pub record Reopens (places : Record) (h h' : Heapfile) : Type 0 where
  pub for_rows : IsForRows h'
  pub page_size : h'.page_size ≡ h.page_size
  pub length_file : length h'.file ≡ length h.file
  pub records : (q t : ℕ) → record_at places h' q t ≡ record_at places h q t

module _ (places : Record) (page_size : ℕ) (large : 1001 < page_size) (small : page_size < 2 ^ 31)
    (h : Heapfile) (f : IsForRows h) (ps : h.page_size ≡ page_size) where
  open_fresh :
      (file : List ℕ) (h' : Heapfile)
      → open_heapfile (fresh h) file ≡ ok h'
      → open_rows page_size file ≡ ok h'
  unfolding open_rows
  open_fresh file h' opened = rw (init_heapfile-ok page_size 1000 large small) (
      ap₂
        (λ m n.
          open_heapfile
            (record {
              file = [];
              page_size = m;
              directory_buffer = [];
              cached_page = none;
              cached_pid = none;
              page_cache_dirty = false;
              slot_size = n;
            })
            file)
        (sym ps) (sym f.slot_size)
      ∙ opened)

  pub close_heapfile-open_rows :
      (file : List ℕ) × (h' : Heapfile) × (close_heapfile h ≡ ok file)
      × (open_rows page_size file ≡ ok h')
      × Reopens places h h'
  close_heapfile-open_rows =
      let s = f.sound in
      let (first, rest, stored) = IsChained-IsStored h s.chained in
      let (file, closed, (h', opened, dirs, valid, same, ps', ss', len)) =
        close_heapfile-open_heapfile h first rest s.valid stored (IsLaid-AreDirectories h s.laid) in
      let sound : IsSound h' = record {
        valid = valid;
        laid = IsLaid-kept h h' dirs ps' s.laid;
        chained = IsChained-kept h h' ps' len dirs same.entries s.chained;
        accounted = λ q o r'.
            let r = sym (same.entries q) ∙ r' in
            lookup-directories the_free_space h h' q dirs
            ∙ s.accounted q o r
            ∙ ap (λ p. ok (free_count p)) (sym (same.pages q o r));
      } in
      (
        file,
        h',
        closed,
        open_fresh file h' opened,
        record {
          for_rows = record {
            sound = sound;
            slot_size = ss' ∙ f.slot_size;
            some_slot = subst (λ n. 0 < n) (sym (slots_same h h' ps' ss')) f.some_slot;
          };
          page_size = ps';
          length_file = len;
          records = λ q t. SamePages-record_at places h h' q t s.valid valid same;
        },
      )
