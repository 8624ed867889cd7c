-- ===== src/Heapfile/Commit.antt =====
-- `commit_page` after a change to the cached page: that page changes, and no other.
use database_assignments.Base.{
  load, load_int-splice_other, length-splice, inl, arith, ℕ, ◌+◌, ◌^◌, ◌<◌, ◌≤◌, ◌≡◌, ◌≢◌, refl,
  sym, ap, ◌∙◌, true, some, ok, ok_injective, ◌>>=◌, leb, leb→le, store_int-ok, splice, le_bytes,
  length, set, >>=-eq-ok,
}
use database_assignments.Page.{Page}
use database_assignments.Page.Layout.{IsPage}
use database_assignments.Page.Count.{free_count, fixed_len_page_freeslots-count_true}
use database_assignments.Directory.{next_directory, entry_free_space}
use database_assignments.Heapfile.{Heapfile, Place, get_entry, load_offset}
use database_assignments.Heapfile.Ops.{commit_page}
use database_assignments.Heapfile.Entries.{
  resolve, entry_fits, get_entry-load, resolve-store_free_space, entry_fits-store_free_space,
}
use database_assignments.Heapfile.EntryAt.{the_free_space, lookup}
use database_assignments.Heapfile.Laid.{IsLaid}
use database_assignments.Heapfile.FreeSpace.{
  stored, get_entry-At, lookup-stored, lookup-stored_other,
}
use database_assignments.Heapfile.Chained.{AreSame-set}
use database_assignments.Heapfile.Chains.{IsChained, IsChained-same}
use database_assignments.Heapfile.LaidStored.{IsLaid-stored}
use database_assignments.Heapfile.Coherence.{
  page_of, holds, IsCoherent, page_of_cached, page_of_other, get_cached_entry-ok, cached-ok,
}
use database_assignments.Heapfile.Cache.{is_cached_hit}

-- `h'` is `h` with the page `pid`, whose block stands at `off`, replaced.
pub record Changed (h h' : Heapfile) (pid off : ℕ) (page : Page) : Type 0 where
  pub coherent : IsCoherent h'
  pub entries : (q : ℕ) → resolve h' q ≡ resolve h q
  pub changed : page_of h' pid off ≡ page
  pub others : (q o : ℕ) → q ≢ pid → resolve h q ≡ ok o → page_of h' q o ≡ page_of h q o
  pub free_space : free_count page < 2 ^ 32 → lookup the_free_space h' pid ≡ ok (free_count page)
  pub others_free :
      (q o : ℕ)
      → q ≢ pid
      → resolve h q ≡ ok o
      → lookup the_free_space h' q ≡ lookup the_free_space h q
  pub laid : IsLaid h → IsLaid h'
  pub chained : IsChained h → IsChained h'
  pub file : h'.file ≡ h.file
  pub page_size : h'.page_size ≡ h.page_size
  pub slot_size : h'.slot_size ≡ h.slot_size

-- `h` with another page in the cache.
abbrev pub with_page : Heapfile → Page → Heapfile
with_page h page = record h { cached_page = some page }

module _ (h : Heapfile) (pid off : ℕ) (page : Page) (v : IsCoherent h) (r : resolve h pid ≡ ok off)
    (e : h.cached_pid ≡ some pid) (is_page : IsPage page) (ps : page.page_size ≡ h.page_size)
    (ss : page.slot_size ≡ h.slot_size) where
  abbrev free : ℕ
  free = free_count page

  abbrev committed : Place → Heapfile
  committed place = record h {
    cached_page = some page;
    directory_buffer = set h.directory_buffer place.dir_no (record place.dir {
      bytes = splice place.dir.bytes (entry_free_space place.slot_no) (le_bytes free);
    });
    page_cache_dirty = true;
  }

  room :
      (place : Place)
      → get_entry h pid ≡ ok place
      → entry_free_space place.slot_no + 4 ≤ length place.dir.bytes
  unfolding entry_fits
  room place g =
      let fits = v.placed.fits pid off r in
      let there =
        ap
          (λ m.
            m >>= λ place. ok (leb (entry_free_space place.slot_no + 4) (length place.dir.bytes)))
          g in
      leb→le _ _ (ok_injective (sym there ∙ fits))

  entry-with : get_entry (with_page h page) pid ≡ get_entry h pid
  unfolding get_entry
  entry-with = refl

  commit-committed :
      (place : Place)
      → get_entry h pid ≡ ok place
      → commit_page (with_page h page) pid ≡ ok (committed place)
  unfolding commit_page
  commit-committed place g =
      let entry = get_cached_entry-ok (with_page h page) pid e ∙ entry-with ∙ g in
      let content = cached-ok (with_page h page) page refl in
      let hit = is_cached_hit (with_page h page) pid e in
      let count = fixed_len_page_freeslots-count_true page is_page in
      let written =
        store_int-ok place.dir.bytes (entry_free_space place.slot_no) free (room place g) in
      rw (entry, content, count, written, hit) refl

  resolve-committed :
      (place : Place)
      → get_entry h pid ≡ ok place
      → (q : ℕ) → resolve (committed place) q ≡ resolve h q
  resolve-committed place g =
      resolve-store_free_space h (committed place) place.dir_no place.slot_no free place.dir
        (get_entry-load h pid place g) refl

  entry_fits-committed :
      (place : Place)
      → get_entry h pid ≡ ok place
      → (q : ℕ) → entry_fits (committed place) q ≡ entry_fits h q
  entry_fits-committed place g =
      entry_fits-store_free_space h (committed place) place.dir_no place.slot_no free place.dir
        (get_entry-load h pid place g) refl

  IsCoherent-committed : (place : Place) → get_entry h pid ≡ ok place → IsCoherent (committed place)
  IsCoherent-committed place g =
      let old = resolve-committed place g in
      record {
        placed = record {
          slot_pos = v.placed.slot_pos;
          slot_lt = v.placed.slot_lt;
          inside = λ a x ra. v.placed.inside a x (sym (old a) ∙ ra);
          fits = λ a x ra. entry_fits-committed place g a ∙ v.placed.fits a x (sym (old a) ∙ ra);
          apart =
              λ a b x y ne ra rb. v.placed.apart a b x y ne (sym (old a) ∙ ra) (sym (old b) ∙ rb);
        };
        cache =
            holds pid off page e refl (old pid ∙ r) ps ss (is_page.size ∙ ps) (λ d. absurd (cc d));
      }

  -- Committing a changed page succeeds; the page that is seen is then the changed one.
  pub commit_page-Changed :
      (h' : Heapfile) × (commit_page (with_page h page) pid ≡ ok h') × Changed h h' pid off page
  unfolding resolve
  commit_page-Changed =
      let (place, g, l) = >>=-eq-ok (get_entry h pid) load_offset r in
      (
        committed place,
        commit-committed place g,
        record {
          coherent = IsCoherent-committed place g;
          entries = resolve-committed place g;
          changed = page_of_cached (committed place) pid off page e refl;
          others = λ q o ne rq.
              let ne' : pid ≢ q = λ w. ne (sym w) in
              page_of_other (committed place) pid q o e ne' ∙ sym (page_of_other h pid q o e ne');
          free_space = λ small.
              lookup-stored h (committed place) pid free place (get_entry-At h pid place g) refl
                small (room place g);
          others_free = λ q o ne rq.
              let (other, gq, _) = >>=-eq-ok (get_entry h q) load_offset rq in
              lookup-stored_other h (committed place) pid free place (get_entry-At h pid place g)
                refl q other ne (get_entry-At h q other gq);
          laid =
              IsLaid-stored h (committed place) pid free place (get_entry-At h pid place g) refl
                refl;
          chained = λ c.
              IsChained-same h (committed place) c refl (omega arith)
                (λ q x rx. inl (sym (resolve-committed place g q) ∙ rx))
                (set c.dirs place.dir_no
                  (stored h (committed place) pid free place (get_entry-At h pid place g)))
                (ap
                  (λ ds.
                    set ds place.dir_no
                      (stored h (committed place) pid free place (get_entry-At h pid place g)))
                  c.buffered)
                (AreSame-set c.dirs place.dir_no place.dir
                  (stored h (committed place) pid free place (get_entry-At h pid place g))
                  (ap (λ ds. load ds place.dir_no) (sym c.buffered) ∙ get_entry-load h pid place g)
                  (record {
                    block = record {
                      offset = refl;
                      capacity = refl;
                      size =
                          length-splice place.dir.bytes (entry_free_space place.slot_no)
                            (le_bytes free);
                    };
                    next =
                        load_int-splice_other place.dir.bytes (entry_free_space place.slot_no)
                          (le_bytes free) next_directory (omega arith);
                  }));
          file = refl;
          page_size = refl;
          slot_size = refl;
        },
      )
