-- ===== src/Heapfile/Allocating.antt =====
-- `alloc_page` of a1/heapfile.cpp: a new page, empty, behind the others and in the cache.
use database_assignments.Base.{
  ℕ, ◌%◌, ◌<◌, ◌^◌, ◌≡◌, ◌≢◌, refl, sym, ap, ap₂, subst, lt→ltb, ◌∙◌, inl, inr, false, some, List,
  ◌++◌, arith, ok, ok_injective, length, replicate, ◌⊎◌,
}
use database_assignments.CString.Laws.{length-replicate}
use database_assignments.Page.{Page, init_fixed_len_page}
use database_assignments.Page.Layout.{IsPage, is_filled, init_fixed_len_page-IsPage}
use database_assignments.Page.Count.{free_count, fixed_len_page_freeslots-count_true}
use database_assignments.Directory.{Entry}
use database_assignments.Heapfile.{Heapfile}
use database_assignments.Heapfile.Ops.{append_entry, alloc_page}
use database_assignments.Heapfile.Ends.{write_block-end}
use database_assignments.Heapfile.Entries.{resolve}
use database_assignments.Heapfile.EntryAt.{Field, value_in, lookup}
use database_assignments.Heapfile.Laid.{lookup-directories}
use database_assignments.Heapfile.Coherence.{page_of, IsCoherent, write_out_lem}
use database_assignments.Heapfile.Cache.{Loaded, h_loaded, Loaded-h_loaded}
use database_assignments.Heapfile.Store.{IsValid}
use database_assignments.Heapfile.Extending.{
  Extends, page_of-kept, page_of-new, IsCoherent-extended, resolve-placed, resolve-kept,
  resolve-only,
}

-- The page that `init_fixed_len_page` makes.
abbrev pub blank_page : ℕ → ℕ → Page
blank_page page_size slot_size = record {
  bytes = replicate page_size 0;
  page_size = page_size;
  slot_size = slot_size;
}

pub init_fixed_len_page-blank_page :
    (page_size slot_size : ℕ)
    → 0 < slot_size
    → slot_size < page_size
    → (init_fixed_len_page page_size slot_size ≡ ok (blank_page page_size slot_size))
      × IsPage (blank_page page_size slot_size)
      × ((s : ℕ) → is_filled (blank_page page_size slot_size) s ≡ false)
unfolding init_fixed_len_page
init_fixed_len_page-blank_page page_size slot_size h k =
    let (p, e, is_page, ps, ss, clear) =
      (init_fixed_len_page-IsPage page_size slot_size).0 (h, k) in
    let made : init_fixed_len_page page_size slot_size ≡ ok (blank_page page_size slot_size) =
      rw (lt→ltb 0 slot_size h, lt→ltb slot_size page_size k) refl in
    let same : p ≡ blank_page page_size slot_size = ok_injective (sym e ∙ made) in
    (made, subst IsPage same is_page, subst (λ q. (s : ℕ) → is_filled q s ≡ false) same clear)

-- The entry of a new page.
abbrev pub new_entry : Heapfile → Entry
new_entry h = record {
  offset = length h.file;
  free_space = free_count (blank_page h.page_size h.slot_size);
}

-- `h'` is `h` with a new page `pid`, which is empty, and which is in the cache.
pub record Adds (h h' : Heapfile) (pid : ℕ) : Type 0 where
  pub valid : IsValid h'
  pub missing : (f : Field) (o : ℕ) → lookup f h pid ≢ ok o
  pub placed : (f : Field) → lookup f h' pid ≡ ok (value_in f (new_entry h))
  pub kept : (f : Field) (q o : ℕ) → lookup f h q ≡ ok o → lookup f h' q ≡ ok o
  pub only : (f : Field) (q o : ℕ) → lookup f h' q ≡ ok o → (q ≡ pid) ⊎ (lookup f h q ≡ ok o)
  pub blank : page_of h' pid (length h.file) ≡ blank_page h.page_size h.slot_size
  pub pages : (q o : ℕ) → resolve h q ≡ ok o → page_of h' q o ≡ page_of h q o
  pub page_size : h'.page_size ≡ h.page_size
  pub slot_size : h'.slot_size ≡ h.slot_size

module _ (h h₂ : Heapfile) (rest : List ℕ) (pid : ℕ) (v : IsValid h)
    (small : length h.file < 2 ^ 31)
    (found : append_entry (record h { file = h.file ++ replicate h.page_size 0 }) (new_entry h)
      ≡ ok (h₂, pid))
    (x : Extends h h₂ (new_entry h) (replicate h.page_size 0) rest pid) where
  abbrev zeros : List ℕ
  zeros = replicate h.page_size 0

  zeros_size : length zeros ≡ h.page_size
  zeros_size = length-replicate h.page_size

  extended-IsCoherent : IsCoherent h₂
  extended-IsCoherent =
      IsCoherent-extended h h₂ (new_entry h) zeros rest pid v.coherent x zeros_size small

  new_place : resolve h₂ pid ≡ ok (length h.file)
  new_place = resolve-placed h h₂ (new_entry h) zeros rest pid v.coherent x zeros_size small

  -- What is so once the page is in the cache.
  Loaded-Adds : (h' : Heapfile) → Loaded h₂ h' pid (length h.file) → Adds h h' pid
  Loaded-Adds h' l =
      let sizes = v.coherent.placed in
      let (made, is_page, clear) =
        init_fixed_len_page-blank_page h.page_size h.slot_size sizes.slot_pos sizes.slot_lt in
      let (miss, blank) =
        page_of-new h h₂ (new_entry h) zeros rest pid v.coherent x zeros_size small in
      let back = λ (q o : ℕ) (r : resolve h' q ≡ ok o). sym (l.same.entries q) ∙ r in
      let same = λ (f : Field) (q : ℕ). lookup-directories f h₂ h' q l.directories in
      let new_page = l.same.pages pid (length h.file) new_place ∙ blank in
      let old_page = λ (q o : ℕ) (r : resolve h q ≡ ok o).
        l.same.pages q o
          (resolve-kept h h₂ (new_entry h) zeros rest pid v.coherent x zeros_size small q o r)
        ∙ page_of-kept h h₂ (new_entry h) zeros rest pid v.coherent x zeros_size small q o r in
      record {
        valid = record {
          coherent = l.coherent;
          pages = λ q o r.
              elim (resolve-only h h₂ (new_entry h) zeros rest pid v.coherent x zeros_size small q o
                (back q o r)) [
                  | inl w ↦
                      let at : length h.file ≡ o =
                        ok_injective (sym new_place ∙ ap (resolve h₂) (sym w) ∙ back q o r) in
                      subst IsPage (sym (ap₂ (page_of h') w (sym at) ∙ new_page)) is_page
                  | inr r' ↦ subst IsPage (sym (old_page q o r')) (v.pages q o r')
                ];
        };
        missing = x.missing;
        placed = λ f. same f pid ∙ x.placed f;
        kept = λ f q o r. same f q ∙ x.kept f q o r;
        only = λ f q o r. x.only f q o (sym (same f q) ∙ r);
        blank = new_page;
        pages = old_page;
        page_size = l.page_size ∙ x.page_size;
        slot_size = l.slot_size ∙ x.slot_size;
      }

  pub alloc_page-Adds :
      (h' : Heapfile) × (alloc_page h ≡ ok (h', pid))
      × Adds h h' pid
      × (h'.directory_buffer ≡ h₂.directory_buffer)
      × (length h'.file ≡ length h₂.file)
  unfolding alloc_page
  alloc_page-Adds =
      let sizes = v.coherent.placed in
      let blank = blank_page h.page_size h.slot_size in
      let (made, is_page, clear) =
        init_fixed_len_page-blank_page h.page_size h.slot_size sizes.slot_pos sizes.slot_lt in
      let (miss, new_page) =
        page_of-new h h₂ (new_entry h) zeros rest pid v.coherent x zeros_size small in
      let (file, w) = write_out_lem h₂ extended-IsCoherent in
      let h' = h_loaded h₂ pid (length h.file) file extended-IsCoherent new_place miss w in
      let l = Loaded-h_loaded h₂ pid (length h.file) file extended-IsCoherent new_place miss w in
      let cached = l.page_cached ∙ ap some new_page in
      let offset : length h.file % 2 ^ 32 ≡ length h.file = omega arith in
      (
        h',
        rw
            (
              made,
              fixed_len_page_freeslots-count_true blank is_page,
              offset,
              write_block-end h zeros small zeros_size,
              found,
              w.0,
            )
            (ap (λ c. ok (record h' { cached_page = c }, pid)) (sym cached)),
        Loaded-Adds h' l,
        refl,
        w.1,
      )
