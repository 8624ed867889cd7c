-- ===== src/Heapfile/Extending.antt =====
-- A heap file with one more page behind the others, in the file and in the last directory: what
-- `alloc_page` of a1/heapfile.cpp has made before it changes the cache.
use mathlib.Core.List.{append-nil}
use native.Mathlib.Decide.{ℕ_discrete}
use database_assignments.Base.{
  ◌∷◌, ℕ, ◌+◌, ◌<◌, ◌^◌, ◌≡◌, ◌≢◌, refl, sym, ap, ap₂, ◌∙◌, ◌==◌, ◌⊎◌, inl, inr, some, List, [],
  ◌++◌, arith, ok, stop, assert_failed, ok_injective, length, length-append, true, false,
}
use database_assignments.Directory.{Entry, next_directory, directory_capacity}
use database_assignments.Directory.Laws.{count_of, appended, appended-Appended}
use database_assignments.Heapfile.{Heapfile, get_entry}
use database_assignments.Heapfile.Ops.{is_cached, append_entry}
use database_assignments.Heapfile.Blocks.{block_at}
use database_assignments.Heapfile.Ends.{block_at-in_front, block_at-end}
use database_assignments.Heapfile.Entries.{resolve, entry_fits}
use database_assignments.Heapfile.Laid.{IsLaid}
use database_assignments.Heapfile.Chained.{AreSame, AreSame-last}
use database_assignments.Heapfile.EntryAt.{
  load_int-same, Field, the_offset, value_in, lookup, lookup-resolve,
}
use database_assignments.Heapfile.EntryFits.{AreDirectories-behind, entry_fits-AreDirectories}
use database_assignments.Heapfile.Appending.{
  new_pid, with_entry, append_entry-ok, lookup-with_entry, lookup-new_pid, was_missing,
}
use database_assignments.Heapfile.Cache.{Page-path}
use database_assignments.Heapfile.Coherence.{
  file_page, page_of, IsPlaced, Cache, empty, holds, IsCoherent, page_of_cached, page_of_other,
  page_of_empty,
}

-- `h'` is `h` with the entry `e` at `pid`, and with the block `b` where the file ended.
pub record Extends (h h' : Heapfile) (e : Entry) (b rest : List ℕ) (pid : ℕ) : Type 0 where
  pub missing : (f : Field) (o : ℕ) → lookup f h pid ≢ ok o
  pub placed : (f : Field) → lookup f h' pid ≡ ok (value_in f e)
  pub at : e.offset ≡ length h.file
  pub kept : (f : Field) (q o : ℕ) → lookup f h q ≡ ok o → lookup f h' q ≡ ok o
  pub only : (f : Field) (q o : ℕ) → lookup f h' q ≡ ok o → (q ≡ pid) ⊎ (lookup f h q ≡ ok o)
  pub fits : (q o : ℕ) → resolve h' q ≡ ok o → entry_fits h' q ≡ ok true
  pub file : h'.file ≡ h.file ++ (b ++ rest)
  pub page_size : h'.page_size ≡ h.page_size
  pub slot_size : h'.slot_size ≡ h.slot_size
  pub cached_page : h'.cached_page ≡ h.cached_page
  pub cached_pid : h'.cached_pid ≡ h.cached_pid
  pub page_cache_dirty : h'.page_cache_dirty ≡ h.page_cache_dirty

module _ (h : Heapfile) (e : Entry) (b : List ℕ) (r : IsLaid h)
    (room : count_of r.last < r.last.capacity) (at : e.offset ≡ length h.file)
    (small : length h.file < 2 ^ 31) (free : e.free_space < 2 ^ 32) where
  abbrev pub longer : Heapfile
  longer = record h { file = h.file ++ b }

  abbrev pub in_int : e.offset < 2 ^ 32
  in_int = omega arith

  abbrev pub fresh : ℕ
  fresh =
      new_pid longer e in_int free (directory_capacity h.page_size) r.before r.last r.full
        r.is_directory r.capacity room r.buffered

  abbrev pub extended : Heapfile
  extended =
      with_entry longer e in_int free (directory_capacity h.page_size) r.before r.last r.full
        r.is_directory r.capacity room r.buffered

  pub append_entry-extended : append_entry longer e ≡ ok (extended, fresh)
  append_entry-extended =
      append_entry-ok longer e in_int free (directory_capacity h.page_size) r.before r.last r.full
        r.is_directory r.capacity room r.buffered

  lookup-longer : (f : Field) (q : ℕ) → lookup f longer q ≡ lookup f h q
  unfolding lookup get_entry
  lookup-longer f q = refl

  missing : (f : Field) → lookup f h fresh ≡ stop assert_failed
  missing f =
      sym (lookup-longer f fresh)
      ∙ was_missing longer e in_int free (directory_capacity h.page_size) r.before r.last r.full
          r.is_directory r.capacity room r.buffered f

  same_entry : (f : Field) (q : ℕ) → q ≢ fresh → lookup f extended q ≡ lookup f h q
  same_entry f q ne =
      lookup-with_entry longer e in_int free (directory_capacity h.page_size) r.before r.last r.full
        r.is_directory r.capacity room r.buffered f q ne
      ∙ lookup-longer f q

  pub Extends-extended : Extends h extended e b [] fresh
  Extends-extended = record {
    missing = λ f o found. cc (sym (missing f) ∙ found);
    placed =
        lookup-new_pid longer e in_int free (directory_capacity h.page_size) r.before r.last r.full
          r.is_directory r.capacity room r.buffered;
    at = at;
    kept =
        λ f q o found. same_entry f q (λ w. cc (sym found ∙ ap (lookup f h) w ∙ missing f)) ∙ found;
    only = λ f q o found. elim (ℕ_discrete q fresh) [
      | yes w ↦ inl w
      | no ne ↦ inr (sym (same_entry f q ne) ∙ found)
    ];
    fits = λ q o. entry_fits-AreDirectories extended q o (
        AreDirectories-behind (directory_capacity h.page_size) r.before _ r.full
          (appended-Appended r.last e r.is_directory in_int free room).is_directory);
    file = ap (λ w. h.file ++ w) (sym (append-nil b));
    page_size = refl;
    slot_size = refl;
    cached_page = refl;
    cached_pid = refl;
    page_cache_dirty = refl;
  }

  -- The directories are the same but for the entries of the last one.
  pub AreSame-extended : AreSame (r.before ++ r.last ∷ []) extended.directory_buffer
  AreSame-extended =
      let x = appended-Appended r.last e r.is_directory in_int free room in
      let new_last = appended r.last e r.is_directory in_int free room in
      AreSame-last r.before r.last new_last (record {
        block = record { offset = refl; capacity = x.capacity; size = x.size };
        next = load_int-same new_last.bytes r.last.bytes next_directory x.size x.next;
      })

  pub IsLaid-extended : IsLaid extended
  IsLaid-extended = record {
    before = r.before;
    last = appended r.last e r.is_directory in_int free room;
    full = r.full;
    is_directory = (appended-Appended r.last e r.is_directory in_int free room).is_directory;
    capacity = r.capacity;
    buffered = refl;
    large = r.large;
  }

module _ (h h' : Heapfile) (e : Entry) (b rest : List ℕ) (pid : ℕ) (v : IsCoherent h)
    (x : Extends h h' e b rest pid) (size : length b ≡ h.page_size)
    (small : length h.file < 2 ^ 31) where
  pub resolve-placed : resolve h' pid ≡ ok (length h.file)
  resolve-placed = sym (lookup-resolve h' pid) ∙ x.placed the_offset ∙ ap ok x.at

  pub resolve-missing : (o : ℕ) → resolve h pid ≢ ok o
  resolve-missing o r = x.missing the_offset o (lookup-resolve h pid ∙ r)

  pub resolve-kept : (q o : ℕ) → resolve h q ≡ ok o → resolve h' q ≡ ok o
  resolve-kept q o r = sym (lookup-resolve h' q) ∙ x.kept the_offset q o (lookup-resolve h q ∙ r)

  pub resolve-only : (q o : ℕ) → resolve h' q ≡ ok o → (q ≡ pid) ⊎ (resolve h q ≡ ok o)
  resolve-only q o r = elim (x.only the_offset q o (lookup-resolve h' q ∙ r)) [
    | inl w ↦ inl w
    | inr r' ↦ inr (sym (lookup-resolve h q) ∙ r')
  ]

  -- A page that was there is another one.
  is_other : (q o : ℕ) → resolve h q ≡ ok o → q ≢ pid
  is_other q o r w = resolve-missing o (ap (resolve h) (sym w) ∙ r)

  -- An entry is the new one or an old one.
  entries_cases :
      (q o : ℕ) → resolve h' q ≡ ok o → ((q ≡ pid) × (o ≡ length h.file)) ⊎ (resolve h q ≡ ok o)
  entries_cases q o r = elim (resolve-only q o r) [
    | inl w ↦ inl (w, ok_injective (sym r ∙ ap (resolve h') w ∙ resolve-placed))
    | inr r' ↦ inr r'
  ]

  block_at-kept :
      (q o : ℕ)
      → resolve h q ≡ ok o
      → block_at h'.file h'.page_size o ≡ block_at h.file h.page_size o
  block_at-kept q o r =
      ap₂ (λ f n. block_at f n o) x.file x.page_size
      ∙ block_at-in_front h.file (b ++ rest) h.page_size o (v.placed.inside q o r).1

  file_page-kept : (q o : ℕ) → resolve h q ≡ ok o → file_page h' o ≡ file_page h o
  file_page-kept q o r = Page-path (block_at-kept q o r) x.page_size x.slot_size

  pub page_of-kept : (q o : ℕ) → resolve h q ≡ ok o → page_of h' q o ≡ page_of h q o
  page_of-kept q o r = by_cache v.cache
    where
      by_cache : Cache h → page_of h' q o ≡ page_of h q o
      by_cache (empty e d) =
          page_of_empty h' q o (x.cached_pid ∙ e)
          ∙ file_page-kept q o r
          ∙ sym (page_of_empty h q o e)
      by_cache (holds c y page e f rc ps ss sz clean) = elim (ℕ_discrete c q) [
        | yes w ↦
            page_of_cached h' q o page (x.cached_pid ∙ e ∙ ap some w) (x.cached_page ∙ f)
            ∙ sym (page_of_cached h q o page (e ∙ ap some w) f)
        | no ne ↦
            page_of_other h' c q o (x.cached_pid ∙ e) ne
            ∙ file_page-kept q o r
            ∙ sym (page_of_other h c q o e ne)
      ]

  -- The new page is not the cached one, and is what has been written.
  pub page_of-new :
      (is_cached h' pid ≡ false)
      × (page_of h' pid (length h.file)
          ≡ record { bytes = b; page_size = h.page_size; slot_size = h.slot_size })
  page_of-new = by_cache v.cache
    where
      new_page :
          file_page h' (length h.file)
          ≡ record { bytes = b; page_size = h.page_size; slot_size = h.slot_size }
      new_page =
          let block =
            ap₂ (λ f n. block_at f n (length h.file)) x.file x.page_size
            ∙ block_at-end h.file b rest h.page_size size in
          Page-path block x.page_size x.slot_size

      by_cache :
          Cache h
          → (is_cached h' pid ≡ false)
            × (page_of h' pid (length h.file)
                ≡ record { bytes = b; page_size = h.page_size; slot_size = h.slot_size })
      by_cache (empty e d) =
          let none_cached = x.cached_pid ∙ e in
          (rw none_cached refl, page_of_empty h' pid (length h.file) none_cached ∙ new_page)
      by_cache (holds c y page e f rc ps ss sz clean) =
          let other = x.cached_pid ∙ e in
          let ne : c ≢ pid = is_other c y rc in
          let differ : (c == pid) ≡ false = ground arith in
          (rw (other, differ) refl, page_of_other h' c pid (length h.file) other ne ∙ new_page)

  IsPlaced-extended : IsPlaced h'
  IsPlaced-extended = record {
    slot_pos = omega (arith, v.placed.slot_pos, x.slot_size);
    slot_lt = omega (arith, v.placed.slot_lt, x.slot_size, x.page_size);
    inside = λ a o r. elim (entries_cases a o r) [
      | inl (_, e) ↦ omega (arith, e, longer_by, x.page_size, size)
      | inr r' ↦ omega (arith, v.placed.inside a o r', longer_by, x.page_size)
    ];
    fits = x.fits;
    apart = λ a c o p ne ra rc. elim (entries_cases a o ra) [
      | inl (ea, eo) ↦ elim (entries_cases c p rc) [
        | inl (ec, _) ↦ absurd (ne (ea ∙ sym ec))
        | inr rc' ↦ omega (arith, eo, v.placed.inside c p rc', x.page_size)
      ]
      | inr ra' ↦ elim (entries_cases c p rc) [
        | inl (_, ep) ↦ omega (arith, ep, v.placed.inside a o ra', x.page_size)
        | inr rc' ↦ omega (arith, v.placed.apart a c o p ne ra' rc', x.page_size)
      ]
    ];
  }
    where
      longer_by : length h'.file ≡ length h.file + (length b + length rest)
      longer_by =
          ap length x.file
          ∙ length-append h.file (b ++ rest)
          ∙ ap (λ n. length h.file + n) (length-append b rest)

  pub IsCoherent-extended : IsCoherent h'
  IsCoherent-extended = record { placed = IsPlaced-extended; cache = by_cache v.cache }
    where
      by_cache : Cache h → Cache h'
      by_cache (empty e d) = empty (x.cached_pid ∙ e) (x.page_cache_dirty ∙ d)
      by_cache (holds c y page e f rc ps ss sz clean) =
          holds c y page (x.cached_pid ∙ e) (x.cached_page ∙ f) (resolve-kept c y rc)
            (ps ∙ sym x.page_size) (ss ∙ sym x.slot_size) (sz ∙ sym x.page_size)
            (λ d. clean (sym x.page_cache_dirty ∙ d) ∙ sym (block_at-kept c y rc))
