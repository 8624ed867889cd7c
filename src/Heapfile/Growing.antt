-- ===== src/Heapfile/Growing.antt =====
-- `alloc_page` of a1/heapfile.cpp in a heap file whose directories are filled one after the other.
use database_assignments.Base.{
  ◌∷◌, [], ◌⊎◌, subst, sym, ◌≤◌, ℕ, ◌+◌, ◌*◌, ◌≤◌, ◌<◌, ◌^◌, ◌≡◌, refl, ap, ◌∙◌, inl, inr, [], ◌++◌,
  arith, ok, length, length-append, replicate, Bool-cases, ltb, ltb→lt, ltb→le,
}
use database_assignments.CString.Laws.{length-replicate}
use database_assignments.Page.Count.{free_count-le}
use database_assignments.Directory.Laws.{count_of}
use database_assignments.Heapfile.{Heapfile}
use database_assignments.Heapfile.Ops.{append_entry, alloc_page}
use database_assignments.Heapfile.Store.{IsValid}
use database_assignments.Heapfile.Laid.{IsLaid, IsLaid-kept}
use database_assignments.Heapfile.Entries.{resolve}
use database_assignments.Heapfile.Chained.{AreSame}
use database_assignments.Heapfile.Chains.{IsChained, IsChained-same, IsChained-linked}
use database_assignments.Heapfile.Added.{Adds-cases}
use database_assignments.Heapfile.Extending.{
  fresh, extended, append_entry-extended, Extends-extended, IsLaid-extended, AreSame-extended,
}
use database_assignments.Heapfile.Linking.{
  new, new_pid, result, append_entry-result, Extends-result, IsLaid-result, length-result, grown,
  HasBlock-grown, grown-behind, grown-next,
}
use database_assignments.Heapfile.Allocating.{
  blank_page, init_fixed_len_page-blank_page, new_entry, Adds, alloc_page-Adds,
}

-- What `alloc_page` promises.
abbrev pub Allocates : Heapfile → Type 0
Allocates h =
    (h' : Heapfile) × (pid : ℕ) × (alloc_page h ≡ ok (h', pid))
    × Adds h h' pid
    × IsLaid h'
    × IsChained h'
    × (length h'.file ≤ length h.file + 2 * h.page_size)

module _ (h : Heapfile) (v : IsValid h) (l : IsLaid h) (c : IsChained h)
    (small : length h.file + 2 * h.page_size < 2 ^ 31) where
  in_range : length h.file < 2 ^ 31
  in_range = omega arith

  free_in_int : (new_entry h).free_space < 2 ^ 32
  free_in_int =
      let sizes = v.coherent.placed in
      let blank = blank_page h.page_size h.slot_size in
      let (_, is_page, _) =
        init_fixed_len_page-blank_page h.page_size h.slot_size sizes.slot_pos sizes.slot_lt in
      omega (arith, free_count-le blank is_page)

  same_dirs : c.dirs ≡ l.before ++ l.last ∷ []
  same_dirs = sym c.buffered ∙ l.buffered

  -- The pages of the new heap file.
  pages_added :
      (h' : Heapfile) (pid : ℕ)
      → Adds h h' pid
      → (q x : ℕ) → resolve h' q ≡ ok x
      → (resolve h q ≡ ok x) ⊎ (x ≡ length h.file)
  pages_added h' pid adds q x r = elim (Adds-cases h h' pid adds q x r) [
    | inl (_, at) ↦ inr at
    | inr r' ↦ inl r'
  ]

  in_last : count_of l.last < l.last.capacity → Allocates h
  in_last room =
      let zeros = replicate h.page_size 0 in
      let e = new_entry h in
      let h₂ = extended h e zeros l room refl in_range free_in_int in
      let pid = fresh h e zeros l room refl in_range free_in_int in
      let found = append_entry-extended h e zeros l room refl in_range free_in_int in
      let x = Extends-extended h e zeros l room refl in_range free_in_int in
      let (h', done, adds, kept, len) = alloc_page-Adds h h₂ [] pid v in_range found x in
      (
        h',
        pid,
        done,
        adds,
        IsLaid-kept h₂ h' kept adds.page_size
            (IsLaid-extended h e zeros l room refl in_range free_in_int),
        IsChained-same h h' c adds.page_size (omega (arith, len, length-append h.file zeros))
            (pages_added h' pid adds) h₂.directory_buffer kept
            (subst (λ ds. AreSame ds h₂.directory_buffer) (sym same_dirs)
              (AreSame-extended h e zeros l room refl in_range free_in_int)),
        omega (arith, len, length-append h.file zeros, length-replicate h.page_size),
      )

  in_new : count_of l.last ≡ l.last.capacity → Allocates h
  in_new full =
      let zeros = replicate h.page_size 0 in
      let size : length zeros ≡ h.page_size = length-replicate h.page_size in
      let e = new_entry h in
      let h₂ = result h e zeros l full refl size small free_in_int in
      let pid = new_pid h e zeros l full refl size small free_in_int in
      let found = append_entry-result h e zeros l full refl size small free_in_int in
      let x = Extends-result h e zeros l full refl size small free_in_int in
      let there =
        ap (λ ds. append_entry (record h { file = h.file ++ zeros; directory_buffer = ds }) e)
          l.buffered
        ∙ found in
      let rest = (new h e zeros l full refl size small free_in_int).bytes in
      let (h', done, adds, kept, len) = alloc_page-Adds h h₂ rest pid v in_range there x in
      let bytes : length h'.file ≡ length h.file + 2 * h.page_size =
        len ∙ length-result h e zeros l full refl size small free_in_int in
      (
        h',
        pid,
        done,
        adds,
        IsLaid-kept h₂ h' kept adds.page_size
            (IsLaid-result h e zeros l full refl size small free_in_int),
        IsChained-linked h h' c adds.page_size (omega (arith, bytes)) (pages_added h' pid adds)
            l.before l.last (grown h e zeros l full refl size small free_in_int) same_dirs kept
            (HasBlock-grown h e zeros l full refl size small free_in_int (length h'.file)
              (omega (arith, bytes)))
            (grown-behind h e zeros l full refl size small free_in_int)
            (grown-next h e zeros l full refl size small free_in_int)
            (omega (arith, l.is_directory.inside)) (λ q x r. (v.coherent.placed.inside q x r).1),
        omega (arith, bytes),
      )

  -- In a valid heap file whose directories are filled one after the other and chained in the file,
  -- and whose file stays below 2^31 bytes with two more pages, alloc_page succeeds, in the last
  -- directory or in a new one that it links. The page number that it returns had no entry, and has
  -- one now, at the end of the old file, with the number of free slots of the page; the page is
  -- empty; every other page has the offset, the free space and the bytes that it had; the heap file
  -- stays valid, its directories filled one after the other and chained, and its file is at most
  -- two pages longer.
  pub alloc_page-Allocates : Allocates h
  alloc_page-Allocates = elim (Bool-cases (ltb (count_of l.last) l.last.capacity)) [
    | inl room ↦ in_last (ltb→lt (count_of l.last) l.last.capacity room)
    | inr full ↦
        in_new
          (omega (arith, l.is_directory.counted, ltb→le (count_of l.last) l.last.capacity full))
  ]
