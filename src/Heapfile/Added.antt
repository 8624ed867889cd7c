-- ===== src/Heapfile/Added.antt =====
-- A heap file of a1/heapfile.cpp with a new page has the records that it had.
use database_assignments.Base.{
  ℕ, ◌<◌, ◌≡◌, ◌≢◌, sym, ap, ap₂, ◌∙◌, ◌⊎◌, inl, inr, arith, ok, ok_injective, Bool-cases, ltb,
  ltb→lt, ltb→le, length,
}
use database_assignments.Record.{Record}
use database_assignments.Page.{fixed_len_page_capacity}
use database_assignments.Page.Count.{free_count}
use database_assignments.Page.Slots.{contents}
use database_assignments.Heapfile.{Heapfile}
use database_assignments.Heapfile.Entries.{resolve}
use database_assignments.Heapfile.EntryAt.{the_offset, the_free_space, lookup, lookup-resolve}
use database_assignments.Heapfile.Coherence.{page_of}
use database_assignments.Heapfile.Store.{IsValid}
use database_assignments.Heapfile.Laid.{IsLaid}
use database_assignments.Heapfile.Chains.{IsChained}
use database_assignments.Heapfile.Accounted.{IsAccounted}
use database_assignments.Heapfile.Allocating.{blank_page, init_fixed_len_page-blank_page, Adds}
use database_assignments.Heapfile.Contents.{
  slots_of, record_at, record_at-stored, record_at-beyond, record_at-missing, page_cases,
  contents_free,
}

-- A valid heap file whose directories are filled one after the other, are a chain in the file, and
-- give the numbers of free slots of their pages.
pub record IsSound (h : Heapfile) : Type 0 where
  pub valid : IsValid h
  pub laid : IsLaid h
  pub chained : IsChained h
  pub accounted : IsAccounted h

module _ (h h' : Heapfile) (pid : ℕ) (a : Adds h h' pid) where
  pub resolve-added : resolve h' pid ≡ ok (length h.file)
  resolve-added = sym (lookup-resolve h' pid) ∙ a.placed the_offset

  pub Adds-cases :
      (q o : ℕ) → resolve h' q ≡ ok o → ((q ≡ pid) × (o ≡ length h.file)) ⊎ (resolve h q ≡ ok o)
  Adds-cases q o r = elim (a.only the_offset q o (lookup-resolve h' q ∙ r)) [
    | inl w ↦ inl (w, ok_injective (sym r ∙ ap (resolve h') w ∙ resolve-added))
    | inr r' ↦ inr (sym (lookup-resolve h q) ∙ r')
  ]

  resolve-still : (q o : ℕ) → resolve h q ≡ ok o → resolve h' q ≡ ok o
  resolve-still q o r = sym (lookup-resolve h' q) ∙ a.kept the_offset q o (lookup-resolve h q ∙ r)

  pub IsAccounted-added : IsAccounted h → IsAccounted h'
  IsAccounted-added g q o r = elim (Adds-cases q o r) [
    | inl (w, at) ↦
        ap (lookup the_free_space h') w
        ∙ a.placed the_free_space
        ∙ ap (λ p. ok (free_count p)) (sym (ap₂ (page_of h') w at ∙ a.blank))
    | inr r' ↦
        a.kept the_free_space q (free_count (page_of h q o)) (g q o r')
        ∙ ap (λ p. ok (free_count p)) (sym (a.pages q o r'))
  ]

  pub slots_added : slots_of h' ≡ slots_of h
  slots_added = ap₂ (λ m n. fixed_len_page_capacity (blank_page m n)) a.page_size a.slot_size

  -- A new page has no record, and the others have theirs.
  pub record_at-added :
      (places : Record) (q t : ℕ) → IsValid h → record_at places h' q t ≡ record_at places h q t
  record_at-added places q t v = elim (Bool-cases (ltb t (slots_of h))) [
    | inr ge ↦
        let le = ltb→le t (slots_of h) ge in
        record_at-beyond places h' q t (omega (arith, slots_added, le))
        ∙ sym (record_at-beyond places h q t le)
    | inl lt ↦ below (ltb→lt t (slots_of h) lt) (page_cases h' q)
  ]
    where
      below :
          t < slots_of h
          → ((o : ℕ) × (resolve h' q ≡ ok o)) ⊎ ((o : ℕ) → resolve h' q ≢ ok o)
          → record_at places h' q t ≡ record_at places h q t
      below lt (inr missing) =
          record_at-missing places h' q t missing
          ∙ sym (record_at-missing places h q t (λ o r. missing o (resolve-still q o r)))
      below lt (inl (o, r)) =
          let here = record_at-stored places h' q t o r (omega (arith, slots_added, lt)) in
          elim (Adds-cases q o r) [
            | inl (w, at) ↦
                let page = ap₂ (page_of h') w at ∙ a.blank in
                let sizes = v.coherent.placed in
                let (_, _, clear) =
                  init_fixed_len_page-blank_page h.page_size h.slot_size sizes.slot_pos
                    sizes.slot_lt in
                let nothing = λ (x : ℕ) (rx : resolve h q ≡ ok x).
                  a.missing the_offset x (lookup-resolve h pid ∙ ap (resolve h) (sym w) ∙ rx) in
                here
                ∙ ap (λ p. contents places p t) page
                ∙ contents_free places (blank_page h.page_size h.slot_size) t (clear t)
                ∙ sym (record_at-missing places h q t nothing)
            | inr r' ↦
                here
                ∙ ap (λ p. contents places p t) (a.pages q o r')
                ∙ sym (record_at-stored places h q t o r' lt)
          ]
