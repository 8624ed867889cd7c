-- ===== src/Heapfile/Putting.antt =====
-- `put_record` of a1/heapfile.cpp, whether a page has room or a new one is made.
use database_assignments.Base.{
  ℕ, ◌+◌, ◌*◌, ◌/◌, ◌^◌, ◌≤◌, ◌<◌, ◌≡◌, refl, sym, ap, ap₂, subst, ◌∙◌, inl, inr, false, ◌&&◌, none,
  some, arith, ok, if◌then◌else◌, ◌==◌, length,
}
use database_assignments.Record.{attribute_size, Record}
use database_assignments.Record.Laws.{clean}
use database_assignments.Page.{Page, fixed_len_page_capacity}
use database_assignments.Page.Layout.{is_filled}
use database_assignments.Page.Count.{free_count-free}
use database_assignments.Page.Slots.{IsStorable}
use database_assignments.Heapfile.{RecordId, Heapfile}
use database_assignments.Heapfile.Ops.{get_free_pid}
use database_assignments.Heapfile.Records.{put_record}
use database_assignments.Heapfile.Entries.{resolve}
use database_assignments.Heapfile.Coherence.{page_of}
use database_assignments.Heapfile.Cache.{page_of_sizes}
use database_assignments.Heapfile.Vacant.{vacant_page_id-FindsPage}
use database_assignments.Heapfile.Allocating.{blank_page, init_fixed_len_page-blank_page}
use database_assignments.Heapfile.Growing.{alloc_page-Allocates}
use database_assignments.Heapfile.Adding.{get_free_pid-vacant, get_free_pid-none, put_in_page}
use database_assignments.Heapfile.Contents.{
  slots_of, record_at, record_at-stored, capacity-slots_of, contents_free, record_at-Puts,
}
use database_assignments.Heapfile.Added.{
  IsSound, resolve-added, IsAccounted-added, slots_added, record_at-added,
}

IsStorable-sizes :
    (p q : Page) (r : Record) → q.slot_size ≡ p.slot_size → IsStorable p r → IsStorable q r
IsStorable-sizes p q r e s = record {
  readable = s.readable;
  bytes_ok = s.bytes_ok;
  fits = omega (arith, s.fits, e);
  fills = subst (λ n. n / attribute_size ≤ length r) (sym e) s.fills;
}

-- `h'` is `h` with the record `r` where there was none.
pub record Inserts (places : Record) (h h' : Heapfile) (rid : RecordId) (r : Record) : Type 0 where
  pub sound : IsSound h'
  pub inside : rid.slot < slots_of h
  pub was_free : record_at places h rid.page_id rid.slot ≡ none
  pub records :
      (q t : ℕ)
      → record_at places h' q t ≡ (
          if q == rid.page_id && rid.slot == t then some (ok (clean r)) else record_at places h q t)
  pub page_size : h'.page_size ≡ h.page_size
  pub slot_size : h'.slot_size ≡ h.slot_size
  pub length_file : length h'.file ≤ length h.file + 2 * h.page_size

abbrev pub PutsSomewhere : Record → Heapfile → Record → Type 0
PutsSomewhere places h r =
    (h' : Heapfile) × (rid : RecordId) × (put_record h r ≡ ok h') × Inserts places h h' rid r

module _ (places : Record) (h : Heapfile) (r : Record)
    (storable : IsStorable (blank_page h.page_size h.slot_size) r) (len : length places ≡ length r)
    (small : length h.file + 2 * h.page_size < 2 ^ 31) where
  -- The page `pid` of `h₁` is the one that the record goes to.
  put_in_free :
      (h₁ : Heapfile) (pid off free : ℕ)
      → IsSound h₁
      → get_free_pid h ≡ ok (h₁, pid)
      → resolve h₁ pid ≡ ok off
      → free < slots_of h₁
      → is_filled (page_of h₁ pid off) free ≡ false
      → h₁.page_size ≡ h.page_size
      → h₁.slot_size ≡ h.slot_size
      → length h₁.file ≤ length h.file + 2 * h.page_size
      → ((q t : ℕ) → record_at places h₁ q t ≡ record_at places h q t)
      → PutsSomewhere places h r
  put_in_free h₁ pid off free s found at below empty ps ss le same =
      let page = page_of h₁ pid off in
      let cap = capacity-slots_of h₁ pid off s.valid in
      let (_, sizes) = page_of_sizes h₁ pid off s.valid.coherent.cache in
      let st = IsStorable-sizes (blank_page h.page_size h.slot_size) page r (sizes ∙ ss) storable in
      let (slot, inside, was_free, (h', done, p, keeps)) =
        put_in_page places h₁ pid off s.valid at h r free found (omega (arith, cap, below)) empty st
          len in
      let rid : RecordId = record { page_id = pid; slot = slot } in
      let k = keeps (omega (arith, ps, small)) in
      let slots : slots_of h₁ ≡ slots_of h =
        ap₂ (λ m n. fixed_len_page_capacity (blank_page m n)) ps ss in
      let slots' : slots_of h' ≡ slots_of h₁ =
        ap₂ (λ m n. fixed_len_page_capacity (blank_page m n)) k.page_size k.slot_size in
      let in_slots : slot < slots_of h₁ = omega (arith, cap, inside) in
      (
        h',
        rid,
        done,
        record {
          sound = record {
            valid = p.valid;
            laid = k.laid s.laid;
            chained = k.chained s.chained;
            accounted = k.accounted s.accounted;
          };
          inside = omega (arith, in_slots, slots);
          was_free =
              sym (same pid slot)
              ∙ record_at-stored places h₁ pid slot off at in_slots
              ∙ contents_free places page slot was_free;
          records = λ q t.
              record_at-Puts places h₁ h' rid off (some (ok (clean r))) s.valid at in_slots p slots'
                q t
              ∙ ap (λ d. if q == pid && slot == t then some (ok (clean r)) else d) (same q t);
          page_size = k.page_size ∙ ps;
          slot_size = k.slot_size ∙ ss;
          length_file = omega (arith, k.length_file, le);
        },
      )

  -- In a sound heap file (valid, its directories filled one after the other and chained in the
  -- file, each entry with the number of free slots of its page) whose pages have a slot, and whose
  -- file stays below 2^31 bytes with two more pages, putting a storable record succeeds, whether a
  -- page has a free slot, the last directory has room for a new page, or a new directory has to be
  -- linked. The heap file stays sound, with the sizes that it had and at most two pages longer. As
  -- a map from pages and slots to records it has the record, cut to ten bytes an attribute, at one
  -- place that had none, and is as it was at every other place.
  pub put_record-Inserts : IsSound h → 0 < slots_of h → PutsSomewhere places h r
  put_record-Inserts s some_slot = elim (vacant_page_id-FindsPage h s.laid s.accounted) [
    | inr (pid, off, e, at, free) ↦
        let (t, below, empty) = free_count-free (page_of h pid off) free in
        put_in_free h pid off t s (get_free_pid-vacant h pid e) at
          (omega (arith, below, capacity-slots_of h pid off s.valid)) empty refl refl (omega arith)
          (λ q t. refl)
    | inl e ↦
        let (h₁, pid, done, a, laid, chained, le) =
          alloc_page-Allocates h s.valid s.laid s.chained small in
        let sizes = s.valid.coherent.placed in
        let (_, _, clear) =
          init_fixed_len_page-blank_page h.page_size h.slot_size sizes.slot_pos sizes.slot_lt in
        let sound : IsSound h₁ = record {
          valid = a.valid;
          laid = laid;
          chained = chained;
          accounted = IsAccounted-added h h₁ pid a s.accounted;
        } in
        put_in_free h₁ pid (length h.file) 0 sound (get_free_pid-none h e ∙ done)
          (resolve-added h h₁ pid a) (omega (arith, some_slot, slots_added h h₁ pid a))
          (ap (λ p. is_filled p 0) a.blank ∙ clear 0) a.page_size a.slot_size le
          (λ q t. record_at-added h h₁ pid a places q t s.valid)
  ]
