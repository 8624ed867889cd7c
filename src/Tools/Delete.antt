-- ===== src/Tools/Delete.antt =====
-- a1/delete.cpp from its arguments and the heap file to the heap file that it leaves, opened again.
use database_assignments.Base.{
  ℕ, ◌^◌, ◌<◌, ◌≡◌, refl, sym, subst, ◌∙◌, true, none, List, arith, ok, ◌==◌, ==_iff, is_positive,
  lt→ltb, load, if◌then◌else◌, length,
}
use database_assignments.Record.{Record}
use database_assignments.Page.Count.{capacity-le}
use database_assignments.Heapfile.{RecordId, Heapfile}
use database_assignments.Heapfile.Allocating.{blank_page}
use database_assignments.Heapfile.Entries.{resolve}
use database_assignments.Heapfile.Cache.{page_of_sizes}
use database_assignments.Heapfile.Store.{delete_in_page}
use database_assignments.Heapfile.Contents.{slots_of, record_at, capacity-slots_of, record_at-Puts}
use database_assignments.Heapfile.Inserted.{is_place}
use database_assignments.Tools.{finished, int_argument}
use database_assignments.Tools.Edit.{open_rows, parse_rid, delete_main}
use database_assignments.Tools.Loading.{IsForRows, slots_same}
use database_assignments.Tools.Sessions.{close_heapfile-open_rows}

module _ (page_size : ℕ) (places : Record) (argv : List (List ℕ)) (file : List ℕ) (h : Heapfile)
    (large : 1001 < page_size) (small : page_size < 2 ^ 31) (wide : length places ≡ 100)
    (four : length argv ≡ 4) (number : int_argument argv 3 ≡ ok page_size)
    (opened : open_rows page_size file ≡ ok h) (f : IsForRows h)
    (ps : h.page_size ≡ page_size) where
  -- Where a file can be opened as a sound heap file (valid, its directories filled one after the
  -- other and chained in the file, each entry with the number of free slots of its page) of slots
  -- of 1000 bytes with room for one on a page, and a page size above 1001 and below 2^31: delete,
  -- given four arguments of which the third names a page below 2^31 that has an entry and a slot of
  -- it, and the last is the page size, finishes, and the file that it leaves can be opened again as
  -- such a heap file of the same page size. The slot that was named holds no record, and every
  -- other place holds what it held.
  pub delete_main-open_rows :
      (memory rid : RecordId) (record_id : List ℕ) (off : ℕ)
      → load argv 2 ≡ ok record_id
      → parse_rid memory record_id ≡ rid
      → rid.page_id < 2 ^ 31
      → rid.slot < slots_of h
      → resolve h rid.page_id ≡ ok off
      → (file' : List ℕ) × (h' : Heapfile) × (delete_main memory argv file ≡ ok (finished file'))
        × (open_rows page_size file' ≡ ok h')
        × IsForRows h'
        × (h'.page_size ≡ page_size)
        × ((q t : ℕ)
            → record_at places h' q t ≡ (if is_place rid q t then none else record_at places h q t))
  unfolding delete_main
  delete_main-open_rows memory rid record_id off text parsed page_ok slot_ok r =
      let s = f.sound in
      let cap = capacity-slots_of h rid.page_id off s.valid in
      let (_, ss) = page_of_sizes h rid.page_id off s.valid.coherent.cache in
      let (h₁, done, p, keeps) =
        delete_in_page places h rid off s.valid r (omega (arith, cap, slot_ok))
          (omega (arith, wide, ss, f.slot_size)) in
      let k = keeps (omega (arith, ps, small)) in
      let slots = slots_same h h₁ k.page_size k.slot_size in
      let f₁ : IsForRows h₁ = record {
        sound = record {
          valid = p.valid;
          laid = k.laid s.laid;
          chained = k.chained s.chained;
          accounted = k.accounted s.accounted;
        };
        slot_size = k.slot_size ∙ f.slot_size;
        some_slot = subst (λ n. 0 < n) (sym slots) f.some_slot;
      } in
      let (file', h', closed, opened', r') =
        close_heapfile-open_rows places page_size large small h₁ f₁ (k.page_size ∙ ps) in
      let arguments : (length argv == 4) ≡ true = (==_iff (length argv) 4).1 four in
      let positive : is_positive page_size ≡ true =
        rw (lt→ltb 0 page_size (omega arith), lt→ltb page_size (2 ^ 31) small) refl in
      let slot_small : rid.slot < 2 ^ 31 = omega (
        arith,
        slot_ok,
        ps,
        capacity-le (blank_page h.page_size h.slot_size) s.valid.coherent.placed.slot_pos,
      ) in
      (
        file',
        h',
        rw
            (
              arguments,
              number,
              text,
              parsed,
              lt→ltb rid.page_id (2 ^ 31) page_ok,
              lt→ltb rid.slot (2 ^ 31) slot_small,
              positive,
              opened,
              done,
              closed,
            )
            refl,
        opened',
        r'.for_rows,
        r'.page_size ∙ k.page_size ∙ ps,
        λ q t.
            r'.records q t ∙ record_at-Puts places h h₁ rid off none s.valid r slot_ok p slots q t,
      )
