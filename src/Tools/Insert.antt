-- ===== src/Tools/Insert.antt =====
-- a1/insert.cpp from its arguments and the heap file to the heap file that it leaves, opened again.
use database_assignments.Base.{
  ℕ, ◌+◌, ◌*◌, ◌^◌, ◌<◌, ◌≡◌, refl, sym, subst, ◌∙◌, true, some, List, map, arith, ok, ◌==◌, ==_iff,
  is_positive, lt→ltb, length,
}
use database_assignments.CString.{fgets_lines}
use database_assignments.Record.{Record}
use database_assignments.Heapfile.{RecordId, Heapfile}
use database_assignments.Heapfile.Contents.{record_at}
use database_assignments.Heapfile.Inserted.{AreInserted, AreInserted-same}
use database_assignments.Tools.{finished, int_argument}
use database_assignments.Tools.Edit.{open_rows, insert_main}
use database_assignments.Tools.Loading.{
  AreRows, line_of, row_record, put_lines-Loads, IsForRows, slots_same,
}
use database_assignments.Tools.Sessions.{close_heapfile-open_rows}

-- Where a file can be opened as a sound heap file (valid, its directories filled one after the
-- other and chained in the file, each entry with the number of free slots of its page) of slots of
-- 1000 bytes with room for one on a page, and a page size above 1001, and the second file's lines
-- are rows of a hundred plain, non-empty values of bytes, so few that the heap file with two pages
-- a row more stays below 2^31 bytes: insert, given four arguments of which the last is the page
-- size, finishes, and the file that it leaves can be opened again as such a heap file of the same
-- page size. The rows, each value cut to ten bytes, have been put in their order at places that had
-- no record, and every other place holds what it held.
pub insert_main-open_rows :
    (page_size : ℕ) (places : Record) (rows : List (List (List ℕ))) (argv : List (List ℕ))
    (csv file : List ℕ) (h : Heapfile)
    → 1001 < page_size
    → page_size < 2 ^ 31
    → length places ≡ 100
    → AreRows rows
    → length argv ≡ 4
    → int_argument argv 3 ≡ ok page_size
    → fgets_lines csv ≡ map line_of rows
    → open_rows page_size file ≡ ok h
    → IsForRows h
    → h.page_size ≡ page_size
    → length h.file + length rows * (2 * page_size) < 2 ^ 31
    → (file' : List ℕ) × (h' : Heapfile) × (rids : List RecordId) × (insert_main argv file
          (some csv)
        ≡ ok (finished file'))
      × (open_rows page_size file' ≡ ok h')
      × IsForRows h'
      × (h'.page_size ≡ page_size)
      × AreInserted (record_at places h) rids (map row_record rows) (record_at places h')
unfolding insert_main
insert_main-open_rows page_size places rows argv csv file h large small wide rs four number lines
      opened f ps room =
    let (h₁, rids, done, sound, ps₁, ss₁, inserted) =
      put_lines-Loads places wide h rows f rs
        (subst (λ p. length h.file + length rows * (2 * p) < 2 ^ 31) (sym ps) room) in
    let f₁ : IsForRows h₁ = record {
      sound = sound;
      slot_size = ss₁ ∙ f.slot_size;
      some_slot = subst (λ n. 0 < n) (sym (slots_same h h₁ ps₁ ss₁)) f.some_slot;
    } in
    let (file', h', closed, opened', r) =
      close_heapfile-open_rows places page_size large small h₁ f₁ (ps₁ ∙ ps) in
    let arguments : (length argv == 4) ≡ true = (==_iff (length argv) 4).1 four in
    let positive : is_positive page_size ≡ true =
      rw (lt→ltb 0 page_size (omega arith), lt→ltb page_size (2 ^ 31) small) refl in
    (
      file',
      h',
      rids,
      rw (arguments, number, positive, opened, lines, done, closed) refl,
      opened',
      r.for_rows,
      r.page_size ∙ ps₁ ∙ ps,
      AreInserted-same (record_at places h) (record_at places h₁) (record_at places h') rids
          (map row_record rows) r.records inserted,
    )
