-- ===== src/Tools/Csv2Heapfile.antt =====
-- a1/csv2heapfile.cpp from its arguments to the file that it leaves, opened again.
use database_assignments.Base.{
  ℕ, ◌+◌, ◌*◌, ◌^◌, ◌<◌, ◌≡◌, refl, sym, subst, true, none, some, List, map, arith, ok, ◌==◌,
  ==_iff, is_positive, lt→ltb, length,
}
use database_assignments.CString.{fgets_lines}
use database_assignments.Record.{Record}
use database_assignments.Heapfile.{RecordId, Heapfile}
use database_assignments.Heapfile.Creating.{
  length-created_file, init_heapfile-ok, create_heapfile-ok, resolve_none,
}
use database_assignments.Heapfile.Contents.{record_at, record_at-missing}
use database_assignments.Heapfile.Inserted.{
  AreInserted, AreAt, AreInserted-AreAt, AreInserted-cong, AreInserted-same,
}
use database_assignments.Tools.{finished, int_argument}
use database_assignments.Tools.Edit.{open_rows, csv2heapfile_main}
use database_assignments.Tools.Loading.{
  AreRows, line_of, row_record, empty_file, empty-IsForRows, put_lines-Loads, IsForRows, slots_same,
}
use database_assignments.Tools.Sessions.{close_heapfile-open_rows}

module _ (page_size : ℕ) (large : 1001 < page_size) (small : page_size < 2 ^ 31) (places : Record)
    (rows : List (List (List ℕ))) (wide : length places ≡ 100) (rs : AreRows rows)
    (room : page_size + length rows * (2 * page_size) < 2 ^ 31) where
  abbrev start : Heapfile
  start = empty_file page_size large small

  room_start : length start.file + length rows * (2 * page_size) < 2 ^ 31
  room_start = omega (arith, length-created_file page_size 1000 large small, room)

  nothing_yet : (q t : ℕ) → record_at places start q t ≡ none
  nothing_yet q t =
      record_at-missing places start q t (λ o r. resolve_none page_size 1000 large small q o r)

  -- For a page size above 1001 and a file whose lines are rows of a hundred plain, non-empty values
  -- of bytes, so few that the page size and two pages a row stay below 2^31 bytes: csv2heapfile,
  -- given four arguments of which the last is the page size, finishes, and the file that it leaves
  -- can be opened again. The heap file that is opened is sound (valid, its directories filled one
  -- after the other and chained in the file, each entry with the number of free slots of its page)
  -- with slots of 1000 bytes; it holds the rows in their order at places of their own, each value
  -- cut to ten bytes, and no other record.
  pub csv2heapfile_main-open_rows :
      (argv : List (List ℕ)) (csv : List ℕ)
      → length argv ≡ 4
      → int_argument argv 3 ≡ ok page_size
      → fgets_lines csv ≡ map line_of rows
      → (file : List ℕ) × (h : Heapfile) × (rids : List RecordId) × (csv2heapfile_main argv
            (some csv)
          ≡ ok (finished file))
        × (open_rows page_size file ≡ ok h)
        × IsForRows h
        × AreInserted (λ q t. none) rids (map row_record rows) (record_at places h)
        × AreAt (record_at places h) rids (map row_record rows)
  unfolding csv2heapfile_main
  csv2heapfile_main-open_rows argv csv four number lines =
      let (h, rids, done, sound, ps, ss, inserted) =
        put_lines-Loads places wide start rows (empty-IsForRows page_size large small) rs
          room_start in
      let f : IsForRows h = record {
        sound = sound;
        slot_size = ss;
        some_slot =
            subst (λ n. 0 < n) (sym (slots_same start h ps ss))
              (empty-IsForRows page_size large small).some_slot;
      } in
      let (file, h', closed, opened, r) =
        close_heapfile-open_rows places page_size large small h f ps in
      let from_empty =
        AreInserted-cong (λ q t. none) (record_at places start) (record_at places h) rids
          (map row_record rows) nothing_yet inserted in
      let after =
        AreInserted-same (λ q t. none) (record_at places h) (record_at places h') rids
          (map row_record rows) r.records from_empty in
      let arguments : (length argv == 4) ≡ true = (==_iff (length argv) 4).1 four in
      let positive : is_positive page_size ≡ true =
        rw (lt→ltb 0 page_size (omega arith), lt→ltb page_size (2 ^ 31) small) refl in
      (
        file,
        h',
        rids,
        rw
            (
              arguments,
              number,
              positive,
              init_heapfile-ok page_size 1000 large small,
              create_heapfile-ok page_size 1000 large small,
              lines,
              done,
              closed,
            )
            refl,
        opened,
        r.for_rows,
        after,
        AreInserted-AreAt (λ q t. none) (record_at places h') rids (map row_record rows) after,
      )
