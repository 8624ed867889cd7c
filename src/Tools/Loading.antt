-- ===== src/Tools/Loading.antt =====
-- a1/csv2heapfile.cpp and a1/insert.cpp: the rows of a CSV file are put into a heap file.
use database_assignments.Base.{
  ℕ, suc, ◌+◌, ◌*◌, ◌^◌, ◌≤◌, ◌<◌, ◌≡◌, refl, sym, ap, ap₂, subst, ◌∙◌, if◌then◌else◌, List, [],
  ◌∷◌, ◌++◌, map, arith, ok, stop, assert_failed, ==_iff, length,
}
use database_assignments.CString.{AreBytes}
use database_assignments.Record.{Record, load_csv_record}
use database_assignments.Record.Laws.{clean}
use database_assignments.Record.Csv.{AreValues, join, terminated, load_csv_record-clean}
use database_assignments.Record.Rows.{
  IsReadable-clean, image-clean, length_clean, AreText, AreBytes-terminated,
}
use database_assignments.Page.{Page, fixed_len_page_capacity}
use database_assignments.Page.Slots.{IsStorable}
use database_assignments.Heapfile.{RecordId, Heapfile}
use database_assignments.Heapfile.Allocating.{blank_page}
use database_assignments.Heapfile.Contents.{slots_of, record_at}
use database_assignments.Heapfile.Creating.{
  created, first_directory, created-IsValid, created-IsStored, resolve_none,
}
use database_assignments.Heapfile.Stored.{IsStored-IsChained}
use database_assignments.Heapfile.Linking.{IsDirectory-no_entries}
use database_assignments.Heapfile.Added.{IsSound}
use database_assignments.Heapfile.Putting.{put_record-Inserts}
use database_assignments.Heapfile.Inserted.{insert_at, AreInserted, AreInserted-cong}
use database_assignments.Tools.Edit.{put_lines}

-- Rows of a hundred values each, of bytes, plain and not empty.
abbrev pub AreRows : List (List (List ℕ)) → Type 0
AreRows [] = Unit
AreRows (ts ∷ rows) = AreValues ts × (length ts ≡ 100) × AreText ts × AreRows rows

abbrev pub line_of : List (List ℕ) → List ℕ
line_of ts = join ts ++ 0 ∷ []

-- A row as it is stored.
abbrev pub row_record : List (List ℕ) → Record
row_record ts = clean (terminated ts)

length-terminated : (ts : List (List ℕ)) → length (terminated ts) ≡ length ts
length-terminated [] = refl
length-terminated (t ∷ ts) = ap suc (length-terminated ts)

length-row_record : (ts : List (List ℕ)) → length (row_record ts) ≡ length ts
length-row_record ts = length_clean (terminated ts) ∙ length-terminated ts

load-row_record :
    (ts : List (List ℕ))
    → AreValues ts
    → length ts ≡ 100
    → load_csv_record [] (line_of ts) ≡ ok (row_record ts)
load-row_record ts v e =
    load_csv_record-clean ts v
    ∙ ap (λ b. if b then ok (row_record ts) else stop assert_failed) ((==_iff (length ts) 100).1 e)

IsStorable-row_record :
    (p : Page) (ts : List (List ℕ))
    → p.slot_size ≡ 1000
    → length ts ≡ 100
    → AreText ts
    → IsStorable p (row_record ts)
IsStorable-row_record p ts s e x = record {
  readable = IsReadable-clean (terminated ts);
  bytes_ok = subst AreBytes (sym (image-clean (terminated ts))) (AreBytes-terminated ts x);
  fits = omega (arith, s, e, length-row_record ts);
  fills = omega (arith, s, e, length-row_record ts);
}

-- A heap file for rows: sound, of slots of 1000 bytes, and with room for one on a page.
pub record IsForRows (h : Heapfile) : Type 0 where
  pub sound : IsSound h
  pub slot_size : h.slot_size ≡ 1000
  pub some_slot : 0 < slots_of h

pub slots_same :
    (h h' : Heapfile)
    → h'.page_size ≡ h.page_size
    → h'.slot_size ≡ h.slot_size
    → slots_of h' ≡ slots_of h
slots_same h h' a b = ap₂ (λ m n. fixed_len_page_capacity (blank_page m n)) a b

room_head : (a n k : ℕ) → a + suc n * k < 2 ^ 31 → a + k < 2 ^ 31
room_head a n k h = grind arith

room_tail : (a b n k : ℕ) → b ≤ a + k → a + suc n * k < 2 ^ 31 → b + n * k < 2 ^ 31
room_tail a b n k l h = grind arith

module _ (places : Record) (wide : length places ≡ 100) where
  abbrev pub Loads : Heapfile → List (List (List ℕ)) → Type 0
  Loads h rows =
      (h' : Heapfile) × (rids : List RecordId) × (put_lines h (map line_of rows) ≡ ok h')
      × IsSound h'
      × (h'.page_size ≡ h.page_size)
      × (h'.slot_size ≡ h.slot_size)
      × AreInserted (record_at places h) rids (map row_record rows) (record_at places h')

  -- Putting the lines of rows into a sound heap file of slots of 1000 bytes, with room for a slot on
  -- a page and with the file below 2^31 bytes, succeeds. The heap file stays sound, the rows, each
  -- value cut to ten bytes, have been put one after the other at places without a record, and the
  -- other records are as they were.
  pub put_lines-Loads :
      (h : Heapfile) (rows : List (List (List ℕ)))
      → IsForRows h
      → AreRows rows
      → length h.file + length rows * (2 * h.page_size) < 2 ^ 31
      → Loads h rows
  unfolding put_lines
  put_lines-Loads h [] f rs small = (h, [], refl, f.sound, refl, refl, λ q t. refl)
  put_lines-Loads h (ts ∷ rows) f (v, n, x, rs) small =
      let r = row_record ts in
      let storable =
        IsStorable-row_record (blank_page h.page_size h.slot_size) ts f.slot_size n x in
      let (h₁, rid, done, i) =
        put_record-Inserts places h r storable (wide ∙ sym n ∙ sym (length-row_record ts))
          (room_head (length h.file) (length rows) (2 * h.page_size) small) f.sound f.some_slot in
      let f₁ : IsForRows h₁ = record {
        sound = i.sound;
        slot_size = i.slot_size ∙ f.slot_size;
        some_slot = subst (λ n. 0 < n) (sym (slots_same h h₁ i.page_size i.slot_size)) f.some_slot;
      } in
      let (h', rids, rest, sound, ps, ss, inserted) = put_lines-Loads h₁ rows f₁ rs (
        subst (λ p. length h₁.file + length rows * (2 * p) < 2 ^ 31) (sym i.page_size)
          (room_tail (length h.file) (length h₁.file) (length rows) (2 * h.page_size) i.length_file
            small)) in
      (
        h',
        rid ∷ rids,
        rw (load-row_record ts v n, done) rest,
        sound,
        ps ∙ i.page_size,
        ss ∙ i.slot_size,
        (
          i.was_free,
          AreInserted-cong (insert_at (record_at places h) rid r) (record_at places h₁)
              (record_at places h') rids (map row_record rows) i.records inserted,
        ),
      )

module _ (page_size : ℕ) (large : 1001 < page_size) (small : page_size < 2 ^ 31) where
  abbrev pub empty_file : Heapfile
  empty_file = created page_size 1000 large small

  pub empty-IsForRows : IsForRows empty_file
  unfolding fixed_len_page_capacity
  empty-IsForRows = record {
    sound = record {
      valid = created-IsValid page_size 1000 large small (omega arith) (omega arith);
      laid = record {
        before = [];
        last = first_directory page_size 1000 large small;
        full = tt;
        is_directory = IsDirectory-no_entries page_size 0 (omega arith) small;
        capacity = refl;
        buffered = refl;
        large = omega arith;
      };
      chained =
          IsStored-IsChained empty_file (first_directory page_size 1000 large small) []
            (created-IsStored page_size 1000 large small);
      accounted = λ q o r. absurd (resolve_none page_size 1000 large small q o r);
    };
    slot_size = refl;
    some_slot = omega arith;
  }
