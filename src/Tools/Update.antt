-- ===== src/Tools/Update.antt =====
-- What the update of one attribute by a1/update.cpp does to an open heap file.
use database_assignments.Base.{
  ℕ, ◌<◌, ◌≡◌, sym, ◌∙◌, List, ok, some, lt→ltb, length, length-set, set, Option, Run,
}
use database_assignments.Record.{Record}
use database_assignments.Record.Laws.{clean}
use database_assignments.Page.{read_fixed_len_page, fixed_len_page_capacity}
use database_assignments.Page.Slots.{IsStorable}
use database_assignments.Heapfile.{RecordId, Heapfile}
use database_assignments.Heapfile.Entries.{resolve}
use database_assignments.Heapfile.Coherence.{page_of, SamePages}
use database_assignments.Heapfile.Store.{IsValid, Puts, update_record-Puts, get_record-read}
use database_assignments.Tools.Edit.{assign, update_attribute}

-- A change after one that no page shows.
Puts-after :
    (places : Record) (h h' h'' : Heapfile) (rid : RecordId) (c : Option (Run Record))
    → SamePages h h'
    → Puts places h' h'' rid c
    → Puts places h h'' rid c
Puts-after places h h' h'' rid c s p = record {
  valid = p.valid;
  entries = λ q. p.entries q ∙ s.entries q;
  records = λ q t off r ht.
      let same = s.pages q off r in rw same at (p.records q t off (s.entries q ∙ r) (rw same ht));
}

module _ (places : Record) (h : Heapfile) (rid : RecordId) (off : ℕ) (v : IsValid h)
    (r : resolve h rid.page_id ≡ ok off) where
  -- Updating an attribute of a record that can be read: if the attribute is in the record and the
  -- changed record can be stored, the update succeeds, the heap file stays valid, the slot holds
  -- the changed record, cut to ten bytes an attribute, and every other slot of every page holds
  -- what it held.
  pub update_attribute-Puts :
      (rec : Record) (attribute_id : ℕ) (value : List ℕ)
      → read_fixed_len_page (page_of h rid.page_id off) rid.slot places ≡ ok rec
      → attribute_id < length rec
      → rid.slot < fixed_len_page_capacity (page_of h rid.page_id off)
      → IsStorable (page_of h rid.page_id off) (set rec attribute_id value)
      → length places ≡ length rec
      → (h' : Heapfile) × (update_attribute places h rid attribute_id value ≡ ok h')
        × Puts places h h' rid (some (ok (clean (set rec attribute_id value))))
  unfolding update_attribute assign
  update_attribute-Puts rec attribute_id value d ha hs st e =
      let (h', g, v', s) = get_record-read places h rid off v r rec d in
      let same = s.pages rid.page_id off r in
      let (h'', u, p) =
        update_record-Puts places h' rid off v' (s.entries rid.page_id ∙ r)
          (set rec attribute_id value) (rw same hs) (rw same st)
          (e ∙ sym (length-set rec attribute_id value)) in
      (h'', rw (g, lt→ltb attribute_id (length rec) ha, u), Puts-after places h h' h'' rid _ s p)
