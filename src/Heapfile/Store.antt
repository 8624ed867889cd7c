-- ===== src/Heapfile/Store.antt =====
-- A heap file as a map from record numbers to records: reading, updating and deleting a record
-- through the page cache does to the map what it says, and nothing else.
use native.Mathlib.Decide.{ℕ_discrete}
use database_assignments.Base.{
  ℕ, ◌^◌, ◌≤◌, ◌<◌, ◌*◌, ◌≡◌, ◌≢◌, refl, sym, ap, ap₂, subst, ◌∙◌, true, false, ◌&&◌, Option, none,
  some, arith, Run, ok, ok_injective, if◌then◌else◌, ◌==◌, ==_iff, length,
}
use database_assignments.Record.{attribute_size, Record}
use database_assignments.Record.Laws.{clean}
use database_assignments.Page.{Page, fixed_len_page_capacity, read_fixed_len_page}
use database_assignments.Page.Layout.{IsPage}
use database_assignments.Page.Count.{free_count-le}
use database_assignments.Page.Slots.{IsStorable, contents}
use database_assignments.Page.Store.{
  Updates, write_fixed_len_page-Updates, delete_fixed_len_page-Updates,
}
use database_assignments.Heapfile.{RecordId, Heapfile}
use database_assignments.Heapfile.Ops.{commit_page}
use database_assignments.Heapfile.Records.{get_record, update_record, delete_record}
use database_assignments.Heapfile.Entries.{resolve}
use database_assignments.Heapfile.Coherence.{page_of, IsCoherent, SamePages, cached-ok}
use database_assignments.Heapfile.Cache.{page_of_sizes, Loaded, get_page-Loaded}
use database_assignments.Heapfile.Accounted.{Keeps, Keeps-trans, Loaded-Keeps, Changed-Keeps}
use database_assignments.Heapfile.Commit.{with_page, commit_page-Changed}

-- A coherent heap file in which every page is one.
pub record IsValid (h : Heapfile) : Type 0 where
  pub coherent : IsCoherent h
  pub pages : (pid off : ℕ) → resolve h pid ≡ ok off → IsPage (page_of h pid off)

-- `h'` is `h` with one record given another content.
pub record Puts (places : Record) (h h' : Heapfile) (rid : RecordId) (c : Option (Run Record))
    : Type 0 where
  pub valid : IsValid h'
  pub entries : (q : ℕ) → resolve h' q ≡ resolve h q
  pub records :
      (q t off : ℕ)
      → resolve h q ≡ ok off
      → t < fixed_len_page_capacity (page_of h q off)
      → contents places (page_of h' q off) t
        ≡ (if q == rid.page_id && rid.slot == t then c else contents places (page_of h q off) t)

module _ (places : Record) (h : Heapfile) (rid : RecordId) (off : ℕ) (v : IsValid h)
    (r : resolve h rid.page_id ≡ ok off) where
  abbrev pid : ℕ
  pid = rid.page_id

  -- The page is loaded, changed in one slot and committed.
  pub change_page :
      (h' : Heapfile) (page : Page) (c : Option (Run Record))
      → Loaded h h' pid off
      → Updates places (page_of h pid off) page rid.slot c
      → (h'' : Heapfile) × (commit_page (with_page h' page) pid ≡ ok h'')
        × Puts places h h'' rid c
        × (page_of h'' pid off ≡ page)
        × (h.page_size < 2 ^ 32 → Keeps h h'')
  change_page h' page c l u =
      let (ps, ss) = page_of_sizes h pid off v.coherent.cache in
      let (h'', e, ch) =
        commit_page-Changed h' pid off page l.coherent (l.same.entries pid ∙ r) l.pid_cached
          u.is_page (u.shape.page_size ∙ ps ∙ sym l.page_size)
          (u.shape.slot_size ∙ ss ∙ sym l.slot_size) in
      let entries = λ (q : ℕ). ch.entries q ∙ l.same.entries q in
      let same_off = λ (q o : ℕ) (w : q ≡ pid) (rq : resolve h q ≡ ok o).
        ok_injective (sym r ∙ (ap (resolve h) (sym w) ∙ rq)) in
      let changed = λ (q o : ℕ) (w : q ≡ pid) (rq : resolve h q ≡ ok o).
        ap₂ (page_of h'') w (sym (same_off q o w rq)) ∙ ch.changed in
      let others = λ (q o : ℕ) (ne : q ≢ pid) (rq : resolve h q ≡ ok o).
        ch.others q o ne (l.same.entries q ∙ rq) ∙ l.same.pages q o rq in
      (
        h'',
        e,
        record {
          valid = record {
            coherent = ch.coherent;
            pages = λ q o rq''.
                let rq = sym (entries q) ∙ rq'' in
                elim (ℕ_discrete q pid) [
                  | yes w ↦ rw (changed q o w rq) u.is_page
                  | no ne ↦ rw (others q o ne rq) (v.pages q o rq)
                ];
          };
          entries = entries;
          records = λ q t o rq ht. elim (ℕ_discrete q pid) [
            | yes w ↦
                let old : page_of h q o ≡ page_of h pid off =
                  ap₂ (page_of h) w (sym (same_off q o w rq)) in
                let hit : (q == pid) ≡ true = (==_iff q pid).1 w in
                rw (changed q o w rq, old, hit) (u.slots t (rw old at ht))
            | no ne ↦
                let differ : (q == pid) ≡ false = ground arith in rw (others q o ne rq, differ) refl
          ];
        },
        ch.changed,
        λ small.
            let free = free_count-le page u.is_page in
            Keeps-trans h h' h'' (Loaded-Keeps h h' pid off l) (
              Changed-Keeps h' h'' pid off page (l.same.entries pid ∙ r)
                (omega (arith, free, u.shape.page_size, ps, small)) ch),
      )

  -- Updating a record of a page that has an entry, in a valid heap file, through the page cache: if
  -- the slot is one of the page, and the record can be stored in it (its attributes can be read and
  -- are bytes, they do not take more than the slot, and fill it), the update succeeds, the heap
  -- file stays valid, the named slot of the named page holds the record with each attribute cut to
  -- ten bytes, and every other slot of every page holds what it held.
  pub update_record-Puts :
      (rec : Record)
      → rid.slot < fixed_len_page_capacity (page_of h pid off)
      → IsStorable (page_of h pid off) rec
      → length places ≡ length rec
      → (h' : Heapfile) × (update_record h rid rec ≡ ok h')
        × Puts places h h' rid (some (ok (clean rec)))
  unfolding update_record
  update_record-Puts rec hs st e =
      let (h', g, l) = get_page-Loaded h pid off v.coherent r in
      let content = cached-ok h' (page_of h pid off) l.page_cached in
      let (page, w, u) =
        write_fixed_len_page-Updates places (page_of h pid off) rid.slot rec (v.pages pid off r) hs
          st e in
      let (h'', c, p, _, _) = change_page h' page (some (ok (clean rec))) l u in
      (h'', rw (g, content, w, c) refl, p)

  pub delete_in_page :
      rid.slot < fixed_len_page_capacity (page_of h pid off)
      → length places * attribute_size ≤ (page_of h pid off).slot_size
      → (h' : Heapfile) × (delete_record h rid ≡ ok h')
        × Puts places h h' rid none
        × (h.page_size < 2 ^ 32 → Keeps h h')
  unfolding delete_record
  delete_in_page hs fits =
      let (h', g, l) = get_page-Loaded h pid off v.coherent r in
      let content = cached-ok h' (page_of h pid off) l.page_cached in
      let (page, w, u) =
        delete_fixed_len_page-Updates places (page_of h pid off) rid.slot (v.pages pid off r) hs
          fits in
      let (h'', c, p, _, k) = change_page h' page none l u in
      (h'', rw (g, content, w, c) refl, p, k)

  -- Deleting a record of a page that has an entry, in a valid heap file, where the slot is one of
  -- the page and has room for a record, succeeds, keeps the heap file valid, empties the named slot
  -- and leaves every other slot of every page as it was.
  pub delete_record-Puts :
      rid.slot < fixed_len_page_capacity (page_of h pid off)
      → length places * attribute_size ≤ (page_of h pid off).slot_size
      → (h' : Heapfile) × (delete_record h rid ≡ ok h') × Puts places h h' rid none
  delete_record-Puts hs fits = let (h', done, p, _) = delete_in_page hs fits in (h', done, p)

  -- Getting a record of a page that has an entry, in a valid heap file, where the slot can be read
  -- as a record, gives what reading it gives, keeps the heap file valid, and changes no entry and
  -- no page.
  pub get_record-read :
      (rec : Record)
      → read_fixed_len_page (page_of h pid off) rid.slot places ≡ ok rec
      → (h' : Heapfile) × (get_record h rid places ≡ ok (h', rec)) × IsValid h' × SamePages h h'
  unfolding get_record
  get_record-read rec d =
      let (h', g, l) = get_page-Loaded h pid off v.coherent r in
      let content = cached-ok h' (page_of h pid off) l.page_cached in
      let is_page = λ (q o : ℕ) (rq : resolve h' q ≡ ok o).
        let rq' = sym (l.same.entries q) ∙ rq in
        subst IsPage (sym (l.same.pages q o rq')) (v.pages q o rq') in
      (h', rw (g, content, d) refl, record { coherent = l.coherent; pages = is_page }, l.same)
