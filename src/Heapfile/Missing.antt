-- ===== src/Heapfile/Missing.antt =====
-- The record functions of a1/heapfile.cpp on a page that has no entry.
use database_assignments.Base.{
  ℕ, zero, suc, ◌/◌, ◌%◌, ◌^◌, ◌<◌, ◌≤◌, ◌⊎◌, ◌≡◌, [], ◌∷◌, arith, length, ltb, load, load_int-ok,
  below_int, assert_failed, out_of_bounds, refl, sym, ap, ◌∙◌, false, List, Run, ok, stop, Fault,
  ◌>>=◌, if◌then◌else◌, ◌==◌, ==_iff, lt→ltb, inl, inr, Bool-cases,
}
use database_assignments.Record.{Record}
use database_assignments.Page.{init_fixed_len_page}
use database_assignments.Directory.{Directory, n_entries}
use database_assignments.Directory.Laws.{count_of}
use database_assignments.Heapfile.EntryFits.{AreDirectories}
use database_assignments.Heapfile.{Heapfile, get_entry, load_offset}
use database_assignments.Heapfile.Ops.{is_cached, load_page, get_page}
use database_assignments.Heapfile.Records.{get_record, update_record, delete_record}
use database_assignments.Heapfile.Entries.{resolve}
use database_assignments.Heapfile.Coherence.{
  Cache, empty, holds, IsCoherent, Written, write_out_lem,
}

>>=-stop :
    {A B C : Type 0} (m : Run A) (f : A → Run B) (g : A → B → Run C) (e : Fault)
    → m >>= f ≡ stop e
    → (m >>= λ a. f a >>= g a) ≡ stop e
>>=-stop (ok a) f g e h = ap (λ r. r >>= g a) h
>>=-stop (stop d) f g e h = cc

module _ (h : Heapfile) (pid : ℕ) (e : Fault) (v : IsCoherent h) (r : resolve h pid ≡ stop e) where
  not_cached : Cache h → is_cached h pid ≡ false
  not_cached (empty n d) = rw n refl
  not_cached (holds c x page s f rc ps ss size clean) = elim (Bool-cases (c == pid)) [
    | inl y ↦ absurd (cc (sym rc ∙ ap (resolve h) ((==_iff c pid).0 y) ∙ r))
    | inr n ↦ rw s n
  ]

  load_page-stop : (file : List ℕ) → Written h file → load_page h pid ≡ stop e
  unfolding load_page resolve get_entry init_fixed_len_page
  load_page-stop file w =
      rw
        (
          w.0,
          lt→ltb 0 h.slot_size v.placed.slot_pos,
          lt→ltb h.slot_size h.page_size v.placed.slot_lt,
        )
        (>>=-stop (get_entry h pid) load_offset _ e r)

  get_page-stop : get_page h pid ≡ stop e
  unfolding get_page
  get_page-stop =
      let (file, w) = write_out_lem h v in
      ap (λ b. if b then ok h else load_page h pid) (not_cached v.cache) ∙ load_page-stop file w

  records_stopped :
      (slot : ℕ) (rec : Record)
      → (get_record h (record { page_id = pid; slot = slot }) rec ≡ stop e)
        × (update_record h (record { page_id = pid; slot = slot }) rec ≡ stop e)
        × (delete_record h (record { page_id = pid; slot = slot }) ≡ stop e)
  unfolding get_record update_record delete_record
  records_stopped slot rec = (rw get_page-stop refl, rw get_page-stop refl, rw get_page-stop refl)

-- The assertion about the number of the entry fails, or the vector has no such directory.
abbrev pub missing_fault : List Directory → ℕ → Fault
missing_fault dirs dir_no = if ltb dir_no (length dirs) then assert_failed else out_of_bounds

load_cases :
    (dirs : List Directory) (i : ℕ)
    → ((d : Directory) × (load dirs i ≡ ok d) × (missing_fault dirs i ≡ assert_failed))
      ⊎ ((load dirs i ≡ stop out_of_bounds) × (missing_fault dirs i ≡ out_of_bounds))
load_cases [] i = inr (refl, ground arith)
load_cases (d ∷ dirs) zero = inl (d, refl, ground arith)
load_cases (d ∷ dirs) (suc i) = elim (load_cases dirs i) [
  | inl (x, e, f) ↦ inl (x, e, ground (arith, f))
  | inr (e, f) ↦ inr (e, ground (arith, f))
]

module _ (h : Heapfile) (pid : ℕ) (first : Directory)
    (at_first : load h.directory_buffer 0 ≡ ok first) (entries : AreDirectories h.directory_buffer)
    (beyond : (d : Directory)
      → load h.directory_buffer (pid / first.capacity) ≡ ok d
      → count_of d ≤ pid % first.capacity) where
  resolve_beyond : resolve h pid ≡ stop (missing_fault h.directory_buffer (pid / first.capacity))
  unfolding resolve get_entry
  resolve_beyond = elim (load_cases h.directory_buffer (pid / first.capacity)) [
    | inl (d, e, f) ↦
        let v = entries (pid / first.capacity) d e in
        let count = load_int-ok d.bytes n_entries (omega (arith, v.inside)) in
        let over : below_int (pid % first.capacity) (count_of d) ≡ false =
          not_below (pid % first.capacity) (count_of d) (omega (arith, v.counted, v.small))
            (beyond d e) in
        rw (at_first, e, count, over, f) refl
    | inr (e, f) ↦ rw (at_first, e, f) refl
  ]
    where
      not_below : (i n : ℕ) → n < 2 ^ 31 → n ≤ i → below_int i n ≡ false
      not_below i n small h = ground arith

  -- In a coherent heap file whose directories have their entries inside their pages, for a page
  -- number that is beyond the entries of the directory it falls to, or beyond all directories:
  -- getting, updating and deleting a record of the page all fail, by the assertion of get_entry
  -- where the vector has the directory and by reading past its end where not.
  pub records-stop :
      IsCoherent h
      → (slot : ℕ) (rec : Record)
      → (get_record h (record { page_id = pid; slot = slot }) rec
          ≡ stop (missing_fault h.directory_buffer (pid / first.capacity)))
        × (update_record h (record { page_id = pid; slot = slot }) rec
            ≡ stop (missing_fault h.directory_buffer (pid / first.capacity)))
        × (delete_record h (record { page_id = pid; slot = slot })
            ≡ stop (missing_fault h.directory_buffer (pid / first.capacity)))
  records-stop v slot rec =
      records_stopped h pid (missing_fault h.directory_buffer (pid / first.capacity)) v
        resolve_beyond slot rec
