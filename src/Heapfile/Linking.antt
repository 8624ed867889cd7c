-- ===== src/Heapfile/Linking.antt =====
-- `append_entry` of a1/heapfile.cpp, where every directory is full: a new one is linked from the
-- last one.
use database_assignments.Base.{
  int_at, load_int, load_int-ok, int_at-splice_other, ℕ, ◌+◌, ◌-◌, ◌*◌, ◌/◌, ◌%◌, ◌^◌, ◌≤◌, ◌<◌,
  ◌≡◌, ◌≢◌, refl, sym, ap, ap₂, ◌∙◌, ◌⊎◌, inl, inr, true, false, none, List, [], ◌∷◌, ◌++◌, arith,
  ok, ◌>>=◌, >>=-eq-ok, load, int_at-splice_self, store_int-ok, length, length-append,
  length-splice, replicate, splice, le_bytes, ◌==◌, ==_iff,
}
use mathlib.Core.List.{append_assoc}
use native.Mathlib.Nat.{div-add-mod'}
use native.Mathlib.Decide.{ℕ_discrete}
use database_assignments.CString.Laws.{length-replicate}
use database_assignments.Directory.{
  Entry, Directory, next_directory, n_entries, directory_capacity, init_directory_page,
}
use database_assignments.Directory.Laws.{
  IsDirectory, count_of, appended, appended-Appended, next_vacant_slot-ok, store_entry-ok,
}
use database_assignments.Heapfile.{Heapfile}
use database_assignments.Heapfile.Ops.{append_in, append_directory, append_entry}
use database_assignments.Heapfile.Ends.{write_block-end}
use database_assignments.Heapfile.EntryAt.{
  AreFull, Field, value_in, lookup, lookup-entry_at, entry_at, entry_at-Appended_other,
  entry_at-Appended_self, load-behind_all, set-behind_all,
}
use database_assignments.Heapfile.EntryFits.{AreDirectories-behind, entry_fits-AreDirectories}
use database_assignments.Heapfile.Appending.{is_full-ok}
use database_assignments.Heapfile.Creating.{capacity_is_positive, int_at-replicate}
use database_assignments.Heapfile.Closing.{HasBlock}
use database_assignments.Heapfile.Linked.{
  link, count_of-link, IsDirectory-link, AreFull-behind, entry_at-none, load_beyond,
  entry_at-earlier, entry_at-later, place_of,
}
use database_assignments.Heapfile.Laid.{IsLaid}
use database_assignments.Heapfile.Extending.{Extends}

append_in-all_full :
    (cap : ℕ) (dirs : List Directory) (i : ℕ) (h : Heapfile) (e : Entry)
    → AreFull cap dirs
    → append_in dirs i h e ≡ ok none
unfolding append_in
append_in-all_full cap [] i h e g = refl
append_in-all_full cap (d ∷ dirs) i h e (v, c, n, g) =
    let full = is_full-ok d true v ((==_iff (count_of d) d.capacity).1 (n ∙ sym c)) in
    rw full (append_in-all_full cap dirs (i + 1) h e g)

-- A directory without an entry.
abbrev pub no_entries : ℕ → ℕ → Directory
no_entries page_size offset = record {
  capacity = directory_capacity page_size;
  bytes = splice (replicate page_size 0) n_entries (le_bytes 0);
  offset = offset;
}

module _ (page_size offset : ℕ) (large : 16 ≤ page_size) (small : page_size < 2 ^ 31) where
  size_no_entries : length (no_entries page_size offset).bytes ≡ page_size
  size_no_entries =
      length-splice (replicate page_size 0) n_entries (le_bytes 0) ∙ length-replicate page_size

  pub count_no_entries : count_of (no_entries page_size offset) ≡ 0
  count_no_entries =
      int_at-splice_self (replicate page_size 0) n_entries 0
        (omega (arith, length-replicate page_size)) (omega arith)

  pub IsDirectory-no_entries : IsDirectory (no_entries page_size offset)
  IsDirectory-no_entries = record {
    counted = omega (arith, count_no_entries);
    small = omega arith;
    inside = omega (arith, size_no_entries);
  }

  pub room_no_entries : count_of (no_entries page_size offset) < directory_capacity page_size
  room_no_entries = omega (arith, count_no_entries)

  next_no_entries : int_at (no_entries page_size offset).bytes next_directory ≡ 0
  next_no_entries =
      int_at-splice_other (replicate page_size 0) n_entries (le_bytes 0) next_directory
        (omega arith)
      ∙ int_at-replicate page_size next_directory

  init_directory_page-no_entries :
      init_directory_page page_size offset ≡ ok (no_entries page_size offset)
  unfolding init_directory_page
  init_directory_page-no_entries =
      rw
        (
          capacity_is_positive page_size large small,
          store_int-ok (replicate page_size 0) n_entries 0
              (omega (arith, length-replicate page_size)),
        )
        refl

module _ (h : Heapfile) (e : Entry) (b : List ℕ) (a : IsLaid h)
    (full : count_of a.last ≡ a.last.capacity) (at : e.offset ≡ length h.file)
    (size : length b ≡ h.page_size) (small : length h.file + 2 * h.page_size < 2 ^ 31)
    (free : e.free_space < 2 ^ 32) where
  abbrev pub cap : ℕ
  cap = directory_capacity h.page_size

  abbrev pub dirs : List Directory
  dirs = a.before ++ a.last ∷ []

  abbrev pub longer : List ℕ
  longer = h.file ++ b

  abbrev pub offset : ℕ
  offset = length longer

  abbrev pub linked : List Directory
  linked = a.before ++ link a.last offset ∷ []

  abbrev pub new : Directory
  new = no_entries h.page_size offset

  length-longer : offset ≡ length h.file + h.page_size
  length-longer = omega (arith, length-append h.file b, size)

  pub in_int : e.offset < 2 ^ 32
  in_int = omega arith

  page_small : h.page_size < 2 ^ 31
  page_small = omega arith

  pub new_ok : IsDirectory new
  new_ok = IsDirectory-no_entries h.page_size offset a.large page_small

  pub new_room : count_of new < cap
  new_room = room_no_entries h.page_size offset a.large page_small

  abbrev pub grown : Directory
  grown = appended new e new_ok in_int free new_room

  abbrev pub new_pid : ℕ
  new_pid = length dirs * cap + count_of new

  abbrev with_dirs : List Directory → Heapfile
  with_dirs ds = record h { file = longer; directory_buffer = ds }

  abbrev pub result : Heapfile
  result = record h { file = longer ++ new.bytes; directory_buffer = linked ++ grown ∷ [] }

  all_full : AreFull cap dirs
  all_full = AreFull-behind cap a.before a.last a.full a.is_directory a.capacity (full ∙ a.capacity)

  append_directory-result : append_directory (with_dirs dirs) e ≡ ok (result, new_pid)
  unfolding append_directory
  append_directory-result =
      let count : length dirs ≡ length a.before + 1 = length-append a.before (a.last ∷ []) in
      let not_empty : (length dirs == 0) ≡ false = ground arith in
      let pred : length dirs - 1 ≡ length a.before = omega arith in
      let offset_ok : offset % 2 ^ 32 ≡ offset = omega (arith, length-longer) in
      let written =
        store_int-ok a.last.bytes next_directory offset (omega (arith, a.is_directory.inside)) in
      let block =
        write_block-end (with_dirs linked) new.bytes (omega (arith, length-longer))
          (size_no_entries h.page_size offset a.large page_small) in
      rw
        (
          not_empty,
          pred,
          load-behind_all a.before a.last,
          offset_ok,
          written,
          init_directory_page-no_entries h.page_size offset a.large page_small,
          set-behind_all a.before a.last (link a.last offset),
          block,
          next_vacant_slot-ok new e new_ok in_int free new_room,
          store_entry-ok new e new_ok in_int free new_room,
        )
        refl

  pub append_entry-result : append_entry (with_dirs dirs) e ≡ ok (result, new_pid)
  unfolding append_entry
  append_entry-result =
      rw (append_in-all_full cap dirs 0 (with_dirs dirs) e all_full) append_directory-result

  found_in :
      (f : Field) (q : ℕ) → lookup f h q ≡ (load dirs (q / cap) >>= λ dir. entry_at f dir (q % cap))
  found_in f q = lookup-entry_at f h cap a.before a.last q a.buffered a.full a.capacity

  linked_full : AreFull cap linked
  linked_full =
      AreFull-behind cap a.before (link a.last offset) a.full
        (IsDirectory-link a.last offset a.is_directory) a.capacity
        (count_of-link a.last offset ∙ (full ∙ a.capacity))

  found_in_result :
      (f : Field) (q : ℕ)
      → lookup f result q
        ≡ (load (linked ++ grown ∷ []) (q / cap) >>= λ dir. entry_at f dir (q % cap))
  found_in_result f q = lookup-entry_at f result cap linked grown q refl linked_full refl

  length-linked : length linked ≡ length dirs
  length-linked =
      length-append a.before (link a.last offset ∷ []) ∙ sym (length-append a.before (a.last ∷ []))

  pub lookup-kept : (f : Field) (q o : ℕ) → lookup f h q ≡ ok o → lookup f result q ≡ ok o
  lookup-kept f q o r =
      let (d, l, found) = >>=-eq-ok (load dirs (q / cap)) _ (sym (found_in f q) ∙ r) in
      let (d', l', same) =
        entry_at-earlier f a.last grown offset a.before (q / cap) (q % cap) d l in
      found_in_result f q ∙ ap (λ m. m >>= λ dir. entry_at f dir (q % cap)) l' ∙ same ∙ found

  only_first : (f : Field) (i o : ℕ) → entry_at f grown i ≡ ok o → i ≡ count_of new
  only_first f i o found = elim (ℕ_discrete i (count_of new)) [
    | yes e ↦ e
    | no ne ↦
        let same =
          entry_at-Appended_other f new grown e i new_ok new_room
            (appended-Appended new e new_ok in_int free new_room) ne in
        let missing =
          entry_at-none f new i new_ok (count_no_entries h.page_size offset a.large page_small) in
        absurd (cc (sym found ∙ same ∙ missing))
  ]

  lookup-only :
      (f : Field) (q o : ℕ) → lookup f result q ≡ ok o → (q ≡ new_pid) ⊎ (lookup f h q ≡ ok o)
  lookup-only f q o r =
      let (d', l', found) =
        >>=-eq-ok (load (linked ++ grown ∷ []) (q / cap)) _ (sym (found_in_result f q) ∙ r) in
      elim (entry_at-later f a.last grown offset a.before (q / cap) (q % cap) d' l') [
        | inl (k, w) ↦
            let i = only_first f (q % cap) o (ap (λ x. entry_at f x (q % cap)) (sym w) ∙ found) in
            inl (sym (div-add-mod' q cap) ∙ ap₂ (λ m n. m * cap + n) k i)
        | inr (d, l, same) ↦
            inr
              (found_in f q ∙ ap (λ m. m >>= λ dir. entry_at f dir (q % cap)) l ∙ sym same ∙ found)
      ]

  lookup-missing : (f : Field) (o : ℕ) → lookup f h new_pid ≢ ok o
  lookup-missing f o r =
      let (k, _) = place_of cap (length dirs) (count_of new) new_room in
      let (d, l, _) = >>=-eq-ok (load dirs (new_pid / cap)) _ (sym (found_in f new_pid) ∙ r) in
      load_beyond dirs (new_pid / cap) d (omega (arith, k)) l

  lookup-placed : (f : Field) → lookup f result new_pid ≡ ok (value_in f e)
  lookup-placed f =
      let (k, i) = place_of cap (length dirs) (count_of new) new_room in
      let there : load (linked ++ grown ∷ []) (new_pid / cap) ≡ ok grown =
        ap (load (linked ++ grown ∷ [])) (k ∙ sym length-linked) ∙ load-behind_all linked grown in
      found_in_result f new_pid
      ∙ ap₂ (λ m n. m >>= λ dir. entry_at f dir n) there i
      ∙ entry_at-Appended_self f new grown e new_ok new_room
          (appended-Appended new e new_ok in_int free new_room)

  pub Extends-result : Extends h result e b new.bytes new_pid
  Extends-result = record {
    missing = lookup-missing;
    placed = lookup-placed;
    at = at;
    kept = lookup-kept;
    only = lookup-only;
    fits = λ q o. entry_fits-AreDirectories result q o (
        AreDirectories-behind cap linked grown linked_full
          (appended-Appended new e new_ok in_int free new_room).is_directory);
    file = append_assoc h.file b new.bytes;
    page_size = refl;
    slot_size = refl;
    cached_page = refl;
    cached_pid = refl;
    page_cache_dirty = refl;
  }

  pub IsLaid-result : IsLaid result
  IsLaid-result = record {
    before = linked;
    last = grown;
    full = linked_full;
    is_directory = (appended-Appended new e new_ok in_int free new_room).is_directory;
    capacity = refl;
    buffered = refl;
    large = a.large;
  }

  pub length-result : length result.file ≡ length h.file + 2 * h.page_size
  length-result =
      length-append longer new.bytes
      ∙ omega (arith, length-longer, size_no_entries h.page_size offset a.large page_small)

  pub HasBlock-grown : (m : ℕ) → length h.file + 2 * h.page_size ≤ m → HasBlock h.page_size m grown
  HasBlock-grown m le = record {
    size =
        (appended-Appended new e new_ok in_int free new_room).size
        ∙ size_no_entries h.page_size offset a.large page_small;
    capacity = refl;
    small = omega (arith, length-longer);
    inside = omega (arith, length-longer, le);
  }

  pub grown-next : load_int grown.bytes next_directory ≡ ok 0
  grown-next =
      let x = appended-Appended new e new_ok in_int free new_room in
      load_int-ok grown.bytes next_directory (omega (arith, x.is_directory.inside))
      ∙ ap ok (x.next ∙ next_no_entries h.page_size offset a.large page_small)

  pub grown-behind : length h.file + h.page_size ≤ offset
  grown-behind = omega (arith, length-longer)
