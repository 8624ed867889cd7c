-- ===== src/Directory/Laws.antt =====
-- The entries of a directory page of a1/directory.cpp: the search for a page with room, and a new
-- entry.
use database_assignments.Base.{
  ℕ, zero, suc, ◌+◌, ◌-◌, ◌*◌, ◌%◌, ◌^◌, ◌≤◌, ◌<◌, ◌≡◌, ◌≢◌, ◌↔◌, refl, sym, ap, ◌∙◌, ◌⊎◌, inl, inr,
  Bool, true, false, none, some, List, arith, ok, stop, assert_failed, ok_injective, ◌>>=◌,
  is_positive, ltb, ltb→lt, ltb→le, lt→ltb, if◌then◌else◌, ◌==◌, ==_iff, Bool-cases, int_at,
  int_at-splice_self, int_at-splice_other, load_int-ok, store_int-ok, splice, length-splice,
  le_bytes, length,
}
use database_assignments.Page.Search.{first, first-some, first-none, first_is, first_is_none}
use database_assignments.Directory.{
  Entry, Directory, next_directory, n_entries, entry_offset, entry_free_space, is_full,
  next_vacant_slot, rounds_to, find_free_from, find_free_page, store_entry,
}

abbrev pub count_of : Directory → ℕ
count_of d = int_at d.bytes n_entries

abbrev pub offset_at : Directory → ℕ → ℕ
offset_at d i = int_at d.bytes (entry_offset i)

abbrev pub free_at : Directory → ℕ → ℕ
free_at d i = int_at d.bytes (entry_free_space i)

-- The entries that are counted are as many as there is room for, inside the page.
pub record IsDirectory (d : Directory) : Type 0 where
  pub counted : count_of d ≤ d.capacity
  pub small : d.capacity < 2 ^ 31
  pub inside : 8 + 8 * d.capacity ≤ length d.bytes

-- The entry `i` has free space.
abbrev pub has_room : Directory → ℕ → Bool
has_room d i = is_positive (free_at d i)

find_free_from-first :
    (rounds i : ℕ) (d : Directory)
    → 8 + 8 * (i + rounds) ≤ length d.bytes
    → find_free_from rounds i d ≡ ok (first (has_room d) rounds i)
unfolding find_free_from first
find_free_from-first zero i d h = refl
find_free_from-first (suc rounds) i d h =
    rw
      (
        load_int-ok d.bytes (entry_free_space i) (omega arith),
        find_free_from-first rounds (i + 1) d (omega arith),
      )
      (if_ok (has_room d i) (some i) (first (has_room d) rounds (i + 1)))
  where
    if_ok : {A : Type 0} (b : Bool) (x y : A) → (if b then ok x else ok y) ≡ ok (if b then x else y)
    if_ok true x y = refl
    if_ok false x y = refl

pub find_free_page-ok :
    (d : Directory) → IsDirectory d → find_free_page d ≡ ok (first (has_room d) (count_of d) 0)
unfolding find_free_page
find_free_page-ok d v =
    let header = load_int-ok d.bytes n_entries (omega (arith, v.inside)) in
    let rounds : rounds_to (count_of d) ≡ count_of d =
      ap (λ b. if b then count_of d else 0)
        (lt→ltb (count_of d) (2 ^ 31) (omega (arith, v.counted, v.small))) in
    rw (header, rounds) (find_free_from-first (count_of d) 0 d (omega (arith, v.counted, v.inside)))

-- In a directory whose entries are inside its page, find_free_page returns an entry exactly if it
-- is the first one with free space, and -1 exactly if none has any.
pub find_free_page-first :
    (d : Directory)
    → IsDirectory d
    → ((s : ℕ)
        → (find_free_page d ≡ ok (some s))
          ↔ ((s < count_of d) × (has_room d s ≡ true) × ((t : ℕ) → t < s → has_room d t ≡ false)))
      × ((find_free_page d ≡ ok none) ↔ ((t : ℕ) → t < count_of d → has_room d t ≡ false))
find_free_page-first d v =
    let loop = find_free_page-ok d v in
    let n = count_of d in
    let f = has_room d in
    (
      λ s. (
        λ e.
            let (a, b, c, z) = first-some f n 0 s (ok_injective (sym loop ∙ e)) in
            (omega arith, c, λ t lt. z t (omega arith) lt),
        λ (b, c, z). loop ∙ ap ok (first_is f n 0 s (omega arith) (omega arith) c (λ t p q. z t q)),
      ),
      (
        λ e t lt. first-none f n 0 (ok_injective (sym loop ∙ e)) t (omega arith) (omega arith),
        λ z. loop ∙ ap ok (first_is_none f n 0 (λ t p q. z t (omega arith))),
      ),
    )

-- `d'` is `d` with the entry `e` behind the others.
pub record Appended (d d' : Directory) (e : Entry) : Type 0 where
  pub is_directory : IsDirectory d'
  pub count : count_of d' ≡ count_of d + 1
  pub offset : offset_at d' (count_of d) ≡ e.offset
  pub free_space : free_at d' (count_of d) ≡ e.free_space
  pub others :
      (i : ℕ) → i ≢ count_of d → (offset_at d' i ≡ offset_at d i) × (free_at d' i ≡ free_at d i)
  pub next : int_at d'.bytes next_directory ≡ int_at d.bytes next_directory
  pub capacity : d'.capacity ≡ d.capacity
  pub size : length d'.bytes ≡ length d.bytes

module _ (d : Directory) (e : Entry) (v : IsDirectory d) (off : e.offset < 2 ^ 32)
    (free : e.free_space < 2 ^ 32) where
  abbrev pub n : ℕ
  n = count_of d

  abbrev pub counted : List ℕ
  counted = splice d.bytes n_entries (le_bytes (n + 1))

  abbrev pub with_offset : List ℕ
  with_offset = splice counted (entry_offset n) (le_bytes e.offset)

  abbrev pub with_free_space : List ℕ
  with_free_space = splice with_offset (entry_free_space n) (le_bytes e.free_space)

  length-counted : length counted ≡ length d.bytes
  length-counted = length-splice d.bytes n_entries (le_bytes (n + 1))

  length-with_offset : length with_offset ≡ length d.bytes
  length-with_offset = length-splice counted (entry_offset n) (le_bytes e.offset) ∙ length-counted

  length-with_free_space : length with_free_space ≡ length d.bytes
  length-with_free_space =
      length-splice with_offset (entry_free_space n) (le_bytes e.free_space) ∙ length-with_offset

  -- An integer that is apart from the entry and the count.
  untouched :
      (o : ℕ)
      → (o + 4 ≤ n_entries) ⊎ (n_entries + 4 ≤ o)
      → (o + 4 ≤ entry_offset n) ⊎ (entry_offset n + 4 ≤ o)
      → (o + 4 ≤ entry_free_space n) ⊎ (entry_free_space n + 4 ≤ o)
      → int_at with_free_space o ≡ int_at d.bytes o
  untouched o a b c =
      int_at-splice_other with_offset (entry_free_space n) (le_bytes e.free_space) o c
      ∙ int_at-splice_other counted (entry_offset n) (le_bytes e.offset) o b
      ∙ int_at-splice_other d.bytes n_entries (le_bytes (n + 1)) o a

  module _ (room : n < d.capacity) where
    abbrev pub appended : Directory
    appended = record d { bytes = with_free_space }

    count_appended : count_of appended ≡ n + 1
    count_appended =
        int_at-splice_other with_offset (entry_free_space n) (le_bytes e.free_space) n_entries
          (omega arith)
        ∙ int_at-splice_other counted (entry_offset n) (le_bytes e.offset) n_entries (omega arith)
        ∙ int_at-splice_self d.bytes n_entries (n + 1) (omega (arith, v.inside))
            (omega (arith, v.small))

    pub appended-Appended : Appended d appended e
    appended-Appended = record {
      is_directory = record {
        counted = omega (arith, count_appended, room);
        small = v.small;
        inside = omega (arith, length-with_free_space, v.inside);
      };
      count = count_appended;
      offset =
          int_at-splice_other with_offset (entry_free_space n) (le_bytes e.free_space)
            (entry_offset n) (omega arith)
          ∙ int_at-splice_self counted (entry_offset n) e.offset
              (omega (arith, length-counted, v.inside)) off;
      free_space =
          int_at-splice_self with_offset (entry_free_space n) e.free_space
            (omega (arith, length-with_offset, v.inside)) free;
      others = λ i ne. (
        untouched (entry_offset i) (omega arith) (omega arith) (omega arith),
        untouched (entry_free_space i) (omega arith) (omega arith) (omega arith),
      );
      next = untouched next_directory (omega arith) (omega arith) (omega arith);
      capacity = refl;
      size = length-with_free_space;
    }

    pub next_vacant_slot-ok : next_vacant_slot d ≡ ok (record d { bytes = counted }, n)
    unfolding next_vacant_slot is_full
    next_vacant_slot-ok =
        let header = load_int-ok d.bytes n_entries (omega (arith, v.inside)) in
        let not_full : (n == d.capacity) ≡ false = ground arith in
        let more : (n + 1) % 2 ^ 32 ≡ n + 1 = omega (arith, v.small) in
        let again =
          load_int-ok counted n_entries (omega (arith, length-counted, v.inside))
          ∙ ap ok (
              int_at-splice_self d.bytes n_entries (n + 1) (omega (arith, v.inside))
                (omega (arith, v.small))) in
        let index : (n + 1 + 2 ^ 32 - 1) % 2 ^ 32 ≡ n = omega (arith, v.small) in
        rw
          (
            header,
            not_full,
            more,
            store_int-ok d.bytes n_entries (n + 1) (omega (arith, v.inside)),
            again,
            index,
          )
          refl

    pub store_entry-ok : store_entry (record d { bytes = counted }) n e ≡ ok appended
    unfolding store_entry
    store_entry-ok =
        rw
          (
            store_int-ok counted (entry_offset n) e.offset
                (omega (arith, length-counted, v.inside)),
            store_int-ok with_offset (entry_free_space n) e.free_space
                (omega (arith, length-with_offset, v.inside)),
          )
          refl

  full_directory : n ≡ d.capacity → next_vacant_slot d ≡ stop assert_failed
  unfolding next_vacant_slot is_full
  full_directory h =
      let header = load_int-ok d.bytes n_entries (omega (arith, v.inside)) in
      let full : (n == d.capacity) ≡ true = (==_iff n d.capacity).1 h in rw (header, full) refl

  -- In a directory whose entries are inside its page, either there is room, and storing an entry
  -- at the next vacant slot succeeds, puts it behind the others, counts it, and leaves the other
  -- entries and the next directory as they were; or the directory is full, and next_vacant_slot
  -- fails its assertion.
  pub next_vacant_slot-store_entry :
      ((count_of d < d.capacity)
        × ((d' : Directory) × ((next_vacant_slot d >>= λ slot. store_entry slot.0 slot.1 e) ≡ ok d')
            × Appended d d' e))
      ⊎ ((count_of d ≡ d.capacity) × (next_vacant_slot d ≡ stop assert_failed))
  next_vacant_slot-store_entry = elim (Bool-cases (ltb n d.capacity)) [
    | inl h ↦
        let room = ltb→lt n d.capacity h in
        inl (
          room,
          (
            appended room,
            ap (λ r. r >>= λ slot. store_entry slot.0 slot.1 e) (next_vacant_slot-ok room)
                ∙ store_entry-ok room,
            appended-Appended room,
          ),
        )
    | inr h ↦
        let full : n ≡ d.capacity = omega (arith, v.counted, ltb→le n d.capacity h) in
        inr (full, full_directory full)
  ]
