-- ===== src/Heapfile/Vacant.antt =====
-- `vacant_page_id` of a1/heapfile.cpp: the page that an entry with free space belongs to.
use database_assignments.Base.{
  ℕ, suc, ◌+◌, ◌*◌, ◌^◌, ◌≤◌, ◌<◌, ◌≡◌, refl, sym, ap, ap₂, ◌∙◌, ◌⊎◌, inl, inr, true, Option, none,
  some, Option-cases, List, [], ◌∷◌, ◌++◌, arith, ok, ok_injective, ◌>>=◌, load, load_int-ok,
  int_at, is_positive, below_int, length,
}
use database_assignments.Directory.{Directory, n_entries, directory_capacity}
use database_assignments.Directory.Laws.{
  IsDirectory, count_of, offset_at, free_at, has_room, find_free_page-ok,
}
use database_assignments.Page.Search.{first, first-some}
use database_assignments.Page.Count.{free_count}
use database_assignments.Heapfile.{Heapfile}
use database_assignments.Heapfile.Ops.{vacant_from, vacant_page_id}
use database_assignments.Heapfile.Entries.{resolve}
use database_assignments.Heapfile.EntryAt.{
  AreFull, Field, the_offset, the_free_space, place_in, place_in_le, entry_at, lookup,
  lookup-resolve, lookup-entry_at,
}
use database_assignments.Heapfile.Linked.{place_of}
use database_assignments.Heapfile.Laid.{IsLaid}
use database_assignments.Heapfile.Accounted.{IsAccounted}
use database_assignments.Heapfile.Coherence.{page_of}

-- The entry `s` of the directory `k` has free space.
record Vacancy (cap : ℕ) (dirs : List Directory) (n pid : ℕ) : Type 0 where
  dir_no : ℕ
  dir : Directory
  slot_no : ℕ
  at : pid ≡ (n + dir_no) * cap + slot_no
  buffered : load dirs dir_no ≡ ok dir
  is_directory : IsDirectory dir
  capacity : dir.capacity ≡ cap
  counted : slot_no < count_of dir
  room : has_room dir slot_no ≡ true

abbrev Finds : ℕ → List Directory → ℕ → Type 0
Finds cap dirs n =
    (vacant_from dirs n ≡ ok none)
    ⊎ ((pid : ℕ) × (vacant_from dirs n ≡ ok (some pid)) × Vacancy cap dirs n pid)

-- One directory, before the others.
vacant_step :
    (cap : ℕ) (d : Directory) (dirs : List Directory) (n : ℕ)
    → IsDirectory d
    → d.capacity ≡ cap
    → Finds cap dirs (n + 1)
    → Finds cap (d ∷ dirs) n
unfolding vacant_from
vacant_step cap d dirs n v c rest =
    let looked = λ (o : Option ℕ) (e : first (has_room d) (count_of d) 0 ≡ o).
      ap
        (λ r. r >>= λ slot. elim slot [
          | none ↦ vacant_from dirs (n + 1)
          | some slot_no ↦ ok (some (n * d.capacity + slot_no))
        ])
        (find_free_page-ok d v ∙ ap ok e) in
    elim (Option-cases (first (has_room d) (count_of d) 0)) [
      | inl z ↦ elim rest [
        | inl e ↦ inl (looked none z ∙ e)
        | inr (pid, e, w) ↦ inr (
          pid,
          looked none z ∙ e,
          record {
            dir_no = w.dir_no + 1;
            dir = w.dir;
            slot_no = w.slot_no;
            at = w.at ∙ ap (λ m. m * cap + w.slot_no) (omega arith);
            buffered = next_load w.dir_no w.dir w.buffered;
            is_directory = w.is_directory;
            capacity = w.capacity;
            counted = w.counted;
            room = w.room;
          },
        )
      ]
      | inr (s, y) ↦
          let (_, below, hit, _) = first-some (has_room d) (count_of d) 0 s y in
          inr (
            n * d.capacity + s,
            looked (some s) y,
            record {
              dir_no = 0;
              dir = d;
              slot_no = s;
              at = ap₂ (λ m x. m * x + s) (omega arith) c;
              buffered = refl;
              is_directory = v;
              capacity = c;
              counted = omega arith;
              room = hit;
            },
          )
    ]
  where
    next_load : (k : ℕ) (x : Directory) → load dirs k ≡ ok x → load (d ∷ dirs) (k + 1) ≡ ok x
    next_load k x e = let next : k + 1 ≡ suc k = omega arith in rw next e

vacant_from-Finds :
    (cap : ℕ) (before : List Directory) (last : Directory) (n : ℕ)
    → AreFull cap before
    → IsDirectory last
    → last.capacity ≡ cap
    → Finds cap (before ++ last ∷ []) n
unfolding vacant_from
vacant_from-Finds cap [] last n g v c = vacant_step cap last [] n v c (inl refl)
vacant_from-Finds cap (b ∷ before) last n (w, cb, nb, g) v c =
    vacant_step cap b (before ++ last ∷ []) n w cb (vacant_from-Finds cap before last (n + 1) g v c)

is_positive-lt : (n : ℕ) → is_positive n ≡ true → 0 < n
is_positive-lt n e = ground arith

below_count : (i n : ℕ) → i < n → n < 2 ^ 31 → below_int i n ≡ true
below_count i n a b = ground arith

entry_at-counted :
    (f : Field) (d : Directory) (i : ℕ)
    → IsDirectory d
    → i < count_of d
    → entry_at f d i ≡ ok (int_at d.bytes (place_in f i))
unfolding entry_at
entry_at-counted f d i v h =
    let inside : place_in f i + 4 ≤ length d.bytes =
      omega (arith, place_in_le f i, v.counted, v.inside) in
    rw
      (
        load_int-ok d.bytes n_entries (omega (arith, v.inside)),
        below_count i (count_of d) h (omega (arith, v.counted, v.small)),
      )
      (load_int-ok d.bytes (place_in f i) inside)

-- A page with a free slot, or none is known.
abbrev pub FindsPage : Heapfile → Type 0
FindsPage h =
    (vacant_page_id h ≡ ok none)
    ⊎ ((pid off : ℕ) × (vacant_page_id h ≡ ok (some pid))
        × (resolve h pid ≡ ok off)
        × (0 < free_count (page_of h pid off)))

-- In a heap file whose directories are filled one after the other, and whose entries give the
-- numbers of free slots of their pages, vacant_page_id succeeds, and either finds no page or a page
-- that has an entry and at least one free slot.
pub vacant_page_id-FindsPage : (h : Heapfile) → IsLaid h → IsAccounted h → FindsPage h
unfolding vacant_page_id
vacant_page_id-FindsPage h l a =
    let cap = directory_capacity h.page_size in
    let dirs = l.before ++ l.last ∷ [] in
    let start = ap (λ ds. vacant_from ds 0) l.buffered in
    elim (vacant_from-Finds cap l.before l.last 0 l.full l.is_directory l.capacity) [
      | inl e ↦ inl (start ∙ e)
      | inr (pid, e, w) ↦
          let small : w.slot_no < cap =
            omega (arith, w.counted, w.is_directory.counted, w.capacity) in
          let (k, i) = place_of cap w.dir_no w.slot_no small in
          let at : pid ≡ w.dir_no * cap + w.slot_no =
            w.at ∙ ap (λ m. m * cap + w.slot_no) (omega arith) in
          let found = λ (f : Field).
            ap (lookup f h) at
            ∙ lookup-entry_at f h cap l.before l.last (w.dir_no * cap + w.slot_no) l.buffered l.full
                l.capacity
            ∙ ap₂ (λ m n. load dirs m >>= λ dir. entry_at f dir n) k i
            ∙ ap (λ m. m >>= λ dir. entry_at f dir w.slot_no) w.buffered
            ∙ entry_at-counted f w.dir w.slot_no w.is_directory w.counted in
          let off = offset_at w.dir w.slot_no in
          let r : resolve h pid ≡ ok off = sym (lookup-resolve h pid) ∙ found the_offset in
          let free : free_at w.dir w.slot_no ≡ free_count (page_of h pid off) =
            ok_injective (sym (found the_free_space) ∙ a pid off r) in
          inr (
            pid,
            off,
            start ∙ e,
            r,
            omega (arith, free, is_positive-lt (free_at w.dir w.slot_no) w.room),
          )
    ]
