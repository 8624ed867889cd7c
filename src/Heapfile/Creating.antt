-- ===== src/Heapfile/Creating.antt =====
-- `init_heapfile` and `create_heapfile` of a1/heapfile.cpp: an empty heap file.
use database_assignments.Base.{
  ℕ, zero, suc, ◌+◌, ◌-◌, ◌/◌, ◌%◌, ◌^◌, ◌≤◌, ◌<◌, ◌≡◌, ◌≢◌, refl, sym, ap, ◌∙◌, inl, true, false,
  none, List, [], ◌∷◌, arith, ok, ◌>>=◌, >>=-eq-ok, load, load_int, load_int-ok,
  load_int-splice_other, int_at, int_at-splice_self, store_int-ok, is_positive, below_int, assert,
  get_or, length, replicate, splice, take_all, le_bytes, length-splice, lt→ltb, le→ltb,
  ok_injective, le→leb,
}
use database_assignments.CString.Laws.{length-replicate}
use database_assignments.Directory.{
  Directory, next_directory, n_entries, directory_capacity, init_directory_page,
}
use database_assignments.Heapfile.{
  Heapfile, init_heapfile, write_at, write_block, get_entry, load_offset,
}
use database_assignments.Heapfile.Records.{create_heapfile}
use database_assignments.Heapfile.Entries.{resolve}
use database_assignments.Heapfile.Coherence.{empty}
use database_assignments.Heapfile.Store.{IsValid}
use database_assignments.Heapfile.Reopen.{IsStored, fresh}

get_or-replicate : (n i : ℕ) → ◌≡◌ {A = ℕ} (get_or (replicate n 0) i 0) 0
get_or-replicate zero i = refl
get_or-replicate (suc n) zero = refl
get_or-replicate (suc n) (suc i) = get_or-replicate n i

pub int_at-replicate : (n off : ℕ) → int_at (replicate n 0) off ≡ 0
unfolding int_at
int_at-replicate n off = omega (
  arith,
  get_or-replicate n off,
  get_or-replicate n (off + 1),
  get_or-replicate n (off + 2),
  get_or-replicate n (off + 3),
)

pub capacity_is_positive :
    (page_size : ℕ)
    → 16 ≤ page_size
    → page_size < 2 ^ 31
    → is_positive (directory_capacity page_size) ≡ true
capacity_is_positive page_size h l =
    let capacity : directory_capacity page_size ≡ (page_size - 8) / 8 = omega arith in
    rw
      (
        capacity,
        lt→ltb 0 ((page_size - 8) / 8) (omega arith),
        lt→ltb ((page_size - 8) / 8) (2 ^ 31) (omega arith),
      )
      refl

load_single : {A : Type 0} (a b : A) (i : ℕ) → load (a ∷ []) i ≡ ok b → b ≡ a
load_single a b zero h = sym (ok_injective h)
load_single a b (suc i) h = cc

no_slot : (i n : ℕ) → n ≡ 0 → below_int i n ≡ false
no_slot i n e = rw (e, le→ltb i 0 (omega arith)) refl

module _ (page_size slot_size : ℕ) (large : 1001 < page_size) (small : page_size < 2 ^ 31) where
  abbrev pub first_bytes : List ℕ
  first_bytes = splice (replicate page_size 0) n_entries (le_bytes 0)

  abbrev pub first_directory : Directory
  first_directory = record {
    capacity = directory_capacity page_size;
    bytes = first_bytes;
    offset = 0;
  }

  length-first_bytes : length first_bytes ≡ page_size
  length-first_bytes =
      length-splice (replicate page_size 0) n_entries (le_bytes 0) ∙ length-replicate page_size

  abbrev pub created_file : List ℕ
  created_file = write_at [] 0 first_bytes

  pub length-created_file : length created_file ≡ page_size
  length-created_file =
      length-splice (replicate (0 + length first_bytes - 0) 0) 0 first_bytes
      ∙ length-replicate (0 + length first_bytes - 0)
      ∙ omega (arith, length-first_bytes)

  abbrev pub created : Heapfile
  created = record {
    file = created_file;
    page_size = page_size;
    directory_buffer = first_directory ∷ [];
    cached_page = none;
    cached_pid = none;
    page_cache_dirty = false;
    slot_size = slot_size;
  }

  init_directory_page-first : init_directory_page page_size 0 ≡ ok first_directory
  unfolding init_directory_page
  init_directory_page-first =
      rw
        (
          capacity_is_positive page_size (omega arith) small,
          store_int-ok (replicate page_size 0) n_entries 0
              (omega (arith, length-replicate page_size)),
        )
        refl

  pub create_heapfile-ok : create_heapfile (fresh created) ≡ ok created
  unfolding create_heapfile write_block
  create_heapfile-ok =
      rw
        (
          init_directory_page-first,
          le→leb page_size (length first_bytes) (omega (arith, length-first_bytes)),
          take_all first_bytes length-first_bytes,
        )
        refl

  no_entries : load_int first_bytes n_entries ≡ ok 0
  no_entries =
      load_int-ok first_bytes n_entries (omega (arith, length-first_bytes))
      ∙ ap ok (
          int_at-splice_self (replicate page_size 0) n_entries 0
            (omega (arith, length-replicate page_size)) (omega arith))

  no_next : load_int first_bytes next_directory ≡ ok 0
  no_next =
      load_int-splice_other (replicate page_size 0) n_entries (le_bytes 0) next_directory
        (inl (omega arith))
      ∙ load_int-ok (replicate page_size 0) next_directory
          (omega (arith, length-replicate page_size))
      ∙ ap ok (int_at-replicate page_size next_directory)

  -- No page has an entry.
  pub resolve_none : (pid x : ℕ) → resolve created pid ≢ ok x
  unfolding resolve get_entry
  resolve_none pid x e =
      let (place, g, _) = >>=-eq-ok (get_entry created pid) load_offset e in
      let (dir, at, g') =
        >>=-eq-ok (load (first_directory ∷ []) (pid / directory_capacity page_size)) _ g in
      let only = load_single first_directory dir (pid / directory_capacity page_size) at in
      let (n, count, g'') = >>=-eq-ok (load_int dir.bytes n_entries) _ g' in
      let none_yet : n ≡ 0 =
        ok_injective (sym count ∙ ap (λ w. load_int w.bytes n_entries) only ∙ no_entries) in
      let (_, checked, _) =
        >>=-eq-ok (assert (below_int (pid % directory_capacity page_size) n)) _ g'' in
      cc (sym (ap assert (no_slot (pid % directory_capacity page_size) n none_yet)) ∙ checked)

  pub created-IsValid : 0 < slot_size → slot_size < page_size → IsValid created
  created-IsValid pos lt = record {
    coherent = record {
      placed = record {
        slot_pos = pos;
        slot_lt = lt;
        inside = λ a x e. absurd (resolve_none a x e);
        fits = λ a x e. absurd (resolve_none a x e);
        apart = λ a b x y ne e f. absurd (resolve_none a x e);
      };
      cache = empty refl refl;
    };
    pages = λ q o e. absurd (resolve_none q o e);
  }

  pub created-IsStored : IsStored created first_directory []
  created-IsStored = record {
    buffered = refl;
    at_start = refl;
    linked = no_next;
    blocks = (
      record {
        size = length-first_bytes;
        capacity = refl;
        small = omega arith;
        inside = omega (arith, length-created_file);
      },
      tt,
      tt,
    );
    apart = λ q x e. absurd (resolve_none q x e);
    capacity_pos = capacity_is_positive page_size (omega arith) small;
    header = omega arith;
    count = omega (arith, length-created_file);
  }

  pub init_heapfile-ok : init_heapfile page_size slot_size ≡ ok (fresh created)
  unfolding init_heapfile
  init_heapfile-ok = rw (lt→ltb 1001 page_size large) refl

  -- For a page size above 1001 and below 2^31 and a slot size below it that is not zero,
  -- init_heapfile and create_heapfile succeed. The heap file is valid, its one directory is stored
  -- at the start of the file, and it has no page.
  pub init_heapfile-create_heapfile :
      0 < slot_size
      → slot_size < page_size
      → (h : Heapfile) × ((init_heapfile page_size slot_size >>= create_heapfile) ≡ ok h)
        × IsValid h
        × IsStored h first_directory []
        × ((pid x : ℕ) → resolve h pid ≢ ok x)
  init_heapfile-create_heapfile pos lt = (
    created,
    ap (λ r. r >>= create_heapfile) init_heapfile-ok ∙ create_heapfile-ok,
    created-IsValid pos lt,
    created-IsStored,
    resolve_none,
  )
