-- ===== src/Heapfile/EntryAt.antt =====
-- The entries of a directory of a1/directory.cpp, looked up as `get_entry` of a1/heapfile.cpp does,
-- before and after a new entry.
use database_assignments.Base.{
  ℕ, zero, suc, ◌+◌, ◌*◌, ◌≤◌, ◌/◌, ◌%◌, ◌^◌, ◌<◌, ◌≡◌, ◌≢◌, refl, ap, ◌∙◌, true, false, List, [],
  ◌∷◌, ◌++◌, arith, Run, ok, stop, assert_failed, ◌>>=◌, ◌>>◌, assert, load, load_int, load_int-ok,
  int_at, below_int, le→ltb, length, set,
}
use database_assignments.Directory.{Entry, Directory, n_entries, entry_offset, entry_free_space}
use database_assignments.Directory.Laws.{IsDirectory, Appended, count_of}
use database_assignments.Heapfile.{Heapfile, get_entry}
use database_assignments.Heapfile.Entries.{resolve, bind_assoc}

-- The fields of an entry.
pub data Field : Type 0 where
  the_offset : Field
  the_free_space : Field

abbrev pub place_in : Field → ℕ → ℕ
place_in the_offset i = entry_offset i
place_in the_free_space i = entry_free_space i

abbrev pub value_in : Field → Entry → ℕ
value_in the_offset e = e.offset
value_in the_free_space e = e.free_space

-- A field of an entry that is counted.
unfoldable pub entry_at : Field → Directory → ℕ → Run ℕ
entry_at f d i = do
  n ← load_int d.bytes n_entries
  assert (below_int i n)
  load_int d.bytes (place_in f i)

-- A field of the entry of the page `pid`.
unfoldable pub lookup : Field → Heapfile → ℕ → Run ℕ
lookup f h pid = do place ← get_entry h pid; load_int place.dir.bytes (place_in f place.slot_no)

pub lookup-resolve : (h : Heapfile) (pid : ℕ) → lookup the_offset h pid ≡ resolve h pid
unfolding lookup resolve
lookup-resolve h pid = refl

pub place_in_le : (f : Field) (i : ℕ) → place_in f i ≤ 12 + 8 * i
place_in_le the_offset i = omega arith
place_in_le the_free_space i = omega arith

others_in :
    (f : Field) (d d' : Directory) (e : Entry) (i : ℕ)
    → Appended d d' e
    → i ≢ count_of d
    → int_at d'.bytes (place_in f i) ≡ int_at d.bytes (place_in f i)
others_in the_offset d d' e i a ne = (a.others i ne).0
others_in the_free_space d d' e i a ne = (a.others i ne).1

self_in :
    (f : Field) (d d' : Directory) (e : Entry)
    → Appended d d' e
    → int_at d'.bytes (place_in f (count_of d)) ≡ value_in f e
self_in the_offset d d' e a = a.offset
self_in the_free_space d d' e a = a.free_space

-- Full directories of one capacity.
abbrev pub AreFull : ℕ → List Directory → Type 0
AreFull cap [] = Unit
AreFull cap (d ∷ ds) = IsDirectory d × (d.capacity ≡ cap) × (count_of d ≡ cap) × AreFull cap ds

below_skip : (i n : ℕ) → i ≢ n → n + 1 < 2 ^ 31 → below_int i (n + 1) ≡ below_int i n
below_skip i n ne small = ground arith

pub load_int-same :
    (a b : List ℕ) (off : ℕ)
    → length a ≡ length b
    → int_at a off ≡ int_at b off
    → load_int a off ≡ load_int b off
unfolding load_int
load_int-same a b off e w = rw (e, w) refl

below_next : (n : ℕ) → n + 1 < 2 ^ 31 → below_int n (n + 1) ≡ true
below_next n small = ground arith

pub entry_at-Appended_other :
    (f : Field) (d d' : Directory) (e : Entry) (i : ℕ)
    → IsDirectory d
    → count_of d < d.capacity
    → Appended d d' e
    → i ≢ count_of d
    → entry_at f d' i ≡ entry_at f d i
unfolding entry_at
entry_at-Appended_other f d d' e i v room a ne =
    let header = load_int-ok d.bytes n_entries (omega (arith, v.inside)) in
    let header' =
      load_int-ok d'.bytes n_entries (omega (arith, a.is_directory.inside)) ∙ ap ok a.count in
    let below = below_skip i (count_of d) ne (omega (arith, v.small)) in
    rw
      (
        header',
        header,
        below,
        load_int-same d'.bytes d.bytes (place_in f i) a.size (others_in f d d' e i a ne),
      )
      refl

pub entry_at-Appended_self :
    (f : Field) (d d' : Directory) (e : Entry)
    → IsDirectory d
    → count_of d < d.capacity
    → Appended d d' e
    → entry_at f d' (count_of d) ≡ ok (value_in f e)
unfolding entry_at
entry_at-Appended_self f d d' e v room a =
    let inside = a.is_directory.inside in
    let header =
      load_int-ok d'.bytes n_entries (omega (arith, a.is_directory.inside)) ∙ ap ok a.count in
    let below : below_int (count_of d) (count_of d + 1) ≡ true =
      below_next (count_of d) (omega (arith, v.small)) in
    rw (header, below)
      (load_int-ok d'.bytes (place_in f (count_of d))
          (omega (arith, a.is_directory.inside, a.capacity, place_in_le f (count_of d)))
        ∙ ap ok (self_in f d d' e a))

not_below_self : (n : ℕ) → below_int n n ≡ false
not_below_self n = rw (le→ltb n n (omega arith)) refl

pub entry_at-count :
    (f : Field) (d : Directory) → IsDirectory d → entry_at f d (count_of d) ≡ stop assert_failed
unfolding entry_at
entry_at-count f d v =
    rw (load_int-ok d.bytes n_entries (omega (arith, v.inside)), not_below_self (count_of d)) refl

pub load-behind_all :
    (before : List Directory) (d : Directory) → load (before ++ d ∷ []) (length before) ≡ ok d
load-behind_all [] d = refl
load-behind_all (b ∷ before) d = load-behind_all before d

pub load-earlier :
    (before : List Directory) (d d' : Directory) (k : ℕ)
    → k ≢ length before
    → load (before ++ d' ∷ []) k ≡ load (before ++ d ∷ []) k
load-earlier [] d d' zero ne = absurd (ne refl)
load-earlier [] d d' (suc k) ne = refl
load-earlier (b ∷ before) d d' zero ne = refl
load-earlier (b ∷ before) d d' (suc k) ne = load-earlier before d d' k (λ e. ne (ap suc e))

pub set-behind_all :
    (before : List Directory) (d d' : Directory)
    → set (before ++ d ∷ []) (length before) d' ≡ before ++ d' ∷ []
set-behind_all [] d d' = refl
set-behind_all (b ∷ before) d d' = ap (◌∷◌ b) (set-behind_all before d d')

-- The capacity that `get_entry` goes by.
first_capacity :
    (cap : ℕ) (before : List Directory) (d : Directory)
    → AreFull cap before
    → d.capacity ≡ cap
    → (f : Directory) × (load (before ++ d ∷ []) 0 ≡ ok f) × (f.capacity ≡ cap)
first_capacity cap [] d g e = (d, refl, e)
first_capacity cap (b ∷ before) d (v, c, n, g) e = (b, refl, c)

pub lookup-entry_at :
    (f : Field) (h : Heapfile) (cap : ℕ) (before : List Directory) (d : Directory) (q : ℕ)
    → h.directory_buffer ≡ before ++ d ∷ []
    → AreFull cap before
    → d.capacity ≡ cap
    → lookup f h q ≡ (load (before ++ d ∷ []) (q / cap) >>= λ dir. entry_at f dir (q % cap))
unfolding lookup get_entry entry_at
lookup-entry_at f h cap before d q b g e =
    let (x, first, c) = first_capacity cap before d g e in rw (b, first, c) (simp bind_assoc)
