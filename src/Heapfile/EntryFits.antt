-- ===== src/Heapfile/EntryFits.antt =====
-- The entries of directories whose entries lie inside their pages.
use database_assignments.Base.{
  ℕ, zero, suc, ◌+◌, ◌/◌, ◌%◌, ◌^◌, ◌<◌, ◌≡◌, refl, sym, subst, ◌∙◌, true, false, List, [], ◌∷◌,
  ◌++◌, arith, ok, ok_injective, assert, load, load_int, load_int-ok, below_int, le→leb, >>=-eq-ok,
  Bool, length, ◌≤◌,
}
use database_assignments.Directory.{Directory, n_entries, entry_free_space}
use database_assignments.Directory.Laws.{IsDirectory, count_of}
use database_assignments.Heapfile.{Heapfile, Place, get_entry, load_offset}
use database_assignments.Heapfile.Entries.{resolve, entry_fits}
use database_assignments.Heapfile.EntryAt.{AreFull}

-- Every directory has its entries inside its page.
abbrev pub AreDirectories : List Directory → Type 0
AreDirectories dirs = (k : ℕ) (d : Directory) → load dirs k ≡ ok d → IsDirectory d

pub AreDirectories-behind :
    (cap : ℕ) (before : List Directory) (d : Directory)
    → AreFull cap before
    → IsDirectory d
    → AreDirectories (before ++ d ∷ [])
AreDirectories-behind cap [] d g v zero x e = subst IsDirectory (ok_injective e) v
AreDirectories-behind cap [] d g v (suc k) x e = absurd (cc e)
AreDirectories-behind cap (b ∷ before) d (w, c, n, g) v zero x e =
    subst IsDirectory (ok_injective e) w
AreDirectories-behind cap (b ∷ before) d (w, c, n, g) v (suc k) x e =
    AreDirectories-behind cap before d g v k x e

assert-true : (b : Bool) {u : Unit} → assert b ≡ ok u → b ≡ true
assert-true true e = refl
assert-true false e = absurd (cc e)

below_int-lt : (i n : ℕ) → n < 2 ^ 31 → below_int i n ≡ true → i < n
below_int-lt i n small e = ground arith

-- The number of an entry is less than the count of its directory.
pub get_entry-counted :
    (h : Heapfile) (pid : ℕ) (place : Place)
    → AreDirectories h.directory_buffer
    → get_entry h pid ≡ ok place
    → (place.slot_no < count_of place.dir) × IsDirectory place.dir
unfolding get_entry
get_entry-counted h pid place v e =
    let (first, a, e₁) = >>=-eq-ok (load h.directory_buffer 0) _ e in
    let (dir, b, e₂) = >>=-eq-ok (load h.directory_buffer (pid / first.capacity)) _ e₁ in
    let (n, c, e₃) = >>=-eq-ok (load_int dir.bytes n_entries) _ e₂ in
    let (u, d, e₄) = >>=-eq-ok (assert (below_int (pid % first.capacity) n)) _ e₃ in
    let w = v (pid / first.capacity) dir b in
    let count : n ≡ count_of dir =
      ok_injective (sym c ∙ load_int-ok dir.bytes n_entries (omega (arith, w.inside))) in
    let lt =
      below_int-lt (pid % first.capacity) n (omega (arith, count, w.counted, w.small))
        (assert-true _ d) in
    rw (← ok_injective e₄) (omega (arith, lt, count), w)

pub entry_fits-AreDirectories :
    (h : Heapfile) (pid off : ℕ)
    → AreDirectories h.directory_buffer
    → resolve h pid ≡ ok off
    → entry_fits h pid ≡ ok true
unfolding resolve entry_fits
entry_fits-AreDirectories h pid off v r =
    let (place, g, l) = >>=-eq-ok (get_entry h pid) load_offset r in
    let (lt, w) = get_entry-counted h pid place v g in
    let inside : entry_free_space place.slot_no + 4 ≤ length place.dir.bytes =
      omega (arith, lt, w.counted, w.inside) in
    rw (g, le→leb _ _ inside) refl
