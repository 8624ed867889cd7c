-- ===== src/Heapfile/Entries.antt =====
-- Where the pages of a heap file stand in the file, and that writing an entry's free space leaves
-- every page where it is.
use database_assignments.Base.{
  ℕ, zero, suc, ◌+◌, ◌/◌, ◌%◌, ◌≡◌, refl, sym, ap, ◌∙◌, Bool, List, [], ◌∷◌, map, arith, Run, ok,
  stop, ◌>>=◌, ◌>>◌, assert, load, load_int, le_bytes, below_int, leb, length, set, splice,
  length-splice, load_int-splice_other, >>=-eq-ok, ok_injective,
}
use database_assignments.Directory.{Directory, n_entries, entry_offset, entry_free_space}
use database_assignments.Heapfile.{Heapfile, Place, get_entry, load_offset}

-- The offset of the page `pid` in the file, as its entry gives it.
unfoldable pub resolve : Heapfile → ℕ → Run ℕ
unfolding get_entry
resolve h pid = do place ← get_entry h pid; load_offset place

-- Whether the free space of the entry lies inside its directory page.
unfoldable pub entry_fits : Heapfile → ℕ → Run Bool
entry_fits h pid = do
  place ← get_entry h pid
  ok (leb (entry_free_space place.slot_no + 4) (length place.dir.bytes))

-- What both depend on in a directory.
record Shape : Type 0 where
  capacity : ℕ
  entries : Run ℕ
  offset : ℕ → Run ℕ
  size : ℕ

shape_of : Directory → Shape
shape_of d = record {
  capacity = d.capacity;
  entries = load_int d.bytes n_entries;
  offset = λ i. load_int d.bytes (entry_offset i);
  size = length d.bytes;
}

with_shapes : {A : Type 0} → (Shape → ℕ → Run A) → List Shape → ℕ → Run A
with_shapes f shapes pid = do
  first ← load shapes 0
  let slot_no = pid % first.capacity
  dir ← load shapes (pid / first.capacity)
  n ← dir.entries
  assert (below_int slot_no n)
  f dir slot_no

pub bind_assoc :
    {A B C : Type 0} (m : Run A) (f : A → Run B) (g : B → Run C)
    → ((m >>= f) >>= g) ≡ (m >>= λ x. f x >>= g)
bind_assoc (ok a) f g = refl
bind_assoc (stop e) f g = refl

load-map :
    {A B : Type 0} (f : A → B) (xs : List A) (i : ℕ)
    → load (map f xs) i ≡ (load xs i >>= λ x. ok (f x))
load-map f [] i = refl
load-map f (x ∷ xs) zero = refl
load-map f (x ∷ xs) (suc i) = load-map f xs i

abbrev offset_of : Shape → ℕ → Run ℕ
offset_of d i = d.offset i

abbrev fits_of : Shape → ℕ → Run Bool
fits_of d i = ok (leb (entry_free_space i + 4) d.size)

resolve-shapes :
    (h : Heapfile) (pid : ℕ)
    → resolve h pid ≡ with_shapes offset_of (map shape_of h.directory_buffer) pid
unfolding resolve get_entry with_shapes shape_of
resolve-shapes h pid = simp (load-map, bind_assoc)

entry_fits-shapes :
    (h : Heapfile) (pid : ℕ)
    → entry_fits h pid ≡ with_shapes fits_of (map shape_of h.directory_buffer) pid
unfolding entry_fits get_entry with_shapes shape_of
entry_fits-shapes h pid = simp (load-map, bind_assoc)

shape_of-free_space :
    (d : Directory) (i v : ℕ)
    → shape_of (record d { bytes = splice d.bytes (entry_free_space i) (le_bytes v) }) ≡ shape_of d
unfolding shape_of
shape_of-free_space d i v =
    let count =
      load_int-splice_other d.bytes (entry_free_space i) (le_bytes v) n_entries (omega arith) in
    let offset = λ (j : ℕ).
      load_int-splice_other d.bytes (entry_free_space i) (le_bytes v) (entry_offset j)
        (omega arith) in
    let size = length-splice d.bytes (entry_free_space i) (le_bytes v) in
    λ x. record {
      capacity = d.capacity;
      entries = count x;
      offset = λ j. offset j x;
      size = size x;
    }

map-set :
    (dirs : List Directory) (k : ℕ) (d d' : Directory)
    → load dirs k ≡ ok d
    → shape_of d' ≡ shape_of d
    → map shape_of (set dirs k d') ≡ map shape_of dirs
map-set [] k d d' at e = refl
map-set (x ∷ dirs) zero d d' at e = let here : x ≡ d = cc at in rw (e, here) refl
map-set (x ∷ dirs) (suc k) d d' at e = ap (◌∷◌ (shape_of x)) (map-set dirs k d d' at e)

module _ (h h' : Heapfile) (k i v : ℕ) (d : Directory) (at : load h.directory_buffer k ≡ ok d)
    (e : h'.directory_buffer
      ≡ set h.directory_buffer k
          (record d { bytes = splice d.bytes (entry_free_space i) (le_bytes v) })) where
  shapes_kept : map shape_of h'.directory_buffer ≡ map shape_of h.directory_buffer
  shapes_kept =
      ap (map shape_of) e ∙ map-set h.directory_buffer k d _ at (shape_of-free_space d i v)

  -- An entry's free space may change with no page moving.
  pub resolve-store_free_space : (pid : ℕ) → resolve h' pid ≡ resolve h pid
  resolve-store_free_space pid =
      resolve-shapes h' pid
      ∙ ap (λ shapes. with_shapes offset_of shapes pid) shapes_kept
      ∙ sym (resolve-shapes h pid)

  pub entry_fits-store_free_space : (pid : ℕ) → entry_fits h' pid ≡ entry_fits h pid
  entry_fits-store_free_space pid =
      entry_fits-shapes h' pid
      ∙ ap (λ shapes. with_shapes fits_of shapes pid) shapes_kept
      ∙ sym (entry_fits-shapes h pid)

-- The directory of an entry stands in the buffer.
pub get_entry-load :
    (h : Heapfile) (pid : ℕ) (place : Place)
    → get_entry h pid ≡ ok place
    → load h.directory_buffer place.dir_no ≡ ok place.dir
unfolding get_entry
get_entry-load h pid place e =
    let (first, a, e₁) = >>=-eq-ok (load h.directory_buffer 0) _ e in
    let (dir, b, e₂) = >>=-eq-ok (load h.directory_buffer (pid / first.capacity)) _ e₁ in
    let (n, c, e₃) = >>=-eq-ok (load_int dir.bytes n_entries) _ e₂ in
    let (u, d, e₄) = >>=-eq-ok (assert (below_int (pid % first.capacity) n)) _ e₃ in
    rw (← ok_injective e₄) b
