-- ===== src/Record/Laws.antt =====
-- What serialising a record writes, and what deserialising it reads.
use mathlib.Core.List.{append_assoc}
use database_assignments.Base.{
  ℕ, ◌+◌, ◌*◌, ◌/◌, ◌≤◌, ◌<◌, ◌≡◌, refl, sym, ap, ◌∙◌, List, [], ◌∷◌, ◌++◌, arith, ok, ◌>>=◌,
  le→leb, length, splice, drop, get_elem?, get_elem?-drop, length-append, length-splice,
  splice-splice, drop-splice, drop-drop, drop-append,
}
use database_assignments.CString.{Readable, field}
use database_assignments.CString.Laws.{
  length-field, strncpy-field, Readable-field, field-field, strncpy_ext,
}
use database_assignments.Record.{
  attribute_size, Record, fixed_len_sizeof, fixed_len_write, read_attributes, fixed_len_read,
}

-- Every attribute is a string, or holds ten bytes at least.
abbrev pub IsReadable : Record → Type 0
IsReadable [] = Unit
IsReadable (a ∷ r) = Readable attribute_size a × IsReadable r

-- The bytes of a record on a page.
unfoldable pub image : Record → List ℕ
image [] = []
image (a ∷ r) = field attribute_size a ++ image r

-- The record as it is read back: each attribute cut off at ten bytes, with a terminator.
unfoldable pub clean : Record → Record
clean [] = []
clean (a ∷ r) = (field attribute_size a ++ 0 ∷ []) ∷ clean r

pub length-image : (r : Record) → length (image r) ≡ length r * attribute_size
unfolding image
length-image [] = omega arith
length-image (a ∷ r) = omega (
  arith,
  length-append (field attribute_size a) (image r),
  length-field attribute_size a,
  length-image r,
)

-- The record is written as its image, if it is readable and fits the buffer.
pub fixed_len_write-image :
    (r : Record) (mem : List ℕ) (off : ℕ)
    → IsReadable r
    → off + length r * attribute_size ≤ length mem
    → fixed_len_write r mem off ≡ ok (splice mem off (image r))
unfolding fixed_len_write image
fixed_len_write-image [] mem off h fits = refl
fixed_len_write-image (a ∷ r) mem off h fits =
    let b = field attribute_size a in
    let size : length b ≡ attribute_size = length-field attribute_size a in
    rw
      (
        strncpy-field attribute_size a h.0,
        le→leb (off + length b) (length mem) (omega arith),
        fixed_len_write-image r (splice mem off b) (off + attribute_size) h.1
            (omega (arith, length-splice mem off b)),
      )
      (ap ok (splice-splice mem off (off + attribute_size) b (image r) (omega arith)))

-- The bytes of a readable record are read back as the clean record.
pub read_attributes-image :
    (places r : Record) (mem : List ℕ) (off : ℕ) (rest : List ℕ)
    → length places ≡ length r
    → drop off mem ≡ image r ++ rest
    → read_attributes places mem off ≡ ok (clean r)
unfolding read_attributes image clean
read_attributes-image [] [] mem off rest e h = refl
read_attributes-image [] (a ∷ r) mem off rest e h = absurd (omega arith)
read_attributes-image (p ∷ places) [] mem off rest e h = absurd (omega arith)
read_attributes-image (p ∷ places) (a ∷ r) mem off rest e h =
    let b = field attribute_size a in
    let h' : drop off mem ≡ b ++ (image r ++ rest) = h ∙ append_assoc b (image r) rest in
    rw
      (
        h',
        strncpy-field attribute_size (b ++ (image r ++ rest))
            (Readable-field attribute_size a (image r ++ rest)),
        field-field attribute_size a (image r ++ rest),
        read_attributes-image places r mem (off + attribute_size) rest (omega arith) (
            sym (drop-drop attribute_size off mem)
            ∙ (rw h' (drop-append b (image r ++ rest) (length-field attribute_size a)))),
      )
      refl

-- Only the bytes of the slot matter to what is read.
pub read_attributes_ext :
    (places : Record) (m n : List ℕ) (off : ℕ)
    → ((i : ℕ) → off ≤ i → i < off + length places * attribute_size → get_elem? m i ≡ get_elem? n i)
    → read_attributes places m off ≡ read_attributes places n off
unfolding read_attributes
read_attributes_ext [] m n off h = refl
read_attributes_ext (p ∷ places) m n off h =
    rw
      (
        strncpy_ext attribute_size (drop off m) (drop off n) (λ i lt.
            get_elem?-drop off m i
            ∙ h (off + i) (omega arith) (omega arith)
            ∙ sym (get_elem?-drop off n i)),
        read_attributes_ext places m n (off + attribute_size)
            (λ i p q. h i (omega arith) (omega arith)),
      )
      refl

-- Serialising and then deserialising a record gives it back clean, at every place of a buffer.
pub fixed_len_read-fixed_len_write :
    (r places : Record) (mem : List ℕ) (off : ℕ)
    → IsReadable r
    → off + fixed_len_sizeof r ≤ length mem
    → length places ≡ length r
    → (fixed_len_write r mem off >>= λ mem'. fixed_len_read mem' off (fixed_len_sizeof r) places)
      ≡ ok (clean r)
unfolding fixed_len_sizeof fixed_len_read
fixed_len_read-fixed_len_write r places mem off h fits e =
    rw
      (
        fixed_len_write-image r mem off h fits,
        le→leb (length r * attribute_size / attribute_size) (length places) (omega arith),
      )
      (read_attributes-image places r (splice mem off (image r)) off
        (drop (off + length (image r)) mem) e
        (drop-splice mem off (image r) (omega (arith, length-image r))))
