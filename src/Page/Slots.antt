-- ===== src/Page/Slots.antt =====
-- A page as a map from slots to records: writing, reading and deleting one slot.
use database_assignments.Base.{
  ℕ, ◌+◌, ◌*◌, ◌/◌, ◌%◌, ◌≤◌, ◌<◌, ◌≡◌, ◌≢◌, refl, sym, ◌∙◌, false, Option, none, some, List, arith,
  Run, ok, le→leb, if◌then◌else◌, ◌==◌, length, get_elem?, get_or, set, splice, drop, length-set,
  length-splice, get_elem?-set, get_elem?-splice_before, get_elem?-splice_after, drop-splice,
  get_or_cong,
}
use native.Mathlib.Decide.{dec_lt}
use database_assignments.Base.Bits.{set_bit, set_bit-lt}
use database_assignments.CString.{AreBytes}
use database_assignments.Record.{attribute_size, Record, fixed_len_read}
use database_assignments.Record.Laws.{
  IsReadable, image, clean, length-image, fixed_len_write-image, read_attributes-image,
  read_attributes_ext,
}
use database_assignments.Page.{
  Page, fixed_len_page_capacity, write_fixed_len_page, read_fixed_len_page,
}
use database_assignments.Page.Layout.{
  IsPage, is_filled, slot_before_flag, slots_apart, load_back-flag, get_or-lt, AreBytes-set,
  AreBytes-splice,
}
use database_assignments.Page.Flags.{flag_byte, with_flag, SameFlags}

-- A record that the slots of the page are made for: readable, of bytes, and of the slot's size.
pub record IsStorable (p : Page) (r : Record) : Type 0 where
  pub readable : IsReadable r
  pub bytes_ok : AreBytes (image r)
  pub fits : length r * attribute_size ≤ p.slot_size
  pub fills : p.slot_size / attribute_size ≤ length r

-- What a slot holds: nothing, or what reading it gives.
abbrev pub contents : Record → Page → ℕ → Option (Run Record)
contents places p s = if is_filled p s then some (read_fixed_len_page p s places) else none

-- The two sizes, and so the capacity, of a page.
pub record SameShape (p q : Page) : Type 0 where
  pub page_size : q.page_size ≡ p.page_size
  pub slot_size : q.slot_size ≡ p.slot_size
  pub capacity : fixed_len_page_capacity q ≡ fixed_len_page_capacity p

pub capacity_with :
    (p : Page) (mem : List ℕ)
    → fixed_len_page_capacity (record p { bytes = mem }) ≡ fixed_len_page_capacity p
unfolding fixed_len_page_capacity
capacity_with p mem = refl

pub SameShape-with : (p : Page) (mem : List ℕ) → SameShape p (record p { bytes = mem })
SameShape-with p mem = record { page_size = refl; slot_size = refl; capacity = capacity_with p mem }

-- Reading a slot of a page: the flag's byte is there, and the rest is `fixed_len_read`.
pub read-fixed_len_read :
    (places : Record) (p : Page) (s : ℕ)
    → IsPage p
    → s < fixed_len_page_capacity p
    → read_fixed_len_page p s places ≡ fixed_len_read p.bytes (s * p.slot_size) p.slot_size places
unfolding read_fixed_len_page
read-fixed_len_read places p s v h =
    rw (load_back-flag p s ((s + 1 + 7) / 8) v h (omega arith)) refl

-- Two memories that agree on a slot give the same record.
pub read_ext :
    (places : Record) (m n : List ℕ) (off size : ℕ)
    → length places * attribute_size ≤ size
    → ((i : ℕ) → off ≤ i → i < off + size → get_elem? m i ≡ get_elem? n i)
    → fixed_len_read m off size places ≡ fixed_len_read n off size places
unfolding fixed_len_read
read_ext places m n off size h e =
    rw (read_attributes_ext places m n off (λ i a b. e i a (omega arith))) refl

-- A byte that comes before the byte of a flag is not that flag's.
pub before_flag :
    (p : Page) (mem : List ℕ) (s t i c : ℕ)
    → IsPage p
    → length mem ≡ p.page_size
    → s < fixed_len_page_capacity p
    → t < fixed_len_page_capacity p
    → i < t * p.slot_size + p.slot_size
    → get_elem? (set mem (flag_byte p s) c) i ≡ get_elem? mem i
before_flag p mem s t i c v e hs ht h =
    let room = slot_before_flag p t s v.slot_pos ht hs in
    let at = get_elem?-set mem (flag_byte p s) i c (omega arith) in
    let ne : (flag_byte p s == i) ≡ false = ground arith in at ∙ rw ne refl

module _ (p : Page) (s : ℕ) (r : Record) (v : IsPage p) (hs : s < fixed_len_page_capacity p)
    (st : IsStorable p r) where
  abbrev pub record_bytes : List ℕ
  record_bytes = splice p.bytes (s * p.slot_size) (image r)

  abbrev pub new_flags : ℕ
  new_flags = set_bit (get_or p.bytes (flag_byte p s) 0) (s % 8)

  abbrev pub written : Page
  written = with_flag p record_bytes s new_flags

  record_fits : s * p.slot_size + length r * attribute_size ≤ length p.bytes
  record_fits = omega (arith, slot_before_flag p s s v.slot_pos hs hs, v.size, st.fits)

  pub record_bytes-size : length record_bytes ≡ p.page_size
  record_bytes-size = length-splice p.bytes (s * p.slot_size) (image r) ∙ v.size

  pub record_bytes-SameFlags : SameFlags p record_bytes
  record_bytes-SameFlags t ht =
      let room = slot_before_flag p s t v.slot_pos hs ht in
      let size = length-image r in
      let fits = st.fits in
      get_or_cong record_bytes p.bytes (flag_byte p t) (flag_byte p t) 0
        (get_elem?-splice_after p.bytes (s * p.slot_size) (image r) (flag_byte p t) (omega arith))

  record_bytes-IsPage : IsPage (record p { bytes = record_bytes })
  record_bytes-IsPage = record {
    size = record_bytes-size;
    bytes_ok = AreBytes-splice p.bytes (s * p.slot_size) (image r) v.bytes_ok st.bytes_ok;
    slot_pos = v.slot_pos;
    slot_lt = v.slot_lt;
  }

  pub write-written : write_fixed_len_page p s r ≡ ok written
  unfolding write_fixed_len_page
  write-written =
      let q : Page = record p { bytes = record_bytes } in
      let load =
        load_back-flag q s ((s + 1 + 7) / 8) record_bytes-IsPage
          (rw (capacity_with p record_bytes) hs) (omega arith) in
      let back : (s + 1 + 7) / 8 ≡ s / 8 + 1 = omega arith in
      rw
        (
          fixed_len_write-image r p.bytes (s * p.slot_size) st.readable record_fits,
          load,
          record_bytes-SameFlags s hs,
          back,
        )
        refl

  pub written-IsPage : IsPage written
  written-IsPage = record {
    size = length-set record_bytes (flag_byte p s) new_flags ∙ record_bytes-size;
    bytes_ok =
        AreBytes-set record_bytes (flag_byte p s) new_flags record_bytes-IsPage.bytes_ok
          (set_bit-lt _ (s % 8) (get_or-lt p.bytes _ v.bytes_ok) (omega arith));
    slot_pos = v.slot_pos;
    slot_lt = v.slot_lt;
  }

  pub read-written_self :
      (places : Record)
      → length places ≡ length r
      → read_fixed_len_page written s places ≡ ok (clean r)
  unfolding fixed_len_read
  read-written_self places e =
      let fills = st.fills in
      let fits = st.fits in
      let size = length-image r in
      rw
        (
          read-fixed_len_read places written s written-IsPage (rw capacity_with hs),
          le→leb (p.slot_size / attribute_size) (length places) (omega arith),
          read_attributes_ext places written.bytes record_bytes (s * p.slot_size) (λ i a b.
              before_flag p record_bytes s s i new_flags v record_bytes-size hs hs (omega arith)),
        )
        (read_attributes-image places r record_bytes (s * p.slot_size)
          (drop (s * p.slot_size + length (image r)) p.bytes) e
          (drop-splice p.bytes (s * p.slot_size) (image r) (omega (arith, record_fits))))

  pub read-written_other :
      (places : Record) (t : ℕ)
      → length places ≡ length r
      → t < fixed_len_page_capacity p
      → s ≢ t
      → read_fixed_len_page written t places ≡ read_fixed_len_page p t places
  read-written_other places t e ht ne =
      let fits = st.fits in
      let size = length-image r in
      read-fixed_len_read places written t written-IsPage (rw capacity_with ht)
      ∙ read_ext places written.bytes p.bytes (t * p.slot_size) p.slot_size (omega arith) (λ i a b.
        before_flag p record_bytes s t i new_flags v record_bytes-size hs ht b ∙ outside i a b)
      ∙ sym (read-fixed_len_read places p t v ht)
    where
      outside :
          (i : ℕ)
          → t * p.slot_size ≤ i
          → i < t * p.slot_size + p.slot_size
          → get_elem? record_bytes i ≡ get_elem? p.bytes i
      outside i a b = elim (dec_lt s t) [
        | yes l ↦
            get_elem?-splice_after p.bytes (s * p.slot_size) (image r) i
              (omega (arith, st.fits, length-image r, slots_apart s t p.slot_size l))
        | no l ↦
            get_elem?-splice_before p.bytes (s * p.slot_size) (image r) i
              (omega (arith, slots_apart t s p.slot_size (omega arith)))
      ]
