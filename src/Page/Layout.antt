-- ===== src/Page/Layout.antt =====
-- The shape of a page: which bytes the slots and the flags take, and what a flag says.
use Prim.Native.Nat.{bit_and, bit_and-bitwise, ◌^◌}
use database_assignments.Base.{
  ℕ, zero, suc, ◌+◌, ◌-◌, ◌*◌, ◌/◌, ◌%◌, ◌≤◌, ◌<◌, ◌≡◌, refl, Bool, false, List, [], ◌∷◌, arith, ok,
  stop, assert_failed, lt→ltb, le→leb, length, get_or, get_elem?-get_or, set, splice, replicate,
}
use database_assignments.Base.Bits.{has_bit}
use database_assignments.CString.{AreBytes}
use database_assignments.CString.Laws.{length-replicate}
use database_assignments.Page.{
  Page, ceil_eighths, init_fixed_len_page, fixed_len_page_capacity, load_back,
}

-- A page as `init_fixed_len_page` leaves it and every operation keeps it.
pub record IsPage (p : Page) : Type 0 where
  pub size : length p.bytes ≡ p.page_size
  pub bytes_ok : AreBytes p.bytes
  pub slot_pos : 0 < p.slot_size
  pub slot_lt : p.slot_size < p.page_size

-- The flag of slot `s`: bit `s % 8` of the byte `s / 8` from the end.
unfoldable pub is_filled : Page → ℕ → Bool
is_filled p s = has_bit (get_or p.bytes (p.page_size - (s / 8 + 1)) 0) (s % 8)

mul_div_le : (a s : ℕ) → a / s * s ≤ a
mul_div_le a s = omega arith

-- The slots and the directory of a page share no byte, and fit it.
pub capacity_fits :
    (p : Page)
    → 0 < p.slot_size
    → fixed_len_page_capacity p * p.slot_size + ceil_eighths (fixed_len_page_capacity p)
      ≤ p.page_size
unfolding fixed_len_page_capacity
capacity_fits p h = fits p.page_size p.slot_size h
  where
    quotient_le : (a b s : ℕ) → a ≤ b → a / s ≤ b / s
    quotient_le a b s l = grind arith

    quotient_le_self : (a s : ℕ) → 0 < s → a / s ≤ a
    quotient_le_self a s l = grind arith

    fits :
        (a s : ℕ)
        → 0 < s
        → let d = ceil_eighths (a / s) in (a - d) / s * s + ceil_eighths ((a - d) / s) ≤ a
    fits a s l =
        let d = ceil_eighths (a / s) in
        omega (
          arith,
          mul_div_le (a - d) s,
          quotient_le (a - d) a s (omega arith),
          quotient_le_self a s l,
        )

-- The end of each slot comes before the byte of any flag.
pub slot_before_flag :
    (p : Page) (s t : ℕ)
    → 0 < p.slot_size
    → s < fixed_len_page_capacity p
    → t < fixed_len_page_capacity p
    → s * p.slot_size + p.slot_size + (t / 8 + 1) ≤ p.page_size
slot_before_flag p s t h hs ht = omega (
  arith,
  capacity_fits p h,
  mul_mono (s + 1) (fixed_len_page_capacity p) p.slot_size (omega arith),
)
  where
    mul_mono : (a b c : ℕ) → a ≤ b → a * c ≤ b * c
    mul_mono a b c l = grind arith

-- Two slots share no byte.
pub slots_apart : (s t n : ℕ) → s < t → s * n + n ≤ t * n
slots_apart s t n h = grind arith

pub get_or-lt : (l : List ℕ) (i : ℕ) → AreBytes l → get_or l i 0 < 256
get_or-lt [] i h = omega arith
get_or-lt (c ∷ l) zero h = h.0
get_or-lt (c ∷ l) (suc i) h = get_or-lt l i h.1

pub AreBytes-set : (l : List ℕ) (i v : ℕ) → AreBytes l → v < 256 → AreBytes (set l i v)
AreBytes-set [] i v h hv = tt
AreBytes-set (c ∷ l) zero v h hv = (hv, h.1)
AreBytes-set (c ∷ l) (suc i) v h hv = (h.0, AreBytes-set l i v h.1 hv)

pub AreBytes-splice :
    (l : List ℕ) (i : ℕ) (b : List ℕ) → AreBytes l → AreBytes b → AreBytes (splice l i b)
AreBytes-splice l i [] h hb = h
AreBytes-splice [] i (c ∷ b) h hb = tt
AreBytes-splice (x ∷ l) zero (c ∷ b) h hb = (hb.0, AreBytes-splice l zero b h.1 hb.1)
AreBytes-splice (x ∷ l) (suc i) (c ∷ b) h hb = (h.0, AreBytes-splice l i (c ∷ b) h.1 hb)

pub load_back-ok :
    (p : Page) (back : ℕ)
    → length p.bytes ≡ p.page_size
    → 0 < back
    → back ≤ p.page_size
    → load_back p back ≡ ok (get_or p.bytes (p.page_size - back) 0)
unfolding load_back
load_back-ok p back e h0 h =
    rw (le→leb back p.page_size h, get_elem?-get_or p.bytes (p.page_size - back) 0 (omega arith))
      refl

-- The byte of a flag can be read.
pub load_back-flag :
    (p : Page) (s back : ℕ)
    → IsPage p
    → s < fixed_len_page_capacity p
    → back ≡ s / 8 + 1
    → load_back p back ≡ ok (get_or p.bytes (p.page_size - (s / 8 + 1)) 0)
load_back-flag p s back v h e = rw e (
    load_back-ok p (s / 8 + 1) v.size (omega arith)
      (omega (arith, slot_before_flag p s s v.slot_pos h h)))

pub AreBytes-replicate : (n : ℕ) → AreBytes (replicate n 0)
AreBytes-replicate zero = tt
AreBytes-replicate (suc n) = (omega arith, AreBytes-replicate n)

get_or-replicate : (n i : ℕ) → get_or {A = ℕ} (replicate n 0) i 0 ≡ 0
get_or-replicate zero i = refl
get_or-replicate (suc n) zero = refl
get_or-replicate (suc n) (suc i) = get_or-replicate n i

bit_and-zero_pow : (k : ℕ) → bit_and 0 k ≡ 0
bit_and-zero_pow k = bit_and-bitwise 0 k

-- Initialising a page succeeds exactly if the slot size is positive and below the page size; it
-- then gives a page of the given sizes, with every flag cleared. Otherwise an assertion fails.
pub init_fixed_len_page-IsPage :
    (page_size slot_size : ℕ)
    → ((0 < slot_size) × (slot_size < page_size)
        → (p : Page) × (init_fixed_len_page page_size slot_size ≡ ok p)
          × IsPage p
          × (p.page_size ≡ page_size)
          × (p.slot_size ≡ slot_size)
          × ((s : ℕ) → is_filled p s ≡ false))
      × (¬ ((0 < slot_size) × (slot_size < page_size))
          → init_fixed_len_page page_size slot_size ≡ stop assert_failed)
unfolding init_fixed_len_page is_filled
init_fixed_len_page-IsPage page_size slot_size = (
  λ (h, k). (
    record { bytes = replicate page_size 0; page_size = page_size; slot_size = slot_size },
    rw (lt→ltb 0 slot_size h, lt→ltb slot_size page_size k) refl,
    record {
      size = length-replicate page_size;
      bytes_ok = AreBytes-replicate page_size;
      slot_pos = h;
      slot_lt = k;
    },
    refl,
    refl,
    λ s.
        rw (get_or-replicate page_size (page_size - (s / 8 + 1)), bit_and-zero_pow (2 ^ (s % 8)))
          refl,
  ),
  λ h. ground arith,
)
