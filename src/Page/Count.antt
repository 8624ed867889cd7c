-- ===== src/Page/Count.antt =====
-- `fixed_len_page_freeslots` counts the flags of the slots that are not set.
use native.Mathlib.Nat.{add_assoc, add-zero, zero-add, suc-add}
use database_assignments.Base.{
  ℕ, zero, suc, ◌+◌, ◌-◌, ◌*◌, ◌/◌, ◌%◌, ◌≤◌, ◌<◌, ◌≡◌, refl, ap, ◌⊎◌, inl, inr, Bool, false,
  Bool-cases, arith, ok, lt→ltb, le→ltb, if◌then◌else◌, get_or, min, bit_and,
}
use database_assignments.Base.Bits.{
  has_bit, shift_char, shift_char-lt, has_bit-shift_char, bit_and-one,
}
use database_assignments.Page.{
  Page, ceil_eighths, fixed_len_page_capacity, count_byte, count_bytes, fixed_len_page_freeslots,
}
use database_assignments.Page.Layout.{IsPage, is_filled, load_back-flag, get_or-lt, capacity_fits}

-- The number of `i` in `from .. from + n` with `f i`.
unfoldable pub count_true : (ℕ → Bool) → ℕ → ℕ → ℕ
count_true f zero from = 0
count_true f (suc n) from = (if f from then 1 else 0) + count_true f n (from + 1)

count_true-zero : (f : ℕ → Bool) (i : ℕ) → count_true f 0 i ≡ 0
unfolding count_true
count_true-zero f i = refl

pub count_true_ext :
    (f g : ℕ → Bool) (n i j : ℕ)
    → ((t : ℕ) → t < n → f (i + t) ≡ g (j + t))
    → count_true f n i ≡ count_true g n j
unfolding count_true
count_true_ext f g zero i j h = refl
count_true_ext f g (suc n) i j h =
    let h0 : f i ≡ g j = rw (add-zero i, add-zero j) at (h 0 (omega arith)) in
    let rest =
      count_true_ext f g n (i + 1) (j + 1)
        (λ t lt. rw (add_assoc i 1 t, add_assoc j 1 t) (h (1 + t) (omega arith))) in
    rw (h0, rest) refl

pub count_true-add :
    (f : ℕ → Bool) (a b i : ℕ) → count_true f (a + b) i ≡ count_true f a i + count_true f b (i + a)
unfolding count_true
count_true-add f zero b i = rw (zero-add b, add-zero i) (omega arith)
count_true-add f (suc a) b i =
    let e : i + 1 + a ≡ i + suc a = omega arith in
    rw suc-add (omega (arith, count_true-add f a b (i + 1), ap (λ (t : ℕ). count_true f b t) e))

pub count_true-le : (f : ℕ → Bool) (n i : ℕ) → count_true f n i ≤ n
unfolding count_true
count_true-le f zero i = omega arith
count_true-le f (suc n) i = ground (arith, count_true-le f n (i + 1))

has_bit-shift_from :
    (c m t : ℕ) → c < 256 → m ≤ 7 → t < m → has_bit (shift_char c) (0 + t) ≡ has_bit c (1 + t)
has_bit-shift_from c m t hc hm lt =
    let e : 1 + t ≡ suc t = omega arith in
    rw (zero-add t, e) (has_bit-shift_char c t hc (omega arith))

-- One byte: the flags of at most `rounds` slots, of those that are below the capacity.
count_byte-count_true :
    (rounds n c counter result m : ℕ)
    → c < 256
    → rounds ≤ 8
    → m ≡ min rounds (n - counter)
    → count_byte rounds n c counter result ≡ (counter + m, result + count_true (has_bit c) m 0)
unfolding count_byte count_true
count_byte-count_true zero n c counter result zero hc hr e = rw (add-zero, add-zero) refl
count_byte-count_true zero n c counter result (suc m) hc hr e = absurd (omega arith)
count_byte-count_true (suc rounds) n c counter result zero hc hr e =
    rw (le→ltb counter n (omega arith), add-zero, add-zero) refl
count_byte-count_true (suc rounds) n c counter result (suc m) hc hr e =
    let step =
      count_byte-count_true rounds n (shift_char c) (counter + 1) (result + bit_and c 1) m
        (shift_char-lt c hc) (omega arith) (omega arith) in
    let bits =
      count_true_ext (has_bit (shift_char c)) (has_bit c) m 0 1
        (λ t lt. has_bit-shift_from c m t hc (omega arith) lt) in
    let p : counter + 1 + m ≡ counter + suc m = omega arith in
    let q : result + bit_and c 1 + count_true (has_bit (shift_char c)) m 0
        ≡ result + ((if has_bit c 0 then 1 else 0) + count_true (has_bit c) m (0 + 1)) =
      omega (arith, bits, bit_and-one c hc) in
    rw (lt→ltb counter n (omega arith), step) (λ i. (p i, q i))

-- The flags of the slots `8 * j` to `8 * j + 7` are one byte.
pub is_filled-byte :
    (p : Page) (j t : ℕ)
    → t < 8
    → is_filled p (8 * j + t) ≡ has_bit (get_or p.bytes (p.page_size - (8 * j / 8 + 1)) 0) t
unfolding is_filled
is_filled-byte p j t h =
    let e : (8 * j + t) / 8 ≡ 8 * j / 8 = omega arith in
    let e' : (8 * j + t) % 8 ≡ t = omega arith in rw (e, e') refl

count_true_from :
    (f : ℕ → Bool) (n i j : ℕ) → (n ≡ 0) ⊎ (i ≡ j) → count_true f n i ≡ count_true f n j
unfolding count_true
count_true_from f n i j (inl e) = rw e refl
count_true_from f n i j (inr e) = rw e refl

-- The loop over the bytes, at the `j`th byte from the end.
count_bytes-count_true :
    (rounds i j : ℕ) (p : Page) (n counter result : ℕ)
    → IsPage p
    → n ≡ fixed_len_page_capacity p
    → i ≡ j + 1
    → rounds ≡ ceil_eighths n - j
    → counter ≡ min (8 * j) n
    → count_bytes rounds i p n counter result
      ≡ ok (result + count_true (is_filled p) (n - 8 * j) (8 * j))
unfolding count_bytes
count_bytes-count_true zero i j p n counter result v en ei er ec =
    let e : n - 8 * j ≡ 0 = omega arith in rw (e, count_true-zero) (ap ok (omega arith))
count_bytes-count_true (suc rounds) i j p n counter result v en ei er ec =
    let byte = get_or p.bytes (p.page_size - (8 * j / 8 + 1)) 0 in
    let m = min 8 (n - counter) in
    let load = load_back-flag p (8 * j) i v (omega arith) (omega arith) in
    let here =
      count_byte-count_true 8 n byte counter result m (get_or-lt p.bytes _ v.bytes_ok) (omega arith)
        refl in
    let next =
      count_bytes-count_true rounds (i + 1) (j + 1) p n (counter + m)
        (result + count_true (has_bit byte) m 0) v en (omega arith) (omega arith) (omega arith) in
    let split : n - 8 * j ≡ m + (n - 8 * (j + 1)) = omega arith in
    let flags =
      count_true_ext (is_filled p) (has_bit byte) m (8 * j) 0
        (λ t lt. rw (zero-add t) (is_filled-byte p j t (omega arith))) in
    let sides =
      count_true_from (is_filled p) (n - 8 * (j + 1)) (8 * j + m) (8 * (j + 1)) (omega arith) in
    rw (load, here, next, split)
      (ap ok
        (omega (arith, count_true-add (is_filled p) m (n - 8 * (j + 1)) (8 * j), flags, sides)))

-- The number of slots without a record.
unfoldable pub free_count : Page → ℕ
free_count p = fixed_len_page_capacity p - count_true (is_filled p) (fixed_len_page_capacity p) 0

-- The free slots are those whose flag is not set.
pub fixed_len_page_freeslots-count_true :
    (p : Page) → IsPage p → fixed_len_page_freeslots p ≡ ok (free_count p)
unfolding fixed_len_page_freeslots free_count
fixed_len_page_freeslots-count_true p v =
    let n = fixed_len_page_capacity p in
    let whole : n - 8 * 0 ≡ n = omega arith in
    let loop =
      count_bytes-count_true (ceil_eighths n) 1 0 p n 0 0 v refl refl (omega arith) (omega arith) in
    rw (loop, whole, zero-add) refl

pub capacity-le : (p : Page) → 0 < p.slot_size → fixed_len_page_capacity p ≤ p.page_size
capacity-le p h =
    let n = fixed_len_page_capacity p in
    at_most_product n p.slot_size p.page_size h (omega (arith, capacity_fits p h))
  where
    at_most_product : (a b n : ℕ) → 0 < b → a * b ≤ n → a ≤ n
    at_most_product a b n h k = grind arith

pub free_count-le : (p : Page) → IsPage p → free_count p ≤ p.page_size
unfolding free_count
free_count-le p v = let below = capacity-le p v.slot_pos in omega arith

count_true-less :
    (f : ℕ → Bool) (n i : ℕ)
    → count_true f n i < n
    → (t : ℕ) × (i ≤ t) × (t < i + n) × (f t ≡ false)
unfolding count_true
count_true-less f zero i h = absurd (omega arith)
count_true-less f (suc n) i h = elim (Bool-cases (f i)) [
  | inl e ↦
      let less : count_true f n (i + 1) < n =
        omega (arith, ap {B = ℕ} (λ b. if b then 1 else 0) e) in
      let (t, a, b, c) = count_true-less f n (i + 1) less in (t, omega arith, omega arith, c)
  | inr e ↦ (i, omega arith, omega arith, e)
]

-- Where the count is not zero there is a free slot.
pub free_count-free :
    (p : Page)
    → 0 < free_count p
    → (t : ℕ) × (t < fixed_len_page_capacity p) × (is_filled p t ≡ false)
unfolding free_count
free_count-free p h =
    let n = fixed_len_page_capacity p in
    let (t, _, b, c) = count_true-less (is_filled p) n 0 (omega arith) in (t, omega arith, c)
