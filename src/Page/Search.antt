-- ===== src/Page/Search.antt =====
-- `add_fixed_len_page` takes the first slot whose flag is not set, and `get_next_filled_slot`
-- finds the first slot after a given one whose flag is set.
use native.Mathlib.Nat.{add_assoc, add-zero, zero-add, suc-add}
use native.Mathlib.Decide.{ℕ_discrete}
use mathlib.Core.Bool.{not}
use database_assignments.Base.{
  ℕ, zero, suc, ◌+◌, ◌-◌, ◌*◌, ◌/◌, ◌≤◌, ◌<◌, ◌≡◌, ◌↔◌, refl, sym, ap, ◌∙◌, ◌⊎◌, inl, inr, Bool,
  true, false, Option, none, some, arith, ok, ok_injective, lt→ltb, le→ltb, if◌then◌else◌, get_or,
  min, Bool-cases, Option-cases,
}
use database_assignments.Base.Bits.{has_bit, shift_char, shift_char-lt, has_bit-shift_char}
use database_assignments.Page.{
  Page, ceil_eighths, fixed_len_page_capacity, find_in_byte, find_in_bytes, next_filled,
  get_next_filled_slot, after,
}
use database_assignments.Page.Layout.{IsPage, is_filled, load_back-flag, get_or-lt}
use database_assignments.Page.Count.{is_filled-byte}

-- The first `i` in `from .. from + n` with `f i`.
unfoldable pub first : (ℕ → Bool) → ℕ → ℕ → Option ℕ
first f zero from = none
first f (suc n) from = if f from then some from else first f n (from + 1)

-- A result is in range, satisfies the test, and nothing before it does.
pub first-some :
    (f : ℕ → Bool) (n from s : ℕ)
    → first f n from ≡ some s
    → (from ≤ s) × (s < from + n) × (f s ≡ true) × ((t : ℕ) → from ≤ t → t < s → f t ≡ false)
unfolding first
first-some f zero from s e = absurd (cc e)
first-some f (suc n) from s e = elim (Bool-cases (f from)) [
  | inl y ↦
      let d : from ≡ s = ground arith in
      (omega arith, omega arith, rw (← d) y, λ t p q. absurd (omega arith))
  | inr z ↦
      let (a, b, c, d) = first-some f n (from + 1) s (rw z at e) in
      (
        omega arith,
        omega arith,
        c,
        λ t p q. elim (ℕ_discrete t from) [ yes w ↦ rw w z | no w ↦ d t (omega arith) q ],
      )
]

pub first-none :
    (f : ℕ → Bool) (n from : ℕ)
    → first f n from ≡ none
    → (t : ℕ) → from ≤ t
    → t < from + n
    → f t ≡ false
unfolding first
first-none f zero from e t h k = absurd (omega arith)
first-none f (suc n) from e t h k = elim (Bool-cases (f from)) [
  | inl y ↦ absurd (cc (rw y at e))
  | inr z ↦ elim (ℕ_discrete t from) [
    | yes w ↦ rw w z
    | no w ↦ first-none f n (from + 1) (rw z at e) t (omega arith) (omega arith)
  ]
]

-- The converse: the first place where the test holds is the result.
pub first_is :
    (f : ℕ → Bool) (n from s : ℕ)
    → from ≤ s
    → s < from + n
    → f s ≡ true
    → ((t : ℕ) → from ≤ t → t < s → f t ≡ false)
    → first f n from ≡ some s
unfolding first
first_is f zero from s h k y z = absurd (omega arith)
first_is f (suc n) from s h k y z = elim (ℕ_discrete from s) [
  | yes w ↦ rw (w, y) refl
  | no w ↦
      rw (z from (omega arith) (omega arith))
        (first_is f n (from + 1) s (omega arith) (omega arith) y (λ t p q. z t (omega arith) q))
]

pub first_is_none :
    (f : ℕ → Bool) (n from : ℕ)
    → ((t : ℕ) → from ≤ t → t < from + n → f t ≡ false)
    → first f n from ≡ none
unfolding first
first_is_none f zero from z = refl
first_is_none f (suc n) from z =
    rw (z from (omega arith) (omega arith))
      (first_is_none f n (from + 1) (λ t p q. z t (omega arith) (omega arith)))

first_ext :
    (f g : ℕ → Bool) (n from : ℕ)
    → ((t : ℕ) → t < n → f (from + t) ≡ g (from + t))
    → first f n from ≡ first g n from
unfolding first
first_ext f g zero from h = refl
first_ext f g (suc n) from h =
    let here : f from ≡ g from = rw (add-zero from) at (h 0 (omega arith)) in
    let rest =
      first_ext f g n (from + 1) (λ t lt. rw (add_assoc from 1 t) (h (1 + t) (omega arith))) in
    rw (here, rest) refl

abbrev or_else : Option ℕ → Option ℕ → Option ℕ
or_else (some s) o = some s
or_else none o = o

-- A search over two ranges in turn.
first-add :
    (f : ℕ → Bool) (a b from : ℕ)
    → first f (a + b) from ≡ or_else (first f a from) (first f b (from + a))
unfolding first
first-add f zero b from = rw (zero-add b, add-zero from) refl
first-add f (suc a) b from = elim (Bool-cases (f from)) [
  | inl y ↦ rw (suc-add, y) refl
  | inr z ↦
      let e : from + 1 + a ≡ from + suc a = omega arith in
      rw (suc-add, z, ← e) (first-add f a b (from + 1))
]

-- The search in one byte, where bit `t` of `c` belongs to the slot `counter + t`.
find_in_byte-first :
    (rounds n c counter m : ℕ) (f : ℕ → Bool)
    → c < 256
    → rounds ≤ 8
    → m ≡ min rounds (n - counter)
    → ((t : ℕ) → t < m → has_bit c t ≡ not (f (counter + t)))
    → ((find_in_byte rounds n c counter).1 ≡ first f m counter)
      × ((find_in_byte rounds n c counter).1 ≡ none
          → (find_in_byte rounds n c counter).0 ≡ counter + m)
unfolding find_in_byte first
find_in_byte-first zero n c counter zero f hc hr e h = (refl, λ _. omega arith)
find_in_byte-first zero n c counter (suc m) f hc hr e h = absurd (omega arith)
find_in_byte-first (suc rounds) n c counter zero f hc hr e h =
    rw (le→ltb counter n (omega arith)) (refl, λ _. omega arith)
find_in_byte-first (suc rounds) n c counter (suc m) f hc hr e h =
    let ih =
      find_in_byte-first rounds n (shift_char c) (counter + 1) m f (shift_char-lt c hc)
        (omega arith) (omega arith)
        (λ t lt.
          rw (has_bit-shift_char c t hc (omega arith), add_assoc counter 1 t)
            (let w : 1 + t ≡ suc t = omega arith in rw w (h (suc t) (omega arith)))) in
    let here : has_bit c 0 ≡ not (f counter) = rw (add-zero counter) at (h 0 (omega arith)) in
    let less = lt→ltb counter n (omega arith) in
    elim (Bool-cases (f counter)) [
      | inl y ↦ rw (less, here, y) (refl, λ e. absurd (cc e))
      | inr z ↦ rw (less, here, z) (ih.0, λ e. ih.1 e ∙ omega arith)
    ]

-- A slot is free if its flag is not set.
abbrev pub is_free : Page → ℕ → Bool
is_free p s = not (is_filled p s)

first_at : (f : ℕ → Bool) (n i j : ℕ) → (n ≡ 0) ⊎ (i ≡ j) → first f n i ≡ first f n j
unfolding first
first_at f n i j (inl e) = rw e refl
first_at f n i j (inr e) = rw e refl

not-not : (b : Bool) → b ≡ not (not b)
not-not true = refl
not-not false = refl

-- The search in the bytes from the `j`th byte from the end on.
find_in_bytes-first :
    (rounds i j : ℕ) (p : Page) (n counter : ℕ)
    → IsPage p
    → n ≡ fixed_len_page_capacity p
    → i ≡ j + 1
    → rounds ≡ ceil_eighths n - j
    → counter ≡ min (8 * j) n
    → find_in_bytes rounds i p n counter ≡ ok (first (is_free p) (n - 8 * j) (8 * j))
unfolding find_in_bytes first
find_in_bytes-first zero i j p n counter v en ei er ec =
    let e : n - 8 * j ≡ 0 = omega arith in rw e refl
find_in_bytes-first (suc rounds) i j p n counter v en ei er ec =
    let byte = get_or p.bytes (p.page_size - (8 * j / 8 + 1)) 0 in
    let m = min 8 (n - counter) in
    let at : counter ≡ 8 * j = omega arith in
    let split : n - 8 * j ≡ m + (n - 8 * (j + 1)) = omega arith in
    let load = load_back-flag p (8 * j) i v (omega arith) (omega arith) in
    let here =
      find_in_byte-first 8 n byte counter m (is_free p) (get_or-lt p.bytes _ v.bytes_ok)
        (omega arith) refl
        (λ t lt. rw (at, is_filled-byte p j t (omega arith)) (not-not (has_bit byte t))) in
    let sides = first_at (is_free p) (n - 8 * (j + 1)) (8 * j + m) (8 * (j + 1)) (omega arith) in
    let place : first (is_free p) m (8 * j) ≡ (find_in_byte 8 n byte counter).1 =
      sym (here.0 ∙ ap (first (is_free p) m) at) in
    let next =
      find_in_bytes-first rounds (i + 1) (j + 1) p n (counter + m) v en (omega arith) (omega arith)
        (omega arith) in
    rw (load, split, first-add (is_free p) m (n - 8 * (j + 1)) (8 * j))
      (elim (Option-cases (find_in_byte 8 n byte counter).1) [
        | inl e ↦ rw (e, here.1 e, next, place ∙ e, sides) refl
        | inr (s, e) ↦ rw (e, place ∙ e) refl
      ])

-- The slot that `add_fixed_len_page` takes.
pub find_free :
    (p : Page)
    → IsPage p
    → let n = fixed_len_page_capacity p in
      find_in_bytes (ceil_eighths n) 1 p n 0 ≡ ok (first (is_free p) n 0)
find_free p v =
    let n = fixed_len_page_capacity p in
    let whole : n - 8 * 0 ≡ n = omega arith in
    rw whole at
      (find_in_bytes-first (ceil_eighths n) 1 0 p n 0 v refl refl (omega arith) (omega arith))

next_filled-first :
    (rounds : ℕ) (p : Page) (slot : ℕ)
    → IsPage p
    → rounds ≡ fixed_len_page_capacity p - slot
    → next_filled rounds p slot ≡ ok (first (is_filled p) rounds slot)
unfolding next_filled first is_filled
next_filled-first zero p slot v e = refl
next_filled-first (suc rounds) p slot v e =
    let load = load_back-flag p slot (1 + slot / 8) v (omega arith) (omega arith) in
    let rest = next_filled-first rounds p (slot + 1) v (omega arith) in
    rw (load, rest) (ground arith)

pub get_next_filled_slot-ok :
    (p : Page) (slot : Option ℕ)
    → IsPage p
    → get_next_filled_slot p slot
      ≡ ok (first (is_filled p) (fixed_len_page_capacity p - after slot) (after slot))
unfolding get_next_filled_slot
get_next_filled_slot-ok p slot v =
    next_filled-first (fixed_len_page_capacity p - after slot) p (after slot) v refl

-- The call returns a slot exactly if that slot is the first one after `slot`, below the capacity,
-- whose flag is set; it returns -1 exactly if there is none.
pub get_next_filled_slot-first :
    (p : Page) (slot : Option ℕ)
    → IsPage p
    → ((s : ℕ)
        → (get_next_filled_slot p slot ≡ ok (some s)) ↔ (
            (after slot ≤ s)
            × (s < fixed_len_page_capacity p)
            × (is_filled p s ≡ true)
            × ((t : ℕ) → after slot ≤ t → t < s → is_filled p t ≡ false)))
      × ((get_next_filled_slot p slot ≡ ok none)
          ↔ ((t : ℕ) → after slot ≤ t → t < fixed_len_page_capacity p → is_filled p t ≡ false))
unfolding get_next_filled_slot
get_next_filled_slot-first p slot v =
    let a = after slot in
    let n = fixed_len_page_capacity p in
    let f = is_filled p in
    let loop = next_filled-first (n - a) p a v refl in
    (
      λ s. (
        λ e.
            let (u, w, x, y) = first-some f (n - a) a s (ok_injective (sym loop ∙ e)) in
            (u, omega arith, x, y),
        λ (u, w, x, y). loop ∙ ap ok (first_is f (n - a) a s u (omega arith) x y),
      ),
      (
        λ e t h k. first-none f (n - a) a (ok_injective (sym loop ∙ e)) t h (omega arith),
        λ z. loop ∙ ap ok (first_is_none f (n - a) a (λ t h k. z t h (omega arith))),
      ),
    )
