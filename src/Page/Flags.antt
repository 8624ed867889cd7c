-- ===== src/Page/Flags.antt =====
-- What a write to the bytes of a page does to its flags.
use database_assignments.Base.{
  ℕ, ◌+◌, ◌-◌, ◌/◌, ◌%◌, ◌<◌, ◌≡◌, refl, ◌∙◌, Bool, true, false, List, arith, if◌then◌else◌, ◌==◌,
  length, get_or, set, get_or-set, Bool-cases, inl, inr, ==_iff,
}
use database_assignments.Base.Bits.{has_bit, set_bit, clear_bit, has_bit-set_bit, has_bit-clear_bit}
use database_assignments.Page.{Page, fixed_len_page_capacity}
use database_assignments.Page.Layout.{IsPage, is_filled, slot_before_flag, get_or-lt}

-- The index of the byte that holds the flag of slot `s`.
abbrev pub flag_byte : Page → ℕ → ℕ
flag_byte p s = p.page_size - (s / 8 + 1)

-- The page with other bytes, in which the byte of the flag of `s` is `v`.
abbrev pub with_flag : Page → List ℕ → ℕ → ℕ → Page
with_flag p mem s v = record p { bytes = set mem (flag_byte p s) v }

-- The memory `mem` has the flags of the page.
abbrev pub SameFlags : Page → List ℕ → Type 0
SameFlags p mem =
    (t : ℕ)
    → t < fixed_len_page_capacity p
    → get_or mem (flag_byte p t) 0 ≡ get_or p.bytes (flag_byte p t) 0

module _ (p : Page) (mem : List ℕ) (s t : ℕ) (v : IsPage p) (size : length mem ≡ p.page_size)
    (same : SameFlags p mem) (hs : s < fixed_len_page_capacity p)
    (ht : t < fixed_len_page_capacity p) where
  -- A flag is read from the new byte, or from an old one.
  is_filled-with_flag :
      (c : ℕ)
      → is_filled (with_flag p mem s c) t
        ≡ (if s / 8 == t / 8 then has_bit c (t % 8) else is_filled p t)
  unfolding is_filled
  is_filled-with_flag c =
      let hs' = slot_before_flag p s s v.slot_pos hs hs in
      let ht' = slot_before_flag p t t v.slot_pos ht ht in
      let read = get_or-set mem (flag_byte p s) (flag_byte p t) c 0 (omega arith) in
      elim (Bool-cases (s / 8 == t / 8)) [
        | inl e ↦
            let there : get_or (set mem (flag_byte p s) c) (flag_byte p t) 0 ≡ c =
              ground (arith, read) in
            rw (there, e) refl
        | inr e ↦
            let there : get_or (set mem (flag_byte p s) c) (flag_byte p t) 0
                ≡ get_or p.bytes (flag_byte p t) 0 =
              ground (arith, read, same t ht) in
            rw (there, e) refl
      ]

  abbrev old_byte : ℕ
  old_byte = get_or p.bytes (flag_byte p s) 0

  old_flag : (s / 8 == t / 8) ≡ true → has_bit old_byte (t % 8) ≡ is_filled p t
  unfolding is_filled
  old_flag e = let d : s / 8 ≡ t / 8 = (==_iff _ _).0 e in rw d refl

  -- An operation on the old byte that moves its bit `s % 8` to `b` moves the flag of `s`.
  is_filled-update :
      (b : Bool) (c : ℕ)
      → has_bit c (t % 8) ≡ (if s % 8 == t % 8 then b else has_bit old_byte (t % 8))
      → is_filled (with_flag p mem s c) t ≡ (if s == t then b else is_filled p t)
  is_filled-update b c h = is_filled-with_flag c ∙ (elim (Bool-cases (s / 8 == t / 8)) [
    | inl e ↦
        let d : s / 8 ≡ t / 8 = (==_iff _ _).0 e in
        let bits : (s % 8 == t % 8) ≡ (s == t) = ground arith in rw (e, h, bits, old_flag e) refl
    | inr e ↦ let ne : (s == t) ≡ false = ground arith in rw (e, ne) refl
  ])

  -- `|= 1 << (s % 8)`
  pub is_filled-set_flag :
      is_filled (with_flag p mem s (set_bit old_byte (s % 8))) t
      ≡ (if s == t then true else is_filled p t)
  is_filled-set_flag = is_filled-update true (set_bit old_byte (s % 8)) (
      has_bit-set_bit old_byte (s % 8) (t % 8) (get_or-lt p.bytes _ v.bytes_ok) (omega arith)
        (omega arith))

  -- `&= ~(1 << (s % 8))`
  pub is_filled-clear_flag :
      is_filled (with_flag p mem s (clear_bit old_byte (s % 8))) t
      ≡ (if s == t then false else is_filled p t)
  is_filled-clear_flag = is_filled-update false (clear_bit old_byte (s % 8)) (
      has_bit-clear_bit old_byte (s % 8) (t % 8) (get_or-lt p.bytes _ v.bytes_ok) (omega arith)
        (omega arith))
