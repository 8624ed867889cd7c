-- ===== src/Page/Store.antt =====
-- The operations of a page against its contents: each changes the slot that it is about, and
-- leaves the records of all other slots as they were.
use database_assignments.Base.{
  ℕ, ◌+◌, ◌*◌, ◌/◌, ◌%◌, ◌≤◌, ◌<◌, ◌≡◌, ◌≢◌, refl, sym, ◌∙◌, ◌⊎◌, inl, inr, Bool, true, false, not,
  Option, none, some, arith, Run, ok, if◌then◌else◌, ◌==◌, ==_iff, length, get_or, length-set,
  Bool-cases, Option-cases,
}
use database_assignments.Base.Bits.{clear_bit, clear_bit-lt}
use database_assignments.Record.{attribute_size, Record}
use database_assignments.Record.Laws.{clean}
use database_assignments.Page.{
  Page, fixed_len_page_capacity, write_fixed_len_page, add_fixed_len_page, delete_fixed_len_page,
}
use database_assignments.Page.Layout.{IsPage, is_filled, load_back-flag, get_or-lt, AreBytes-set}
use database_assignments.Page.Flags.{flag_byte, with_flag, is_filled-set_flag, is_filled-clear_flag}
use database_assignments.Page.Search.{first, first-some, first-none, is_free, find_free}
use database_assignments.Page.Slots.{
  IsStorable, contents, SameShape, SameShape-with, capacity_with, read_ext, before_flag,
  read-fixed_len_read, record_bytes, record_bytes-size, record_bytes-SameFlags, written,
  write-written, written-IsPage, read-written_self, read-written_other,
}

-- `q` is `p` with one slot given another content.
pub record Updates (places : Record) (p q : Page) (s : ℕ) (c : Option (Run Record)) : Type 0 where
  pub is_page : IsPage q
  pub shape : SameShape p q
  pub slots :
      (t : ℕ)
      → t < fixed_len_page_capacity p
      → contents places q t ≡ (if s == t then c else contents places p t)

module _ (places : Record) (p : Page) (s : ℕ) where
  -- Writing a storable record to a slot of a page succeeds. The page that results is valid, has
  -- the old sizes, holds the record, cut to ten bytes an attribute, in that slot, and in every
  -- other slot what it held before.
  pub write_fixed_len_page-Updates :
      (r : Record)
      → IsPage p
      → s < fixed_len_page_capacity p
      → IsStorable p r
      → length places ≡ length r
      → (q : Page) × (write_fixed_len_page p s r ≡ ok q)
        × Updates places p q s (some (ok (clean r)))
  write_fixed_len_page-Updates r v hs st e =
      let q = written p s r v hs st in
      let flag = λ (t : ℕ) (ht : t < fixed_len_page_capacity p).
        is_filled-set_flag p (record_bytes p s r v hs st) s t v (record_bytes-size p s r v hs st)
          (record_bytes-SameFlags p s r v hs st) hs ht in
      (
        q,
        write-written p s r v hs st,
        record {
          is_page = written-IsPage p s r v hs st;
          shape = SameShape-with p q.bytes;
          slots = λ t ht. elim (Bool-cases (s == t)) [
            | inl y ↦
                let d : s ≡ t = (==_iff s t).0 y in
                let set : is_filled q t ≡ true = flag t ht ∙ rw y refl in
                rw (y, set, ← d, read-written_self p s r v hs st places e) refl
            | inr z ↦
                let ne : s ≢ t = λ d. cc (sym z ∙ (==_iff s t).1 d) in
                let kept : is_filled q t ≡ is_filled p t = flag t ht ∙ rw z refl in
                rw (z, kept, read-written_other p s r v hs st places t e ht ne) refl
          ];
        },
      )

  -- Deleting a slot of a page succeeds, empties that slot, and leaves all others as they were.
  pub delete_fixed_len_page-Updates :
      IsPage p
      → s < fixed_len_page_capacity p
      → length places * attribute_size ≤ p.slot_size
      → (q : Page) × (delete_fixed_len_page p s ≡ ok q) × Updates places p q s none
  unfolding delete_fixed_len_page
  delete_fixed_len_page-Updates v hs fits =
      let c = clear_bit (get_or p.bytes (flag_byte p s) 0) (s % 8) in
      let q = with_flag p p.bytes s c in
      let load = load_back-flag p s ((s + 1 + 7) / 8) v hs (omega arith) in
      let back : (s + 1 + 7) / 8 ≡ s / 8 + 1 = omega arith in
      let is_page : IsPage q = record {
        size = length-set p.bytes (flag_byte p s) c ∙ v.size;
        bytes_ok =
            AreBytes-set p.bytes (flag_byte p s) c v.bytes_ok
              (clear_bit-lt _ (s % 8) (get_or-lt p.bytes _ v.bytes_ok) (omega arith));
        slot_pos = v.slot_pos;
        slot_lt = v.slot_lt;
      } in
      let flag = λ (t : ℕ) (ht : t < fixed_len_page_capacity p).
        is_filled-clear_flag p p.bytes s t v v.size (λ t ht. refl) hs ht in
      (
        q,
        rw (load, back) refl,
        record {
          is_page = is_page;
          shape = SameShape-with p q.bytes;
          slots = λ t ht. elim (Bool-cases (s == t)) [
            | inl y ↦
                let cleared : is_filled q t ≡ false = flag t ht ∙ rw y refl in rw (y, cleared) refl
            | inr z ↦
                let kept : is_filled q t ≡ is_filled p t = flag t ht ∙ rw z refl in
                let same =
                  read-fixed_len_read places q t is_page (rw capacity_with ht)
                  ∙ read_ext places q.bytes p.bytes (t * p.slot_size) p.slot_size fits
                      (λ i a b. before_flag p p.bytes s t i c v v.size hs ht b)
                  ∙ sym (read-fixed_len_read places p t v ht) in
                rw (z, kept, same) refl
          ];
        },
      )

module _ (places : Record) (p : Page) (r : Record) where
  -- Adding a storable record: if every slot of the page is taken, the result is -1 and the page
  -- stays as it is. Otherwise the record goes to the first free slot, whose number is the result,
  -- and all other slots stay as they were.
  pub add_fixed_len_page-Updates :
      IsPage p
      → IsStorable p r
      → length places ≡ length r
      → (((t : ℕ) → t < fixed_len_page_capacity p → is_filled p t ≡ true)
          × (add_fixed_len_page p r ≡ ok (p, none)))
        ⊎ ((s : ℕ) × (q : Page) × (s < fixed_len_page_capacity p)
            × (is_filled p s ≡ false)
            × ((t : ℕ) → t < s → is_filled p t ≡ true)
            × (add_fixed_len_page p r ≡ ok (q, some s))
            × Updates places p q s (some (ok (clean r))))
  unfolding add_fixed_len_page
  add_fixed_len_page-Updates v st e =
      let n = fixed_len_page_capacity p in
      elim (Option-cases (first (is_free p) n 0)) [
        | inl z ↦ inl (
          λ t ht.
              not_free (is_filled p t) (first-none (is_free p) n 0 z t (omega arith) (omega arith)),
          rw (find_free p v, z) refl,
        )
        | inr (s, y) ↦
            let (a, b, c, d) = first-some (is_free p) n 0 s y in
            let (q, w, u) = write_fixed_len_page-Updates places p s r v (omega arith) st e in
            inr (
              s,
              q,
              omega arith,
              free (is_filled p s) c,
              λ t ht. not_free (is_filled p t) (d t (omega arith) ht),
              rw (find_free p v, y, w) refl,
              u,
            )
      ]
    where
      not_free : (b : Bool) → not b ≡ false → b ≡ true
      not_free true h = refl
      not_free false h = sym h

      free : (b : Bool) → not b ≡ true → b ≡ false
      free true h = sym h
      free false h = refl
