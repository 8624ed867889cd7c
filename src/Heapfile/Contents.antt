-- ===== src/Heapfile/Contents.antt =====
-- A heap file of a1/heapfile.cpp as a map from pages and slots to records.
use database_assignments.Base.{
  ℕ, ◌≤◌, ◌<◌, ◌≡◌, ◌≢◌, refl, sym, ap, ◌∙◌, ◌⊎◌, inl, inr, false, ◌&&◌, Option, none, some, arith,
  Run, ok, stop, Bool-cases, ltb, ltb→lt, ltb→le, lt→ltb, le→ltb, if◌then◌else◌, ◌==◌,
}
use database_assignments.Record.{Record}
use database_assignments.Page.{Page, fixed_len_page_capacity, read_fixed_len_page}
use database_assignments.Page.Layout.{is_filled}
use database_assignments.Page.Slots.{contents}
use database_assignments.Heapfile.{RecordId, Heapfile}
use database_assignments.Heapfile.Entries.{resolve}
use database_assignments.Heapfile.Coherence.{page_of, SamePages}
use database_assignments.Heapfile.Cache.{page_of_sizes}
use database_assignments.Heapfile.Store.{IsValid, Puts}
use database_assignments.Heapfile.Allocating.{blank_page}

-- The number of slots of every page.
abbrev pub slots_of : Heapfile → ℕ
slots_of h = fixed_len_page_capacity (blank_page h.page_size h.slot_size)

abbrev pub found_at : Record → Heapfile → ℕ → ℕ → Run ℕ → Option (Run Record)
found_at places h q t (ok off) =
    if ltb t (slots_of h) then contents places (page_of h q off) t else none
found_at places h q t (stop e) = none

-- The record in the slot `t` of the page `q`: none, or what reading it gives.
unfoldable pub record_at : Record → Heapfile → ℕ → ℕ → Option (Run Record)
record_at places h q t = found_at places h q t (resolve h q)

capacity_of_sizes :
    (p q : Page)
    → p.page_size ≡ q.page_size
    → p.slot_size ≡ q.slot_size
    → fixed_len_page_capacity p ≡ fixed_len_page_capacity q
unfolding fixed_len_page_capacity
capacity_of_sizes p q a b = rw (a, b) refl

pub capacity-slots_of :
    (h : Heapfile) (q o : ℕ) → IsValid h → fixed_len_page_capacity (page_of h q o) ≡ slots_of h
capacity-slots_of h q o v =
    let (a, b) = page_of_sizes h q o v.coherent.cache in
    capacity_of_sizes (page_of h q o) (blank_page h.page_size h.slot_size) a b

module _ (places : Record) (h : Heapfile) (q t : ℕ) where
  pub record_at-stored :
      (off : ℕ)
      → resolve h q ≡ ok off
      → t < slots_of h
      → record_at places h q t ≡ contents places (page_of h q off) t
  unfolding record_at
  record_at-stored off r lt =
      ap (found_at places h q t) r
      ∙ ap (λ b. if b then contents places (page_of h q off) t else none) (lt→ltb t (slots_of h) lt)

  pub record_at-beyond : slots_of h ≤ t → record_at places h q t ≡ none
  unfolding record_at
  record_at-beyond le = by_page (resolve h q)
    where
      by_page : (m : Run ℕ) → found_at places h q t m ≡ none
      by_page (ok off) =
          ap (λ b. if b then contents places (page_of h q off) t else none)
            (le→ltb t (slots_of h) le)
      by_page (stop x) = refl

  pub record_at-missing : ((o : ℕ) → resolve h q ≢ ok o) → record_at places h q t ≡ none
  unfolding record_at
  record_at-missing missing = by_page (resolve h q) refl
    where
      by_page : (m : Run ℕ) → resolve h q ≡ m → found_at places h q t m ≡ none
      by_page (ok off) e = absurd (missing off e)
      by_page (stop x) e = refl

-- A page has an entry or not.
pub page_cases :
    (h : Heapfile) (q : ℕ) → ((o : ℕ) × (resolve h q ≡ ok o)) ⊎ ((o : ℕ) → resolve h q ≢ ok o)
page_cases h q = by_page (resolve h q) refl
  where
    by_page :
        (m : Run ℕ)
        → resolve h q ≡ m
        → ((o : ℕ) × (resolve h q ≡ ok o)) ⊎ ((o : ℕ) → resolve h q ≢ ok o)
    by_page (ok off) e = inl (off, e)
    by_page (stop x) e = inr (λ o r. cc (sym e ∙ r))

-- The same pages have the same records.
pub SamePages-record_at :
    (places : Record) (h h' : Heapfile) (q t : ℕ)
    → IsValid h
    → IsValid h'
    → SamePages h h'
    → record_at places h' q t ≡ record_at places h q t
SamePages-record_at places h h' q t v v' same = elim (page_cases h q) [
  | inr missing ↦
      record_at-missing places h' q t (λ o r. missing o (sym (same.entries q) ∙ r))
      ∙ sym (record_at-missing places h q t missing)
  | inl (o, r) ↦
      let page = same.pages q o r in
      let slots : slots_of h' ≡ slots_of h =
        sym (capacity-slots_of h' q o v')
        ∙ ap (λ p. fixed_len_page_capacity p) page
        ∙ capacity-slots_of h q o v in
      elim (Bool-cases (ltb t (slots_of h))) [
        | inl lt ↦
            let below = ltb→lt t (slots_of h) lt in
            record_at-stored places h' q t o (same.entries q ∙ r) (omega (arith, slots, below))
            ∙ ap (λ p. contents places p t) page
            ∙ sym (record_at-stored places h q t o r below)
        | inr ge ↦
            let le = ltb→le t (slots_of h) ge in
            record_at-beyond places h' q t (omega (arith, slots, le))
            ∙ sym (record_at-beyond places h q t le)
      ]
]

-- A page without a record.
pub contents_free :
    (places : Record) (p : Page) (t : ℕ) → is_filled p t ≡ false → contents places p t ≡ none
contents_free places p t e = ap (λ b. if b then some (read_fixed_len_page p t places) else none) e

module _ (places : Record) (h h' : Heapfile) (rid : RecordId) (off : ℕ) (c : Option (Run Record))
    (v : IsValid h) (r : resolve h rid.page_id ≡ ok off) (below : rid.slot < slots_of h)
    (p : Puts places h h' rid c) (sizes : slots_of h' ≡ slots_of h) where
  abbrev after_put : ℕ → ℕ → Option (Run Record)
  after_put q t = if q == rid.page_id && rid.slot == t then c else record_at places h q t

  not_hit :
      (q t : ℕ) → ¬ ((q ≡ rid.page_id) × (rid.slot ≡ t)) → after_put q t ≡ record_at places h q t
  not_hit q t miss =
      let differ : (q == rid.page_id && rid.slot == t) ≡ false = ground arith in
      ap (λ b. if b then c else record_at places h q t) differ

  in_page :
      (q t o : ℕ) → resolve h q ≡ ok o → t < slots_of h → record_at places h' q t ≡ after_put q t
  in_page q t o rq lt =
      record_at-stored places h' q t o (p.entries q ∙ rq) (omega (arith, sizes, lt))
      ∙ p.records q t o rq (omega (arith, capacity-slots_of h q o v, lt))
      ∙ ap (λ d. if q == rid.page_id && rid.slot == t then c else d)
          (sym (record_at-stored places h q t o rq lt))

  -- One place of the map is changed, and no other.
  pub record_at-Puts : (q t : ℕ) → record_at places h' q t ≡ after_put q t
  record_at-Puts q t = elim (Bool-cases (ltb t (slots_of h))) [
    | inl lt ↦ elim (page_cases h q) [
      | inl (o, rq) ↦ in_page q t o rq (ltb→lt t (slots_of h) lt)
      | inr missing ↦
          record_at-missing places h' q t (λ o r'. missing o (sym (p.entries q) ∙ r'))
          ∙ sym (record_at-missing places h q t missing)
          ∙ sym (not_hit q t (λ w. missing off (ap (resolve h) w.0 ∙ r)))
    ]
    | inr ge ↦
        let le = ltb→le t (slots_of h) ge in
        record_at-beyond places h' q t (omega (arith, sizes, le))
        ∙ sym (record_at-beyond places h q t le)
        ∙ sym (not_hit q t (λ w. omega (arith, w.1, below, le)))
  ]
