-- ===== src/Heapfile/Enumeration.antt =====
-- A record iterator of a1/heapfile.cpp comes to every record of the heap file.
use native.Mathlib.Decide.{ℕ_discrete}
use database_assignments.Base.{
  ℕ, zero, suc, ◌-◌, ◌≤◌, ◌<◌, ◌≡◌, refl, sym, ap, subst, ◌∙◌, ◌⊎◌, inl, inr, Bool, none, some,
  arith, ok, ok_injective,
}
use database_assignments.Page.{fixed_len_page_capacity, after}
use database_assignments.Heapfile.{Heapfile}
use database_assignments.Heapfile.Entries.{resolve}
use database_assignments.Heapfile.Coherence.{page_of, SamePages}
use database_assignments.Heapfile.Store.{IsValid}
use database_assignments.Heapfile.Iterator.{RecordIterator, increment_iterator, new_iterator}
use database_assignments.Heapfile.Visits.{HasPages, HasPages-kept, IsLater, IsBefore, Found}
use database_assignments.Heapfile.Moves.{increment_iterator-Moves}
use database_assignments.Heapfile.Places.{
  IsRecord, IsRecord-kept, not_among, Compared, met, passed, ahead, places-Compared,
}

-- Moves of the iterator bring it to the slot `t` of the page `q`.
pub data Visits (q t : ℕ) : Heapfile → RecordIterator → Type 0 where
  here : (h : Heapfile) (it : RecordIterator) → it.pid ≡ q → it.slot ≡ some t → Visits q t h it
  there :
      (h h' : Heapfile) (it it' : RecordIterator)
      → increment_iterator h it ≡ ok (h', it')
      → Visits q t h' it'
      → Visits q t h it

-- The slots of the iterator's page that are still ahead of it.
abbrev SlotsLeft : Heapfile → RecordIterator → ℕ → Type 0
SlotsLeft h it m =
    (off : ℕ)
    → resolve h it.pid ≡ ok off
    → fixed_len_page_capacity (page_of h it.pid off) - after it.slot ≤ m

module _ (n q t off : ℕ) where
  -- The slot is reached by an iterator that has so many pages to go, and slots of its page.
  abbrev Reaches : ℕ → ℕ → Type 0
  Reaches pages slots =
      (h : Heapfile) (it : RecordIterator)
      → IsValid h
      → HasPages h n
      → IsRecord h n q t off
      → IsLater it q t
      → q - it.pid ≤ pages
      → SlotsLeft h it slots
      → Visits q t h it

  -- By an iterator with a page less to go, or on the same page with a slot less.
  abbrev PagesBelow : ℕ → Type 0
  PagesBelow zero = Unit
  PagesBelow (suc pages) = (slots : ℕ) → Reaches pages slots

  abbrev SlotsBelow : ℕ → ℕ → Type 0
  SlotsBelow pages zero = Unit
  SlotsBelow pages (suc slots) = Reaches pages slots

  from_later_page :
      (pages : ℕ)
      → PagesBelow pages
      → (h : Heapfile) (it : RecordIterator) → IsValid h
      → HasPages h n
      → IsRecord h n q t off
      → IsLater it q t
      → it.pid < n
      → q - it.pid < pages
      → Visits q t h it
  from_later_page zero b h it v p r later lt d = absurd (omega arith)
  from_later_page (suc pages) b h it v p r later lt d =
      let (o, ro) = p.stored it.pid lt in
      b (fixed_len_page_capacity (page_of h it.pid o) - after it.slot) h it v p r later
        (omega arith)
        (λ o' ro'.
          subst
            (λ w.
              fixed_len_page_capacity (page_of h it.pid w) - after it.slot
              ≤ fixed_len_page_capacity (page_of h it.pid o) - after it.slot)
            (ok_injective (sym ro ∙ ro')) (omega arith))

  from_later_slot :
      (pages slots : ℕ)
      → SlotsBelow pages slots
      → (h : Heapfile) (it : RecordIterator) → IsValid h
      → HasPages h n
      → IsRecord h n q t off
      → IsLater it q t
      → q - it.pid ≤ pages
      → ((o : ℕ)
          → resolve h it.pid ≡ ok o
          → fixed_len_page_capacity (page_of h it.pid o) - after it.slot < slots)
      → it.pid < n
      → Visits q t h it
  from_later_slot pages zero b h it v p r later d left lt =
      let (o, ro) = p.stored it.pid lt in let none_left = left o ro in absurd (omega arith)
  from_later_slot pages (suc slots) b h it v p r later d left lt =
      b h it v p r later d (λ o ro. let less = left o ro in omega arith)

  module _ (pages slots : ℕ) (pages_below : PagesBelow pages) (slots_below : SlotsBelow pages slots)
      (h h' : Heapfile) (it it' : RecordIterator) (s : ℕ) (r : IsRecord h n q t off)
      (later : IsLater it q t) (d : q - it.pid ≤ pages) (left : SlotsLeft h it slots)
      (v : IsValid h') (p : HasPages h' n) (same : SamePages h h') (f : Found h n it it' s) where
    goes_on : IsLater it it'.pid s → IsLater it' q t → Visits q t h' it'
    goes_on (inl a) later' =
        from_later_page pages pages_below h' it' v p (IsRecord-kept h h' n q t off same r) later'
          f.inside (nearer later')
      where
        nearer : IsLater it' q t → q - it'.pid < pages
        nearer (inl b) = omega arith
        nearer (inr (b, c)) = omega arith
    goes_on (inr (e, a)) later' =
        from_later_slot pages slots slots_below h' it' v p (IsRecord-kept h h' n q t off same r)
          later' (omega arith) fewer f.inside
      where
        fewer :
            (o : ℕ)
            → resolve h' it'.pid ≡ ok o
            → fixed_len_page_capacity (page_of h' it'.pid o) - after it'.slot < slots
        fewer o ro =
            let old = sym (same.entries it'.pid) ∙ ro in
            let capacity =
              ap fixed_len_page_capacity (same.pages it'.pid o old)
              ∙ ap (λ w. fixed_len_page_capacity (page_of h w o)) (sym e) in
            let before = left o (ap (resolve h) e ∙ old) in
            let (below, _) = f.filled o old in
            let below' = subst (λ w. s < fixed_len_page_capacity (page_of h w o)) (sym e) below in
            omega (arith, capacity, ap after f.at_slot)

    arrives : Compared it'.pid s q t → Visits q t h' it'
    arrives (met e w) = here h' it' e (f.at_slot ∙ ap some w)
    arrives (passed b) = absurd (
        not_among h n q t off (λ q' t'. IsLater it q' t' × IsBefore it'.pid s q' t') r f.between
          (later, b))
    arrives (ahead (inl b)) = goes_on f.later (inl b)
    arrives (ahead (inr (e, b))) = goes_on f.later (inr (e, omega (arith, ap after f.at_slot)))

  pid_inside :
      (h : Heapfile) (it : RecordIterator) → IsRecord h n q t off → IsLater it q t → it.pid ≤ n
  pid_inside h it r (inl a) = omega (arith, r.inside)
  pid_inside h it r (inr (e, a)) = omega (arith, r.inside)

  step : (pages slots : ℕ) → PagesBelow pages → SlotsBelow pages slots → Reaches pages slots
  step pages slots pages_below slots_below h it v p r later d left =
      let (h', it', moved, v', same, directories, stops) =
        increment_iterator-Moves h n it v p (pid_inside h it r later) in
      there h h' it it' moved (elim stops [
        | inl (s, f) ↦
            arrives pages slots pages_below slots_below h h' it it' s r later d left v'
              (HasPages-kept h h' n directories same p) same f (places-Compared it'.pid s q t)
        | inr e ↦ absurd (not_among h n q t off (IsLater it) r e.beyond later)
      ])

  reaches : (pages slots : ℕ) → Reaches pages slots
  reaches zero zero = step zero zero tt tt
  reaches zero (suc slots) = step zero (suc slots) tt (reaches zero slots)
  reaches (suc pages) zero = step (suc pages) zero (reaches pages) tt
  reaches (suc pages) (suc slots) =
      step (suc pages) (suc slots) (reaches pages) (reaches (suc pages) slots)

  increment_iterator-Visits :
      (h : Heapfile) (it : RecordIterator)
      → IsValid h
      → HasPages h n
      → IsRecord h n q t off
      → IsLater it q t
      → Visits q t h it
  increment_iterator-Visits h it v p r later =
      from_later_page (suc (q - it.pid)) (reaches (q - it.pid)) h it v p r later (in_file later)
        (omega arith)
    where
      in_file : IsLater it q t → it.pid < n
      in_file (inl a) = omega (arith, r.inside)
      in_file (inr (e, a)) = omega (arith, r.inside)

-- The first move is the constructor's.
first_move :
    (q t : ℕ) (h : Heapfile) (it : RecordIterator)
    → it.slot ≡ none
    → Visits q t h it
    → (h' : Heapfile) × (it' : RecordIterator) × (increment_iterator h it ≡ ok (h', it'))
      × Visits q t h' it'
first_move q t h it e (here _ _ at w) = absurd (cc (sym e ∙ w))
first_move q t h it e (there _ h' _ it' moved rest) = (h', it', moved, rest)

-- In a valid heap file of n pages whose last directory has room, a new iterator can be made, and
-- moves from there come to every slot that has a record.
pub new_iterator-Visits :
    (h : Heapfile) (n q t off : ℕ) (memory : Bool)
    → IsValid h
    → HasPages h n
    → IsRecord h n q t off
    → (h' : Heapfile) × (it' : RecordIterator) × (new_iterator h memory ≡ ok (h', it'))
      × Visits q t h' it'
unfolding new_iterator
new_iterator-Visits h n q t off memory v p r =
    let start : RecordIterator = record { pid = 0; slot = none; has_next = memory } in
    first_move q t h start refl
      (increment_iterator-Visits n q t off h start v p r (from_start (ℕ_discrete 0 q)))
  where
    from_start : Dec (0 ≡ q) → (0 < q) ⊎ ((0 ≡ q) × (0 ≤ t))
    from_start (yes w) = inr (w, omega arith)
    from_start (no w) = inl (ground arith)
