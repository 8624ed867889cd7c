-- ===== src/Heapfile/Visits.antt =====
-- Where `RecordIterator::increment_iterator` of a1/heapfile.cpp stops.
use database_assignments.Base.{
  ℕ, ◌≤◌, ◌<◌, ◌≡◌, refl, sym, ap, subst, ◌∙◌, ◌⊎◌, true, false, some, ok,
}
use database_assignments.Page.{fixed_len_page_capacity, after}
use database_assignments.Page.Layout.{IsPage, is_filled}
use database_assignments.Heapfile.{Heapfile}
use database_assignments.Heapfile.Entries.{resolve}
use database_assignments.Heapfile.Coherence.{page_of, SamePages}
use database_assignments.Heapfile.Cache.{Loaded}
use database_assignments.Heapfile.Store.{IsValid}
use database_assignments.Heapfile.Iterator.{RecordIterator, page_is_allocated, pages_bound}

-- The directories list the pages below `n`, and have room for one more.
pub record HasPages (h : Heapfile) (n : ℕ) : Type 0 where
  pub listed : (q : ℕ) → q < n → page_is_allocated h q ≡ ok true
  pub stored : (q : ℕ) → q < n → (off : ℕ) × (resolve h q ≡ ok off)
  pub end : page_is_allocated h n ≡ ok false
  pub room : n ≤ pages_bound h

-- The slot `t` of the page `q` comes after the iterator's, or before another one.
abbrev pub IsLater : RecordIterator → ℕ → ℕ → Type 0
IsLater it q t = (it.pid < q) ⊎ ((it.pid ≡ q) × (after it.slot ≤ t))

abbrev pub IsBefore : ℕ → ℕ → ℕ → ℕ → Type 0
IsBefore pid s q t = (q < pid) ⊎ ((q ≡ pid) × (t < s))

-- No slot of the `n` pages of which `P` holds has a record.
abbrev pub NoneFilled : Heapfile → ℕ → (ℕ → ℕ → Type 0) → Type 0
NoneFilled h n P =
    (q t off : ℕ)
    → q < n
    → P q t
    → resolve h q ≡ ok off
    → t < fixed_len_page_capacity (page_of h q off)
    → is_filled (page_of h q off) t ≡ false

-- The iterator is at the slot `s` of the page `it'.pid`, the first one after `it` with a record.
pub record Found (h : Heapfile) (n : ℕ) (it it' : RecordIterator) (s : ℕ) : Type 0 where
  pub at_slot : it'.slot ≡ some s
  pub inside : it'.pid < n
  pub filled :
      (off : ℕ)
      → resolve h it'.pid ≡ ok off
      → (s < fixed_len_page_capacity (page_of h it'.pid off))
        × (is_filled (page_of h it'.pid off) s ≡ true)
  pub later : IsLater it it'.pid s
  pub between : NoneFilled h n (λ q t. IsLater it q t × IsBefore it'.pid s q t)

-- The iterator has come to the end, and there is no record after `it`.
pub record Ended (h : Heapfile) (n : ℕ) (it it' : RecordIterator) : Type 0 where
  pub none_left : it'.has_next ≡ false
  pub at_end : it'.pid ≡ n
  pub beyond : NoneFilled h n (IsLater it)

abbrev pub Stops : Heapfile → ℕ → RecordIterator → RecordIterator → Type 0
Stops h n it it' = ((s : ℕ) × Found h n it it' s) ⊎ Ended h n it it'

pub page_is_allocated-same :
    (h h' : Heapfile)
    → h'.directory_buffer ≡ h.directory_buffer
    → (q : ℕ) → page_is_allocated h' q ≡ page_is_allocated h q
unfolding page_is_allocated
page_is_allocated-same h h' e q = rw e refl

pub HasPages-kept :
    (h h' : Heapfile) (n : ℕ)
    → h'.directory_buffer ≡ h.directory_buffer
    → SamePages h h'
    → HasPages h n
    → HasPages h' n
HasPages-kept h h' n e same p = record {
  listed = λ q lt. page_is_allocated-same h h' e q ∙ p.listed q lt;
  stored = λ q lt. let (o, r) = p.stored q lt in (o, same.entries q ∙ r);
  end = page_is_allocated-same h h' e n ∙ p.end;
  room = rw e p.room;
}

-- The heap file after a page is loaded.
module _ (h h' : Heapfile) (n pid off : ℕ) (v : IsValid h) (l : Loaded h h' pid off) where
  pub loaded-IsValid : IsValid h'
  loaded-IsValid = record {
    coherent = l.coherent;
    pages = λ q o r.
        let r' = sym (l.same.entries q) ∙ r in
        subst IsPage (sym (l.same.pages q o r')) (v.pages q o r');
  }

  pub loaded-NoneFilled : (P : ℕ → ℕ → Type 0) → NoneFilled h' n P → NoneFilled h n P
  loaded-NoneFilled P none_filled q t o lt p r c =
      let same = sym (l.same.pages q o r) in
      ap (λ page. is_filled page t) same
      ∙ none_filled q t o lt p (l.same.entries q ∙ r)
          (subst (λ page. t < fixed_len_page_capacity page) same c)
