-- ===== src/Heapfile/Moves.antt =====
-- The loop of `RecordIterator::increment_iterator` of a1/heapfile.cpp, page by page.
use native.Mathlib.Decide.{ℕ_discrete}
use database_assignments.Base.{
  ℕ, zero, suc, ◌+◌, ◌-◌, ◌≤◌, ◌<◌, ◌≡◌, refl, sym, ap, ap₂, subst, ◌∙◌, inl, inr, true, false,
  none, some, arith, Run, ok, ok_injective, Option-cases,
}
use database_assignments.Page.{fixed_len_page_capacity, after}
use database_assignments.Page.Layout.{is_filled}
use database_assignments.Page.Search.{first, first-some, first-none, get_next_filled_slot-ok}
use database_assignments.Heapfile.{Heapfile}
use database_assignments.Heapfile.Entries.{resolve}
use database_assignments.Heapfile.Coherence.{page_of, SamePages, cached-ok}
use database_assignments.Heapfile.Cache.{Loaded, get_page-Loaded}
use database_assignments.Heapfile.Store.{IsValid}
use database_assignments.Heapfile.Visits.{
  HasPages, HasPages-kept, IsLater, IsBefore, NoneFilled, Found, Ended, Stops, loaded-IsValid,
  loaded-NoneFilled,
}
use database_assignments.Heapfile.Iterator.{
  RecordIterator, page_is_allocated, increment_loop, pages_bound, increment_iterator,
}

module _ (h : Heapfile) (n : ℕ) (it : RecordIterator) (v : IsValid h) where
  -- The page of the iterator is exhausted.
  abbrev PageDone : ℕ → Type 0
  PageDone off =
      (t : ℕ)
      → after it.slot ≤ t
      → t < fixed_len_page_capacity (page_of h it.pid off)
      → is_filled (page_of h it.pid off) t ≡ false

  abbrev stepped : RecordIterator
  stepped = record it { pid = it.pid + 1; slot = none }

  skip_page :
      (off : ℕ) (P : ℕ → ℕ → Type 0)
      → resolve h it.pid ≡ ok off
      → PageDone off
      → NoneFilled h n (λ q t. IsLater stepped q t × P q t)
      → NoneFilled h n (λ q t. IsLater it q t × P q t)
  skip_page off P r done rest q t o lt (inl a, p) rq c =
      rest q t o lt (behind (ℕ_discrete (it.pid + 1) q), p) rq c
    where
      behind : Dec (it.pid + 1 ≡ q) → IsLater stepped q t
      behind (yes w) = inr (w, omega arith)
      behind (no w) = inl (ground arith)
  skip_page off P r done rest q t o lt (inr (e, a), p) rq c =
      let same_off : off ≡ o = ok_injective (sym r ∙ ap (resolve h) e ∙ rq) in
      let same : page_of h it.pid off ≡ page_of h q o = ap₂ (page_of h) e same_off in
      ap (λ page. is_filled page t) (sym same)
      ∙ done t a (subst (λ page. t < fixed_len_page_capacity page) (sym same) c)

  -- Where the search of the page has found a slot, the iterator stops.
  Found-in_page :
      (off s : ℕ)
      → resolve h it.pid ≡ ok off
      → it.pid < n
      → first
          (is_filled (page_of h it.pid off))
          (fixed_len_page_capacity (page_of h it.pid off) - after it.slot)
          (after it.slot)
        ≡ some s
      → Found h n it (record it { slot = some s }) s
  Found-in_page off s r lt e =
      let page = page_of h it.pid off in
      let (from, below, filled, empty) =
        first-some (is_filled page) (fixed_len_page_capacity page - after it.slot) (after it.slot) s
          e in
      record {
        at_slot = refl;
        inside = lt;
        filled = λ o ro.
            subst
              (λ w.
                (s < fixed_len_page_capacity (page_of h it.pid w))
                × (is_filled (page_of h it.pid w) s ≡ true))
              (ok_injective (sym r ∙ ro)) (omega arith, filled);
        later = inr (refl, from);
        between = λ q t o ltq (later, before) rq c. in_page empty q t o later before rq;
      }
    where
      in_page :
          ((t : ℕ) → after it.slot ≤ t → t < s → is_filled (page_of h it.pid off) t ≡ false)
          → (q t o : ℕ) → IsLater it q t
          → IsBefore it.pid s q t
          → resolve h q ≡ ok o
          → is_filled (page_of h q o) t ≡ false
      in_page empty q t o (inl a) (inl b) rq = absurd (omega arith)
      in_page empty q t o (inl a) (inr (b, d)) rq = absurd (omega arith)
      in_page empty q t o (inr (a, d)) (inl b) rq = absurd (omega arith)
      in_page empty q t o (inr (a, d)) (inr (b, f)) rq =
          let same_off : off ≡ o = ok_injective (sym r ∙ ap (resolve h) a ∙ rq) in
          ap₂ (λ w u. is_filled (page_of h w u) t) (sym a) (sym same_off) ∙ empty t d f

  ended : it.pid ≡ n → Ended h n it (record it { has_next = false })
  ended e = record {
    none_left = refl;
    at_end = e;
    beyond = λ q t o lt later rq c. absurd (past q t lt later);
  }
    where
      past : (q t : ℕ) → q < n → IsLater it q t → ⊥
      past q t lt (inl a) = omega arith
      past q t lt (inr (a, b)) = omega arith

  -- What the rest of the loop finds is what the iterator finds.
  skipped :
      (h' : Heapfile) (off : ℕ) (it' : RecordIterator)
      → resolve h it.pid ≡ ok off
      → PageDone off
      → Loaded h h' it.pid off
      → Stops h' n stepped it'
      → Stops h n it it'
  skipped h' off it' r done l (inl (s, f)) = inl (
    s,
    record {
      at_slot = f.at_slot;
      inside = f.inside;
      filled = λ o ro.
          subst (λ page. (s < fixed_len_page_capacity page) × (is_filled page s ≡ true))
            (l.same.pages it'.pid o ro) (f.filled o (l.same.entries it'.pid ∙ ro));
      later = further f.later;
      between = skip_page off (IsBefore it'.pid s) r done (
          loaded-NoneFilled h h' n it.pid off v l
            (λ q t. IsLater stepped q t × IsBefore it'.pid s q t) f.between);
    },
  )
    where
      further : IsLater stepped it'.pid s → IsLater it it'.pid s
      further (inl a) = inl (omega arith)
      further (inr (a, b)) = inl (omega arith)
  skipped h' off it' r done l (inr e) = inr (record {
    none_left = e.none_left;
    at_end = e.at_end;
    beyond = λ q t o lt later rq c.
        skip_page off (λ _ _. Unit {0}) r done
          (λ q' t' o' lt' both rq' c'.
            loaded-NoneFilled h h' n it.pid off v l (IsLater stepped) e.beyond q' t' o' lt' both.0
              rq' c')
          q t o lt (later, tt) rq c;
  })

SamePages-trans : (h h' h'' : Heapfile) → SamePages h h' → SamePages h' h'' → SamePages h h''
SamePages-trans h h' h'' a b = record {
  entries = λ q. b.entries q ∙ a.entries q;
  pages = λ q o r. b.pages q o (a.entries q ∙ r) ∙ a.pages q o r;
}

-- What a loop of the iterator has done.
abbrev pub Moves : Heapfile → ℕ → RecordIterator → Run (Heapfile × RecordIterator) → Type 0
Moves h n it result =
    (h' : Heapfile) × (it' : RecordIterator) × (result ≡ ok (h', it'))
    × IsValid h'
    × SamePages h h'
    × (h'.directory_buffer ≡ h.directory_buffer)
    × Stops h n it it'

increment_loop-Moves :
    (fuel : ℕ) (h : Heapfile) (n : ℕ) (it : RecordIterator)
    → IsValid h
    → HasPages h n
    → it.pid ≤ n
    → n - it.pid < fuel
    → Moves h n it (increment_loop fuel h it)
unfolding increment_loop
increment_loop-Moves zero h n it v p le lt = absurd (omega arith)
increment_loop-Moves (suc fuel) h n it v p le lt = elim (ℕ_discrete it.pid n) [
  | yes w ↦ (
    h,
    record it { has_next = false },
    rw (subst (λ q. page_is_allocated h q ≡ ok false) (sym w) p.end) refl,
    v,
    record { entries = λ q. refl; pages = λ q o r. refl },
    refl,
    inr (ended h n it v w),
  )
  | no w ↦
      let (off, r) = p.stored it.pid (ground arith) in
      let (h', g, l) = get_page-Loaded h it.pid off v.coherent r in
      let page = page_of h it.pid off in
      let content = cached-ok h' page l.page_cached in
      let search = get_next_filled_slot-ok page it.slot (v.pages it.pid off r) in
      elim (Option-cases
        (first (is_filled page) (fixed_len_page_capacity page - after it.slot) (after it.slot))) [
          | inl e ↦
              let done : PageDone h n it v off = λ t a c.
                first-none (is_filled page) (fixed_len_page_capacity page - after it.slot)
                  (after it.slot) e t a (omega arith) in
              let (h'', it', moved, v'', same, directories, stops) =
                increment_loop-Moves fuel h' n (stepped h n it v)
                  (loaded-IsValid h h' n it.pid off v l)
                  (HasPages-kept h h' n l.directories l.same p) (ground arith) (ground arith) in
              (
                h'',
                it',
                rw (p.listed it.pid (ground arith), g, content, search ∙ ap ok e) moved,
                v'',
                SamePages-trans h h' h'' l.same same,
                directories ∙ l.directories,
                skipped h n it v h' off it' r done l stops,
              )
          | inr (s, e) ↦ (
            h',
            record it { slot = some s },
            rw (p.listed it.pid (ground arith), g, content, search ∙ ap ok e) refl,
            loaded-IsValid h h' n it.pid off v l,
            l.same,
            l.directories,
            inl (s, Found-in_page h n it v off s r (ground arith) e),
          )
        ]
]

-- In a valid heap file of n pages whose last directory has room, the loop of the iterator ends
-- without a fault. It stops at the first slot with a record after the one it was at, or at the
-- end, with has_next false, if there is none; the heap file stays valid and no page changes.
pub increment_iterator-Moves :
    (h : Heapfile) (n : ℕ) (it : RecordIterator)
    → IsValid h
    → HasPages h n
    → it.pid ≤ n
    → Moves h n it (increment_iterator h it)
unfolding increment_iterator
increment_iterator-Moves h n it v p le =
    increment_loop-Moves (pages_bound h + 1) h n it v p le (omega (arith, p.room))
