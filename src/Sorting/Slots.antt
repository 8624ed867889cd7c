-- ===== src/Sorting/Slots.antt =====
-- The slots of `kway_merge` in a2/msort.cc: the elements of `iterators` and `buf`, side by side.
use mathlib.Core.List.{Perm, perm_middle}
use mathlib.Core.List.Perm
use database_assignments.Base.{
  ℕ, zero, suc, ◌+◌, ◌≤◌, ◌≡◌, refl, sym, ap, subst, ap₂, inl, inr, true, false, Option, none, some,
  List, [], ◌∷◌, ◌++◌, arith, ok, Bool-cases, get_elem?, length, set, length-append,
}
use database_assignments.Sorting.Merge.{fetch, fetch_all, all_null}
use database_assignments.Sorting.Order.{
  Rec, Comparison, Source, AllGood, LeList, Sorted, LeList-append, LeList-trans,
}
use database_assignments.Sorting.Minimum.{LeSlots, GoodSlots}

module _ (c : Comparison) {It : Type 0} (s : Source c.Good It) where
  -- The records of a slot: the one in `buf`, and those that its iterator has left.
  abbrev pub pending : It × Option Rec → List Rec
  pending (it, none) = s.remaining it
  pending (it, some rec) = rec ∷ s.remaining it

  abbrev pub contents : List (It × Option Rec) → List Rec
  contents [] = []
  contents (slot ∷ slots) = pending slot ++ contents slots

  -- The iterator is valid, and the slot is empty only if it is at the end.
  abbrev pub FilledSlot : It × Option Rec → Type 0
  FilledSlot (it, none) = s.Valid it × (s.remaining it ≡ [])
  FilledSlot (it, some rec) = s.Valid it × c.Good rec

  abbrev pub Filled : List (It × Option Rec) → Type 0
  Filled [] = Unit
  Filled (slot ∷ slots) = FilledSlot slot × Filled slots

  abbrev pub SortedSlots : List (It × Option Rec) → Type 0
  SortedSlots [] = Unit
  SortedSlots (slot ∷ slots) = Sorted c.lt (pending slot) × SortedSlots slots

  -- The records that the iterators have left, one iterator after the other.
  abbrev pub remaining_all : List It → List Rec
  remaining_all [] = []
  remaining_all (it ∷ its) = s.remaining it ++ remaining_all its

  abbrev pub AllValid : List It → Type 0
  AllValid [] = Unit
  AllValid (it ∷ its) = s.Valid it × AllValid its

  abbrev pub AllSorted : List It → Type 0
  AllSorted [] = Unit
  AllSorted (it ∷ its) = Sorted c.lt (s.remaining it) × AllSorted its

  pub Filled-GoodSlots :
      (slots : List (It × Option Rec)) → Filled slots → GoodSlots c s.has_next s.next slots
  Filled-GoodSlots [] f = tt
  Filled-GoodSlots ((it, none) ∷ slots) f = Filled-GoodSlots slots f.1
  Filled-GoodSlots ((it, some rec) ∷ slots) f = (f.0.1, Filled-GoodSlots slots f.1)

  pub Filled-get :
      (slots : List (It × Option Rec)) (k : ℕ) (slot : It × Option Rec)
      → Filled slots
      → get_elem? slots k ≡ some slot
      → FilledSlot slot
  Filled-get [] k slot f g = cc
  Filled-get (t ∷ slots) zero slot f g =
      subst FilledSlot (ap (λ o. elim o [ none ↦ t | some u ↦ u ]) g) f.0
  Filled-get (t ∷ slots) (suc k) slot f g = Filled-get slots k slot f.1 g

  pub Filled-set :
      (slots : List (It × Option Rec)) (k : ℕ) (slot : It × Option Rec)
      → Filled slots
      → FilledSlot slot
      → Filled (set slots k slot)
  Filled-set [] k slot f g = f
  Filled-set (t ∷ slots) zero slot f g = (g, f.1)
  Filled-set (t ∷ slots) (suc k) slot f g = (f.0, Filled-set slots k slot f.1 g)

  pub fetch-pending :
      (it : It)
      → s.Valid it
      → (slot : It × Option Rec) × (fetch s.has_next s.next c.less it ≡ ok slot)
        × (pending slot ≡ s.remaining it)
        × FilledSlot slot
  unfolding fetch
  fetch-pending it v = elim (Bool-cases (s.has_next it)) [
    | inl h ↦
        let (it', rec, e, r, v') = s.steps it v h in
        ((it', some rec), rw (h, e), sym r, (v', (subst (AllGood c.Good) r (s.good it v)).0))
    | inr h ↦ ((it, none), rw h, refl, (v, s.ended it v h))
  ]

  pub fetch_all-contents :
      (its : List It)
      → AllValid its
      → (slots : List (It × Option Rec)) × (fetch_all s.has_next s.next c.less its ≡ ok slots)
        × Filled slots
        × (contents slots ≡ remaining_all its)
        × (AllSorted its → SortedSlots slots)
  unfolding fetch_all
  fetch_all-contents [] v = ([], refl, tt, refl, λ _. tt)
  fetch_all-contents (it ∷ its) v =
      let (slot, ef, ep, es) = fetch-pending it v.0 in
      let (slots, e, f, q, o) = fetch_all-contents its v.1 in
      (
        slot ∷ slots,
        rw (ef, e),
        (es, f),
        ap₂ ◌++◌ ep q,
        λ h. (subst (Sorted c.lt) (sym ep) h.0, o h.1),
      )

  pending_head :
      (t : It × Option Rec) (it : It) (rec : Rec)
      → some t ≡ some (it, some rec)
      → pending t ≡ rec ∷ s.remaining it
  pending_head t it rec g = ap (λ o. elim o [ none ↦ [] | some p ↦ pending p ]) g

  -- Taking the buffered record of one slot away.
  module _ (it : It) (rec : Rec) (slot : It × Option Rec) (e : pending slot ≡ s.remaining it) where
    pub contents-set :
        (slots : List (It × Option Rec)) (k : ℕ)
        → get_elem? slots k ≡ some (it, some rec)
        → Perm (rec ∷ contents (set slots k slot)) (contents slots)
    contents-set [] k g = cc
    contents-set (t ∷ slots) zero g =
        subst (λ p. Perm (rec ∷ (pending slot ++ contents slots)) (p ++ contents slots))
          (sym (pending_head t it rec g))
          (subst
            (λ p. Perm (rec ∷ (p ++ contents slots)) (rec ∷ (s.remaining it ++ contents slots)))
            (sym e) (Perm.refl _))
    contents-set (t ∷ slots) (suc k) g =
        Perm.trans (Perm.symm (perm_middle (pending t) (contents (set slots k slot))))
          (Perm.append_left (pending t) (contents-set slots k g))

    pub SortedSlots-set :
        (slots : List (It × Option Rec)) (k : ℕ)
        → get_elem? slots k ≡ some (it, some rec)
        → SortedSlots slots
        → SortedSlots (set slots k slot)
    SortedSlots-set [] k g h = cc
    SortedSlots-set (t ∷ slots) zero g h =
        (subst (Sorted c.lt) (sym e) (subst (Sorted c.lt) (pending_head t it rec g) h.0).1, h.1)
    SortedSlots-set (t ∷ slots) (suc k) g h = (h.0, SortedSlots-set slots k g h.1)

    pub length-contents-set :
        (slots : List (It × Option Rec)) (k : ℕ)
        → get_elem? slots k ≡ some (it, some rec)
        → 1 + length (contents (set slots k slot)) ≡ length (contents slots)
    length-contents-set [] k g = cc
    length-contents-set (t ∷ slots) zero g = omega (
      arith,
      length-append (pending slot) (contents slots),
      length-append (pending t) (contents slots),
      ap length e,
      ap length (pending_head t it rec g),
    )
    length-contents-set (t ∷ slots) (suc k) g = omega (
      arith,
      length-append (pending t) (contents slots),
      length-append (pending t) (contents (set slots k slot)),
      length-contents-set slots k g,
    )

  pub contents_null :
      (slots : List (It × Option Rec))
      → Filled slots
      → all_null s.has_next s.next c.less slots ≡ true
      → contents slots ≡ []
  unfolding all_null
  contents_null [] f h = refl
  contents_null ((it, none) ∷ slots) f h = rw (f.0.1, contents_null slots f.1 h)
  contents_null ((it, some rec) ∷ slots) f h = cc

  pub length-contents :
      (slots : List (It × Option Rec))
      → all_null s.has_next s.next c.less slots ≡ false
      → 1 ≤ length (contents slots)
  unfolding all_null
  length-contents [] h = cc
  length-contents ((it, none) ∷ slots) h =
      omega (arith, length-append (s.remaining it) (contents slots), length-contents slots h)
  length-contents ((it, some rec) ∷ slots) h = omega arith

  -- The least of the buffered records is the least of all, if what is behind them is sorted.
  pub LeList-contents :
      (m : Rec) (slots : List (It × Option Rec))
      → c.Good m
      → LeSlots c s.has_next s.next m slots
      → Filled slots
      → SortedSlots slots
      → LeList c.lt m (contents slots)
  LeList-contents m [] gm l f o = tt
  LeList-contents m ((it, none) ∷ slots) gm l f o =
      LeList-append c.lt m (s.remaining it) (contents slots) (subst (LeList c.lt m) (sym f.0.1) tt)
        (LeList-contents m slots gm l f.1 o.1)
  LeList-contents m ((it, some r) ∷ slots) gm l f o = (
    l.0,
    LeList-append c.lt m (s.remaining it) (contents slots)
        (LeList-trans c m r (s.remaining it) gm f.0.1 (s.good it f.0.0) l.0 o.0.0)
        (LeList-contents m slots gm l.1 f.1 o.1),
  )
