-- ===== src/Sorting/Minimum.antt =====
-- The search for the least record in `kway_merge` of a2/msort.cc.
use database_assignments.Base.{
  ℕ, zero, suc, ◌+◌, ◌≡◌, refl, sym, ◌∙◌, ap, ◌⊎◌, inl, inr, Bool, false, Option, none, some, List,
  [], ◌∷◌, arith, Run, ok, ◌>>=◌, if◌then◌else◌, Bool-cases, get_elem?,
}
use database_assignments.Sorting.Merge.{all_null, min_from}
use database_assignments.Sorting.Order.{Rec, Comparison}

module _ (c : Comparison) {It : Type 0} (has_next : It → Bool) (next : It → Run (It × Rec)) where
  -- `a` is not above `b`.
  abbrev pub Le : Rec → Rec → Type 0
  Le a b = c.lt b a ≡ false

  -- `m` is not above any record in the slots.
  abbrev pub LeSlots : Rec → List (It × Option Rec) → Type 0
  LeSlots m [] = Unit
  LeSlots m ((it, none) ∷ slots) = LeSlots m slots
  LeSlots m ((it, some rec) ∷ slots) = Le m rec × LeSlots m slots

  -- The records in the slots are good.
  abbrev pub GoodSlots : List (It × Option Rec) → Type 0
  GoodSlots [] = Unit
  GoodSlots ((it, none) ∷ slots) = GoodSlots slots
  GoodSlots ((it, some rec) ∷ slots) = c.Good rec × GoodSlots slots

  -- The record with its index stands in the slots, the first of which has index `i`.
  abbrev pub StandsAt : ℕ → List (It × Option Rec) → ℕ × Rec → Type 0
  StandsAt i slots m =
      (k : ℕ) × (it : It) × (m.0 ≡ i + k) × (get_elem? slots k ≡ some (it, some m.1))

  stands_later :
      (i : ℕ) (slot : It × Option Rec) (slots : List (It × Option Rec)) (m : ℕ × Rec)
      → StandsAt (i + 1) slots m
      → StandsAt i (slot ∷ slots) m
  stands_later i slot slots m (k, it, e, g) = (suc k, it, omega arith, g)

  abbrev Found : ℕ → List (It × Option Rec) → ℕ × Rec → Type 0
  Found i slots best =
      (m : ℕ × Rec) × (min_from has_next next c.less i slots (some best) ≡ ok (some m))
      × Le m.1 best.1
      × LeSlots m.1 slots
      × c.Good m.1
      × ((m ≡ best) ⊎ StandsAt i slots m)

  min_from-some :
      (i : ℕ) (slots : List (It × Option Rec)) (best : ℕ × Rec)
      → GoodSlots slots
      → c.Good best.1
      → Found i slots best
  unfolding min_from
  min_from-some i [] best g gb = (best, refl, c.irreflexive best.1 gb, tt, gb, inl refl)
  min_from-some i ((it, none) ∷ slots) best g gb =
      let (m, e, l, b, gm, f) = min_from-some (i + 1) slots best g gb in
      (m, e, l, b, gm, elim f [ inl s ↦ inl s | inr s ↦ inr (stands_later i (it, none) slots m s) ])
  min_from-some i ((it, some rec) ∷ slots) best g gb = elim (Bool-cases (c.lt rec best.1)) [
    | inl smaller ↦
        let (m, e, l, b, gm, f) = min_from-some (i + 1) slots (i, rec) g.1 g.0 in
        let l' = c.transitive m.1 rec best.1 gm g.0 gb l (c.asymmetric rec best.1 g.0 gb smaller) in
        (
          m,
          ap
                (λ r. r >>= λ s.
                  min_from has_next next c.less (i + 1) slots (some (if s then (i, rec) else best)))
                (c.decides rec best.1 g.0 gb ∙ ap ok smaller)
              ∙ e,
          l',
          (l, b),
          gm,
          elim f [
            | inl s ↦ inr (
              zero,
              it,
              ap (λ p. p.0) s ∙ omega arith,
              ap (λ r. some (it, some r)) (sym (ap (λ p. p.1) s)),
            )
            | inr s ↦ inr (stands_later i (it, some rec) slots m s)
          ],
        )
    | inr larger ↦
        let (m, e, l, b, gm, f) = min_from-some (i + 1) slots best g.1 gb in
        (
          m,
          ap
                (λ r. r >>= λ s.
                  min_from has_next next c.less (i + 1) slots (some (if s then (i, rec) else best)))
                (c.decides rec best.1 g.0 gb ∙ ap ok larger)
              ∙ e,
          l,
          (c.transitive m.1 best.1 rec gm gb g.0 l larger, b),
          gm,
          elim f [ inl s ↦ inl s | inr s ↦ inr (stands_later i (it, some rec) slots m s) ],
        )
  ]

  -- If there is a record, the search finds one of the slots' records that is not above any.
  pub min_from-Le :
      (i : ℕ) (slots : List (It × Option Rec))
      → GoodSlots slots
      → all_null has_next next c.less slots ≡ false
      → (m : ℕ × Rec) × (min_from has_next next c.less i slots none ≡ ok (some m))
        × LeSlots m.1 slots
        × c.Good m.1
        × StandsAt i slots m
  unfolding min_from all_null
  min_from-Le i [] g h = cc
  min_from-Le i ((it, none) ∷ slots) g h =
      let (m, e, b, gm, s) = min_from-Le (i + 1) slots g h in
      (m, e, b, gm, stands_later i (it, none) slots m s)
  min_from-Le i ((it, some rec) ∷ slots) g h =
      let (m, e, l, b, gm, f) = min_from-some (i + 1) slots (i, rec) g.1 g.0 in
      (
        m,
        e,
        (l, b),
        gm,
        elim f [
          | inl s ↦ (
            zero,
            it,
            ap (λ p. p.0) s ∙ omega arith,
            ap (λ r. some (it, some r)) (sym (ap (λ p. p.1) s)),
          )
          | inr s ↦ stands_later i (it, some rec) slots m s
        ],
      )
