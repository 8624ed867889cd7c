-- ===== src/Heapfile/Places.antt =====
-- The places of records in a heap file, and their order.
use database_assignments.Base.{
  ℕ, ◌+◌, ◌≤◌, ◌<◌, ◌≡◌, sym, subst, ◌∙◌, ◌⊎◌, inl, inr, true, arith, ok, Bool-cases, ltb, ltb→lt,
  ltb→le,
}
use database_assignments.Page.{fixed_len_page_capacity}
use database_assignments.Page.Layout.{is_filled}
use database_assignments.Heapfile.{Heapfile}
use database_assignments.Heapfile.Entries.{resolve}
use database_assignments.Heapfile.Coherence.{page_of, SamePages}
use database_assignments.Heapfile.Visits.{IsBefore, NoneFilled}

-- The slot `t` of the page `q`, one of `n`, has a record.
pub record IsRecord (h : Heapfile) (n q t off : ℕ) : Type 0 where
  pub inside : q < n
  pub stored : resolve h q ≡ ok off
  pub below : t < fixed_len_page_capacity (page_of h q off)
  pub filled : is_filled (page_of h q off) t ≡ true

pub IsRecord-kept :
    (h h' : Heapfile) (n q t off : ℕ)
    → SamePages h h'
    → IsRecord h n q t off
    → IsRecord h' n q t off
IsRecord-kept h h' n q t off same r =
    let page = sym (same.pages q off r.stored) in
    record {
      inside = r.inside;
      stored = same.entries q ∙ r.stored;
      below = subst (λ p. t < fixed_len_page_capacity p) page r.below;
      filled = subst (λ p. is_filled p t ≡ true) page r.filled;
    }

-- A place with a record is not among places without.
pub not_among :
    (h : Heapfile) (n q t off : ℕ) (P : ℕ → ℕ → Type 0)
    → IsRecord h n q t off
    → NoneFilled h n P
    → P q t
    → ⊥
not_among h n q t off P r none_filled p =
    cc (sym r.filled ∙ none_filled q t off r.inside p r.stored r.below)

-- The order of two places.
pub data Compared (pid s q t : ℕ) : Type 0 where
  met : pid ≡ q → s ≡ t → Compared pid s q t
  passed : IsBefore pid s q t → Compared pid s q t
  ahead : (pid < q) ⊎ ((pid ≡ q) × (s + 1 ≤ t)) → Compared pid s q t

pub places-Compared : (pid s q t : ℕ) → Compared pid s q t
places-Compared pid s q t = elim (Bool-cases (ltb pid q)) [
  | inl h ↦ ahead (inl (ltb→lt pid q h))
  | inr h ↦ elim (Bool-cases (ltb q pid)) [
    | inl g ↦ passed (inl (ltb→lt q pid g))
    | inr g ↦ let same : pid ≡ q = omega (arith, ltb→le pid q h, ltb→le q pid g) in in_page same
  ]
]
  where
    in_page : pid ≡ q → Compared pid s q t
    in_page same = elim (Bool-cases (ltb s t)) [
      | inl a ↦ ahead (inr (same, omega (arith, ltb→lt s t a)))
      | inr a ↦ elim (Bool-cases (ltb t s)) [
        | inl b ↦ passed (inr (sym same, ltb→lt t s b))
        | inr b ↦ met same (omega (arith, ltb→le s t a, ltb→le t s b))
      ]
    ]
