-- ===== src/Heapfile/Inserted.antt =====
-- A heap file of a1/heapfile.cpp as a map, before and after several records have been put.
use database_assignments.Base.{
  ℕ, ◌≡◌, refl, sym, ap, ap₂, ◌∙◌, inl, inr, Bool, true, ◌&&◌, Option, none, some, List, [], ◌∷◌,
  arith, Run, ok, Bool-cases, if◌then◌else◌, ◌==◌, ==_iff,
}
use database_assignments.Record.{Record}
use database_assignments.Record.Laws.{clean}
use database_assignments.Heapfile.{RecordId}

-- A map from pages and slots to records.
abbrev pub RecordMap : Type 0
RecordMap = ℕ → ℕ → Option (Run Record)

abbrev pub is_place : RecordId → ℕ → ℕ → Bool
is_place rid q t = q == rid.page_id && rid.slot == t

-- The map with one more record.
abbrev pub insert_at : RecordMap → RecordId → Record → RecordMap
insert_at m rid r q t = if is_place rid q t then some (ok (clean r)) else m q t

-- `m'` is `m` with the records put, in their order, at the places, each of them without a record
-- when its turn comes.
abbrev pub AreInserted : RecordMap → List RecordId → List Record → RecordMap → Type 0
AreInserted m [] [] m' = (q t : ℕ) → m' q t ≡ m q t
AreInserted m (rid ∷ rids) (r ∷ rs) m' =
    (m rid.page_id rid.slot ≡ none) × AreInserted (insert_at m rid r) rids rs m'
AreInserted m [] (r ∷ rs) m' = ⊥
AreInserted m (rid ∷ rids) [] m' = ⊥

-- Each record is at its place.
abbrev pub AreAt : RecordMap → List RecordId → List Record → Type 0
AreAt m [] [] = Unit
AreAt m (rid ∷ rids) (r ∷ rs) = (m rid.page_id rid.slot ≡ some (ok (clean r))) × AreAt m rids rs
AreAt m [] (r ∷ rs) = ⊥
AreAt m (rid ∷ rids) [] = ⊥

is_place_self : (rid : RecordId) → is_place rid rid.page_id rid.slot ≡ true
is_place_self rid =
    let a : (rid.page_id == rid.page_id) ≡ true = (==_iff rid.page_id rid.page_id).1 refl in
    let b : (rid.slot == rid.slot) ≡ true = (==_iff rid.slot rid.slot).1 refl in rw (a, b) refl

-- Where there is a record already, it stays.
pub AreInserted-kept :
    (m m' : RecordMap) (rids : List RecordId) (rs : List Record) (q t : ℕ) (x : Run Record)
    → AreInserted m rids rs m'
    → m q t ≡ some x
    → m' q t ≡ some x
AreInserted-kept m m' [] [] q t x h e = h q t ∙ e
AreInserted-kept m m' [] (r ∷ rs) q t x h e = absurd h
AreInserted-kept m m' (rid ∷ rids) [] q t x h e = absurd h
AreInserted-kept m m' (rid ∷ rids) (r ∷ rs) q t x (free, h) e =
    AreInserted-kept (insert_at m rid r) m' rids rs q t x h (elim (Bool-cases (is_place rid q t)) [
      | inl hit ↦ absurd (taken hit)
      | inr miss ↦ ap (λ b. if b then some (ok (clean r)) else m q t) miss ∙ e
    ])
  where
    taken : is_place rid q t ≡ true → ⊥
    taken hit =
        let a : q ≡ rid.page_id = ground arith in
        let b : rid.slot ≡ t = ground arith in cc (sym e ∙ ap₂ m a (sym b) ∙ free)

pub AreInserted-AreAt :
    (m m' : RecordMap) (rids : List RecordId) (rs : List Record)
    → AreInserted m rids rs m'
    → AreAt m' rids rs
AreInserted-AreAt m m' [] [] h = tt
AreInserted-AreAt m m' [] (r ∷ rs) h = h
AreInserted-AreAt m m' (rid ∷ rids) [] h = h
AreInserted-AreAt m m' (rid ∷ rids) (r ∷ rs) (free, h) = (
  AreInserted-kept (insert_at m rid r) m' rids rs rid.page_id rid.slot (ok (clean r)) h
      (ap (λ b. if b then some (ok (clean r)) else m rid.page_id rid.slot) (is_place_self rid)),
  AreInserted-AreAt (insert_at m rid r) m' rids rs h,
)

-- Only what the map was before matters.
pub AreInserted-cong :
    (m n m' : RecordMap) (rids : List RecordId) (rs : List Record)
    → ((q t : ℕ) → n q t ≡ m q t)
    → AreInserted n rids rs m'
    → AreInserted m rids rs m'
AreInserted-cong m n m' [] [] e h = λ q t. h q t ∙ e q t
AreInserted-cong m n m' [] (r ∷ rs) e h = h
AreInserted-cong m n m' (rid ∷ rids) [] e h = h
AreInserted-cong m n m' (rid ∷ rids) (r ∷ rs) e (free, h) = (
  sym (e rid.page_id rid.slot) ∙ free,
  AreInserted-cong (insert_at m rid r) (insert_at n rid r) m' rids rs
      (λ q t. ap (λ d. if is_place rid q t then some (ok (clean r)) else d) (e q t)) h,
)

-- Nor does another map with the same records after.
pub AreInserted-same :
    (m m' n' : RecordMap) (rids : List RecordId) (rs : List Record)
    → ((q t : ℕ) → n' q t ≡ m' q t)
    → AreInserted m rids rs m'
    → AreInserted m rids rs n'
AreInserted-same m m' n' [] [] e h = λ q t. e q t ∙ h q t
AreInserted-same m m' n' [] (r ∷ rs) e h = h
AreInserted-same m m' n' (rid ∷ rids) [] e h = h
AreInserted-same m m' n' (rid ∷ rids) (r ∷ rs) e (free, h) =
    (free, AreInserted-same (insert_at m rid r) m' n' rids rs e h)
