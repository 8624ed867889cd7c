-- ===== src/Sorting/RunLists.antt =====
-- Lists of records in sorted runs of one length.
use mathlib.Core.List.{append-nil}
use mathlib.Core.List.Perm
use database_assignments.Base.{
  ℕ, zero, suc, ◌+◌, ◌*◌, ◌≤◌, ◌≡◌, refl, sym, ap, subst, ◌∙◌, ◌⊎◌, inl, inr, Bool, List, [], ◌∷◌,
  ◌++◌, arith, length, length-append, take, drop, ltb, ltb→lt, ltb→le, Bool-cases, take_beyond,
  drop_beyond, take-append, drop-append, drop-drop, take-nil, take-append-drop, length-take-le,
  length-drop, le-length-take-drop,
}
use database_assignments.Sorting.Order.{Rec, AllGood-append, Rearranges, Sorted}

-- Each run of the length `n` is sorted.
abbrev pub RunsSorted : (Rec → Rec → Bool) → ℕ → List Rec → Type 0
RunsSorted lt n rs = (j : ℕ) → Sorted lt (take n (drop (j * n) rs))

Rearranges-append :
    (Good : Rec → Type 0) (rs ts out_rs out_ts : List Rec)
    → Rearranges Good rs out_rs
    → Rearranges Good ts out_ts
    → Rearranges Good (rs ++ ts) (out_rs ++ out_ts)
Rearranges-append Good rs ts out_rs out_ts r t = record {
  perm = Perm.append r.perm t.perm;
  good = AllGood-append Good out_rs out_ts r.good t.good;
  count = omega (arith, r.count, t.count, length-append rs ts, length-append out_rs out_ts);
}

pub Rearranges-trans :
    (Good : Rec → Type 0) (rs ts us : List Rec)
    → Rearranges Good rs ts
    → Rearranges Good ts us
    → Rearranges Good rs us
Rearranges-trans Good rs ts us r t = record {
  perm = Perm.trans t.perm r.perm;
  good = t.good;
  count = t.count ∙ r.count;
}

length-zero : (l : List Rec) → length l ≡ 0 → l ≡ []
length-zero [] h = refl
length-zero (r ∷ l) h = absurd (omega arith)

module _ (lt : Rec → Rec → Bool) (w : ℕ) where
  pub RunsSorted-nil : RunsSorted lt w []
  RunsSorted-nil j =
      subst (Sorted lt) (sym (ap (take w) (drop_beyond (j * w) [] (omega arith)) ∙ take-nil w)) tt

  -- A sorted run in front of sorted runs; a shorter one only at the end.
  RunsSorted-append :
      (run rest : List Rec)
      → Sorted lt run
      → length run ≤ w
      → (length run ≡ w) ⊎ (rest ≡ [])
      → RunsSorted lt w rest
      → RunsSorted lt w (run ++ rest)
  RunsSorted-append run rest s l (inl full) r zero =
      let first : 0 * w ≡ 0 = omega arith in
      rw first (subst (Sorted lt) (sym (take-append run rest full)) s)
  RunsSorted-append run rest s l (inl full) r (suc j) =
      let later : suc j * w ≡ w + j * w = omega arith in
      rw later (
        subst (λ l. Sorted lt (take w l))
          (sym (
            sym (drop-drop (j * w) w (run ++ rest))
            ∙ ap (drop (j * w)) (drop-append run rest full)))
          (r j))
  RunsSorted-append run rest s l (inr end) r zero =
      let first : 0 * w ≡ 0 = omega arith in
      rw (first, end, append-nil run) (subst (Sorted lt) (sym (take_beyond w run l)) s)
  RunsSorted-append run rest s l (inr end) r (suc j) =
      let beyond : length run ≤ suc j * w = omega arith in
      rw (end, append-nil run)
        (subst (Sorted lt) (sym (ap (take w) (drop_beyond (suc j * w) run beyond) ∙ take-nil w)) tt)

-- A first run that is rearranged and sorted, in front of the others.
module _ (Good : Rec → Type 0) (lt : Rec → Rec → Bool) (w : ℕ) (rs run rest : List Rec)
    (first : Rearranges Good (take w rs) run) (in_order : Sorted lt run)
    (behind : Rearranges Good (drop w rs) rest) (later : RunsSorted lt w rest) where
  pub run-Rearranges : Rearranges Good rs (run ++ rest)
  run-Rearranges =
      subst (λ l. Rearranges Good l (run ++ rest)) (take-append-drop w rs)
        (Rearranges-append Good (take w rs) (drop w rs) run rest first behind)

  full_or_last : (length run ≡ w) ⊎ (rest ≡ [])
  full_or_last = elim (Bool-cases (ltb (length rs) w)) [
    | inl h ↦ inr (length-zero rest (omega (arith, behind.count, length-drop w rs, ltb→lt _ _ h)))
    | inr h ↦ inl (
        omega (
          arith,
          first.count,
          length-take-le w rs,
          le-length-take-drop w w 0 rs (omega arith) (omega (arith, ltb→le _ _ h)),
        ))
  ]

  pub run-RunsSorted : RunsSorted lt w (run ++ rest)
  run-RunsSorted =
      RunsSorted-append lt w run rest in_order (omega (arith, first.count, length-take-le w rs))
        full_or_last later
