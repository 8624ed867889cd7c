-- ===== src/Sorting/Sorted.antt =====
-- What `kway_merge` of a2/msort.cc writes, for iterators that deliver lists of records.
use mathlib.Core.List.Perm
use database_assignments.Base.{
  ℕ, zero, suc, ◌≤◌, ◌≡◌, refl, sym, ap, subst, inl, inr, true, Option, some, List, [], ◌∷◌, arith,
  ok, Bool-cases, get_elem?, length, set,
}
use database_assignments.Sorting.Merge.{all_null, merge_loop, merge_all}
use database_assignments.Sorting.Order.{
  Rec, Comparison, Source, Rearranges, LeList, Sorted, LeList-perm,
}
use database_assignments.Sorting.Minimum.{LeSlots, min_from-Le}
use database_assignments.Sorting.Slots.{
  pending, contents, Filled, SortedSlots, remaining_all, AllValid, AllSorted, Filled-GoodSlots,
  Filled-get, Filled-set, fetch-pending, fetch_all-contents, contents-set, SortedSlots-set,
  length-contents-set, contents_null, length-contents, LeList-contents,
}

module _ (c : Comparison) {It : Type 0} (s : Source c.Good It) where
  -- What a merge of the slots comes to.
  record Merges (slots : List (It × Option Rec)) (out : List Rec) : Type 0 where
    pub rearranged : Rearranges c.Good (contents c s slots) out
    pub sorted : SortedSlots c s slots → Sorted c.lt out
    pub bound : (m : Rec) → LeList c.lt m (contents c s slots) → LeList c.lt m out

  merge_end :
      (slots : List (It × Option Rec))
      → Filled c s slots
      → all_null s.has_next s.next c.less slots ≡ true
      → Merges slots []
  merge_end slots f h = record {
    rearranged =
        subst (λ r. Rearranges c.Good r []) (sym (contents_null c s slots f h))
          (record { perm = Perm.refl _; good = tt; count = refl });
    sorted = λ _. tt;
    bound = λ _ _. tt;
  }

  merge_step :
      (slots : List (It × Option Rec)) (k : ℕ) (it : It) (rec : Rec) (slot : It × Option Rec)
      (out : List Rec)
      → get_elem? slots k ≡ some (it, some rec)
      → pending c s slot ≡ s.remaining it
      → Filled c s slots
      → c.Good rec
      → LeSlots c s.has_next s.next rec slots
      → Merges (set slots k slot) out
      → Merges slots (rec ∷ out)
  merge_step slots k it rec slot out g e f gr l m =
      let p = contents-set c s it rec slot e slots k g in
      record {
        rearranged = record {
          perm = Perm.trans (Perm.cons rec m.rearranged.perm) p;
          good = (gr, m.rearranged.good);
          count =
              omega (arith, m.rearranged.count, length-contents-set c s it rec slot e slots k g);
        };
        sorted = λ o. (
          m.bound rec (LeList-perm c.lt rec _ _ p (LeList-contents c s rec slots gr l f o)).1,
          m.sorted (SortedSlots-set c s it rec slot e slots k g o),
        );
        bound = λ x b. let q = LeList-perm c.lt x _ _ p b in (q.0, m.bound x q.1);
      }

  -- Enough fuel gives a result.
  merge_loop-Merges :
      (fuel : ℕ) (slots : List (It × Option Rec))
      → Filled c s slots
      → length (contents c s slots) ≤ fuel
      → (out : List Rec) × (merge_loop s.has_next s.next c.less fuel slots ≡ ok out)
        × Merges slots out
  unfolding merge_loop
  merge_loop-Merges zero slots f h = elim (Bool-cases (all_null s.has_next s.next c.less slots)) [
    | inl e ↦ ([], rw e, merge_end slots f e)
    | inr e ↦ absurd (omega (arith, length-contents c s slots e))
  ]
  merge_loop-Merges (suc fuel) slots f h =
      elim (Bool-cases (all_null s.has_next s.next c.less slots)) [
        | inl e ↦ ([], rw e, merge_end slots f e)
        | inr e ↦
            let good = Filled-GoodSlots c s slots f in
            let (m, em, l, gm, (k, it, ki, g)) = min_from-Le c s.has_next s.next 0 slots good e in
            let ik : m.0 ≡ k = omega arith in
            let (slot, ef, ep, es) =
              fetch-pending c s it (Filled-get c s slots k (it, some m.1) f g).0 in
            let (out, eo, mo) =
              merge_loop-Merges fuel (set slots k slot) (Filled-set c s slots k slot f es)
                (omega (arith, length-contents-set c s it m.1 slot ep slots k g)) in
            (
              m.1 ∷ out,
              rw (e, em, ik, g, ef, eo),
              merge_step slots k it m.1 slot out g ep f gm l mo,
            )
      ]

  -- For valid iterators that deliver good records, a test that decides an order on these, and a
  -- round for each of the records: the k-way merge returns, what it writes is a permutation of all
  -- the records, all of them good, and it is sorted if the records of each iterator are.
  pub merge_all-Sorted :
      (its : List It) (fuel : ℕ)
      → AllValid c s its
      → length (remaining_all c s its) ≤ fuel
      → (out : List Rec) × (merge_all s.has_next s.next c.less fuel its ≡ ok out)
        × Rearranges c.Good (remaining_all c s its) out
        × (AllSorted c s its → Sorted c.lt out)
  unfolding merge_all
  merge_all-Sorted its fuel v h =
      let (slots, e, f, q, o) = fetch_all-contents c s its v in
      let (out, eo, m) = merge_loop-Merges fuel slots f (omega (arith, ap length q)) in
      (out, rw e eo, subst (λ r. Rearranges c.Good r out) q m.rearranged, λ a. m.sorted (o a))
