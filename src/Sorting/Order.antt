-- ===== src/Sorting/Order.antt =====
-- What the merge of a2/msort.cc asks of the comparator and of the iterators, and lists of records
-- in the comparator's order.
use mathlib.Core.Bool.{Bool-set}
use mathlib.Core.List.{Perm, Mem, not-mem-nil, forall_mem-cons}
use mathlib.Core.List.Perm
use database_assignments.Base.{ℕ, ◌≡◌, Bool, true, false, List, [], ◌∷◌, ◌++◌, Run, ok, length}

abbrev pub Rec : Type 0
Rec = List ℕ

-- A comparator: `less` decides a strict order on the records that are `Good`.
pub record Comparison : Type 1 where
  pub less : Rec → Rec → Run Bool
  pub lt : Rec → Rec → Bool
  pub Good : Rec → Type 0
  pub decides : (a b : Rec) → Good a → Good b → less a b ≡ ok (lt a b)
  pub irreflexive : (a : Rec) → Good a → lt a a ≡ false
  pub asymmetric : (a b : Rec) → Good a → Good b → lt a b ≡ true → lt b a ≡ false
  pub transitive :
      (a b c : Rec) → Good a → Good b → Good c → lt b a ≡ false → lt c b ≡ false → lt c a ≡ false

-- Every record of the list is good.
abbrev pub AllGood : (Rec → Type 0) → List Rec → Type 0
AllGood Good [] = Unit
AllGood Good (r ∷ rs) = Good r × AllGood Good rs

-- An iterator that delivers good records: `remaining` are those that a valid one has left.
pub record Source (Good : Rec → Type 0) (It : Type 0) : Type 1 where
  pub has_next : It → Bool
  pub next : It → Run (It × Rec)
  pub Valid : It → Type 0
  pub remaining : It → List Rec
  pub good : (it : It) → Valid it → AllGood Good (remaining it)
  pub ended : (it : It) → Valid it → has_next it ≡ false → remaining it ≡ []
  pub steps :
      (it : It)
      → Valid it
      → has_next it ≡ true
      → (it' : It) × (rec : Rec) × (next it ≡ ok (it', rec))
        × (remaining it ≡ rec ∷ remaining it')
        × Valid it'

-- `m` is not above any record of the list.
abbrev pub LeList : (Rec → Rec → Bool) → Rec → List Rec → Type 0
LeList lt m [] = Unit
LeList lt m (r ∷ rs) = (lt r m ≡ false) × LeList lt m rs

abbrev pub Sorted : (Rec → Rec → Bool) → List Rec → Type 0
Sorted lt [] = Unit
Sorted lt (r ∷ rs) = LeList lt r rs × Sorted lt rs

-- `out` has the records of `rs` in some order, all of them good.
pub record Rearranges (Good : Rec → Type 0) (rs out : List Rec) : Type 0 where
  pub perm : Perm out rs
  pub good : AllGood Good out
  pub count : length out ≡ length rs

pub AllGood-append :
    (Good : Rec → Type 0) (a b : List Rec) → AllGood Good a → AllGood Good b → AllGood Good (a ++ b)
AllGood-append Good [] b h g = g
AllGood-append Good (r ∷ a) b h g = (h.0, AllGood-append Good a b h.1 g)

module _ (lt : Rec → Rec → Bool) where
  pub LeList-append :
      (m : Rec) (a b : List Rec) → LeList lt m a → LeList lt m b → LeList lt m (a ++ b)
  LeList-append m [] b h g = g
  LeList-append m (r ∷ a) b h g = (h.0, LeList-append m a b h.1 g)

  abbrev LeMembers : Rec → List Rec → Type 0
  LeMembers m a = (x : Rec) → Mem x a → lt x m ≡ false

  LeList-members : (m : Rec) (a : List Rec) → LeList lt m a → LeMembers m a
  LeList-members m [] l = λ x e. absurd (not-mem-nil e)
  LeList-members m (r ∷ a) l =
      (forall_mem-cons (λ x. Bool-set (lt x m) false)).1 (l.0, LeList-members m a l.1)

  members-LeList : (m : Rec) (a : List Rec) → LeMembers m a → LeList lt m a
  members-LeList m [] h = tt
  members-LeList m (r ∷ a) h =
      let (first, rest) = (forall_mem-cons (λ x. Bool-set (lt x m) false)).0 h in
      (first, members-LeList m a rest)

  pub LeList-perm : (m : Rec) (a b : List Rec) → Perm a b → LeList lt m b → LeList lt m a
  LeList-perm m a b p l = members-LeList m a (λ x e. LeList-members m b l x ((Perm.mem_iff p).0 e))

module _ (c : Comparison) where
  -- What is not above a record is not above any record that the record is not above.
  pub LeList-trans :
      (m r : Rec) (a : List Rec)
      → c.Good m
      → c.Good r
      → AllGood c.Good a
      → c.lt r m ≡ false
      → LeList c.lt r a
      → LeList c.lt m a
  LeList-trans m r [] gm gr ga l h = tt
  LeList-trans m r (x ∷ a) gm gr ga l h =
      (c.transitive m r x gm gr ga.0 l h.0, LeList-trans m r a gm gr ga.1 l h.1)
