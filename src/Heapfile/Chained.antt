-- ===== src/Heapfile/Chained.antt =====
-- The directories of a heap file of a1/heapfile.cpp as a chain in the file, when one of them is
-- changed or a new one is linked.
use database_assignments.Base.{
  ℕ, zero, suc, ◌^◌, ◌≤◌, ◌<◌, ◌≡◌, refl, sym, ap, subst, ◌∙◌, inl, inr, List, [], ◌∷◌, ◌++◌, arith,
  ok, ok_injective, load, load_int, load_int-ok, int_at-splice_self, length-splice, le_bytes,
  length, set,
}
use database_assignments.Directory.{Directory, next_directory}
use database_assignments.Heapfile.Closing.{AreApart, HasBlock, ApartFromAll, HaveBlocks}
use database_assignments.Heapfile.Opening.{AreLinked}
use database_assignments.Heapfile.Linked.{link}

-- Two directories of the same block.
pub record SameBlock (d d' : Directory) : Type 0 where
  pub offset : d'.offset ≡ d.offset
  pub capacity : d'.capacity ≡ d.capacity
  pub size : length d'.bytes ≡ length d.bytes

-- And of the same next directory.
pub record SameLinks (d d' : Directory) : Type 0 where
  pub block : SameBlock d d'
  pub next : load_int d'.bytes next_directory ≡ load_int d.bytes next_directory

SameBlock-refl : (d : Directory) → SameBlock d d
SameBlock-refl d = record { offset = refl; capacity = refl; size = refl }

SameLinks-refl : (d : Directory) → SameLinks d d
SameLinks-refl d = record { block = SameBlock-refl d; next = refl }

-- Related directories at the same places.
abbrev pub Pairwise : (Directory → Directory → Type 0) → List Directory → List Directory → Type 0
Pairwise R [] [] = Unit
Pairwise R (d ∷ ds) (e ∷ es) = R d e × Pairwise R ds es
Pairwise R [] (e ∷ es) = ⊥
Pairwise R (d ∷ ds) [] = ⊥

module _ (R : Directory → Directory → Type 0) (reflexive : (d : Directory) → R d d) where
  Pairwise-refl : (ds : List Directory) → Pairwise R ds ds
  Pairwise-refl [] = tt
  Pairwise-refl (d ∷ ds) = (reflexive d, Pairwise-refl ds)

  Pairwise-set :
      (ds : List Directory) (k : ℕ) (d d' : Directory)
      → load ds k ≡ ok d
      → R d d'
      → Pairwise R ds (set ds k d')
  Pairwise-set [] k d d' e s = tt
  Pairwise-set (x ∷ ds) zero d d' e s =
      (subst (λ y. R y d') (sym (ok_injective e)) s, Pairwise-refl ds)
  Pairwise-set (x ∷ ds) (suc k) d d' e s = (reflexive x, Pairwise-set ds k d d' e s)

  Pairwise-last :
      (before : List Directory) (d d' : Directory)
      → R d d'
      → Pairwise R (before ++ d ∷ []) (before ++ d' ∷ [])
  Pairwise-last [] d d' s = (s, tt)
  Pairwise-last (b ∷ before) d d' s = (reflexive b, Pairwise-last before d d' s)

abbrev pub AreSame : List Directory → List Directory → Type 0
AreSame ds es = Pairwise SameLinks ds es

abbrev pub HaveSameBlocks : List Directory → List Directory → Type 0
HaveSameBlocks ds es = Pairwise SameBlock ds es

pub AreSame-refl : (ds : List Directory) → AreSame ds ds
AreSame-refl = Pairwise-refl SameLinks SameLinks-refl

pub AreSame-set :
    (ds : List Directory) (k : ℕ) (d d' : Directory)
    → load ds k ≡ ok d
    → SameLinks d d'
    → AreSame ds (set ds k d')
AreSame-set = Pairwise-set SameLinks SameLinks-refl

pub AreSame-last :
    (before : List Directory) (d d' : Directory)
    → SameLinks d d'
    → AreSame (before ++ d ∷ []) (before ++ d' ∷ [])
AreSame-last = Pairwise-last SameLinks SameLinks-refl

pub HaveSameBlocks-last :
    (before : List Directory) (d d' : Directory)
    → SameBlock d d'
    → HaveSameBlocks (before ++ d ∷ []) (before ++ d' ∷ [])
HaveSameBlocks-last = Pairwise-last SameBlock SameBlock-refl

pub AreSame-HaveSameBlocks : (ds es : List Directory) → AreSame ds es → HaveSameBlocks ds es
AreSame-HaveSameBlocks [] [] a = tt
AreSame-HaveSameBlocks [] (e ∷ es) a = absurd a
AreSame-HaveSameBlocks (d ∷ ds) [] a = absurd a
AreSame-HaveSameBlocks (d ∷ ds) (e ∷ es) (s, a) = (s.block, AreSame-HaveSameBlocks ds es a)

AreLinked-same :
    (d d' : Directory) (ds ds' : List Directory)
    → SameLinks d d'
    → AreSame ds ds'
    → AreLinked d ds
    → AreLinked d' ds'
AreLinked-same d d' [] [] s a l = s.next ∙ l
AreLinked-same d d' [] (e' ∷ ds') s a l = absurd a
AreLinked-same d d' (e ∷ ds) [] s a l = absurd a
AreLinked-same d d' (e ∷ ds) (e' ∷ ds') s (t, a) (l, p, r) = (
  s.next ∙ l ∙ ap ok (sym t.block.offset),
  subst (λ o. 0 < o) (sym t.block.offset) p,
  AreLinked-same e e' ds ds' t a r,
)

pub ApartFromAll-same :
    (n x : ℕ) (ds ds' : List Directory)
    → HaveSameBlocks ds ds'
    → ApartFromAll n x ds
    → ApartFromAll n x ds'
ApartFromAll-same n x [] [] a h = tt
ApartFromAll-same n x [] (e' ∷ ds') a h = absurd a
ApartFromAll-same n x (e ∷ ds) [] a h = absurd a
ApartFromAll-same n x (e ∷ ds) (e' ∷ ds') (t, a) (p, h) =
    (subst (AreApart n x) (sym t.offset) p, ApartFromAll-same n x ds ds' a h)

HasBlock-same :
    (n m m' : ℕ) (d d' : Directory) → m ≤ m' → SameBlock d d' → HasBlock n m d → HasBlock n m' d'
HasBlock-same n m m' d d' le s b = record {
  size = s.size ∙ b.size;
  capacity = s.capacity ∙ b.capacity;
  small = subst (λ o. o < 2 ^ 31) (sym s.offset) b.small;
  inside = omega (arith, s.offset, b.inside, le);
}

pub HaveBlocks-same :
    (n m m' : ℕ) (ds ds' : List Directory)
    → m ≤ m'
    → HaveSameBlocks ds ds'
    → HaveBlocks n m ds
    → HaveBlocks n m' ds'
HaveBlocks-same n m m' [] [] le a h = tt
HaveBlocks-same n m m' [] (e' ∷ ds') le a h = absurd a
HaveBlocks-same n m m' (e ∷ ds) [] le a h = absurd a
HaveBlocks-same n m m' (e ∷ ds) (e' ∷ ds') le (t, a) (b, p, h) = (
  HasBlock-same n m m' e e' le t b,
  subst (λ o. ApartFromAll n o ds') (sym t.offset) (ApartFromAll-same n e.offset ds ds' a p),
  HaveBlocks-same n m m' ds ds' le a h,
)

pub length-same : (ds ds' : List Directory) → HaveSameBlocks ds ds' → length ds' ≡ length ds
length-same [] [] a = refl
length-same [] (e' ∷ ds') a = absurd a
length-same (e ∷ ds) [] a = absurd a
length-same (e ∷ ds) (e' ∷ ds') (t, a) = ap suc (length-same ds ds' a)

-- A block behind the blocks of the directories.
pub ApartFromAll-end :
    (n m x : ℕ) (ds : List Directory) → HaveBlocks n m ds → m ≤ x → ApartFromAll n x ds
ApartFromAll-end n m x [] h le = tt
ApartFromAll-end n m x (d ∷ ds) (b, p, h) le =
    (inr (omega (arith, b.inside, le)), ApartFromAll-end n m x ds h le)

pub ApartFromAll-append :
    (n x : ℕ) (ds : List Directory) (d : Directory)
    → ApartFromAll n x ds
    → AreApart n x d.offset
    → ApartFromAll n x (ds ++ d ∷ [])
ApartFromAll-append n x [] d h a = (a, tt)
ApartFromAll-append n x (e ∷ ds) d (p, h) a = (p, ApartFromAll-append n x ds d h a)

pub HaveBlocks-append :
    (n m m' : ℕ) (ds : List Directory) (d : Directory)
    → m ≤ m'
    → HaveBlocks n m ds
    → m ≤ d.offset
    → HasBlock n m' d
    → HaveBlocks n m' (ds ++ d ∷ [])
HaveBlocks-append n m m' [] d le h at b = (b, tt, tt)
HaveBlocks-append n m m' (e ∷ ds) d le (c, p, h) at b = (
  HasBlock-same n m m' e e le (SameBlock-refl e) c,
  ApartFromAll-append n e.offset ds d p (inl (omega (arith, c.inside, at))),
  HaveBlocks-append n m m' ds d le h at b,
)

-- A chain from the start of the file.
abbrev pub IsChain : List Directory → Type 0
IsChain [] = ⊥
IsChain (d ∷ ds) = (d.offset ≡ 0) × AreLinked d ds

pub IsChain-same : (ds ds' : List Directory) → AreSame ds ds' → IsChain ds → IsChain ds'
IsChain-same [] ds' a c = absurd c
IsChain-same (d ∷ ds) [] a c = absurd a
IsChain-same (d ∷ ds) (d' ∷ ds') (s, a) (z, l) =
    (s.block.offset ∙ z, AreLinked-same d d' ds ds' s a l)

module _ (last new : Directory) (inside : 4 ≤ length last.bytes) (small : new.offset < 2 ^ 32)
    (behind : 0 < new.offset) (ends : load_int new.bytes next_directory ≡ ok 0) where
  next-linked : load_int (link last new.offset).bytes next_directory ≡ ok new.offset
  next-linked =
      load_int-ok (link last new.offset).bytes next_directory
        (omega (arith, inside, length-splice last.bytes next_directory (le_bytes new.offset)))
      ∙ ap ok (int_at-splice_self last.bytes next_directory new.offset inside small)

  AreLinked-append :
      (d : Directory) (before : List Directory)
      → AreLinked d (before ++ last ∷ [])
      → AreLinked d ((before ++ link last new.offset ∷ []) ++ new ∷ [])
  AreLinked-append d [] (l, p, e) = (l, p, (next-linked, behind, ends))
  AreLinked-append d (b ∷ before) (l, p, r) = (l, p, AreLinked-append b before r)

  pub IsChain-append :
      (before : List Directory)
      → IsChain (before ++ last ∷ [])
      → IsChain ((before ++ link last new.offset ∷ []) ++ new ∷ [])
  IsChain-append [] (z, e) = (z, (next-linked, behind, ends))
  IsChain-append (b ∷ before) (z, l) = (z, AreLinked-append b before l)
