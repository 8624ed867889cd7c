-- ===== src/Sorting/Signs.antt =====
-- The signs that the comparison functions of a2/library.cc return, and orders made of them.
use database_assignments.Base.{◌≡◌, refl, sym, ap, ◌∙◌, Bool, true, false, Run, ok}
use database_assignments.CString.{Sign, below, same, above}

abbrev pub flip : Sign → Sign
flip below = above
flip same = same
flip above = below

abbrev pub at_most : Sign → Bool
at_most below = true
at_most same = true
at_most above = false

abbrev pub is_below : Sign → Bool
is_below below = true
is_below same = false
is_below above = false

-- The second sign decides where the first does not.
abbrev pub then_sign : Sign → Sign → Sign
then_sign below v = below
then_sign same v = v
then_sign above v = above

-- A comparison of the values that are `Good`: a total preorder.
pub record Compares {A : Type 0} (Good : A → Type 0) (sign : A → A → Sign) : Type 0 where
  pub same_self : (a : A) → Good a → sign a a ≡ same
  pub flips : (a b : A) → Good a → Good b → sign b a ≡ flip (sign a b)
  pub transitive :
      (a b c : A)
      → Good a
      → Good b
      → Good c
      → at_most (sign a b) ≡ true
      → at_most (sign b c) ≡ true
      → at_most (sign a c) ≡ true

-- How the source goes on where a sign does not decide.
pub elim-then_sign :
    (x : Sign) (rest : Run Sign) (later : Sign)
    → rest ≡ ok later
    → (elim x [ same ↦ rest | below ↦ ok below | above ↦ ok above ]) ≡ ok (then_sign x later)
elim-then_sign below rest later e = refl
elim-then_sign same rest later e = e
elim-then_sign above rest later e = refl

pub flip-then_sign : (x u : Sign) → flip (then_sign x u) ≡ then_sign (flip x) (flip u)
flip-then_sign below u = refl
flip-then_sign same u = refl
flip-then_sign above u = refl

-- The signs `x`, `y` and `z` of a pair, the next pair and both together, and the later signs.
abbrev pub Chain : Sign → Sign → Sign → Type 0
Chain x y z = at_most x ≡ true → at_most y ≡ true → at_most z ≡ true

pub then_sign-Chain :
    (x y z u v w : Sign)
    → Chain x y z
    → Chain (flip z) x (flip y)
    → Chain y (flip z) (flip x)
    → (x ≡ same → y ≡ same → z ≡ same → Chain u v w)
    → Chain (then_sign x u) (then_sign y v) (then_sign z w)
then_sign-Chain above y z u v w f g h k p q = absurd (cc p)
then_sign-Chain below above z u v w f g h k p q = absurd (cc q)
then_sign-Chain same above z u v w f g h k p q = absurd (cc q)
then_sign-Chain below below below u v w f g h k p q = refl
then_sign-Chain below same below u v w f g h k p q = refl
then_sign-Chain same below below u v w f g h k p q = refl
then_sign-Chain same same below u v w f g h k p q = refl
then_sign-Chain below below above u v w f g h k p q = absurd (cc (f refl refl))
then_sign-Chain below same above u v w f g h k p q = absurd (cc (f refl refl))
then_sign-Chain same below above u v w f g h k p q = absurd (cc (f refl refl))
then_sign-Chain same same above u v w f g h k p q = absurd (cc (f refl refl))
then_sign-Chain below below same u v w f g h k p q = absurd (cc (g refl refl))
then_sign-Chain below same same u v w f g h k p q = absurd (cc (h refl refl))
then_sign-Chain same below same u v w f g h k p q = absurd (cc (g refl refl))
then_sign-Chain same same same u v w f g h k p q = k refl refl refl p q

module _ {A : Type 0} where
  pub Compares-same : {Good : A → Type 0} → Compares Good (λ a b. same)
  Compares-same = record {
    same_self = λ a g. refl;
    flips = λ a b g h. refl;
    transitive = λ a b c g h k p q. refl;
  }

  -- A comparison of what a function yields.
  pub Compares-of :
      {B : Type 0} {Good : A → Type 0} {GoodB : B → Type 0} {sign : B → B → Sign} (f : A → B)
      → ((a : A) → Good a → GoodB (f a))
      → Compares GoodB sign
      → Compares Good (λ a b. sign (f a) (f b))
  Compares-of f good s = record {
    same_self = λ a g. s.same_self (f a) (good a g);
    flips = λ a b g h. s.flips (f a) (f b) (good a g) (good b h);
    transitive = λ a b c g h k. s.transitive (f a) (f b) (f c) (good a g) (good b h) (good c k);
  }

  -- One comparison, and another where the first does not decide.
  pub Compares-then_sign :
      {Good : A → Type 0} {s t : A → A → Sign}
      → Compares Good s
      → Compares Good t
      → Compares Good (λ a b. then_sign (s a b) (t a b))
  Compares-then_sign {Good} {s} {t} first second = record {
    same_self = λ a g. ap (λ x. then_sign x (t a a)) (first.same_self a g) ∙ second.same_self a g;
    flips = λ a b g h.
        rw (first.flips a b g h, second.flips a b g h) (sym (flip-then_sign (s a b) (t a b)));
    transitive = λ a b c g h k.
        then_sign-Chain (s a b) (s b c) (s a c) (t a b) (t b c) (t a c)
          (first.transitive a b c g h k)
          (rw (← first.flips a c g k, ← first.flips b c h k) (first.transitive c a b k g h))
          (rw (← first.flips a c g k, ← first.flips a b g h) (first.transitive b c a h k g))
          (λ _ _ _. second.transitive a b c g h k);
  }
