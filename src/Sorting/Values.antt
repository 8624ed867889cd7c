-- ===== src/Sorting/Values.antt =====
-- The comparison functions of a2/library.cc, one for each type of attribute.
use database_assignments.Base.{
  ℕ, ◌+◌, ◌-◌, ◌%◌, ◌^◌, ◌<◌, ◌≡◌, refl, sym, ap, ◌∙◌, ◌⊎◌, inl, inr, Bool, false, List, [], ◌∷◌,
  arith, ok, ltb, if◌then◌else◌, ◌==◌, Bool-cases,
}
use database_assignments.CString.{Sign, below, same, above, strcmp, characters, int_of, atoi}
use database_assignments.Sorting.{
  AttributeType, int, float, string, sign_of, int_cmp, float_cmp, string_cmp, cmp_fn_of,
}
use database_assignments.Sorting.Signs.{
  Compares, Compares-of, flip, then_sign, Chain, then_sign-Chain,
}

abbrev pub number_sign : ℕ → ℕ → Sign
number_sign x y = if ltb x y then below else if ltb y x then above else same

abbrev pub float_sign : (List ℕ → List ℕ → Bool) → List ℕ → List ℕ → Sign
float_sign float_less a b = if float_less b a then above else if float_less a b then below else same

-- The order of strings by their first different character.
abbrev pub string_sign : List ℕ → List ℕ → Sign
string_sign [] b = same
string_sign (c ∷ a) [] = same
string_sign (c ∷ a) (d ∷ b) = then_sign (number_sign c d) (if c == 0 then same else string_sign a b)

-- There is a terminator.
abbrev pub Terminated : List ℕ → Type 0
Terminated [] = ⊥
Terminated (c ∷ s) = (c ≡ 0) ⊎ Terminated s

Terminated-tail : (c : ℕ) (s : List ℕ) → (c == 0) ≡ false → Terminated (c ∷ s) → Terminated s
Terminated-tail c s h (inl e) = absurd (ground arith)
Terminated-tail c s h (inr t) = t

pub characters-Terminated : (s : List ℕ) → Terminated s → (t : List ℕ) × (characters s ≡ ok t)
unfolding characters
characters-Terminated [] g = absurd g
characters-Terminated (c ∷ s) g = elim (Bool-cases (c == 0)) [
  | inl e ↦ ([], rw e refl)
  | inr e ↦
      let (t, read) = characters-Terminated s (Terminated-tail c s e g) in
      (c ∷ t, rw (e, read) refl)
]

pub atoi-Terminated : (s : List ℕ) → Terminated s → atoi s ≡ ok (int_of s)
unfolding atoi
atoi-Terminated s g = rw ((characters-Terminated s g).1) refl

pub number_sign-Compares : Compares (λ x. Unit) number_sign
number_sign-Compares = record {
  same_self = λ x g. ground arith;
  flips = λ x y g h. ground arith;
  transitive = λ x y z g h k p q. ground arith;
}

number_sign-same : (c d : ℕ) → number_sign c d ≡ same → c ≡ d
number_sign-same c d h = elim (Bool-cases (ltb c d)) [
  | inl e ↦ absurd (ground arith)
  | inr e ↦ ground arith
]

string_sign-same_self : (s : List ℕ) → string_sign s s ≡ same
string_sign-same_self [] = refl
string_sign-same_self (c ∷ s) = ground (arith, string_sign-same_self s)

string_sign-flips : (a b : List ℕ) → string_sign b a ≡ flip (string_sign a b)
string_sign-flips [] [] = refl
string_sign-flips [] (d ∷ b) = refl
string_sign-flips (c ∷ a) [] = refl
string_sign-flips (c ∷ a) (d ∷ b) = ground (arith, string_sign-flips a b)

string_sign-transitive :
    (a b c : List ℕ)
    → Terminated a
    → Terminated b
    → Terminated c
    → Chain (string_sign a b) (string_sign b c) (string_sign a c)
string_sign-transitive [] b c g h k = absurd g
string_sign-transitive (x ∷ a) [] c g h k = absurd h
string_sign-transitive (x ∷ a) (y ∷ b) [] g h k = absurd k
string_sign-transitive (x ∷ a) (y ∷ b) (z ∷ c) g h k =
    then_sign-Chain (number_sign x y) (number_sign y z) (number_sign x z)
      (if x == 0 then same else string_sign a b) (if y == 0 then same else string_sign b c)
      (if x == 0 then same else string_sign a c) (numbers.transitive x y z tt tt tt)
      (rw (← numbers.flips x z tt tt, ← numbers.flips y z tt tt)
        (numbers.transitive z x y tt tt tt))
      (rw (← numbers.flips x z tt tt, ← numbers.flips x y tt tt)
        (numbers.transitive y z x tt tt tt))
      (λ p q _.
        tails (string_sign-transitive a b c) (number_sign-same x y p) (number_sign-same y z q))
  where
    numbers : Compares (λ w. Unit) number_sign
    numbers = number_sign-Compares

    tails :
        (Terminated a
          → Terminated b
          → Terminated c
          → Chain (string_sign a b) (string_sign b c) (string_sign a c))
        → x ≡ y
        → y ≡ z
        → Chain
            (if x == 0 then same else string_sign a b)
            (if y == 0 then same else string_sign b c)
            (if x == 0 then same else string_sign a c)
    tails chain e f = elim (Bool-cases (x == 0)) [
      | inl n ↦ rw n (λ _ _. refl)
      | inr n ↦
          let m : (y == 0) ≡ false = ap (λ w. w == 0) (sym e) ∙ n in
          let l : (z == 0) ≡ false = ap (λ w. w == 0) (sym f) ∙ m in
          rw (n, m)
            (chain (Terminated-tail x a n g) (Terminated-tail y b m h) (Terminated-tail z c l k))
    ]

pub string_sign-Compares : Compares Terminated string_sign
string_sign-Compares = record {
  same_self = λ a g. string_sign-same_self a;
  flips = λ a b g h. string_sign-flips a b;
  transitive = string_sign-transitive;
}

pub strcmp-string_sign :
    (a b : List ℕ) → Terminated a → Terminated b → strcmp a b ≡ ok (string_sign a b)
unfolding strcmp
strcmp-string_sign [] b g h = absurd g
strcmp-string_sign (c ∷ a) [] g h = absurd h
strcmp-string_sign (c ∷ a) (d ∷ b) g h = elim (Bool-cases (c == 0)) [
  | inl e ↦ ground arith
  | inr e ↦ elim (Bool-cases (d == 0)) [
    | inl f ↦ ground arith
    | inr f ↦
        ground (arith, strcmp-string_sign a b (Terminated-tail c a e g) (Terminated-tail d b f h))
  ]
]

module _ (float_less : List ℕ → List ℕ → Bool) (IsNumber : List ℕ → Type 0) where
  -- The values that a comparison function orders, with a terminator: integers that are not
  -- negative, floats that are numbers, strings.
  abbrev pub GoodValue : AttributeType → List ℕ → Type 0
  GoodValue int v = Terminated v × (int_of v < 2 ^ 31)
  GoodValue float v = Terminated v × IsNumber v
  GoodValue string v = Terminated v

  abbrev pub value_sign : AttributeType → List ℕ → List ℕ → Sign
  value_sign int a b = number_sign (int_of a) (int_of b)
  value_sign float a b = float_sign float_less a b
  value_sign string a b = string_sign a b

  sign_of-number_sign :
      (x y : ℕ) → x < 2 ^ 31 → y < 2 ^ 31 → sign_of ((x + (2 ^ 32 - y)) % 2 ^ 32) ≡ number_sign x y
  sign_of-number_sign x y h g = ground arith

  pub cmp_fn_of-value_sign :
      (type : AttributeType) (a b : List ℕ)
      → GoodValue type a
      → GoodValue type b
      → cmp_fn_of float_less type a b ≡ ok (value_sign type a b)
  unfolding int_cmp float_cmp string_cmp
  cmp_fn_of-value_sign int a b g h =
      rw (atoi-Terminated a g.0, atoi-Terminated b h.0)
        (ap ok (sign_of-number_sign (int_of a) (int_of b) g.1 h.1))
  cmp_fn_of-value_sign float a b g h =
      rw ((characters-Terminated a g.0).1, (characters-Terminated b h.0).1) refl
  cmp_fn_of-value_sign string a b g h = strcmp-string_sign a b g h

  pub value_sign-Compares :
      Compares IsNumber (float_sign float_less)
      → (type : AttributeType) → Compares (GoodValue type) (value_sign type)
  value_sign-Compares floats int =
      Compares-of {GoodB = λ x. Unit} int_of (λ a g. tt) number_sign-Compares
  value_sign-Compares floats float = Compares-of (λ a. a) (λ a g. g.1) floats
  value_sign-Compares floats string = string_sign-Compares
