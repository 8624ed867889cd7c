-- ===== src/Sorting/Integers.antt =====
-- The comparison of integers in a2/library.cc and in a2/bsort.cc.
use database_assignments.Base.{
  ℕ, ◌+◌, ◌-◌, ◌%◌, ◌^◌, ◌<◌, ◌≡◌, ap, refl, Bool, List, arith, Run, ok, stop, ◌>>=◌,
}
use database_assignments.CString.{int_of, characters, atoi}
use database_assignments.Sorting.{int, sign_of, int_cmp}
use database_assignments.Sorting.Tree.{int_sign, compare_values}

sign_of-int_sign :
    (a b : ℕ) → a < 2 ^ 31 → b < 2 ^ 31 → sign_of ((a + (2 ^ 32 - b)) % 2 ^ 32) ≡ int_sign a b
sign_of-int_sign a b ha hb = ground arith

-- On attributes that are not negative, `int_cmp`, which looks at the sign of the difference, and
-- the comparison of the ordered store, which tests both orders, agree.
pub int_cmp-compare_values :
    (float_less : List ℕ → List ℕ → Bool) (lhs rhs : List ℕ)
    → int_of lhs < 2 ^ 31
    → int_of rhs < 2 ^ 31
    → int_cmp lhs rhs ≡ compare_values float_less int lhs rhs
unfolding int_cmp compare_values atoi
int_cmp-compare_values float_less lhs rhs hl hr = by_reads (characters lhs) (characters rhs)
  where
    by_reads :
        (m n : Run (List ℕ))
        → (m >>= (λ s. ok (int_of lhs)) >>= λ a.
            n >>= (λ s. ok (int_of rhs)) >>= λ b. ok (sign_of ((a + (2 ^ 32 - b)) % 2 ^ 32)))
          ≡ (m >>= (λ s. ok (int_of lhs)) >>= λ a.
              n >>= (λ s. ok (int_of rhs)) >>= λ b. ok (int_sign a b))
    by_reads (stop e) n = refl
    by_reads (ok s) (stop e) = refl
    by_reads (ok s) (ok t) = ap ok (sign_of-int_sign (int_of lhs) (int_of rhs) hl hr)
