-- ===== src/CString/Tests.antt =====
-- The C string functions on small inputs.
use database_assignments.Base.{ℕ, ◌≡◌, refl, List, [], ◌∷◌, ok}
use database_assignments.CString.{
  fgets_from, fgets_lines, int_of, read_signed, read_digits, strcmp, below,
}

-- "a\nbc"
abbrev two_lines : List ℕ
two_lines = 97 ∷ 10 ∷ 98 ∷ 99 ∷ []

two_lines_read : fgets_lines two_lines ≡ (97 ∷ 10 ∷ 0 ∷ []) ∷ (98 ∷ 99 ∷ 0 ∷ []) ∷ []
unfolding fgets_lines fgets_from
two_lines_read = refl

-- " -42x"
negative_number : int_of (32 ∷ 45 ∷ 52 ∷ 50 ∷ 120 ∷ 0 ∷ []) ≡ 4294967254
unfolding int_of read_signed read_digits
negative_number = refl

-- "ab" and "b"
words : strcmp (97 ∷ 98 ∷ 0 ∷ []) (98 ∷ 0 ∷ []) ≡ ok below
unfolding strcmp
words = refl
