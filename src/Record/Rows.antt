-- ===== src/Record/Rows.antt =====
-- Records that have been read from a line, as they are stored on a page.
use database_assignments.Base.{
  ℕ, zero, suc, ◌≡◌, refl, ap, ap₂, inl, inr, List, [], ◌∷◌, ◌++◌, arith, ◌==◌, Bool-cases, length,
  replicate,
}
use database_assignments.CString.{field, AreBytes}
use database_assignments.CString.Laws.{Readable-field, field-field}
use database_assignments.Record.{attribute_size, Record}
use database_assignments.Record.Laws.{IsReadable, image, clean}
use database_assignments.Record.Csv.{terminated}

pub IsReadable-clean : (r : Record) → IsReadable (clean r)
unfolding clean
IsReadable-clean [] = tt
IsReadable-clean (a ∷ r) = (Readable-field attribute_size a (0 ∷ []), IsReadable-clean r)

pub clean-clean : (r : Record) → clean (clean r) ≡ clean r
unfolding clean
clean-clean [] = refl
clean-clean (a ∷ r) =
    ap₂ (λ f s. (f ++ 0 ∷ []) ∷ s) (field-field attribute_size a (0 ∷ [])) (clean-clean r)

pub image-clean : (r : Record) → image (clean r) ≡ image r
unfolding image clean
image-clean [] = refl
image-clean (a ∷ r) = ap₂ ◌++◌ (field-field attribute_size a (0 ∷ [])) (image-clean r)

pub length_clean : (r : Record) → length (clean r) ≡ length r
unfolding clean
length_clean [] = refl
length_clean (a ∷ r) = ap suc (length_clean r)

AreBytes-zeros : (n : ℕ) → AreBytes (replicate n 0)
AreBytes-zeros zero = tt
AreBytes-zeros (suc n) = (omega arith, AreBytes-zeros n)

pub AreBytes-append : (a b : List ℕ) → AreBytes a → AreBytes b → AreBytes (a ++ b)
AreBytes-append [] b h k = k
AreBytes-append (c ∷ a) b h k = (h.0, AreBytes-append a b h.1 k)

AreBytes-field : (n : ℕ) (s : List ℕ) → AreBytes s → AreBytes (field n s)
unfolding field
AreBytes-field zero s h = tt
AreBytes-field (suc n) [] h = AreBytes-zeros (suc n)
AreBytes-field (suc n) (c ∷ s) h = elim (Bool-cases (c == 0)) [
  | inl e ↦ rw e (AreBytes-zeros (suc n))
  | inr e ↦ rw e (h.0, AreBytes-field n s h.1)
]

-- Every value is of bytes.
abbrev pub AreText : List (List ℕ) → Type 0
AreText [] = Unit
AreText (t ∷ ts) = AreBytes t × AreText ts

pub AreBytes-terminated : (ts : List (List ℕ)) → AreText ts → AreBytes (image (terminated ts))
unfolding image
AreBytes-terminated [] h = tt
AreBytes-terminated (t ∷ ts) h =
    AreBytes-append (field attribute_size (t ++ 0 ∷ [])) (image (terminated ts))
      (AreBytes-field attribute_size (t ++ 0 ∷ [])
        (AreBytes-append t (0 ∷ []) h.0 (omega arith, tt)))
      (AreBytes-terminated ts h.1)
