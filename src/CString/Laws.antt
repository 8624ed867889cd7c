-- ===== src/CString/Laws.antt =====
-- `strncpy` against `field`, its description as a total function.
use database_assignments.Base.{
  ℕ, zero, suc, ◌<◌, ◌≡◌, refl, ap, inl, inr, List, [], ◌∷◌, ◌++◌, arith, ok, ◌==◌, Bool-cases,
  length, get_elem?, replicate,
}
use database_assignments.CString.{strncpy, Readable, field, AreBytes}

pub length-replicate : (n : ℕ) → length {A = ℕ} (replicate n 0) ≡ n
length-replicate zero = refl
length-replicate (suc n) = ap suc (length-replicate n)

pub length-field : (n : ℕ) (s : List ℕ) → length (field n s) ≡ n
unfolding field
length-field zero s = refl
length-field (suc n) [] = length-replicate (suc n)
length-field (suc n) (c ∷ s) = ground (arith, length-replicate n, length-field n s)

pub strncpy-field : (n : ℕ) (s : List ℕ) → Readable n s → strncpy n s ≡ ok (field n s)
unfolding strncpy field
strncpy-field zero s h = refl
strncpy-field (suc n) [] h = absurd h
strncpy-field (suc n) (c ∷ s) (inl e) = ground arith
strncpy-field (suc n) (c ∷ s) (inr h) = ground (arith, strncpy-field n s h)

Readable-zeros : (n : ℕ) (t : List ℕ) → Readable n (replicate n 0 ++ t)
Readable-zeros zero t = tt
Readable-zeros (suc n) t = inl refl

-- A field that has been written is readable as it stands, with or without a terminator.
pub Readable-field : (n : ℕ) (s t : List ℕ) → Readable n (field n s ++ t)
unfolding field
Readable-field zero s t = tt
Readable-field (suc n) [] t = inl refl
Readable-field (suc n) (c ∷ s) t = elim (Bool-cases (c == 0)) [
  | inl e ↦ rw e (inl refl)
  | inr e ↦ rw e (inr (Readable-field n s t))
]

-- Reading a written field gives it back, whatever follows it.
pub field-field : (n : ℕ) (s t : List ℕ) → field n (field n s ++ t) ≡ field n s
unfolding field
field-field zero s t = refl
field-field (suc n) [] t = refl
field-field (suc n) (c ∷ s) t = elim (Bool-cases (c == 0)) [
  | inl e ↦ rw e refl
  | inr e ↦ rw (e, e) (ap (◌∷◌ c) (field-field n s t))
]

-- Only the first `n` bytes matter.
pub strncpy_ext :
    (n : ℕ) (s t : List ℕ)
    → ((i : ℕ) → i < n → get_elem? s i ≡ get_elem? t i)
    → strncpy n s ≡ strncpy n t
unfolding strncpy
strncpy_ext zero s t h = refl
strncpy_ext (suc n) [] [] h = refl
strncpy_ext (suc n) [] (d ∷ t) h = absurd (cc (h 0 (omega arith)))
strncpy_ext (suc n) (c ∷ s) [] h = absurd (cc (h 0 (omega arith)))
strncpy_ext (suc n) (c ∷ s) (d ∷ t) h =
    ground (arith, h 0, strncpy_ext n s t (λ i lt. h (suc i) (omega arith)))

AreBytes-zeros : (n : ℕ) → AreBytes (replicate n 0)
AreBytes-zeros zero = tt
AreBytes-zeros (suc n) = (omega arith, AreBytes-zeros n)

pub AreBytes-field : (n : ℕ) (s : List ℕ) → AreBytes s → AreBytes (field n s)
unfolding field
AreBytes-field zero s h = tt
AreBytes-field (suc n) [] h = AreBytes-zeros (suc n)
AreBytes-field (suc n) (c ∷ s) h = elim (Bool-cases (c == 0)) [
  | inl e ↦ rw e (AreBytes-zeros (suc n))
  | inr e ↦ rw e (h.0, AreBytes-field n s h.1)
]

pub AreBytes-append : (s t : List ℕ) → AreBytes s → AreBytes t → AreBytes (s ++ t)
AreBytes-append [] t h k = k
AreBytes-append (c ∷ s) t h k = (h.0, AreBytes-append s t h.1 k)
