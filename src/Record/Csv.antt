-- ===== src/Record/Csv.antt =====
-- Loading a record from a line of comma-separated values, and printing one, in a1/record.cpp.
use mathlib.Core.List.{append_assoc, append-nil}
use database_assignments.Base.{
  ℕ, zero, suc, ◌≡◌, inl, inr, refl, sym, ap, ◌∙◌, false, List, [], ◌∷◌, ◌++◌, ok, ◌==◌,
  if◌then◌else◌, length, Bool-cases, stop, assert_failed, ==_iff, arith, ◌>>=◌,
}
use database_assignments.CString.{Readable, characters, field, split_tokens, tokens}
use database_assignments.CString.Laws.{strncpy-field}
use database_assignments.Record.{
  attribute_size, Record, push_tokens, load_csv_record, print_record_as_csv,
}
use database_assignments.Record.Laws.{clean}

-- No terminator and no comma.
abbrev pub IsPlain : List ℕ → Type 0
IsPlain [] = Unit
IsPlain (c ∷ t) = ((c == 0) ≡ false) × ((c == 44) ≡ false) × IsPlain t

-- Values that stand between commas: plain, and not empty.
abbrev pub AreValues : List (List ℕ) → Type 0
AreValues [] = Unit
AreValues ([] ∷ ts) = ⊥
AreValues ((c ∷ t) ∷ ts) = IsPlain (c ∷ t) × AreValues ts

-- The values with commas between them.
abbrev pub join : List (List ℕ) → List ℕ
join [] = []
join (t ∷ []) = t
join (t ∷ u ∷ ts) = t ++ 44 ∷ join (u ∷ ts)

abbrev pub terminated : List (List ℕ) → Record
terminated [] = []
terminated (t ∷ ts) = (t ++ 0 ∷ []) ∷ terminated ts

abbrev extend : List ℕ → List ℕ × List (List ℕ) → List ℕ × List (List ℕ)
extend t p = (t ++ p.0, p.1)

split_tokens-append : (t s : List ℕ) → IsPlain t → split_tokens (t ++ s) ≡ extend t (split_tokens s)
unfolding split_tokens
split_tokens-append [] s h = refl
split_tokens-append (c ∷ t) s h = rw (split_tokens-append t s h.2, h.0, h.1) refl

split_tokens-join :
    (t : List ℕ) (ts : List (List ℕ))
    → AreValues (t ∷ ts)
    → split_tokens (join (t ∷ ts) ++ 0 ∷ []) ≡ (t, terminated ts)
unfolding split_tokens
split_tokens-join [] ts h = absurd h
split_tokens-join (c ∷ t) [] h =
    split_tokens-append (c ∷ t) (0 ∷ []) h.0 ∙ ap (λ l. (l, [])) (append-nil (c ∷ t))
split_tokens-join (c ∷ t) ([] ∷ ts) h = absurd h.1
split_tokens-join (c ∷ t) ((d ∷ u) ∷ ts) h =
    ap split_tokens (append_assoc (c ∷ t) (44 ∷ join ((d ∷ u) ∷ ts)) (0 ∷ []))
    ∙ split_tokens-append (c ∷ t) (44 ∷ join ((d ∷ u) ∷ ts) ++ 0 ∷ []) h.0
    ∙ rw (split_tokens-join (d ∷ u) ts h.1, append-nil (c ∷ t)) refl

tokens-join : (ts : List (List ℕ)) → AreValues ts → tokens (join ts ++ 0 ∷ []) ≡ terminated ts
unfolding tokens split_tokens
tokens-join [] h = refl
tokens-join ([] ∷ ts) h = absurd h
tokens-join ((c ∷ t) ∷ ts) h = rw (split_tokens-join (c ∷ t) ts h) refl

Readable-terminated : (n : ℕ) (t : List ℕ) → Readable n (t ++ 0 ∷ [])
Readable-terminated zero t = tt
Readable-terminated (suc n) [] = inl refl
Readable-terminated (suc n) (c ∷ t) = inr (Readable-terminated n t)

push_tokens-clean :
    (r : Record) (ts : List (List ℕ))
    → push_tokens r (terminated ts) ≡ ok (r ++ clean (terminated ts))
unfolding push_tokens clean
push_tokens-clean r [] = ap ok (sym (append-nil r))
push_tokens-clean r (t ∷ ts) =
    let a = field attribute_size (t ++ 0 ∷ []) in
    rw
      (
        strncpy-field attribute_size (t ++ 0 ∷ []) (Readable-terminated attribute_size t),
        push_tokens-clean (r ++ (a ++ 0 ∷ []) ∷ []) ts,
      )
      (ap ok (append_assoc r ((a ++ 0 ∷ []) ∷ []) (clean (terminated ts))))

length-clean : (ts : List (List ℕ)) → length (clean (terminated ts)) ≡ length ts
unfolding clean
length-clean [] = refl
length-clean (t ∷ ts) = ap suc (length-clean ts)

-- A line of 100 values with commas between them, none of them empty, is loaded as the record of
-- these values, each cut off at ten bytes. A line of any other number of such values fails the
-- assertion.
pub load_csv_record-clean :
    (ts : List (List ℕ))
    → AreValues ts
    → load_csv_record [] (join ts ++ 0 ∷ [])
      ≡ (if length ts == 100 then ok (clean (terminated ts)) else stop assert_failed)
unfolding load_csv_record
load_csv_record-clean ts h =
    rw (tokens-join ts h, push_tokens-clean [] ts, length-clean ts)
      (elim (Bool-cases (length ts == 100)) [ inl e ↦ rw e refl | inr e ↦ rw e refl ])

characters-plain : (t : List ℕ) → IsPlain t → characters (t ++ 0 ∷ []) ≡ ok t
unfolding characters
characters-plain [] h = refl
characters-plain (c ∷ t) h = rw (characters-plain t h.2, h.0) refl

print_record_as_csv-join :
    (t : List ℕ) (ts : List (List ℕ))
    → AreValues (t ∷ ts)
    → print_record_as_csv (terminated (t ∷ ts)) ≡ ok (join (t ∷ ts) ++ 10 ∷ [])
unfolding print_record_as_csv
print_record_as_csv-join [] ts h = absurd h
print_record_as_csv-join (c ∷ t) [] h = rw (characters-plain (c ∷ t) h.0) refl
print_record_as_csv-join (c ∷ t) ([] ∷ ts) h = absurd h.1
print_record_as_csv-join (c ∷ t) ((d ∷ u) ∷ ts) h =
    rw (characters-plain (c ∷ t) h.0, print_record_as_csv-join (d ∷ u) ts h.1)
      (ap ok (sym (append_assoc (c ∷ t) (44 ∷ join ((d ∷ u) ∷ ts)) (10 ∷ []))))

-- The values as they are read from a printed line: the last has the newline behind it.
abbrev pub add_newline : List (List ℕ) → List (List ℕ)
add_newline [] = []
add_newline (t ∷ []) = (t ++ 10 ∷ []) ∷ []
add_newline (t ∷ u ∷ ts) = t ∷ add_newline (u ∷ ts)

join-add_newline :
    (t : List ℕ) (ts : List (List ℕ)) → join (add_newline (t ∷ ts)) ≡ join (t ∷ ts) ++ 10 ∷ []
join-add_newline t [] = refl
join-add_newline t (u ∷ []) = sym (append_assoc t (44 ∷ u) (10 ∷ []))
join-add_newline t (u ∷ w ∷ ts) =
    ap (λ l. t ++ 44 ∷ l) (join-add_newline u (w ∷ ts))
    ∙ sym (append_assoc t (44 ∷ join (u ∷ w ∷ ts)) (10 ∷ []))

IsPlain-newline : (t : List ℕ) → IsPlain t → IsPlain (t ++ 10 ∷ [])
IsPlain-newline [] h = (refl, refl, tt)
IsPlain-newline (c ∷ t) h = (h.0, h.1, IsPlain-newline t h.2)

AreValues-add_newline : (ts : List (List ℕ)) → AreValues ts → AreValues (add_newline ts)
AreValues-add_newline [] h = h
AreValues-add_newline ([] ∷ ts) h = absurd h
AreValues-add_newline ((c ∷ t) ∷ []) h = (IsPlain-newline (c ∷ t) h.0, tt)
AreValues-add_newline ((c ∷ t) ∷ u ∷ ts) h = (h.0, AreValues-add_newline (u ∷ ts) h.1)

length-add_newline : (ts : List (List ℕ)) → length (add_newline ts) ≡ length ts
length-add_newline [] = refl
length-add_newline (t ∷ []) = refl
length-add_newline (t ∷ u ∷ ts) = ap suc (length-add_newline (u ∷ ts))

-- Printing a record of 100 values without commas, none of them empty, and loading the line gives
-- the record back, each value cut off at ten bytes, where the newline is part of the last value.
pub load_csv_record-print_record_as_csv :
    (ts : List (List ℕ))
    → AreValues ts
    → length ts ≡ 100
    → (print_record_as_csv (terminated ts) >>= λ line. load_csv_record [] (line ++ 0 ∷ []))
      ≡ ok (clean (terminated (add_newline ts)))
load_csv_record-print_record_as_csv [] h n = absurd (omega arith)
load_csv_record-print_record_as_csv (t ∷ ts) h n = rw (print_record_as_csv-join t ts h) (
    ap (λ l. load_csv_record [] (l ++ 0 ∷ [])) (sym (join-add_newline t ts))
    ∙ load_csv_record-clean (add_newline (t ∷ ts)) (AreValues-add_newline (t ∷ ts) h)
    ∙ rw ((==_iff (length (add_newline (t ∷ ts))) 100).1 (length-add_newline (t ∷ ts) ∙ n)) refl)
