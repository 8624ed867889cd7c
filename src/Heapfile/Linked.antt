-- ===== src/Heapfile/Linked.antt =====
-- A directory that has been linked to the next one, as `append_entry` of a1/heapfile.cpp does, and
-- the lookup of entries in the directories with one more.
use native.Mathlib.Nat.{mul-add-mod_self_right, mod-eq_of_lt, mul-add-div_right, div-eq_of_lt}
use database_assignments.Base.{
  ℕ, zero, suc, ◌+◌, ◌*◌, ◌/◌, ◌%◌, ◌≤◌, ◌<◌, ◌≡◌, ◌≢◌, refl, sym, ap, ◌∙◌, ◌⊎◌, inl, inr, List, [],
  ◌∷◌, ◌++◌, arith, ok, stop, assert_failed, ok_injective, load, load_int-ok, load_int-splice_other,
  int_at-splice_other, le→ltb, below_int, length, splice, length-splice, le_bytes, false,
}
use database_assignments.Directory.{Directory, next_directory, n_entries}
use database_assignments.Directory.Laws.{IsDirectory, count_of}
use database_assignments.Heapfile.EntryAt.{
  entry_at, AreFull, Field, the_offset, the_free_space, place_in,
}

-- The directory whose next one is at `offset`.
abbrev pub link : Directory → ℕ → Directory
link d offset = record d { bytes = splice d.bytes next_directory (le_bytes offset) }

place_in_ge : (f : Field) (i : ℕ) → 8 ≤ place_in f i
place_in_ge the_offset i = omega arith
place_in_ge the_free_space i = omega arith

pub entry_at-link :
    (f : Field) (d : Directory) (offset i : ℕ) → entry_at f (link d offset) i ≡ entry_at f d i
unfolding entry_at
entry_at-link f d offset i =
    let count =
      load_int-splice_other d.bytes next_directory (le_bytes offset) n_entries (omega arith) in
    let entry =
      load_int-splice_other d.bytes next_directory (le_bytes offset) (place_in f i)
        (omega (arith, place_in_ge f i)) in
    rw (count, entry) refl

pub count_of-link : (d : Directory) (offset : ℕ) → count_of (link d offset) ≡ count_of d
count_of-link d offset =
    int_at-splice_other d.bytes next_directory (le_bytes offset) n_entries (omega arith)

pub IsDirectory-link : (d : Directory) (offset : ℕ) → IsDirectory d → IsDirectory (link d offset)
IsDirectory-link d offset v = record {
  counted = omega (arith, v.counted, count_of-link d offset);
  small = v.small;
  inside = omega (arith, v.inside, length-splice d.bytes next_directory (le_bytes offset));
}

pub AreFull-behind :
    (cap : ℕ) (before : List Directory) (d : Directory)
    → AreFull cap before
    → IsDirectory d
    → d.capacity ≡ cap
    → count_of d ≡ cap
    → AreFull cap (before ++ d ∷ [])
AreFull-behind cap [] d g v c n = (v, c, n, tt)
AreFull-behind cap (b ∷ before) d (w, cb, nb, g) v c n =
    (w, cb, nb, AreFull-behind cap before d g v c n)

no_entry : (i n : ℕ) → n ≡ 0 → below_int i n ≡ false
no_entry i n e = rw (e, le→ltb i 0 (omega arith)) refl

pub entry_at-none :
    (f : Field) (d : Directory) (i : ℕ)
    → IsDirectory d
    → count_of d ≡ 0
    → entry_at f d i ≡ stop assert_failed
unfolding entry_at
entry_at-none f d i v e =
    rw (load_int-ok d.bytes n_entries (omega (arith, v.inside)), no_entry i (count_of d) e) refl

pub load_beyond : {A : Type 0} (xs : List A) (k : ℕ) (x : A) → length xs ≤ k → load xs k ≢ ok x
load_beyond [] k x h e = cc e
load_beyond (y ∷ xs) zero x h e = absurd (omega arith)
load_beyond (y ∷ xs) (suc k) x h e = load_beyond xs k x (omega arith) e

module _ (f : Field) (last new : Directory) (offset : ℕ) where
  -- An entry that was there is found as before.
  pub entry_at-earlier :
      (before : List Directory) (k i : ℕ) (d : Directory)
      → load (before ++ last ∷ []) k ≡ ok d
      → (d' : Directory) × (load ((before ++ link last offset ∷ []) ++ new ∷ []) k ≡ ok d')
        × (entry_at f d' i ≡ entry_at f d i)
  entry_at-earlier [] zero i d e = (
    link last offset,
    refl,
    entry_at-link f last offset i ∙ ap (λ w. entry_at f w i) (ok_injective e),
  )
  entry_at-earlier [] (suc k) i d e = absurd (cc e)
  entry_at-earlier (b ∷ before) zero i d e = (b, refl, ap (λ w. entry_at f w i) (ok_injective e))
  entry_at-earlier (b ∷ before) (suc k) i d e = entry_at-earlier before k i d e

  -- An entry that is found is in the new directory, or was there.
  pub entry_at-later :
      (before : List Directory) (k i : ℕ) (d' : Directory)
      → load ((before ++ link last offset ∷ []) ++ new ∷ []) k ≡ ok d'
      → ((k ≡ length (before ++ last ∷ [])) × (d' ≡ new))
        ⊎ ((d : Directory) × (load (before ++ last ∷ []) k ≡ ok d)
            × (entry_at f d' i ≡ entry_at f d i))
  entry_at-later [] zero i d' e =
      inr (
        last,
        refl,
        ap (λ w. entry_at f w i) (sym (ok_injective e)) ∙ entry_at-link f last offset i,
      )
  entry_at-later [] (suc zero) i d' e = inl (refl, sym (ok_injective e))
  entry_at-later [] (suc (suc k)) i d' e = absurd (cc e)
  entry_at-later (b ∷ before) zero i d' e =
      inr (b, refl, ap (λ w. entry_at f w i) (sym (ok_injective e)))
  entry_at-later (b ∷ before) (suc k) i d' e = elim (entry_at-later before k i d' e) [
    | inl (a, w) ↦ inl (ap suc a, w)
    | inr found ↦ inr found
  ]

-- Where the page number of an entry leads.
pub place_of : (cap n c : ℕ) → c < cap → ((n * cap + c) / cap ≡ n) × ((n * cap + c) % cap ≡ c)
place_of cap n c h = (
  mul-add-div_right {m = cap} (omega arith) n c ∙ ap (λ w. n + w) (div-eq_of_lt h) ∙ omega arith,
  mul-add-mod_self_right n cap c ∙ mod-eq_of_lt h,
)
