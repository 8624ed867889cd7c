-- ===== src/Heapfile/FreeSpace.antt =====
-- The free space in the entries of a heap file of a1/heapfile.cpp, when one of them is written.
use native.Mathlib.Nat.{div-add-mod'}
use native.Mathlib.Decide.{ℕ_discrete}
use database_assignments.Base.{
  ℕ, zero, suc, ◌+◌, ◌*◌, ◌/◌, ◌%◌, ◌≤◌, ◌<◌, ◌^◌, ◌≡◌, ◌≢◌, refl, sym, ap, ap₂, subst, ◌∙◌, ◌⊎◌,
  inl, inr, true, false, List, [], ◌∷◌, arith, ok, ok_injective, >>=-eq-ok, assert, below_int, load,
  load_int, load_int-ok, load_int-splice_other, int_at-splice_self, if◌then◌else◌, ◌==◌, ==_iff,
  length, length-splice, set, splice, le_bytes,
}
use database_assignments.Directory.{Directory, n_entries, entry_free_space}
use database_assignments.Heapfile.{Heapfile, Place, get_entry}
use database_assignments.Heapfile.EntryAt.{the_free_space, lookup}

-- Where an entry stands.
pub record At (h : Heapfile) (pid : ℕ) (place : Place) : Type 0 where
  pub first : Directory
  pub at_first : load h.directory_buffer 0 ≡ ok first
  pub dir_no : place.dir_no ≡ pid / first.capacity
  pub slot_no : place.slot_no ≡ pid % first.capacity
  pub buffered : load h.directory_buffer place.dir_no ≡ ok place.dir
  pub count : ℕ
  pub counted : load_int place.dir.bytes n_entries ≡ ok count
  pub below : assert (below_int place.slot_no count) ≡ ok tt

pub get_entry-At :
    (h : Heapfile) (pid : ℕ) (place : Place) → get_entry h pid ≡ ok place → At h pid place
unfolding get_entry
get_entry-At h pid place e =
    let (first, a, e₁) = >>=-eq-ok (load h.directory_buffer 0) _ e in
    let (dir, b, e₂) = >>=-eq-ok (load h.directory_buffer (pid / first.capacity)) _ e₁ in
    let (n, c, e₃) = >>=-eq-ok (load_int dir.bytes n_entries) _ e₂ in
    let (u, d, e₄) = >>=-eq-ok (assert (below_int (pid % first.capacity) n)) _ e₃ in
    let same = ok_injective e₄ in
    subst (At h pid) same (record {
      first = first;
      at_first = a;
      dir_no = refl;
      slot_no = refl;
      buffered = b;
      count = n;
      counted = c;
      below = d;
    })

pub At-get_entry :
    (h : Heapfile) (pid : ℕ) (place : Place) → At h pid place → get_entry h pid ≡ ok place
unfolding get_entry
At-get_entry h pid place a =
    rw (a.at_first, ← a.dir_no, ← a.slot_no, a.buffered, a.counted, a.below) refl

load-set :
    (dirs : List Directory) (k j : ℕ) (d' x : Directory)
    → load dirs j ≡ ok x
    → load (set dirs k d') j ≡ ok (if k == j then d' else x)
load-set [] k j d' x e = absurd (cc e)
load-set (d ∷ dirs) zero zero d' x e = refl
load-set (d ∷ dirs) zero (suc j) d' x e =
    let other : (zero == suc j) ≡ false = ground arith in rw other e
load-set (d ∷ dirs) (suc k) zero d' x e =
    let other : (suc k == zero) ≡ false = ground arith in rw other e
load-set (d ∷ dirs) (suc k) (suc j) d' x e =
    let same : (suc k == suc j) ≡ (k == j) = ground arith in rw same (load-set dirs k j d' x e)

module _ (h h' : Heapfile) (pid v : ℕ) (place : Place) (a : At h pid place) where
  abbrev pub stored : Directory
  stored = record place.dir {
    bytes = splice place.dir.bytes (entry_free_space place.slot_no) (le_bytes v);
  }

  count-stored : load_int stored.bytes n_entries ≡ load_int place.dir.bytes n_entries
  count-stored =
      load_int-splice_other place.dir.bytes (entry_free_space place.slot_no) (le_bytes v) n_entries
        (omega arith)

  -- What is in the buffer where `x` was.
  abbrev Replaces : ℕ → Directory → Directory → Type 0
  Replaces j x x' =
      ((place.dir_no ≡ j) × (x ≡ place.dir) × (x' ≡ stored)) ⊎ ((place.dir_no ≢ j) × (x' ≡ x))

  Replaces-capacity : (j : ℕ) (x x' : Directory) → Replaces j x x' → x'.capacity ≡ x.capacity
  Replaces-capacity j x x' (inl (_, w, y)) = rw (y, w) refl
  Replaces-capacity j x x' (inr (_, y)) = ap (λ (d : Directory). d.capacity) y

  Replaces-count :
      (j : ℕ) (x x' : Directory)
      → Replaces j x x'
      → load_int x'.bytes n_entries ≡ load_int x.bytes n_entries
  Replaces-count j x x' (inl (_, w, y)) = rw (y, w) count-stored
  Replaces-count j x x' (inr (_, y)) = rw y refl

  module _ (e : h'.directory_buffer ≡ set h.directory_buffer place.dir_no stored) where
    after_cases :
        (j : ℕ) (x : Directory)
        → load h.directory_buffer j ≡ ok x
        → (x' : Directory) × (load h'.directory_buffer j ≡ ok x') × Replaces j x x'
    after_cases j x l =
        let there =
          ap (λ ds. load ds j) e ∙ load-set h.directory_buffer place.dir_no j stored x l in
        elim (ℕ_discrete place.dir_no j) [
          | yes w ↦
              let hit : (place.dir_no == j) ≡ true = (==_iff place.dir_no j).1 w in
              let same = ok_injective (sym l ∙ ap (load h.directory_buffer) (sym w) ∙ a.buffered) in
              (stored, there ∙ ap (λ b. ok (if b then stored else x)) hit, inl (w, same, refl))
          | no ne ↦
              let miss : (place.dir_no == j) ≡ false = ground arith in
              (x, there ∙ ap (λ b. ok (if b then stored else x)) miss, inr (ne, refl))
        ]

    At-stored :
        (q : ℕ) (other : Place)
        → At h q other
        → (d' : Directory) × At h' q (record other { dir = d' })
          × Replaces other.dir_no other.dir d'
    At-stored q other b =
        let (first', l, c) = after_cases 0 b.first b.at_first in
        let (d', l', r) = after_cases other.dir_no other.dir b.buffered in
        let same = Replaces-capacity 0 b.first first' c in
        (
          d',
          record {
            first = first';
            at_first = l;
            dir_no = b.dir_no ∙ ap (λ n. q / n) (sym same);
            slot_no = b.slot_no ∙ ap (λ n. q % n) (sym same);
            buffered = l';
            count = b.count;
            counted = Replaces-count other.dir_no other.dir d' r ∙ b.counted;
            below = b.below;
          },
          r,
        )

    -- The entry that is written.
    pub lookup-stored :
        v < 2 ^ 32
        → entry_free_space place.slot_no + 4 ≤ length place.dir.bytes
        → lookup the_free_space h' pid ≡ ok v
    unfolding lookup
    lookup-stored small inside =
        let (d', b, r) = At-stored pid place a in
        rw (At-get_entry h' pid (record place { dir = d' }) b) (elim r [
          | inl (_, _, y) ↦ rw y (
              load_int-ok stored.bytes (entry_free_space place.slot_no) (
                omega (
                  arith,
                  inside,
                  length-splice place.dir.bytes (entry_free_space place.slot_no) (le_bytes v),
                ))
              ∙ ap ok (
                  int_at-splice_self place.dir.bytes (entry_free_space place.slot_no) v inside
                    small))
          | inr (ne, _) ↦ absurd (ne refl)
        ])

    other_slot :
        (q : ℕ) (other : Place)
        → q ≢ pid
        → At h q other
        → place.dir_no ≡ other.dir_no
        → other.slot_no ≢ place.slot_no
    other_slot q other ne b w s =
        let c : b.first.capacity ≡ a.first.capacity =
          ap (λ (d : Directory). d.capacity) (ok_injective (sym b.at_first ∙ a.at_first)) in
        let n = a.first.capacity in
        let quotient : q / n ≡ pid / n =
          ap (λ t. q / t) (sym c) ∙ sym b.dir_no ∙ sym w ∙ a.dir_no in
        let rest : q % n ≡ pid % n = ap (λ t. q % t) (sym c) ∙ sym b.slot_no ∙ s ∙ a.slot_no in
        ne (sym (div-add-mod' q n) ∙ ap₂ (λ t u. t * n + u) quotient rest ∙ div-add-mod' pid n)

    -- Every other entry.
    pub lookup-stored_other :
        (q : ℕ) (other : Place)
        → q ≢ pid
        → At h q other
        → lookup the_free_space h' q ≡ lookup the_free_space h q
    unfolding lookup
    lookup-stored_other q other ne b =
        let (d', b', r) = At-stored q other b in
        rw (At-get_entry h' q (record other { dir = d' }) b', At-get_entry h q other b)
          (elim r [
            | inl (w, same, y) ↦
                let apart = other_slot q other ne b w in
                rw (y, same)
                  (load_int-splice_other place.dir.bytes (entry_free_space place.slot_no)
                    (le_bytes v) (entry_free_space other.slot_no) (omega (arith, apart)))
            | inr (_, y) ↦ rw y refl
          ])
