-- ===== src/Base/Memory.antt =====
-- Blocks and 32-bit integers in a byte array. An `int` is kept as its bit pattern, a number below
-- 2 ^ 32; the patterns from 2 ^ 31 on are the negative values. The low byte comes first.
use database_assignments.Base.Lists.{
  length, get_elem?, get_or, splice, length-splice, get_or_cong, get_elem?-drop, drop-splice,
  get_elem?-splice_before, get_elem?-splice_after,
}
use database_assignments.Base.Results.{Run, ok, stop, out_of_bounds}
use database_assignments.Base.Tests.{leb, ltb, le→leb, if◌then◌else◌}
use Prim.Native.Nat.{ℕ, zero, suc, ◌+◌, ◌*◌, ◌/◌, ◌%◌, ◌^◌, ◌≤◌, ◌<◌}
use mathlib.Core.Path.{◌≡◌, refl, sym, ◌∙◌}
use mathlib.Core.Logic.{◌⊎◌, inl, inr}
use mathlib.Core.Bool.{Bool, ◌&&◌}
use mathlib.Core.List.{List, [], ◌∷◌, ◌++◌}
use native.Mathlib.Omega.{arith}

-- The bytes `b` written to `mem + off`.
abbrev pub store : List ℕ → ℕ → List ℕ → Run (List ℕ)
store mem off b =
    if leb (off + length b) (length mem) then ok (splice mem off b) else stop out_of_bounds

abbrev pub le_bytes : ℕ → List ℕ
le_bytes v = (v % 256) ∷ (v / 256 % 256) ∷ (v / 65536 % 256) ∷ (v / 16777216 % 256) ∷ []

unfoldable pub int_at : List ℕ → ℕ → ℕ
int_at mem off =
    get_or mem off 0
    + 256 * get_or mem (off + 1) 0
    + 65536 * get_or mem (off + 2) 0
    + 16777216 * get_or mem (off + 3) 0

-- `*(int *) (mem + off)`
unfoldable pub load_int : List ℕ → ℕ → Run ℕ
load_int mem off = if leb (off + 4) (length mem) then ok (int_at mem off) else stop out_of_bounds

-- `*(int *) (mem + off) = v`
unfoldable pub store_int : List ℕ → ℕ → ℕ → Run (List ℕ)
store_int mem off v = store mem off (le_bytes v)

-- `v > 0` and `i < v`, for an `int` `v` and a nonnegative `i`
abbrev pub is_positive : ℕ → Bool
is_positive v = ltb 0 v && ltb v (2 ^ 31)

abbrev pub below_int : ℕ → ℕ → Bool
below_int i v = ltb i v && ltb v (2 ^ 31)

pub load_int-ok :
    (mem : List ℕ) (off : ℕ) → off + 4 ≤ length mem → load_int mem off ≡ ok (int_at mem off)
unfolding load_int
load_int-ok mem off h = rw (le→leb (off + 4) (length mem) h) refl

pub store_int-ok :
    (mem : List ℕ) (off v : ℕ)
    → off + 4 ≤ length mem
    → store_int mem off v ≡ ok (splice mem off (le_bytes v))
unfolding store_int
store_int-ok mem off v h = rw (le→leb (off + 4) (length mem) h) refl

-- What stands at an index of a block that has been written.
pub get_or-splice_in :
    (mem : List ℕ) (off : ℕ) (b : List ℕ) (j i : ℕ)
    → off + length b ≤ length mem
    → i ≡ off + j
    → j < length b
    → get_or (splice mem off b) i 0 ≡ get_or b j 0
get_or-splice_in mem off b j i h e hj = get_or_cong (splice mem off b) b i j 0 (
    rw e (
      sym (get_elem?-drop off (splice mem off b) j)
      ∙ (rw (drop-splice mem off b h) (get_elem?-append b _ j hj))))
  where
    get_elem?-append : (b c : List ℕ) (j : ℕ) → j < length b → get_elem? (b ++ c) j ≡ get_elem? b j
    get_elem?-append [] c j h = absurd (omega arith)
    get_elem?-append (x ∷ b) c zero h = refl
    get_elem?-append (x ∷ b) c (suc j) h = get_elem?-append b c j (omega arith)

pub int_at-splice_self :
    (mem : List ℕ) (off v : ℕ)
    → off + 4 ≤ length mem
    → v < 2 ^ 32
    → int_at (splice mem off (le_bytes v)) off ≡ v
unfolding int_at
int_at-splice_self mem off v h hv =
    let at =
      λ (j i : ℕ) (e : i ≡ off + j) (l : j < 4). get_or-splice_in mem off (le_bytes v) j i h e l in
    omega (
      arith,
      at 0 off (omega arith) (omega arith),
      at 1 (off + 1) refl (omega arith),
      at 2 (off + 2) refl (omega arith),
      at 3 (off + 3) refl (omega arith),
    )

-- A block that is written elsewhere leaves an integer as it is.
pub int_at-splice_other :
    (mem : List ℕ) (off : ℕ) (b : List ℕ) (o : ℕ)
    → (o + 4 ≤ off) ⊎ (off + length b ≤ o)
    → int_at (splice mem off b) o ≡ int_at mem o
unfolding int_at
int_at-splice_other mem off b o h = omega (
  arith,
  at 0 o (omega arith) (omega arith),
  at 1 (o + 1) refl (omega arith),
  at 2 (o + 2) refl (omega arith),
  at 3 (o + 3) refl (omega arith),
)
  where
    at : (k i : ℕ) → i ≡ o + k → k < 4 → get_or (splice mem off b) i 0 ≡ get_or mem i 0
    at k i e l = side h
      where
        side : (o + 4 ≤ off) ⊎ (off + length b ≤ o) → get_or (splice mem off b) i 0 ≡ get_or mem i 0
        side (inl a) =
            get_or_cong (splice mem off b) mem i i 0
              (get_elem?-splice_before mem off b i (omega arith))
        side (inr a) =
            get_or_cong (splice mem off b) mem i i 0
              (get_elem?-splice_after mem off b i (omega arith))

pub load_int-splice_other :
    (mem : List ℕ) (off : ℕ) (b : List ℕ) (o : ℕ)
    → (o + 4 ≤ off) ⊎ (off + length b ≤ o)
    → load_int (splice mem off b) o ≡ load_int mem o
unfolding load_int
load_int-splice_other mem off b o h =
    rw (length-splice mem off b, int_at-splice_other mem off b o h) refl
