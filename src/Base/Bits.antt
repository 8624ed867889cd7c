-- ===== src/Base/Bits.antt =====
-- The flags in a byte: `b & (1 << k)`, `b |= 1 << k`, `b &= ~(1 << k)` and `b >>= 1` on a `char`.
use Prim.Native.Nat.{ℕ, zero, suc, ◌+◌, ◌-◌, ◌*◌, ◌/◌, ◌^◌, ◌<◌, bit_and, bit_or}
use mathlib.Core.Path.{◌≡◌, refl}
use mathlib.Core.Bool.{Bool, true, false, not, ◌&&◌, ◌||◌}
use native.Mathlib.Omega.{arith}
use database_assignments.Base.Tests.{ltb, ◌==◌, ==_iff, if◌then◌else◌, lt→ltb}

-- `byte & (1 << k)` as a condition
abbrev pub has_bit : ℕ → ℕ → Bool
has_bit byte k = not (bit_and byte (2 ^ k) == 0)

-- `byte |= 1 << k`
abbrev pub set_bit : ℕ → ℕ → ℕ
set_bit byte k = bit_or byte (2 ^ k)

-- `byte &= ~(1 << k)`; of the complement only the low eight bits meet the byte
abbrev pub clear_bit : ℕ → ℕ → ℕ
clear_bit byte k = bit_and byte (255 - 2 ^ k)

-- `c >>= 1` on a signed `char`, on its bit pattern: the sign bit is copied
abbrev pub shift_char : ℕ → ℕ
shift_char c = c / 2 + c / 128 * 128

eqb : Bool → Bool → Bool
eqb true b = b
eqb false b = not b

eqb→eq : (a b : Bool) → eqb a b ≡ true → a ≡ b
unfolding eqb
eqb→eq a b h = ground arith

-- `test` passes on each of `bound` numbers from `first` on.
passes : (first bound : ℕ) → (ℕ → Bool) → Bool
passes first zero test = true
passes first (suc bound) test = test first && passes (suc first) bound test

passes_at :
    (first bound : ℕ) (test : ℕ → Bool) (k : ℕ)
    → passes first bound test ≡ true
    → k < bound
    → test (first + k) ≡ true
unfolding passes
passes_at first zero test k all inside = absurd (omega arith)
passes_at first (suc bound) test zero all inside = ground arith
passes_at first (suc bound) test (suc k) all inside =
    let rest = passes_at (suc first) bound test k in ground arith

passes_below :
    (bound : ℕ) (test : ℕ → Bool) (k : ℕ) → passes 0 bound test ≡ true → k < bound → test k ≡ true
passes_below bound test k all inside = let at = passes_at 0 bound test k all inside in ground arith

-- A property of a byte and two bit numbers, for every value.
byte_table : (ℕ → ℕ → ℕ → Bool) → Bool
byte_table p = passes 0 8 (λ j. passes 0 8 (λ k. passes 0 256 (λ b. p j k b)))

byte_table_sound :
    (p : ℕ → ℕ → ℕ → Bool)
    → byte_table p ≡ true
    → (j k b : ℕ) → j < 8
    → k < 8
    → b < 256
    → p j k b ≡ true
unfolding byte_table
byte_table_sound p h j k b hj hk hb =
    passes_below 256 (λ b. p j k b) b
      (passes_below 8 (λ k. passes 0 256 (λ b. p j k b)) k
        (passes_below 8 (λ j. passes 0 8 (λ k. passes 0 256 (λ b. p j k b))) j h hj) hk)
      hb

abbrev set_row : ℕ → ℕ → ℕ → Bool
set_row j k b = eqb (has_bit (set_bit b k) j) (if k == j then true else has_bit b j)

set_table : byte_table set_row ≡ true
unfolding byte_table passes eqb
set_table = refl

-- Setting bit `k` sets that bit and no other.
pub has_bit-set_bit :
    (b k j : ℕ)
    → b < 256
    → k < 8
    → j < 8
    → has_bit (set_bit b k) j ≡ (if k == j then true else has_bit b j)
has_bit-set_bit b k j hb hk hj = eqb→eq _ _ (byte_table_sound set_row set_table j k b hj hk hb)

abbrev clear_row : ℕ → ℕ → ℕ → Bool
clear_row j k b = eqb (has_bit (clear_bit b k) j) (if k == j then false else has_bit b j)

clear_table : byte_table clear_row ≡ true
unfolding byte_table passes eqb
clear_table = refl

-- Clearing bit `k` clears that bit and no other.
pub has_bit-clear_bit :
    (b k j : ℕ)
    → b < 256
    → k < 8
    → j < 8
    → has_bit (clear_bit b k) j ≡ (if k == j then false else has_bit b j)
has_bit-clear_bit b k j hb hk hj =
    eqb→eq _ _ (byte_table_sound clear_row clear_table j k b hj hk hb)

abbrev byte_row : ℕ → ℕ → ℕ → Bool
byte_row j k b = ltb (set_bit b k) 256 && ltb (clear_bit b k) 256

byte_row_table : byte_table byte_row ≡ true
unfolding byte_table passes
byte_row_table = refl

-- Both stay bytes.
pub set_bit-lt : (b k : ℕ) → b < 256 → k < 8 → set_bit b k < 256
set_bit-lt b k hb hk =
    let h = byte_table_sound byte_row byte_row_table 0 k b (omega arith) hk hb in ground arith

pub clear_bit-lt : (b k : ℕ) → b < 256 → k < 8 → clear_bit b k < 256
clear_bit-lt b k hb hk =
    let h = byte_table_sound byte_row byte_row_table 0 k b (omega arith) hk hb in ground arith

abbrev shift_row : ℕ → ℕ → ℕ → Bool
shift_row j k b = not (ltb j 7) || eqb (has_bit (shift_char b) j) (has_bit b (suc j))

shift_table : byte_table shift_row ≡ true
unfolding byte_table passes eqb
shift_table = refl

-- A shift moves each bit one place down.
pub has_bit-shift_char : (b j : ℕ) → b < 256 → j < 7 → has_bit (shift_char b) j ≡ has_bit b (suc j)
has_bit-shift_char b j hb hj =
    let h = byte_table_sound shift_row shift_table j 0 b (omega arith) (omega arith) hb in
    eqb→eq _ _ (rw (lt→ltb j 7 hj) at h)

pub shift_char-lt : (b : ℕ) → b < 256 → shift_char b < 256
shift_char-lt b h = omega arith

abbrev low_row : ℕ → ℕ → ℕ → Bool
low_row j k b = bit_and b 1 == (if has_bit b 0 then 1 else 0)

low_table : byte_table low_row ≡ true
unfolding byte_table passes
low_table = refl

-- `c & 0x01` counts the lowest bit.
pub bit_and-one : (b : ℕ) → b < 256 → bit_and b 1 ≡ (if has_bit b 0 then 1 else 0)
bit_and-one b hb =
    (==_iff _ _).0 (byte_table_sound low_row low_table 0 0 b (omega arith) (omega arith) hb)
