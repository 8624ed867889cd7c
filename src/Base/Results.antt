-- ===== src/Base/Results.antt =====
-- What a run of the program can come to: a value, or one of the ways in which it does not return.
use mathlib.Core.Path.{◌≡◌, refl}
use mathlib.Core.Bool.{Bool, true, false}
use mathlib.Core.Option.{Option, none, some}
use mathlib.Core.List.{List}
use Prim.Native.Nat.{ℕ}
use database_assignments.Base.Lists.{get_elem?}

-- `assert_failed`: an `assert` of the program. `out_of_bounds`: an access outside an array or a
-- vector. `exit_failure`: `exit(1)`. `seek_failed`: a seek to a negative offset, after which the
-- program goes on at an offset that the model does not follow. `int_overflow`: a number that is too
-- large for an `int`, after which the model does not follow the program. `division_by_zero`: a
-- division of integers by zero. `out_of_fuel`: a loop that does not end within the rounds that the
-- model gives it.
pub data Fault : Type 0 where
  assert_failed out_of_bounds exit_failure seek_failed int_overflow division_by_zero out_of_fuel :
      Fault

pub data Run {ℓ} (Value : Type ℓ) : Type ℓ where
  stop : Fault → Run Value
  ok : Value → Run Value

infixl 5 ◌>>=◌ ◌>>◌
abbrev pub ◌>>=◌ {ℓ κ} :
    {Value : Type ℓ} {Next : Type κ} (run : Run Value) (rest : Value → Run Next) → Run Next
stop fault >>= rest = stop fault
ok value >>= rest = rest value

abbrev pub ◌>>◌ {κ} : {Next : Type κ} (run : Run (Unit {0})) (rest : Run Next) → Run Next
run >> rest = run >>= (λ _. rest)

-- `assert(b)`
abbrev pub assert : Bool → Run (Unit {0})
assert true = ok tt
assert false = stop assert_failed

abbrev pub or_stop {ℓ} : {A : Type ℓ} → Option A → Fault → Run A
or_stop (some a) e = ok a
or_stop none e = stop e

-- `a[i]`
abbrev pub load {ℓ} : {A : Type ℓ} → List A → ℕ → Run A
load a i = or_stop (get_elem? a i) out_of_bounds

pub ok_injective {ℓ} : {A : Type ℓ} {a b : A} → ok a ≡ ok b → a ≡ b
ok_injective h = cc

-- The value that a bind which returns has passed on.
pub >>=-eq-ok {ℓ κ} :
    {Value : Type ℓ} {Next : Type κ} (run : Run Value) (rest : Value → Run Next) {end : Next}
    (returned : run >>= rest ≡ ok end)
    → (value : Value) × (run ≡ ok value) × (rest value ≡ ok end)
>>=-eq-ok (stop fault) rest returned = cc
>>=-eq-ok (ok value) rest returned = (value, refl, returned)
