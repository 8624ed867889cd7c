-- ===== src/CString.antt =====
-- The C string functions that the program calls, over memory as a list of bytes: a `char *` is
-- the list of the bytes that may be read from it on. Reading past the list's end is a fault.
pub mod Laws
mod Tests
use database_assignments.Base.{
  ℕ, zero, suc, ◌+◌, ◌<◌, ◌≡◌, ◌⊎◌, Bool, List, [], ◌∷◌, ◌++◌, Run, ok, stop, out_of_bounds, ◌>>=◌,
  ◌==◌, if◌then◌else◌, replicate, ◌-◌, ◌*◌, ◌%◌, ◌^◌, ◌||◌, ◌&&◌, leb, ltb,
}

-- The `n` bytes that `strncpy(dest, s, n)` writes: the string, then zeros up to `n` bytes.
unfoldable pub strncpy : ℕ → List ℕ → Run (List ℕ)
strncpy zero s = ok []
strncpy (suc n) [] = stop out_of_bounds
strncpy (suc n) (c ∷ s) =
    let rest = strncpy n s >>= λ b. ok (c ∷ b) in if c == 0 then ok (replicate (suc n) 0) else rest

-- `strncpy(dest, s, n)` stays inside `s`: it holds a terminator, or at least `n` bytes.
abbrev pub Readable : ℕ → List ℕ → Type 0
Readable zero s = Unit
Readable (suc n) [] = ⊥
Readable (suc n) (c ∷ s) = (c ≡ 0) ⊎ Readable n s

-- The first `n` bytes of the string, padded by zeros.
unfoldable pub field : ℕ → List ℕ → List ℕ
field zero s = []
field (suc n) [] = replicate (suc n) 0
field (suc n) (c ∷ s) = if c == 0 then replicate (suc n) 0 else c ∷ field n s

-- Every element is a byte.
abbrev pub AreBytes : List ℕ → Type 0
AreBytes [] = Unit
AreBytes (c ∷ s) = (c < 256) × AreBytes s

-- The characters of the string at `s`, without the terminator.
unfoldable pub characters : List ℕ → Run (List ℕ)
characters [] = stop out_of_bounds
characters (c ∷ s) = let rest = characters s >>= λ b. ok (c ∷ b) in if c == 0 then ok [] else rest

-- A token of `strtok`, in front of the later ones; there is no empty token.
abbrev pub finish_token : List ℕ → List (List ℕ) → List (List ℕ)
finish_token [] ts = ts
finish_token (c ∷ t) ts = ((c ∷ t) ++ 0 ∷ []) ∷ ts

-- What the current token goes on with, and the tokens after it.
unfoldable pub split_tokens : List ℕ → List ℕ × List (List ℕ)
split_tokens [] = ([], [])
split_tokens (c ∷ s) =
    let (t, ts) = split_tokens s in
    if c == 0 then ([], []) else if c == 44 then ([], finish_token t ts) else (c ∷ t, ts)

-- `strtok(line, ",")`, `strtok(NULL, ",")`, ...: the tokens, each with its terminator.
unfoldable pub tokens : List ℕ → List (List ℕ)
tokens line = let (t, ts) = split_tokens line in finish_token t ts

-- The sign of what `strcmp` returns.
pub data Sign : Type 0 where
  below same above : Sign

-- The first of two signs that says anything.
unfoldable pub strcmp : List ℕ → List ℕ → Run Sign
strcmp [] b = stop out_of_bounds
strcmp (c ∷ a) [] = stop out_of_bounds
strcmp (c ∷ a) (d ∷ b) =
    let rest = strcmp a b in
    if ltb c d then ok below else if ltb d c then ok above else if c == 0 then ok same else rest

-- The number that the decimal digits at `s` continue.
unfoldable pub read_digits : List ℕ → ℕ → ℕ
read_digits [] n = n
read_digits (c ∷ s) n =
    let rest = read_digits s (n * 10 + (c - 48)) in if leb 48 c && leb c 57 then rest else n

unfoldable pub read_signed : List ℕ → ℕ
read_signed [] = 0
read_signed (c ∷ s) =
    if c == 45
    then (2 ^ 32 - read_digits s 0 % 2 ^ 32) % 2 ^ 32
    else if c == 43
    then read_digits s 0 % 2 ^ 32
    else read_digits (c ∷ s) 0 % 2 ^ 32

-- The 32-bit pattern of the number; blanks in front are skipped.
unfoldable pub int_of : List ℕ → ℕ
int_of [] = 0
int_of (c ∷ s) =
    let rest = int_of s in if c == 32 || (leb 9 c && leb c 13) then rest else read_signed (c ∷ s)

-- `atoi`: its argument is to be a string, with a terminator among the bytes that may be read.
unfoldable pub atoi : List ℕ → Run ℕ
atoi s = do _ ← characters s; ok (int_of s)

-- A character in front of the first of some lines; without one it is the last line.
abbrev pub extend_line : ℕ → List (List ℕ) → List (List ℕ)
extend_line c [] = (c ∷ 0 ∷ []) ∷ []
extend_line c (l ∷ ls) = (c ∷ l) ∷ ls

-- The lines that `fgets(line, limit + 1, file)` reads one after another, `room` characters being
-- left in the current one.
unfoldable pub fgets_from : ℕ → ℕ → List ℕ → List (List ℕ)
fgets_from limit room [] = []
fgets_from limit room (c ∷ s) =
    let ends = (c == 10) || leb room 1 in
    let rest = fgets_from limit (if ends then limit else room - 1) s in
    if ends then (c ∷ 0 ∷ []) ∷ rest else extend_line c rest

-- `while (fgets(line, MAX_LINE_LEN, file))`
unfoldable pub fgets_lines : List ℕ → List (List ℕ)
fgets_lines s = fgets_from 9999 9999 s
