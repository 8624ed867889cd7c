-- ===== src/Tools.antt =====
-- The command-line tools of a1: each `main` as a function of the arguments and the files' bytes.
--
-- An argument or a line is a C string with its terminator; `argv` holds the program's name first. A
-- file that `fopen` cannot open is `none`. A tool that returns 1 is `refused`. The time that a tool
-- prints is left out.
pub mod Edit
pub mod Query
pub mod ColumnStore
pub mod PageFile
pub mod Update
pub mod Loading
pub mod Sessions
pub mod Csv2Heapfile
pub mod Insert
pub mod Delete
mod SessionData
mod SessionTests
use database_assignments.Base.{
  ℕ, zero, suc, ◌+◌, ◌*◌, ◌/◌, ◌%◌, ◌^◌, Bool, Option, none, some, List, [], ◌∷◌, ◌++◌, Run, ok,
  stop, out_of_bounds, ◌>>=◌, ◌>>◌, load, leb, ltb, if◌then◌else◌, length,
}
use database_assignments.CString.{strncpy, characters, atoi}

pub data Exit {ℓ} (A : Type ℓ) : Type ℓ where
  refused : Exit A
  finished : A → Exit A

-- `atoi(argv[i])`
abbrev pub int_argument : List (List ℕ) → ℕ → Run ℕ
int_argument argv i = do a ← load argv i; atoi a

-- `v >= 0` on the pattern of an `int`
abbrev pub is_not_negative : ℕ → Bool
is_not_negative v = ltb v (2 ^ 31)

-- The decimal digits of a number of at most as many digits as there are rounds.
unfoldable pub decimal : ℕ → ℕ → List ℕ
decimal zero n = []
decimal (suc rounds) n =
    let rest = decimal rounds (n / 10) in (if ltb n 10 then [] else rest) ++ (48 + n % 10) ∷ []

-- `sprintf(filename, "%s/%d", directory_name, attribute_id)` into `char filename[20]`
unfoldable pub column_filename : List ℕ → ℕ → Run (List ℕ)
column_filename directory_name attribute_id = do
  directory ← characters directory_name
  let filename = directory ++ 47 ∷ decimal 10 attribute_id ++ 0 ∷ []
  if leb (length filename) 20 then ok filename else stop out_of_bounds

-- `strncpy(buf, attr, 5); buf[5] = '\0'; cout << buf << endl`
unfoldable pub print_substring : List ℕ → Run (List ℕ)
print_substring attr = do buf ← strncpy 5 attr; s ← characters (buf ++ 0 ∷ []); ok (s ++ 10 ∷ [])
