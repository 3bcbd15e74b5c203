-- ===== src/ExecPath.antt =====
-- 11/main.c: a program is looked for in the directories of PATH and executed with a new environment.
--
-- `opens` says whether `open` succeeds on a path. A block of the heap has the bytes that it was
-- asked for with, and a store behind them is undefined. What `execv` does with the path that is
-- found is outside.
pub mod Search
use os_solutions.Prelude.{
  ℕ, zero, suc, ◌+◌, ◌*◌, Bool, true, false, Option, none, some, List, [], ◌∷◌, ◌++◌, ◌==◌, ltb,
  leb, if◌then◌else◌, length, Bytes, codes, Outcome, ok, fault, ◌>>=◌,
}

-- PATH_MAX, the bytes of `dir`
abbrev pub path_max : ℕ
path_max = 4096

-- COUNT_STRINGS
abbrev pub count_strings : ℕ
count_strings = 4

-- what `strcat` leaves in `dir`
abbrev pub dir_text : Bytes → Bytes → Bytes
dir_text piece file = piece ++ (codes "/" ++ file)

module _ (opens : Bytes → Bool) (file : Bytes) where
  -- the loop, from `offset` on; `piece` is what stands between `offset` and the byte that `strstr`
  -- has come to. The path that is found, none for EXEC_ERROR.
  unfoldable pub search_path : Bytes → Bytes → Outcome (Option Bytes)
  search_path piece [] = ok none
  search_path piece (c ∷ path) =
      let next = search_path [] path in
      let further = search_path (piece ++ c ∷ []) path in
      if c == b':'
      then (if leb path_max (length (dir_text piece file))
          then fault
          else if opens (dir_text piece file)
          then ok (some (dir_text piece file))
          else next)
      else further

  -- `execvpe`, for the value of PATH, up to the call of `execv`
  unfoldable pub execvpe : Option Bytes → Outcome (Option Bytes)
  unfolding search_path
  execvpe none = ok none
  execvpe (some path) = search_path [] path

-- the loop of `initEnv` from the string `i` on, with `n` behind it, in an array of so many bytes:
-- whether each string has memory. If one has none, `destroyEnv` frees the pointers behind it too,
-- which nothing has set.
unfoldable pub init_strings : ℕ → ℕ → ℕ → (ℕ → Bool) → Outcome Bool
init_strings bytes zero i alloc = ok true
init_strings bytes (suc n) i alloc =
    let rest = init_strings bytes n (suc i) alloc in
    if ltb bytes ((i + 1) * 8)
    then fault
    else if alloc i
    then rest
    else if n == 0
    then ok false
    else fault

abbrev pub environment : List Bytes
environment = codes "FIRST=1" ∷ (codes "VARIABLE=TEST" ∷ (codes "WHY=BECAUSE" ∷ []))

-- `initEnv`: the environment, none for CALLOC_ERROR; `alloc_env` says whether the array has memory,
-- `alloc i` whether the i-th string has
unfoldable pub init_env : Bool → (ℕ → Bool) → Outcome (Option (List Bytes))
unfolding init_strings
init_env false alloc = ok none
init_env true alloc = init_strings (count_strings * 1) count_strings 0 alloc >>= λ done.
    ok (if done then some environment else none)

-- `main`: the path that is executed and its environment, none for an exit code that is not 0
unfoldable pub main :
    Bool
    → (ℕ → Bool)
    → (Bytes → Bool)
    → Option Bytes
    → List Bytes
    → Outcome (Option (Bytes × List Bytes))
unfolding init_env execvpe
main alloc_env alloc opens path [] = ok none
main alloc_env alloc opens path (file ∷ arguments) = do
  env ← init_env alloc_env alloc
  elim env [
    | none ↦ ok none
    | some strings ↦
        (execvpe opens file path >>= λ dir.
        ok (elim dir [ none ↦ none | some d ↦ some (d, strings) ]))
  ]
