-- ===== src/Tests/Environment.antt =====
-- A search in PATH.
use os_solutions.ExecPath.{execvpe, main}
use os_solutions.ExecPath.Search.{first_with, execvpe-first_with}
use os_solutions.Prelude.{
  ℕ, ◌≡◌, refl, Bool, true, false, none, some, [], ◌∷◌, Bytes, codes, same_text, ok, fault, arith,
}

abbrev opens : Bytes → Bool
opens path = same_text path (codes "/bin/ls")

abbrev always : ℕ → Bool
always n = true

-- the second directory has the file
execvpe-first_with_example :
    execvpe opens (codes "ls") (some (codes "/usr/bin:/bin:/sbin")) ≡ ok (some (codes "/bin/ls"))
unfolding first_with same_text
execvpe-first_with_example =
    execvpe-first_with opens (codes "/usr/bin" ∷ (codes "/bin" ∷ [])) (codes "/sbin") (codes "ls")
      (refl, omega arith, (refl, omega arith, tt)) refl

-- the last directory is not searched
execvpe-last : execvpe opens (codes "ls") (some (codes "/usr/bin:/bin")) ≡ ok none
unfolding execvpe same_text
execvpe-last = refl

-- the array of the environment has no room for a pointer
main-ls : main true always opens (some (codes "/bin:")) (codes "ls" ∷ []) ≡ fault
unfolding main
main-ls = refl

main-no_memory : main false always opens (some (codes "/bin:")) (codes "ls" ∷ []) ≡ ok none
unfolding main
main-no_memory = refl
