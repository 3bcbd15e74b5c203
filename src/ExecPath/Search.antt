-- ===== src/ExecPath/Search.antt =====
-- The search, against the list of the directories.
use os_solutions.ExecPath.{path_max, dir_text, search_path, execvpe}
use mathlib.Core.List.{append_assoc, append-nil}
use os_solutions.Prelude.{
  ◌<◌, ◌≡◌, refl, ap, ◌∙◌, Bool, true, false, ◌&&◌, not, Option, none, some, List, [], ◌∷◌, ◌++◌,
  ◌==◌, leb, if◌then◌else◌, length, Bytes, ok, arith, Bool-cases, inl, inr,
}

-- no colon
abbrev pub plain : Bytes → Bool
plain [] = true
plain (c ∷ s) = not (c == b':') && plain s

-- Each directory has no colon, and its path fits the buffer.
abbrev pub AllFit : Bytes → List Bytes → Type 0
AllFit file [] = Unit
AllFit file (dir ∷ dirs) =
    (plain dir ≡ true) × (length (dir_text dir file) < path_max) × AllFit file dirs

-- the directories, each with a colon, and what stands behind the last colon
abbrev pub path_text : List Bytes → Bytes → Bytes
path_text [] last = last
path_text (dir ∷ dirs) last = dir ++ b':' ∷ path_text dirs last

-- the first directory with the file
unfoldable pub first_with : (Bytes → Bool) → Bytes → List Bytes → Option Bytes
first_with opens file [] = none
first_with opens file (dir ∷ dirs) =
    if opens (dir_text dir file) then some (dir_text dir file) else first_with opens file dirs

module _ (opens : Bytes → Bool) (file : Bytes) where
  search_path-plain :
      (piece last : Bytes) → plain last ≡ true → search_path opens file piece last ≡ ok none
  unfolding search_path
  search_path-plain piece [] h = refl
  search_path-plain piece (c ∷ last) h =
      let other : (c == b':') ≡ false = ground arith in
      rw other (search_path-plain (piece ++ c ∷ []) last (ground arith))

  search_path-piece :
      (piece dir rest : Bytes)
      → plain dir ≡ true
      → search_path opens file piece (dir ++ b':' ∷ rest)
        ≡ search_path opens file (piece ++ dir) (b':' ∷ rest)
  unfolding search_path
  search_path-piece piece [] rest h = rw (append-nil piece) refl
  search_path-piece piece (c ∷ dir) rest h =
      let other : (c == b':') ≡ false = ground arith in
      rw other (
        search_path-piece (piece ++ c ∷ []) dir rest (ground arith)
        ∙ ap (λ t. search_path opens file t (b':' ∷ rest)) (append_assoc piece (c ∷ []) dir))

  search_path-first_with :
      (dirs : List Bytes) (last : Bytes)
      → AllFit file dirs
      → plain last ≡ true
      → search_path opens file [] (path_text dirs last) ≡ ok (first_with opens file dirs)
  unfolding search_path first_with
  search_path-first_with [] last fit h = search_path-plain [] last h
  search_path-first_with (dir ∷ dirs) last fit h =
      let short : leb path_max (length (dir_text dir file)) ≡ false = ground (arith, fit.1) in
      search_path-piece [] dir (path_text dirs last) fit.0
      ∙ rw short (elim (Bool-cases (opens (dir_text dir file))) [
        | inl e ↦ rw e refl
        | inr e ↦ rw e (search_path-first_with dirs last fit.2 h)
      ])

-- With a PATH of directories without colons whose paths to the file fit PATH_MAX, `execvpe`
-- executes the file of the first directory that has it, and none if no directory has it; what
-- stands behind the last colon of PATH is not searched.
pub execvpe-first_with :
    (opens : Bytes → Bool) (dirs : List Bytes) (last file : Bytes)
    → AllFit file dirs
    → plain last ≡ true
    → execvpe opens file (some (path_text dirs last)) ≡ ok (first_with opens file dirs)
unfolding execvpe
execvpe-first_with opens dirs last file fit h = search_path-first_with opens file dirs last fit h
