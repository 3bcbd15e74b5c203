-- ===== src/Tests/Files.antt =====
-- Masks and lines of files.
use os_solutions.FileLines.{main, entered, exit_success, file_is_empty, prompt}
use os_solutions.FileLines.Program.{answer, main-answer}
use os_solutions.FileLines.Spans.{newlines}
use os_solutions.FileMask.Answers.{Answers, find_files-Answers}
use os_solutions.FileMask.Decides.{pattern_match-fits}
use os_solutions.FileMask.Matching.{pattern_match}
use os_solutions.FileMask.Search.{find_files, path_of}
use os_solutions.FileMask.Tokens.{fits, tokens}
use os_solutions.Prelude.{
  ◌≡◌, refl, Bool, true, false, Option, none, some, List, [], ◌∷◌, ◌++◌, if◌then◌else◌, Bytes,
  codes, same_text, ok, Returns, arith,
}

pattern_match-fits_example :
    pattern_match 20 (codes "a*?c") (codes "abc") ≡ ok (fits (tokens (codes "a*?c")) (codes "abc"))
pattern_match-fits_example = pattern_match-fits 20 (codes "a*?c") (codes "abc") (omega arith)

pattern_match_backtracks : pattern_match 20 (codes "*ab") (codes "aab") ≡ ok true
unfolding pattern_match
pattern_match_backtracks = refl

pattern_match_escape : pattern_match 20 (codes "/*b") (codes "ab") ≡ ok false
unfolding pattern_match
pattern_match_escape = refl

pattern_match_slash : pattern_match 20 (codes "a/b") (codes "ab") ≡ ok true
unfolding pattern_match
pattern_match_slash = refl

-- a directory with a file and a directory, which has a file
abbrev entries : Bytes → Option (List Bytes)
entries name =
    if same_text name (codes ".")
    then some (codes "." ∷ (codes ".." ∷ (codes "a.c" ∷ (codes "sub" ∷ []))))
    else if same_text name (codes "./sub")
    then some (codes "b.c" ∷ [])
    else none

abbrev is_directory : Bytes → Option Bool
is_directory path = some (same_text path (codes "./sub"))

find_files-Answers_example : Returns (find_files entries is_directory 9 (codes "sub*/*.c")) Answers
find_files-Answers_example =
    find_files-Answers entries is_directory 9 (codes "sub*/*.c") (omega arith)

find_files_below :
    find_files entries is_directory 8 (codes "s*/*.c") ≡ ok (codes "./sub/b.c" ∷ [], true)
unfolding find_files same_text path_of
find_files_below = refl

abbrev two_lines : Bytes
two_lines = codes "ab\ncd\ne"

main-answer_example :
    main (some two_lines) false (entered 2 ∷ (entered 3 ∷ (entered 0 ∷ [])))
    ≡ answer two_lines (entered 2 ∷ (entered 3 ∷ (entered 0 ∷ [])))
main-answer_example =
    main-answer two_lines (entered 2 ∷ (entered 3 ∷ (entered 0 ∷ [])))
      (unfold newlines in omega arith)

main_prints :
    main (some two_lines) false (entered 2 ∷ (entered 3 ∷ (entered 0 ∷ [])))
    ≡ (exit_success, prompt ++ codes "cd\nBad number!\n")
unfolding main
main_prints = refl

main_one_line : main (some (codes "ab")) false (entered 1 ∷ []) ≡ (file_is_empty, [])
unfolding main
main_one_line = refl
