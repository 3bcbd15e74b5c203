-- ===== src/FileLines/Program.antt =====
-- What the program prints, against the lines of its file.
use os_solutions.FileLines.{
  FileLine, Code, exit_success, exit_failure, error_read_file, file_is_empty, bad_input, Scanned,
  entered, negative, no_number, count_lines, line_at, copy_line, print_lines, parse_file, main,
  is_success, prompt,
}
use os_solutions.FileLines.Spans.{lines_from, newlines, parse_from-copies}
use mathlib.Core.List.{append_assoc}
use os_solutions.Prelude.{
  ℕ, zero, suc, ◌<◌, ◌≡◌, refl, sym, ap, true, false, some, List, [], ◌∷◌, ◌++◌, ◌==◌, ltb,
  if◌then◌else◌, get_or, drop, Bytes, codes, arith, Bool-cases, inl, inr,
}

-- What the dialogue says of a text's lines that end in a newline.
unfoldable pub dialogue : List Bytes → ℕ → List Scanned → Code × Bytes
dialogue lines n [] = (exit_failure, [])
dialogue lines n (no_number ∷ input) = (bad_input, [])
dialogue lines n (negative ∷ input) =
    let rest = dialogue lines n input in (rest.0, codes "Bad number!\n" ++ rest.1)
dialogue lines n (entered zero ∷ input) = (exit_success, [])
dialogue lines n (entered (suc k) ∷ input) =
    let rest = dialogue lines n input in
    (
      rest.0,
      (if ltb n (suc k) then codes "Bad number!\n" else get_or lines k [] ++ codes "\n") ++ rest.1,
    )

-- What the program does with a file of fewer lines than the table holds.
abbrev pub answer : Bytes → List Scanned → Code × Bytes
answer file input =
    if newlines file == 0
    then (file_is_empty, [])
    else (let said = dialogue (lines_from [] file) (newlines file) input in
        (if is_success said.0 then exit_success else error_read_file, prompt ++ said.1))

module _ (file : Bytes) (lines : List FileLine) (n : ℕ)
    (copies : (i : ℕ)
      → i < n
      → copy_line (line_at lines i).line_length (drop (line_at lines i).offset file)
        ≡ (get_or (lines_from [] file) i [], true)) where
  print_lines-dialogue :
      (input : List Scanned)
      → print_lines file n lines input ≡ dialogue (lines_from [] file) n input
  unfolding print_lines dialogue
  print_lines-dialogue [] = refl
  print_lines-dialogue (no_number ∷ input) = refl
  print_lines-dialogue (negative ∷ input) = rw (print_lines-dialogue input) refl
  print_lines-dialogue (entered zero ∷ input) = refl
  print_lines-dialogue (entered (suc k) ∷ input) = elim (Bool-cases (ltb n (suc k))) [
    | inl e ↦ rw (e, print_lines-dialogue input) refl
    | inr e ↦
        rw (e, copies k (ground arith), print_lines-dialogue input)
          (ap (λ t. ((dialogue (lines_from [] file) n input).0, t))
            (sym (
              append_assoc (get_or (lines_from [] file) k []) (codes "\n")
                (dialogue (lines_from [] file) n input).1)))
  ]

-- For a file with fewer newlines than the table has entries, read without an error, the program
-- says what a dialogue over the list of the file's lines says: the table of offsets and lengths
-- finds every line.
pub main-answer :
    (file : Bytes) (input : List Scanned)
    → newlines file < count_lines
    → main (some file) false input ≡ answer file input
unfolding main parse_file
main-answer file input h =
    let (table, parsed, copies) = parse_from-copies count_lines file h in
    let said = print_lines-dialogue file table (newlines file) copies input in
    rw (parsed, main) (rw said refl)
