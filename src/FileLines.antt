-- ===== src/FileLines.antt =====
-- 5/main.c: a table of where the lines of a file start, and lines printed by their number.
--
-- A file is its bytes, and does not change while the program runs. The numbers that `scanf` reads
-- are given, and the bytes printed to standard output are the result. Offsets and lengths fit
-- their types: files are shorter than 2 ^ 31 bytes.
pub mod Spans
pub mod Program
use os_solutions.Prelude.{
  ℕ, zero, suc, ◌+◌, ◌-◌, Bool, true, false, Option, none, some, List, [], ◌∷◌, ◌++◌, ◌==◌, ltb,
  leb, if◌then◌else◌, get_or, set, take, drop, length, replicate, Bytes, codes,
}

pub record FileLine : Type 0 where
  pub offset : ℕ
  pub line_length : ℕ

-- The results of the functions. ERROR_READ_FILE and ERROR_OPEN_FILE are the same number.
pub data Code : Type 0 where
  exit_success exit_failure error_read_file bad_args file_is_empty error_file_size bad_input : Code

-- COUNT_LINES
abbrev pub count_lines : ℕ
count_lines = 140

abbrev pub empty_line : FileLine
empty_line = record { offset = 0; line_length = 0 }

abbrev pub line_at : List FileLine → ℕ → FileLine
line_at lines i = get_or lines i empty_line

-- `++lines[n].length`
abbrev pub longer : List FileLine → ℕ → List FileLine
longer lines n =
    set lines n (record (line_at lines n) { line_length = (line_at lines n).line_length + 1 })

-- line 39: where the next line starts
abbrev pub start_line : List FileLine → ℕ → List FileLine
start_line lines n = set lines (suc n) (record (line_at lines (suc n)) {
  offset = (line_at lines n).offset + (line_at lines n).line_length + 1;
})

-- `parseFile` from the bytes that are left, for a table of `most` lines; `failed` says that the
-- last `read` is an error. The result, the table and the count.
unfoldable pub parse_from : ℕ → Bytes → Bool → List FileLine → ℕ → Code × List FileLine × ℕ
parse_from most [] failed lines n = (if failed then error_read_file else exit_success, lines, n)
parse_from most (c ∷ file) failed lines n =
    let same_line = parse_from most file failed (longer lines n) n in
    let next_line = parse_from most file failed (start_line lines n) (suc n) in
    if c == b'\n'
    then (if leb most (suc n) then (error_file_size, lines, suc n) else next_line)
    else same_line

unfoldable pub parse_file : Bytes → Bool → List FileLine → Code × List FileLine × ℕ
unfolding parse_from
parse_file file failed lines = parse_from count_lines file failed lines 0

-- the loop that copies a line's bytes, with the bytes from its offset on; whether all were read
unfoldable pub copy_line : ℕ → Bytes → Bytes × Bool
copy_line zero file = ([], true)
copy_line (suc n) [] = ([], false)
copy_line (suc n) (c ∷ file) = let rest = copy_line n file in (c ∷ rest.0, rest.1)

-- What `scanf("%d")` gives: a number that is not negative, a negative one, text that is no number,
-- or the end of the input.
pub data Scanned : Type 0 where
  entered : ℕ → Scanned
  negative : Scanned
  no_number : Scanned

-- `printLines`: the result and what is printed, behind the prompt that main has here. The end of the list is the end
-- of the input.
unfoldable pub print_lines : Bytes → ℕ → List FileLine → List Scanned → Code × Bytes
unfolding copy_line
print_lines file n lines [] = (exit_failure, [])
print_lines file n lines (no_number ∷ input) = (bad_input, [])
print_lines file n lines (negative ∷ input) =
    let rest = print_lines file n lines input in (rest.0, codes "Bad number!\n" ++ rest.1)
print_lines file n lines (entered zero ∷ input) = (exit_success, [])
print_lines file n lines (entered (suc k) ∷ input) =
    let rest = print_lines file n lines input in
    let line = line_at lines k in
    let copied = copy_line line.line_length (drop line.offset file) in
    if ltb n (suc k)
    then (rest.0, codes "Bad number!\n" ++ rest.1)
    else if copied.1
    then (rest.0, copied.0 ++ (codes "\n" ++ rest.1))
    else (error_read_file, copied.0)

abbrev pub is_success : Code → Bool
is_success exit_success = true
is_success _ = false

abbrev pub prompt : Bytes
prompt = codes "Enter number of string: (0 for exit)\n"

-- `main` with a file name: the file, none where `open` fails, and the result with what is printed
unfoldable pub main : Option Bytes → Bool → List Scanned → Code × Bytes
unfolding parse_file print_lines
main none failed input = (error_read_file, [])
main (some file) failed input =
    let (code, lines, n) = parse_file file failed (replicate count_lines empty_line) in
    if is_success code
    then (if n == 0
        then (file_is_empty, [])
        else (let printed = print_lines file n lines input in
            (if is_success printed.0 then exit_success else error_read_file, prompt ++ printed.1)))
    else (error_read_file, [])
