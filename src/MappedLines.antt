-- ===== src/MappedLines.antt =====
-- 7/main.c: the program of 6/main.c with the file mapped into memory.
--
-- The mapping is a whole number of pages of `page` bytes: the file, and zeros behind it. `mmap` says
-- whether a mapping of so many bytes is made. `read_line_num` is that of TimedLines, of which this
-- program has a copy, and so are the table of lines and the loop that fills it.
pub mod Agreement
use os_solutions.FileLines.{
  FileLine, Code, exit_success, exit_failure, error_read_file, bad_args, file_is_empty, empty_line,
  line_at, parse_from, is_success,
}
use os_solutions.HttpClient.{c_string}
use os_solutions.TimedLines.{
  count_lines, LineNumber, number, below_zero, Event, Reading, reading, line, read_line_num,
  exit_code, prompt,
}
use os_solutions.Prelude.{
  ℕ, zero, suc, ◌-◌, ◌%◌, Bool, true, false, Option, none, some, List, [], ◌∷◌, ◌++◌, ◌==◌, ltb,
  if◌then◌else◌, length, take, drop, replicate, Bytes, codes, Outcome, ok, fault, ◌>>=◌,
}

-- what is mapped
abbrev pub mapped : ℕ → Bytes → Bytes
mapped page file =
    if length file % page == 0 then file else file ++ replicate (page - length file % page) 0

-- `mapping`: the memory and the length of the file; `opened` is none where `open` fails
unfoldable pub mapping : ℕ → (ℕ → Bool) → Option Bytes → Option (Bytes × ℕ)
mapping page mmap none = none
mapping page mmap (some file) =
    if mmap (length file) then some (mapped page file, length file) else none

unfoldable pub parse_mapping : Bytes → ℕ → List FileLine → Code × List FileLine × ℕ
unfolding parse_from
parse_mapping memory file_length lines =
    parse_from count_lines (take file_length memory) false lines 0

-- the loop that prints a line's bytes
unfoldable pub print_bytes : ℕ → Bytes → Outcome Bytes
print_bytes zero memory = ok []
print_bytes (suc n) [] = fault
print_bytes (suc n) (c ∷ memory) = do rest ← print_bytes n memory; ok (c ∷ rest)

-- lines 121 to 134: the result, none to go on, and what is printed
unfoldable pub print_mapped_line :
    Bytes → ℕ → List FileLine → LineNumber → Outcome (Option Code × Bytes)
unfolding print_bytes
print_mapped_line memory n lines below_zero = ok (none, codes "Bad number!\n")
print_mapped_line memory n lines (number zero) = ok (some exit_success, [])
print_mapped_line memory n lines (number (suc k)) =
    if ltb n (suc k)
    then ok (none, codes "Bad number!\n")
    else (print_bytes (line_at lines k).line_length (drop (line_at lines k).offset memory) >>= λ s.
        ok (none, s ++ codes "\n"))

-- what `printAllString` prints
unfoldable pub print_all_string : Bool → Bytes → Outcome Bytes
unfolding c_string
print_all_string handled memory = if handled then c_string memory else ok []

module _ (bufsiz : ℕ) (beyond : Bytes) (restarts : Bool) where
  -- the loop of `printLines`, from a `read`: its result, none where it waits, and what is printed
  unfoldable pub print_mapped_lines :
      Bytes → ℕ → List FileLine → Bool → Bool → Bytes → List Event → Outcome (Option Code × Bytes)
  unfolding read_line_num print_mapped_line print_all_string
  print_mapped_lines memory n lines armed signaled inp_buff [] = ok (none, [])
  print_mapped_lines memory n lines armed signaled inp_buff (event ∷ events) =
      let (r, handled) = read_line_num bufsiz beyond restarts armed signaled inp_buff event in
      (print_all_string handled memory >>= λ shown. elim r [
        | reading armed' signaled' inp_buff' ↦
            (print_mapped_lines memory n lines armed' signaled' inp_buff' events >>= λ rest.
            ok (rest.0, shown ++ rest.1))
        | line need_line signaled' ↦
            (print_mapped_line memory n lines need_line >>= λ answer. elim answer.0 [
              | some c ↦ ok (some c, shown ++ answer.1)
              | none ↦
                  (print_mapped_lines memory n lines true signaled' [] events >>= λ rest.
                  ok (rest.0, shown ++ (answer.1 ++ rest.1)))
            ])
      ])

  -- lines 197 to 216, behind `parseFile`
  unfoldable pub print_parsed_mapping :
      Bytes → Code × List FileLine × ℕ → List Event → Outcome (Option Code × Bytes)
  unfolding print_mapped_lines
  print_parsed_mapping memory (code, lines, n) events =
      if is_success code
      then (if n == 0
          then ok (some file_is_empty, [])
          else (print_mapped_lines memory n lines true false [] events >>= λ said.
              ok (exit_code said.0, prompt ++ said.1)))
      else ok (some error_read_file, [])

  -- `main`: whether there is an argument, whether standard output is a terminal, and the file that
  -- the argument names
  unfoldable pub main :
      ℕ → (ℕ → Bool) → Bool → Bool → Option Bytes → List Event → Outcome (Option Code × Bytes)
  unfolding mapping parse_mapping print_parsed_mapping
  main page mmap false terminal opened events = ok (some bad_args, [])
  main page mmap true false opened events = ok (some exit_failure, [])
  main page mmap true true opened events = elim (mapping page mmap opened) [
    | none ↦ ok (some error_read_file, [])
    | some (memory, file_length) ↦
        print_parsed_mapping memory
          (parse_mapping memory file_length (replicate count_lines empty_line)) events
  ]
