-- ===== src/TimedLines.antt =====
-- 6/main.c: lines of a file printed by their number, with five seconds for an answer.
--
-- The keys and the alarms come in their order; an alarm goes off only while `read` waits, and where
-- one is set. `restarts` says whether the system starts a `read` again that a handler has
-- interrupted, or lets it fail with EINTR. `bufsiz` is stdio's BUFSIZ, and `beyond` what stands
-- behind the buffer, up to a 0. The table of lines is that of FileLines, and the terminal's
-- settings are left out. No call on the file fails after it was parsed.
pub mod Session
use os_solutions.FileLines.{
  FileLine, Code, exit_success, exit_failure, error_read_file, bad_args, file_is_empty, empty_line,
  line_at, parse_from, copy_line, is_success,
}
use os_solutions.HttpUtils.{strtol, int_pattern}
use os_solutions.Prelude.{
  ℕ, zero, suc, ◌^◌, Bool, true, false, ◌||◌, Option, none, some, List, [], ◌∷◌, ◌++◌, ◌==◌, ltb,
  leb, if◌then◌else◌, length, drop, replicate, Bytes, codes,
}

-- COUNT_LINES
abbrev pub count_lines : ℕ
count_lines = 160

unfoldable pub parse_file : Bytes → Bool → List FileLine → Code × List FileLine × ℕ
unfolding parse_from
parse_file file failed lines = parse_from count_lines file failed lines 0

-- an `int`
pub data LineNumber : Type 0 where
  number : ℕ → LineNumber
  below_zero : LineNumber

unfoldable pub atoi : Bytes → LineNumber
unfolding strtol
atoi s = elim (strtol s) [
  | none ↦ number 0
  | some r ↦ if ltb (int_pattern r) (2 ^ 31) then number (int_pattern r) else below_zero
]

-- what ends a wait in `read`: a key, or the alarm
pub data Event : Type 0 where
  typed : ℕ → Event
  elapsed : Event

-- where `read_line_num` stands behind an event: at its next `read`, with an alarm or without, with
-- `signaled` and the buffer up to `pos`; or at its end, with its result and `signaled`
pub data Reading : Type 0 where
  reading : Bool → Bool → Bytes → Reading
  line : LineNumber → Bool → Reading

-- lines 133 to 156: the result, none to go on, and what is printed
unfoldable pub print_line : Bytes → ℕ → List FileLine → LineNumber → Option Code × Bytes
unfolding copy_line
print_line file n lines below_zero = (none, codes "Bad number!\n")
print_line file n lines (number zero) = (some exit_success, [])
print_line file n lines (number (suc k)) =
    let copied = copy_line (line_at lines k).line_length (drop (line_at lines k).offset file) in
    if ltb n (suc k)
    then (none, codes "Bad number!\n")
    else if copied.1
    then (none, copied.0 ++ codes "\n")
    else (some error_read_file, copied.0)

-- lines 212 to 220, for the result of `printLines`
abbrev pub exit_code : Option Code → Option Code
exit_code none = none
exit_code (some c) = some (if is_success c then exit_success else error_read_file)

abbrev pub prompt : Bytes
prompt = codes "Enter number of string: (0 for exit)\n"

module _ (bufsiz : ℕ) (beyond : Bytes) (restarts : Bool) where
  -- `read_line_num` from a `read` to the next one, and whether the handler has printed the file
  unfoldable pub read_line_num : Bool → Bool → Bytes → Event → Reading × Bool
  unfolding atoi
  read_line_num armed signaled inp_buff (typed tmp) = (
    if leb bufsiz (length inp_buff)
        then line (atoi (inp_buff ++ beyond)) signaled
        else if tmp == b'\n'
        then line (atoi inp_buff) signaled
        else if signaled
        then line (number 0) signaled
        else reading true signaled (inp_buff ++ tmp ∷ []),
    false,
  )
  read_line_num armed signaled inp_buff elapsed =
      if armed
      then (if restarts then reading false true inp_buff else line (number 0) true, true)
      else (reading armed signaled inp_buff, false)

  -- the loop of `printLines`, from a `read`: its result, none where it waits, and what is printed
  unfoldable pub print_lines :
      Bytes → ℕ → List FileLine → Bool → Bool → Bytes → List Event → Option Code × Bytes
  unfolding read_line_num print_line
  print_lines file n lines armed signaled inp_buff [] = (none, [])
  print_lines file n lines armed signaled inp_buff (event ∷ events) =
      let (r, handled) = read_line_num armed signaled inp_buff event in
      let shown = if handled then file else [] in
      elim r [
        | reading armed' signaled' inp_buff' ↦
            let rest = print_lines file n lines armed' signaled' inp_buff' events in
            (rest.0, shown ++ rest.1)
        | line need_line signaled' ↦
            let (code, answer) = print_line file n lines need_line in
            elim code [
              | some c ↦ (some c, shown ++ answer)
              | none ↦
                  let rest = print_lines file n lines true signaled' [] events in
                  (rest.0, shown ++ (answer ++ rest.1))
            ]
      ]

  -- lines 199 to 217, behind `parseFile`
  unfoldable pub print_parsed : Bytes → Code × List FileLine × ℕ → List Event → Option Code × Bytes
  unfolding print_lines
  print_parsed file (code, lines, n) events =
      let said = print_lines file n lines true false [] events in
      if is_success code
      then (if n == 0 then (some file_is_empty, []) else (exit_code said.0, prompt ++ said.1))
      else (some error_read_file, [])

  -- `main`: whether there is an argument, whether standard output is a terminal, the file that the
  -- argument names, none where `open` fails, and whether its last `read` is an error
  unfoldable pub main : Bool → Bool → Option Bytes → Bool → List Event → Option Code × Bytes
  unfolding parse_file print_parsed
  main false terminal opened failed events = (some bad_args, [])
  main true false opened failed events = (some exit_failure, [])
  main true true none failed events = (some error_read_file, [])
  main true true (some file) failed events =
      print_parsed file (parse_file file failed (replicate count_lines empty_line)) events
