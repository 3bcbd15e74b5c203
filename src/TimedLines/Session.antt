-- ===== src/TimedLines/Session.antt =====
-- Numbers that are typed until the alarm goes off, against the dialogue over a text's lines.
use os_solutions.FileLines.{FileLine, exit_success, line_at, copy_line}
use os_solutions.FileLines.{entered}
use os_solutions.FileLines.Spans.{lines_from, newlines, parse_from-copies}
use os_solutions.FileLines.Program.{dialogue}
use os_solutions.HttpUtils.{int_pattern}
use os_solutions.HttpUtils.Numbers.{strtol-decimal_alone}
use os_solutions.TimedLines.{
  count_lines, parse_file, number, atoi, Event, typed, elapsed, print_line, print_lines,
  print_parsed, exit_code, prompt, main,
}
use mathlib.Core.List.{append_assoc, append-nil, map}
use os_solutions.Prelude.{
  ℕ, zero, suc, ◌+◌, ◌/◌, ◌%◌, ◌^◌, ◌≤◌, ◌<◌, ◌≡◌, refl, sym, ap, ◌∙◌, Bool, true, false, none,
  some, List, [], ◌∷◌, ◌++◌, ◌==◌, ltb, leb, if◌then◌else◌, get_or, drop, length, length-append,
  Bytes, codes, decimal, decimal_from, arith, Bool-cases, inl, inr,
}

-- The keys for a text, in front of others.
abbrev pub typing : Bytes → List Event → List Event
typing [] events = events
typing (c ∷ s) events = typed c ∷ typing s events

-- The keys for the numbers, each with its newline.
abbrev pub keys : List ℕ → List Event → List Event
keys [] events = events
keys (n ∷ ns) events = typing (decimal n) (typed b'\n' ∷ keys ns events)

-- Each number is positive and an `int`.
abbrev pub AllNumbers : List ℕ → Type 0
AllNumbers [] = Unit
AllNumbers (n ∷ ns) = (0 < n) × (n < 2 ^ 31) × AllNumbers ns

atoi-decimal : (n : ℕ) → n < 2 ^ 31 → atoi (decimal n) ≡ number n
unfolding atoi
atoi-decimal n h =
    let same : int_pattern (false, n) ≡ n = omega (arith, h) in
    let small : ltb n (2 ^ 31) ≡ true = ground arith in
    rw (strtol-decimal_alone n (omega (arith, h)), atoi) (rw (same) (rw small refl))

newlines-append_digit : (s : Bytes) (d : ℕ) → newlines (s ++ (d + b'0') ∷ []) ≡ newlines s
unfolding newlines
newlines-append_digit [] d = ground arith
newlines-append_digit (c ∷ s) d =
    ap (λ k. if c == b'\n' then suc k else k) (newlines-append_digit s d)

newlines-decimal_from : (fuel n : ℕ) → newlines (decimal_from fuel n) ≡ 0
unfolding decimal_from newlines
newlines-decimal_from zero n = refl
newlines-decimal_from (suc fuel) n = elim (Bool-cases (ltb n 10)) [
  | inl small ↦ rw small (newlines-append_digit [] n)
  | inr large ↦ rw large (
      newlines-append_digit (decimal_from fuel (n / 10)) (n % 10)
      ∙ newlines-decimal_from fuel (n / 10))
]

length-decimal_from : (fuel n : ℕ) → length (decimal_from fuel n) ≤ fuel
unfolding decimal_from
length-decimal_from zero n = omega arith
length-decimal_from (suc fuel) n = elim (Bool-cases (ltb n 10)) [
  | inl small ↦ rw small (omega arith)
  | inr large ↦ rw large (
      omega (
        arith,
        length-append (decimal_from fuel (n / 10)) ((n % 10 + b'0') ∷ []),
        length-decimal_from fuel (n / 10),
      ))
]

module _ (bufsiz : ℕ) (beyond : Bytes) (restarts : Bool) (file : Bytes) (lines : List FileLine)
    (n : ℕ) where
  -- keys that only fill the buffer
  print_lines-typed :
      (s inp_buff : Bytes) (events : List Event)
      → newlines s ≡ 0
      → length inp_buff + length s ≤ bufsiz
      → print_lines bufsiz beyond restarts file n lines true false inp_buff (typing s events)
        ≡ print_lines bufsiz beyond restarts file n lines true false (inp_buff ++ s) events
  unfolding print_lines newlines
  print_lines-typed [] inp_buff events free short = rw (append-nil inp_buff) refl
  print_lines-typed (c ∷ s) inp_buff events free short =
      let key : (c == b'\n') ≡ false = ground arith in
      let fits : leb bufsiz (length inp_buff) ≡ false = ground arith in
      rw (fits, print_lines)
        (rw key (
          print_lines-typed s (inp_buff ++ c ∷ []) events (rw key at free)
            (omega (arith, short, length-append inp_buff (c ∷ [])))
          ∙ ap (λ t. print_lines bufsiz beyond restarts file n lines true false t events)
              (append_assoc inp_buff (c ∷ []) s)))

  -- a line of keys with its newline
  print_lines-newline :
      (inp_buff answer : Bytes) (events : List Event)
      → length inp_buff < bufsiz
      → print_line file n lines (atoi inp_buff) ≡ (none, answer)
      → print_lines bufsiz beyond restarts file n lines true false inp_buff (typed b'\n' ∷ events)
        ≡ (
          (print_lines bufsiz beyond restarts file n lines true false [] events).0,
          answer ++ (print_lines bufsiz beyond restarts file n lines true false [] events).1,
        )
  unfolding print_lines
  print_lines-newline inp_buff answer events short e =
      let fits : leb bufsiz (length inp_buff) ≡ false = ground arith in
      let rest = print_lines bufsiz beyond restarts file n lines true false [] events in
      rw (fits, print_lines) (rw e (ap (λ t. (rest.0, t ++ rest.1)) (ap (λ r. r.1) e)))

  -- one number
  print_lines-number :
      (k : ℕ) (answer : Bytes) (events : List Event)
      → k < 2 ^ 31
      → 20 < bufsiz
      → print_line file n lines (number k) ≡ (none, answer)
      → print_lines bufsiz beyond restarts file n lines true false []
          (typing (decimal k) (typed b'\n' ∷ events))
        ≡ (
          (print_lines bufsiz beyond restarts file n lines true false [] events).0,
          answer ++ (print_lines bufsiz beyond restarts file n lines true false [] events).1,
        )
  unfolding decimal
  print_lines-number k answer events small large e =
      let short : length (decimal_from 20 k) ≤ 20 = length-decimal_from 20 k in
      print_lines-typed (decimal_from 20 k) [] (typed b'\n' ∷ events) (newlines-decimal_from 20 k)
        (omega (arith, short))
      ∙ print_lines-newline (decimal_from 20 k) answer events (omega (arith, short))
          (ap (print_line file n lines) (atoi-decimal k small) ∙ e)

  -- the alarm
  print_lines-elapsed :
      (inp_buff : Bytes)
      → print_lines bufsiz beyond restarts file n lines true false inp_buff (elapsed ∷ [])
        ≡ (if restarts then none else some exit_success, file)
  unfolding print_lines
  print_lines-elapsed inp_buff = elim (Bool-cases restarts) [
    | inl e ↦ rw (e, print_lines) (ap (λ t. (none, t)) (append-nil file))
    | inr e ↦ rw (e, print_lines) (ap (λ t. (some exit_success, t)) (append-nil file))
  ]

  module _
      (table : (i : ℕ)
        → i < n
        → copy_line (line_at lines i).line_length (drop (line_at lines i).offset file)
          ≡ (get_or (lines_from [] file) i [], true)) where
    -- what one number is answered
    print_line-answer :
        (k : ℕ)
        → print_line file n lines (number (suc k)) ≡ (
          none,
          if ltb n (suc k)
              then codes "Bad number!\n"
              else get_or (lines_from [] file) k [] ++ codes "\n",
        )
    unfolding print_line
    print_line-answer k = elim (Bool-cases (ltb n (suc k))) [
      | inl e ↦ rw e refl
      | inr e ↦ rw (e, table k (ground arith)) refl
    ]

    print_lines-keys :
        (ns : List ℕ) (partial : Bytes)
        → AllNumbers ns
        → 20 < bufsiz
        → newlines partial ≡ 0
        → length partial ≤ bufsiz
        → print_lines bufsiz beyond restarts file n lines true false []
            (keys ns (typing partial (elapsed ∷ [])))
          ≡ (
            if restarts then none else some exit_success,
            (dialogue (lines_from [] file) n (map entered ns)).1 ++ file,
          )
    unfolding dialogue
    print_lines-keys [] partial all large free short =
        print_lines-typed partial [] (elapsed ∷ []) free (omega (arith, short))
        ∙ print_lines-elapsed partial
    print_lines-keys (zero ∷ ns) partial all large free short = absurd (omega (arith, all.0))
    print_lines-keys (suc k ∷ ns) partial all large free short =
        print_lines-number (suc k) _ (keys ns (typing partial (elapsed ∷ []))) all.1 large
          (print_line-answer k)
        ∙ rw (print_lines-keys ns partial all.2 large free short) (
            ap (λ t. (if restarts then none else some exit_success, t))
              (sym (
                append_assoc
                  (if ltb n (suc k)
                    then codes "Bad number!\n"
                    else get_or (lines_from [] file) k [] ++ codes "\n")
                  (dialogue (lines_from [] file) n (map entered ns)).1 file)))

exit_code-elapsed :
    (restarts : Bool)
    → exit_code (if restarts then none else some exit_success)
      ≡ (if restarts then none else some exit_success)
exit_code-elapsed true = refl
exit_code-elapsed false = refl

print_parsed-lines :
    (bufsiz : ℕ) (beyond : Bytes) (restarts : Bool) (file : Bytes) (lines : List FileLine) (n : ℕ)
    (events : List Event)
    → 0 < n
    → print_parsed bufsiz beyond restarts file (exit_success, lines, n) events ≡ (
      exit_code (print_lines bufsiz beyond restarts file n lines true false [] events).0,
      prompt ++ (print_lines bufsiz beyond restarts file n lines true false [] events).1,
    )
unfolding print_parsed
print_parsed-lines bufsiz beyond restarts file lines n events h =
    let counted : (n == 0) ≡ false = ground arith in rw (counted, print_parsed) refl

-- On a file with newlines, fewer than the table has entries, on a terminal: positive numbers
-- below 2 ^ 31 are typed, each with its newline, then keys that fit the buffer and end no line,
-- and then the alarm goes off, with nothing behind it. The program prints its prompt, what the
-- dialogue over the file's lines says to the numbers, and the whole file. It ends with success
-- if the alarm interrupts `read`; where the system starts `read` again, it does not end, but
-- waits on. The buffer has more than 20 bytes.
pub main-elapsed :
    (bufsiz : ℕ) (beyond : Bytes) (restarts : Bool) (file : Bytes) (ns : List ℕ) (partial : Bytes)
    → newlines file < count_lines
    → 0 < newlines file
    → AllNumbers ns
    → 20 < bufsiz
    → newlines partial ≡ 0
    → length partial ≤ bufsiz
    → main bufsiz beyond restarts true true
        (some file)
        false
        (keys ns (typing partial (elapsed ∷ [])))
      ≡ (
        if restarts then none else some exit_success,
        prompt ++ ((dialogue (lines_from [] file) (newlines file) (map entered ns)).1 ++ file),
      )
unfolding main parse_file
main-elapsed bufsiz beyond restarts file ns partial few some_line all large free short =
    let (table, parsed, copies) = parse_from-copies count_lines file few in
    let said =
      print_lines-keys bufsiz beyond restarts file table (newlines file) copies ns partial all large
        free short in
    ap (λ r. print_parsed bufsiz beyond restarts file r (keys ns (typing partial (elapsed ∷ []))))
      parsed
    ∙ print_parsed-lines bufsiz beyond restarts file table (newlines file)
        (keys ns (typing partial (elapsed ∷ []))) some_line
    ∙ ap (λ r. (exit_code r.0, prompt ++ r.1)) said
    ∙ ap
        (λ c. (
          c,
          prompt ++ ((dialogue (lines_from [] file) (newlines file) (map entered ns)).1 ++ file),
        ))
        (exit_code-elapsed restarts)
