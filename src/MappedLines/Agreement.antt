-- ===== src/MappedLines/Agreement.antt =====
-- The program with the mapping prints what the program that reads the file prints.
use os_solutions.FileLines.{FileLine, Code, exit_success, line_at, copy_line}
use os_solutions.FileLines.Spans.{newlines, lines_from, parse_from-copies}
use os_solutions.HttpClient.{c_string}
use os_solutions.HttpClient.Session.{has_zero, c_string-append}
use os_solutions.TimedLines as Timed
use os_solutions.TimedLines.{
  count_lines, LineNumber, number, below_zero, Event, Reading, reading, line, read_line_num,
  print_line, print_lines, print_parsed, exit_code, prompt,
}
use os_solutions.MappedLines.{
  mapped, mapping, parse_mapping, print_bytes, print_mapped_line, print_all_string,
  print_mapped_lines, print_parsed_mapping, main,
}
use native.Mathlib.Nat.{mod-lt}
use os_solutions.Prelude.{
  ℕ, zero, suc, ◌-◌, ◌%◌, ◌<◌, ◌≡◌, refl, ap, ◌∙◌, Bool, true, false, Option, none, some, List, [],
  ◌∷◌, ◌++◌, ◌==◌, ltb, if◌then◌else◌, length, take-append, drop, replicate, get_or, Bytes, Outcome,
  ok, ◌>>=◌, arith, Bool-cases, inl, inr,
}

-- a line is in the memory where it is in the file
print_bytes-copy_line :
    (n : ℕ) (file behind text : Bytes)
    → copy_line n file ≡ (text, true)
    → print_bytes n (file ++ behind) ≡ ok text
unfolding print_bytes copy_line
print_bytes-copy_line zero file behind text e = ap ok (ap (λ r. r.0) e)
print_bytes-copy_line (suc n) [] behind text e = cc
print_bytes-copy_line (suc n) (c ∷ file) behind text e =
    let whole : (copy_line n file).1 ≡ true = ap (λ r. r.1) e in
    let rest =
      print_bytes-copy_line n file behind (copy_line n file).0
        (ap (λ b. ((copy_line n file).0, b)) whole) in
    rw rest (ap (λ r. ok r.0) e)

print_bytes-drop :
    (off n : ℕ) (file behind text : Bytes)
    → copy_line n (drop off file) ≡ (text, true)
    → print_bytes n (drop off (file ++ behind)) ≡ ok text
unfolding print_bytes copy_line
print_bytes-drop zero n file behind text e = print_bytes-copy_line n file behind text e
print_bytes-drop (suc off) zero [] behind text e = ap ok (ap (λ r. r.0) e)
print_bytes-drop (suc off) (suc n) [] behind text e = cc
print_bytes-drop (suc off) n (c ∷ file) behind text e = print_bytes-drop off n file behind text e

-- an answer between what the handler printed and what comes later
abbrev joined : Bytes → Option Code × Bytes → Option Code × Bytes → Option Code × Bytes
joined front later answer = elim answer.0 [
  | some c ↦ (some c, front ++ answer.1)
  | none ↦ (later.0, front ++ (answer.1 ++ later.1))
]

abbrev joined_mapped :
    Bytes → Outcome (Option Code × Bytes) → Option Code × Bytes → Outcome (Option Code × Bytes)
joined_mapped front rest answer = elim answer.0 [
  | some c ↦ ok (some c, front ++ answer.1)
  | none ↦ (rest >>= λ later. ok (later.0, front ++ (answer.1 ++ later.1)))
]

joined_mapped-joined :
    (front : Bytes) (later answer : Option Code × Bytes)
    → joined_mapped front (ok later) answer ≡ ok (joined front later answer)
joined_mapped-joined front later (none, text) = refl
joined_mapped-joined front later (some c, text) = refl

module _ (file memory : Bytes) (lines : List FileLine) (n : ℕ) (shown : c_string memory ≡ ok file)
    (table : (i : ℕ)
      → i < n
      → (text : Bytes) × (copy_line
            (line_at lines i).line_length
            (drop (line_at lines i).offset file)
          ≡ (text, true))
        × (print_bytes (line_at lines i).line_length (drop (line_at lines i).offset memory)
            ≡ ok text)) where
  print_mapped_line-print_line :
      (need : LineNumber)
      → print_mapped_line memory n lines need ≡ ok (print_line file n lines need)
  unfolding print_mapped_line print_line
  print_mapped_line-print_line below_zero = refl
  print_mapped_line-print_line (number zero) = refl
  print_mapped_line-print_line (number (suc k)) = elim (Bool-cases (ltb n (suc k))) [
    | inl e ↦ rw e refl
    | inr e ↦ let (text, copied, printed) = table k (ground arith) in rw (e, copied, printed) refl
  ]

  print_all_string-eq :
      (handled : Bool) → print_all_string handled memory ≡ ok (if handled then file else [])
  unfolding print_all_string
  print_all_string-eq true = shown
  print_all_string-eq false = refl

  -- what is printed behind an event
  abbrev after_event :
      Reading × Bool → (Bool → Bool → Bytes → Option Code × Bytes) → Option Code × Bytes
  after_event (r, handled) rest = elim r [
    | reading a s b ↦ ((rest a s b).0, (if handled then file else []) ++ (rest a s b).1)
    | line need s ↦ elim (print_line file n lines need).0 [
      | some c ↦ (some c, (if handled then file else []) ++ (print_line file n lines need).1)
      | none ↦ (
        (rest true s []).0,
        (if handled then file else []) ++ ((print_line file n lines need).1 ++ (rest true s []).1),
      )
    ]
  ]

  abbrev after_mapped :
      Reading × Bool
      → (Bool → Bool → Bytes → Outcome (Option Code × Bytes))
      → Outcome (Option Code × Bytes)
  after_mapped (r, handled) rest = print_all_string handled memory >>= λ shown'. elim r [
    | reading a s b ↦ (rest a s b >>= λ later. ok (later.0, shown' ++ later.1))
    | line need s ↦
        (print_mapped_line memory n lines need >>= λ answer. elim answer.0 [
          | some c ↦ ok (some c, shown' ++ answer.1)
          | none ↦ (rest true s [] >>= λ later. ok (later.0, shown' ++ (answer.1 ++ later.1)))
        ])
  ]

  after_mapped-after_event :
      (r : Reading) (handled : Bool) (rest : Bool → Bool → Bytes → Option Code × Bytes)
      (mapped_rest : Bool → Bool → Bytes → Outcome (Option Code × Bytes))
      → ((a s : Bool) (b : Bytes) → mapped_rest a s b ≡ ok (rest a s b))
      → after_mapped (r, handled) mapped_rest ≡ ok (after_event (r, handled) rest)
  after_mapped-after_event (reading a s b) handled rest mapped_rest same =
      rw (print_all_string-eq handled, same a s b) refl
  after_mapped-after_event (line need s) handled rest mapped_rest same =
      let front = if handled then file else [] in
      rw (print_all_string-eq handled, print_mapped_line-print_line need)
        (ap (λ rest'. joined_mapped front rest' (print_line file n lines need)) (same true s [])
          ∙ joined_mapped-joined front (rest true s []) (print_line file n lines need))

  print_mapped_lines-print_lines :
      (bufsiz : ℕ) (beyond : Bytes) (restarts : Bool) (events : List Event) (armed signaled : Bool)
      (inp_buff : Bytes)
      → print_mapped_lines bufsiz beyond restarts memory n lines armed signaled inp_buff events
        ≡ ok (print_lines bufsiz beyond restarts file n lines armed signaled inp_buff events)
  unfolding print_mapped_lines print_lines
  print_mapped_lines-print_lines bufsiz beyond restarts [] armed signaled inp_buff = refl
  print_mapped_lines-print_lines bufsiz beyond restarts (event ∷ events) armed signaled inp_buff =
      let r = read_line_num bufsiz beyond restarts armed signaled inp_buff event in
      after_mapped-after_event r.0 r.1
        (λ a s b. print_lines bufsiz beyond restarts file n lines a s b events)
        (λ a s b. print_mapped_lines bufsiz beyond restarts memory n lines a s b events)
        (λ a s b. print_mapped_lines-print_lines bufsiz beyond restarts events a s b)

-- `printLines` and what stands behind it
print_parsed_mapping-print_parsed :
    (bufsiz : ℕ) (beyond : Bytes) (restarts : Bool) (memory file : Bytes) (lines : List FileLine)
    (n : ℕ) (events : List Event)
    → print_mapped_lines bufsiz beyond restarts memory n lines true false [] events
      ≡ ok (print_lines bufsiz beyond restarts file n lines true false [] events)
    → print_parsed_mapping bufsiz beyond restarts memory (exit_success, lines, n) events
      ≡ ok (print_parsed bufsiz beyond restarts file (exit_success, lines, n) events)
unfolding print_parsed_mapping print_parsed
print_parsed_mapping-print_parsed bufsiz beyond restarts memory file lines n events e =
    elim (Bool-cases (n == 0)) [ inl z ↦ rw z refl | inr z ↦ rw (z, e) refl ]

mapped-append :
    (page : ℕ) (file : Bytes)
    → 0 < page
    → 0 < length file % page
    → (behind : Bytes) × (mapped page file ≡ file ++ 0 ∷ behind)
mapped-append page file p h =
    let partial : (length file % page == 0) ≡ false = ground arith in
    let (k, e) = one_more (page - length file % page) (omega (arith, mod-lt (length file) p)) in
    (replicate k 0, rw partial (ap (λ m. file ++ replicate m 0) e))
  where
    one_more : (n : ℕ) → 0 < n → (k : ℕ) × (n ≡ suc k)
    one_more zero h = absurd (omega arith)
    one_more (suc k) h = (k, refl)

-- On a file without a 0, with fewer newlines than the table has entries, whose last page is not
-- full, the program that maps the file into memory reads nothing outside the mapping, and ends
-- and prints as the program that reads the file, whatever keys and alarms come. The mapping is
-- made and pages are not empty.
pub main-agreement :
    (bufsiz page : ℕ) (beyond file : Bytes) (restarts : Bool) (mmap : ℕ → Bool)
    (events : List Event)
    → mmap (length file) ≡ true
    → 0 < page
    → 0 < length file % page
    → has_zero file ≡ false
    → newlines file < count_lines
    → main bufsiz beyond restarts page mmap true true (some file) events
      ≡ ok (Timed.main bufsiz beyond restarts true true (some file) false events)
unfolding main mapping parse_mapping Timed.main Timed.parse_file
main-agreement bufsiz page beyond file restarts mmap events maps p partial plain few =
    let (behind, memory) = mapped-append page file p partial in
    let (table, parsed, copies) = parse_from-copies count_lines file few in
    let found : (i : ℕ)
        → i < newlines file
        → (text : Bytes) × (copy_line (line_at table i).line_length
              (drop (line_at table i).offset file)
            ≡ (text, true))
          × (print_bytes (line_at table i).line_length
                (drop (line_at table i).offset (file ++ 0 ∷ behind))
              ≡ ok text) =
      λ i i'. (
        get_or (lines_from [] file) i [],
        copies i i',
        print_bytes-drop (line_at table i).offset (line_at table i).line_length file (0 ∷ behind) _
            (copies i i'),
      ) in
    rw (maps, main)
      (rw memory (
        rw (take-append file (0 ∷ behind)) (
          rw parsed (
            print_parsed_mapping-print_parsed bufsiz beyond restarts (file ++ 0 ∷ behind) file table
              (newlines file) events
              (print_mapped_lines-print_lines file (file ++ 0 ∷ behind) table (newlines file)
                (c_string-append file behind plain) found bufsiz beyond restarts events true false
                [])))))
