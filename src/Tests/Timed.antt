-- ===== src/Tests/Timed.antt =====
-- The printers of lines that wait for five seconds.
use os_solutions.FileLines.{exit_success, parse_from}
use os_solutions.FileLines.Spans.{newlines, lines_from}
use os_solutions.FileLines.Program.{dialogue}
use os_solutions.TimedLines.{Event, typed, elapsed, prompt, main}
use os_solutions.TimedLines.Session.{typing, keys, main-elapsed}
use os_solutions.MappedLines as Mapped
use os_solutions.MappedLines.Agreement.{main-agreement}
use os_solutions.Prelude.{
  ℕ, ◌≡◌, refl, Bool, true, false, not, ◌==◌, none, some, List, [], ◌∷◌, ◌++◌, Bytes, codes,
  decimal, arith, ok, fault,
}

abbrev file : Bytes
file = codes "ab\ncd\n"

main-elapsed_example :
    main 8192 [] false true true
      (some file)
      false
      (keys (2 ∷ (9 ∷ [])) (typing (codes "1") (elapsed ∷ [])))
    ≡ (some exit_success, prompt ++ (codes "cd\nBad number!\n" ++ file))
unfolding newlines decimal dialogue lines_from
main-elapsed_example =
    main-elapsed 8192 [] false file (2 ∷ (9 ∷ [])) (codes "1") (omega arith) (omega arith)
      (omega arith, omega arith, (omega arith, omega arith, tt)) (omega arith) refl (omega arith)

-- where `read` is started again, a number typed before the alarm is answered behind it
abbrev restarted : List Event
restarted = typing (codes "1") (elapsed ∷ (typed b'\n' ∷ []))

main-restarted :
    main 8192 [] true true true (some file) false restarted
    ≡ (none, prompt ++ (file ++ codes "ab\n"))
unfolding main
main-restarted = refl

-- a `read` that is not started again ends the program
main-interrupted :
    main 8192 [] false true true (some file) false restarted ≡ (some exit_success, prompt ++ file)
unfolding main
main-interrupted = refl

-- 0 and a word that is no number end it
main-zero :
    main 8192 [] false true true (some file) false (typing (codes "x\n") [])
    ≡ (some exit_success, prompt)
unfolding main
main-zero = refl

-- `mmap` makes no mapping of no bytes
abbrev mmap : ℕ → Bool
mmap n = not (n == 0)

main-agreement_example :
    Mapped.main 8192 [] true 4096 mmap true true (some file) restarted
    ≡ ok (main 8192 [] true true true (some file) false restarted)
unfolding newlines
main-agreement_example =
    main-agreement 8192 4096 [] file true mmap restarted refl (omega arith) (omega arith) refl
      (omega arith)

-- a file of whole pages has no 0 behind it, and `printAllString` reads past the mapping
main-whole_pages :
    Mapped.main 8192 [] false 3 mmap true true (some (codes "ab\n")) (elapsed ∷ []) ≡ fault
unfolding Mapped.main parse_from
main-whole_pages = refl
