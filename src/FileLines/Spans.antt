-- ===== src/FileLines/Spans.antt =====
-- The table that the program builds, against the lines of the file.
use os_solutions.FileLines.{
  FileLine, exit_success, empty_line, line_at, longer, start_line, parse_from, copy_line,
}
use mathlib.Core.List.{append_assoc}
use mathlib.Core.Path.{subst}
use os_solutions.Prelude.{
  ℕ, zero, suc, ◌+◌, ◌≤◌, ◌<◌, ◌≡◌, refl, sym, ap, ◌∙◌, true, false, List, [], ◌∷◌, ◌++◌, ◌==◌, leb,
  if◌then◌else◌, get_or, drop, length, Bytes, arith, Bool-cases, inl, inr, length-set,
  get_or-set_self, get_or-replicate, length-replicate, replicate, get_or-set_ne, length-append,
  drop-append,
}

-- the lines of a text whose line so far is `line`
unfoldable pub lines_from : Bytes → Bytes → List Bytes
lines_from line [] = line ∷ []
lines_from line (c ∷ file) =
    let ended = line ∷ lines_from [] file in
    let longer_line = lines_from (line ++ c ∷ []) file in if c == b'\n' then ended else longer_line

unfoldable pub newlines : Bytes → ℕ
newlines [] = 0
newlines (c ∷ file) = if c == b'\n' then suc (newlines file) else newlines file

-- where the lines stand, for a line so far that has `len` bytes from `off` on
pub spans : ℕ → ℕ → Bytes → List FileLine
spans off len [] = record { offset = off; line_length = len } ∷ []
spans off len (c ∷ file) =
    let ended = record { offset = off; line_length = len } ∷ spans (off + len + 1) 0 file in
    let longer_line = spans off (len + 1) file in if c == b'\n' then ended else longer_line

copy_line-append : (line rest : Bytes) → copy_line (length line) (line ++ rest) ≡ (line, true)
unfolding copy_line
copy_line-append [] rest = refl
copy_line-append (c ∷ line) rest = rw (copy_line-append line rest) refl

copy_here :
    (before line rest : Bytes)
    → copy_line (length line) (drop (length before) (before ++ (line ++ rest))) ≡ (line, true)
copy_here before line rest = rw (drop-append before (line ++ rest)) (copy_line-append line rest)

-- Copying at a span gives the line.
pub spans-copy :
    (whole before line rest : Bytes) (off len i : ℕ)
    → whole ≡ before ++ (line ++ rest)
    → off ≡ length before
    → len ≡ length line
    → i ≤ newlines rest
    → copy_line
        (get_or (spans off len rest) i empty_line).line_length
        (drop (get_or (spans off len rest) i empty_line).offset whole)
      ≡ (get_or (lines_from line rest) i [], true)
unfolding spans lines_from newlines
spans-copy whole before line [] off len zero w o l h = rw (w, o, l) (copy_here before line [])
spans-copy whole before line [] off len (suc i) w o l h = absurd (omega arith)
spans-copy whole before line (c ∷ rest) off len zero w o l h = elim (Bool-cases (c == b'\n')) [
  | inl e ↦ rw (e, w, o, l) (copy_here before line (c ∷ rest))
  | inr e ↦ rw e (
      spans-copy whole before (line ++ c ∷ []) rest off (len + 1) zero
        (w ∙ ap (λ t. before ++ t) (sym (append_assoc line (c ∷ []) rest))) o
        (omega (arith, l, length-append line (c ∷ []))) (rw e at h))
]
spans-copy whole before line (c ∷ rest) off len (suc i) w o l h = elim (Bool-cases (c == b'\n')) [
  | inl e ↦ rw e (
      spans-copy whole (before ++ (line ++ c ∷ [])) [] rest (off + len + 1) 0 i
        (w
          ∙ ap (λ t. before ++ t) (sym (append_assoc line (c ∷ []) rest))
          ∙ sym (append_assoc before (line ++ c ∷ []) rest))
        (omega (arith, o, l, length-append before (line ++ c ∷ []), length-append line (c ∷ [])))
        refl (ground arith))
  | inr e ↦ rw e (
      spans-copy whole before (line ++ c ∷ []) rest off (len + 1) (suc i)
        (w ∙ ap (λ t. before ++ t) (sym (append_assoc line (c ∷ []) rest))) o
        (omega (arith, l, length-append line (c ∷ []))) (rw e at h))
]

-- The table from line `n` on is the spans of what is left, and the lines before stay.
abbrev pub Built : ℕ → List FileLine → ℕ → ℕ → ℕ → Bytes → List FileLine → Type 0
Built most lines n off len file table =
    (parse_from most file false lines n ≡ (exit_success, table, n + newlines file))
    × ((i : ℕ)
        → i ≤ newlines file
        → line_at table (n + i) ≡ get_or (spans off len file) i empty_line)
    × ((i : ℕ) → i < n → line_at table i ≡ line_at lines i)

new_start :
    (lines : List FileLine) (n off len : ℕ)
    → line_at lines n ≡ record { offset = off; line_length = len }
    → ((k : ℕ) → n < k → (line_at lines k).line_length ≡ 0)
    → record (line_at lines (suc n)) {
      offset = (line_at lines n).offset + (line_at lines n).line_length + 1;
    }
      ≡ record { offset = off + len + 1; line_length = 0 }
new_start lines n off len at zeros =
    let zero_length = zeros (suc n) (omega arith) in
    rw at (ap (λ k. record { offset = off + len + 1; line_length = k }) zero_length)

-- the spans behind a line that has ended
ended :
    (lines table : List FileLine) (n off len : ℕ) (file : Bytes)
    → line_at lines n ≡ record { offset = off; line_length = len }
    → ((i : ℕ)
        → i ≤ newlines file
        → line_at table (suc n + i) ≡ get_or (spans (off + len + 1) 0 file) i empty_line)
    → ((i : ℕ) → i < suc n → line_at table i ≡ line_at (start_line lines n) i)
    → (i : ℕ) → i ≤ suc (newlines file)
    → line_at table (n + i)
      ≡ get_or
          (record { offset = off; line_length = len } ∷ spans (off + len + 1) 0 file)
          i
          empty_line
ended lines table n off len file at later earlier zero h =
    ap (line_at table) (omega arith)
    ∙ earlier n (omega arith)
    ∙ get_or-set_ne lines (suc n) n _ empty_line (λ q. omega (arith, q))
    ∙ at
ended lines table n off len file at later earlier (suc i) h =
    ap (line_at table) (omega arith) ∙ later i (omega arith)

pub parse_from-Built :
    (most : ℕ) (file : Bytes) (lines : List FileLine) (n off len : ℕ)
    → length lines ≡ most
    → line_at lines n ≡ record { offset = off; line_length = len }
    → ((k : ℕ) → n < k → (line_at lines k).line_length ≡ 0)
    → n + newlines file < most
    → (table : List FileLine) × Built most lines n off len file table
unfolding parse_from spans newlines
parse_from-Built most [] lines n off len size at zeros h =
    (lines, (ap (λ k. (exit_success, lines, k)) (omega arith), (λ i k. last i k), (λ i k. refl)))
  where
    last :
        (i : ℕ)
        → i ≤ 0
        → line_at lines (n + i)
          ≡ get_or (record { offset = off; line_length = len } ∷ []) i empty_line
    last zero k = ap (line_at lines) (omega arith) ∙ at
    last (suc i) k = absurd (omega arith)
parse_from-Built most (c ∷ file) lines n off len size at zeros h = elim (Bool-cases (c == b'\n')) [
  | inl e ↦
      let few : n + suc (newlines file) < most = rw e at h in
      let fits : leb most (suc n) ≡ false = ground arith in
      let (table, (run, later, earlier)) =
        parse_from-Built most file (start_line lines n) (suc n) (off + len + 1) 0
          (length-set lines (suc n) _ ∙ size)
          (get_or-set_self lines (suc n) _ empty_line (omega (arith, size))
            ∙ new_start lines n off len at zeros)
          (λ k k'.
            ap (λ l. l.line_length)
              (get_or-set_ne lines (suc n) k _ empty_line (λ q. omega (arith, q)))
            ∙ zeros k (omega arith))
          (ground arith) in
      rw (e, fits)
        (
          table,
          (
            run ∙ ap (λ k. (exit_success, table, k)) (omega arith),
            ended lines table n off len file at later earlier,
            (λ i k.
                earlier i (omega arith)
                ∙ get_or-set_ne lines (suc n) i _ empty_line (λ q. omega (arith, q))),
          ),
        )
  | inr e ↦
      let (table, (run, later, earlier)) =
        parse_from-Built most file (longer lines n) n off (len + 1) (length-set lines n _ ∙ size)
          (get_or-set_self lines n _ empty_line (omega (arith, size))
            ∙ ap {A = FileLine} (λ l. record l { line_length = l.line_length + 1 }) at)
          (λ k k'.
            ap (λ l. l.line_length) (get_or-set_ne lines n k _ empty_line (λ q. omega (arith, q)))
            ∙ zeros k k')
          (ground arith) in
      rw e (
        table,
        (
          run,
          later,
          (λ i k. earlier i k ∙ get_or-set_ne lines n i _ empty_line (λ q. omega (arith, q))),
        ),
      )
]

-- A file with fewer newlines than the table has entries is parsed, and the table finds its lines.
pub parse_from-copies :
    (most : ℕ) (file : Bytes)
    → newlines file < most
    → (table : List FileLine) × (parse_from most file false (replicate most empty_line) 0
        ≡ (exit_success, table, newlines file))
      × ((i : ℕ)
          → i < newlines file
          → copy_line (line_at table i).line_length (drop (line_at table i).offset file)
            ≡ (get_or (lines_from [] file) i [], true))
parse_from-copies most file few =
    let (table, (run, later, _)) =
      parse_from-Built most file (replicate most empty_line) 0 0 0
        (length-replicate most empty_line) (get_or-replicate most 0 empty_line)
        (λ k k'. ap (λ l. l.line_length) (get_or-replicate most k empty_line))
        (omega (arith, few)) in
    (
      table,
      run ∙ ap (λ k. (exit_success, table, k)) (omega arith),
      (λ i i'.
          subst
            (λ l.
              copy_line l.line_length (drop l.offset file)
              ≡ (get_or (lines_from [] file) i [], true))
            (sym (ap (line_at table) (omega arith) ∙ later i (omega arith)))
            (spans-copy file [] [] file 0 0 i refl refl refl (omega arith))),
    )
