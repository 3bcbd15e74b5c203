-- ===== src/LineEditor.antt =====
-- 17/main.c: a line editor on a terminal without line buffering.
--
-- Keys are the bytes that `read` gives, below 128; `erase` and `kill` are the terminal's own
-- characters for VERASE and VKILL. A step returns the state and what it writes to the terminal.
pub mod Screen
pub mod Text
pub mod Lines
pub mod Editing
pub mod Shows
use os_solutions.Prelude.{
  ℕ, zero, suc, ◌+◌, ◌-◌, Bool, true, false, not, ◌&&◌, ◌||◌, Option, none, some, List, [], ◌∷◌,
  ◌++◌, ◌==◌, ltb, leb, if◌then◌else◌, get_or, set, take, Bytes, codes, Outcome, ok, fault, ◌>>=◌,
}

-- LINESIZE
abbrev pub line_size : ℕ
line_size = 40

-- CEOT and CWERASE
abbrev pub ceot : ℕ
ceot = 4

abbrev pub cwerase : ℕ
cwerase = 23

abbrev pub is_space : ℕ → Bool
is_space c = c == b' ' || (leb 9 c && leb c 13)

abbrev pub not_space : ℕ → Bool
not_space c = not (is_space c)

abbrev pub is_print : ℕ → Bool
is_print c = leb 32 c && leb c 126

-- BACKSPACE
abbrev pub backspace : Bytes
backspace = 8 ∷ (b' ' ∷ (8 ∷ []))

pub record Editor : Type 0 where
  pub line : Bytes
  pub pos : ℕ

-- `while (pos > 0 && test(line[pos - 1])) { BACKSPACE; --pos; }`: the position and the output
unfoldable pub back_while : (ℕ → Bool) → Bytes → ℕ → ℕ × Bytes
back_while test line zero = (0, [])
back_while test line (suc pos) =
    let rest = back_while test line pos in
    if test (get_or line pos 0) then (rest.0, backspace ++ rest.1) else (suc pos, [])

-- the loop at line 71: bytes are copied to the front, and BACKSPACE is written for each
unfoldable pub copy_down : ℕ → Bytes → ℕ → ℕ → Bytes × Bytes
copy_down zero line from to = (line, [])
copy_down (suc n) line from to =
    let rest = copy_down n (set line to (get_or line from 0)) (suc from) (suc to) in
    (rest.0, backspace ++ rest.1)

-- lines 34 to 61, but for the end of the program
unfoldable pub edit_key : ℕ → ℕ → Editor → ℕ → Outcome (Editor × Bytes)
unfolding back_while
edit_key erase kill e ch =
    if ch == erase && ltb 0 e.pos
    then ok (record e { pos = e.pos - 1 }, backspace)
    else if ch == kill
    then (let r = back_while (λ c. true) e.line e.pos in ok (record e { pos = r.0 }, r.1))
    else if ch == cwerase
    then (let r = back_while is_space e.line e.pos in
        let q = back_while not_space e.line r.0 in ok (record e { pos = q.0 }, r.1 ++ q.1))
    else if ch == b'\n'
    then ok (record e { pos = 0 }, ch ∷ [])
    else if not (is_print ch)
    then ok (e, 7 ∷ [])
    else if ltb e.pos line_size
    then ok (record { line = set e.line e.pos ch; pos = e.pos + 1 }, ch ∷ [])
    else fault

-- lines 64 to 86, where the line is full
unfoldable pub wrap_line : Editor → ℕ → Editor × Bytes
unfolding back_while copy_down
wrap_line e ch =
    let r = back_while not_space e.line e.pos in
    let moved = copy_down (e.pos - r.0) e.line r.0 0 in
    if is_space ch
    then (record e { pos = 0 }, codes "\n")
    else if ltb 0 r.0
    then (
      record { line = moved.0; pos = e.pos - r.0 },
      moved.1 ++ (codes "\n" ++ take (e.pos - r.0) moved.0),
    )
    else (record e { pos = 0 }, codes "\n")

-- one key; none where the program ends
unfoldable pub press : ℕ → ℕ → Editor → ℕ → Outcome (Option (Editor × Bytes))
unfolding edit_key wrap_line
press erase kill e ch = if ch == ceot && e.pos == 0 then ok none else (do
  edited ← edit_key erase kill e ch
  let wrapped = wrap_line edited.0 ch
  ok (some (if edited.0.pos == line_size then (wrapped.0, edited.1 ++ wrapped.1) else edited)))

-- the `while` loop over the keys: the last state and all output
unfoldable pub run : ℕ → ℕ → Editor → List ℕ → Outcome (Editor × Bytes)
unfolding press
run erase kill e [] = ok (e, [])
run erase kill e (ch ∷ keys) = press erase kill e ch >>= λ o. elim o [
  | none ↦ ok (e, [])
  | some r ↦ (do later ← run erase kill r.0 keys; ok (later.0, r.1 ++ later.1))
]
