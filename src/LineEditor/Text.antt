-- ===== src/LineEditor/Text.antt =====
-- What the keys do to the text of the line, whose last byte stands first in the list.
use os_solutions.LineEditor.{line_size, ceot, cwerase, is_space, not_space, is_print}
use os_solutions.Prelude.{
  ℕ, zero, suc, ◌-◌, ◌≤◌, ◌≡◌, refl, Bool, true, not, ◌&&◌, Option, none, some, List, [], ◌∷◌, ◌==◌,
  ltb, if◌then◌else◌, length, take, drop, Bytes, arith, Bool-cases, inl, inr,
}

unfoldable pub drop_while : (ℕ → Bool) → Bytes → Bytes
drop_while test [] = []
drop_while test (c ∷ text) = let rest = drop_while test text in if test c then rest else c ∷ text

abbrev pub edit_text : ℕ → ℕ → Bytes → ℕ → Bytes
edit_text erase kill text ch =
    if ch == erase && ltb 0 (length text)
    then drop 1 text
    else if ch == kill
    then []
    else if ch == cwerase
    then drop_while not_space (drop_while is_space text)
    else if ch == b'\n'
    then []
    else if not (is_print ch)
    then text
    else ch ∷ text

-- A full line goes on in the next row: its last word, where it has one that is not the whole line.
abbrev pub wrap_text : Bytes → ℕ → Bytes
wrap_text text ch =
    let kept = drop_while not_space text in
    if is_space ch
    then []
    else if ltb 0 (length kept)
    then take (length text - length kept) text
    else []

unfoldable pub press_text : ℕ → ℕ → Bytes → ℕ → Option Bytes
press_text erase kill text ch =
    let edited = edit_text erase kill text ch in
    if ch == ceot && length text == 0
    then none
    else some (if length edited == line_size then wrap_text edited ch else edited)

unfoldable pub run_text : ℕ → ℕ → Bytes → List ℕ → Bytes
run_text erase kill text [] = text
run_text erase kill text (ch ∷ keys) = elim (press_text erase kill text ch) [
  | none ↦ text
  | some text' ↦ run_text erase kill text' keys
]

-- The bytes of a text are printable ones.
abbrev pub AllPrint : Bytes → Type 0
AllPrint [] = Unit {0}
AllPrint (c ∷ text) = (is_print c ≡ true) × AllPrint text

pub drop_while-AllPrint :
    (test : ℕ → Bool) (text : Bytes) → AllPrint text → AllPrint (drop_while test text)
unfolding drop_while
drop_while-AllPrint test [] h = tt
drop_while-AllPrint test (c ∷ text) h = elim (Bool-cases (test c)) [
  | inl e ↦ rw e (drop_while-AllPrint test text h.1)
  | inr e ↦ rw e h
]

pub take-AllPrint : (n : ℕ) (text : Bytes) → AllPrint text → AllPrint (take n text)
take-AllPrint zero text h = tt
take-AllPrint (suc n) [] h = tt
take-AllPrint (suc n) (c ∷ text) h = (h.0, take-AllPrint n text h.1)

pub drop_while-all : (text : Bytes) → drop_while (λ c. true) text ≡ []
unfolding drop_while
drop_while-all [] = refl
drop_while-all (c ∷ text) = drop_while-all text

pub length-drop_while :
    (test : ℕ → Bool) (text : Bytes) → length (drop_while test text) ≤ length text
unfolding drop_while
length-drop_while test [] = omega arith
length-drop_while test (c ∷ text) = ground (arith, length-drop_while test text)
