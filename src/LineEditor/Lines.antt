-- ===== src/LineEditor/Lines.antt =====
-- The line's array, read backwards from a position.
use os_solutions.LineEditor.{back_while, copy_down, backspace, is_print}
use os_solutions.LineEditor.Screen.{Row, Shows, show, show-append, backspace-Shows, byte-Shows}
use os_solutions.LineEditor.Text.{drop_while, AllPrint}
use mathlib.Core.List.{append_assoc}
use os_solutions.Prelude.{
  ℕ, zero, suc, ◌+◌, ◌≤◌, ◌<◌, ◌≡◌, refl, sym, ap, ◌∙◌, Bool, true, [], ◌∷◌, ◌++◌, length, get_or,
  set, take, drop, Bytes, arith, Bool-cases, inl, inr, length-set, get_or-set_self, get_or-set_ne,
}

unfoldable pub typed : Bytes → ℕ → Bytes
typed line zero = []
typed line (suc pos) = get_or line pos 0 ∷ typed line pos

pub length-typed : (line : Bytes) (pos : ℕ) → length (typed line pos) ≡ pos
unfolding typed
length-typed line zero = refl
length-typed line (suc pos) = ap suc (length-typed line pos)

pub typed-set : (line : Bytes) (i pos c : ℕ) → pos ≤ i → typed (set line i c) pos ≡ typed line pos
unfolding typed
typed-set line i zero c h = refl
typed-set line i (suc pos) c h =
    rw (get_or-set_ne line i pos c 0 (λ e. omega (arith, e)), typed-set line i pos c (omega arith))
      refl

pub back_while-typed :
    (test : ℕ → Bool) (line : Bytes) (pos : ℕ)
    → typed line (back_while test line pos).0 ≡ drop_while test (typed line pos)
unfolding back_while drop_while typed
back_while-typed test line zero = refl
back_while-typed test line (suc pos) = elim (Bool-cases (test (get_or line pos 0))) [
  | inl e ↦ rw e (back_while-typed test line pos)
  | inr e ↦ rw e refl
]

pub back_while-le : (test : ℕ → Bool) (line : Bytes) (pos : ℕ) → (back_while test line pos).0 ≤ pos
unfolding back_while
back_while-le test line zero = omega arith
back_while-le test line (suc pos) = ground (arith, back_while-le test line pos)

-- The row follows the position.
pub back_while-Shows :
    (test : ℕ → Bool) (line : Bytes) (pos : ℕ) (r : Row)
    → Shows (typed line pos) r
    → Shows (drop_while test (typed line pos)) (show r (back_while test line pos).1)
unfolding back_while drop_while typed show
back_while-Shows test line zero r h = h
back_while-Shows test line (suc pos) r h = elim (Bool-cases (test (get_or line pos 0))) [
  | inl e ↦ rw e (
      back_while-Shows test line pos (show r backspace)
        (backspace-Shows (get_or line pos 0) (typed line pos) r h))
  | inr e ↦ rw e h
]

pub typed_front :
    (line : Bytes) (to c : ℕ)
    → to < length line
    → typed (set line to c) (suc to) ≡ c ∷ typed line to
unfolding typed
typed_front line to c h =
    rw (get_or-set_self line to c 0 h, typed-set line to to c (omega arith)) refl

pub print-Shows :
    (c : ℕ) (text : Bytes) (r : Row)
    → is_print c ≡ true
    → Shows text r
    → Shows (c ∷ text) (show r (c ∷ []))
print-Shows c text r h s = byte-Shows c text r (ground arith) (ground arith) (ground arith) s

take-typed-set :
    (n i pos c : ℕ) (line : Bytes)
    → i + n < pos
    → take n (typed (set line i c) pos) ≡ take n (typed line pos)
unfolding typed
take-typed-set zero i pos c line h = refl
take-typed-set (suc n) i zero c line h = elim h [ ]
take-typed-set (suc n) i (suc pos) c line h =
    rw
      (
        get_or-set_ne line i pos c 0 (λ e. omega (arith, e)),
        take-typed-set n i pos c line (omega arith),
      )
      refl

take-typed-suc :
    (n from pos : ℕ) (line : Bytes)
    → pos ≡ suc (n + from)
    → take (suc n) (typed line pos) ≡ take n (typed line pos) ++ get_or line from 0 ∷ []
unfolding typed
take-typed-suc n from zero line h = absurd (omega (arith, h))
take-typed-suc zero from (suc pos) line h = ap (λ k. get_or line k 0 ∷ []) (omega (arith, h))
take-typed-suc (suc n) from (suc pos) line h =
    ap (◌∷◌ (get_or line pos 0)) (take-typed-suc n from pos line (omega (arith, h)))

-- Copying the end of the text to the front of the array.
pub copy_down-typed :
    (n : ℕ) (line : Bytes) (from to pos : ℕ)
    → pos ≡ from + n
    → to ≤ from
    → pos ≤ length line
    → typed (copy_down n line from to).0 (to + n) ≡ take n (typed line pos) ++ typed line to
unfolding copy_down
copy_down-typed zero line from to pos e h l = ap (typed line) (omega arith)
copy_down-typed (suc n) line from to pos e h l =
    let c = get_or line from 0 in
    let moved = set line to c in
    let front : typed moved (suc to) ≡ c ∷ typed line to =
      typed_front line to c (omega (arith, e)) in
    ap (typed (copy_down n moved (suc from) (suc to)).0) (omega arith)
    ∙ copy_down-typed n moved (suc from) (suc to) pos (omega (arith, e)) (omega arith)
        (omega (arith, length-set line to c))
    ∙ rw
        (
          take-typed-set n to pos c line (omega (arith, e)),
          front,
          take-typed-suc n from pos line (omega (arith, e)),
        )
        (sym (append_assoc (take n (typed line pos)) (c ∷ []) (typed line to)))

pub length-copy_down :
    (n : ℕ) (line : Bytes) (from to : ℕ) → length (copy_down n line from to).0 ≡ length line
unfolding copy_down
length-copy_down zero line from to = refl
length-copy_down (suc n) line from to =
    length-copy_down n (set line to (get_or line from 0)) (suc from) (suc to)
    ∙ length-set line to (get_or line from 0)

pub copy_down-Shows :
    (n : ℕ) (line text : Bytes) (from to : ℕ) (r : Row)
    → n ≤ length text
    → Shows text r
    → Shows (drop n text) (show r (copy_down n line from to).1)
unfolding copy_down show
copy_down-Shows zero line text from to r h s = s
copy_down-Shows (suc n) line [] from to r h s = absurd (omega arith)
copy_down-Shows (suc n) line (c ∷ text) from to r h s =
    copy_down-Shows n (set line to (get_or line from 0)) text (suc from) (suc to) (show r backspace)
      (omega arith) (backspace-Shows c text r s)

take-suc :
    (line : Bytes) (pos : ℕ)
    → pos < length line
    → take (suc pos) line ≡ take pos line ++ get_or line pos 0 ∷ []
take-suc [] pos h = elim h [ ]
take-suc (c ∷ line) zero h = refl
take-suc (c ∷ line) (suc pos) h = ap (◌∷◌ c) (take-suc line pos (omega arith))

-- Writing the text from the start of a row.
pub take-Shows :
    (line : Bytes) (pos : ℕ) (r : Row)
    → pos ≤ length line
    → AllPrint (typed line pos)
    → Shows [] r
    → Shows (typed line pos) (show r (take pos line))
unfolding typed show
take-Shows line zero r h p s = s
take-Shows line (suc pos) r h p s =
    let c = get_or line pos 0 in
    rw (take-suc line pos (omega arith), show-append r (take pos line) (c ∷ []))
      (print-Shows c (typed line pos) (show r (take pos line)) p.0
        (take-Shows line pos r (omega arith) p.1 s))
