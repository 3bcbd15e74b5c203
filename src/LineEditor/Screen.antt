-- ===== src/LineEditor/Screen.antt =====
-- The row of the terminal that the cursor stands in.
use os_solutions.LineEditor.{backspace}
use os_solutions.Prelude.{ℕ, ◌≡◌, refl, ap, false, [], ◌∷◌, ◌++◌, ◌==◌, if◌then◌else◌, drop, Bytes}

-- what stands before the cursor, the last byte first, and from the cursor on
pub record Row : Type 0 where
  pub before : Bytes
  pub behind : Bytes

-- '\b' moves the cursor, '\n' starts a row, '\a' rings, and other bytes are written over what is there
abbrev pub go_left : Bytes → Bytes → Row
go_left [] behind = record { before = []; behind = behind }
go_left (c ∷ before) behind = record { before = before; behind = c ∷ behind }

unfoldable pub show_byte : Row → ℕ → Row
show_byte r c =
    if c == 8
    then go_left r.before r.behind
    else if c == b'\n'
    then record { before = []; behind = [] }
    else if c == 7
    then r
    else record { before = c ∷ r.before; behind = drop 1 r.behind }

unfoldable pub show : Row → Bytes → Row
unfolding show_byte
show r [] = r
show r (c ∷ out) = show (show_byte r c) out

pub show-append : (r : Row) (a b : Bytes) → show r (a ++ b) ≡ show (show r a) b
unfolding show
show-append r [] b = refl
show-append r (c ∷ a) b = show-append (show_byte r c) a b

abbrev pub IsBlank : Bytes → Type 0
IsBlank [] = Unit {0}
IsBlank (c ∷ s) = (c ≡ b' ') × IsBlank s

IsBlank-drop : (s : Bytes) → IsBlank s → IsBlank (drop 1 s)
IsBlank-drop [] h = tt
IsBlank-drop (c ∷ s) h = h.1

-- The row shows `text`, given with its last byte first, and nothing behind it.
pub record Shows (text : Bytes) (r : Row) : Type 0 where
  pub is_before : r.before ≡ text
  pub is_blank : IsBlank r.behind

pub backspace-Shows :
    (c : ℕ) (text : Bytes) (r : Row) → Shows (c ∷ text) r → Shows text (show r backspace)
unfolding show
backspace-Shows c text r h =
    rw h.is_before (record { is_before = refl; is_blank = (refl, h.is_blank) })

pub newline-Shows : (text : Bytes) (r : Row) → Shows [] (show r (b'\n' ∷ []))
unfolding show
newline-Shows text r = record { is_before = refl; is_blank = tt }

pub bell-Shows : (text : Bytes) (r : Row) → Shows text r → Shows text (show r (7 ∷ []))
unfolding show
bell-Shows text r h = h

pub byte-Shows :
    (c : ℕ) (text : Bytes) (r : Row)
    → (c == 8) ≡ false
    → (c == b'\n') ≡ false
    → (c == 7) ≡ false
    → Shows text r
    → Shows (c ∷ text) (show r (c ∷ []))
unfolding show
byte-Shows c text r h k l s =
    rw (h, k, l)
      (record { is_before = ap (◌∷◌ c) s.is_before; is_blank = IsBlank-drop r.behind s.is_blank })
