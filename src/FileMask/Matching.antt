-- ===== src/FileMask/Matching.antt =====
-- `pattern_match`: matching with a single point to return to.
use os_solutions.Prelude.{
  ℕ, zero, suc, Bool, true, false, Option, none, some, [], ◌∷◌, ◌==◌, if◌then◌else◌, Bytes, Outcome,
  ok, fault, timeout,
}

-- The byte that a round reads from the mask: its 0, '?', '*', or one to be equal, and the mask
-- behind it. The byte behind a '/' is one to be equal, whatever it is.
pub data Head : Type 0 where
  ends : Head
  question : Bytes → Head
  asterisk : Bytes → Head
  letter : ℕ → Bytes → Head

abbrev pub escaped : Bytes → Head
escaped [] = ends
escaped (d ∷ mask) = letter d mask

unfoldable pub head_of : Bytes → Head
head_of [] = ends
head_of (d ∷ mask) =
    if d == b'?'
    then question mask
    else if d == b'*'
    then asterisk mask
    else if d == b'/'
    then escaped mask
    else letter d mask

-- `star` and `prestar_str`, none where they are NULL
abbrev pub Back : Type 0
Back = Option (Bytes × Bytes)

abbrev pub Round : Type 0
Round = Bytes → Bytes → Back → Outcome Bool

-- lines 107 to 112, on a byte of the string that is not its 0; `next` is the next round
unfoldable pub try_again : Back → Round → Outcome Bool
try_again none next = ok false
try_again (some (star, [])) next = fault
try_again (some (star, _ ∷ prestar_str)) next = next star prestar_str (some (star, prestar_str))

-- one round of the loop: the `switch` on the mask's byte
unfoldable pub match_byte : Head → Bytes → Back → Round → Outcome Bool
unfolding try_again
match_byte ends [] back next = ok true
match_byte ends (c ∷ str) back next = try_again back next
match_byte (question mask) [] back next = ok false
match_byte (question mask) (c ∷ str) back next = next mask str back
match_byte (asterisk []) str back next = ok true
match_byte (asterisk (d ∷ mask)) str back next = next (d ∷ mask) str (some (d ∷ mask, str))
match_byte (letter d mask) [] back next = ok false
match_byte (letter d mask) (c ∷ str) back next =
    if c == d then next mask str back else try_again back next

-- the `for` loop, with fuel for its rounds
unfoldable pub match_loop : ℕ → Round
unfolding match_byte head_of
match_loop zero mask str back = timeout
match_loop (suc fuel) mask str back =
    match_byte (head_of mask) str back (λ m s b. match_loop fuel m s b)

unfoldable pub pattern_match : ℕ → Bytes → Bytes → Outcome Bool
unfolding match_loop
pattern_match fuel mask str = match_loop fuel mask str none
