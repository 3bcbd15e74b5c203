-- ===== src/Prelude/Text.antt =====
-- C strings and buffers as lists of byte values. A C string is the bytes before its 0.
use Prim.Native.Char.{code}
use Prim.Native.Nat.{ℕ, zero, suc, ◌+◌, ◌/◌, ◌%◌}
use Prim.Native.String.{String}
use mathlib.Core.Path.{◌≡◌, refl}
use mathlib.Core.Logic.{◌↔◌}
use mathlib.Core.Bool.{Bool, true, false, ◌&&◌}
use mathlib.Core.List.{List, [], ◌∷◌, ◌++◌}
use native.Mathlib.Omega.{arith}
use os_solutions.Prelude.Numbers.{◌==◌, ltb, if◌then◌else◌}

abbrev pub Bytes : Type 0
Bytes = List ℕ

abbrev pub codes : String → Bytes
codes String.[] = []
codes (String.◌∷◌ c s) = code c ∷ codes s

-- `strcmp(a, b) == 0`
unfoldable pub same_text : Bytes → Bytes → Bool
same_text [] [] = true
same_text (x ∷ xs) (y ∷ ys) = x == y && same_text xs ys
same_text _ _ = false

pub same_text_iff : (a b : Bytes) → (same_text a b ≡ true) ↔ (a ≡ b)
unfolding same_text
same_text_iff (x ∷ a) (y ∷ b) = ground (arith, same_text_iff a b)
same_text_iff _ _ = ground arith

pub same_text_refl : (a : Bytes) → same_text a a ≡ true
same_text_refl a = (same_text_iff a a).1 refl

-- `strncmp(s, prefix, strlen(prefix)) == 0`
unfoldable pub starts_with : Bytes → Bytes → Bool
starts_with [] s = true
starts_with (x ∷ xs) [] = false
starts_with (x ∷ xs) (y ∷ ys) = x == y && starts_with xs ys

pub starts_with-append : (p s : Bytes) → starts_with p (p ++ s) ≡ true
unfolding starts_with
starts_with-append [] s = refl
starts_with-append (x ∷ p) s = ground (arith, starts_with-append p s)

-- `%zu` of `printf`, for numbers of at most `fuel` digits
unfoldable pub decimal_from : ℕ → ℕ → Bytes
decimal_from zero n = []
decimal_from (suc fuel) n =
    let rest = decimal_from fuel (n / 10) in
    if ltb n 10 then (n + b'0') ∷ [] else rest ++ (n % 10 + b'0') ∷ []

-- a `size_t` has at most 20 digits
unfoldable pub decimal : ℕ → Bytes
unfolding decimal_from
decimal n = decimal_from 20 n
