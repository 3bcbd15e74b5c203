-- ===== src/HttpUtils/Numbers.antt =====
-- Numbers that `printf` writes and `strtol` reads.
use os_solutions.HttpUtils.{is_digit, skip_spaces, digits_value, sign_split, strtol, long_max}
use mathlib.Core.List.{append_assoc, append-nil}
use native.Mathlib.Nat.{pow-succ'}
use mathlib.Core.Path.{subst}
use os_solutions.Prelude.{
  ℕ, zero, suc, ◌+◌, ◌*◌, ◌/◌, ◌%◌, ◌-◌, ◌^◌, ◌≤◌, ◌<◌, ◌≡◌, refl, sym, ap, ◌∙◌, Bool, true, false,
  Option, none, some, [], ◌∷◌, ◌++◌, ltb, leb, if◌then◌else◌, Bytes, decimal, decimal_from, arith,
  Bool-cases, inl, inr, ltb→lt,
}

digits_value-digit :
    (d acc : ℕ) (rest : Bytes) (b : Bool)
    → d < 10
    → digits_value ((d + b'0') ∷ rest) acc b ≡ digits_value rest (acc * 10 + d) true
unfolding digits_value
digits_value-digit d acc rest b h =
    let digit : is_digit (d + b'0') ≡ true = ground arith in
    let value : acc * 10 + (d + b'0' - b'0') ≡ acc * 10 + d = omega arith in rw (digit, value) refl

tenth : (fuel n : ℕ) → n < 10 ^ suc fuel → n / 10 < 10 ^ fuel
tenth fuel n h = omega (arith, pow-succ' 10 fuel)

several : (fuel n : ℕ) → n < 10 ^ suc fuel → ltb n 10 ≡ false → 0 < fuel
several zero n h e = absurd (ground arith)
several (suc fuel) n h e = omega arith

digits_value-decimal :
    (fuel n : ℕ) (rest : Bytes) (b : Bool)
    → n < 10 ^ fuel
    → 0 < fuel
    → digits_value (decimal_from fuel n ++ rest) 0 b ≡ digits_value rest n true
unfolding decimal_from
digits_value-decimal zero n rest b h p = elim p [ ]
digits_value-decimal (suc fuel) n rest b h p = elim (Bool-cases (ltb n 10)) [
  | inl small ↦ rw small (
      digits_value-digit n 0 rest b (ltb→lt n 10 small)
      ∙ ap (λ k. digits_value rest k true) (omega arith))
  | inr large ↦
      rw (large, append_assoc (decimal_from fuel (n / 10)) ((n % 10 + b'0') ∷ []) rest)
        (digits_value-decimal fuel (n / 10) ((n % 10 + b'0') ∷ rest) b (tenth fuel n h)
            (several fuel n h large)
          ∙ digits_value-digit (n % 10) (n / 10) rest true (omega arith)
          ∙ ap (λ k. digits_value rest k true) (omega arith))
]

first_digit :
    (fuel n : ℕ)
    → n < 10 ^ fuel
    → 0 < fuel
    → (d : ℕ) × (s : Bytes) × (decimal_from fuel n ≡ (d + b'0') ∷ s) × (d < 10)
unfolding decimal_from
first_digit zero n h p = elim p [ ]
first_digit (suc fuel) n h p = elim (Bool-cases (ltb n 10)) [
  | inl small ↦ (n, [], rw small refl, ltb→lt n 10 small)
  | inr large ↦
      let (d, s, e, l) = first_digit fuel (n / 10) (tenth fuel n h) (several fuel n h large) in
      (d, s ++ (n % 10 + b'0') ∷ [], rw (large, e) refl, l)
]

-- the value that the digits give, where it is no larger than a `long`
clamped : Option ℕ → Option (Bool × ℕ)
clamped none = none
clamped (some n) = some (false, if leb n long_max then n else long_max)

digit_split :
    (d : ℕ) (s : Bytes)
    → d < 10
    → sign_split (skip_spaces (b' ' ∷ ((d + b'0') ∷ s))) ≡ (false, (d + b'0') ∷ s)
unfolding skip_spaces sign_split
digit_split d s h = ground arith

strtol-clamped :
    (text digits : Bytes)
    → sign_split (skip_spaces text) ≡ (false, digits)
    → strtol text ≡ clamped (digits_value digits 0 false)
unfolding strtol clamped
strtol-clamped text digits e =
    subst
      (λ r.
        elim (digits_value r.1 0 false) [
          | none ↦ none
          | some n ↦ some (
            r.0,
            if r.0
                then (if leb n (2 ^ 63) then n else 2 ^ 63)
                else (if leb n long_max then n else long_max),
          )
        ]
        ≡ clamped (digits_value digits 0 false))
      (sym e)
      (elim (digits_value digits 0 false)
        as (λ o.
          elim o [ none ↦ none | some n ↦ some (false, if leb n long_max then n else long_max) ]
          ≡ clamped o) [ none ↦ refl | some n ↦ refl ])

decimal_read :
    (fuel n : ℕ) (rest : Bytes)
    → n < 10 ^ fuel
    → 0 < fuel
    → n ≤ long_max
    → strtol (b' ' ∷ (decimal_from fuel n ++ b'\n' ∷ rest)) ≡ some (false, n)
unfolding digits_value clamped
decimal_read fuel n rest h p l =
    let (d, s, e, small) = first_digit fuel n h p in
    let text = decimal_from fuel n ++ b'\n' ∷ rest in
    let split : sign_split (skip_spaces (b' ' ∷ text)) ≡ (false, text) =
      subst
        (λ t. sign_split (skip_spaces (b' ' ∷ (t ++ b'\n' ∷ rest))) ≡ (false, t ++ b'\n' ∷ rest))
        (sym e) (digit_split d (s ++ b'\n' ∷ rest) small) in
    let in_range : leb n long_max ≡ true = ground arith in
    strtol-clamped (b' ' ∷ text) text split
    ∙ ap clamped (digits_value-decimal fuel n (b'\n' ∷ rest) false h p)
    ∙ ap (λ b. some (false, if b then n else long_max)) in_range

-- A number of a header: a space, its digits, and the end of the line.
pub strtol-decimal :
    (n : ℕ) (rest : Bytes)
    → n ≤ long_max
    → strtol (b' ' ∷ (decimal n ++ b'\n' ∷ rest)) ≡ some (false, n)
unfolding decimal digits_value clamped
strtol-decimal n rest h = decimal_read 20 n rest (omega (arith, h)) (omega arith) h

digit_end :
    (d : ℕ) (s : Bytes)
    → d < 10
    → sign_split (skip_spaces ((d + b'0') ∷ s)) ≡ (false, (d + b'0') ∷ s)
unfolding skip_spaces sign_split
digit_end d s h = ground arith

decimal_alone :
    (fuel n : ℕ)
    → n < 10 ^ fuel
    → 0 < fuel
    → n ≤ long_max
    → strtol (decimal_from fuel n) ≡ some (false, n)
unfolding digits_value clamped
decimal_alone fuel n h p l =
    let (d, s, e, small) = first_digit fuel n h p in
    let text = decimal_from fuel n in
    let split : sign_split (skip_spaces text) ≡ (false, text) =
      subst (λ t. sign_split (skip_spaces t) ≡ (false, t)) (sym e) (digit_end d s small) in
    let in_range : leb n long_max ≡ true = ground arith in
    strtol-clamped text text split
    ∙ ap clamped (
        ap (λ t. digits_value t 0 false) (sym (append-nil text))
        ∙ digits_value-decimal fuel n [] false h p)
    ∙ ap (λ b. some (false, if b then n else long_max)) in_range

-- A number alone.
pub strtol-decimal_alone : (n : ℕ) → n ≤ long_max → strtol (decimal n) ≡ some (false, n)
unfolding decimal
strtol-decimal_alone n h = decimal_alone 20 n (omega (arith, h)) (omega arith) h
