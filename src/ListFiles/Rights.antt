-- ===== src/ListFiles/Rights.antt =====
-- The nine characters of the rights, read back.
use os_solutions.ListFiles.{Stat, symbol, rights_str, print_rights}
use os_solutions.Prelude.{
  ℕ, zero, suc, ◌+◌, ◌-◌, ◌*◌, ◌/◌, ◌%◌, ◌^◌, ◌≤◌, ◌<◌, ◌≡◌, refl, ap, true, false, Option, none,
  some, [], ◌∷◌, ◌==◌, if◌then◌else◌, Bytes, codes, length, arith, Bool-cases, Option-cases, inl,
  inr, ==_iff, ◌∙◌, sym,
}

-- The number of `n` rights in their order, none where a place has another character than its own.
unfoldable read_rights : ℕ → Bytes → Option ℕ
read_rights zero [] = some 0
read_rights zero (c ∷ s) = none
read_rights (suc n) [] = none
read_rights (suc n) (c ∷ s) =
    let rest = read_rights n s in
    elim rest [
      | none ↦ none
      | some v ↦
          if c == symbol (8 - n) then some (2 ^ n + v) else if c == b'-' then some v else none
    ]

-- one more bit
mod_step : (n m : ℕ) → n < 9 → m % 2 ^ suc n ≡ m / 2 ^ n % 2 * 2 ^ n + m % 2 ^ n
mod_step zero m h = omega arith
mod_step (suc zero) m h = omega arith
mod_step (suc (suc zero)) m h = omega arith
mod_step (suc (suc (suc zero))) m h = omega arith
mod_step (suc (suc (suc (suc zero)))) m h = omega arith
mod_step (suc (suc (suc (suc (suc zero))))) m h = omega arith
mod_step (suc (suc (suc (suc (suc (suc zero)))))) m h = omega arith
mod_step (suc (suc (suc (suc (suc (suc (suc zero))))))) m h = omega arith
mod_step (suc (suc (suc (suc (suc (suc (suc (suc zero)))))))) m h = omega arith
mod_step (suc (suc (suc (suc (suc (suc (suc (suc (suc n))))))))) m h = absurd (omega arith)

symbol-ne : (i : ℕ) → (b'-' == symbol i) ≡ false
symbol-ne i = ground arith

-- a place with its own character
read_rights_set :
    (n v : ℕ) (s : Bytes)
    → read_rights n s ≡ some v
    → read_rights (suc n) (symbol (8 - n) ∷ s) ≡ some (2 ^ n + v)
unfolding read_rights
read_rights_set n v s read =
    let same : (symbol (8 - n) == symbol (8 - n)) ≡ true =
      (==_iff (symbol (8 - n)) (symbol (8 - n))).1 refl in
    rw (read, same) refl

read_rights_clear :
    (n v : ℕ) (s : Bytes) → read_rights n s ≡ some v → read_rights (suc n) (b'-' ∷ s) ≡ some v
unfolding read_rights
read_rights_clear n v s read = rw (read, symbol-ne (8 - n)) refl

rights_str_set :
    (n m : ℕ) → (m / 2 ^ n % 2 == 1) ≡ true → rights_str (suc n) m ≡ symbol (8 - n) ∷ rights_str n m
unfolding rights_str
rights_str_set n m e = ap (λ b. (if b then symbol (8 - n) else b'-') ∷ rights_str n m) e

rights_str_clear :
    (n m : ℕ) → (m / 2 ^ n % 2 == 1) ≡ false → rights_str (suc n) m ≡ b'-' ∷ rights_str n m
unfolding rights_str
rights_str_clear n m e = ap (λ b. (if b then symbol (8 - n) else b'-') ∷ rights_str n m) e

bit_one : (b p r : ℕ) → b ≡ 1 → b * p + r ≡ p + r
bit_one b p r e = ap (λ b. b * p + r) e ∙ one p r
  where
    one : (p r : ℕ) → 1 * p + r ≡ p + r
    one p r = omega arith

bit_zero : (b p r : ℕ) → b ≡ 0 → b * p + r ≡ r
bit_zero b p r e = ap (λ b. b * p + r) e ∙ nothing p r
  where
    nothing : (p r : ℕ) → 0 * p + r ≡ r
    nothing p r = omega arith

bit_clear : (m : ℕ) → (m % 2 == 1) ≡ false → m % 2 ≡ 0
bit_clear m e = grind arith

read_rights-rights_str : (n m : ℕ) → n ≤ 9 → read_rights n (rights_str n m) ≡ some (m % 2 ^ n)
unfolding read_rights rights_str
read_rights-rights_str zero m h = ap some (omega arith)
read_rights-rights_str (suc n) m h = elim (Bool-cases (m / 2 ^ n % 2 == 1)) [
  | inl e ↦
      let low : read_rights n (rights_str n m) ≡ some (m % 2 ^ n) =
        read_rights-rights_str n m (omega arith) in
      let value : m % 2 ^ suc n ≡ 2 ^ n + m % 2 ^ n =
        mod_step n m h
        ∙ bit_one (m / 2 ^ n % 2) (2 ^ n) (m % 2 ^ n) ((==_iff (m / 2 ^ n % 2) 1).0 e) in
      ap (read_rights (suc n)) (rights_str_set n m e)
      ∙ read_rights_set n (m % 2 ^ n) (rights_str n m) low
      ∙ ap some (sym value)
  | inr e ↦
      let low : read_rights n (rights_str n m) ≡ some (m % 2 ^ n) =
        read_rights-rights_str n m (omega arith) in
      let value : m % 2 ^ suc n ≡ m % 2 ^ n =
        mod_step n m h ∙ bit_zero (m / 2 ^ n % 2) (2 ^ n) (m % 2 ^ n) (bit_clear (m / 2 ^ n) e) in
      ap (read_rights (suc n)) (rights_str_clear n m e)
      ∙ read_rights_clear n (m % 2 ^ n) (rights_str n m) low
      ∙ ap some (sym value)
]

-- The number that a text says of rights with these letters: a letter in its place is a bit that is
-- set, a dash one that is not; none for any other text.
unfoldable pub rights_value : Bytes → Bytes → Option ℕ
rights_value [] [] = some 0
rights_value [] (c ∷ s) = none
rights_value (l ∷ letters) [] = none
rights_value (l ∷ letters) (c ∷ s) =
    let rest = rights_value letters s in
    elim rest [
      | none ↦ none
      | some v ↦
          if c == l then some (2 ^ length letters + v) else if c == b'-' then some v else none
    ]

symbols : ℕ → Bytes
symbols zero = []
symbols (suc n) = symbol (8 - n) ∷ symbols n

length-symbols : (n : ℕ) → length (symbols n) ≡ n
unfolding symbols
length-symbols zero = refl
length-symbols (suc n) = omega (arith, length-symbols n)

rights_value-symbols : (n : ℕ) (s : Bytes) → rights_value (symbols n) s ≡ read_rights n s
unfolding rights_value symbols read_rights
rights_value-symbols zero [] = refl
rights_value-symbols zero (c ∷ s) = refl
rights_value-symbols (suc n) [] = refl
rights_value-symbols (suc n) (c ∷ s) =
    rw (rights_value-symbols n s) (elim (Option-cases (read_rights n s)) [
      | inl x ↦ rw x refl
      | inr (v, x) ↦ rw x (
          ap
            (λ k.
              if c == symbol (8 - n) then some (2 ^ k + v) else if c == b'-' then some v else none)
            (length-symbols n))
    ])

letters : symbols 9 ≡ codes "rwxrwxrwx"
unfolding symbols
letters = refl

-- The nine characters that are printed for the rights of a file, each read as a one if it is the
-- letter of its place in "rwxrwxrwx", are the low nine bits of its mode.
pub rights_value-print_rights :
    (sb : Stat) → rights_value (codes "rwxrwxrwx") (print_rights sb) ≡ some (sb.st_mode % 512)
unfolding print_rights
rights_value-print_rights sb =
    ap (λ l. rights_value l (rights_str 9 sb.st_mode)) (sym letters)
    ∙ rights_value-symbols 9 (rights_str 9 sb.st_mode)
    ∙ read_rights-rights_str 9 sb.st_mode (omega arith)
