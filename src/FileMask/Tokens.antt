-- ===== src/FileMask/Tokens.antt =====
-- What a mask says, and the names that fit it.
use os_solutions.FileMask.Matching.{Head, ends, question, asterisk, letter, head_of}
use os_solutions.Prelude.{
  ℕ, zero, suc, ◌+◌, ◌≤◌, ◌≡◌, inl, inr, refl, sym, ap, ◌∙◌, Bool, true, false, ◌&&◌, ◌||◌, List,
  [], ◌∷◌, ◌==◌, if◌then◌else◌, length, drop, Bytes, arith, Bool-cases,
}

pub data Token : Type 0 where
  any star : Token
  byte : ℕ → Token

-- A '/' makes the next byte an ordinary one; a '/' at the end says nothing.
unfoldable pub tokens : Bytes → List Token
tokens [] = []
tokens (d ∷ []) =
    if d == b'?'
    then any ∷ []
    else if d == b'*'
    then star ∷ []
    else if d == b'/'
    then []
    else byte d ∷ []
tokens (d ∷ (e ∷ mask)) =
    let rest = tokens (e ∷ mask) in
    let after = tokens mask in
    if d == b'?'
    then any ∷ rest
    else if d == b'*'
    then star ∷ rest
    else if d == b'/'
    then byte e ∷ after
    else byte d ∷ rest

-- '?' is any byte, '*' any bytes.
unfoldable pub fits : List Token → Bytes → Bool
fits [] [] = true
fits [] (c ∷ s) = false
fits (any ∷ p) [] = false
fits (any ∷ p) (c ∷ s) = fits p s
fits (byte d ∷ p) [] = false
fits (byte d ∷ p) (c ∷ s) = c == d && fits p s
fits (star ∷ p) [] = fits p []
fits (star ∷ p) (c ∷ s) = fits p (c ∷ s) || fits (star ∷ p) s

abbrev pub tokens_of : Head → List Token
tokens_of ends = []
tokens_of (question mask) = any ∷ tokens mask
tokens_of (asterisk mask) = star ∷ tokens mask
tokens_of (letter d mask) = byte d ∷ tokens mask

-- the mask behind the head
abbrev pub rest_length : Head → ℕ
rest_length ends = 0
rest_length (question mask) = length mask + 1
rest_length (asterisk mask) = length mask + 1
rest_length (letter d mask) = length mask + 1

pub tokens-head_of : (mask : Bytes) → tokens mask ≡ tokens_of (head_of mask)
unfolding tokens head_of
tokens-head_of [] = refl
tokens-head_of (d ∷ []) = ground arith
tokens-head_of (d ∷ (e ∷ mask)) = ground arith

pub rest_length-le : (mask : Bytes) → rest_length (head_of mask) ≤ length mask
unfolding head_of
rest_length-le [] = omega arith
rest_length-le (d ∷ []) = ground arith
rest_length-le (d ∷ (e ∷ mask)) = ground arith

Bool-eq : (a b : Bool) → (a ≡ true → b ≡ true) → (b ≡ true → a ≡ true) → a ≡ b
Bool-eq true b f g = sym (f refl)
Bool-eq false true f g = g refl
Bool-eq false false f g = refl

drop-nil : {A : Type 0} (k : ℕ) → drop {A = A} k [] ≡ []
drop-nil zero = refl
drop-nil (suc k) = refl

-- A star takes any number of bytes.
pub star-drop :
    (p : List Token) (s : Bytes) (k : ℕ) → fits p (drop k s) ≡ true → fits (star ∷ p) s ≡ true
unfolding fits
star-drop p [] zero h = h
star-drop p [] (suc k) h = h
star-drop p (c ∷ s) zero h = ground arith
star-drop p (c ∷ s) (suc k) h = ground (arith, star-drop p s k)

drop-star :
    (p : List Token) (s : Bytes) → fits (star ∷ p) s ≡ true → (k : ℕ) × (fits p (drop k s) ≡ true)
unfolding fits
drop-star p [] h = (0, h)
drop-star p (c ∷ s) h = elim (Bool-cases (fits p (c ∷ s))) [
  | inl e ↦ (0, e)
  | inr e ↦ let (k, f) = drop-star p s (rw e at h) in (suc k, f)
]

pub star-all : (s : Bytes) → fits (star ∷ []) s ≡ true
unfolding fits
star-all [] = refl
star-all (c ∷ s) = ground (arith, star-all s)

star-later :
    (p : List Token) (s : Bytes) (k : ℕ)
    → fits (star ∷ p) (drop k s) ≡ true
    → fits (star ∷ p) s ≡ true
unfolding fits
star-later p s zero h = h
star-later p [] (suc k) h = h
star-later p (c ∷ s) (suc k) h = ground (arith, star-later p s k)

-- A single token takes one byte, wherever it starts.
any-drop :
    (p : List Token) (c : ℕ) (s : Bytes) (k : ℕ)
    → fits (any ∷ p) (drop k (c ∷ s)) ≡ true
    → fits p (drop k s) ≡ true
unfolding fits
any-drop p c s zero h = h
any-drop p c [] (suc k) h = let e : fits (any ∷ p) [] ≡ true = rw (drop-nil {A = ℕ} k) at h in cc
any-drop p c (b ∷ s) (suc k) h = any-drop p b s k h

byte-drop :
    (d : ℕ) (p : List Token) (c : ℕ) (s : Bytes) (k : ℕ)
    → fits (byte d ∷ p) (drop k (c ∷ s)) ≡ true
    → fits p (drop k s) ≡ true
unfolding fits
byte-drop d p c s zero h = ground arith
byte-drop d p c [] (suc k) h =
    let e : fits (byte d ∷ p) [] ≡ true = rw (drop-nil {A = ℕ} k) at h in cc
byte-drop d p c (b ∷ s) (suc k) h = byte-drop d p b s k h

-- The single tokens between two places of a pattern, each with the byte that it took.
pub data Trail (p₀ : List Token) (s₀ : Bytes) : List Token → Bytes → Type 0 where
  start : Trail p₀ s₀ p₀ s₀
  took_any : {p : List Token} {s : Bytes} (c : ℕ) → Trail p₀ s₀ (any ∷ p) (c ∷ s) → Trail p₀ s₀ p s
  took_byte :
      {p : List Token} {s : Bytes} (c d : ℕ)
      → (c == d) ≡ true
      → Trail p₀ s₀ (byte d ∷ p) (c ∷ s)
      → Trail p₀ s₀ p s

module _ {p₀ : List Token} {s₀ : Bytes} where
  pub Trail-fits : {p : List Token} {s : Bytes} → Trail p₀ s₀ p s → fits p₀ s₀ ≡ fits p s
  unfolding fits
  Trail-fits start = refl
  Trail-fits (took_any c t) = Trail-fits t
  Trail-fits (took_byte {p} {s} c d e t) = Trail-fits t ∙ ap (λ b. b && fits p s) e

  pub Trail-drop :
      {p : List Token} {s : Bytes}
      → Trail p₀ s₀ p s
      → (k : ℕ) → fits p₀ (drop k s₀) ≡ true
      → fits p (drop k s) ≡ true
  Trail-drop start k h = h
  Trail-drop (took_any {p} {s} c t) k h = any-drop p c s k (Trail-drop t k h)
  Trail-drop (took_byte {p} {s} c d e t) k h = byte-drop d p c s k (Trail-drop t k h)

  pub Trail-length : {p : List Token} {s : Bytes} → Trail p₀ s₀ p s → length s ≤ length s₀
  Trail-length start = omega arith
  Trail-length (took_any c t) = omega (arith, Trail-length t)
  Trail-length (took_byte c d e t) = omega (arith, Trail-length t)

  -- A star behind single tokens takes over from a star before them.
  pub Trail-star :
      {p : List Token} {s : Bytes}
      → Trail p₀ s₀ (star ∷ p) s
      → fits (star ∷ p₀) s₀ ≡ fits (star ∷ p) s
  Trail-star {p} {s} t =
      Bool-eq _ _ (λ h. let (k, f) = drop-star p₀ s₀ h in star-later p s k (Trail-drop t k f))
        (λ h. star-drop p₀ s₀ 0 (Trail-fits t ∙ h))

  -- With no bytes left, what does not fit now fits no later.
  pub Trail-stop :
      {p : List Token} → Trail p₀ s₀ p [] → fits p [] ≡ false → fits (star ∷ p₀) s₀ ≡ false
  Trail-stop {p} t h = elim (Bool-cases (fits (star ∷ p₀) s₀)) [
    | inl e ↦
        let (k, f) = drop-star p₀ s₀ e in
        let g : fits p [] ≡ true = ap (fits p) (sym (drop-nil {A = ℕ} k)) ∙ Trail-drop t k f in cc
    | inr e ↦ e
  ]
