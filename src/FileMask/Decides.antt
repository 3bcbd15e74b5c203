-- ===== src/FileMask/Decides.antt =====
-- The loop of `pattern_match` against the plain reading of the mask.
use os_solutions.FileMask.Matching.{
  Head, ends, question, asterisk, letter, head_of, Back, Round, try_again, match_byte, match_loop,
  pattern_match,
}
use os_solutions.FileMask.Tokens.{
  Token, any, star, byte, star-drop, tokens, fits, tokens_of, rest_length, tokens-head_of,
  rest_length-le, star-all, Trail, start, took_any, took_byte, Trail-fits, Trail-star, Trail-stop,
  Trail-length,
}
use mathlib.Core.Path.{subst}
use os_solutions.Prelude.{
  ℕ, zero, suc, ◌+◌, ◌*◌, ◌≤◌, ◌<◌, ◌≡◌, refl, sym, ap, ◌∙◌, Bool, true, false, ◌&&◌, ◌||◌, none,
  some, List, [], ◌∷◌, ◌==◌, length, Bytes, ok, arith, Bool-cases, inl, inr,
}

-- What is known in a round, `answer` being what the call has to return: the rest of the pattern
-- decides it, or the pattern from the last star on does.
abbrev Saved : Bool → List Token → Bytes → Back → Type 0
Saved answer p s none = answer ≡ fits p s
Saved answer p s (some (mask, s₀)) =
    (answer ≡ fits (star ∷ tokens mask) s₀) × Trail (tokens mask) s₀ p s

Saved-any :
    (answer : Bool) (p : List Token) (c : ℕ) (s : Bytes) (back : Back)
    → Saved answer (any ∷ p) (c ∷ s) back
    → Saved answer p s back
unfolding fits
Saved-any answer p c s none h = h
Saved-any answer p c s (some (mask, s₀)) h = (h.0, took_any c h.1)

Saved-byte :
    (answer : Bool) (p : List Token) (c d : ℕ) (s : Bytes) (back : Back)
    → (c == d) ≡ true
    → Saved answer (byte d ∷ p) (c ∷ s) back
    → Saved answer p s back
unfolding fits
Saved-byte answer p c d s none e h = h ∙ ap (λ b. b && fits p s) e
Saved-byte answer p c d s (some (mask, s₀)) e h = (h.0, took_byte c d e h.1)

Saved-star :
    (answer : Bool) (p : List Token) (s : Bytes) (back : Back)
    → Saved answer (star ∷ p) s back
    → answer ≡ fits (star ∷ p) s
Saved-star answer p s none h = h
Saved-star answer p s (some (mask, s₀)) h = h.0 ∙ Trail-star h.1

Saved-stop :
    (answer : Bool) (p : List Token) (back : Back)
    → fits p [] ≡ false
    → Saved answer p [] back
    → answer ≡ false
Saved-stop answer p none e h = h ∙ e
Saved-stop answer p (some (mask, s₀)) e h = h.0 ∙ Trail-stop h.1 e

Saved-done : (answer : Bool) (back : Back) → Saved answer [] [] back → answer ≡ true
unfolding fits
Saved-done answer none h = h
Saved-done answer (some (mask, s₀)) h = h.0 ∙ star-drop (tokens mask) s₀ 0 (Trail-fits h.1)

-- How far a run can still go: `k` is above the length of every mask in play, `m` bounds the bytes
-- from the last star on.
abbrev Bounds : ℕ → ℕ → ℕ → Bytes → Bytes → Back → Type 0
Bounds k m fuel mask s none = (length mask < k) × (length s ≤ m) × (m * k + length mask < fuel)
Bounds k m fuel mask s (some (mask₀, s₀)) =
    (length mask < k)
    × (length mask₀ < k)
    × (length s ≤ m)
    × (length s₀ ≤ m)
    × (m * k + length mask < fuel)

Bounds-shrink :
    (k m fuel : ℕ) (mask mask' s s' : Bytes) (back : Back)
    → length mask' < length mask
    → length s' ≤ length s
    → Bounds k m (suc fuel) mask s back
    → Bounds k m fuel mask' s' back
Bounds-shrink k m fuel mask mask' s s' none h h' b = omega arith
Bounds-shrink k m fuel mask mask' s s' (some (mask₀, s₀)) h h' b = omega arith

Bounds-star :
    (k m fuel : ℕ) (mask mask' s : Bytes) (back : Back)
    → length mask' < length mask
    → Bounds k m (suc fuel) mask s back
    → Bounds k m fuel mask' s (some (mask', s))
Bounds-star k m fuel mask mask' s none h b = omega arith
Bounds-star k m fuel mask mask' s (some (mask₀, s₀)) h b = omega arith

-- A retry costs a byte of the string, which pays for reading the mask again.
Bounds-again :
    (k m fuel c x : ℕ) (mask mask₀ s s₀ : Bytes)
    → Bounds k (suc m) (suc fuel) mask (c ∷ s) (some (mask₀, x ∷ s₀))
    → Bounds k m fuel mask₀ s₀ (some (mask₀, s₀))
Bounds-again k m fuel c x mask mask₀ s s₀ b = grind arith

module _ (answer : Bool) (k fuel : ℕ) (next : Round)
    (later : (m : ℕ) (mask s : Bytes) (back : Back)
      → Saved answer (tokens mask) s back
      → Bounds k m fuel mask s back
      → next mask s back ≡ ok answer) where
  try_again_lem :
      (m c : ℕ) (p : List Token) (mask s : Bytes) (back : Back)
      → fits p (c ∷ s) ≡ false
      → Saved answer p (c ∷ s) back
      → Bounds k m (suc fuel) mask (c ∷ s) back
      → try_again back next ≡ ok answer
  unfolding try_again fits
  try_again_lem m c p mask s none e h b = ap ok (sym (h ∙ e))
  try_again_lem m c p mask s (some (mask₀, [])) e h b = absurd (omega (arith, Trail-length h.1))
  try_again_lem zero c p mask s (some (mask₀, x ∷ s₀)) e h b = absurd (omega arith)
  try_again_lem (suc m) c p mask s (some (mask₀, x ∷ s₀)) e h b =
      let failed = Trail-fits h.1 ∙ e in
      later m mask₀ s₀ (some (mask₀, s₀))
        (h.0 ∙ ap (λ b'. b' || fits (star ∷ tokens mask₀) s₀) failed, start)
        (Bounds-again k m fuel c x mask mask₀ s s₀ b)

  match_byte_lem :
      (m : ℕ) (head : Head) (mask s : Bytes) (back : Back)
      → rest_length head ≤ length mask
      → Saved answer (tokens_of head) s back
      → Bounds k m (suc fuel) mask s back
      → match_byte head s back next ≡ ok answer
  unfolding match_byte fits tokens
  match_byte_lem m ends mask [] back l h b = ap ok (sym (Saved-done answer back h))
  match_byte_lem m ends mask (c ∷ s) back l h b = try_again_lem m c [] mask s back refl h b
  match_byte_lem m (question mask') mask [] back l h b =
      ap ok (sym (Saved-stop answer (any ∷ tokens mask') back refl h))
  match_byte_lem m (question mask') mask (c ∷ s) back l h b =
      later m mask' s back (Saved-any answer (tokens mask') c s back h)
        (Bounds-shrink k m fuel mask mask' (c ∷ s) s back (omega arith) (omega arith) b)
  match_byte_lem m (asterisk []) mask s back l h b =
      ap ok (sym (Saved-star answer [] s back h ∙ star-all s))
  match_byte_lem m (asterisk (d ∷ mask')) mask s back l h b =
      later m (d ∷ mask') s (some (d ∷ mask', s))
        (Saved-star answer (tokens (d ∷ mask')) s back h, start)
        (Bounds-star k m fuel mask (d ∷ mask') s back (omega arith) b)
  match_byte_lem m (letter d mask') mask [] back l h b =
      ap ok (sym (Saved-stop answer (byte d ∷ tokens mask') back refl h))
  match_byte_lem m (letter d mask') mask (c ∷ s) back l h b = elim (Bool-cases (c == d)) [
    | inl e ↦ rw e (
        later m mask' s back (Saved-byte answer (tokens mask') c d s back e h)
          (Bounds-shrink k m fuel mask mask' (c ∷ s) s back (omega arith) (omega arith) b))
    | inr e ↦ rw e (
        try_again_lem m c (byte d ∷ tokens mask') mask s back
          (ap (λ b'. b' && fits (tokens mask') s) e) h b)
  ]

match_loop_lem :
    (answer : Bool) (k fuel m : ℕ) (mask s : Bytes) (back : Back)
    → Saved answer (tokens mask) s back
    → Bounds k m fuel mask s back
    → match_loop fuel mask s back ≡ ok answer
unfolding match_loop
match_loop_lem answer k zero m mask s none h b = absurd (omega arith)
match_loop_lem answer k zero m mask s (some (mask₀, s₀)) h b = absurd (omega arith)
match_loop_lem answer k (suc fuel) m mask s back h b =
    match_byte_lem answer k fuel (λ mask' s' b'. match_loop fuel mask' s' b')
      (λ m' mask' s' b' h' bounds. match_loop_lem answer k fuel m' mask' s' b' h' bounds) m
      (head_of mask) mask s back (rest_length-le mask)
      (subst (λ p. Saved answer p s back) (tokens-head_of mask) h) b

-- Matching a name with one point to return to decides whether the name fits the mask, read as
-- '?' for any byte, '*' for any bytes, '/' for nothing but that the byte behind it stands for
-- itself, and other bytes for themselves: with fuel for more rounds than the product of the
-- lengths, `pattern_match` returns, and its answer is that of the definition by all splits.
pub pattern_match-fits :
    (fuel : ℕ) (mask str : Bytes)
    → length str * suc (length mask) + length mask < fuel
    → pattern_match fuel mask str ≡ ok (fits (tokens mask) str)
unfolding pattern_match
pattern_match-fits fuel mask str h =
    match_loop_lem (fits (tokens mask) str) (suc (length mask)) fuel (length str) mask str none refl
      (omega arith, omega arith, h)
