-- ===== src/Broadcast/Tally.antt =====
-- Sums over the consumers, and what holds of each of them.
use os_solutions.Prelude.{
  ℕ, zero, suc, ◌+◌, ◌≤◌, ◌≡◌, sym, some, List, [], ◌∷◌, get_elem?, set, arith,
}

module _ {ℓ} {A : Type ℓ} where
  unfoldable pub tally : (A → ℕ) → List A → ℕ
  tally w [] = 0
  tally w (x ∷ xs) = w x + tally w xs

  pub tally-set :
      (w : A → ℕ) (xs : List A) (i : ℕ) (x y : A)
      → get_elem? xs i ≡ some x
      → tally w (set xs i y) + w x ≡ tally w xs + w y
  unfolding tally
  tally-set w [] i x y h = absurd (ground arith)
  tally-set w (z ∷ xs) zero x y h = let e : z ≡ x = cc in rw e (omega arith)
  tally-set w (z ∷ xs) (suc i) x y h = omega (arith, tally-set w xs i x y h)

  pub tally-ge :
      (w : A → ℕ) (xs : List A) (i : ℕ) (x : A) → get_elem? xs i ≡ some x → w x ≤ tally w xs
  unfolding tally
  tally-ge w [] i x h = absurd (ground arith)
  tally-ge w (z ∷ xs) zero x h = let e : z ≡ x = cc in rw (sym e) (omega arith)
  tally-ge w (z ∷ xs) (suc i) x h = omega (arith, tally-ge w xs i x h)

module _ {ℓ κ} {A : Type ℓ} where
  abbrev pub Each : (A → Type κ) → List A → Type κ
  Each P [] = Unit {κ}
  Each P (x ∷ xs) = P x × Each P xs

  pub Each-at :
      (P : A → Type κ) (xs : List A) (i : ℕ) (x : A) → Each P xs → get_elem? xs i ≡ some x → P x
  Each-at P [] i x h e = absurd (ground arith)
  Each-at P (z ∷ xs) zero x h e = let q : z ≡ x = cc in rw (sym q) h.0
  Each-at P (z ∷ xs) (suc i) x h e = Each-at P xs i x h.1 e

  pub Each-set :
      (P : A → Type κ) (xs : List A) (i : ℕ) (y : A) → Each P xs → P y → Each P (set xs i y)
  Each-set P [] i y h p = tt
  Each-set P (z ∷ xs) zero y h p = (p, h.1)
  Each-set P (z ∷ xs) (suc i) y h p = (h.0, Each-set P xs i y h.1 p)
