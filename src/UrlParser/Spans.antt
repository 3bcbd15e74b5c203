-- ===== src/UrlParser/Spans.antt =====
-- The scanning loops: what they pass over, and where they stop.
use os_solutions.Prelude.{
  ◌==◌, ℕ, ◌≡◌, refl, ap, ◌∙◌, Bool, true, false, [], ◌∷◌, ◌++◌, Bool-cases, inl, inr, Bytes,
}
use mathlib.Core.List.{append_assoc}
use os_solutions.UrlParser.{
  Parsing, parsed, refused, crash, ◌>>=◌, span_until, split_host, close_bracket, bracket_stop,
  host_stop, no_stop,
}

-- No byte of the text stops the scan.
abbrev pub IsFree : (ℕ → Bool) → Bytes → Type 0
IsFree stop [] = Unit {0}
IsFree stop (c ∷ s) = (stop c ≡ false) × IsFree stop s

-- The text is at its end or begins with a byte that stops the scan.
abbrev pub IsStopped : (ℕ → Bool) → Bytes → Type 0
IsStopped stop [] = Unit {0}
IsStopped stop (c ∷ s) = stop c ≡ true

pub span_until-append :
    (stop : ℕ → Bool) (s : Bytes) → (span_until stop s).0 ++ (span_until stop s).1 ≡ s
unfolding span_until
span_until-append stop [] = refl
span_until-append stop (c ∷ s) = elim (Bool-cases (stop c)) [
  | inl e ↦ rw e
  | inr e ↦ rw e (ap (◌∷◌ c) (span_until-append stop s))
]

pub span_until-IsStopped : (stop : ℕ → Bool) (s : Bytes) → IsStopped stop (span_until stop s).1
unfolding span_until
span_until-IsStopped stop [] = tt
span_until-IsStopped stop (c ∷ s) = elim (Bool-cases (stop c)) [
  | inl e ↦ rw e e
  | inr e ↦ rw e (span_until-IsStopped stop s)
]

pub span_until-no_stop : (s : Bytes) → span_until no_stop s ≡ (s, [])
unfolding span_until
span_until-no_stop [] = refl
span_until-no_stop (c ∷ s) = rw (span_until-no_stop s)

pub span_until-IsFree :
    (stop : ℕ → Bool) (s rest : Bytes)
    → IsFree stop s
    → IsStopped stop rest
    → span_until stop (s ++ rest) ≡ (s, rest)
unfolding span_until
span_until-IsFree stop [] [] f h = refl
span_until-IsFree stop [] (c ∷ rest) f h = rw h
span_until-IsFree stop (c ∷ s) rest f h = rw f.0 (rw (span_until-IsFree stop s rest f.1 h))

pub close_bracket-append :
    (r : Bytes × Bytes) → (close_bracket r).0 ++ (close_bracket r).1 ≡ r.0 ++ r.1
unfolding close_bracket
close_bracket-append (h, []) = refl
close_bracket-append (h, c ∷ s) = append_assoc h (c ∷ []) s

pub split_host-append : (s : Bytes) → (split_host s).0 ++ (split_host s).1 ≡ s
unfolding split_host
split_host-append [] = refl
split_host-append (c ∷ s) = elim (Bool-cases (b'[' == c)) [
  | inl e ↦ rw e (
      close_bracket-append (span_until bracket_stop (c ∷ s))
      ∙ span_until-append bracket_stop (c ∷ s))
  | inr e ↦ rw e (span_until-append host_stop (c ∷ s))
]

pub >>=-eq-parsed {ℓ κ} :
    {A : Type ℓ} {B : Type κ} (m : Parsing A) (f : A → Parsing B) {b : B}
    → (m >>= f) ≡ parsed b
    → (a : A) × (m ≡ parsed a) × (f a ≡ parsed b)
>>=-eq-parsed (parsed a) f h = (a, refl, h)
>>=-eq-parsed refused f h = cc
>>=-eq-parsed crash f h = cc
