-- ===== src/SenderQueue/Counting.antt =====
-- Registrations and departures in a list of messages, by their senders.
use os_solutions.SenderQueue.{Message, msg_type_reg, msg_type_del}
use os_solutions.Prelude.{
  ℕ, zero, suc, ◌+◌, ◌≤◌, ◌≡◌, refl, ap, ◌∙◌, true, false, List, [], ◌∷◌, ◌++◌, ◌==◌, if◌then◌else◌,
  length, arith, Bool-cases, inl, inr, ==_iff,
}

-- how many messages are of a type
unfoldable pub of_type : ℕ → List Message → ℕ
of_type t [] = 0
of_type t (m ∷ ms) = if m.mtype == t then suc (of_type t ms) else of_type t ms

-- the messages of one sender, and those of the others
unfoldable pub from : ℕ → List Message → List Message
from p [] = []
from p (m ∷ ms) = if m.pid == p then m ∷ from p ms else from p ms

unfoldable pub others : ℕ → List Message → List Message
others p [] = []
others p (m ∷ ms) = if m.pid == p then others p ms else m ∷ others p ms

pub of_type-append :
    (t : ℕ) (ms ns : List Message) → of_type t (ms ++ ns) ≡ of_type t ms + of_type t ns
unfolding of_type
of_type-append t [] ns = ground arith
of_type-append t (m ∷ ms) ns = ground (arith, of_type-append t ms ns)

pub from-append : (p : ℕ) (ms ns : List Message) → from p (ms ++ ns) ≡ from p ms ++ from p ns
unfolding from
from-append p [] ns = refl
from-append p (m ∷ ms) ns = ground (arith, from-append p ms ns)

pub of_type-split :
    (t p : ℕ) (ms : List Message) → of_type t ms ≡ of_type t (from p ms) + of_type t (others p ms)
unfolding of_type from others
of_type-split t p [] = ground arith
of_type-split t p (m ∷ ms) = ground (arith, of_type-split t p ms)

from-others_self : (p : ℕ) (ms : List Message) → from p (others p ms) ≡ []
unfolding from others
from-others_self p [] = refl
from-others_self p (m ∷ ms) = elim (Bool-cases (m.pid == p)) [
  | inl e ↦ rw e (from-others_self p ms)
  | inr e ↦ rw (e, from) (rw e (from-others_self p ms))
]

from-others : (p q : ℕ) (ms : List Message) → (q == p) ≡ false → from q (others p ms) ≡ from q ms
unfolding from others
from-others p q [] h = refl
from-others p q (m ∷ ms) h = elim (Bool-cases (m.pid == p)) [
  | inl e ↦ let other : (m.pid == q) ≡ false = ground arith in rw (e, other) (from-others p q ms h)
  | inr e ↦ rw (e, from) (rw (from-others p q ms h) refl)
]

length-others : (p : ℕ) (ms : List Message) → length (others p ms) ≤ length ms
unfolding others
length-others p [] = omega arith
length-others p (m ∷ ms) = ground (arith, length-others p ms)

-- No sender has left more often than it came.
abbrev pub Fair : List Message → Type 0
Fair ms = (p : ℕ) → of_type msg_type_del (from p ms) ≤ of_type msg_type_reg (from p ms)

pub others-Fair : (p : ℕ) (ms : List Message) → Fair ms → Fair (others p ms)
unfolding of_type
others-Fair p ms fair q = elim (Bool-cases (q == p)) [
  | inl e ↦
      let same : from q (others p ms) ≡ [] =
        ap (λ r. from r (others p ms)) ((==_iff q p).0 e) ∙ from-others_self p ms in
      rw same (omega arith)
  | inr e ↦ rw (from-others p q ms e) (fair q)
]

shorter : (m : Message) (ms : List Message) → length (others m.pid (m ∷ ms)) ≤ length ms
unfolding others
shorter m ms =
    let same : (m.pid == m.pid) ≡ true = (==_iff m.pid m.pid).1 refl in
    rw same (length-others m.pid ms)

total_fuel :
    (n : ℕ) (ms : List Message)
    → length ms ≤ n
    → Fair ms
    → of_type msg_type_del ms ≤ of_type msg_type_reg ms
unfolding of_type
total_fuel n [] h fair = omega arith
total_fuel zero (m ∷ ms) h fair = absurd (omega arith)
total_fuel (suc n) (m ∷ ms) h fair =
    let rest =
      total_fuel n (others m.pid (m ∷ ms)) (omega (arith, h, shorter m ms))
        (others-Fair m.pid (m ∷ ms) fair) in
    omega (
      arith,
      rest,
      fair m.pid,
      of_type-split msg_type_del m.pid (m ∷ ms),
      of_type-split msg_type_reg m.pid (m ∷ ms),
    )

pub total : (ms : List Message) → Fair ms → of_type msg_type_del ms ≤ of_type msg_type_reg ms
total ms fair = total_fuel (length ms) ms (omega arith) fair

-- Where as many have left as have come, each sender that came has left.
pub balanced :
    (ms : List Message) (p : ℕ)
    → Fair ms
    → of_type msg_type_del ms ≡ of_type msg_type_reg ms
    → of_type msg_type_del (from p ms) ≡ of_type msg_type_reg (from p ms)
balanced ms p fair e = omega (
  arith,
  e,
  fair p,
  total (others p ms) (others-Fair p ms fair),
  of_type-split msg_type_del p ms,
  of_type-split msg_type_reg p ms,
)
