-- ===== src/Listeners/Posting.antt =====
-- Who is sent what, described without arrays.
use os_solutions.Listeners.{msg_length, Sent, send_message, Round}
use os_solutions.Listeners.Removal.{remove_first}
use os_solutions.Prelude.{
  ℕ, zero, suc, ◌+◌, ◌≤◌, ◌≡◌, ◌≢◌, refl, ap, ◌∙◌, Bool, true, false, none, some, List, [], ◌∷◌,
  ◌++◌, ◌==◌, if◌then◌else◌, map, get_or, take, length, Bytes, ok, arith, Bool-cases, inl, inr,
}

-- who is left, where everyone who leaves is there
unfoldable pub leave : List ℕ → List ℕ → Bool × List ℕ
leave [] pids = (true, pids)
leave (pid ∷ ends) pids = elim (remove_first pid pids) [
  | none ↦ (false, pids)
  | some others ↦ leave ends others
]

-- a line without its newline
unfoldable pub chomp : Bytes → Bytes
chomp [] = []
chomp (c ∷ []) = if c == b'\n' then [] else c ∷ []
chomp (c ∷ (d ∷ s)) = c ∷ chomp (d ∷ s)

-- how many of `n` calls from the i-th on succeed before one fails
unfoldable pub successes : (ℕ → Bool) → ℕ → ℕ → ℕ
successes can_send zero i = 0
successes can_send (suc n) i =
    let rest = successes can_send n (i + 1) in if can_send i then suc rest else 0

-- the listeners get the bytes in their order, up to a failure
unfoldable pub deliver : (ℕ → Bool) → List ℕ → Bytes → ℕ → Bool × Sent
deliver can_send pids bytes i =
    let n = successes can_send (length pids) i in
    (n == length pids, map (λ pid. (pid, bytes)) (take n pids))

unfoldable pub post : Bytes → Round → List ℕ → Bool × List ℕ × Sent
post bytes r pids =
    let there = leave r.ends (pids ++ r.regs) in
    let s = deliver r.can_send there.1 bytes 0 in
    if there.0 then (s.0, there.1, s.1) else (false, there.1, [])

-- every line goes to the listeners of its round, and no bytes at the end
unfoldable pub post_all : List Round → Round → List ℕ → Bool × List ℕ × Sent
post_all [] last pids = post [] last pids
post_all (r ∷ rounds) last pids =
    let s = post (chomp r.line ++ 0 ∷ []) r pids in
    let rest = post_all rounds last s.1 in if s.0 then (rest.0, rest.1, s.2 ++ rest.2) else s

suc_same : (a b : ℕ) → (suc a == suc b) ≡ (a == b)
suc_same a b = ground arith

pub send_message-deliver :
    (can_send : ℕ → Bool) (pids : List ℕ) (bytes : Bytes) (i : ℕ)
    → send_message can_send pids bytes i ≡ deliver can_send pids bytes i
unfolding send_message deliver successes
send_message-deliver can_send [] bytes i = refl
send_message-deliver can_send (pid ∷ pids) bytes i = elim (Bool-cases (can_send i)) [
  | inl e ↦
      rw
        (
          e,
          send_message-deliver can_send pids bytes (i + 1),
          suc_same (successes can_send (length pids) (i + 1)) (length pids),
        )
        refl
  | inr e ↦ let z : (0 == suc (length pids)) ≡ false = ground arith in rw (e, z) refl
]

chomp_lem :
    (c : ℕ) (text : Bytes)
    → chomp (c ∷ text) ≡ (
        if get_or (c ∷ text) (length text) 0 == b'\n'
        then take (length text) (c ∷ text)
        else c ∷ text)
unfolding chomp
chomp_lem c [] = refl
chomp_lem c (d ∷ s) = elim (Bool-cases (get_or (d ∷ s) (length s) 0 == b'\n')) [
  | inl e ↦ rw (chomp_lem d s, e) refl
  | inr e ↦ rw (chomp_lem d s, e) refl
]

length-take : (n : ℕ) (s : Bytes) → n ≤ length s → length (take n s) ≡ n
length-take zero s h = refl
length-take (suc n) [] h = absurd (omega arith)
length-take (suc n) (c ∷ s) h = ap suc (length-take n s (omega arith))

pub msg_length-chomp :
    (line : Bytes) → line ≢ [] → msg_length line ≡ ok (chomp line, length (chomp line) + 1)
unfolding msg_length
msg_length-chomp [] h = absurd (h refl)
msg_length-chomp (c ∷ text) h = elim (Bool-cases (get_or (c ∷ text) (length text) 0 == b'\n')) [
  | inl e ↦
      let whole : Bytes = c ∷ text in
      let cut : chomp (c ∷ text) ≡ take (length text) (c ∷ text) =
        chomp_lem c text ∙ ap (λ b. if b then take (length text) whole else whole) e in
      let n : length (take (length text) whole) ≡ length text =
        length-take (length text) whole (omega arith) in
      rw (e, cut, n) refl
  | inr e ↦
      let whole : Bytes = c ∷ text in
      let kept : chomp (c ∷ text) ≡ c ∷ text =
        chomp_lem c text ∙ ap (λ b. if b then take (length text) whole else whole) e in
      let n : length text + 2 ≡ length whole + 1 = omega arith in rw (e, kept, n) refl
]

pub take-all : (s : Bytes) (n : ℕ) → n ≡ length s → take n s ≡ s
take-all [] zero h = refl
take-all [] (suc n) h = absurd (omega (arith, h))
take-all (c ∷ s) zero h = absurd (omega (arith, h))
take-all (c ∷ s) (suc n) h = ap (λ l. c ∷ l) (take-all s n (omega (arith, h)))
