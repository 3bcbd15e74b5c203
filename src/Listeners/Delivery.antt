-- ===== src/Listeners/Delivery.antt =====
-- Who is sent what, in a run of `sendMessages`.
use os_solutions.Listeners.{Array, Sent, Round}
use os_solutions.Listeners.Registration.{Fits}
use os_solutions.Prelude.{ℕ, ◌+◌, ◌≡◌, ◌≢◌, Bool, List, [], ◌∷◌, length}

-- the result, the listeners and what was sent are as described
abbrev pub Posts : ℕ → Bool × List ℕ × Sent → Bool × Array × Sent → Type 0
Posts size s q = (q.0 ≡ s.0) × (q.1.items ≡ s.1) × (q.2 ≡ s.2) × (q.1.size ≡ size) × Fits q.1

-- all registrations of a run
abbrev pub registrations : List Round → Round → ℕ
registrations [] last = length last.regs
registrations (r ∷ rounds) last = length r.regs + registrations rounds last

-- no line is empty: each has its newline, or is the last and has a byte
abbrev pub EachLine : List Round → Type 0
EachLine [] = Unit {0}
EachLine (r ∷ rounds) = (r.line ≢ []) × EachLine rounds
