-- ===== src/Tests/Mailing.antt =====
-- A run of the sender.
use os_solutions.Listeners.{Array, new_array, push_back, wait_answers, Round, send_messages}
use os_solutions.Prelude.{ℕ, ◌≡◌, refl, Bool, true, [], ◌∷◌, ◌++◌, codes, ok, fault}

-- a heap that always has memory, and an array with room for four
abbrev heap : ℕ → Bool
heap n = true

abbrev four : Array
four = record { items = []; size = 4; space = 16 }

abbrev first : Round
first = record { line = codes "hi\n"; regs = 7 ∷ (8 ∷ []); ends = []; can_send = λ i. true }

abbrev last : Round
last = record { line = []; regs = 9 ∷ []; ends = 7 ∷ []; can_send = λ i. true }

send_messages-run :
    send_messages heap (first ∷ []) last four
    ≡ ok (
      true,
      record { items = 8 ∷ (9 ∷ []); size = 4; space = 16 },
      (7, codes "hi" ++ 0 ∷ []) ∷ ((8, codes "hi" ++ 0 ∷ []) ∷ ((8, []) ∷ ((9, []) ∷ []))),
    )
unfolding send_messages
send_messages-run = refl

-- the program's own array is empty at first
send_messages-overflow : send_messages heap (first ∷ []) last new_array ≡ fault
unfolding send_messages
send_messages-overflow = refl

push_back-overflow : push_back heap new_array 7 ≡ fault
unfolding push_back
push_back-overflow = refl

wait_answers-run :
    wait_answers (9 ∷ (8 ∷ [])) (record { items = 8 ∷ (9 ∷ []); size = 4; space = 16 })
    ≡ (true, record { items = []; size = 4; space = 16 })
unfolding wait_answers
wait_answers-run = refl
