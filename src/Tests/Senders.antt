-- ===== src/Tests/Senders.antt =====
-- A master with two senders.
use os_solutions.SenderQueue.{
  Message, System, sends, receives, Reachable, here, then_step, new_system, script, with_todo,
  reg_in_queue, del_from_queue, send_messages, rec_message, generate_message,
}
use os_solutions.SenderQueue.Counting.{from}
use os_solutions.SenderQueue.Scripts.{Cut}
use os_solutions.SenderQueue.Order.{transcript, Reachable-Printed, Reachable-Complete}
use os_solutions.Prelude.{
  ℕ, zero, suc, ◌≡◌, refl, Bool, true, false, ◌⊎◌, List, [], ◌∷◌, ◌++◌, codes, decimal,
}

-- texts of one byte
abbrev rands : ℕ → ℕ → ℕ → ℕ
rands pid i k = 0

generate_message-zero : generate_message (rands 7 0) ≡ codes " "
unfolding generate_message
generate_message-zero = refl

-- the next call of a sender, and the next round of the master, where they can go on
abbrev send_with : System → ℕ → Bool → List Message → System
send_with s pid true (m ∷ rest) = record s {
  todo = with_todo s.todo pid rest;
  queue = s.queue ++ m ∷ [];
}
send_with s pid _ _ = s

abbrev send_step : ℕ → System → System
send_step pid s = send_with s pid s.exists_queue (s.todo pid)

abbrev receive_with : System → Bool → List Message → System
receive_with s true (m ∷ rest) = rec_message m rest s
receive_with s _ _ = s

abbrev receive_step : System → System
receive_step s = receive_with s s.running s.queue

send_step-Reachable : (s₀ s : System) (pid : ℕ) → Reachable s₀ s → Reachable s₀ (send_step pid s)
send_step-Reachable s₀ s pid before = go s.exists_queue (s.todo pid) refl refl
  where
    go :
        (b : Bool) (todo : List Message)
        → s.exists_queue ≡ b
        → s.todo pid ≡ todo
        → Reachable s₀ (send_with s pid b todo)
    go true (m ∷ rest) e f = then_step before (sends s pid m rest e f)
    go true [] e f = before
    go false todo e f = before

receive_step-Reachable : (s₀ s : System) → Reachable s₀ s → Reachable s₀ (receive_step s)
receive_step-Reachable s₀ s before = go s.running s.queue refl refl
  where
    go :
        (b : Bool) (queue : List Message)
        → s.running ≡ b
        → s.queue ≡ queue
        → Reachable s₀ (receive_with s b queue)
    go true (m ∷ rest) e f = then_step before (receives s m rest e f)
    go true [] e f = before
    go false queue e f = before

-- so many messages of the sender 7, each received at once
abbrev turns : ℕ → System → System
turns zero s = s
turns (suc n) s = turns n (receive_step (send_step 7 s))

turns-Reachable : (s₀ s : System) (n : ℕ) → Reachable s₀ s → Reachable s₀ (turns n s)
turns-Reachable s₀ s zero before = before
turns-Reachable s₀ s (suc n) before =
    turns-Reachable s₀ (receive_step (send_step 7 s)) n
      (receive_step-Reachable s₀ (send_step 7 s) (send_step-Reachable s₀ s 7 before))

Reachable-Printed_example :
    ((turns 2 (new_system rands)).printed
      ≡ codes "Queue was created\n" ++ transcript (turns 2 (new_system rands)).received)
    × ((p : ℕ)
        → (rest : List Message) × Cut p
            (rands p)
            (from p (turns 2 (new_system rands)).received ++ rest))
Reachable-Printed_example =
    Reachable-Printed rands (turns 2 (new_system rands))
      (turns-Reachable (new_system rands) (new_system rands) 2 here)

Reachable-Complete_example :
    (from 7 (turns 12 (new_system rands)).received ≡ [])
    ⊎ ((texts : List Message) × (later : List Message) × (texts ++ later
          ≡ send_messages 7 (rands 7))
        × (from 7 (turns 12 (new_system rands)).received
            ≡ reg_in_queue 7 ∷ (texts ++ del_from_queue 7 ∷ []))
        × ((turns 12 (new_system rands)).failed 7 ≡ false
            → from 7 (turns 12 (new_system rands)).received ≡ script 7 (rands 7)))
unfolding rec_message script
Reachable-Complete_example =
    Reachable-Complete rands (turns 12 (new_system rands)) 7
      (turns-Reachable (new_system rands) (new_system rands) 12 here) refl

-- a registration that comes in before the last departure is read stays in the queue
registration-lost :
    ((receive_step (send_step 8 (send_step 7 (turns 11 (new_system rands))))).running ≡ false)
    × ((receive_step (send_step 8 (send_step 7 (turns 11 (new_system rands))))).queue
        ≡ reg_in_queue 8 ∷ [])
unfolding rec_message script
registration-lost = (refl, refl)

transcript-turns :
    (turns 2 (new_system rands)).printed ≡ codes "Queue was created\nNew sender 7\nProcess 7:  \n"
unfolding rec_message script decimal
transcript-turns = refl
