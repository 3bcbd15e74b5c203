-- ===== src/SenderQueue.antt =====
-- 32/master.c and 32/send.c: senders that put texts into a queue, and a master that prints them.
--
-- A step is one call of `msgsnd`, `msgrcv` or the removal of the queue. The queue is first in, first
-- out; a call of `msgsnd` may fail at any time, and fails when the queue is removed, and the
-- master's calls do not fail. Any process may be a sender, under its number, once. `received`
-- records messages and `failed` the senders with a failed call, for the theorems; they steer no
-- step. The count of the master is an `int`; where the source makes it negative it stays 0 here,
-- which ends the loop alike.
pub mod Counting
pub mod Scripts
pub mod Order
use os_solutions.Prelude.{
  ℕ, zero, suc, ◌+◌, ◌-◌, ◌%◌, ◌≡◌, Bool, true, false, List, [], ◌∷◌, ◌++◌, ◌==◌, ltb,
  if◌then◌else◌, Bytes, codes, decimal,
}

-- MSG_TYPE_REG, MSG_TYPE_DEL, MSG_TYPE_DATA
abbrev pub msg_type_reg : ℕ
msg_type_reg = 1

abbrev pub msg_type_del : ℕ
msg_type_del = 2

abbrev pub msg_type_data : ℕ
msg_type_data = 3

-- SIZE_MSG and COUNT_MESSAGES
abbrev pub size_msg : ℕ
size_msg = 100

abbrev pub count_messages : ℕ
count_messages = 10

pub record Message : Type 0 where
  pub mtype : ℕ
  pub pid : ℕ
  pub mtext : Bytes

-- the loop of `generateMessage`; `rand i` is what the i-th call of `rand` gives
unfoldable pub random_text : ℕ → (ℕ → ℕ) → Bytes
random_text zero rand = []
random_text (suc n) rand = (rand 0 % (127 - 32) + 32) ∷ random_text n (λ i. rand (suc i))

unfoldable pub generate_message : (ℕ → ℕ) → Bytes
unfolding random_text
generate_message rand = random_text (rand 0 % (size_msg - 2) + 1) (λ i. rand (suc i))

abbrev pub reg_in_queue : ℕ → Message
reg_in_queue pid = record { mtype = msg_type_reg; pid = pid; mtext = [] }

abbrev pub del_from_queue : ℕ → Message
del_from_queue pid = record { mtype = msg_type_del; pid = pid; mtext = [] }

-- the last `n` rounds of `sendMessages`
unfoldable pub send_rounds : ℕ → ℕ → (ℕ → ℕ → ℕ) → List Message
unfolding generate_message
send_rounds zero pid rands = []
send_rounds (suc n) pid rands =
    record { mtype = msg_type_data; pid = pid; mtext = generate_message (rands 0) }
    ∷ send_rounds n pid (λ i. rands (suc i))

unfoldable pub send_messages : ℕ → (ℕ → ℕ → ℕ) → List Message
unfolding send_rounds
send_messages pid rands = send_rounds count_messages pid rands

-- `main` of a sender whose calls succeed: what it sends
unfoldable pub script : ℕ → (ℕ → ℕ → ℕ) → List Message
unfolding send_messages
script pid rands = reg_in_queue pid ∷ (send_messages pid rands ++ del_from_queue pid ∷ [])

-- what a sender has yet to send, where `msgsnd` failed for this message
unfoldable pub after_failure : Message → List Message
after_failure m = if m.mtype == msg_type_data then del_from_queue m.pid ∷ [] else []

-- `todo` is what each sender has yet to send; `running` says that the master is in its loop.
pub record System : Type 0 where
  pub todo : ℕ → List Message
  pub queue : List Message
  pub exists_queue : Bool
  pub count : ℕ
  pub running : Bool
  pub printed : Bytes
  pub received : List Message
  pub failed : ℕ → Bool

-- lines 34 to 47: what a message is printed as, and the count behind it
unfoldable pub print_message : Message → Bytes
print_message m =
    if m.mtype == msg_type_reg
    then codes "New sender " ++ (decimal m.pid ++ codes "\n")
    else if m.mtype == msg_type_del
    then codes "Del sender " ++ (decimal m.pid ++ codes "\n")
    else codes "Process " ++ (decimal m.pid ++ (codes ": " ++ (m.mtext ++ codes "\n")))

unfoldable pub count_message : Message → ℕ → ℕ
count_message m count =
    if m.mtype == msg_type_reg
    then count + 1
    else if m.mtype == msg_type_del
    then count - 1
    else count

-- a round of `recMessages`, for the first message of the queue
unfoldable pub rec_message : Message → List Message → System → System
unfolding print_message count_message
rec_message m rest s = record s {
  queue = rest;
  count = count_message m s.count;
  running = ltb 0 (count_message m s.count);
  printed = s.printed ++ print_message m;
  received = s.received ++ m ∷ [];
}

-- a sender's list, with another in its place
abbrev pub with_todo : (ℕ → List Message) → ℕ → List Message → ℕ → List Message
with_todo todo pid rest q = if q == pid then rest else todo q

abbrev pub with_failed : (ℕ → Bool) → ℕ → ℕ → Bool
with_failed failed pid q = if q == pid then true else failed q

pub data Step : System → System → Type 0 where
  sends :
      (s : System) (pid : ℕ) (m : Message) (rest : List Message)
      → s.exists_queue ≡ true
      → s.todo pid ≡ m ∷ rest
      → Step s (record s { todo = with_todo s.todo pid rest; queue = s.queue ++ m ∷ [] })
  fails :
      (s : System) (pid : ℕ) (m : Message) (rest : List Message)
      → s.todo pid ≡ m ∷ rest
      → Step s (record s {
        todo = with_todo s.todo pid (after_failure m);
        failed = with_failed s.failed pid;
      })
  receives :
      (s : System) (m : Message) (rest : List Message)
      → s.running ≡ true
      → s.queue ≡ m ∷ rest
      → Step s (rec_message m rest s)
  closes :
      (s : System)
      → s.running ≡ false
      → s.exists_queue ≡ true
      → Step s (record s { queue = []; exists_queue = false })

abbrev pub new_system : (ℕ → ℕ → ℕ → ℕ) → System
new_system rands = record {
  todo = λ pid. script pid (rands pid);
  queue = [];
  exists_queue = true;
  count = 0;
  running = true;
  printed = codes "Queue was created\n";
  received = [];
  failed = λ p. false;
}

pub data Reachable (s₀ : System) : System → Type 0 where
  here : Reachable s₀ s₀
  then_step : {s s' : System} → Reachable s₀ s → Step s s' → Reachable s₀ s'
