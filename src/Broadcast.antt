-- ===== src/Broadcast.antt =====
-- 36/producer.c and 36/consumer.c: a message in shared memory that every registered consumer reads.
--
-- A step is one call on a semaphore or the message queue, or one access to the shared memory, of
-- the producer or of one consumer; a step that gives none waits. No such call fails, there are
-- fewer than 2 ^ 15 consumers. `sent` and `missed` record messages for the theorems and steer no
-- step.
pub mod Tally
pub mod Rounds
pub mod Outside
pub mod Turns
pub mod Consuming
pub mod Producing
pub mod Order
pub mod Progress
pub mod Objects
use os_solutions.Prelude.{
  ℕ, zero, suc, ◌+◌, ◌-◌, ◌%◌, ◌≡◌, Bool, Option, none, some, List, [], ◌∷◌, ◌==◌, ltb, leb,
  if◌then◌else◌, get_elem?, set, replicate, Bytes,
}

-- MSG_SIZE, START_CHAR and END_CHAR
abbrev pub msg_size : ℕ
msg_size = 50

abbrev pub start_char : ℕ
start_char = 32

abbrev pub end_char : ℕ
end_char = 127

-- the loop of `generateMessage`; `rand i` is what the i-th call of `rand` gives
unfoldable pub random_chars : ℕ → (ℕ → ℕ) → Bytes
random_chars zero rand = []
random_chars (suc n) rand =
    (rand 0 % (end_char - start_char) + start_char) ∷ random_chars n (λ i. rand (suc i))

unfoldable pub generate_message : (ℕ → ℕ) → Bytes
unfolding random_chars
generate_message rand = random_chars (rand 0 % (msg_size - 2) + 1) (λ i. rand (suc i))

-- where a consumer stands: before its registration, before its confirmation, before each call of
-- the loop, before the last call, at its exit, and ended
pub data ConsumerPlace : Type 0 where
  starting registering locking reading resetting unlocking leaving exiting gone : ConsumerPlace

-- `printed` is the output, the last message first; `locked` and `unlocked` count the calls with
-- SEM_UNDO that an exit undoes; `missed` are the messages of the rounds before its confirmation.
pub record Consumer : Type 0 where
  pub place : ConsumerPlace
  pub printed : List Bytes
  pub locked : ℕ
  pub unlocked : ℕ
  pub missed : List Bytes

-- where the producer stands in `produce`
pub data ProducerPlace : Type 0 where
  updating awaiting_zero writing releasing awaiting_reads ending releasing_end awaiting_end
        finished :
      ProducerPlace

-- The semaphores, the shared memory, the two types of messages in the queue, the producer with its
-- count and the messages that it has yet to send, and the consumers. `sent` are the messages of
-- the rounds that are over, the last first.
pub record System : Type 0 where
  pub sem_producer : ℕ
  pub sem_consumer : ℕ
  pub attached_mem : Bytes
  pub registrations : ℕ
  pub confirmations : ℕ
  pub producer : ProducerPlace
  pub count_consumers : ℕ
  pub messages_left : ℕ
  pub sent : List Bytes
  pub consumers : List Consumer

-- one call of `updConsumers`' loop, the test of the count behind it
unfoldable pub update_consumers : System → System
update_consumers s =
    if ltb 0 s.registrations
    then record s {
      registrations = s.registrations - 1;
      confirmations = s.confirmations + 1;
      count_consumers = s.count_consumers + 1;
    }
    else if s.count_consumers == 0
    then s
    else record s { producer = awaiting_zero }

-- a round is over
unfoldable pub end_round : System → System
end_round s = record s {
  sem_producer = s.sem_producer - s.count_consumers;
  sent = s.attached_mem ∷ s.sent;
  messages_left = s.messages_left - 1;
  producer = if s.messages_left - 1 == 0 then ending else updating;
}

-- `produce`
unfoldable pub produce : (ℕ → ℕ) → System → Option System
unfolding update_consumers end_round generate_message
produce rand s = elim s.producer [
  | updating ↦ some (update_consumers s)
  | awaiting_zero ↦ if s.sem_consumer == 0 then some (record s { producer = writing }) else none
  | writing ↦ some (record s { attached_mem = generate_message rand; producer = releasing })
  | releasing ↦
      some
        (record s { sem_consumer = s.sem_consumer + s.count_consumers; producer = awaiting_reads })
  | awaiting_reads ↦ if leb s.count_consumers s.sem_producer then some (end_round s) else none
  | ending ↦ some (record s { attached_mem = []; producer = releasing_end })
  | releasing_end ↦
      some (record s { sem_consumer = s.sem_consumer + s.count_consumers; producer = awaiting_end })
  | awaiting_end ↦
      if leb s.count_consumers s.sem_producer
      then some
          (record s { sem_producer = s.sem_producer - s.count_consumers; producer = finished })
      else none
  | finished ↦ none
]

-- what a consumer reads: END_PRODUCE, or a message that it prints
unfoldable pub read_message : Bytes → Consumer → Consumer
read_message [] c = record c { place = leaving }
read_message (b ∷ text) c = record c { place = resetting; printed = (b ∷ text) ∷ c.printed }

-- `consume` with `regInProducer`, and the exit: Linux undoes the calls of a process, down to zero
unfoldable pub consume : System → Consumer → Option (System × Consumer)
unfolding read_message
consume s c = elim c.place [
  | starting ↦
      some (record s { registrations = s.registrations + 1 }, record c { place = registering })
  | registering ↦
      if ltb 0 s.confirmations
      then some (
        record s { confirmations = s.confirmations - 1 },
        record c { place = locking; missed = s.sent },
      )
      else none
  | locking ↦
      if ltb 0 s.sem_consumer
      then some (
        record s { sem_consumer = s.sem_consumer - 1 },
        record c { place = reading; locked = c.locked + 1 },
      )
      else none
  | reading ↦ some (s, read_message s.attached_mem c)
  | resetting ↦ if s.sem_consumer == 0 then some (s, record c { place = unlocking }) else none
  | unlocking ↦ some (
    record s { sem_producer = s.sem_producer + 1 },
    record c { place = locking; unlocked = c.unlocked + 1 },
  )
  | leaving ↦ some (
    record s { sem_producer = s.sem_producer + 1 },
    record c { place = exiting; unlocked = c.unlocked + 1 },
  )
  | exiting ↦ some (
    record s {
      sem_producer = s.sem_producer - c.unlocked;
      sem_consumer = s.sem_consumer + c.locked;
    },
    record c { place = gone },
  )
  | gone ↦ none
]

-- a step of the producer, or of the consumer `i`
pub data Step : System → System → Type 0 where
  produces : (rand : ℕ → ℕ) (s s' : System) → produce rand s ≡ some s' → Step s s'
  consumes :
      (i : ℕ) (s s' : System) (c c' : Consumer)
      → get_elem? s.consumers i ≡ some c
      → consume s c ≡ some (s', c')
      → Step s (record s' { consumers = set s.consumers i c' })

abbrev pub new_consumer : Consumer
new_consumer = record { place = starting; printed = []; locked = 0; unlocked = 0; missed = [] }

-- `count` messages to send, and `n` consumers
abbrev pub new_system : ℕ → ℕ → System
new_system count n = record {
  sem_producer = 0;
  sem_consumer = 0;
  attached_mem = [];
  registrations = 0;
  confirmations = 0;
  producer = updating;
  count_consumers = 0;
  messages_left = count;
  sent = [];
  consumers = replicate n new_consumer;
}

pub data Reachable (s₀ : System) : System → Type 0 where
  here : Reachable s₀ s₀
  then_step : {s s' : System} → Reachable s₀ s → Step s s' → Reachable s₀ s'
